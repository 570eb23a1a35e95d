-- ===== src/Base/Lists.antt =====
-- Lists measured and indexed by native numbers, under the library's names, and writes of a run
-- of bytes into an array.
use Prim.Native.Nat.{ℕ, zero, suc, ◌+◌, ◌-◌, ◌≤◌, ◌<◌}
use mathlib.Core.Path.{◌≡◌, refl, ap, ap₂, ◌∙◌}
use mathlib.Core.List.{List, [], ◌∷◌, ◌++◌, append_assoc, append-nil}
use native.Mathlib.Omega.{arith}

module _ {ℓ} {A : Type ℓ} where
  abbrev pub length : List A → ℕ
  length [] = 0
  length (x ∷ xs) = suc (length xs)

  abbrev pub get_or : List A → ℕ → A → A
  get_or [] i d = d
  get_or (x ∷ xs) zero d = x
  get_or (x ∷ xs) (suc i) d = get_or xs i d

  abbrev pub take : ℕ → List A → List A
  take zero xs = []
  take (suc n) [] = []
  take (suc n) (x ∷ xs) = x ∷ take n xs

  abbrev pub drop : ℕ → List A → List A
  drop zero xs = xs
  drop (suc n) [] = []
  drop (suc n) (x ∷ xs) = drop n xs

  abbrev pub replicate : ℕ → A → List A
  replicate zero a = []
  replicate (suc n) a = a ∷ replicate n a

  pub length-append : (xs ys : List A) → length (xs ++ ys) ≡ length xs + length ys
  length-append [] ys = omega arith
  length-append (x ∷ xs) ys = omega (arith, length-append xs ys)

  pub length-take : (n : ℕ) (xs : List A) → n ≤ length xs → length (take n xs) ≡ n
  length-take zero xs h = refl
  length-take (suc n) [] h = absurd (omega arith)
  length-take (suc n) (x ∷ xs) h = ap suc (length-take n xs (omega arith))

  pub length-drop : (n : ℕ) (xs : List A) → length (drop n xs) ≡ length xs - n
  length-drop zero xs = omega arith
  length-drop (suc n) [] = omega arith
  length-drop (suc n) (x ∷ xs) = omega (arith, length-drop n xs)

  pub take-append-drop : (n : ℕ) (xs : List A) → take n xs ++ drop n xs ≡ xs
  take-append-drop zero xs = refl
  take-append-drop (suc n) [] = refl
  take-append-drop (suc n) (x ∷ xs) = ap (◌∷◌ x) (take-append-drop n xs)

  pub drop_all : (n : ℕ) (xs : List A) → length xs ≤ n → drop n xs ≡ []
  drop_all zero [] h = refl
  drop_all zero (x ∷ xs) h = absurd (omega arith)
  drop_all (suc n) [] h = refl
  drop_all (suc n) (x ∷ xs) h = drop_all n xs (omega arith)

  pub length-replicate : (n : ℕ) (a : A) → length (replicate n a) ≡ n
  length-replicate zero a = refl
  length-replicate (suc n) a = ap suc (length-replicate n a)

  pub take-append : (xs ys : List A) → take (length xs) (xs ++ ys) ≡ xs
  take-append [] ys = refl
  take-append (x ∷ xs) ys = ap (◌∷◌ x) (take-append xs ys)

  pub take_all : (xs : List A) → take (length xs) xs ≡ xs
  take_all [] = refl
  take_all (x ∷ xs) = ap (◌∷◌ x) (take_all xs)

  pub take_more : (n : ℕ) (xs : List A) → length xs ≤ n → take n xs ≡ xs
  take_more zero [] h = refl
  take_more (suc n) [] h = refl
  take_more zero (x ∷ xs) h = absurd (omega arith)
  take_more (suc n) (x ∷ xs) h = ap (◌∷◌ x) (take_more n xs (omega arith))

  pub drop-append : (xs ys : List A) (n : ℕ) → drop (length xs + n) (xs ++ ys) ≡ drop n ys
  drop-append [] ys n = ap (λ k. drop k ys) (omega arith)
  drop-append (x ∷ xs) ys n =
      let k : suc (length xs) + n ≡ suc (length xs + n) = omega arith in
      ap (λ m. drop m (x ∷ (xs ++ ys))) k ∙ drop-append xs ys n

  pub take-take : (m n : ℕ) (xs : List A) → m ≤ n → take m (take n xs) ≡ take m xs
  take-take zero n xs h = refl
  take-take (suc m) zero xs h = absurd (omega arith)
  take-take (suc m) (suc n) [] h = refl
  take-take (suc m) (suc n) (x ∷ xs) h = ap (◌∷◌ x) (take-take m n xs (omega arith))

  pub get_or-take : (n i : ℕ) (xs : List A) (d : A) → i < n → get_or (take n xs) i d ≡ get_or xs i d
  get_or-take zero i xs d h = absurd (omega arith)
  get_or-take (suc n) i [] d h = refl
  get_or-take (suc n) zero (x ∷ xs) d h = refl
  get_or-take (suc n) (suc i) (x ∷ xs) d h = get_or-take n i xs d (omega arith)

  pub get_or-append :
      (xs ys : List A) (i : ℕ) (d : A) → i < length xs → get_or (xs ++ ys) i d ≡ get_or xs i d
  get_or-append [] ys i d h = absurd (omega arith)
  get_or-append (x ∷ xs) ys zero d h = refl
  get_or-append (x ∷ xs) ys (suc i) d h = get_or-append xs ys i d (omega arith)

-- `recv` or `memcpy` into an array from index `k` on.
module _ {ℓ} {A : Type ℓ} where
  pub write_at : List A → ℕ → List A → List A
  write_at xs k bs = take k xs ++ (bs ++ drop (k + length bs) xs)

  pub write_at_lem :
      (xs : List A) (k : ℕ) (bs : List A)
      → write_at xs k bs ≡ take k xs ++ (bs ++ drop (k + length bs) xs)
  unfolding write_at
  write_at_lem xs k bs = refl

  -- A write behind the first part of an array.
  pub write_at_append :
      (xs ys bs : List A) → write_at (xs ++ ys) (length xs) bs ≡ xs ++ (bs ++ drop (length bs) ys)
  unfolding write_at
  write_at_append xs ys bs =
      ap₂ (λ a b. a ++ (bs ++ b)) (take-append xs ys) (drop-append xs ys (length bs))

  pub length-write_at :
      (xs : List A) (k : ℕ) (bs : List A)
      → k + length bs ≤ length xs
      → length (write_at xs k bs) ≡ length xs
  unfolding write_at
  length-write_at xs k bs h = omega (
    arith,
    length-append (take k xs) (bs ++ drop (k + length bs) xs),
    length-append bs (drop (k + length bs) xs),
    length-take k xs (omega arith),
    length-drop (k + length bs) xs,
  )

  pub take-write_at :
      (xs : List A) (k : ℕ) (bs : List A)
      → k + length bs ≤ length xs
      → take (k + length bs) (write_at xs k bs) ≡ take k xs ++ bs
  unfolding write_at
  take-write_at xs k bs h = rw (← append_assoc (take k xs) bs (drop (k + length bs) xs)) (
      let n : k + length bs ≡ length (take k xs ++ bs) =
        omega (arith, length-append (take k xs) bs, length-take k xs (omega arith)) in
      (ap (λ t. take t ((take k xs ++ bs) ++ drop (k + length bs) xs)) n)
      ∙ take-append (take k xs ++ bs) (drop (k + length bs) xs))

  -- A write over the whole array leaves what was written.
  pub write_at_all : (xs bs : List A) → length bs ≡ length xs → write_at xs 0 bs ≡ bs
  unfolding write_at
  write_at_all xs bs h =
      ap (λ t. bs ++ t) (drop_all (0 + length bs) xs (omega arith)) ∙ append-nil bs

  -- A write leaves what stands before it.
  pub get_or-write_at :
      (xs : List A) (k : ℕ) (bs : List A) (i : ℕ) (d : A)
      → i < k
      → k ≤ length xs
      → get_or (write_at xs k bs) i d ≡ get_or xs i d
  unfolding write_at
  get_or-write_at xs k bs i d h fits =
      get_or-append (take k xs) (bs ++ drop (k + length bs) xs) i d
        (omega (arith, length-take k xs fits))
      ∙ get_or-take k i xs d h

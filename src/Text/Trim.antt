-- ===== src/Text/Trim.antt =====
-- misc/XiaoHG_alg.cxx: what the three functions leave of a string.
use xiao_hg_server.Base.{
  ℕ, zero, suc, ◌≡◌, ◌≢◌, refl, sym, ap, ap₂, ◌∙◌, inl, inr, List, [], ◌∷◌, ◌++◌, arith,
  if◌then◌else◌, ◌==◌, ==_iff, length, take, get_or, replicate, Bool-cases, append_assoc,
  append-nil, length-take, eq-false→ne,
}
use xiao_hg_server.Text.{space, rtrim_loop, rtrim, skip_spaces, move_front, ltrim}

-- No space at the end.
pub data NoTrailing : List ℕ → Type 0 where
  nothing_left : NoTrailing []
  ends_with : (s : List ℕ) (c : ℕ) → c ≢ space → NoTrailing (s ++ (c ∷ []))

-- No space at the front.
pub data NoLeading : List ℕ → Type 0 where
  no_text : NoLeading []
  starts_with : (c : ℕ) (s : List ℕ) → c ≢ space → NoLeading (c ∷ s)

pub record RightTrimmed (s r : List ℕ) : Type 0 where
  pub cut : ℕ
  pub parts : s ≡ r ++ replicate cut space
  pub no_trailing : NoTrailing r

pub record LeftTrimmed (s r : List ℕ) : Type 0 where
  pub cut : ℕ
  pub parts : s ≡ replicate cut space ++ r
  pub no_leading : NoLeading r

-- A string of a known length, by its last character.
last-split : (n : ℕ) (s : List ℕ) → length s ≡ suc n → s ≡ take n s ++ (get_or s n 0 ∷ [])
last-split zero (c ∷ []) h = refl
last-split zero (c ∷ d ∷ s) h = absurd (omega arith)
last-split (suc n) (c ∷ s) h = ap (◌∷◌ c) (last-split n s (omega arith))
last-split n [] h = absurd (omega arith)

replicate_snoc : (n c : ℕ) → (c ∷ []) ++ replicate n c ≡ replicate n c ++ (c ∷ [])
replicate_snoc zero c = refl
replicate_snoc (suc n) c = ap (◌∷◌ c) (replicate_snoc n c)

rtrim_loop_lem : (n : ℕ) (s : List ℕ) → length s ≡ n → RightTrimmed s (rtrim_loop n s)
unfolding rtrim_loop
rtrim_loop_lem zero [] h = record { cut = 0; parts = refl; no_trailing = nothing_left }
rtrim_loop_lem zero (c ∷ s) h = absurd (omega arith)
rtrim_loop_lem (suc n) s h =
    let split = last-split n s h in
    elim (Bool-cases (get_or s n 0 == space)) [
      | inl e ↦
          let last : get_or s n 0 ≡ space = (==_iff (get_or s n 0) space).0 e in
          let r = rtrim_loop_lem n (take n s) (length-take n s (omega arith)) in
          rw e (record {
            cut = suc r.cut;
            parts =
                split
                ∙ ap₂ (λ a b. a ++ (b ∷ [])) r.parts last
                ∙ append_assoc (rtrim_loop n (take n s)) (replicate r.cut space) (space ∷ [])
                ∙ ap (λ z. rtrim_loop n (take n s) ++ z) (sym (replicate_snoc r.cut space));
            no_trailing = r.no_trailing;
          })
      | inr e ↦ rw e (record {
        cut = 0;
        parts = sym (append-nil s);
        no_trailing = rw split (ends_with (take n s) (get_or s n 0) (eq-false→ne _ space e));
      })
    ]

move_front_lem : (s : List ℕ) → move_front s ≡ s
unfolding move_front
move_front_lem [] = refl
move_front_lem (c ∷ s) = ap (◌∷◌ c) (move_front_lem s)

skip_spaces_lem : (s : List ℕ) → LeftTrimmed s (skip_spaces s)
unfolding skip_spaces
skip_spaces_lem [] = record { cut = 0; parts = refl; no_leading = no_text }
skip_spaces_lem (c ∷ s) = elim (Bool-cases (c == space)) [
  | inl e ↦
      let r = skip_spaces_lem s in
      rw e (record {
        cut = suc r.cut;
        parts = ap₂ (λ a b. a ∷ b) ((==_iff c space).0 e) r.parts;
        no_leading = r.no_leading;
      })
  | inr e ↦
      rw e (record { cut = 0; parts = refl; no_leading = starts_with c s (eq-false→ne c space e) })
]

ltrim-skip_spaces : (s : List ℕ) → ltrim s ≡ skip_spaces s
unfolding ltrim skip_spaces
ltrim-skip_spaces [] = refl
ltrim-skip_spaces (c ∷ s) =
    ap (λ r. if c == space then r else c ∷ s) (move_front_lem (skip_spaces s))

-- `Rtrim` takes away spaces at the end, and all of them; `Ltrim` does the same at the front.
pub rtrim-ltrim_lem : (s : List ℕ) → RightTrimmed s (rtrim s) × LeftTrimmed s (ltrim s)
unfolding rtrim
rtrim-ltrim_lem s = (rtrim_loop_lem (length s) s refl, rw (ltrim-skip_spaces s) (skip_spaces_lem s))

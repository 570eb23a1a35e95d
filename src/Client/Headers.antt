-- ===== src/Client/Headers.antt =====
-- test/test_logic.cxx: the header in a block of the client.
use xiao_hg_server.Base.{
  ℕ, zero, suc, ◌+◌, ◌≤◌, ◌<◌, ◌≡◌, refl, sym, subst, ap, ◌∙◌, List, [], ◌∷◌, ◌++◌, arith, All,
  All-append, length, take, drop, write_at, write_at_lem, length-write_at, take-take, length-take,
}
use xiao_hg_server.Business.{htons}
use xiao_hg_server.Business.Reply.{All-drop}
use xiao_hg_server.Client.{headed_block}
use xiao_hg_server.Comm.{len_pkg_header}

abbrev pub IsByte : ℕ → Type 0
IsByte b = b < 256

All-take : (n : ℕ) (xs : List ℕ) → All IsByte xs → All IsByte (take n xs)
All-take zero xs h = tt
All-take (suc n) [] h = h
All-take (suc n) (x ∷ xs) h = (h.0, All-take n xs h.1)

All-write_at :
    (xs : List ℕ) (k : ℕ) (bs : List ℕ)
    → All IsByte xs
    → All IsByte bs
    → All IsByte (write_at xs k bs)
All-write_at xs k bs h g = subst (All IsByte) (sym (write_at_lem xs k bs)) (
    All-append IsByte (take k xs) (bs ++ drop (k + length bs) xs) (All-take k xs h)
      (All-append IsByte bs (drop (k + length bs) xs) g (All-drop (k + length bs) xs h)))

take_first : (n : ℕ) (xs ys : List ℕ) → n ≤ length xs → take n (xs ++ ys) ≡ take n xs
take_first zero xs ys h = refl
take_first (suc n) [] ys h = absurd (omega arith)
take_first (suc n) (x ∷ xs) ys h = ap (◌∷◌ x) (take_first n xs ys (omega arith))

-- A write behind the first `n` entries leaves them.
take-write_at_behind :
    (n : ℕ) (xs : List ℕ) (k : ℕ) (bs : List ℕ)
    → n ≤ k
    → k ≤ length xs
    → take n (write_at xs k bs) ≡ take n xs
take-write_at_behind n xs k bs h fits =
    ap (take n) (write_at_lem xs k bs)
    ∙ take_first n (take k xs) (bs ++ drop (k + length bs) xs)
        (omega (arith, length-take k xs fits))
    ∙ take-take n k xs h

-- A buffer of a packet: `size` bytes, of which the first four are the length and the code.
pub record IsHeaded (size code : ℕ) (b : List ℕ) : Type 0 where
  pub long : length b ≡ len_pkg_header + size
  pub bytes : All IsByte b
  pub head : take 4 b ≡ htons (len_pkg_header + size) ++ htons code

-- The two writes of a header's first half.
pub stamped :
    (c d l m x y z w : ℕ) (rest : List ℕ)
    → write_at (write_at (x ∷ y ∷ z ∷ w ∷ rest) 2 (c ∷ d ∷ [])) 0 (l ∷ m ∷ [])
      ≡ l ∷ m ∷ c ∷ d ∷ rest
stamped c d l m x y z w rest =
    ap (λ b. write_at b 0 (l ∷ m ∷ [])) (write_at_lem (x ∷ y ∷ z ∷ w ∷ rest) 2 (c ∷ d ∷ []))
    ∙ write_at_lem (x ∷ y ∷ c ∷ d ∷ rest) 0 (l ∷ m ∷ [])

-- A list of four entries and more.
pub four :
    (P : List ℕ → Type 0) (b : List ℕ)
    → 4 ≤ length b
    → ((x y z w : ℕ) (rest : List ℕ) → P (x ∷ y ∷ z ∷ w ∷ rest))
    → P b
four P (x ∷ y ∷ z ∷ w ∷ rest) h f = f x y z w rest
four P [] h f = absurd (omega arith)
four P (x ∷ []) h f = absurd (omega arith)
four P (x ∷ y ∷ []) h f = absurd (omega arith)
four P (x ∷ y ∷ z ∷ []) h f = absurd (omega arith)

take-headed :
    (c d l m : ℕ) (block : List ℕ)
    → 4 ≤ length block
    → take 4 (write_at (write_at block 2 (c ∷ d ∷ [])) 0 (l ∷ m ∷ [])) ≡ l ∷ m ∷ c ∷ d ∷ []
take-headed c d l m block h =
    four (λ b. take 4 (write_at (write_at b 2 (c ∷ d ∷ [])) 0 (l ∷ m ∷ [])) ≡ l ∷ m ∷ c ∷ d ∷ [])
      block h (λ x y z w rest. ap (take 4) (stamped c d l m x y z w rest))

htons-bytes : (n : ℕ) → All IsByte (htons n)
htons-bytes n = omega arith

pub headed_block-IsHeaded :
    (code size : ℕ) (block : List ℕ)
    → length block ≡ len_pkg_header + size
    → All IsByte block
    → IsHeaded size code (headed_block code size block)
unfolding headed_block
headed_block-IsHeaded code size block e h =
    let b : List ℕ = write_at block 2 (htons code) in
    let long : length b ≡ length block = length-write_at block 2 (htons code) (omega (arith, e)) in
    record {
      long =
          length-write_at b 0 (htons (len_pkg_header + size)) (omega (arith, long, e)) ∙ long ∙ e;
      bytes =
          All-write_at b 0 (htons (len_pkg_header + size))
            (All-write_at block 2 (htons code) h (htons-bytes code))
            (htons-bytes (len_pkg_header + size));
      head = take-headed _ _ _ _ block (omega (arith, e));
    }

-- A write into the body.
pub write_at-IsHeaded :
    (size code : ℕ) (b : List ℕ) (k : ℕ) (bs : List ℕ)
    → IsHeaded size code b
    → len_pkg_header ≤ k
    → k + length bs ≤ len_pkg_header + size
    → All IsByte bs
    → IsHeaded size code (write_at b k bs)
write_at-IsHeaded size code b k bs h behind fits bytes = record {
  long = length-write_at b k bs (omega (arith, h.long)) ∙ h.long;
  bytes = All-write_at b k bs h.bytes bytes;
  head = take-write_at_behind 4 b k bs (omega arith) (omega (arith, h.long)) ∙ h.head;
}

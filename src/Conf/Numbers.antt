-- ===== src/Conf/Numbers.antt =====
-- app/XiaoHG_C_Conf.cxx: numbers in the configuration file.
use xiao_hg_server.Base.{
  ◌^◌, lt→ltb, ℕ, zero, suc, pos, ◌+◌, ◌-◌, ◌*◌, ◌/◌, ◌%◌, ◌≤◌, ◌<◌, ◌≡◌, refl, ap, ◌∙◌, inl, inr,
  true, false, ◌&&◌, ◌||◌, List, [], ◌∷◌, arith, ltb, leb, ◌==◌, Bool-cases, ltb→lt, ltb-false,
}
use xiao_hg_server.Conf.{
  as_int, leading_number, digits_value, signed_value, atoi, decimal_before, decimal,
}

-- Reading goes on behind the digits that were written.
digits_value-decimal_before :
    (fuel n : ℕ) (tail : List ℕ)
    → n < fuel
    → digits_value 0 (decimal_before fuel n tail) ≡ digits_value n tail
unfolding digits_value decimal_before
digits_value-decimal_before zero n tail h = absurd (omega arith)
digits_value-decimal_before (suc fuel) n tail h = elim (Bool-cases (ltb n 10)) [
  | inl e ↦
      let small = ltb→lt n 10 e in
      let is : (leb 48 (48 + n % 10) && leb (48 + n % 10) 57) ≡ true = ground arith in
      let value : 0 * 10 + (48 + n % 10 - 48) ≡ n = omega arith in
      rw e (rw is (ap (λ m. digits_value m tail) value))
  | inr e ↦
      let big = ltb-false n 10 e in
      let is : (leb 48 (48 + n % 10) && leb (48 + n % 10) 57) ≡ true = ground arith in
      let value : n / 10 * 10 + (48 + n % 10 - 48) ≡ n = omega arith in
      rw e (
        digits_value-decimal_before fuel (n / 10) ((48 + n % 10) ∷ tail) (omega arith)
        ∙ rw is (ap (λ m. digits_value m tail) value))
]

-- The first character that is written is a digit.
data Digit : List ℕ → Type 0 where
  digit_first : (c : ℕ) (s : List ℕ) → 48 ≤ c → c ≤ 57 → Digit (c ∷ s)

decimal_before-Digit : (fuel n : ℕ) (tail : List ℕ) → n < fuel → Digit (decimal_before fuel n tail)
unfolding decimal_before
decimal_before-Digit zero n tail h = absurd (omega arith)
decimal_before-Digit (suc fuel) n tail h = elim (Bool-cases (ltb n 10)) [
  | inl e ↦ rw e (digit_first (48 + n % 10) tail (omega arith) (omega arith))
  | inr e ↦
      let big = ltb-false n 10 e in
      rw e (decimal_before-Digit fuel (n / 10) ((48 + n % 10) ∷ tail) (omega arith))
]

leading_number-Digit : (s : List ℕ) → Digit s → leading_number s ≡ pos (digits_value 0 s)
unfolding leading_number signed_value
leading_number-Digit _ (digit_first c s lo hi) =
    let not_blank : (c == 32 || (leb 9 c && leb c 13)) ≡ false = ground arith in
    let not_minus : (c == 45) ≡ false = ground arith in
    let not_plus : (c == 43) ≡ false = ground arith in rw (not_blank, not_minus, not_plus) refl

as_int-small : (n : ℕ) → n < 2 ^ 31 → as_int (pos n) ≡ pos n
unfolding as_int
as_int-small n h =
    let fits : ltb n (2 ^ 63) ≡ true = lt→ltb n (2 ^ 63) (omega arith) in
    let small : ltb n (2 ^ 31) ≡ true = lt→ltb n (2 ^ 31) h in
    let same : n % 2 ^ 32 ≡ n = omega arith in rw fits (rw same (rw small refl))

-- `atoi` reads a number that `sprintf` wrote with `%d`.
pub atoi-decimal : (n : ℕ) → n < 2 ^ 31 → atoi (decimal n) ≡ pos n
unfolding atoi decimal digits_value
atoi-decimal n h =
    ap as_int (
      leading_number-Digit (decimal_before (suc n) n [])
        (decimal_before-Digit (suc n) n [] (omega arith))
      ∙ ap pos (digits_value-decimal_before (suc n) n [] (omega arith)))
    ∙ as_int-small n h

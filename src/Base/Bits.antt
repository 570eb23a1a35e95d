-- ===== src/Base/Bits.antt =====
-- Exclusive or on the native numbers, from its lowest digit up.
use Prim.Native.Nat.{
  ℕ, zero, suc, ◌+◌, ◌-◌, ◌*◌, ◌/◌, ◌%◌, ◌≤◌, ◌<◌, ◌^◌, bit_xor, digits, differ, bit_xor-bitwise,
}
use mathlib.Core.Path.{◌≡◌, refl, sym, ◌∙◌, ap, ap₂}
use mathlib.Core.Logic.{◌⊎◌, inl, inr}
use native.Mathlib.Omega.{arith}

abbrev run : ℕ → ℕ → ℕ → ℕ
run count x y = digits (λ rest. rest) differ count x y

run_zero : (count y : ℕ) → run count 0 y ≡ y
run_zero zero y = refl
run_zero (suc count) y = refl

-- A count that is larger than it needs to be changes nothing.
run_more : (count more x y : ℕ) → x ≤ count → run (count + more) x y ≡ run count x y
run_more count more zero y fits = run_zero (count + more) y ∙ sym (run_zero count y)
run_more zero more (suc x) y fits = absurd (omega arith)
run_more (suc count) more (suc x) y fits =
    let longer : suc count + more ≡ suc (count + more) = omega arith in
    rw longer (
      ap (λ high. high * 2 + differ (suc x % 2) (y % 2))
        (run_more count more (suc x / 2) (y / 2) (omega arith)))

pub zero-bit_xor : (y : ℕ) → bit_xor 0 y ≡ y
zero-bit_xor y = bit_xor-bitwise 0 y

bit_xor_step : (x y : ℕ) → bit_xor x y ≡ bit_xor (x / 2) (y / 2) * 2 + differ (x % 2) (y % 2)
bit_xor_step zero y = zero-bit_xor y ∙ omega (arith, zero-bit_xor (y / 2))
bit_xor_step (suc x) y =
    let half : ℕ = suc x / 2 in
    let enough : half + (x - half) ≡ x = omega arith in
    let high : run x half (y / 2) ≡ bit_xor half (y / 2) =
      ap (λ count. run count half (y / 2)) (sym enough)
      ∙ run_more half (x - half) half (y / 2) (omega arith)
      ∙ sym (bit_xor-bitwise half (y / 2)) in
    bit_xor-bitwise (suc x) y ∙ ap (λ h. h * 2 + differ (suc x % 2) (y % 2)) high

parity : (a : ℕ) → (a % 2 ≡ 0) ⊎ (a % 2 ≡ 1)
parity a = ground arith

-- On two digits.
data DigitXor (p q r : ℕ) : Type 0 where
  both : p ≡ q → r ≡ 0 → DigitXor p q r
  one : p + q ≡ 1 → r ≡ 1 → DigitXor p q r

digit_xor : (a b : ℕ) → DigitXor (a % 2) (b % 2) (differ (a % 2) (b % 2))
digit_xor a b = elim (parity a) [
  | inl p ↦ elim (parity b) [
    | inl q ↦ rw (p, q) (both refl refl)
    | inr q ↦ rw (p, q) (one refl refl)
  ]
  | inr p ↦ elim (parity b) [
    | inl q ↦ rw (p, q) (one refl refl)
    | inr q ↦ rw (p, q) (both refl refl)
  ]
]

pub bit_xor_half : (a b : ℕ) → bit_xor a b / 2 ≡ bit_xor (a / 2) (b / 2)
bit_xor_half a b = elim (digit_xor a b) [
  | both e r ↦ omega (arith, bit_xor_step a b)
  | one e r ↦ omega (arith, bit_xor_step a b)
]

pub bit_xor_parity : (a b : ℕ) → bit_xor a b % 2 ≡ (a % 2 + b % 2) % 2
bit_xor_parity a b = elim (digit_xor a b) [
  | both e r ↦ omega (arith, bit_xor_step a b)
  | one e r ↦ omega (arith, bit_xor_step a b)
]

halves : (x y : ℕ) → x / 2 ≡ y / 2 → x % 2 ≡ y % 2 → x ≡ y
halves x y h p = omega arith

comm_fuel : (n a b : ℕ) → a ≤ n → b ≤ n → bit_xor a b ≡ bit_xor b a
comm_fuel zero zero zero ha hb = refl
comm_fuel zero zero (suc b) ha hb = absurd (omega arith)
comm_fuel zero (suc a) b ha hb = absurd (omega arith)
comm_fuel (suc n) a b ha hb =
    halves _ _
      (bit_xor_half a b
        ∙ comm_fuel n (a / 2) (b / 2) (omega arith) (omega arith)
        ∙ sym (bit_xor_half b a))
      (omega (arith, bit_xor_parity a b, bit_xor_parity b a))

pub bit_xor_comm : (a b : ℕ) → bit_xor a b ≡ bit_xor b a
bit_xor_comm a b = comm_fuel (a + b) a b (omega arith) (omega arith)

assoc_fuel : (n a b c : ℕ) → a + b + c ≤ n → bit_xor (bit_xor a b) c ≡ bit_xor a (bit_xor b c)
assoc_fuel zero zero zero zero h = refl
assoc_fuel zero zero zero (suc c) h = absurd (omega arith)
assoc_fuel zero zero (suc b) c h = absurd (omega arith)
assoc_fuel zero (suc a) b c h = absurd (omega arith)
assoc_fuel (suc n) a b c h =
    let half : bit_xor (bit_xor a b) c / 2 ≡ bit_xor a (bit_xor b c) / 2 =
      rw
        (
          bit_xor_half (bit_xor a b) c,
          bit_xor_half a b,
          bit_xor_half a (bit_xor b c),
          bit_xor_half b c,
        )
        (assoc_fuel n (a / 2) (b / 2) (c / 2) (omega arith)) in
    halves _ _ half (
      omega (
        arith,
        bit_xor_parity (bit_xor a b) c,
        bit_xor_parity a b,
        bit_xor_parity a (bit_xor b c),
        bit_xor_parity b c,
      ))

pub bit_xor_assoc : (a b c : ℕ) → bit_xor (bit_xor a b) c ≡ bit_xor a (bit_xor b c)
bit_xor_assoc a b c = assoc_fuel (a + b + c) a b c (omega arith)

pub bit_xor-zero : (a : ℕ) → bit_xor a 0 ≡ a
bit_xor-zero a = bit_xor_comm a 0 ∙ zero-bit_xor a

module _ where
  pow_suc : (n y : ℕ) → y * 2 ^ suc n ≡ y * 2 ^ n * 2
  pow_suc n y = grind arith

  pub bit_xor-lt : (n a b : ℕ) → a < 2 ^ n → b < 2 ^ n → bit_xor a b < 2 ^ n
  bit_xor-lt zero zero zero ha hb = ha
  bit_xor-lt zero zero (suc b) ha hb = absurd (omega arith)
  bit_xor-lt zero (suc a) b ha hb = absurd (omega arith)
  bit_xor-lt (suc n) a b ha hb =
      let e = pow_suc n 1 in
      let h = bit_xor-lt n (a / 2) (b / 2) (omega arith) (omega arith) in
      omega (arith, bit_xor_half a b)

  pub bit_xor-above : (n x y : ℕ) → x < 2 ^ n → bit_xor x (y * 2 ^ n) ≡ x + y * 2 ^ n
  bit_xor-above zero zero y h = zero-bit_xor (y * 1) ∙ omega arith
  bit_xor-above zero (suc x) y h = absurd (omega arith)
  bit_xor-above (suc n) x y h =
      let e = pow_suc n y in
      let o = pow_suc n 1 in
      rw e (
        halves _ _
          (bit_xor_half x (y * 2 ^ n * 2)
            ∙ ap₂ bit_xor refl (omega arith)
            ∙ bit_xor-above n (x / 2) y (omega arith)
            ∙ omega arith)
          (omega (arith, bit_xor_parity x (y * 2 ^ n * 2))))

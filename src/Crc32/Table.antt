-- ===== src/Crc32/Table.antt =====
-- misc/XiaoHG_C_Crc32.cxx: the checksum against its definition one bit at a time.
use Prim.Native.Nat.{bit_xor}
use xiao_hg_server.Base.{
  if◌then◌else◌, ◌==◌, false, ℕ, zero, suc, ◌*◌, ◌/◌, ◌%◌, ◌^◌, ◌<◌, ◌≡◌, refl, List, [], ◌∷◌, Bool,
  true, arith, ap, ap₂, sym, ◌∙◌, All,
}
use xiao_hg_server.Base.Bits.{
  bit_xor_half, bit_xor_parity, bit_xor_assoc, bit_xor_comm, bit_xor-lt, bit_xor-above,
}
use xiao_hg_server.Crc32.{crc32_table, crc_loop, get_crc}

-- One bit of the reflected division by the polynomial.
pub crc_bit : ℕ → ℕ
crc_bit c = bit_xor (c / 2) (c % 2 * 0xedb88320)

pub crc_bits : ℕ → ℕ → ℕ
unfolding crc_bit
crc_bits zero c = c
crc_bits (suc n) c = crc_bits n (crc_bit c)

-- The entries below `n` are what eight rounds make of their index.
table_agrees : ℕ → Bool
table_agrees zero = true
table_agrees (suc n) = if crc32_table n == crc_bits 8 n then table_agrees n else false

table_agrees_lem : (n i : ℕ) → table_agrees n ≡ true → i < n → crc32_table i ≡ crc_bits 8 i
unfolding table_agrees
table_agrees_lem zero i agrees inside = absurd (omega arith)
table_agrees_lem (suc n) i agrees inside = ground (arith, table_agrees_lem n i)

whole_table : table_agrees 256 ≡ true
unfolding table_agrees crc32_table crc_bits
whole_table = refl

crc32_table-crc_bits : (i : ℕ) → i < 256 → crc32_table i ≡ crc_bits 8 i
crc32_table-crc_bits i h = table_agrees_lem 256 i whole_table h

crc_bit-above : (x y : ℕ) → crc_bit (bit_xor x (y * 2)) ≡ bit_xor (crc_bit x) y
unfolding crc_bit
crc_bit-above x y =
    let half : bit_xor x (y * 2) / 2 ≡ bit_xor (x / 2) y =
      bit_xor_half x (y * 2) ∙ ap (bit_xor (x / 2)) (omega arith) in
    let low : bit_xor x (y * 2) % 2 ≡ x % 2 = omega (arith, bit_xor_parity x (y * 2)) in
    let p : ℕ = x % 2 * 0xedb88320 in
    ap₂ (λ h l. bit_xor h (l * 0xedb88320)) half low
    ∙ bit_xor_assoc (x / 2) y p
    ∙ ap (bit_xor (x / 2)) (bit_xor_comm y p)
    ∙ sym (bit_xor_assoc (x / 2) p y)

-- The bits above the lowest `n` are only moved down by `n` rounds.
crc_bits-above : (n x y : ℕ) → crc_bits n (bit_xor x (y * 2 ^ n)) ≡ bit_xor (crc_bits n x) y
unfolding crc_bits
crc_bits-above zero x y = ap (bit_xor x) (omega arith)
crc_bits-above (suc n) x y =
    let e : y * 2 ^ suc n ≡ y * 2 ^ n * 2 = grind arith in
    rw e (ap (crc_bits n) (crc_bit-above x (y * 2 ^ n)) ∙ crc_bits-above n (crc_bit x) y)

-- What a byte does to the remainder, by eight rounds of the division.
pub crc_byte : ℕ → ℕ → ℕ
unfolding crc_bits
crc_byte crc b = crc_bits 8 (bit_xor crc b)

pub crc_bytes : List ℕ → ℕ → ℕ
unfolding crc_byte
crc_bytes [] crc = crc
crc_bytes (b ∷ bs) crc = crc_bytes bs (crc_byte crc b)

table_step :
    (crc b : ℕ)
    → b < 256
    → bit_xor (crc / 2 ^ 8) (crc32_table (bit_xor (crc % 2 ^ 8) b)) ≡ crc_byte crc b
unfolding crc_byte
table_step crc b h =
    let low : ℕ = crc % 2 ^ 8 in
    let high : ℕ = crc / 2 ^ 8 in
    let split : crc ≡ bit_xor low (high * 2 ^ 8) =
      omega (arith, bit_xor-above 8 low high (omega arith)) in
    let moved : bit_xor crc b ≡ bit_xor (bit_xor low b) (high * 2 ^ 8) =
      ap (λ c. bit_xor c b) split
      ∙ bit_xor_assoc low (high * 2 ^ 8) b
      ∙ ap (bit_xor low) (bit_xor_comm (high * 2 ^ 8) b)
      ∙ sym (bit_xor_assoc low b (high * 2 ^ 8)) in
    ap (bit_xor high) (crc32_table-crc_bits (bit_xor low b) (bit_xor-lt 8 low b (omega arith) h))
    ∙ bit_xor_comm high (crc_bits 8 (bit_xor low b))
    ∙ sym (crc_bits-above 8 (bit_xor low b) high)
    ∙ ap (crc_bits 8) (sym moved)

crc_loop-crc_bytes :
    (bs : List ℕ) (crc : ℕ) → All (λ b. b < 256) bs → crc_loop bs crc ≡ crc_bytes bs crc
unfolding crc_loop crc_bytes
crc_loop-crc_bytes [] crc h = refl
crc_loop-crc_bytes (b ∷ bs) crc h =
    ap (crc_loop bs) (table_step crc b h.0) ∙ crc_loop-crc_bytes bs (crc_byte crc b) h.1

-- On bytes, the checksum that `Get_CRC` computes from its table is the CRC-32 that divides by the
-- reflected polynomial 0xEDB88320 one bit at a time, with all ones at the start and inverted at
-- the end.
pub get_crc-crc_bytes :
    (bs : List ℕ)
    → All (λ b. b < 256) bs
    → get_crc bs ≡ bit_xor (crc_bytes bs 0xffffffff) 0xffffffff
unfolding get_crc
get_crc-crc_bytes bs h = ap (λ c. bit_xor c 0xffffffff) (crc_loop-crc_bytes bs 0xffffffff h)

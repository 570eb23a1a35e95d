-- ===== src/Crc32/Fits.antt =====
-- misc/XiaoHG_C_Crc32.cxx: the checksum is a word of 32 bits.
use Prim.Native.Nat.{bit_xor}
use xiao_hg_server.Base.{
  ℕ, zero, suc, ◌/◌, ◌%◌, ◌^◌, ◌<◌, ◌≡◌, refl, List, [], ◌∷◌, Bool, true, false, arith, All,
  if◌then◌else◌, ltb,
}
use xiao_hg_server.Base.Bits.{bit_xor-lt}
use xiao_hg_server.Crc32.{crc32_table, crc_loop, get_crc}

table_fits : ℕ → Bool
table_fits zero = true
table_fits (suc n) = if ltb (crc32_table n) 0x100000000 then table_fits n else false

table_fits_lem : (n i : ℕ) → table_fits n ≡ true → i < n → crc32_table i < 0x100000000
unfolding table_fits
table_fits_lem zero i fits inside = absurd (omega arith)
table_fits_lem (suc n) i fits inside = ground (arith, table_fits_lem n i)

whole_table_fits : table_fits 256 ≡ true
unfolding table_fits crc32_table
whole_table_fits = refl

crc_loop_fits :
    (bs : List ℕ) (crc : ℕ) → All (λ b. b < 256) bs → crc < 2 ^ 32 → crc_loop bs crc < 2 ^ 32
unfolding crc_loop
crc_loop_fits [] crc h c = c
crc_loop_fits (b ∷ bs) crc h c =
    let i : ℕ = bit_xor (crc % 2 ^ 8) b in
    let low : i < 2 ^ 8 = bit_xor-lt 8 (crc % 2 ^ 8) b (omega arith) h.0 in
    let entry : crc32_table i < 2 ^ 32 = table_fits_lem 256 i whole_table_fits low in
    crc_loop_fits bs (bit_xor (crc / 2 ^ 8) (crc32_table i)) h.1
      (bit_xor-lt 32 (crc / 2 ^ 8) (crc32_table i) (omega arith) entry)

pub get_crc_fits : (bs : List ℕ) → All (λ b. b < 256) bs → get_crc bs < 2 ^ 32
unfolding get_crc
get_crc_fits bs h =
    bit_xor-lt 32 (crc_loop bs 0xffffffff) 0xffffffff (crc_loop_fits bs 0xffffffff h (omega arith))
      (omega arith)

-- ===== src/Crc32.antt =====
-- misc/XiaoHG_C_Crc32.cxx: the checksum of packet bodies. An `unsigned int` is a number below
-- 2 ^ 32, and a byte one below 256.
pub mod Table
pub mod Fits
use Prim.Native.Nat.{bit_and, bit_or, bit_xor}
use xiao_hg_server.Base.{
  ℕ, zero, suc, ◌+◌, ◌-◌, ◌*◌, ◌/◌, ◌%◌, ◌^◌, List, [], ◌∷◌, if◌then◌else◌, ◌==◌,
}

-- The loop of `Reflect`, with `n` rounds left, at round `i`.
reflect_loop : ℕ → ℕ → ℕ → ℕ → ℕ → ℕ
reflect_loop zero i ch ref value = value
reflect_loop (suc n) i ch ref value =
    reflect_loop n (i + 1) ch (ref / 2)
      (if bit_and ref 1 == 1 then bit_or value (2 ^ (ch - i)) else value)

-- `Reflect(uiRef, ch)`.
unfoldable pub reflect : ℕ → ℕ → ℕ
unfolding reflect_loop
reflect ref ch = reflect_loop ch 1 ch ref 0

abbrev ul_polynomial : ℕ
ul_polynomial = 0x04c11db7

-- The inner loop of `InitCRC32Table`: one bit.
table_bit : ℕ → ℕ
table_bit c = bit_xor (c * 2 % 2 ^ 32) (if bit_and c (2 ^ 31) == 0 then 0 else ul_polynomial)

table_bits : ℕ → ℕ → ℕ
unfolding table_bit
table_bits zero c = c
table_bits (suc n) c = table_bits n (table_bit c)

-- The entry that `InitCRC32Table` stores in `CRC32Table[i]`.
unfoldable pub crc32_table : ℕ → ℕ
unfolding reflect table_bits
crc32_table i = reflect (table_bits 8 (reflect i 8 * 2 ^ 24 % 2 ^ 32)) 32

-- The loop of `Get_CRC`.
unfoldable pub crc_loop : List ℕ → ℕ → ℕ
unfolding crc32_table
crc_loop [] crc = crc
crc_loop (b ∷ bs) crc = crc_loop bs (bit_xor (crc / 2 ^ 8) (crc32_table (bit_xor (crc % 2 ^ 8) b)))

-- `Get_CRC(ucBuffer, uiDWSize)` on a buffer of the given bytes.
unfoldable pub get_crc : List ℕ → ℕ
unfolding crc_loop
get_crc bs = bit_xor (crc_loop bs 0xffffffff) 0xffffffff

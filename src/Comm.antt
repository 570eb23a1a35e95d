-- ===== src/Comm.antt =====
-- _include/XiaoHG_Comm.h and _include/XiaoHG_Macro.h: the limits, the states of the receiver and
-- the packet header. A packet is the list of its bytes as they travel.
use xiao_hg_server.Base.{
  ℕ, ◌+◌, ◌*◌, ◌≤◌, ◌≡◌, refl, List, ◌++◌, arith, length, take, get_or, get_or-append, get_or-take,
}

abbrev pub pkg_max_length : ℕ
pkg_max_length = 30000

abbrev pub msg_header_len : ℕ
msg_header_len = 20

abbrev pub max_sendqueue_count : ℕ
max_sendqueue_count = 50000

abbrev pub max_eachconn_sendcount : ℕ
max_eachconn_sendcount = 400

-- `sizeof(COMM_PKG_HEADER)` under `#pragma pack (1)`, and `sizeof` of the two bodies.
abbrev pub len_pkg_header : ℕ
len_pkg_header = 8

abbrev pub len_register : ℕ
len_register = 100

abbrev pub len_login : ℕ
len_login = 96

-- PKG_HD_INIT, PKG_HD_RECVING, PKG_BD_INIT, PKG_BD_RECVING.
pub data RecvStatus : Type 0 where
  hd_init hd_recving bd_init bd_recving : RecvStatus

abbrev pub byte_at : List ℕ → ℕ → ℕ
byte_at p i = get_or p i 0

-- The fields of COMM_PKG_HEADER after `ntohs` and `ntohl`.
unfoldable pub pkg_length : List ℕ → ℕ
pkg_length p = byte_at p 0 * 256 + byte_at p 1

unfoldable pub msg_code : List ℕ → ℕ
msg_code p = byte_at p 2 * 256 + byte_at p 3

unfoldable pub crc_field : List ℕ → ℕ
crc_field p = byte_at p 4 * 16777216 + byte_at p 5 * 65536 + byte_at p 6 * 256 + byte_at p 7

-- The length field is in the first two bytes.
pub pkg_length-append : (p q : List ℕ) → 2 ≤ length p → pkg_length (p ++ q) ≡ pkg_length p
unfolding pkg_length
pkg_length-append p q h =
    rw (get_or-append p q 0 0 (omega arith), get_or-append p q 1 0 (omega arith)) refl

pub pkg_length-take : (n : ℕ) (p : List ℕ) → 2 ≤ n → pkg_length (take n p) ≡ pkg_length p
unfolding pkg_length
pkg_length-take n p h =
    rw (get_or-take n 0 p 0 (omega arith), get_or-take n 1 p 0 (omega arith)) refl

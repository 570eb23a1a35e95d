-- ===== src/Client.antt =====
-- test/test_logic.cxx, test/test_common.cxx, test/test_thread.cxx and test/test_init.cxx: the client
-- that the repository tests the server with. What `socket`, `connect`, `send` and `recv` answer are
-- arguments, and so is what `malloc` gives: a block of the size that is asked for.
pub mod Headers
pub mod Packets
pub mod Wire
pub mod Served
use xiao_hg_server.Base.{
  ℕ, zero, suc, ℤ, pos, negsuc, eq_ℤ, ◌+◌, ◌*◌, Bool, true, false, not, List, [], ◌∷◌, ◌++◌, Option,
  none, some, if◌then◌else◌, ◌==◌, length, take, drop, write_at, codes,
}
use xiao_hg_server.Business.{htons, htonl}
use xiao_hg_server.Comm.{len_pkg_header, len_register, len_login, byte_at}
use xiao_hg_server.Crc32.{get_crc}

-- `HB_CODE`, `REGISTER_CODE` and `LINGIN_CODE`.
abbrev pub hb_code : ℕ
hb_code = 0

abbrev pub register_code : ℕ
register_code = 5

abbrev pub lingin_code : ℕ
lingin_code = 6

-- `strcpy` of a text into a buffer at `k`, with the zero behind it.
abbrev pub strcpy : ℕ → List ℕ → List ℕ → List ℕ
strcpy k text b = write_at b k (text ++ (0 ∷ []))

-- The packet that `SendHeartBeatMsg` makes of the block that `malloc` gives. The checksum field is an
-- `int`, of which `htons(0)` is stored.
unfoldable pub heart_beat_packet : List ℕ → List ℕ
heart_beat_packet block =
    write_at (write_at (write_at block 4 (0 ∷ 0 ∷ 0 ∷ 0 ∷ [])) 2 (htons hb_code)) 0
      (htons len_pkg_header)

-- The message code and the length, in the order in which they are filled in.
unfoldable pub headed_block : ℕ → ℕ → List ℕ → List ℕ
headed_block code size block =
    write_at (write_at block 2 (htons code)) 0 (htons (len_pkg_header + size))

-- The checksum over the body, which is filled in last.
unfoldable pub summed_block : List ℕ → List ℕ
summed_block b = write_at b 4 (htonl (get_crc (drop len_pkg_header b)))

-- The packet that `SendRegisterMsg` makes: `iType`, `UserName` and `Password` are in the body.
unfoldable pub register_packet : List ℕ → List ℕ
unfolding headed_block summed_block
register_packet block =
    let b = write_at (headed_block register_code len_register block) 8 (htonl 100) in
    summed_block (strcpy 68 (codes "xiaohaige") (strcpy 12 (codes "XiaoHG_Register") b))

-- The packet that `SendLoginMsg` makes.
unfoldable pub login_packet : List ℕ → List ℕ
unfolding headed_block summed_block
login_packet block = summed_block (
    strcpy 64 (codes "xiaohaige")
      (strcpy 8 (codes "XiaoHG_Login") (headed_block lingin_code len_login block)))

-- What `SendData` has given to the socket, and what it returns; nothing while `send` has not answered.
pub record Sending : Type 0 where
  pub wire : List ℕ
  pub value : Option ℤ

-- The loop of `SendData`: `wrote` is on the way, `rest` is not. A `send` that gives -1 or 0 ends it.
unfoldable pub send_loop : List ℤ → List ℕ → List ℕ → Sending
send_loop answers wrote [] = record { wire = wrote; value = some (pos (length wrote)) }
send_loop [] wrote (b ∷ rest) = record { wire = wrote; value = none }
send_loop (negsuc _ ∷ answers) wrote (b ∷ rest) = record { wire = wrote; value = some (negsuc 0) }
send_loop (pos zero ∷ answers) wrote (b ∷ rest) = record { wire = wrote; value = some (negsuc 0) }
send_loop (pos (suc n) ∷ answers) wrote (b ∷ rest) =
    send_loop answers (wrote ++ take (suc n) (b ∷ rest)) (drop (suc n) (b ∷ rest))

-- `SendData(pSendBuf, iBufLen)`.
unfoldable pub send_data : List ℤ → List ℕ → Sending
unfolding send_loop
send_data answers buf = send_loop answers [] buf

-- The three messages.
pub data Request : Type 0 where
  heart_beat register login : Request

-- What is allocated for each.
abbrev pub block_size : Request → ℕ
block_size heart_beat = len_pkg_header
block_size register = len_pkg_header + len_register
block_size login = len_pkg_header + len_login

unfoldable pub packet_of : Request → List ℕ → List ℕ
unfolding heart_beat_packet register_packet login_packet
packet_of heart_beat block = heart_beat_packet block
packet_of register block = register_packet block
packet_of login block = login_packet block

-- `SendHeartBeatMsg`, `SendRegisterMsg` and `SendLoginMsg`: what reaches the socket, and whether 0 is
-- returned rather than -1.
unfoldable pub send_msg : Request → List ℤ → List ℕ → Sending
unfolding packet_of send_data
send_msg r answers block = send_data answers (packet_of r block)

-- The `switch` of `ChooseSendMsg`.
unfoldable pub choose_send_msg : ℕ → Option Request
choose_send_msg code =
    if code == hb_code
    then some heart_beat
    else if code == register_code
    then some register
    else if code == lingin_code
    then some login
    else none

-- What `RecvMsgThreadProc` prints for a reply.
pub data Notice : Type 0 where
  heart_beat_reply register_reply login_reply unexpected : Notice

abbrev pub notice_of : Option Request → Notice
notice_of none = unexpected
notice_of (some heart_beat) = heart_beat_reply
notice_of (some register) = register_reply
notice_of (some login) = login_reply

-- One round: the code is read from the start of the buffer, over which the bytes were written.
unfoldable pub notice_in : List ℕ → Notice
unfolding choose_send_msg
notice_in buf = notice_of (choose_send_msg (byte_at buf 2 * 256 + byte_at buf 3))

-- `RecvMsgThreadProc`, by what `recv` gives round by round: nothing at the end of the connection, and
-- `none` for an error.
unfoldable pub recv_msg_thread_proc : List (Option (List ℕ)) → List ℕ → List Notice
unfolding notice_in
recv_msg_thread_proc [] buf = []
recv_msg_thread_proc (none ∷ more) buf = []
recv_msg_thread_proc (some [] ∷ more) buf = []
recv_msg_thread_proc (some (b ∷ bs) ∷ more) buf =
    let filled = write_at buf 0 (b ∷ bs) in notice_in filled ∷ recv_msg_thread_proc more filled

abbrev is_minus_one : ℤ → Bool
is_minus_one n = eq_ℤ n (negsuc 0)

-- `SocketInit`: whether there is a connection, by the answers of `socket` and `connect`.
unfoldable pub socket_init : ℤ → Bool → Option ℤ
socket_init fd connected = if is_minus_one fd then none else if connected then some fd else none

-- `SendData(...) == -1` is the failure.
abbrev pub returned : Option ℤ → Bool
returned none = false
returned (some n) = not (is_minus_one n)

-- What a thread sends next.
abbrev pub after : Request → Request
after heart_beat = heart_beat
after register = login
after login = register

-- The rounds of a thread that sends, by the block and the answers for each message, until one fails.
unfoldable pub send_rounds : Request → List (List ℕ × List ℤ) → List ℕ
unfolding send_msg
send_rounds r [] = []
send_rounds r ((block, answers) ∷ more) =
    let s = send_msg r answers block in
    let rest = send_rounds (after r) more in if returned s.value then s.wire ++ rest else s.wire

-- `HeartBeatThreadProc`.
unfoldable pub heart_beat_thread_proc : List (List ℕ × List ℤ) → List ℕ
unfolding send_rounds
heart_beat_thread_proc = send_rounds heart_beat

-- `SendMsgThreadProc`: a login and a registration in turn.
unfoldable pub send_msg_thread_proc : List (List ℕ × List ℤ) → List ℕ
unfolding send_rounds
send_msg_thread_proc = send_rounds login

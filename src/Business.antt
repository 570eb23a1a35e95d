-- ===== src/Business.antt =====
-- app/XiaoHG_C_MessageCtl.cxx (`RecvMsgHandleProc`), net/XiaoHG_C_BusinessCtl.cxx and `ThreadFunc`
-- of misc/XiaoHG_C_ThreadPool.cxx: what is done with a received message. `logicProcessMutex` is
-- held inside one handler only, and is left out.
pub mod Accepts
pub mod Reply
use xiao_hg_server.Base.{
  ℕ, ◌+◌, ◌-◌, ◌/◌, ◌%◌, ◌^◌, not, List, [], ◌∷◌, ◌++◌, Option, none, some, Outcome, done, exited,
  ◌>>=◌, if◌then◌else◌, ltb, leb, ◌==◌, sub16, sub32, length, take, drop, get_or, write_at, update,
}
use xiao_hg_server.Comm.{
  len_pkg_header, len_register, len_login, byte_at, pkg_length, msg_code, crc_field,
}
use xiao_hg_server.Crc32.{get_crc}
use xiao_hg_server.Memory.{Message, alloc_memory, store}
use xiao_hg_server.Send.{freed, fault, push_send_msg_to_send_list_and_sem}
use xiao_hg_server.Server.{Server, set_conn, on_socket, conn_of}

-- `htons` and `htonl`: the bytes as they travel.
abbrev pub htons : ℕ → List ℕ
htons n = n / 2 ^ 8 % 2 ^ 8 ∷ n % 2 ^ 8 ∷ []

abbrev pub htonl : ℕ → List ℕ
htonl n = n / 2 ^ 24 % 2 ^ 8 ∷ n / 2 ^ 16 % 2 ^ 8 ∷ n / 2 ^ 8 % 2 ^ 8 ∷ n % 2 ^ 8 ∷ []

-- The four bytes at `k` in the other order: `x = ntohl(x)` in place.
unfoldable pub swapped : ℕ → List ℕ → List ℕ
swapped k p =
    write_at p k (byte_at p (k + 3) ∷ byte_at p (k + 2) ∷ byte_at p (k + 1) ∷ byte_at p k ∷ [])

abbrev pub header_of : ℕ → ℕ → ℕ → List ℕ
header_of len code crc = htons len ++ (htons code ++ htonl crc)

abbrev pub set_packet : ℕ → Message → List ℕ → Server → Server
set_packet a b p s = record s { memory = store s.memory a (record b { packet = p }) }

-- The reply of `HandleRegister` and `HandleLogin` with a body of `n` bytes: nobody fills in the
-- body, so it holds what the fresh block holds, and the checksum is over that.
unfoldable pub reply : ℕ → Message → ℕ → ℕ → Server → Outcome Server
reply now b code n s =
    let (a, m) = alloc_memory b.conn b.curr_sequence (len_pkg_header + n) s.memory in
    elim (m.block a) [
      | none ↦ done (fault s)
      | some r ↦
          let crc = get_crc (drop len_pkg_header r.packet) in
          push_send_msg_to_send_list_and_sem now a (
            set_packet a r (write_at r.packet 0 (header_of (len_pkg_header + n) code crc))
              (record s { memory = m }))
    ]

abbrev pub cmd_heartbeat : ℕ
cmd_heartbeat = 0

abbrev pub cmd_register : ℕ
cmd_register = 5

abbrev pub cmd_login : ℕ
cmd_login = 6

-- `HandleRegister`, for the message `b` at `a`; the body starts behind the packet header. It turns
-- `iType` round and ends the two strings, in place. The `bool` that it returns is not read.
unfoldable pub handle_register : ℕ → ℕ → Message → ℕ → Server → Outcome Server
unfolding reply swapped
handle_register now a b n s =
    if not (n == len_register)
    then done s
    else let p = write_at (write_at (swapped 8 b.packet) 67 (0 ∷ [])) 107 (0 ∷ []) in
      reply now b cmd_register len_register (set_packet a b p s)

-- `HandleLogin`.
unfoldable pub handle_login : ℕ → ℕ → Message → ℕ → Server → Outcome Server
unfolding reply
handle_login now a b n s =
    if not (n == len_login)
    then done s
    else let p = write_at (write_at b.packet 63 (0 ∷ [])) 103 (0 ∷ []) in
      reply now b cmd_login len_login (set_packet a b p s)

-- `HandleHeartbeat` at the time `now`.
unfoldable pub handle_heartbeat : ℕ → Message → ℕ → Server → Outcome Server
unfolding update
handle_heartbeat now b n s =
    if not (n == 0)
    then done s
    else let x = conn_of s b.conn in
      let (a, m) = alloc_memory b.conn b.curr_sequence len_pkg_header s.memory in
      let t = on_socket (set_conn b.conn (record x { last_heart_beat_time = now })) s in
      elim (m.block a) [
        | none ↦ done (fault s)
        | some r ↦ push_send_msg_to_send_list_and_sem now a (
            set_packet a r (write_at r.packet 0 (header_of len_pkg_header cmd_heartbeat 0))
              (record t { memory = m }))
      ]

-- `StatusHandler`.
pub data LogicHandler : Type 0 where
  heartbeat register login : LogicHandler

unfoldable pub status_handler : List (Option LogicHandler)
status_handler = some heartbeat ∷ none ∷ none ∷ none ∷ none ∷ some register ∷ some login ∷ []

unfoldable pub call_handler : LogicHandler → ℕ → ℕ → Message → ℕ → Server → Outcome Server
unfolding handle_heartbeat handle_register handle_login
call_handler heartbeat now a b n s = handle_heartbeat now b n s
call_handler register now a b n s = handle_register now a b n s
call_handler login now a b n s = handle_login now a b n s

-- The checks (a), (b) and (c) of `RecvMsgHandleProc`, and the call.
unfoldable pub dispatch : ℕ → ℕ → Message → Server → Outcome Server
unfolding status_handler call_handler
dispatch now a b s =
    let code = msg_code b.packet in
    if not ((conn_of s b.conn).curr_sequence == b.curr_sequence)
    then exited
    else if leb (length status_handler) code
    then exited
    else elim (get_or status_handler code none) [
      | none ↦ exited
      | some h ↦ call_handler h now a b (sub16 (pkg_length b.packet) len_pkg_header) s
    ]

-- The checksum of the body is the one that the header promises, which is compared after it was
-- turned round in place.
unfoldable pub checked : ℕ → ℕ → Message → Server → Outcome Server
unfolding dispatch swapped
checked now a b s =
    let p = b.packet in
    let q = swapped 4 p in
    if get_crc (take (pkg_length p - len_pkg_header) (drop len_pkg_header p)) == crc_field p
    then dispatch now a (record b { packet = q }) (set_packet a b q s)
    else exited

-- `RecvMsgHandleProc(pRecvMsgBuff)`. A length field below the header's length would make `Get_CRC`
-- read outside the block.
unfoldable pub recv_msg_handle_proc : ℕ → ℕ → Server → Outcome Server
unfolding checked
recv_msg_handle_proc now a s = elim (s.memory.block a) [
  | none ↦ done (fault s)
  | some b ↦
      if pkg_length b.packet == len_pkg_header
      then if crc_field b.packet == 0 then dispatch now a b s else exited
      else if ltb (pkg_length b.packet) len_pkg_header
      then done (fault s)
      else checked now a b s
]

-- One round of `ThreadFunc` of the pool; a thread waits while there is no message.
unfoldable pub thread_round : ℕ → Server → Outcome Server
unfolding recv_msg_handle_proc
thread_round now s = elim s.message.recv_msg_list [
  | [] ↦ done s
  | a ∷ rest ↦
      let m = s.message in
      let t = record s {
        message = record m {
          recv_msg_list = rest;
          recv_msg_list_size = sub32 m.recv_msg_list_size 1;
        };
      } in
      recv_msg_handle_proc now a t >>= (λ u. done (freed a u))
]

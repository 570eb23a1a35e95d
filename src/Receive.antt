-- ===== src/Receive.antt =====
-- net/XiaoHG_C_SocketRequest.cxx (`EpollEventReadRequestHandler`, `RecvMsgProc`), the receiving
-- half of app/XiaoHG_C_MessageCtl.cxx and `TestFlood` of net/XiaoHG_C_Socket.cxx: how the bytes of
-- a connection become messages. What `recv` does is an argument, a `RecvResult`.
pub mod Frame
pub mod State
mod Steps
mod Pending
mod Header
mod Body
pub mod Packets
pub mod Stream
pub mod Fresh
pub mod Same
pub mod Silent
pub mod Refine
use xiao_hg_server.Base.{
  ℕ, zero, suc, ℤ, pos, negsuc, ◌+◌, ◌-◌, Bool, true, false, ◌||◌, List, [], ◌∷◌, ◌++◌, Option,
  none, some, Outcome, done, ◌>>=◌, if◌then◌else◌, ltb, leb, ◌==◌, add32, sub16, sub64, length,
  take, write_at, update,
}
use xiao_hg_server.Comm.{
  RecvStatus, hd_init, hd_recving, bd_init, bd_recving, pkg_max_length, len_pkg_header, pkg_length,
}
use xiao_hg_server.Connection.{Connection, BuffPtr, head_at, msg_at}
use xiao_hg_server.Memory.{Message, Memory, alloc_memory, free_memory, store}
use xiao_hg_server.Server.{Socket, MessageCtl, Server, set_conn, on_socket, conn_of}
use xiao_hg_server.Pool.{close_connection_to_recy}

-- The values of `errno` that the program tells apart.
pub data Errno : Type 0 where
  eagain eintr econnreset ebadf other_errno : Errno

-- `recv` gives some bytes (none when the peer has closed), or fails.
pub data RecvResult : Type 0 where
  received : List ℕ → RecvResult
  failed : Errno → RecvResult

-- The bytes go where the pointer points; a block that is not live must not be written.
unfoldable pub put_bytes : ℕ → BuffPtr → List ℕ → Server → Server
put_bytes c (head_at k) bs s =
    let x = conn_of s c in
    on_socket (set_conn c (record x { data_head_info = write_at x.data_head_info k bs })) s
put_bytes c (msg_at a k) bs s = elim (s.memory.block a) [
  | none ↦ let m = s.memory in record s { memory = record m { faults = suc m.faults } }
  | some b ↦ record s { memory = store s.memory a (record b { packet = write_at b.packet k bs }) }
]

abbrev closing : ℕ → ℕ → Server → Outcome (ℤ × Server)
closing now c s = do t ← close_connection_to_recy now c s; done (negsuc 0, t)

-- `RecvMsgProc(pConn, pConn->pRecvMsgBuff, pConn->recvMsgLen)` at the time `now`.
unfoldable pub recv_msg_proc : ℕ → ℕ → RecvResult → Server → Outcome (ℤ × Server)
recv_msg_proc now c (received []) s = closing now c s
recv_msg_proc now c (received (b ∷ bs)) s =
    done (pos (suc (length bs)), put_bytes c (conn_of s c).recv_msg_buff (b ∷ bs) s)
recv_msg_proc now c (failed eagain) s = done (negsuc 0, s)
recv_msg_proc now c (failed eintr) s = done (negsuc 0, s)
recv_msg_proc now c (failed econnreset) s = closing now c s
recv_msg_proc now c (failed ebadf) s = closing now c s
recv_msg_proc now c (failed other_errno) s = closing now c s

-- `TestFlood(pConn)` at the time `ms` in milliseconds.
unfoldable pub test_flood : ℕ → ℕ → Socket → Bool × Socket
test_flood ms c s =
    let x = s.conn c in
    let y : Connection =
      if ltb (sub64 ms x.flood_attack_last_time) s.flood_time_interval
      then record x { flood_attack_count = x.flood_attack_count + 1; flood_attack_last_time = ms }
      else record x { flood_attack_count = 0; flood_attack_last_time = ms } in
    (leb s.flood_kick_count y.flood_attack_count, set_conn c y s)

-- `if(m_FloodAttackEnable == 1) bIsFlood = TestFlood(pConn)`.
unfoldable pub flood_check : ℕ → ℕ → Server → Bool × Server
flood_check ms c s =
    if s.socket.flood_attack_enable == 1
    then (let (f, t) = test_flood ms c s.socket in (f, record s { socket = t }))
    else (false, s)

-- `PushRecvMsgToRecvListAndCond`. The signal to the thread pool changes no state.
abbrev pub push_recv_msg : ℕ → MessageCtl → MessageCtl
push_recv_msg a m = record m {
  recv_msg_list = m.recv_msg_list ++ (a ∷ []);
  recv_msg_list_size = add32 m.recv_msg_list_size 1;
}

-- The receiver is ready for the next packet header.
abbrev pub ready : Connection → Connection
ready x = record x {
  recv_msg_cur_status = hd_init;
  recv_msg_buff = head_at 0;
  recv_msg_len = len_pkg_header;
}

-- `RecvMsgPacketParseProc(pConn, bIsFlood)`.
unfoldable pub recv_msg_packet_parse_proc : ℕ → Bool → Server → Server
recv_msg_packet_parse_proc c is_flood s =
    let x = conn_of s c in
    let t : Server =
      if is_flood
      then record s { memory = free_memory x.recv_msg_mem_pointer s.memory }
      else record s { message = push_recv_msg x.recv_msg_mem_pointer s.message } in
    on_socket (set_conn c (ready x)) t

-- The message block of a legal header: MSG_HEADER_T, the packet header, and room for the body.
unfoldable pub new_message : ℕ → ℕ → List ℕ → Server → Server
new_message c n head s =
    let x = conn_of s c in
    let (a, m) = alloc_memory c x.curr_sequence n s.memory in
    put_bytes c (msg_at a 0) head (record s {
      socket = set_conn c (record x { recv_msg_mem_pointer = a }) s.socket;
      memory = m;
    })

-- `RecvMsgHeaderParseProc(pConn, bIsFlood)`: the flag, and the state after it.
unfoldable pub recv_msg_header_parse_proc : ℕ → ℕ → Server → Bool × Server
recv_msg_header_parse_proc ms c s =
    let x = conn_of s c in
    let head = take len_pkg_header x.data_head_info in
    let n = pkg_length head in
    let t = new_message c n head s in
    let y = conn_of t c in
    if ltb n len_pkg_header || ltb pkg_max_length n
    then (false, on_socket (set_conn c (ready x)) s)
    else if n == len_pkg_header
    then (let (f, u) = flood_check ms c t in (f, recv_msg_packet_parse_proc c f u))
    else (
      false,
      on_socket
          (set_conn c (record y {
            recv_msg_cur_status = bd_init;
            recv_msg_buff = msg_at y.recv_msg_mem_pointer len_pkg_header;
            recv_msg_len = n - len_pkg_header;
          }))
          t,
    )

abbrev pub advance : ℕ → BuffPtr → BuffPtr
advance n (head_at k) = head_at (k + n)
advance n (msg_at a k) = msg_at a (k + n)

-- The packet is not complete: go on behind the `n` bytes that came.
unfoldable pub wait_more : ℕ → ℕ → RecvStatus → Server → Server
wait_more c n status s =
    let x = conn_of s c in
    on_socket
      (set_conn c (record x {
        recv_msg_cur_status = status;
        recv_msg_buff = advance n x.recv_msg_buff;
        recv_msg_len = sub16 x.recv_msg_len n;
      }))
      s

-- The body is complete.
unfoldable pub body_complete : ℕ → ℕ → Server → Bool × Server
body_complete ms c s = let (f, t) = flood_check ms c s in (f, recv_msg_packet_parse_proc c f t)

-- The state machine of `EpollEventReadRequestHandler`, by `recvMsgCurStatus`, on `n` bytes.
unfoldable pub on_received : RecvStatus → ℕ → ℕ → ℕ → Server → Bool × Server
on_received hd_init ms c n s =
    if n == len_pkg_header
    then recv_msg_header_parse_proc ms c s
    else (false, wait_more c n hd_recving s)
on_received hd_recving ms c n s =
    if (conn_of s c).recv_msg_len == n
    then recv_msg_header_parse_proc ms c s
    else (false, wait_more c n hd_recving s)
on_received bd_init ms c n s =
    if n == (conn_of s c).recv_msg_len
    then body_complete ms c s
    else (false, wait_more c n bd_recving s)
on_received bd_recving ms c n s =
    if (conn_of s c).recv_msg_len == n
    then body_complete ms c s
    else (false, wait_more c n bd_recving s)

-- What follows `RecvMsgProc`, by the length that it returned.
unfoldable pub after_recv : ℕ → ℕ → ℕ → ℤ → Server → Outcome Server
after_recv now ms c (negsuc _) s = done s
after_recv now ms c (pos zero) s = done s
after_recv now ms c (pos (suc n)) s =
    let (f, t) = on_received (conn_of s c).recv_msg_cur_status ms c (suc n) s in
    if f then close_connection_to_recy now c t else done t

-- `EpollEventReadRequestHandler(pConn)`, at the time `now` (`ms` in milliseconds).
unfoldable pub epoll_event_read_request_handler : ℕ → ℕ → ℕ → RecvResult → Server → Outcome Server
epoll_event_read_request_handler now ms c r s = do
  (n, t) ← recv_msg_proc now c r s
  after_recv now ms c n t

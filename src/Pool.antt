-- ===== src/Pool.antt =====
-- net/XiaoHG_C_SocketConn.cxx, and `CloseConnectionToRecy` of net/XiaoHG_C_Socket.cxx: the pool of
-- connections, the queue of those that wait to be recycled, and closing. The mutexes of the two
-- lists are held inside one call only, and are left out; a call runs as one step.
pub mod Closing
pub mod Recovery
use xiao_hg_server.Base.{
  ℕ, zero, suc, pos, negsuc, inc, dec, eq_ℤ, ltb_ℤ, ◌+◌, Bool, true, false, not, List, [], ◌∷◌,
  ◌++◌, Option, none, some, Outcome, done, if◌then◌else◌, ltb, ◌==◌, add64, length, replicate,
  update, ◌>>=◌,
}
use xiao_hg_server.Comm.{hd_init, msg_header_len}
use xiao_hg_server.Connection.{Connection, no_handler, head_at, fd_none, get_one_to_use}
use xiao_hg_server.Memory.{free_memory}
use xiao_hg_server.Server.{Socket, Server, set_conn, on_socket, conn_of}
use xiao_hg_server.Timer.{delete_from_timer_queue}

-- A connection in memory that was set to zero, behind `stConnection::stConnection()`.
abbrev pub zeroed : Connection
zeroed = record {
  sock_fd = 0;
  listen_socket = 0;
  epoll_events = 0;
  pcb_read_handler = no_handler;
  pcb_write_handler = no_handler;
  recv_msg_cur_status = hd_init;
  data_head_info = replicate msg_header_len 0;
  recv_msg_buff = head_at 0;
  recv_msg_len = 0;
  recv_msg_mem_pointer = 0;
  throw_send_msg_count = pos 0;
  send_msg_mem_pointer = 0;
  send_msg_buff = 0;
  send_msg_len = 0;
  put_recy_conn_queue_time = 0;
  last_heart_beat_time = 0;
  flood_attack_last_time = 0;
  flood_attack_count = 0;
  send_msg_list_count = pos 0;
  curr_sequence = 0;
}

abbrev pub in_use : ℕ → ℕ → Connection → Connection
in_use now fd x = record (get_one_to_use now x) { sock_fd = fd }

-- The two branches of `GetConnection`: the first free connection, or a new one.
unfoldable pub take_free : ℕ → ℕ → ℕ → List ℕ → Socket → ℕ × Socket
take_free now fd c rest s = (
  c,
  record s {
    conn = update s.conn c (in_use now fd (s.conn c));
    free_connection_list = rest;
    free_connection_count = dec s.free_connection_count;
  },
)

unfoldable pub make_new : ℕ → ℕ → Socket → ℕ × Socket
make_new now fd s = (
  s.next_conn,
  record s {
    conn = update s.conn s.next_conn (in_use now fd zeroed);
    next_conn = suc s.next_conn;
    connection_list = s.connection_list ++ (s.next_conn ∷ []);
    total_connection_count = inc s.total_connection_count;
  },
)

-- `GetConnection(sockFd)` at the time `now`.
unfoldable pub get_connection : ℕ → ℕ → Socket → ℕ × Socket
unfolding take_free make_new get_one_to_use
get_connection now fd s = elim s.free_connection_list [
  | [] ↦ make_new now fd s
  | c ∷ rest ↦ take_free now fd c rest s
]

-- `PutOneToFree`. It frees what the two pointers hold, and leaves the pointers as they are.
unfoldable pub put_one_to_free : ℕ → Server → Server
unfolding update
put_one_to_free c s =
    let x = conn_of s c in
    record s {
      socket = set_conn c (record x { curr_sequence = add64 x.curr_sequence 1 }) s.socket;
      memory = free_memory x.send_msg_mem_pointer (free_memory x.recv_msg_mem_pointer s.memory);
    }

abbrev pub push_free : ℕ → Socket → Socket
push_free c s = record s {
  free_connection_list = s.free_connection_list ++ (c ∷ []);
  free_connection_count = inc s.free_connection_count;
}

-- `FreeConnection(pConn)`.
unfoldable pub free_connection : ℕ → Server → Server
unfolding put_one_to_free
free_connection c s = on_socket (push_free c) (put_one_to_free c s)

unfoldable pub contains : ℕ → List ℕ → Bool
contains c [] = false
contains c (x ∷ xs) = if x == c then true else contains c xs

-- `PushConnectToRecyQueue(pConn)` at the time `now`.
unfoldable pub push_connect_to_recy_queue : ℕ → ℕ → Socket → Socket
unfolding contains update
push_connect_to_recy_queue now c s =
    let x = s.conn c in
    if contains c s.recy_connection_list then s else record s {
      conn =
          update s.conn c
            (record x { put_recy_conn_queue_time = now; curr_sequence = add64 x.curr_sequence 1 });
      recy_connection_list = s.recy_connection_list ++ (c ∷ []);
      delay_recovery_connection_count = inc s.delay_recovery_connection_count;
      on_line_user_count = dec s.on_line_user_count;
    }

-- The wait of a connection is over.
abbrev pub is_due : ℕ → Socket → ℕ → Bool
is_due now s c =
    not (ltb now ((s.conn c).put_recy_conn_queue_time + s.delay_recovery_connection_wait_time))

-- The first connection of the recycling queue whose wait is over, and the queue without it.
unfoldable pub first_due : ℕ → Socket → List ℕ → Option (ℕ × List ℕ)
first_due now s [] = none
first_due now s (c ∷ cs) =
    if is_due now s c
    then some (c, cs)
    else elim (first_due now s cs) [ none ↦ none | some (d, r) ↦ some (d, c ∷ r) ]

-- What happens to that connection.
unfoldable pub recover_one : ℕ → List ℕ → Server → Server
unfolding update free_connection
recover_one c rest s =
    let x = conn_of s c in
    let calm = record x {
      throw_send_msg_count =
          if ltb_ℤ (pos 0) x.throw_send_msg_count then pos 0 else x.throw_send_msg_count;
    } in
    let quiet : Socket = record s.socket {
      conn = update s.socket.conn c calm;
      delay_recovery_connection_count = dec s.socket.delay_recovery_connection_count;
      recy_connection_list = rest;
    } in
    free_connection c (record s { socket = quiet })

-- The loop with `goto lblRRTD`: it starts again behind each connection that it takes out.
unfoldable pub recover_loop : ℕ → ℕ → Server → Server
recover_loop zero now s = s
recover_loop (suc fuel) now s = elim (first_due now s.socket s.socket.recy_connection_list) [
  | none ↦ s
  | some (c, rest) ↦ recover_loop fuel now (recover_one c rest s)
]

-- One round of `DelayRecoveryConnectionThread` at the time `now`.
unfoldable pub delay_recovery_pass : ℕ → Server → Server
unfolding recover_loop
delay_recovery_pass now s =
    if ltb_ℤ (pos 0) s.socket.delay_recovery_connection_count
    then recover_loop (suc (length s.socket.recy_connection_list)) now s
    else s

-- `ClearDelayRecoveryConnections`, by its loop with `goto lblRRTD2`.
clear_recy : List ℕ → Server → Server
unfolding free_connection
clear_recy [] s = s
clear_recy (c ∷ cs) s = clear_recy cs (
    free_connection c (
      on_socket
        (λ t. record t {
          delay_recovery_connection_count = dec t.delay_recovery_connection_count;
          recy_connection_list = cs;
        })
        s))

pub clear_delay_recovery_connections : Server → Server
unfolding clear_recy
clear_delay_recovery_connections s =
    if ltb_ℤ (pos 0) s.socket.delay_recovery_connection_count
    then clear_recy s.socket.recy_connection_list s
    else s

-- `if(pConn->sockFd != -1) { close(pConn->sockFd); pConn->sockFd = -1; }`: the unsigned field is
-- compared as an `int` with -1.
unfoldable pub close_fd : ℕ → Server → Server
unfolding update
close_fd c s =
    let x = conn_of s c in
    if eq_ℤ (pos x.sock_fd) (negsuc 0) then s else record s {
      socket = set_conn c (record x { sock_fd = fd_none }) s.socket;
      closed = x.sock_fd ∷ s.closed;
    }

-- `CloseConnectionImmediately(pConn)`.
unfoldable pub close_connection_immediately : ℕ → Server → Server
unfolding free_connection close_fd
close_connection_immediately c s = close_fd c (free_connection c s)

-- `ClearConnections`: the list is emptied, and each connection is destroyed.
pub clear_connections : Socket → Socket
clear_connections s = record s { connection_list = [] }

unfoldable pub reset_throw : ℕ → Socket → Socket
unfolding update
reset_throw c s =
    let x = s.conn c in
    if ltb_ℤ (pos 0) x.throw_send_msg_count
    then set_conn c (record x { throw_send_msg_count = pos 0 }) s
    else s

unfoldable pub drop_timers : ℕ → Socket → Outcome Socket
unfolding delete_from_timer_queue
drop_timers c s = if s.is_hb_time_out_check_enable == 1 then delete_from_timer_queue c s else done s

-- `CloseConnectionToRecy(pConn)` at the time `now`.
unfoldable pub close_connection_to_recy : ℕ → ℕ → Server → Outcome Server
unfolding drop_timers close_fd reset_throw push_connect_to_recy_queue
close_connection_to_recy now c s = do
  t ← drop_timers c s.socket
  done (
      on_socket (push_connect_to_recy_queue now c)
        (on_socket (reset_throw c) (close_fd c (record s { socket = t }))))

-- ===== src/Setup.antt =====
-- net/XiaoHG_C_Socket.cxx (`Init`, `OpenListeningSockets`, `SetNonBlocking`, `Clear`) and
-- net/XiaoHG_C_SocketInet.cxx (`InitEpoll`): a worker process opens its ports. What the system
-- answers is an argument.
pub mod Pool
pub mod Attach
pub mod Ports
pub mod Ready
use xiao_hg_server.Base.{
  ℕ, zero, suc, ℤ, pos, negsuc, eq_ℤ, ◌+◌, ◌-◌, ◌%◌, ◌^◌, Bool, true, false, not, ◌&&◌, List, [],
  ◌∷◌, ◌++◌, Outcome, done, exited, ◌>>=◌, if◌then◌else◌, ltb, ◌==◌, length, update, codes,
}
use xiao_hg_server.Conf.{ConfItem, get_int_default, decimal}
use xiao_hg_server.Connection.{accept_handler, get_one_to_use}
use xiao_hg_server.Epoll.{epollin, epollrdhup, epoll_ctl_add, epoll_add, epoll_register_event}
use xiao_hg_server.Pool.{zeroed, get_connection, clear_connections}
use xiao_hg_server.Server.{Config, Socket, Server, set_conn}
use xiao_hg_server.Timer.{clear_all_from_timer_queue}

-- A number that is stored in an unsigned word of `w` bits.
abbrev pub as_unsigned : ℕ → ℤ → ℕ
as_unsigned w (pos n) = n % 2 ^ w
as_unsigned w (negsuc n) = 2 ^ w - 1 - n % 2 ^ w

-- For the members of type `int` that are compared with 1, or with what is never negative: a
-- negative number is like zero.
abbrev pub at_least_zero : ℤ → ℕ
at_least_zero (pos n) = n
at_least_zero (negsuc n) = 0

-- `m_WaitTime > 5 ? m_WaitTime : 5`.
unfoldable pub at_least_five : ℤ → ℕ
at_least_five (pos n) = if ltb 5 n then n else 5
at_least_five (negsuc n) = 5

-- `stListenSocket`; `conn` is 0 for a null pointer.
pub record Listening : Type 0 where
  pub port : ℕ
  pub sock_fd : ℕ
  pub conn : ℕ

-- The members of `CSocket` for the set-up, beside the others. The listening sockets are at the
-- addresses 1, 2, ... in their order. `thread_count` is the size of `m_ThreadPoolVector`.
pub record Listener : Type 0 where
  pub socket : Socket
  pub epoll_handle : ℕ
  pub listen_port_count : ℕ
  pub listen_socket_list : List Listening
  pub thread_count : ℕ

-- `Init` reads the configuration.
unfoldable pub read_config : List ConfItem → Config
unfolding get_int_default at_least_five
read_config items = record {
  delay_recovery_connection_wait_time =
      at_least_zero (get_int_default items (codes "Sock_RecyConnectionWaitTime") (pos 0));
  is_hb_time_out_check_enable =
      at_least_zero (get_int_default items (codes "Sock_WaitTimeEnable") (pos 0));
  wait_time = at_least_five (get_int_default items (codes "Sock_MaxWaitTime") (pos 0));
  is_time_out_kick = at_least_zero (get_int_default items (codes "Sock_TimeOutKick") (pos 0));
  flood_attack_enable =
      at_least_zero (get_int_default items (codes "Sock_FloodAttackKickEnable") (pos 0));
  flood_time_interval =
      as_unsigned 64 (get_int_default items (codes "Sock_FloodTimeInterval") (pos 100));
  flood_kick_count = at_least_zero (get_int_default items (codes "Sock_FloodKickCounter") (pos 10));
  epoll_create_connect_count =
      as_unsigned 32 (get_int_default items (codes "EpollCreateConnectCount") (pos 0));
}

-- The process ends unless a call has succeeded.
abbrev pub need {ℓ} : {A : Type ℓ} → Bool → A → Outcome A
need ok a = if ok then done a else exited

-- The loop that creates the threads of `pfTmpThreadPro`, by whether `pthread_create` succeeds; a
-- thread that could not be created was stored before.
unfoldable pub create_each : List Bool → Listener → Outcome Listener
create_each [] s = done s
create_each (ok ∷ oks) s =
    need ok (record s { thread_count = suc s.thread_count }) >>= create_each oks

-- The two threads: `DelayRecoveryConnectionThread` and `HeartBeatMonitorThread`.
unfoldable pub create_threads : Bool → Bool → Listener → Outcome Listener
unfolding create_each
create_threads recycles monitors = create_each (recycles ∷ monitors ∷ [])

-- One connection of the pool, at the time `now`.
unfoldable pub add_connection : ℕ → Socket → Socket
unfolding get_one_to_use
add_connection now s = record s {
  conn = update s.conn s.next_conn (get_one_to_use now zeroed);
  next_conn = suc s.next_conn;
  connection_list = s.connection_list ++ (s.next_conn ∷ []);
  free_connection_list = s.free_connection_list ++ (s.next_conn ∷ []);
}

-- The loop over `m_EpollCreateConnectCount`.
unfoldable pub add_connections : ℕ → ℕ → Socket → Socket
unfolding add_connection
add_connections now zero s = s
add_connections now (suc n) s = add_connections now n (add_connection now s)

abbrev pub count_connections : Socket → Socket
count_connections s = record s {
  total_connection_count = pos (length s.connection_list);
  free_connection_count = pos (length s.connection_list);
}

unfoldable pub init_pool : ℕ → Socket → Socket
unfolding add_connections
init_pool now s = count_connections (add_connections now s.epoll_create_connect_count s)

-- What the system answers for one port.
pub record PortAnswers : Type 0 where
  pub socket_fd : ℤ
  pub nonblocking : Bool
  pub bound : Bool
  pub listens : Bool

-- `sockFd == -1`, where `sockFd` is unsigned.
abbrev pub is_fd_none : ℕ → Bool
is_fd_none fd = eq_ℤ (pos fd) (negsuc 0)

abbrev pub port_of : List ConfItem → ℕ → ℕ
port_of items i =
    as_unsigned 16 (get_int_default items (codes "ListenPort" ++ decimal i) (pos 30723))

-- The four checks of one port, each of which ends the process.
abbrev pub port_ok : PortAnswers → Bool
port_ok a = not (is_fd_none (as_unsigned 16 a.socket_fd)) && a.nonblocking && a.bound && a.listens

abbrev pub listening_at : List ConfItem → ℕ → PortAnswers → Listening
listening_at items i a = record {
  port = port_of items i;
  sock_fd = as_unsigned 16 a.socket_fd;
  conn = 0;
}

-- One round of `OpenListeningSockets`, for the port `i`, with `SetNonBlocking`.
unfoldable pub open_port : List ConfItem → ℕ → PortAnswers → Listener → Outcome Listener
unfolding get_int_default decimal
open_port items i a s =
    need (port_ok a)
      (record s { listen_socket_list = s.listen_socket_list ++ (listening_at items i a ∷ []) })

-- Its loop, with `n` ports left.
unfoldable pub open_ports : List ConfItem → (ℕ → PortAnswers) → ℕ → ℕ → Listener → Outcome Listener
unfolding open_port
open_ports items answers zero i s = done s
open_ports items answers (suc n) i s =
    open_port items i (answers i) s >>= open_ports items answers n (suc i)

-- A connection `c` for the listening socket `l` at address `a`.
unfoldable pub listen_on : ℕ → ℕ → Socket → Socket
unfolding update
listen_on a c s =
    let x = s.conn c in
    set_conn c (record x { listen_socket = a; pcb_read_handler = accept_handler }) s

-- One round of `InitEpoll`: the listening socket with its connection, and the new state.
unfoldable pub attach_listening : ℕ → ℕ → Bool → Listening → Socket → Outcome (Listening × Socket)
unfolding get_connection listen_on epoll_register_event
attach_listening now a ctl_ok l s =
    let (c, k) = get_connection now (l.sock_fd % 2 ^ 16) s in
    let (ok, t) =
      epoll_register_event epoll_ctl_add (epollin + epollrdhup) epoll_add ctl_ok c
        (listen_on a c k) in
    need ok (record l { conn = c }, t)

-- Its loop over the listening sockets, from address `a` on.
unfoldable pub attach_all :
    ℕ → (ℕ → Bool) → ℕ → List Listening → Socket → Outcome (List Listening × Socket)
unfolding attach_listening
attach_all now ctl_ok a [] s = done ([], s)
attach_all now ctl_ok a (l ∷ ls) s = do
  (m, t) ← attach_listening now a (ctl_ok a) l s
  (ms, u) ← attach_all now ctl_ok (suc a) ls t
  done (m ∷ ms, u)

-- What the system answers while a worker process starts. `mutex` is what `pthread_mutex_init`
-- returns: 0, or the number of an error, which is positive.
pub record Answers : Type 0 where
  pub mutex : ℕ
  pub recycler_created : Bool
  pub monitor_created : Bool
  pub port : ℕ → PortAnswers
  pub epoll : ℤ
  pub ctl_ok : ℕ → Bool

-- `InitEpoll`.
unfoldable pub init_epoll : ℕ → Answers → Listener → Outcome Listener
unfolding attach_all
init_epoll now w s = do
  h ← need (not (is_fd_none (as_unsigned 16 w.epoll))) (as_unsigned 16 w.epoll)
  (ls, t) ← attach_all now w.ctl_ok 1 s.listen_socket_list s.socket
  done (record s { epoll_handle = h; listen_socket_list = ls; socket = t })

-- `OpenListeningSockets`.
unfoldable pub open_listening_sockets : ℕ → List ConfItem → Answers → Listener → Outcome Listener
unfolding open_ports init_epoll
open_listening_sockets now items w s = do
  t ← open_ports items w.port s.listen_port_count 0 s
  u ← need (ltb 0 (length t.listen_socket_list)) t
  init_epoll now w u

-- `Init` before it creates the threads.
unfoldable pub configured : List ConfItem → Listener → Listener
unfolding read_config get_int_default
configured items s = record s {
  epoll_handle = as_unsigned 16 (negsuc 0);
  listen_port_count = as_unsigned 8 (get_int_default items (codes "ListenPortCount") (pos 0));
  socket = (let k = s.socket in record k { conf = read_config items });
}

-- `Init` at the time `now`.
unfoldable pub init_socket : ℕ → List ConfItem → Answers → Listener → Outcome Listener
unfolding configured create_threads init_pool open_listening_sockets
init_socket now items w s = do
  a ← need (not (eq_ℤ (pos w.mutex) (negsuc 0))) (configured items s)
  b ← create_threads w.recycler_created w.monitor_created a
  open_listening_sockets now items w (record b { socket = init_pool now b.socket })

-- `Clear`: the sending thread is woken, unless the semaphore is full.
pub clear_socket : Server → Server
clear_socket s =
    let m = s.message in
    record s {
      socket = clear_all_from_timer_queue (clear_connections s.socket);
      message = if m.send_sem == 2 ^ 31 - 1 then m else record m { send_sem = m.send_sem + 1 };
    }

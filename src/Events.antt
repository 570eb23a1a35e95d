-- ===== src/Events.antt =====
-- net/XiaoHG_C_SocketAccept.cxx (`EpollEventAcceptHandler`) and net/XiaoHG_C_SocketInet.cxx
-- (`EpolWaitlProcessEvents`): the loop of a worker process. What `accept`, `epoll_wait`, `recv` and
-- `epoll_ctl` answer are arguments.
pub mod Admit
use Prim.Native.Nat.{bit_and}
use xiao_hg_server.Base.{
  ℕ, ℤ, pos, negsuc, inc, dec, ◌+◌, ◌-◌, ◌*◌, ◌%◌, ◌^◌, Bool, true, not, ◌&&◌, ◌||◌, List, [], ◌∷◌,
  Outcome, done, exited, ◌>>=◌, if◌then◌else◌, ltb, leb, ◌==◌, length, update,
}
use xiao_hg_server.Connection.{no_handler, accept_handler, read_handler, write_handler}
use xiao_hg_server.Epoll.{
  epollin, epollout, epollerr, epollhup, epollrdhup, epoll_ctl_add, epoll_add, epoll_register_event,
}
use xiao_hg_server.Pool.{get_connection}
use xiao_hg_server.Receive.{RecvResult, epoll_event_read_request_handler}
use xiao_hg_server.Send.{fault}
use xiao_hg_server.Server.{Socket, Server, set_conn, on_socket, conn_of}
use xiao_hg_server.Timer.{add_to_timer_list}

-- What `accept4` or `accept` gives: a descriptor, or an error. Only `ENOSYS` of `accept4` is not
-- the end of the call. A descriptor of `accept` comes with whether `SetNonBlocking` succeeds.
pub data AcceptResult : Type 0 where
  accepted4 : ℕ → AcceptResult
  accepted : ℕ → Bool → AcceptResult
  no_accept4 : AcceptResult
  accept_error : AcceptResult

-- An `int` as an `unsigned int`.
abbrev pub to_unsigned : ℤ → ℕ
to_unsigned (pos n) = n % 2 ^ 32
to_unsigned (negsuc n) = 2 ^ 32 - 1 - n % 2 ^ 32

-- Too many users, or a pool that is large and has few free connections.
unfoldable pub turned_away : Socket → Bool
turned_away s =
    let limit = s.epoll_create_connect_count in
    leb limit (to_unsigned s.on_line_user_count)
    || (ltb (limit * 5 % 2 ^ 32) (length s.connection_list)
        && ltb (length s.free_connection_list) limit)

abbrev pub closing_fd : ℕ → Server → Server
closing_fd fd s = record s { closed = fd ∷ s.closed }

-- The connection `c` takes its handlers from the listening connection `old`.
unfoldable pub attach : ℕ → ℕ → Server → Server
unfolding update
attach old c s =
    let x = conn_of s c in
    on_socket
      (set_conn c (record x {
        listen_socket = (conn_of s old).listen_socket;
        pcb_read_handler = read_handler;
        pcb_write_handler = write_handler;
      }))
      s

abbrev pub user_online : Socket → Socket
user_online s = record s { on_line_user_count = inc s.on_line_user_count }

-- `if(m_IsHBTimeOutCheckEnable == 1)`, and the count of users.
unfoldable pub join : ℕ → ℕ → Server → Outcome Server
unfolding add_to_timer_list
join now c s =
    (if s.socket.is_hb_time_out_check_enable == 1
      then add_to_timer_list now c s.socket
      else done s.socket)
    >>= (λ k. done (record s { socket = user_online k }))

-- What follows `accept` with the descriptor `fd`. `SetNonBlocking` ends the process itself when it
-- fails (`nonblocking` is false); a connection that `epoll` does not take is closed, and the process ends.
unfoldable pub admit : ℕ → ℕ → ℕ → Bool → Bool → Server → Outcome Server
unfolding turned_away get_connection attach join epoll_register_event
admit now old fd nonblocking ctl_ok s =
    if turned_away s.socket
    then done (closing_fd fd s)
    else if not nonblocking
    then exited
    else let (c, k) = get_connection now (fd % 2 ^ 16) s.socket in
      let (ok, t) =
        epoll_register_event epoll_ctl_add (epollin + epollrdhup) epoll_add ctl_ok c
          (attach old c (record s { socket = k })).socket in
      if ok then join now c (record s { socket = t }) else exited

-- `EpollEventAcceptHandler(pOldConn)` at the time `now`: `first` is the answer of the first call,
-- `second` that of `accept` after an `ENOSYS` of `accept4`.
unfoldable pub epoll_event_accept_handler :
    ℕ → ℕ → AcceptResult → AcceptResult → Bool → Server → Outcome Server
unfolding admit
epoll_event_accept_handler now old (accepted4 fd) second ctl_ok s = admit now old fd true ctl_ok s
epoll_event_accept_handler now old (accepted fd nb) second ctl_ok s = admit now old fd nb ctl_ok s
epoll_event_accept_handler now old no_accept4 (accepted4 fd) ctl_ok s = done s
epoll_event_accept_handler now old no_accept4 (accepted fd nb) ctl_ok s =
    admit now old fd nb ctl_ok s
epoll_event_accept_handler now old no_accept4 no_accept4 ctl_ok s = done s
epoll_event_accept_handler now old no_accept4 accept_error ctl_ok s = done s
epoll_event_accept_handler now old accept_error second ctl_ok s = done s

-- What the kernel answers while an event is handled.
pub record World : Type 0 where
  pub now : ℕ
  pub ms : ℕ
  pub accept : AcceptResult
  pub accept_again : AcceptResult
  pub ctl_ok : Bool
  pub recv : RecvResult

-- `(this->* (pConn->pcbReadHandler))(pConn)`. No connection that is watched has the other handlers.
unfoldable pub call_read_handler : World → ℕ → Server → Outcome Server
unfolding epoll_event_accept_handler epoll_event_read_request_handler
call_read_handler w c s = elim (conn_of s c).pcb_read_handler [
  | accept_handler ↦ epoll_event_accept_handler w.now c w.accept w.accept_again w.ctl_ok s
  | read_handler ↦ epoll_event_read_request_handler w.now w.ms c w.recv s
  | no_handler ↦ done (fault s)
  | write_handler ↦ done (fault s)
]

-- An entry of `m_Events`, with what the kernel answers while its read and its write event run.
pub record Event : Type 0 where
  pub conn : ℕ
  pub events : ℕ
  pub reading : World
  pub writing : World

abbrev pub has : ℕ → ℕ → Bool
has mask events = not (bit_and events mask == 0)

unfoldable pub on_readable : Event → Server → Outcome Server
unfolding call_read_handler
on_readable e s = if has epollin e.events then call_read_handler e.reading e.conn s else done s

-- The write event calls `pcbReadHandler`, too.
unfoldable pub on_writable : Event → Server → Outcome Server
unfolding call_read_handler update
on_writable e s =
    let x = conn_of s e.conn in
    if has epollout e.events
    then if has (epollerr + epollhup + epollrdhup) e.events
      then done (
          on_socket
            (set_conn e.conn (record x { throw_send_msg_count = dec x.throw_send_msg_count })) s)
      else call_read_handler e.writing e.conn s
    else done s

-- The loop over the events.
unfoldable pub process_events : List Event → Server → Outcome Server
unfolding on_readable on_writable
process_events [] s = done s
process_events (e ∷ es) s = on_readable e s >>= on_writable e >>= process_events es

-- What `epoll_wait` answers.
pub data EpollWait : Type 0 where
  events : List Event → EpollWait
  wait_interrupted : EpollWait
  wait_error : EpollWait

-- `EpolWaitlProcessEvents(iTimer)`; `forever` says that `iTimer` is -1.
unfoldable pub epol_waitl_process_events : Bool → EpollWait → Server → Outcome Server
unfolding process_events
epol_waitl_process_events forever (events []) s = if forever then exited else done s
epol_waitl_process_events forever (events (e ∷ es)) s = process_events (e ∷ es) s
epol_waitl_process_events forever wait_interrupted s = done s
epol_waitl_process_events forever wait_error s = exited

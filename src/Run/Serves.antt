-- ===== src/Run/Serves.antt =====
-- net/XiaoHG_C_SocketAccept.cxx and net/XiaoHG_C_SocketInet.cxx: what the loop over the events does to
-- the books.
use xiao_hg_server.Base.{
  ℕ, ◌+◌, ◌%◌, ◌^◌, refl, Bool, true, false, not, List, [], ◌∷◌, Outcome, done, ◌==◌, if_split,
  if◌then◌else◌, Whenever, ◌>>=◌, >>=-Whenever, stop,
}
use xiao_hg_server.Connection.{Handler, no_handler, accept_handler, read_handler, write_handler}
use xiao_hg_server.Epoll.{
  epollin, epollout, epollerr, epollhup, epollrdhup, epoll_ctl_add, epoll_add, epoll_register_event,
}
use xiao_hg_server.Events.{
  AcceptResult, accepted4, accepted, no_accept4, accept_error, turned_away, attach, join, admit,
  epoll_event_accept_handler, World, call_read_handler, Event, has, on_readable, on_writable,
  process_events, EpollWait, events, wait_interrupted, wait_error, epol_waitl_process_events,
  user_online,
}
use xiao_hg_server.Pool.{get_connection}
use xiao_hg_server.Receive.{epoll_event_read_request_handler}
use xiao_hg_server.Run.Books.{main, after_moves, Moves, Moves-refl, kept, pool_moves, moves_one}
use xiao_hg_server.Run.Closes.{get_connection-PoolMove}
use xiao_hg_server.Run.Receives.{epoll_event_read_request_handler-Moves}
use xiao_hg_server.Run.Timers.{PoolMoves, add_to_timer_list-PoolMoves}
use xiao_hg_server.Send.{fault}
use xiao_hg_server.Server.{Socket, Server, conn_of}
use xiao_hg_server.Timer.{add_to_timer_list}

join-Moves : (now c : ℕ) (s : Server) → Whenever (Moves main s) (join now c s)
unfolding join
join-Moves now c s =
    let k : Outcome Socket =
      if s.socket.is_hb_time_out_check_enable == 1
      then add_to_timer_list now c s.socket
      else done s.socket in
    >>=-Whenever (PoolMoves main s.socket) (Moves main s) k
      (λ t. done (record s { socket = user_online t }))
      (if_split (Whenever (PoolMoves main s.socket)) (s.socket.is_hb_time_out_check_enable == 1)
        (λ on. add_to_timer_list-PoolMoves now c s.socket) (λ off. stop))
      (λ t moves. pool_moves moves refl)

admit-Moves :
    (now old fd : ℕ) (nonblocking ctl_ok : Bool) (s : Server)
    → Whenever (Moves main s) (admit now old fd nonblocking ctl_ok s)
unfolding admit attach epoll_register_event
admit-Moves now old fd nonblocking ctl_ok s =
    let p : ℕ × Socket = get_connection now (fd % 2 ^ 16) s.socket in
    let s1 : Server = record s { socket = p.1 } in
    let t : Server = record s {
      socket =
          (epoll_register_event epoll_ctl_add (epollin + epollrdhup) epoll_add ctl_ok p.0
            (attach old p.0 s1).socket).1;
    } in
    if_split (Whenever (Moves main s)) (turned_away s.socket) (λ full. kept refl refl)
      (λ room.
        if_split (Whenever (Moves main s)) (not nonblocking) (λ fails. tt)
          (λ set.
            if_split (Whenever (Moves main s)) ctl_ok
              (λ watched.
                after_moves (join now p.0 t)
                  (moves_one {t = t} (get_connection-PoolMove now (fd % 2 ^ 16) s.socket) refl)
                  (join-Moves now p.0 t))
              (λ refused. tt)))

epoll_event_accept_handler-Moves :
    (now old : ℕ) (first second : AcceptResult) (ctl_ok : Bool) (s : Server)
    → Whenever (Moves main s) (epoll_event_accept_handler now old first second ctl_ok s)
unfolding epoll_event_accept_handler
epoll_event_accept_handler-Moves now old (accepted4 fd) second ctl_ok s =
    admit-Moves now old fd true ctl_ok s
epoll_event_accept_handler-Moves now old (accepted fd nb) second ctl_ok s =
    admit-Moves now old fd nb ctl_ok s
epoll_event_accept_handler-Moves now old no_accept4 (accepted4 fd) ctl_ok s = Moves-refl s
epoll_event_accept_handler-Moves now old no_accept4 (accepted fd nb) ctl_ok s =
    admit-Moves now old fd nb ctl_ok s
epoll_event_accept_handler-Moves now old no_accept4 no_accept4 ctl_ok s = Moves-refl s
epoll_event_accept_handler-Moves now old no_accept4 accept_error ctl_ok s = Moves-refl s
epoll_event_accept_handler-Moves now old accept_error second ctl_ok s = Moves-refl s

call_read_handler-Moves :
    (w : World) (c : ℕ) (s : Server) → Whenever (Moves main s) (call_read_handler w c s)
unfolding call_read_handler
call_read_handler-Moves w c s = by_handler (conn_of s c).pcb_read_handler
  where
    by_handler :
        (h : Handler)
        → Whenever (Moves main s) (elim h [
          | accept_handler ↦ epoll_event_accept_handler w.now c w.accept w.accept_again w.ctl_ok s
          | read_handler ↦ epoll_event_read_request_handler w.now w.ms c w.recv s
          | no_handler ↦ done (fault s)
          | write_handler ↦ done (fault s)
        ])
    by_handler accept_handler =
        epoll_event_accept_handler-Moves w.now c w.accept w.accept_again w.ctl_ok s
    by_handler read_handler = epoll_event_read_request_handler-Moves w.now w.ms c w.recv s
    by_handler no_handler = kept refl refl
    by_handler write_handler = kept refl refl

on_readable-Moves : (e : Event) (s : Server) → Whenever (Moves main s) (on_readable e s)
unfolding on_readable
on_readable-Moves e s =
    if_split (Whenever (Moves main s)) (has epollin e.events)
      (λ readable. call_read_handler-Moves e.reading e.conn s) (λ other. Moves-refl s)

on_writable-Moves : (e : Event) (s : Server) → Whenever (Moves main s) (on_writable e s)
unfolding on_writable
on_writable-Moves e s =
    let P : Outcome Server → Type 0 = Whenever (Moves main s) in
    if_split P (has epollout e.events)
      (λ writable.
        if_split P (has (epollerr + epollhup + epollrdhup) e.events) (λ gone. kept refl refl)
          (λ alive. call_read_handler-Moves e.writing e.conn s))
      (λ other. Moves-refl s)

process_events-Moves :
    (es : List Event) (s : Server) → Whenever (Moves main s) (process_events es s)
unfolding process_events
process_events-Moves [] s = Moves-refl s
process_events-Moves (e ∷ es) s =
    >>=-Whenever (Moves main s) (Moves main s) (on_readable e s >>= on_writable e)
      (process_events es)
      (>>=-Whenever (Moves main s) (Moves main s) (on_readable e s) (on_writable e)
        (on_readable-Moves e s) (λ t h. after_moves (on_writable e t) h (on_writable-Moves e t)))
      (λ t h. after_moves (process_events es t) h (process_events-Moves es t))

pub epol_waitl_process_events-Moves :
    (forever : Bool) (w : EpollWait) (s : Server)
    → Whenever (Moves main s) (epol_waitl_process_events forever w s)
unfolding epol_waitl_process_events
epol_waitl_process_events-Moves true (events []) s = tt
epol_waitl_process_events-Moves false (events []) s = Moves-refl s
epol_waitl_process_events-Moves forever (events (e ∷ es)) s = process_events-Moves (e ∷ es) s
epol_waitl_process_events-Moves forever wait_interrupted s = Moves-refl s
epol_waitl_process_events-Moves forever wait_error s = tt

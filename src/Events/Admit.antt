-- ===== src/Events/Admit.antt =====
-- net/XiaoHG_C_SocketAccept.cxx: a client that is let in.
use xiao_hg_server.Base.{
  ℕ, suc, inc, ◌+◌, ◌%◌, ◌^◌, ◌<◌, ◌≡◌, refl, sym, subst, ap, ◌∙◌, inl, inr, Bool, true, false,
  List, [], ◌∷◌, length, All, Outcome, done, exited, ◌==◌, Bool-cases, ap₂, if◌then◌else◌, if_true,
  if_false, update_self, update_ne,
}
use xiao_hg_server.Connection.{Connection, read_handler, write_handler}
use xiao_hg_server.Epoll.{epollin, epollrdhup, epoll_ctl_add, epoll_add, epoll_register_event}
use xiao_hg_server.Events.{closing_fd, turned_away, attach, user_online, join, admit}
use xiao_hg_server.Pool.{take_free, make_new, get_connection}
use xiao_hg_server.Receive.Fresh.{IsPool, get_connection-Fresh}
use xiao_hg_server.Receive.Same.{SameReader, SameReader-IsReceiving, SameReader-view}
use xiao_hg_server.Receive.State.{Receives, framer_of}
use xiao_hg_server.Server.{TimerNode, Socket, Server, conn_of}
use xiao_hg_server.Setup.Pool.{timers_kept}
use xiao_hg_server.Timer.{insert}
use xiao_hg_server.Timer.Insert.{node_of, IsTimed, SameUsers, add_to_timer_list-SameUsers}

-- The timer of a client on the connection `c`.
abbrev pub first_timer : ℕ → ℕ → Server → Server → TimerNode
first_timer now c s t = record {
  time = now + s.socket.wait_time;
  conn = c;
  curr_sequence = (conn_of t c).curr_sequence;
}

-- A client on the connection `c`, let in at the time `now`.
pub record Admitted (now c fd : ℕ) (s t : Server) : Type 0 where
  pub receives : Receives c t
  pub between : (framer_of c t).pending ≡ []
  pub descriptor : (conn_of t c).sock_fd ≡ fd % 2 ^ 16
  pub reading : (conn_of t c).pcb_read_handler ≡ read_handler
  pub writing : (conn_of t c).pcb_write_handler ≡ write_handler
  pub watched : (conn_of t c).epoll_events ≡ epollin + epollrdhup
  pub others : (j : ℕ) → ¬ (j ≡ c) → conn_of t j ≡ conn_of s j
  pub online : t.socket.on_line_user_count ≡ inc s.socket.on_line_user_count
  pub timed : IsTimed t.socket
  pub timer : t.socket.timer_queue ≡ (
      if s.socket.is_hb_time_out_check_enable == 1
      then insert (first_timer now c s t) s.socket.timer_queue
      else s.socket.timer_queue)
  pub memory : t.memory ≡ s.memory
  pub message : t.message ≡ s.message
  pub closed : t.closed ≡ s.closed

-- How it ends, by whether the client is turned away, `SetNonBlocking` succeeds, and `epoll` takes
-- the connection `c`.
abbrev pub AdmitEnds : ℕ → ℕ → ℕ → Server → Bool → Bool → Bool → Outcome Server → Type 0
AdmitEnds now c fd s true nonblocking ctl_ok o = o ≡ done (closing_fd fd s)
AdmitEnds now c fd s false false ctl_ok o = o ≡ exited
AdmitEnds now c fd s false true false o = o ≡ exited
AdmitEnds now c fd s false true true o = (t : Server) × (o ≡ done t) × Admitted now c fd s t

abbrev watching : Connection → Connection
watching x = record x { epoll_events = epollin + epollrdhup }

-- What `GetConnection` leaves as it was.
record SameTimers (s t : Socket) : Type 0 where
  pub queue : t.timer_queue ≡ s.timer_queue
  pub size : t.current_heart_beat_list_size ≡ s.current_heart_beat_list_size
  pub earliest : t.hb_list_earliest_time ≡ s.hb_list_earliest_time
  pub mutex : t.time_queue_mutex ≡ s.time_queue_mutex
  pub online : t.on_line_user_count ≡ s.on_line_user_count
  pub conf : t.conf ≡ s.conf

abbrev SameBehind : Socket → ℕ × Socket → Type 0
SameBehind s r = SameTimers s r.1

timers_by :
    (now fd : ℕ) (s : Socket) (q : List ℕ)
    → SameBehind s (elim q [ [] ↦ make_new now fd s | c ∷ rest ↦ take_free now fd c rest s ])
unfolding make_new take_free
timers_by now fd s [] = record {
  queue = refl;
  size = refl;
  earliest = refl;
  mutex = refl;
  online = refl;
  conf = refl;
}
timers_by now fd s (c ∷ rest) = record {
  queue = refl;
  size = refl;
  earliest = refl;
  mutex = refl;
  online = refl;
  conf = refl;
}

get_connection-SameTimers : (now fd : ℕ) (s : Socket) → SameTimers s (get_connection now fd s).1
unfolding get_connection
get_connection-SameTimers now fd s = timers_by now fd s s.free_connection_list

abbrev queue_with : ℕ → ℕ → Socket → List TimerNode
queue_with now c s =
    if s.is_hb_time_out_check_enable == 1
    then insert (node_of now c s) s.timer_queue
    else s.timer_queue

-- The state behind `join`, which starts the timer of the connection if the check is on.
joined :
    (now c : ℕ) (u : Server)
    → IsTimed u.socket
    → suc (length u.socket.timer_queue) < 2 ^ 64
    → u.socket.time_queue_mutex ≡ false
    → (k : Socket) × (join now c u ≡ done (record u { socket = user_online k }))
      × IsTimed k
      × SameUsers u.socket k
      × (k.timer_queue ≡ queue_with now c u.socket)
unfolding join
joined now c u timed room free = elim (Bool-cases (u.socket.is_hb_time_out_check_enable == 1)) [
  | inr e ↦ (u.socket, rw e refl, timed, record { conn = refl; online = refl }, rw e refl)
  | inl e ↦
      let (k, r, h, same, queue) = add_to_timer_list-SameUsers now c u.socket timed room free in
      (k, rw (e, r) refl, h, same, rw e queue)
]

-- The queue with a timer, by what was there before.
queue_same :
    (now c n m : ℕ) (k s : Socket)
    → SameTimers s k
    → n ≡ m
    → (if k.is_hb_time_out_check_enable == 1
        then insert (record { time = now + k.wait_time; conn = c; curr_sequence = n }) k.timer_queue
        else k.timer_queue)
      ≡ (if s.is_hb_time_out_check_enable == 1
          then insert
              (record { time = now + s.wait_time; conn = c; curr_sequence = m })
              s.timer_queue
          else s.timer_queue)
queue_same now c n m k s same e =
    ap₂
      (λ conf q.
        if conf.is_hb_time_out_check_enable == 1
        then insert (record { time = now + conf.wait_time; conn = c; curr_sequence = n }) q
        else q)
      same.conf same.queue
    ∙ ap
        (λ j.
          if s.is_hb_time_out_check_enable == 1
          then insert (record { time = now + s.wait_time; conn = c; curr_sequence = j })
              s.timer_queue
          else s.timer_queue)
        e

module _ (now old fd : ℕ) (s : Server) where
  abbrev given : ℕ × Socket
  given = get_connection now (fd % 2 ^ 16) s.socket

  abbrev chosen : ℕ
  chosen = given.0

  -- The state behind `EpollRegisterEvent`.
  abbrev registered : Socket
  registered =
      (epoll_register_event epoll_ctl_add (epollin + epollrdhup) epoll_add true chosen
        (attach old chosen (record s { socket = given.1 })).socket).1

  abbrev client : Connection → Connection → Connection
  client x o = record x {
    listen_socket = o.listen_socket;
    pcb_read_handler = read_handler;
    pcb_write_handler = write_handler;
    epoll_events = epollin + epollrdhup;
  }

  registered_lem : registered.conn chosen ≡ client (given.1.conn chosen) (given.1.conn old)
  unfolding epoll_register_event attach
  registered_lem =
      let a : Socket = (attach old chosen (record s { socket = given.1 })).socket in
      update_self a.conn chosen _ ∙ ap watching (update_self given.1.conn chosen _)

  registered_others : (j : ℕ) → ¬ (j ≡ chosen) → registered.conn j ≡ given.1.conn j
  unfolding epoll_register_event attach
  registered_others j ne =
      let a : Socket = (attach old chosen (record s { socket = given.1 })).socket in
      update_ne a.conn chosen _ j ne ∙ update_ne given.1.conn chosen _ j ne

  registered-SameTimers : SameTimers s.socket registered
  unfolding epoll_register_event attach
  registered-SameTimers =
      let h = get_connection-SameTimers now (fd % 2 ^ 16) s.socket in
      record {
        queue = h.queue;
        size = h.size;
        earliest = h.earliest;
        mutex = h.mutex;
        online = h.online;
        conf = h.conf;
      }

  -- A client that is not turned away.
  let_in :
      IsPool s.socket
      → All (λ a. a < s.memory.next) s.message.recv_msg_list
      → IsTimed s.socket
      → suc (length s.socket.timer_queue) < 2 ^ 64
      → s.socket.time_queue_mutex ≡ false
      → (t : Server) × (join now chosen (record s { socket = registered }) ≡ done t)
        × Admitted now chosen fd s t
  let_in pool queued timed room free =
      let f = get_connection-Fresh now (fd % 2 ^ 16) s pool queued in
      let same = registered-SameTimers in
      let timed_now = timers_kept s.socket registered same.queue same.size same.earliest timed in
      let room_now : suc (length registered.timer_queue) < 2 ^ 64 =
        subst (λ q. suc (length q) < 2 ^ 64) (sym same.queue) room in
      let (k, r, timed_then, users, queue) =
        joined now chosen (record s { socket = registered }) timed_now room_now
          (same.mutex ∙ free) in
      let t : Server = record s { socket = user_online k } in
      let here : conn_of t chosen ≡ client (given.1.conn chosen) (given.1.conn old) =
        ap (λ g. g chosen) users.conn ∙ registered_lem in
      let reads : SameReader (given.1.conn chosen) (conn_of t chosen) = record {
        head = ap (λ x. x.data_head_info) here;
        buff = ap (λ x. x.recv_msg_buff) here;
        len = ap (λ x. x.recv_msg_len) here;
        status = ap (λ x. x.recv_msg_cur_status) here;
        mem = ap (λ x. x.recv_msg_mem_pointer) here;
      } in
      let sequence : (conn_of t chosen).curr_sequence ≡ (registered.conn chosen).curr_sequence =
        ap (λ g. (g chosen).curr_sequence) users.conn in
      (
        t,
        r,
        record {
          receives =
              SameReader-IsReceiving (given.1.conn chosen) (conn_of t chosen) s.memory
                s.message.recv_msg_list reads f.receives;
          between =
              ap (λ v. v.pending)
                (SameReader-view (given.1.conn chosen) (conn_of t chosen) s.memory
                  s.message.recv_msg_list reads)
              ∙ f.between;
          descriptor = ap (λ x. x.sock_fd) here ∙ f.descriptor;
          reading = ap (λ x. x.pcb_read_handler) here;
          writing = ap (λ x. x.pcb_write_handler) here;
          watched = ap (λ x. x.epoll_events) here;
          others = λ j ne. ap (λ g. g j) users.conn ∙ registered_others j ne ∙ f.others j ne;
          online = ap inc (users.online ∙ same.online);
          timed = timers_kept k t.socket refl refl refl timed_then;
          timer =
              queue
              ∙ queue_same now chosen (registered.conn chosen).curr_sequence
                  (conn_of t chosen).curr_sequence registered s.socket same (sym sequence);
          memory = refl;
          message = refl;
          closed = refl;
        },
      )

  ends_by :
      (turned nonblocking ctl_ok : Bool)
      → turned_away s.socket ≡ turned
      → IsPool s.socket
      → All (λ a. a < s.memory.next) s.message.recv_msg_list
      → IsTimed s.socket
      → suc (length s.socket.timer_queue) < 2 ^ 64
      → s.socket.time_queue_mutex ≡ false
      → AdmitEnds now chosen fd s turned nonblocking ctl_ok (admit now old fd nonblocking ctl_ok s)
  unfolding admit epoll_register_event
  ends_by true nonblocking ctl_ok e pool queued timed room free =
      if_true (turned_away s.socket) _ _ e
  ends_by false false ctl_ok e pool queued timed room free = if_false (turned_away s.socket) _ _ e
  ends_by false true false e pool queued timed room free = if_false (turned_away s.socket) _ _ e
  ends_by false true true e pool queued timed room free =
      let (t, r, h) = let_in pool queued timed room free in
      (t, if_false (turned_away s.socket) _ _ e ∙ r, h)

-- From a counted pool whose free connections have their header buffer, with the timer queue in
-- order, with room for a node and its mutex free, a client that `accept` gave ends in one of three
-- ways. If there are too many users or the pool is strained, its descriptor is closed and nothing
-- else happens. If `SetNonBlocking` or `epoll_ctl` fails, the process ends. Else the connection that
-- `GetConnection` chooses has its descriptor, is between two packets and ready to receive, has the
-- handlers of a client and is watched for reading; one user more is online; the timer queue is in
-- order, with a timer for this connection at its place if the timeout check is on, and as it was if
-- it is off; and nothing else of the connections, the messages and the memory has changed.
pub admit-AdmitEnds :
    (now old fd : ℕ) (nonblocking ctl_ok : Bool) (s : Server)
    → IsPool s.socket
    → All (λ a. a < s.memory.next) s.message.recv_msg_list
    → IsTimed s.socket
    → suc (length s.socket.timer_queue) < 2 ^ 64
    → s.socket.time_queue_mutex ≡ false
    → AdmitEnds now
        (get_connection now (fd % 2 ^ 16) s.socket).0
        fd
        s
        (turned_away s.socket)
        nonblocking
        ctl_ok
        (admit now old fd nonblocking ctl_ok s)
admit-AdmitEnds now old fd nonblocking ctl_ok s pool queued timed room free =
    ends_by now old fd s (turned_away s.socket) nonblocking ctl_ok refl pool queued timed room free

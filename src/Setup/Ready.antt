-- ===== src/Setup/Ready.antt =====
-- net/XiaoHG_C_Socket.cxx and net/XiaoHG_C_SocketInet.cxx: the state of a worker process that has
-- opened its ports.
use xiao_hg_server.Base.{
  true, codes, ℕ, suc, ℤ, pos, negsuc, ◌+◌, ◌≤◌, ◌≡◌, refl, sym, subst, ap, ◌∙◌, inl, Bool, false,
  ◌&&◌, List, [], ◌∷◌, ◌++◌, map, arith, length, All-every, Ends, >>=-Ends, Ends-map, Ends-weaken,
  ltb,
}
use xiao_hg_server.Conf.{ConfItem, get_int_default}
use xiao_hg_server.Pool.{zeroed}
use xiao_hg_server.Receive.Fresh.{IsPool}
use xiao_hg_server.Server.{Config, Socket}
use xiao_hg_server.Setup.{
  attach_all, as_unsigned, at_least_five, Listening, Listener, read_config, need, create_threads,
  PortAnswers, open_ports, Answers, init_epoll, open_listening_sockets, configured, init_pool,
  init_socket,
}
use xiao_hg_server.Setup.Attach.{ListensFrom, visible, Joined, ctl_all, attach_all-Joined}
use xiao_hg_server.Setup.Ports.{
  listening_list, ports_ok, open_ports-Opened, length-listing, need-Ends, create_threads-Threaded,
}
use xiao_hg_server.Setup.Pool.{Growing, Counted, init_pool-Counted}
use xiao_hg_server.Timer.Insert.{IsTimed}

-- `g_Socket` before `Init`: static storage, which is zero.
abbrev pub unused_socket : Socket
unused_socket = record {
  conf = record {
    delay_recovery_connection_wait_time = 0;
    is_hb_time_out_check_enable = 0;
    wait_time = 0;
    is_time_out_kick = 0;
    flood_attack_enable = 0;
    flood_time_interval = 0;
    flood_kick_count = 0;
    epoll_create_connect_count = 0;
  };
  conn = λ c. zeroed;
  next_conn = 1;
  connection_list = [];
  total_connection_count = pos 0;
  free_connection_list = [];
  free_connection_count = pos 0;
  recy_connection_list = [];
  delay_recovery_connection_count = pos 0;
  timer_queue = [];
  current_heart_beat_list_size = 0;
  hb_list_earliest_time = 0;
  time_queue_mutex = false;
  on_line_user_count = pos 0;
}

abbrev pub unused : Listener
unused = record {
  socket = unused_socket;
  epoll_handle = 0;
  listen_port_count = 0;
  listen_socket_list = [];
  thread_count = 0;
}

abbrev pub port_count : List ConfItem → ℕ
port_count items = as_unsigned 8 (get_int_default items (codes "ListenPortCount") (pos 0))

configured-Growing :
    (items : List ConfItem) → Growing (read_config items) 0 (configured items unused).socket
unfolding configured
configured-Growing items = record {
  conf = refl;
  timed = record { sorted = tt; counted = refl; fits = omega arith; earliest = inl refl };
  buffers = λ j. refl;
  ordered = tt;
  balance = refl;
}

configured_count :
    (items : List ConfItem) → (configured items unused).listen_port_count ≡ port_count items
unfolding configured
configured_count items = refl

configured_list : (items : List ConfItem) → (configured items unused).listen_socket_list ≡ []
unfolding configured
configured_list items = refl

length-map : (f : Listening → ℕ × ℕ) (l : List Listening) → length (map f l) ≡ length l
length-map f [] = refl
length-map f (x ∷ l) = ap suc (length-map f l)

-- A worker process that is ready for clients.
pub record IsReady (items : List ConfItem) (answers : ℕ → PortAnswers) (t : Listener) : Type 0 where
  pub config : t.socket.conf ≡ read_config items
  pub patient : 5 ≤ t.socket.wait_time
  pub pool : IsPool t.socket
  pub used :
      length t.socket.connection_list
      ≡ length t.socket.free_connection_list + length t.listen_socket_list
  pub timed : IsTimed t.socket
  pub ports :
      map visible t.listen_socket_list
      ≡ map visible (listening_list items answers (port_count items) 0)
  pub listens : ListensFrom t.socket 1 t.listen_socket_list

at_least_five_lem : (n : ℤ) → 5 ≤ at_least_five n
unfolding at_least_five
at_least_five_lem (pos n) = ground arith
at_least_five_lem (negsuc n) = omega arith

-- What `InitEpoll` leaves.
record Watched (k : Config) (s t : Listener) : Type 0 where
  pub joined : Joined k 0 1 s.listen_socket_list s.socket (t.listen_socket_list, t.socket)

init_epoll-Watched :
    (now : ℕ) (w : Answers) (k : Config) (s : Listener)
    → Counted k 0 s.socket
    → Ends (Watched k s) (ctl_all w.ctl_ok 1 (length s.listen_socket_list)) (init_epoll now w s)
unfolding init_epoll
init_epoll-Watched now w k s h =
    Ends-map (ctl_all w.ctl_ok 1 (length s.listen_socket_list))
      (attach_all now w.ctl_ok 1 s.listen_socket_list s.socket) _
      (attach_all-Joined now 0 1 w.ctl_ok k s.listen_socket_list s.socket h)
      (λ p j. record { joined = j })

Watched-IsReady :
    (items : List ConfItem) (answers : ℕ → PortAnswers) (k : Config) (s t : Listener)
    → k ≡ read_config items
    → s.listen_socket_list ≡ listening_list items answers (port_count items) 0
    → Watched k s t
    → IsReady items answers t
unfolding read_config
Watched-IsReady items answers k s t e ports h =
    let c = h.joined.counted in
    let config : t.socket.conf ≡ read_config items = c.growing.conf ∙ e in
    let size : length t.listen_socket_list ≡ length s.listen_socket_list =
      sym (length-map visible t.listen_socket_list)
      ∙ ap length h.joined.same
      ∙ length-map visible s.listen_socket_list in
    record {
      config = config;
      patient =
          subst (λ r. 5 ≤ r.wait_time) (sym config)
            (at_least_five_lem (get_int_default items (codes "Sock_MaxWaitTime") (pos 0)));
      pool = record {
        total = c.total;
        free = c.free;
        buffers = All-every t.socket.free_connection_list c.growing.buffers;
      };
      used = omega (arith, c.growing.balance, size);
      timed = c.growing.timed;
      ports = h.joined.same ∙ ap (map visible) ports;
      listens = h.joined.listens;
    }

abbrev ports_start : ℕ → Answers → Bool
ports_start n w = ports_ok w.port n 0 && (ltb 0 n && ctl_all w.ctl_ok 1 n)

-- Whether a worker process starts: the answers of `socket`, of `epoll_create` and of
-- `pthread_mutex_init` have no part in it.
abbrev pub starts : List ConfItem → Answers → Bool
starts items w = w.recycler_created && w.monitor_created && ports_start (port_count items) w

opening-IsReady :
    (now : ℕ) (items : List ConfItem) (w : Answers) (k : Config) (s : Listener)
    → k ≡ read_config items
    → s.listen_socket_list ≡ []
    → s.listen_port_count ≡ port_count items
    → Counted k 0 s.socket
    → Ends
        (IsReady items w.port)
        (ports_start s.listen_port_count w)
        (open_listening_sockets now items w s)
unfolding open_listening_sockets
opening-IsReady now items w k s e list count h =
    let n : ℕ = s.listen_port_count in
    >>=-Ends (ports_ok w.port n 0) (ltb 0 n && ctl_all w.ctl_ok 1 n) (open_ports items w.port n 0 s)
      _ (open_ports-Opened items w.port n 0 s)
      (λ t o.
        let got : t.listen_socket_list ≡ listening_list items w.port n 0 =
          o.list ∙ ap (λ l. l ++ listening_list items w.port n 0) list in
        let size : length t.listen_socket_list ≡ n =
          ap length got ∙ length-listing items w.port n 0 in
        >>=-Ends (ltb 0 n) (ctl_all w.ctl_ok 1 n) (need (ltb 0 (length t.listen_socket_list)) t)
          (init_epoll now w)
          (subst (λ m. Ends (λ u. u ≡ t) (ltb 0 m) (need (ltb 0 (length t.listen_socket_list)) t))
            size (need-Ends (ltb 0 (length t.listen_socket_list)) t))
          (λ u same.
            let len : length u.listen_socket_list ≡ n =
              ap (λ x. length x.listen_socket_list) same ∙ size in
            let counted : Counted k 0 u.socket =
              subst (Counted k 0) (sym (ap (λ x. x.socket) same ∙ o.socket)) h in
            let ports : u.listen_socket_list ≡ listening_list items w.port (port_count items) 0 =
              ap (λ x. x.listen_socket_list) same
              ∙ got
              ∙ ap (λ m. listening_list items w.port m 0) count in
            Ends-weaken
              (subst (λ m. Ends (Watched k u) (ctl_all w.ctl_ok 1 m) (init_epoll now w u)) len
                (init_epoll-Watched now w k u counted))
              (λ x. Watched-IsReady items w.port k u x e ports)))

-- `Init` ends the process if one of its two threads or a port cannot be had, if no port is
-- configured, or if `epoll_ctl` fails; in all other cases, whatever `socket`, `epoll_create` and
-- `pthread_mutex_init` answer, it returns with the worker process ready: its configuration is the
-- one of the file, with a waiting time of at least 5; the pool is counted, each of its connections
-- free or with a listening socket; the timer queue is in order; and the listening sockets are those
-- of the configured ports, in their order, each with a connection of its own that waits for clients.
pub init_socket-IsReady :
    (now : ℕ) (items : List ConfItem) (w : Answers)
    → Ends (IsReady items w.port) (starts items w) (init_socket now items w unused)
unfolding init_socket
init_socket-IsReady now items w =
    let a : Listener = configured items unused in
    let both : Bool = w.recycler_created && w.monitor_created in
    >>=-Ends true (both && ports_start (port_count items) w) (need true a) _ (need-Ends true a)
      (λ b same.
        >>=-Ends both (ports_start (port_count items) w)
          (create_threads w.recycler_created w.monitor_created b) _
          (create_threads-Threaded w.recycler_created w.monitor_created b)
          (λ c h.
            let before : c.socket ≡ a.socket = h.socket ∙ ap (λ x. x.socket) same in
            let count : c.listen_port_count ≡ port_count items =
              h.count ∙ ap (λ x. x.listen_port_count) same ∙ configured_count items in
            let list : c.listen_socket_list ≡ [] =
              h.list ∙ ap (λ x. x.listen_socket_list) same ∙ configured_list items in
            let grown =
              subst (Growing (read_config items) 0) (sym before) (configured-Growing items) in
            let d : Listener = record c { socket = init_pool now c.socket } in
            subst
              (λ m.
                Ends (IsReady items w.port) (ports_start m w)
                  (open_listening_sockets now items w d))
              count
              (opening-IsReady now items w (read_config items) d refl list count
                (init_pool-Counted now (read_config items) c.socket grown))))

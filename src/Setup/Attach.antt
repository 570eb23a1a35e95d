-- ===== src/Setup/Attach.antt =====
-- net/XiaoHG_C_Socket.cxx and net/XiaoHG_C_SocketInet.cxx: the loop of `InitEpoll` over the
-- listening sockets.
use xiao_hg_server.Base.{
  map, ap₂, Ends-map, ℕ, zero, suc, ◌+◌, ◌%◌, ◌^◌, ◌<◌, ◌≡◌, refl, subst, ap, ◌∙◌, Bool, true,
  false, ◌&&◌, List, [], ◌∷◌, arith, length, update_self, update_ne, All, Ends, returns, exits,
  >>=-Ends,
}
use xiao_hg_server.Connection.{Connection, accept_handler}
use xiao_hg_server.Epoll.{epollin, epollrdhup, epoll_ctl_add, epoll_add, epoll_register_event}
use xiao_hg_server.Pool.{get_connection}
use xiao_hg_server.Server.{Config, Socket}
use xiao_hg_server.Setup.{Listening, listen_on, attach_listening, attach_all}
use xiao_hg_server.Setup.Pool.{Counted, Taken, get_connection-Taken, timers_kept, buffers_kept}

-- A listening socket at the address `a` has a connection of its own: the connection has its
-- descriptor, waits for clients, and no other call of `GetConnection` gives it again.
pub record Listens (s : Socket) (a : ℕ) (l : Listening) : Type 0 where
  pub handler : (s.conn l.conn).pcb_read_handler ≡ accept_handler
  pub descriptor : (s.conn l.conn).sock_fd ≡ l.sock_fd % 2 ^ 16
  pub address : (s.conn l.conn).listen_socket ≡ a
  pub watched : (s.conn l.conn).epoll_events ≡ epollin + epollrdhup
  pub below : l.conn < s.next_conn
  pub taken : All (λ d. l.conn < d) s.free_connection_list

-- One round of `InitEpoll`.
record Attached (k : Config) (n a : ℕ) (l : Listening) (s : Socket) (r : Listening × Socket)
    : Type 0 where
  pub counted : Counted k (suc n) r.1
  pub same_fd : r.0.sock_fd ≡ l.sock_fd
  pub same_port : r.0.port ≡ l.port
  pub listens : Listens r.1 a r.0
  pub older : (b : ℕ) (m : Listening) → Listens s b m → Listens r.1 b m × (m.conn < r.0.conn)

-- The listening socket and the state behind a `GetConnection` that gave `r`.
abbrev attached : ℕ → Listening → ℕ × Socket → Listening × Socket
attached a l r = (
  record l { conn = r.0 },
  (epoll_register_event epoll_ctl_add (epollin + epollrdhup) epoll_add true r.0
      (listen_on a r.0 r.1)).1,
)

Taken-Attached :
    (k : Config) (n a : ℕ) (l : Listening) (s : Socket) (r : ℕ × Socket)
    → Taken k n (l.sock_fd % 2 ^ 16) s r
    → Attached k n a l s (attached a l r)
unfolding epoll_register_event listen_on
Taken-Attached k n a l s r h =
    let t : Socket = listen_on a r.0 r.1 in
    let u : Socket = (attached a l r).1 in
    let g = h.counted.growing in
    let x : Connection = record (r.1.conn r.0) {
      listen_socket = a;
      pcb_read_handler = accept_handler;
    } in
    let first : t.conn r.0 ≡ x = update_self r.1.conn r.0 x in
    let last : u.conn r.0 ≡ record (t.conn r.0) { epoll_events = epollin + epollrdhup } =
      update_self t.conn r.0 _ in
    let rooms = buffers_kept r.1 r.0 x g.buffers (g.buffers r.0) in
    let others : (j : ℕ) → ¬ (j ≡ r.0) → u.conn j ≡ s.conn j =
      λ j ne. update_ne t.conn r.0 _ j ne ∙ update_ne r.1.conn r.0 x j ne ∙ h.others j ne in
    record {
      counted = record {
        growing = record {
          conf = g.conf;
          timed = timers_kept r.1 u refl refl refl g.timed;
          buffers = buffers_kept t r.0 _ rooms (rooms r.0);
          ordered = g.ordered;
          balance = g.balance;
        };
        total = h.counted.total;
        free = h.counted.free;
      };
      same_fd = refl;
      same_port = refl;
      listens = record {
        handler = ap (λ y. y.pcb_read_handler) last ∙ ap (λ y. y.pcb_read_handler) first;
        descriptor = ap (λ y. y.sock_fd) last ∙ ap (λ y. y.sock_fd) first ∙ h.descriptor;
        address = ap (λ y. y.listen_socket) last ∙ ap (λ y. y.listen_socket) first;
        watched = ap (λ y. y.epoll_events) last;
        below = h.below;
        taken = h.behind;
      };
      older = λ b m o.
          let (lt, next, free) = h.older m.conn o.below o.taken in
          let same : u.conn m.conn ≡ s.conn m.conn = others m.conn (omega arith) in
          (
            record {
              handler = ap (λ y. y.pcb_read_handler) same ∙ o.handler;
              descriptor = ap (λ y. y.sock_fd) same ∙ o.descriptor;
              address = ap (λ y. y.listen_socket) same ∙ o.address;
              watched = ap (λ y. y.epoll_events) same ∙ o.watched;
              below = next;
              taken = free;
            },
            lt,
          );
    }

attach_listening-Attached :
    (now n a : ℕ) (ok : Bool) (k : Config) (l : Listening) (s : Socket)
    → Counted k n s
    → Ends (Attached k n a l s) ok (attach_listening now a ok l s)
unfolding attach_listening epoll_register_event
attach_listening-Attached now n a false k l s h = exits refl refl
attach_listening-Attached now n a true k l s h =
    let r : ℕ × Socket = get_connection now (l.sock_fd % 2 ^ 16) s in
    returns (attached a l r) refl refl
      (Taken-Attached k n a l s r (get_connection-Taken now n (l.sock_fd % 2 ^ 16) k s h))

-- The listening sockets from the address `a` on, each with a connection of its own.
abbrev pub ListensFrom : Socket → ℕ → List Listening → Type 0
ListensFrom s a [] = Unit
ListensFrom s a (l ∷ ls) = Listens s a l × All (λ m. l.conn < m.conn) ls × ListensFrom s (suc a) ls

-- What a client sees of a listening socket.
abbrev pub visible : Listening → ℕ × ℕ
visible l = (l.port, l.sock_fd)

pub record Joined (k : Config) (n a : ℕ) (ls : List Listening) (s : Socket)
    (r : List Listening × Socket) : Type 0 where
  pub counted : Counted k (n + length ls) r.1
  pub same : map visible r.0 ≡ map visible ls
  pub listens : ListensFrom r.1 a r.0
  pub older :
      (b : ℕ) (m : Listening) → Listens s b m → Listens r.1 b m × All (λ x. m.conn < x.conn) r.0

-- Whether `epoll_ctl` succeeds for `n` listening sockets from the address `a` on.
abbrev pub ctl_all : (ℕ → Bool) → ℕ → ℕ → Bool
ctl_all ok a zero = true
ctl_all ok a (suc n) = ok a && ctl_all ok (suc a) n

Joined-cons :
    (k : Config) (n a : ℕ) (l : Listening) (ls : List Listening) (s : Socket)
    (p : Listening × Socket) (q : List Listening × Socket)
    → Attached k n a l s p
    → Joined k (suc n) (suc a) ls p.1 q
    → Joined k n a (l ∷ ls) s (p.0 ∷ q.0, q.1)
Joined-cons k n a l ls s p q h j =
    let (head, above) = j.older a p.0 h.listens in
    let size : suc n + length ls ≡ n + length (l ∷ ls) = omega arith in
    record {
      counted = subst (λ m. Counted k m q.1) size j.counted;
      same = ap₂ (λ x y. x ∷ y) (ap₂ (λ x y. (x, y)) h.same_port h.same_fd) j.same;
      listens = (head, above, j.listens);
      older = λ b m o.
          let (now, lt) = h.older b m o in let (later, all) = j.older b m now in (later, (lt, all));
    }

pub attach_all-Joined :
    (now n a : ℕ) (ok : ℕ → Bool) (k : Config) (ls : List Listening) (s : Socket)
    → Counted k n s
    → Ends (Joined k n a ls s) (ctl_all ok a (length ls)) (attach_all now ok a ls s)
unfolding attach_all
attach_all-Joined now n a ok k [] s h =
    let none_more : n ≡ n + 0 = omega arith in
    returns ([], s) refl refl
      (record {
        counted = subst (λ m. Counted k m s) none_more h;
        same = refl;
        listens = tt;
        older = λ b m o. (o, tt);
      })
attach_all-Joined now n a ok k (l ∷ ls) s h =
    >>=-Ends (ok a) (ctl_all ok (suc a) (length ls)) (attach_listening now a (ok a) l s) _
      (attach_listening-Attached now n a (ok a) k l s h)
      (λ p at.
        Ends-map (ctl_all ok (suc a) (length ls)) (attach_all now ok (suc a) ls p.1)
          (λ q. (p.0 ∷ q.0, q.1)) (attach_all-Joined now (suc n) (suc a) ok k ls p.1 at.counted)
          (λ q j. Joined-cons k n a l ls s p q at j))

-- ===== src/Setup/Pool.antt =====
-- net/XiaoHG_C_Socket.cxx: the connections that `Init` creates, and those that the listening
-- sockets take.
use xiao_hg_server.Base.{
  ℕ, zero, suc, pos, inc, dec, ◌+◌, ◌^◌, ◌<◌, ◌≡◌, refl, sym, subst, ap, ◌∙◌, inl, inr, List, [],
  ◌∷◌, ◌++◌, arith, length, length-append, update, update_self, update_ne, update_keeps, All,
  All-append,
}
use xiao_hg_server.Comm.{msg_header_len}
use xiao_hg_server.Connection.{Connection, get_one_to_use}
use xiao_hg_server.Pool.{zeroed, in_use, take_free, make_new, get_connection}
use xiao_hg_server.Server.{Config, Socket}
use xiao_hg_server.Setup.{add_connection, add_connections, init_pool}
use xiao_hg_server.Timer.{get_timer_list_earliest_time}
use xiao_hg_server.Timer.Insert.{IsSorted, IsTimed}

-- Addresses in ascending order, below a bound.
abbrev pub Ordered : List ℕ → ℕ → Type 0
Ordered [] n = Unit
Ordered (c ∷ cs) n = (c < n) × All (λ d. c < d) cs × Ordered cs n

pub Ordered-snoc : (cs : List ℕ) (n : ℕ) → Ordered cs n → Ordered (cs ++ (n ∷ [])) (suc n)
Ordered-snoc [] n h = (omega arith, tt, tt)
Ordered-snoc (c ∷ cs) n h =
    (omega (arith, h.0), All-append (λ d. c < d) cs (n ∷ []) h.1 (h.0, tt), Ordered-snoc cs n h.2)

Ordered-wider : (cs : List ℕ) (n : ℕ) → Ordered cs n → Ordered cs (suc n)
Ordered-wider [] n h = tt
Ordered-wider (c ∷ cs) n h = (omega (arith, h.0), h.1, Ordered-wider cs n h.2)

-- A socket with its configuration whose pool is not counted yet: `n` connections are not free.
pub record Growing (k : Config) (n : ℕ) (s : Socket) : Type 0 where
  pub conf : s.conf ≡ k
  pub timed : IsTimed s
  pub buffers : (j : ℕ) → length (s.conn j).data_head_info ≡ msg_header_len
  pub ordered : Ordered s.free_connection_list s.next_conn
  pub balance : length s.connection_list ≡ length s.free_connection_list + n

-- The same for a pool that is counted.
pub record Counted (k : Config) (n : ℕ) (s : Socket) : Type 0 where
  pub growing : Growing k n s
  pub total : s.total_connection_count ≡ pos (length s.connection_list)
  pub free : s.free_connection_count ≡ pos (length s.free_connection_list)

-- The timers are as before when no member of the queue changes.
pub timers_kept :
    (s t : Socket)
    → t.timer_queue ≡ s.timer_queue
    → t.current_heart_beat_list_size ≡ s.current_heart_beat_list_size
    → t.hb_list_earliest_time ≡ s.hb_list_earliest_time
    → IsTimed s
    → IsTimed t
timers_kept s t q n e h = record {
  sorted = subst IsSorted (sym q) h.sorted;
  counted = n ∙ h.counted ∙ ap length (sym q);
  fits = subst (λ m. length m < 2 ^ 64) (sym q) h.fits;
  earliest = elim h.earliest [
    | inl a ↦ inl (q ∙ a)
    | inr a ↦ inr (e ∙ a ∙ ap get_timer_list_earliest_time (sym q))
  ];
}

pub buffers_kept :
    (s : Socket) (c : ℕ) (x : Connection)
    → ((j : ℕ) → length (s.conn j).data_head_info ≡ msg_header_len)
    → length x.data_head_info ≡ msg_header_len
    → (j : ℕ) → length (update s.conn c x j).data_head_info ≡ msg_header_len
buffers_kept s c x h e j =
    update_keeps (λ y. length y.data_head_info) s.conn c x j (e ∙ sym (h c)) ∙ h j

add_connection-Growing :
    (now n : ℕ) (k : Config) (s : Socket) → Growing k n s → Growing k n (add_connection now s)
unfolding add_connection get_one_to_use
add_connection-Growing now n k s h = record {
  conf = h.conf;
  timed = timers_kept s _ refl refl refl h.timed;
  buffers = buffers_kept s s.next_conn _ h.buffers refl;
  ordered = Ordered-snoc s.free_connection_list s.next_conn h.ordered;
  balance = omega (
    arith,
    h.balance,
    length-append s.connection_list (s.next_conn ∷ []),
    length-append s.free_connection_list (s.next_conn ∷ []),
  );
}

add_connections-Growing :
    (now n m : ℕ) (k : Config) (s : Socket) → Growing k n s → Growing k n (add_connections now m s)
unfolding add_connections
add_connections-Growing now n zero k s h = h
add_connections-Growing now n (suc m) k s h =
    add_connections-Growing now n m k (add_connection now s) (add_connection-Growing now n k s h)

length-add_connections :
    (now m : ℕ) (s : Socket)
    → length (add_connections now m s).connection_list ≡ length s.connection_list + m
unfolding add_connections add_connection
length-add_connections now zero s = omega arith
length-add_connections now (suc m) s =
    length-add_connections now m (add_connection now s)
    ∙ omega (arith, length-append s.connection_list (s.next_conn ∷ []))

-- The pool behind `Init`, before the ports are open.
pub init_pool-Counted :
    (now : ℕ) (k : Config) (s : Socket) → Growing k 0 s → Counted k 0 (init_pool now s)
unfolding init_pool
init_pool-Counted now k s h =
    let t : Socket = add_connections now s.epoll_create_connect_count s in
    let g = add_connections-Growing now 0 s.epoll_create_connect_count k s h in
    record {
      growing = record {
        conf = g.conf;
        timed = timers_kept t _ refl refl refl g.timed;
        buffers = g.buffers;
        ordered = g.ordered;
        balance = g.balance;
      };
      total = refl;
      free = ap pos (omega (arith, g.balance));
    }

-- What `GetConnection` gives for a listening socket.
pub record Taken (k : Config) (n fd : ℕ) (s : Socket) (r : ℕ × Socket) : Type 0 where
  pub counted : Counted k (suc n) r.1
  pub descriptor : (r.1.conn r.0).sock_fd ≡ fd
  pub below : r.0 < r.1.next_conn
  pub behind : All (λ d. r.0 < d) r.1.free_connection_list
  pub others : (j : ℕ) → ¬ (j ≡ r.0) → r.1.conn j ≡ s.conn j
  pub older :
      (b : ℕ)
      → b < s.next_conn
      → All (λ d. b < d) s.free_connection_list
      → (b < r.0) × (b < r.1.next_conn) × All (λ d. b < d) r.1.free_connection_list

make_new-Taken :
    (now n fd : ℕ) (k : Config) (s : Socket)
    → s.free_connection_list ≡ []
    → Counted k n s
    → Taken k n fd s (make_new now fd s)
unfolding make_new get_one_to_use
make_new-Taken now n fd k s e h =
    let g = h.growing in
    let size = length-append s.connection_list (s.next_conn ∷ []) in
    let self = update_self s.conn s.next_conn (in_use now fd zeroed) in
    record {
      counted = record {
        growing = record {
          conf = g.conf;
          timed = timers_kept s _ refl refl refl g.timed;
          buffers = buffers_kept s s.next_conn _ g.buffers refl;
          ordered = Ordered-wider s.free_connection_list s.next_conn g.ordered;
          balance = omega (arith, g.balance, size);
        };
        total = ap inc h.total ∙ ap pos (omega (arith, size));
        free = h.free;
      };
      descriptor = ap (λ x. x.sock_fd) self;
      below = omega arith;
      behind = subst (All (λ d. s.next_conn < d)) (sym e) tt;
      others = λ j ne. update_ne s.conn s.next_conn _ j ne;
      older = λ b lt all. (lt, omega (arith, lt), all);
    }

take_free-Taken :
    (now n fd c : ℕ) (rest : List ℕ) (k : Config) (s : Socket)
    → s.free_connection_list ≡ c ∷ rest
    → Counted k n s
    → Taken k n fd s (take_free now fd c rest s)
unfolding take_free get_one_to_use
take_free-Taken now n fd c rest k s e h =
    let g = h.growing in
    let o : Ordered (c ∷ rest) s.next_conn = subst (λ l. Ordered l s.next_conn) e g.ordered in
    let self = update_self s.conn c (in_use now fd (s.conn c)) in
    record {
      counted = record {
        growing = record {
          conf = g.conf;
          timed = timers_kept s _ refl refl refl g.timed;
          buffers = buffers_kept s c _ g.buffers (g.buffers c);
          ordered = o.2;
          balance = omega (arith, g.balance, ap length e);
        };
        total = h.total;
        free = ap dec (h.free ∙ ap (λ l. pos (length l)) e);
      };
      descriptor = ap (λ x. x.sock_fd) self;
      below = o.0;
      behind = o.1;
      others = λ j ne. update_ne s.conn c _ j ne;
      older = λ b lt all.
          let a : All (λ d. b < d) (c ∷ rest) = subst (All (λ d. b < d)) e all in (a.0, lt, a.1);
    }

pool_cases :
    (now n fd : ℕ) (k : Config) (s : Socket) (q : List ℕ)
    → s.free_connection_list ≡ q
    → Counted k n s
    → Taken k n fd s (elim q [ [] ↦ make_new now fd s | c ∷ rest ↦ take_free now fd c rest s ])
pool_cases now n fd k s [] e h = make_new-Taken now n fd k s e h
pool_cases now n fd k s (c ∷ rest) e h = take_free-Taken now n fd c rest k s e h

pub get_connection-Taken :
    (now n fd : ℕ) (k : Config) (s : Socket)
    → Counted k n s
    → Taken k n fd s (get_connection now fd s)
unfolding get_connection
get_connection-Taken now n fd k s h = pool_cases now n fd k s s.free_connection_list refl h

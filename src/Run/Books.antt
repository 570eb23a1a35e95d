-- ===== src/Run/Books.antt =====
-- What a worker process keeps books of: the lists of its connections, of its timers and of its
-- messages, with the counters beside them, and the moves between such books.
use xiao_hg_server.Base.{
  ℕ, suc, ℤ, inc, dec, ◌==◌, ◌≡◌, ◌⊎◌, sym, subst, false, List, [], ◌∷◌, ◌++◌, add32, sub32, add64,
  sub64, Bool, Star, stop, go, Star-trans, Outcome, Whenever, Whenever-map,
}
use xiao_hg_server.Pool.{contains}
use xiao_hg_server.Server.{Config, TimerNode, Socket, MessageCtl, Server}
use xiao_hg_server.Timer.{insert}

-- The connections: all, those that are free, and those that wait to be recycled; and their timers,
-- with the mutex of their queue and the configuration.
pub record Pools : Type 0 where
  pub next : ℕ
  pub all : List ℕ
  pub total : ℤ
  pub free : List ℕ
  pub free_count : ℤ
  pub recy : List ℕ
  pub recy_count : ℤ
  pub timers : List TimerNode
  pub timer_count : ℕ
  pub mutex : Bool
  pub conf : Config

-- The messages that were received, and those that wait to be sent.
pub record Lists : Type 0 where
  pub recv : List ℕ
  pub recv_size : ℕ
  pub send : List ℕ
  pub send_size : ℕ

abbrev pub pools : Socket → Pools
pools s = record {
  next = s.next_conn;
  all = s.connection_list;
  total = s.total_connection_count;
  free = s.free_connection_list;
  free_count = s.free_connection_count;
  recy = s.recy_connection_list;
  recy_count = s.delay_recovery_connection_count;
  timers = s.timer_queue;
  timer_count = s.current_heart_beat_list_size;
  mutex = s.time_queue_mutex;
  conf = s.conf;
}

abbrev pub lists : MessageCtl → Lists
lists m = record {
  recv = m.recv_msg_list;
  recv_size = m.recv_msg_list_size;
  send = m.send_msg_list;
  send_size = m.send_msg_list_size;
}

-- `r` is `l` without one `x`.
pub data Without {ℓ} {A : Type ℓ} (x : A) (l r : List A) : Type ℓ where
  without :
      (before behind : List A) → l ≡ before ++ (x ∷ behind) → r ≡ before ++ behind → Without x l r

-- The threads: the main thread with its events, the sending thread, a thread of the pool, the monitor
-- of the heartbeats, and the thread that recycles connections.
pub data Role : Type 0 where
  main sender worker monitor recycler : Role

-- Who closes connections with their timers.
abbrev pub Retires : Role → Type 0
Retires r = (r ≡ main) ⊎ (r ≡ worker)

-- The monitor closes connections only while the timeout check is off.
abbrev pub MayRetire : Role → Config → Type 0
MayRetire r k = Retires r ⊎ ((r ≡ monitor) × ((k.is_hb_time_out_check_enable == 1) ≡ false))

-- What one connection or one timer can do, and by whom: a connection is made when none is free, taken
-- from the free ones, sent to the queue, which it is not in, or given back from the queue to the
-- free ones; a timer is put at its place in the order of the queue, or taken out.
pub data PoolMove (r : Role) (b c : Pools) : Type 0 where
  makes :
      r ≡ main
      → b.free ≡ []
      → c ≡ record b { next = suc b.next; all = b.all ++ (b.next ∷ []); total = inc b.total }
      → PoolMove r b c
  takes :
      r ≡ main
      → (x : ℕ) (rest : List ℕ) → b.free ≡ x ∷ rest
      → c ≡ record b { free = rest; free_count = dec b.free_count }
      → PoolMove r b c
  retires :
      MayRetire r b.conf
      → (x : ℕ) → contains x b.recy ≡ false
      → c ≡ record b { recy = b.recy ++ (x ∷ []); recy_count = inc b.recy_count }
      → PoolMove r b c
  returns :
      r ≡ recycler
      → (x : ℕ) (rest : List ℕ) → Without x b.recy rest
      → c ≡ record b {
        recy = rest;
        recy_count = dec b.recy_count;
        free = b.free ++ (x ∷ []);
        free_count = inc b.free_count;
      }
      → PoolMove r b c
  starts :
      (r ≡ main) ⊎ (r ≡ monitor)
      → (n : TimerNode)
      → c ≡ record b { timers = insert n b.timers; timer_count = add64 b.timer_count 1 }
      → PoolMove r b c
  ends :
      Retires r ⊎ (r ≡ monitor)
      → (n : TimerNode) (rest : List TimerNode) → Without n b.timers rest
      → c ≡ record b { timers = rest; timer_count = sub64 b.timer_count 1 }
      → PoolMove r b c

-- What one message can do, and by whom.
pub data ListMove (r : Role) (b c : Lists) : Type 0 where
  arrives :
      r ≡ main
      → (a : ℕ) → c ≡ record b { recv = b.recv ++ (a ∷ []); recv_size = add32 b.recv_size 1 }
      → ListMove r b c
  is_handled :
      r ≡ worker
      → (a : ℕ) (rest : List ℕ) → b.recv ≡ a ∷ rest
      → c ≡ record b { recv = rest; recv_size = sub32 b.recv_size 1 }
      → ListMove r b c
  waits :
      r ≡ worker
      → (a : ℕ) → c ≡ record b { send = b.send ++ (a ∷ []); send_size = add32 b.send_size 1 }
      → ListMove r b c
  leaves :
      r ≡ sender
      → (a : ℕ) (rest : List ℕ) → Without a b.send rest
      → c ≡ record b { send = rest; send_size = sub32 b.send_size 1 }
      → ListMove r b c

-- From one state to another a thread moves connections and messages.
pub record Moves (r : Role) (s t : Server) : Type 0 where
  pub connections : Star (PoolMove r) (pools s.socket) (pools t.socket)
  pub messages : Star (ListMove r) (lists s.message) (lists t.message)

pub Moves-refl : {r : Role} (s : Server) → Moves r s s
Moves-refl s = record { connections = stop; messages = stop }

pub Moves-trans : {r : Role} {s t u : Server} → Moves r s t → Moves r t u → Moves r s u
Moves-trans p q = record {
  connections = Star-trans p.connections q.connections;
  messages = Star-trans p.messages q.messages;
}

-- What leaves the books alone moves nothing.
pub kept :
    {r : Role} {s t : Server}
    → pools t.socket ≡ pools s.socket
    → lists t.message ≡ lists s.message
    → Moves r s t
kept {r} {s} {t} p l = record {
  connections = subst (Star (PoolMove r) (pools s.socket)) (sym p) stop;
  messages = subst (Star (ListMove r) (lists s.message)) (sym l) stop;
}

-- Connections and timers move.
pub pool_moves :
    {r : Role} {s t : Server}
    → Star (PoolMove r) (pools s.socket) (pools t.socket)
    → lists t.message ≡ lists s.message
    → Moves r s t
pool_moves {r} {s} {t} p l = record {
  connections = p;
  messages = subst (Star (ListMove r) (lists s.message)) (sym l) stop;
}

-- One connection, or one message, moves.
pub moves_one :
    {r : Role} {s t : Server}
    → PoolMove r (pools s.socket) (pools t.socket)
    → lists t.message ≡ lists s.message
    → Moves r s t
moves_one {r} {s} {t} p l = record {
  connections = go stop p;
  messages = subst (Star (ListMove r) (lists s.message)) (sym l) stop;
}

pub message_moves :
    {r : Role} {s t : Server}
    → pools t.socket ≡ pools s.socket
    → ListMove r (lists s.message) (lists t.message)
    → Moves r s t
message_moves {r} {s} {t} p l = record {
  connections = subst (Star (PoolMove r) (pools s.socket)) (sym p) stop;
  messages = go stop l;
}

-- The same for the state that comes with a value.
abbrev pub MovesTo : {A : Type 0} → Role → Server → A × Server → Type 0
MovesTo r s p = Moves r s p.1

-- What follows moves that were made before.
pub after_moves :
    {r : Role} {s t : Server} (m : Outcome Server)
    → Moves r s t
    → Whenever (Moves r t) m
    → Whenever (Moves r s) m
after_moves {r} {s} {t} m h k = Whenever-map (Moves r t) (Moves r s) m k (λ u. Moves-trans h)

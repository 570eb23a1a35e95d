-- ===== src/Run/Refine.antt =====
-- What the books of a worker process do while it runs.
use xiao_hg_server.Base.{
  Star-keeps, Bool-cases, inl, inr, ℕ, zero, suc, ◌+◌, ◌*◌, ◌≡◌, refl, sym, ap, ◌∙◌, subst, true,
  ◌&&◌, Option, Outcome, ltb, ◌==◌, length, if_split, option_split, Whenever, Whenever-done,
  >>=-Whenever, Bool, Star, stop, go, Star-bind, false,
}
use xiao_hg_server.HeartBeat.{
  heart_beat_time_out_check, monitor_loop, with_mutex, locked_round, heart_beat_monitor_round,
}
use xiao_hg_server.Pool.{close_connection_to_recy}
use xiao_hg_server.Pool.Closing.{close_connection_to_recy_held}
use xiao_hg_server.Run.{Step, serves, sends, works, watches, recycles}
use xiao_hg_server.Run.Books.{
  Role, Pools, pools, PoolMove, makes, takes, retires, returns, starts, ends, main, sender, worker,
  monitor, recycler, Moves, Moves-refl, Moves-trans, pool_moves, after_moves,
}
use xiao_hg_server.Run.Closes.{delay_recovery_pass-Moves, close_connection_to_recy_off}
use xiao_hg_server.Run.Sends.{send_msg_round-Moves}
use xiao_hg_server.Run.Serves.{epol_waitl_process_events-Moves}
use xiao_hg_server.Run.Works.{thread_round-Moves}
use xiao_hg_server.Run.Timers.{get_over_time_timer-PoolMoves}
use xiao_hg_server.Server.{TimerNode, Socket, Server, conn_of}
use xiao_hg_server.Timer.{get_over_time_timer}
use xiao_hg_server.Timer.Order.{get_over_time_timer_keeps}

-- What the monitor does while it holds the mutex of the queue: a close would wait for that mutex for
-- ever, so the check returns only if it closes nothing.
record Held (s : Server) : Type 0 where
  on : (s.socket.is_hb_time_out_check_enable == 1) ≡ true
  mutex : s.socket.time_queue_mutex ≡ true

heart_beat_time_out_check_closes_none :
    (now : ℕ) (x : TimerNode) (s : Server)
    → Held s
    → Whenever (λ t. t ≡ s) (heart_beat_time_out_check now x s)
unfolding heart_beat_time_out_check
heart_beat_time_out_check_closes_none now x s h =
    let P : Outcome Server → Type 0 = Whenever (λ t. t ≡ s) in
    let stuck : P (close_connection_to_recy now x.conn s) =
      subst P (sym (close_connection_to_recy_held now x.conn s h.on h.mutex)) tt in
    if_split P (x.curr_sequence == (conn_of s x.conn).curr_sequence)
      (λ same.
        if_split P (s.socket.is_time_out_kick == 1) (λ kick. stuck)
          (λ wait.
            if_split P
              (ltb ((conn_of s x.conn).last_heart_beat_time + (s.socket.wait_time * 3 + 10)) now)
              (λ late. stuck) (λ beats. refl)))
      (λ stale. refl)

popped-Held :
    (now : ℕ) (s : Server)
    → Held s
    → Held (record s { socket = (get_over_time_timer now s.socket).1 })
popped-Held now s h =
    let (_, conf, mutex) = get_over_time_timer_keeps now s.socket in
    record {
      on = ap (λ k. k.is_hb_time_out_check_enable == 1) conf ∙ h.on;
      mutex = mutex ∙ h.mutex;
    }

monitor_loop-Moves :
    (fuel now : ℕ) (s : Server) → Held s → Whenever (Moves monitor s) (monitor_loop fuel now s)
unfolding monitor_loop
monitor_loop-Moves zero now s h = Moves-refl s
monitor_loop-Moves (suc fuel) now s h =
    let p : Option TimerNode × Socket = get_over_time_timer now s.socket in
    let t : Server = record s { socket = p.1 } in
    let taken : Moves monitor s t = pool_moves (get_over_time_timer-PoolMoves now s.socket) refl in
    option_split (Whenever (Moves monitor s)) p.0 taken (λ x.
      >>=-Whenever (λ u. u ≡ t) (Moves monitor s) (heart_beat_time_out_check now x t)
        (monitor_loop fuel now)
        (heart_beat_time_out_check_closes_none now x t (popped-Held now s h))
        (λ u same.
          subst (λ v. Whenever (Moves monitor s) (monitor_loop fuel now v)) (sym same)
            (after_moves (monitor_loop fuel now t) taken
              (monitor_loop-Moves fuel now t (popped-Held now s h)))))

-- Moves do not depend on the mutex.
abbrev with_lock : Bool → Pools → Pools
with_lock k b = record b { mutex = k }

lock_step :
    {r : Role} (k : Bool) (b c : Pools)
    → PoolMove r b c
    → Star (PoolMove r) (with_lock k b) (with_lock k c)
lock_step k b c (makes by none_free e) = go stop (makes by none_free (ap (with_lock k) e))
lock_step k b c (takes by x rest f e) = go stop (takes by x rest f (ap (with_lock k) e))
lock_step k b c (retires by x new e) = go stop (retires by x new (ap (with_lock k) e))
lock_step k b c (returns by x rest w e) = go stop (returns by x rest w (ap (with_lock k) e))
lock_step k b c (starts by n e) = go stop (starts by n (ap (with_lock k) e))
lock_step k b c (ends by n rest w e) = go stop (ends by n rest w (ap (with_lock k) e))

-- What happens between the lock and the unlock.
locked-Moves :
    (s u : Server)
    → s.socket.time_queue_mutex ≡ false
    → Moves monitor (with_mutex true s) u
    → Moves monitor s (with_mutex false u)
locked-Moves s u free h =
    let moves : Star (PoolMove monitor) (with_lock false (pools s.socket))
        (pools (with_mutex false u).socket) =
      Star-bind (with_lock false) (lock_step false) h.connections in
    record {
      connections =
          subst
            (λ k.
              Star (PoolMove monitor) (with_lock k (pools s.socket))
                (pools (with_mutex false u).socket))
            (sym free) moves;
      messages = h.messages;
    }

-- The configuration stays along moves.
PoolMove-conf : {r : Role} (b c : Pools) → PoolMove r b c → c.conf ≡ b.conf
PoolMove-conf b c (makes by none_free e) = ap (λ k. k.conf) e
PoolMove-conf b c (takes by x rest f e) = ap (λ k. k.conf) e
PoolMove-conf b c (retires by x new e) = ap (λ k. k.conf) e
PoolMove-conf b c (returns by x rest w e) = ap (λ k. k.conf) e
PoolMove-conf b c (starts by n e) = ap (λ k. k.conf) e
PoolMove-conf b c (ends by n rest w e) = ap (λ k. k.conf) e

Moves-conf : {r : Role} (s t : Server) → Moves r s t → t.socket.conf ≡ s.socket.conf
Moves-conf s t h =
    Star-keeps (λ (k : Pools). k.conf ≡ s.socket.conf) (λ x y m e. PoolMove-conf x y m ∙ e)
      h.connections refl

abbrev IsOff : Server → Type 0
IsOff s = (s.socket.is_hb_time_out_check_enable == 1) ≡ false

-- While the timeout check is off, the monitor may close connections.
heart_beat_time_out_check_off :
    (now : ℕ) (x : TimerNode) (s : Server)
    → IsOff s
    → Whenever (Moves monitor s) (heart_beat_time_out_check now x s)
unfolding heart_beat_time_out_check
heart_beat_time_out_check_off now x s off =
    let P : Outcome Server → Type 0 = Whenever (Moves monitor s) in
    let closes : P (close_connection_to_recy now x.conn s) =
      close_connection_to_recy_off now x.conn s off in
    if_split P (x.curr_sequence == (conn_of s x.conn).curr_sequence)
      (λ same.
        if_split P (s.socket.is_time_out_kick == 1) (λ kick. closes)
          (λ wait.
            if_split P
              (ltb ((conn_of s x.conn).last_heart_beat_time + (s.socket.wait_time * 3 + 10)) now)
              (λ late. closes) (λ beats. Moves-refl s)))
      (λ stale. Moves-refl s)

monitor_loop_off :
    (fuel now : ℕ) (s : Server) → IsOff s → Whenever (Moves monitor s) (monitor_loop fuel now s)
unfolding monitor_loop
monitor_loop_off zero now s off = Moves-refl s
monitor_loop_off (suc fuel) now s off =
    let p : Option TimerNode × Socket = get_over_time_timer now s.socket in
    let t : Server = record s { socket = p.1 } in
    let taken : Moves monitor s t = pool_moves (get_over_time_timer-PoolMoves now s.socket) refl in
    let t_off : IsOff t =
      ap (λ k. k.is_hb_time_out_check_enable == 1) (Moves-conf s t taken) ∙ off in
    option_split (Whenever (Moves monitor s)) p.0 taken (λ x.
      >>=-Whenever (Moves monitor t) (Moves monitor s) (heart_beat_time_out_check now x t)
        (monitor_loop fuel now) (heart_beat_time_out_check_off now x t t_off)
        (λ u h. after_moves (monitor_loop fuel now u) (Moves-trans taken h) (
          monitor_loop_off fuel now u
            (ap (λ k. k.is_hb_time_out_check_enable == 1) (Moves-conf t u h) ∙ t_off))))

locked_loop-Moves :
    (fuel now : ℕ) (s : Server)
    → s.socket.time_queue_mutex ≡ true
    → Whenever (Moves monitor s) (monitor_loop fuel now s)
locked_loop-Moves fuel now s held = elim (Bool-cases (s.socket.is_hb_time_out_check_enable == 1)) [
  | inl on ↦ monitor_loop-Moves fuel now s (record { on = on; mutex = held })
  | inr off ↦ monitor_loop_off fuel now s off
]

heart_beat_monitor_round-Moves :
    (now : ℕ) (s : Server) → Whenever (Moves monitor s) (heart_beat_monitor_round now s)
unfolding heart_beat_monitor_round locked_round
heart_beat_monitor_round-Moves now s =
    let P : Outcome Server → Type 0 = Whenever (Moves monitor s) in
    let t : Server = with_mutex true s in
    let fuel : ℕ = suc (length s.socket.timer_queue) in
    if_split P
      (ltb 0 s.socket.current_heart_beat_list_size && ltb s.socket.hb_list_earliest_time now)
      (λ awake.
        if_split P s.socket.time_queue_mutex (λ held. tt)
          (λ free.
            >>=-Whenever (Moves monitor t) (Moves monitor s) (monitor_loop fuel now t) _
              (locked_loop-Moves fuel now t refl) (λ u h. locked-Moves s u free h)))
      (λ asleep. Moves-refl s)

-- The thread that makes a step.
abbrev pub role : {s t : Server} → Step s t → Role
role (serves w e) = main
role (sends net w e) = sender
role (works now e) = worker
role (watches now e) = monitor
role (recycles now e) = recycler

-- In a step of any thread the lists of the connections, of the timers and of the messages change,
-- with their counters, only by moves that this thread makes, and the configuration does not: the
-- main thread makes a connection when none is free, takes one that is free, closes one that does not
-- wait to be recycled yet, puts a timer at its place in the queue, takes timers out, and lets a
-- message arrive; a thread of the pool takes the first message, lets one wait to be sent, closes
-- connections and takes timers out, too; the sending thread takes messages out of its list; the
-- thread that recycles gives back connections that have waited; and the monitor takes timers out and
-- puts timers back, closes connections only while the timeout check is off, and moves no message.
pub Step-Moves : {s t : Server} (st : Step s t) → Moves (role st) s t
Step-Moves {s} (serves w e) =
    Whenever-done (Moves main s) (epol_waitl_process_events-Moves true w s) e
Step-Moves {s} (sends net w e) = Whenever-done (Moves sender s) (send_msg_round-Moves net w s) e
Step-Moves {s} (works now e) = Whenever-done (Moves worker s) (thread_round-Moves now s) e
Step-Moves {s} (watches now e) =
    Whenever-done (Moves monitor s) (heart_beat_monitor_round-Moves now s) e
Step-Moves {s} (recycles now e) = subst (Moves recycler s) (sym e) (delay_recovery_pass-Moves now s)

-- ===== src/HeartBeat/Rounds.antt =====
-- net/XiaoHG_C_SocketTime.cxx: when a round of the heartbeat monitor returns, and what is due then.
use xiao_hg_server.Base.{
  ℕ, zero, suc, ◌+◌, ◌*◌, ◌≤◌, ◌<◌, ◌≡◌, refl, sym, ap, ◌∙◌, ◌⊎◌, inl, inr, Bool, true, false, ◌&&◌,
  List, [], ◌∷◌, none, some, Outcome, done, deadlock, arith, ◌>>=◌, if◌then◌else◌, ltb, leb, ◌==◌,
  length, Bool-cases, if_true, if_false,
}
use xiao_hg_server.Pool.Closing.{close_connection_to_recy_held}
use xiao_hg_server.Server.{TimerNode, Socket, Server, conn_of}
use xiao_hg_server.Timer.{get_over_time_timer, get_timer_list_earliest_time}
use xiao_hg_server.Timer.Order.{
  none_due, first_due, get_over_time_timer-OverTime, get_over_time_timer_keeps,
}
use xiao_hg_server.Timer.Insert.{Above, Above-mono, IsSorted, IsTimed}
use xiao_hg_server.HeartBeat.{
  heart_beat_time_out_check, monitor_loop, with_mutex, locked_round, heart_beat_monitor_round,
}
use xiao_hg_server.HeartBeat.Kicks.{
  kicks, some_kick, due_count, due_count-le, none_kicks, some_kick-put_back, due_count-put_back,
}

-- A state in which a thread runs a round: it holds the mutex of the queue.
record Locked (s : Server) : Type 0 where
  timed : IsTimed s.socket
  held : s.socket.time_queue_mutex ≡ true
  checks : (s.socket.is_hb_time_out_check_enable == 1) ≡ true
  waits : 0 < s.socket.wait_time

check_kicks :
    (now : ℕ) (x : TimerNode) (s : Server)
    → Locked s
    → heart_beat_time_out_check now x s
      ≡ (if kicks now s.socket.conf s.socket.conn x then deadlock else done s)
unfolding heart_beat_time_out_check
check_kicks now x s h =
    let close = close_connection_to_recy_held now x.conn s h.checks h.held in
    elim (Bool-cases (x.curr_sequence == (conn_of s x.conn).curr_sequence)) [
      | inl e ↦ elim (Bool-cases (s.socket.is_time_out_kick == 1)) [
        | inl k ↦ rw (e, k) close
        | inr k ↦
            elim (Bool-cases
              (ltb ((conn_of s x.conn).last_heart_beat_time + (s.socket.wait_time * 3 + 10)) now)) [
                | inl l ↦ rw (e, k, l) close
                | inr l ↦ rw (e, k, l) refl
              ]
      ]
      | inr e ↦ rw e refl
    ]

abbrev kick_due : ℕ → Server → Bool
kick_due now s = some_kick now s.socket.conf s.socket.conn s.socket.timer_queue

-- How the loop over the due nodes ends.
data Ends (now : ℕ) (s : Server) (o : Outcome Server) : Type 0 where
  deadlocks : kick_due now s ≡ true → o ≡ deadlock → Ends now s o
  returns :
      (t : Server)
      → kick_due now s ≡ false
      → o ≡ done t
      → IsTimed t.socket
      → Above (suc now) t.socket.timer_queue
      → Ends now s o

loop_none :
    (fuel now : ℕ) (s : Server)
    → get_over_time_timer now s.socket ≡ (none, s.socket)
    → monitor_loop (suc fuel) now s ≡ done s
unfolding monitor_loop
loop_none fuel now s e = rw (e, monitor_loop) (ap (λ r. done (record s { socket = r.1 })) e)

abbrev popped : ℕ → Server → Server
popped now s = record s { socket = (get_over_time_timer now s.socket).1 }

loop_some :
    (fuel now : ℕ) (s : Server) (x : TimerNode)
    → (get_over_time_timer now s.socket).0 ≡ some x
    → monitor_loop (suc fuel) now s
      ≡ (heart_beat_time_out_check now x (popped now s) >>= monitor_loop fuel now)
unfolding monitor_loop
loop_some fuel now s x e = rw (e, monitor_loop) refl

popped-Locked :
    (now : ℕ) (s : Server) → Locked s → IsTimed (popped now s).socket → Locked (popped now s)
popped-Locked now s h t =
    let (_, c, m) = get_over_time_timer_keeps now s.socket in
    record {
      timed = t;
      held = m ∙ h.held;
      checks = ap (λ k. k.is_hb_time_out_check_enable == 1) c ∙ h.checks;
      waits = rw (ap (λ k. k.wait_time) c) h.waits;
    }

-- The first node is due: what it does decides, or the rest of the queue.
first-Ends :
    (fuel now : ℕ) (s : Server) (x : TimerNode) (q : List TimerNode)
    → Locked s
    → Locked (popped now s)
    → s.socket.timer_queue ≡ x ∷ q
    → leb x.time now ≡ true
    → (get_over_time_timer now s.socket).0 ≡ some x
    → kick_due now (popped now s) ≡ some_kick now s.socket.conf s.socket.conn q
    → Ends now (popped now s) (monitor_loop fuel now (popped now s))
    → Ends now s (monitor_loop (suc fuel) now s)
first-Ends fuel now s x q h h' split due found same rest =
    let (conn, conf, _) = get_over_time_timer_keeps now s.socket in
    let step =
      loop_some fuel now s x found
      ∙ ap (λ o. o >>= monitor_loop fuel now) (check_kicks now x (popped now s) h') in
    let kick : kicks now (popped now s).socket.conf (popped now s).socket.conn x
        ≡ kicks now s.socket.conf s.socket.conn x =
      rw (conf, conn) refl in
    elim (Bool-cases (kicks now s.socket.conf s.socket.conn x)) [
      | inl k ↦ deadlocks (rw (split, due, k) refl) (step ∙ rw (kick, k) refl)
      | inr k ↦ elim rest [
        | deadlocks b o ↦ deadlocks (rw (split, due, k) (sym same ∙ b)) (step ∙ rw (kick, k) o)
        | returns t b o i a ↦
            returns t (rw (split, due, k) (sym same ∙ b)) (step ∙ rw (kick, k) o) i a
      ]
    ]

loop-Ends :
    (fuel now : ℕ) (s : Server)
    → Locked s
    → due_count now s.socket.timer_queue < fuel
    → Ends now s (monitor_loop fuel now s)
loop-Ends zero now s h f = absurd (omega arith)
loop-Ends (suc fuel) now s h f = elim (get_over_time_timer-OverTime now s.socket h.timed) [
  | none_due e a ↦
      returns s (none_kicks now s.socket.conf s.socket.conn s.socket.timer_queue a)
        (loop_none fuel now s e) h.timed a
  | first_due x q split due found after timed ↦
      let h' = popped-Locked now s h timed in
      let (conn, conf, _) = get_over_time_timer_keeps now s.socket in
      let early : leb x.time now ≡ true = ground arith in
      let fewer : due_count now (popped now s).socket.timer_queue < fuel = omega (
        arith,
        f,
        ap (due_count now) after,
        due_count-put_back now s.socket x q h.waits,
        ap (due_count now) split ∙ if_true _ _ _ early,
      ) in
      let same : kick_due now (popped now s) ≡ some_kick now s.socket.conf s.socket.conn q =
        rw (conn, conf, after)
          (some_kick-put_back now s.socket s.socket.conf s.socket.conn x q h.waits) in
      first-Ends fuel now s x q h h' split early found same
        (loop-Ends fuel now (popped now s) h' fewer)
]

-- A round looks at the queue.
abbrev pub wakes : ℕ → Socket → Bool
wakes now k = ltb 0 k.current_heart_beat_list_size && ltb k.hb_list_earliest_time now

-- How a round ends: it waits for ever for a mutex that it holds itself, or it returns, with the
-- queue in order and counted, and nothing in it that is earlier than the clock.
pub data RoundEnds (now : ℕ) (s : Server) (o : Outcome Server) : Type 0 where
  round_deadlocks : wakes now s.socket && kick_due now s ≡ true → o ≡ deadlock → RoundEnds now s o
  round_returns :
      (t : Server)
      → wakes now s.socket && kick_due now s ≡ false
      → o ≡ done t
      → IsTimed t.socket
      → Above now t.socket.timer_queue
      → RoundEnds now s o

Above-weaken : (now : ℕ) (q : List TimerNode) → Above (suc now) q → Above now q
Above-weaken now q a = Above-mono now (suc now) q (omega arith) a

-- The recorded earliest time is a bound for a queue in order.
earliest-Above : (now : ℕ) (s : Socket) → IsTimed s → wakes now s ≡ false → Above now s.timer_queue
unfolding get_timer_list_earliest_time
earliest-Above now s h asleep = parts s.timer_queue refl h.sorted h.earliest h.counted
  where
    parts :
        (q : List TimerNode)
        → s.timer_queue ≡ q
        → IsSorted q
        → (q ≡ []) ⊎ (s.hb_list_earliest_time ≡ get_timer_list_earliest_time q)
        → s.current_heart_beat_list_size ≡ length q
        → Above now q
    parts [] e o t n = tt
    parts (x ∷ q) e o (inl t) n = cc
    parts (x ∷ q) e o (inr t) n =
        let late : now ≤ x.time = ground arith in (late, Above-mono now x.time q late o.0)

locked_round_ends :
    (now : ℕ) (s : Server)
    → IsTimed s.socket
    → s.socket.time_queue_mutex ≡ false
    → (s.socket.is_hb_time_out_check_enable == 1) ≡ true
    → 0 < s.socket.wait_time
    → wakes now s.socket ≡ true
    → RoundEnds now s (locked_round now s)
unfolding locked_round
locked_round_ends now s timed free on waits awake =
    let locked : Locked (with_mutex true s) = record {
      timed = retimed true s timed;
      held = refl;
      checks = on;
      waits = waits;
    } in
    let few = due_count-le now s.socket.timer_queue in
    let ends =
      loop-Ends (suc (length s.socket.timer_queue)) now (with_mutex true s) locked (omega arith) in
    elim ends [
      | deadlocks k o ↦
          round_deadlocks (rw awake k) (if_false _ _ _ free ∙ ap (λ r. r >>= unlock) o)
      | returns t k o i a ↦
          round_returns (with_mutex false t) (rw awake k)
            (if_false _ _ _ free ∙ ap (λ r. r >>= unlock) o) (retimed false t i)
            (Above-weaken now t.socket.timer_queue a)
    ]
  where
    unlock : Server → Outcome Server
    unlock t = done (with_mutex false t)

    retimed : (b : Bool) (t : Server) → IsTimed t.socket → IsTimed (with_mutex b t).socket
    retimed b t h = record {
      sorted = h.sorted;
      counted = h.counted;
      fits = h.fits;
      earliest = h.earliest;
    }

-- From a queue in order and counted, with a waiting time above 0, while the timeout check is on and
-- the queue's mutex is free, a round of the monitor ends: it deadlocks exactly when it looks at the
-- queue and a node that is due kicks its connection; else it returns, with the queue in order and
-- counted, and nothing in it that is earlier than the clock.
pub heart_beat_monitor_round-RoundEnds :
    (now : ℕ) (s : Server)
    → IsTimed s.socket
    → s.socket.time_queue_mutex ≡ false
    → (s.socket.is_hb_time_out_check_enable == 1) ≡ true
    → 0 < s.socket.wait_time
    → RoundEnds now s (heart_beat_monitor_round now s)
unfolding heart_beat_monitor_round
heart_beat_monitor_round-RoundEnds now s timed free on waits =
    elim (Bool-cases (wakes now s.socket)) [
      | inl e ↦
          rw (if_true (wakes now s.socket) (locked_round now s) (done s) e)
            (locked_round_ends now s timed free on waits e)
      | inr e ↦
          round_returns s (rw e refl) (if_false _ _ _ e) timed (earliest-Above now s.socket timed e)
    ]

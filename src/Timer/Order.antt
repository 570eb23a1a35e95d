-- ===== src/Timer/Order.antt =====
-- net/XiaoHG_C_SocketTime.cxx: the order of the heartbeat queue, its size and its earliest time.
use xiao_hg_server.Base.{
  ℕ, suc, ◌+◌, ◌^◌, ◌≤◌, ◌<◌, ◌≡◌, refl, inl, inr, true, false, List, [], ◌∷◌, Option, none, some,
  arith, length, if◌then◌else◌, Bool-cases, ◌==◌, leb, sub64, ne→eq-false, ap, ◌∙◌,
}
use xiao_hg_server.Server.{Socket, TimerNode}
use xiao_hg_server.Timer.{insert, refresh_earliest, put_back, get_over_time_timer}
use xiao_hg_server.Timer.Insert.{
  Above, IsSorted, IsTimed, Above-mono, insert-IsSorted, length-insert, refresh_earliest-IsTimed,
}

-- The node that is put behind a timed-out one when kicking at once is off.
abbrev pub put_back_queue : ℕ → Socket → TimerNode → List TimerNode → List TimerNode
put_back_queue now s x q =
    if s.is_time_out_kick == 1
    then q
    else insert
        (record { time = now + s.wait_time; conn = x.conn; curr_sequence = x.curr_sequence }) q

-- What `GetOverTimeTimer` gives: nothing, when no node is due, or the earliest node, which is due.
pub data OverTime (now : ℕ) (s : Socket) (r : Option TimerNode × Socket) : Type 0 where
  none_due : r ≡ (none, s) → Above (suc now) s.timer_queue → OverTime now s r
  first_due :
      (x : TimerNode) (q : List TimerNode)
      → s.timer_queue ≡ x ∷ q
      → x.time ≤ now
      → r.0 ≡ some x
      → r.1.timer_queue ≡ put_back_queue now s x q
      → IsTimed r.1
      → OverTime now s r

put_back-queue :
    (now : ℕ) (x : TimerNode) (s : Socket)
    → (put_back now x s).timer_queue ≡ put_back_queue now s x s.timer_queue
unfolding put_back
put_back-queue now x s = ground arith

pub refresh_earliest-queue : (s : Socket) → (refresh_earliest s).timer_queue ≡ s.timer_queue
unfolding refresh_earliest
refresh_earliest-queue s = ground arith

put_back-IsTimed :
    (now : ℕ) (x : TimerNode) (s : Socket)
    → IsSorted s.timer_queue
    → s.current_heart_beat_list_size ≡ length s.timer_queue
    → suc (length s.timer_queue) < 2 ^ 64
    → IsTimed (refresh_earliest (put_back now x s))
unfolding put_back
put_back-IsTimed now x s o c f = elim (Bool-cases (s.is_time_out_kick == 1)) [
  | inl e ↦ rw e (refresh_earliest-IsTimed s o c (omega arith))
  | inr e ↦
      let n : TimerNode = record {
        time = now + s.wait_time;
        conn = x.conn;
        curr_sequence = x.curr_sequence;
      } in
      rw e (
        refresh_earliest-IsTimed _ (insert-IsSorted n s.timer_queue o)
          (omega (arith, length-insert n s.timer_queue))
          (omega (arith, length-insert n s.timer_queue)))
]

abbrev popped : Socket → List TimerNode → Socket
popped s q = record s {
  timer_queue = q;
  current_heart_beat_list_size = sub64 s.current_heart_beat_list_size 1;
}

get_over_time_timer_due :
    (now : ℕ) (s : Socket) (x : TimerNode) (q : List TimerNode)
    → s.timer_queue ≡ x ∷ q
    → (s.current_heart_beat_list_size == 0) ≡ false
    → leb x.time now ≡ true
    → get_over_time_timer now s ≡ (some x, refresh_earliest (put_back now x (popped s q)))
unfolding get_over_time_timer
get_over_time_timer_due now s x q e n due = ground arith

get_over_time_timer_early :
    (now : ℕ) (s : Socket) (x : TimerNode) (q : List TimerNode)
    → s.timer_queue ≡ x ∷ q
    → leb x.time now ≡ false
    → get_over_time_timer now s ≡ (none, s)
unfolding get_over_time_timer
get_over_time_timer_early now s x q e early = ground arith

get_over_time_timer_empty :
    (now : ℕ) (s : Socket) → s.timer_queue ≡ [] → get_over_time_timer now s ≡ (none, s)
unfolding get_over_time_timer
get_over_time_timer_empty now s e = ground arith

overtime_parts :
    (now : ℕ) (s : Socket) (q : List TimerNode)
    → s.timer_queue ≡ q
    → IsTimed s
    → OverTime now s (get_over_time_timer now s)
overtime_parts now s [] e h = none_due (get_over_time_timer_empty now s e) (rw e tt)
overtime_parts now s (x ∷ q) e h = elim (Bool-cases (leb x.time now)) [
  | inl due ↦
      let n : (s.current_heart_beat_list_size == 0) ≡ false =
        ne→eq-false _ 0 (omega (arith, h.counted, ap length e)) in
      let o : IsSorted (x ∷ q) = rw e at h.sorted in
      let room : suc (length q) < 2 ^ 64 = omega (arith, h.fits, ap length e) in
      let r = get_over_time_timer_due now s x q e n due in
      rw r (
        first_due x q e (ground arith) refl
          (refresh_earliest-queue (put_back now x (popped s q)) ∙ put_back-queue now x (popped s q))
          (put_back-IsTimed now x (popped s q) o.1 (omega (arith, h.counted, ap length e)) room))
  | inr early ↦
      let o : IsSorted (x ∷ q) = rw e at h.sorted in
      none_due (get_over_time_timer_early now s x q e early)
        (rw e (ground arith, Above-mono (suc now) x.time q (ground arith) o.0))
]

-- On a queue in order `GetOverTimeTimer` finds nothing only if no node is due, and then changes
-- nothing; else it takes out the earliest node, which is due, puts a node one waiting time later
-- behind it unless kicking at once is on, and keeps the queue in order and counted.
pub get_over_time_timer-OverTime :
    (now : ℕ) (s : Socket) → IsTimed s → OverTime now s (get_over_time_timer now s)
get_over_time_timer-OverTime now s = overtime_parts now s s.timer_queue refl

-- What `GetOverTimeTimer` leaves as it was.
pub get_over_time_timer_keeps :
    (now : ℕ) (s : Socket)
    → let t = (get_over_time_timer now s).1 in
      (t.conn ≡ s.conn) × (t.conf ≡ s.conf) × (t.time_queue_mutex ≡ s.time_queue_mutex)
unfolding get_over_time_timer put_back refresh_earliest
get_over_time_timer_keeps now s = ground arith

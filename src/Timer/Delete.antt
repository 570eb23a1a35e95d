-- ===== src/Timer/Delete.antt =====
-- net/XiaoHG_C_SocketTime.cxx: `DeleteFromTimerQueue` and its loop with `goto lblMTQM`.
use xiao_hg_server.Base.{
  ℕ, zero, suc, ◌^◌, ◌≤◌, ◌<◌, ◌≡◌, refl, ap, ◌∙◌, inl, inr, true, false, List, [], ◌∷◌, Option,
  none, some, Bool, Outcome, done, deadlock, arith, length, ◌==◌, if◌then◌else◌, Bool-cases,
  if_true, if_false,
}
use xiao_hg_server.Server.{Socket, TimerNode}
use xiao_hg_server.Timer.{erase_first, erase_loop, delete_from_timer_queue, refresh_earliest}
use xiao_hg_server.Timer.Order.{refresh_earliest-queue}
use xiao_hg_server.Timer.Insert.{IsTimed, IsSorted, Above, refresh_earliest-IsTimed}

-- The queue without the nodes of one connection, the others in their order.
abbrev pub without : ℕ → List TimerNode → List TimerNode
without c [] = []
without c (x ∷ q) = if x.conn == c then without c q else x ∷ without c q

pub length-without-le : (c : ℕ) (q : List TimerNode) → length (without c q) ≤ length q
length-without-le c [] = omega arith
length-without-le c (x ∷ q) = ground (arith, length-without-le c q)

without-Above : (t c : ℕ) (q : List TimerNode) → Above t q → Above t (without c q)
without-Above t c [] a = tt
without-Above t c (x ∷ q) a = ground (arith, without-Above t c q a.1)

pub without-IsSorted : (c : ℕ) (q : List TimerNode) → IsSorted q → IsSorted (without c q)
without-IsSorted c [] s = tt
without-IsSorted c (x ∷ q) s =
    ground (arith, without-IsSorted c q s.1, without-Above x.time c q s.0)

-- `erase_first` finds a node exactly when the connection has one, and takes out no other.
data Erased (c : ℕ) (q : List TimerNode) (r : Option (List TimerNode)) : Type 0 where
  nothing : r ≡ none → without c q ≡ q → Erased c q r
  first :
      (p : List TimerNode)
      → r ≡ some p
      → without c q ≡ without c p
      → length q ≡ suc (length p)
      → Erased c q r

erase_first-Erased : (c : ℕ) (q : List TimerNode) → Erased c q (erase_first c q)
unfolding erase_first
erase_first-Erased c [] = nothing refl refl
erase_first-Erased c (x ∷ q) = elim (Bool-cases (x.conn == c)) [
  | inl e ↦ rw e (first q refl (rw e) refl)
  | inr e ↦ rw e (keep e (erase_first-Erased c q))
]
  where
    keep :
        (x.conn == c) ≡ false
        → Erased c q (erase_first c q)
        → Erased c (x ∷ q) (elim (erase_first c q) [ none ↦ none | some r ↦ some (x ∷ r) ])
    keep e (nothing r w) = nothing (rw r) (rw (e, w) refl)
    keep e (first p r w l) = first (x ∷ p) (rw r) (rw e (ap (◌∷◌ x) w)) (ap suc l)

abbrev pub erased : ℕ → Socket → Socket
erased c s = record s {
  timer_queue = without c s.timer_queue;
  current_heart_beat_list_size = length (without c s.timer_queue);
}

-- With one round more than there are nodes the loop ends, and has erased all of them.
erase_loop-erased :
    (fuel c : ℕ) (s : Socket)
    → length s.timer_queue < fuel
    → s.current_heart_beat_list_size ≡ length s.timer_queue
    → length s.timer_queue < 2 ^ 64
    → erase_loop fuel c s ≡ erased c s
unfolding erase_loop
erase_loop-erased zero c s f n b = absurd (omega arith)
erase_loop-erased (suc fuel) c s f n b = elim (erase_first-Erased c s.timer_queue) [
  | nothing r w ↦ rw (r, erase_loop) (rw w (ground arith))
  | first p r w l ↦
      rw (r, erase_loop)
        (erase_loop-erased fuel c _ (omega arith) (omega arith) (omega arith) ∙ rw w refl)
]

-- How `DeleteFromTimerQueue` ends, by whether the mutex of the queue is held.
abbrev pub DeleteEnds : ℕ → Socket → Bool → Outcome Socket → Type 0
DeleteEnds c s true o = o ≡ deadlock
DeleteEnds c s false o =
    (t : Socket) × (o ≡ done t) × (t.timer_queue ≡ without c s.timer_queue) × IsTimed t

delete_by_mutex :
    (c : ℕ) (s : Socket) (held : Bool)
    → s.time_queue_mutex ≡ held
    → IsTimed s
    → DeleteEnds c s held (delete_from_timer_queue c s)
unfolding delete_from_timer_queue
delete_by_mutex c s true e h = if_true s.time_queue_mutex _ _ e
delete_by_mutex c s false e h = (
  refresh_earliest (erased c s),
  if_false s.time_queue_mutex _ _ e
      ∙ ap (λ t. done (refresh_earliest t))
          (erase_loop-erased (suc (length s.timer_queue)) c s (omega arith) h.counted h.fits),
  refresh_earliest-queue (erased c s),
  refresh_earliest-IsTimed (erased c s) (without-IsSorted c s.timer_queue h.sorted) refl
      (omega (arith, h.fits, length-without-le c s.timer_queue)),
)

-- On a queue in order and counted `DeleteFromTimerQueue` waits for ever exactly if the mutex of the
-- queue is held, by the thread itself. If it is free, it ends, and has taken out every node of the
-- connection and no other, with the others in their order and counted.
pub delete_from_timer_queue-without :
    (c : ℕ) (s : Socket)
    → IsTimed s
    → DeleteEnds c s s.time_queue_mutex (delete_from_timer_queue c s)
delete_from_timer_queue-without c s h = delete_by_mutex c s s.time_queue_mutex refl h

erase_loop_keeps :
    (fuel c : ℕ) (s : Socket)
    → ((erase_loop fuel c s).conn ≡ s.conn)
      × ((erase_loop fuel c s).recy_connection_list ≡ s.recy_connection_list)
unfolding erase_loop
erase_loop_keeps zero c s = (refl, refl)
erase_loop_keeps (suc fuel) c s = elim (erase_first-Erased c s.timer_queue) [
  | nothing r w ↦ rw (r, erase_loop) (refl, refl)
  | first p r w l ↦ rw (r, erase_loop) (erase_loop_keeps fuel c _)
]

-- What `DeleteFromTimerQueue` leaves as it was.
pub delete_from_timer_queue_keeps :
    (c : ℕ) (s t : Socket)
    → delete_from_timer_queue c s ≡ done t
    → (t.conn ≡ s.conn) × (t.recy_connection_list ≡ s.recy_connection_list)
unfolding delete_from_timer_queue refresh_earliest
delete_from_timer_queue_keeps c s t e =
    let (a, b) = erase_loop_keeps (suc (length s.timer_queue)) c s in ground (arith, a, b, e)

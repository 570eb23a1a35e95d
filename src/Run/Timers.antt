-- ===== src/Run/Timers.antt =====
-- net/XiaoHG_C_SocketTime.cxx: what the operations on timers do to the books.
use xiao_hg_server.Base.{
  ℕ, zero, suc, ◌≡◌, refl, sym, subst, ap, inl, inr, List, [], ◌∷◌, Option, none, some, ◌==◌, leb,
  ◌||◌, length, sub64, if_split, Star, stop, go, Star-trans, Whenever,
}
use xiao_hg_server.Pool.{drop_timers}
use xiao_hg_server.Run.Books.{
  Role, main, monitor, Retires, pools, Without, without, PoolMove, starts, ends,
}
use xiao_hg_server.Server.{Socket, TimerNode}
use xiao_hg_server.Timer.{
  erase_first, erase_loop, refresh_earliest, delete_from_timer_queue, add_to_timer_list, put_back,
  get_over_time_timer, is_empty, took_first, remove_timer_queue_first_time,
  get_timer_list_earliest_time,
}

-- From one state of the sockets to another connections and timers move.
abbrev pub PoolMoves : Role → Socket → Socket → Type 0
PoolMoves r s t = Star (PoolMove r) (pools s) (pools t)

-- What leaves the books alone.
same_pools : {r : Role} (s t : Socket) → pools t ≡ pools s → PoolMoves r s t
same_pools {r} s t e = subst (Star (PoolMove r) (pools s)) (sym e) stop

refresh_earliest-pools : (s : Socket) → pools (refresh_earliest s) ≡ pools s
unfolding refresh_earliest
refresh_earliest-pools s =
    if_split (λ t. pools t ≡ pools s) (s.current_heart_beat_list_size == 0) (λ none_left. refl)
      (λ some_left. refl)

-- A node that is erased stood in the queue.
abbrev Erases : List TimerNode → Option (List TimerNode) → Type 0
Erases q none = Unit
Erases q (some rest) = (n : TimerNode) × Without n q rest

behind_first :
    (x : TimerNode) (q : List TimerNode) (r : Option (List TimerNode))
    → Erases q r
    → Erases (x ∷ q) (elim r [ none ↦ none | some p ↦ some (x ∷ p) ])
behind_first x q none h = tt
behind_first x q (some rest) (n, without b e p f) =
    (n, without (x ∷ b) e (ap (◌∷◌ x) p) (ap (◌∷◌ x) f))

erase_first-Erases : (c : ℕ) (q : List TimerNode) → Erases q (erase_first c q)
unfolding erase_first
erase_first-Erases c [] = tt
erase_first-Erases c (x ∷ q) =
    if_split (Erases (x ∷ q)) (x.conn == c) (λ found. (x, without [] q refl refl))
      (λ other. behind_first x q (erase_first c q) (erase_first-Erases c q))

erase_loop-PoolMoves :
    {r : Role} → Retires r → (fuel c : ℕ) (s : Socket) → PoolMoves r s (erase_loop fuel c s)
unfolding erase_loop
erase_loop-PoolMoves may zero c s = stop
erase_loop-PoolMoves {r} may (suc fuel) c s =
    by_first (erase_first c s.timer_queue) (erase_first-Erases c s.timer_queue)
      (erase_loop-PoolMoves may fuel c)
  where
    erased : List TimerNode → Socket
    erased q = record s {
      timer_queue = q;
      current_heart_beat_list_size = sub64 s.current_heart_beat_list_size 1;
    }

    by_first :
        (o : Option (List TimerNode))
        → Erases s.timer_queue o
        → ((t : Socket) → PoolMoves r t (erase_loop fuel c t))
        → PoolMoves r s (elim o [ none ↦ s | some q ↦ erase_loop fuel c (erased q) ])
    by_first none h again = stop
    by_first (some q) (n, w) again =
        Star-trans (go stop (ends (inl may) n q w refl)) (again (erased q))

pub drop_timers-PoolMoves :
    {r : Role} → Retires r → (c : ℕ) (s : Socket) → Whenever (PoolMoves r s) (drop_timers c s)
unfolding drop_timers delete_from_timer_queue
drop_timers-PoolMoves {r} may c s =
    let erased : Socket = erase_loop (suc (length s.timer_queue)) c s in
    if_split (Whenever (PoolMoves r s)) (s.is_hb_time_out_check_enable == 1)
      (λ on.
        if_split (Whenever (PoolMoves r s)) s.time_queue_mutex (λ held. tt)
          (λ free.
            Star-trans (erase_loop-PoolMoves may (suc (length s.timer_queue)) c s)
              (same_pools erased (refresh_earliest erased) (refresh_earliest-pools erased))))
      (λ off. stop)

pub add_to_timer_list-PoolMoves :
    (now c : ℕ) (s : Socket) → Whenever (PoolMoves main s) (add_to_timer_list now c s)
unfolding add_to_timer_list
add_to_timer_list-PoolMoves now c s =
    if_split (Whenever (PoolMoves main s)) s.time_queue_mutex (λ held. tt)
      (λ free. go stop (starts (inl refl) _ refl))

put_back-PoolMoves : (now : ℕ) (x : TimerNode) (s : Socket) → PoolMoves monitor s (put_back now x s)
unfolding put_back
put_back-PoolMoves now x s =
    if_split (PoolMoves monitor s) (s.is_time_out_kick == 1) (λ kick. stop)
      (λ wait. go stop (starts (inr refl) _ refl))

abbrev MovesTo : Socket → Option TimerNode × Socket → Type 0
MovesTo s p = PoolMoves monitor s p.1

-- The first node is taken out.
remove_timer_queue_first_time-MovesTo : (s : Socket) → MovesTo s (remove_timer_queue_first_time s)
unfolding remove_timer_queue_first_time
remove_timer_queue_first_time-MovesTo s =
    if_split (MovesTo s) (s.current_heart_beat_list_size == 0) (λ empty. stop)
      (λ some_left. by_queue s.timer_queue refl)
  where
    popped : List TimerNode → Socket
    popped q = record s {
      timer_queue = q;
      current_heart_beat_list_size = sub64 s.current_heart_beat_list_size 1;
    }

    by_queue :
        (q : List TimerNode)
        → s.timer_queue ≡ q
        → MovesTo s (elim q [ [] ↦ (none, s) | x ∷ rest ↦ (some x, popped rest) ])
    by_queue [] e = stop
    by_queue (x ∷ rest) e = go stop (ends (inr refl) x rest (without [] rest e refl) refl)

took_first-MovesTo :
    (now : ℕ) (s : Socket) (p : Option TimerNode × Socket)
    → MovesTo s p
    → MovesTo s (took_first now p)
unfolding took_first
took_first-MovesTo now s (none, t) h = h
took_first-MovesTo now s (some x, t) h = Star-trans h (
    Star-trans (put_back-PoolMoves now x t) (
      same_pools (put_back now x t) (refresh_earliest (put_back now x t))
        (refresh_earliest-pools (put_back now x t))))

pub get_over_time_timer-PoolMoves :
    (now : ℕ) (s : Socket) → PoolMoves monitor s (get_over_time_timer now s).1
unfolding get_over_time_timer
get_over_time_timer-PoolMoves now s =
    if_split (MovesTo s) (s.current_heart_beat_list_size == 0 || is_empty s.timer_queue)
      (λ empty. stop)
      (λ some_left.
        if_split (MovesTo s) (leb (get_timer_list_earliest_time s.timer_queue) now)
          (λ due.
            took_first-MovesTo now s (remove_timer_queue_first_time s)
              (remove_timer_queue_first_time-MovesTo s))
          (λ early. stop))

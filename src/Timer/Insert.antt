-- ===== src/Timer/Insert.antt =====
-- net/XiaoHG_C_SocketTime.cxx: a timer is put at its place in the order of the queue.
use xiao_hg_server.Base.{
  ℕ, suc, ◌+◌, ◌^◌, ◌≤◌, ◌<◌, ◌≡◌, refl, ◌⊎◌, inl, inr, false, List, [], ◌∷◌, done, arith, All,
  length, ltb, Bool-cases, ltb→lt, ltb-false, ◌==◌,
}
use xiao_hg_server.Server.{Socket, TimerNode}
use xiao_hg_server.Timer.{
  insert, get_timer_list_earliest_time, add_node, add_to_timer_list, refresh_earliest,
}

-- No node of the queue is earlier than `t`.
abbrev pub Above : ℕ → List TimerNode → Type 0
Above t = All (λ x. t ≤ x.time)

abbrev pub IsSorted : List TimerNode → Type 0
IsSorted [] = Unit
IsSorted (x ∷ q) = Above x.time q × IsSorted q

length_zero {ℓ} : {A : Type ℓ} (xs : List A) → length xs ≡ 0 → xs ≡ []
length_zero [] h = refl
length_zero (x ∷ xs) h = absurd (omega arith)

-- What the queue's mutex protects: the queue is sorted, its size is counted, and the recorded
-- earliest time is that of the first node, if there is one.
pub record IsTimed (s : Socket) : Type 0 where
  pub sorted : IsSorted s.timer_queue
  pub counted : s.current_heart_beat_list_size ≡ length s.timer_queue
  pub fits : length s.timer_queue < 2 ^ 64
  pub earliest :
      (s.timer_queue ≡ []) ⊎ (s.hb_list_earliest_time ≡ get_timer_list_earliest_time s.timer_queue)

pub Above-mono : (t u : ℕ) (q : List TimerNode) → t ≤ u → Above u q → Above t q
Above-mono t u [] h a = tt
Above-mono t u (x ∷ q) h a = (omega arith, Above-mono t u q h a.1)

insert-Above :
    (t : ℕ) (n : TimerNode) (q : List TimerNode) → t ≤ n.time → Above t q → Above t (insert n q)
unfolding insert
insert-Above t n [] h a = (h, tt)
insert-Above t n (x ∷ q) h a = ground (arith, insert-Above t n q h a.1)

pub insert-IsSorted : (n : TimerNode) (q : List TimerNode) → IsSorted q → IsSorted (insert n q)
unfolding insert
insert-IsSorted n [] s = (tt, tt)
insert-IsSorted n (x ∷ q) s = elim (Bool-cases (ltb n.time x.time)) [
  | inl e ↦
      let h : n.time ≤ x.time = omega (arith, ltb→lt n.time x.time e) in
      rw e ((h, Above-mono n.time x.time q h s.0), s)
  | inr e ↦ rw e (insert-Above x.time n q (ltb-false n.time x.time e) s.0, insert-IsSorted n q s.1)
]

pub length-insert : (n : TimerNode) (q : List TimerNode) → length (insert n q) ≡ suc (length q)
unfolding insert
length-insert n [] = refl
length-insert n (x ∷ q) = ground (arith, length-insert n q)

abbrev pub node_of : ℕ → ℕ → Socket → TimerNode
node_of now c s = record {
  time = now + s.wait_time;
  conn = c;
  curr_sequence = (s.conn c).curr_sequence;
}

add_node-IsTimed :
    (now c : ℕ) (s : Socket)
    → IsTimed s
    → suc (length s.timer_queue) < 2 ^ 64
    → IsTimed (add_node now c s)
unfolding add_node
add_node-IsTimed now c s h room = record {
  sorted = insert-IsSorted (node_of now c s) s.timer_queue h.sorted;
  counted = omega (arith, h.counted, length-insert (node_of now c s) s.timer_queue);
  fits = omega (arith, length-insert (node_of now c s) s.timer_queue);
  earliest = inr refl;
}

-- `AddToTimerList` keeps the queue in order and counted, and records the earliest time, while
-- the queue has room to count one node more.
pub add_to_timer_list-IsTimed :
    (now c : ℕ) (s : Socket)
    → IsTimed s
    → suc (length s.timer_queue) < 2 ^ 64
    → s.time_queue_mutex ≡ false
    → (t : Socket) × (add_to_timer_list now c s ≡ done t) × IsTimed t
unfolding add_to_timer_list
add_to_timer_list-IsTimed now c s h room free =
    (add_node now c s, rw (free, add_to_timer_list) refl, add_node-IsTimed now c s h room)

-- What a new timer leaves as it was.
pub record SameUsers (s t : Socket) : Type 0 where
  pub conn : t.conn ≡ s.conn
  pub online : t.on_line_user_count ≡ s.on_line_user_count

pub add_to_timer_list-SameUsers :
    (now c : ℕ) (s : Socket)
    → IsTimed s
    → suc (length s.timer_queue) < 2 ^ 64
    → s.time_queue_mutex ≡ false
    → (t : Socket) × (add_to_timer_list now c s ≡ done t)
      × IsTimed t
      × SameUsers s t
      × (t.timer_queue ≡ insert (node_of now c s) s.timer_queue)
unfolding add_to_timer_list add_node
add_to_timer_list-SameUsers now c s h room free = (
  add_node now c s,
  rw (free, add_to_timer_list) refl,
  add_node-IsTimed now c s h room,
  record { conn = refl; online = refl },
  refl,
)

pub refresh_earliest-IsTimed :
    (s : Socket)
    → IsSorted s.timer_queue
    → s.current_heart_beat_list_size ≡ length s.timer_queue
    → length s.timer_queue < 2 ^ 64
    → IsTimed (refresh_earliest s)
unfolding refresh_earliest
refresh_earliest-IsTimed s o c f = elim (Bool-cases (s.current_heart_beat_list_size == 0)) [
  | inl e ↦
      rw (e, refresh_earliest)
        (record {
          sorted = o;
          counted = c;
          fits = f;
          earliest = inl (length_zero s.timer_queue (ground arith));
        })
  | inr e ↦
      rw (e, refresh_earliest) (record { sorted = o; counted = c; fits = f; earliest = inr refl })
]

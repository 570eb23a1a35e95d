-- ===== src/Timer.antt =====
-- net/XiaoHG_C_SocketTime.cxx: the heartbeat queue. `m_TimerQueueMultiMap` is its list of nodes in
-- the map's order; a node's MSG_HEADER_T belongs to that node alone, so it is a value here.
pub mod Insert
pub mod Order
pub mod Delete
use xiao_hg_server.Base.{
  ℕ, zero, suc, ◌+◌, Bool, true, false, ◌||◌, List, [], ◌∷◌, Option, none, some, Outcome, done,
  deadlock, if◌then◌else◌, ltb, leb, ◌==◌, add64, sub64, length,
}
use xiao_hg_server.Server.{Socket, TimerNode}

-- `multimap::insert`: behind the nodes of the same key.
unfoldable pub insert : TimerNode → List TimerNode → List TimerNode
insert n [] = n ∷ []
insert n (x ∷ q) = if ltb n.time x.time then n ∷ x ∷ q else x ∷ insert n q

-- `GetTimerListEarliestTime`. The callers see to it that the map is not empty.
unfoldable pub get_timer_list_earliest_time : List TimerNode → ℕ
get_timer_list_earliest_time [] = 0
get_timer_list_earliest_time (x ∷ q) = x.time

-- The body of `AddToTimerList` under its lock.
add_node : ℕ → ℕ → Socket → Socket
add_node now c s =
    let node : TimerNode = record {
      time = now + s.wait_time;
      conn = c;
      curr_sequence = (s.conn c).curr_sequence;
    } in
    let queue = insert node s.timer_queue in
    record s {
      timer_queue = queue;
      current_heart_beat_list_size = add64 s.current_heart_beat_list_size 1;
      hb_list_earliest_time = get_timer_list_earliest_time queue;
    }

-- `AddToTimerList(pConn)` at the time `now`.
unfoldable pub add_to_timer_list : ℕ → ℕ → Socket → Outcome Socket
unfolding add_node
add_to_timer_list now c s = if s.time_queue_mutex then deadlock else done (add_node now c s)

-- `RemoveTimerQueueFirstTime`, on a queue that is not empty.
unfoldable pub remove_timer_queue_first_time : Socket → Option TimerNode × Socket
remove_timer_queue_first_time s =
    if s.current_heart_beat_list_size == 0 then (none, s) else elim s.timer_queue [
      | [] ↦ (none, s)
      | x ∷ q ↦ (
        some x,
        record s {
          timer_queue = q;
          current_heart_beat_list_size = sub64 s.current_heart_beat_list_size 1;
        },
      )
    ]

abbrev pub is_empty : List TimerNode → Bool
is_empty [] = true
is_empty (x ∷ q) = false

-- A new node for a timed-out connection, a waiting time after `now`.
unfoldable pub put_back : ℕ → TimerNode → Socket → Socket
put_back now x s = if s.is_time_out_kick == 1 then s else record s {
  timer_queue =
      insert (record { time = now + s.wait_time; conn = x.conn; curr_sequence = x.curr_sequence })
        s.timer_queue;
  current_heart_beat_list_size = add64 s.current_heart_beat_list_size 1;
}

unfoldable pub refresh_earliest : Socket → Socket
refresh_earliest s =
    if s.current_heart_beat_list_size == 0
    then s
    else record s { hb_list_earliest_time = get_timer_list_earliest_time s.timer_queue }

unfoldable pub took_first : ℕ → Option TimerNode × Socket → Option TimerNode × Socket
took_first now (none, s) = (none, s)
took_first now (some x, s) = (some x, refresh_earliest (put_back now x s))

-- `GetOverTimeTimer(CurrentTime)`.
unfoldable pub get_over_time_timer : ℕ → Socket → Option TimerNode × Socket
unfolding remove_timer_queue_first_time took_first get_timer_list_earliest_time
get_over_time_timer now s =
    if s.current_heart_beat_list_size == 0 || is_empty s.timer_queue
    then (none, s)
    else if leb (get_timer_list_earliest_time s.timer_queue) now
    then took_first now (remove_timer_queue_first_time s)
    else (none, s)

-- The first node of a connection is taken out; `none` when the loop runs to the end of the map.
unfoldable pub erase_first : ℕ → List TimerNode → Option (List TimerNode)
erase_first c [] = none
erase_first c (x ∷ q) =
    if x.conn == c then some q else elim (erase_first c q) [ none ↦ none | some r ↦ some (x ∷ r) ]

-- The loop with `goto lblMTQM`: it starts again behind each node that it erases.
unfoldable pub erase_loop : ℕ → ℕ → Socket → Socket
erase_loop zero c s = s
erase_loop (suc fuel) c s = elim (erase_first c s.timer_queue) [
  | none ↦ s
  | some q ↦ erase_loop fuel c (record s {
    timer_queue = q;
    current_heart_beat_list_size = sub64 s.current_heart_beat_list_size 1;
  })
]

-- `DeleteFromTimerQueue(pConn)`. One round more than there are nodes is enough.
unfoldable pub delete_from_timer_queue : ℕ → Socket → Outcome Socket
unfolding erase_loop
delete_from_timer_queue c s =
    if s.time_queue_mutex
    then deadlock
    else done (refresh_earliest (erase_loop (suc (length s.timer_queue)) c s))

-- The loop of `ClearAllFromTimerQueue`.
clear_nodes : List TimerNode → ℕ → ℕ
clear_nodes [] n = n
clear_nodes (x ∷ q) n = clear_nodes q (sub64 n 1)

-- `ClearAllFromTimerQueue`.
pub clear_all_from_timer_queue : Socket → Socket
unfolding clear_nodes
clear_all_from_timer_queue s = record s {
  timer_queue = [];
  current_heart_beat_list_size = clear_nodes s.timer_queue s.current_heart_beat_list_size;
}

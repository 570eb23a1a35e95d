-- ===== src/HeartBeat.antt =====
-- net/XiaoHG_C_SocketTime.cxx: `HeartBeatTimeOutCheck` and the rounds of `HeartBeatMonitorThread`.
-- The clock is read once in a round, as `now`.
mod Kicks
pub mod Rounds
use xiao_hg_server.Base.{
  ℕ, zero, suc, ◌+◌, ◌*◌, Bool, true, false, ◌&&◌, ◌||◌, Option, none, some, Outcome, done,
  deadlock, ◌>>=◌, if◌then◌else◌, ltb, ◌==◌, length,
}
use xiao_hg_server.Pool.{close_connection_to_recy}
use xiao_hg_server.Server.{TimerNode, Socket, Server, conn_of}
use xiao_hg_server.Timer.{get_over_time_timer}

-- `HeartBeatTimeOutCheck(pstMsgHeader, CurrentTime)`. The heartbeats are not later than the clock.
unfoldable pub heart_beat_time_out_check : ℕ → TimerNode → Server → Outcome Server
heart_beat_time_out_check now x s =
    if x.curr_sequence == (conn_of s x.conn).curr_sequence
    then if s.socket.is_time_out_kick == 1
      then close_connection_to_recy now x.conn s
      else if ltb ((conn_of s x.conn).last_heart_beat_time + (s.socket.wait_time * 3 + 10)) now
      then close_connection_to_recy now x.conn s
      else done s
    else done s

-- The loop over the nodes that are due.
unfoldable pub monitor_loop : ℕ → ℕ → Server → Outcome Server
monitor_loop zero now s = done s
monitor_loop (suc fuel) now s =
    let (r, t) = get_over_time_timer now s.socket in
    elim r [
      | none ↦ done (record s { socket = t })
      | some x ↦ heart_beat_time_out_check now x (record s { socket = t }) >>= monitor_loop fuel now
    ]

abbrev pub with_mutex : Bool → Server → Server
with_mutex b s = record s { socket = (let k = s.socket in record k { time_queue_mutex = b }) }

-- What a round does under `m_TimeQueueMutex`: the loop, between the lock and the unlock.
unfoldable pub locked_round : ℕ → Server → Outcome Server
unfolding monitor_loop
locked_round now s =
    if s.socket.time_queue_mutex
    then deadlock
    else monitor_loop (suc (length s.socket.timer_queue)) now (with_mutex true s)
      >>= (λ t. done (with_mutex false t))

-- One round of `HeartBeatMonitorThread`.
unfoldable pub heart_beat_monitor_round : ℕ → Server → Outcome Server
unfolding locked_round
heart_beat_monitor_round now s =
    if ltb 0 s.socket.current_heart_beat_list_size && ltb s.socket.hb_list_earliest_time now
    then locked_round now s
    else done s

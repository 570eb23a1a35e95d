-- ===== src/Examples/Watching.antt =====
-- Tests of the heartbeat queue and its monitor.
use xiao_hg_server.Base.{◌≡◌, refl, inr, deadlock, arith}
use xiao_hg_server.Fixtures.{sockets, idle_server}
use xiao_hg_server.HeartBeat.{heart_beat_monitor_round, heart_beat_time_out_check}
use xiao_hg_server.Pool.{close_connection_to_recy}
use xiao_hg_server.HeartBeat.Rounds.{RoundEnds, heart_beat_monitor_round-RoundEnds}
use xiao_hg_server.Timer.{
  get_over_time_timer, delete_from_timer_queue, get_timer_list_earliest_time, refresh_earliest,
  put_back,
}
use xiao_hg_server.Timer.Delete.{DeleteEnds, delete_from_timer_queue-without}
use xiao_hg_server.Timer.Order.{OverTime, get_over_time_timer-OverTime}
use xiao_hg_server.Timer.Insert.{IsTimed}

pub sockets-IsTimed : IsTimed sockets
unfolding get_timer_list_earliest_time
sockets-IsTimed = record {
  sorted = ((omega arith, tt), (tt, tt));
  counted = refl;
  fits = omega arith;
  earliest = inr refl;
}

get_over_time_timer-OverTime_example : OverTime 12 sockets (get_over_time_timer 12 sockets)
get_over_time_timer-OverTime_example = get_over_time_timer-OverTime 12 sockets sockets-IsTimed

delete_from_timer_queue-without_example :
    DeleteEnds 1 sockets sockets.time_queue_mutex (delete_from_timer_queue 1 sockets)
delete_from_timer_queue-without_example = delete_from_timer_queue-without 1 sockets sockets-IsTimed

-- At the time 90 both connections are silent for too long.
heart_beat_monitor_round-RoundEnds_example :
    RoundEnds 90 idle_server (heart_beat_monitor_round 90 idle_server)
heart_beat_monitor_round-RoundEnds_example =
    heart_beat_monitor_round-RoundEnds 90 idle_server sockets-IsTimed refl refl (omega arith)

monitor_deadlocks : heart_beat_monitor_round 90 idle_server ≡ deadlock
unfolding heart_beat_monitor_round heart_beat_time_out_check get_over_time_timer refresh_earliest
    put_back close_connection_to_recy
monitor_deadlocks = refl

-- ===== src/Examples/Serving.antt =====
-- Tests of the pool, of the sending queue and of the handling of messages.
use xiao_hg_server.Base.{[], ℕ, true, ◌%◌, ◌^◌, suc, ◌≡◌, refl, arith}
use xiao_hg_server.Business.{recv_msg_handle_proc}
use xiao_hg_server.Business.Accepts.{CanReply, Decides, acceptable, recv_msg_handle_proc-Decides}
use xiao_hg_server.Comm.{pkg_length}
use xiao_hg_server.Examples.Watching.{sockets-IsTimed}
use xiao_hg_server.Events.{turned_away, admit}
use xiao_hg_server.Events.Admit.{AdmitEnds, admit-AdmitEnds}
use xiao_hg_server.Receive.Fresh.{IsPool}
use xiao_hg_server.Fixtures.{
  idle_server, busy_server, sending_server, slow_net, recycling_server, heartbeat_message,
}
use xiao_hg_server.Pool.{get_connection, delay_recovery_pass, contains}
use xiao_hg_server.Pool.Closing.{Closed, close_connection_to_recy-Closed}
use xiao_hg_server.Pool.Recovery.{Recovers, delay_recovery_pass-Recovers}
use xiao_hg_server.Receive.{received, epoll_event_read_request_handler}
use xiao_hg_server.Receive.Silent.{SilentEnds, epoll_event_read_request_handler-SilentEnds}
use xiao_hg_server.Send.Pass.{PassEnds, send_pass-PassEnds}
use xiao_hg_server.Send.{send_pass, push_send_msg_to_send_list_and_sem}
use xiao_hg_server.Send.Push.{Pushed, push_send_msg_to_send_list_and_sem-Pushed}

pub nonzero : (n : ℕ) → ¬ (suc n ≡ 0)
nonzero n h = omega arith

busy-CanReply : CanReply busy_server
busy-CanReply = record { timed = sockets-IsTimed; free = refl; room = refl; fresh = nonzero 1 }

delay_recovery_pass-Recovers_example :
    Recovers 200 recycling_server (delay_recovery_pass 200 recycling_server)
delay_recovery_pass-Recovers_example = delay_recovery_pass-Recovers 200 recycling_server refl refl

close_connection_to_recy-Closed_example : Closed 7 3 idle_server
unfolding contains
close_connection_to_recy-Closed_example =
    close_connection_to_recy-Closed 7 3 idle_server sockets-IsTimed refl refl (omega arith)

push_send_msg_to_send_list_and_sem-Pushed_example :
    Pushed 1 3 busy_server (push_send_msg_to_send_list_and_sem 7 1 busy_server)
push_send_msg_to_send_list_and_sem-Pushed_example =
    push_send_msg_to_send_list_and_sem-Pushed 7 1 heartbeat_message busy_server (nonzero 0) refl
      sockets-IsTimed refl refl

recv_msg_handle_proc-Decides_example :
    Decides (acceptable busy_server heartbeat_message) (recv_msg_handle_proc 7 1 busy_server)
unfolding pkg_length
recv_msg_handle_proc-Decides_example =
    recv_msg_handle_proc-Decides 7 1 heartbeat_message busy_server busy-CanReply refl (omega arith)
      (omega arith)

send_pass-PassEnds_example :
    PassEnds slow_net (send_pass slow_net [] sending_server.message.send_msg_list sending_server)
send_pass-PassEnds_example =
    send_pass-PassEnds slow_net sending_server refl (omega arith) ((heartbeat_message, refl), tt)
      (tt, tt)

-- The peer of connection 3 has closed.
epoll_event_read_request_handler-SilentEnds_example :
    SilentEnds 7 3 idle_server
      (received [])
      (epoll_event_read_request_handler 7 7000 3 (received []) idle_server)
unfolding contains
epoll_event_read_request_handler-SilentEnds_example =
    epoll_event_read_request_handler-SilentEnds 7 7000 3 (received []) idle_server refl
      sockets-IsTimed refl refl (omega arith)

idle-IsPool : IsPool idle_server.socket
idle-IsPool = record { total = refl; free = refl; buffers = (refl, tt) }

-- A client with the descriptor 9.
admit-AdmitEnds_example :
    AdmitEnds 7
      (get_connection 7 (9 % 2 ^ 16) idle_server.socket).0
      9
      idle_server
      (turned_away idle_server.socket)
      true
      true
      (admit 7 1 9 true true idle_server)
admit-AdmitEnds_example =
    admit-AdmitEnds 7 1 9 true true idle_server idle-IsPool tt sockets-IsTimed (omega arith) refl

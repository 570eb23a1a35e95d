-- ===== src/Examples/Running.antt =====
-- Tests of a worker process that runs.
use xiao_hg_server.Base.{◌≡◌, refl, [], ◌∷◌, Outcome, done, exited, deadlock}
use xiao_hg_server.Business.{thread_round}
use xiao_hg_server.Comm.{pkg_length, crc_field, msg_code}
use xiao_hg_server.Memory.{alloc_memory}
use xiao_hg_server.Fixtures.{busy_server, no_messages}
use xiao_hg_server.Run.{works}
use xiao_hg_server.Run.Books.{Moves, worker}
use xiao_hg_server.Run.Refine.{Step-Moves}
use xiao_hg_server.Send.{push_send_msg_to_send_list_and_sem}
use xiao_hg_server.Server.{Server}

-- The state behind a call that returns.
abbrev result_or : Server → Outcome Server → Server
result_or s (done t) = t
result_or s exited = s
result_or s deadlock = s

-- The heartbeat of connection 3 has arrived.
abbrev handling_server : Server
handling_server = record busy_server {
  message = record no_messages { recv_msg_list = 1 ∷ []; recv_msg_list_size = 1 };
}

abbrev handled_server : Server
handled_server = result_or handling_server (thread_round 5 handling_server)

heartbeat_handled : thread_round 5 handling_server ≡ done handled_server
unfolding thread_round pkg_length crc_field msg_code alloc_memory push_send_msg_to_send_list_and_sem
heartbeat_handled = refl

Step-Moves_example : Moves worker handling_server handled_server
Step-Moves_example =
    Step-Moves {s = handling_server} {t = handled_server} (works 5 heartbeat_handled)

-- ===== src/Examples/Controlling.antt =====
-- Tests of the signals and of the control of the thread pool.
use xiao_hg_server.Base.{Ends, ℕ, pos, ◌≡◌, refl, true, List, [], ◌∷◌, arith}
use xiao_hg_server.Examples.Starting.{two_ports, fine}
use xiao_hg_server.Setup.Ready.{unused}
use xiao_hg_server.Worker.{WorkerAnswers, worker_process_init}
use xiao_hg_server.Worker.Start.{IsStarted, worker_starts, worker_process_init-IsStarted}
use xiao_hg_server.Fixtures.{no_messages, sending_server, heartbeat_message}
use xiao_hg_server.Signal.{SignalEntry, signal_handler, sigchld}
use xiao_hg_server.Signal.Children.{
  Passing, interrupted, ended, answers_of, last_no_child, last_answer, Handled,
  signal_handler-Handled,
}
use xiao_hg_server.Threads.{ThreadPool, clear_msg_send_list}
use xiao_hg_server.Threads.Alerts.{Call, push_all, IsCalm, push_all-IsCalm}
use xiao_hg_server.Threads.Clearing.{IsFreed, clear_msg_send_list-IsFreed}

abbrev first_entry : SignalEntry
first_entry = record { signal_no = 1; has_callback = true }

abbrev other_entries : List SignalEntry
other_entries = record { signal_no = 2; has_callback = true } ∷ []

-- Two children have ended; the wait for them is interrupted once.
abbrev two_ended : List Passing
two_ended = ended 9 ∷ interrupted ∷ ended 0 ∷ []

signal_handler-Handled_example :
    Handled sigchld first_entry other_entries two_ended last_no_child [] (
      signal_handler sigchld
        (answers_of two_ended (last_answer last_no_child ∷ []))
        (first_entry ∷ other_entries))
signal_handler-Handled_example =
    signal_handler-Handled sigchld first_entry other_entries two_ended last_no_child []
      (omega arith) (omega arith)

abbrev pub idle_pool : ThreadPool
idle_pool = record {
  thread_num = pos 0;
  running_thread_count = pos 0;
  thread_count = 5;
  recv_msg_queue_count = pos 1;
  msg_recv_queue = 1 ∷ [];
  last_alart_not_enough_thread_time = 0;
  alerts = [];
}

abbrev call_at : ℕ → Call
call_at now = record { now = now; locked = true; unlocked = true; signalled = true; message = 2 }

idle_pool-IsCalm : IsCalm idle_pool
idle_pool-IsCalm = record { spaced = tt; remembered = λ u l h. cc }

push_all-IsCalm_example : IsCalm (push_all (call_at 20 ∷ call_at 25 ∷ call_at 40 ∷ []) idle_pool)
push_all-IsCalm_example =
    push_all-IsCalm (call_at 20 ∷ call_at 25 ∷ call_at 40 ∷ []) idle_pool idle_pool-IsCalm

clear_msg_send_list-IsFreed_example :
    IsFreed (1 ∷ []) sending_server.memory (clear_msg_send_list sending_server).memory
    × ((clear_msg_send_list sending_server).message.send_msg_list ≡ [])
clear_msg_send_list-IsFreed_example =
    clear_msg_send_list-IsFreed sending_server ((omega arith, heartbeat_message, refl), tt, tt)

-- All calls of a worker process succeed.
abbrev pub all_fine : WorkerAnswers
all_fine = record { sigprocmask = true; pool_thread = λ i. true; send_thread = true; socket = fine }

worker_process_init-IsStarted_example :
    Ends
      (IsStarted two_ports all_fine
        (record { pool = idle_pool; message = no_messages; listener = unused }))
      (worker_starts two_ports all_fine)
      (worker_process_init 7 two_ports all_fine
        (record { pool = idle_pool; message = no_messages; listener = unused }))
worker_process_init-IsStarted_example =
    worker_process_init-IsStarted 7 two_ports all_fine idle_pool no_messages

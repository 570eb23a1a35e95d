-- ===== src/Examples/Launching.antt =====
-- Tests of the start of the program, and of the loop of the master.
use xiao_hg_server.Base.{flatten}
use xiao_hg_server.Fixtures.{no_messages}
use xiao_hg_server.Base.{
  not, drop, ℕ, ◌≡◌, refl, true, false, ◌||◌, Bool, List, [], ◌∷◌, ◌++◌, map, All, Ends, ◌==◌,
  codes, arith, some,
}
use xiao_hg_server.Conf.{ConfItem, get_int_default, get_string}
use xiao_hg_server.Examples.Controlling.{all_fine, idle_pool}
use xiao_hg_server.Examples.Starting.{two_ports}
use xiao_hg_server.Process.{
  other_file, in_child, worker_process, ended_process, master_process, master_process_cycle,
}
use xiao_hg_server.Signal.{default_action, set_sig_empty, init_signals, signals}
use xiao_hg_server.Signal.Children.{interrupted, ended, last_running, last_no_child}
use xiao_hg_server.Start.{Program, ProgramAnswers, master_id, Waiting, main, master_loop}
use xiao_hg_server.Start.Kinds.{kind, fresh, IsLaunch}
use xiao_hg_server.Start.Launch.{main-Launches}
use xiao_hg_server.Start.Master.{
  Coming, Logs, all_brought, all_endured, set_up, signalled, master_loop-Ends,
}

-- Two titles, two ports and two worker processes.
abbrev titles : List ConfItem
titles =
    record { item_name = codes "MasterProcessTitle"; item_content = codes "master" }
    ∷ record { item_name = codes "WorkerProcessTitle"; item_content = codes "worker" }
    ∷ record { item_name = codes "WorkerProcessesCount"; item_content = codes "2" }
    ∷ record { item_name = codes "Daemon"; item_content = codes "1" }
    ∷ two_ports

abbrev program_args : List (List ℕ)
program_args = codes "server" ∷ codes "-d" ∷ []

abbrev program_envs : List (List ℕ)
program_envs = codes "HOME=/" ∷ []

abbrev as_daemon : ProgramAnswers
as_daemon = record {
  sem_init = true;
  sigaction = λ n. true;
  daemon = record {
    fork = in_child;
    setsid = true;
    opened = some 3;
    dup_stdin = true;
    dup_stdout = true;
    close_fd = true;
  };
  sigprocmask = true;
  fork = λ i. true;
  worker = λ i. all_fine;
}

abbrev at_exec : Program
at_exec = record {
  main_arg = record {
    os_mem = [];
    env_mem = [];
    environ = [];
    argv_need_mem_size = 0;
    env_need_mem_size = 0;
  };
  descriptors = λ j. other_file;
  dispositions = λ n. default_action;
  blocked = λ n. false;
  process_id = master_id;
}

at_exec-IsLaunch :
    IsLaunch titles program_args program_envs at_exec (codes "master") (codes "worker")
unfolding get_string
at_exec-IsLaunch = record {
  no_args = refl;
  no_envs = refl;
  size = omega arith;
  clean_envs = search;
  master_title = refl;
  master_size = omega arith;
  clean_master = search;
  worker_title = refl;
  worker_size = omega arith;
  clean_worker = search;
}

-- The parent of the daemon, two worker processes and the master come from it.
two_workers :
    map kind
      (main 7 titles as_daemon (fresh idle_pool no_messages) program_args program_envs at_exec)
    ≡ ended_process ∷ worker_process 0 ∷ worker_process 1 ∷ master_process ∷ []
unfolding get_int_default master_process_cycle flatten
two_workers =
    (main-Launches 7 titles as_daemon idle_pool no_messages program_args program_envs at_exec
      (codes "master") (codes "worker") at_exec-IsLaunch).processes

-- Every default action but that of SIGWINCH and SIGURG ends the process.
abbrev most_fatal : ℕ → Bool
most_fatal n = not (n == 28 || n == 23)

-- SIGTERM, and SIGCHLD for two children.
abbrev two_signals : List Coming
two_signals =
    record { number = 15; passing = []; last = last_no_child }
    ∷ record { number = 17; passing = ended 9 ∷ interrupted ∷ ended 0 ∷ []; last = last_running }
    ∷ []

abbrev nothing_logged : Waiting
nothing_logged = record { table = signals; children = [] }

nothing_logged-Logs : Logs (drop 1 signals) [] nothing_logged
nothing_logged-Logs = record { first = _; table = refl; numbered = omega arith; children = refl }

numbered : All (λ c. ¬ (c.number ≡ 0)) two_signals
numbered = (omega arith, (omega arith, tt))

master_loop-Ends_example :
    Ends
      (Logs (drop 1 signals) ([] ++ all_brought two_signals))
      (all_endured most_fatal (set_up at_exec.dispositions) two_signals)
      (master_loop most_fatal set_sig_empty
        (init_signals (λ n. true) signals at_exec.dispositions)
        (map signalled two_signals)
        nothing_logged)
master_loop-Ends_example =
    master_loop-Ends most_fatal (λ n. true) at_exec.dispositions two_signals (drop 1 signals) []
      nothing_logged (λ n. refl) numbered nothing_logged-Logs

-- The signals do not end the master.
two_signals_endured : all_endured most_fatal (set_up at_exec.dispositions) two_signals ≡ true
two_signals_endured = refl

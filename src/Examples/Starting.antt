-- ===== src/Examples/Starting.antt =====
-- Tests of the start of a worker process.
use xiao_hg_server.Base.{
  All, ℕ, ltb, map, length, if◌then◌else◌, subst, some, arith, pos, ◌≡◌, refl, true, List, [], ◌∷◌,
  Ends, codes,
}
use xiao_hg_server.Conf.{ConfItem, get_int_default}
use xiao_hg_server.Process.{
  File, closed, other_file, DaemonAnswers, in_child, init_daemon, string_at, init_main_arg,
  set_proc_title,
}
use xiao_hg_server.Process.Daemon.{DaemonEnds, copies, init_daemon-DaemonEnds}
use xiao_hg_server.Process.Environ.{NoZero}
use xiao_hg_server.Process.Title.{Titled, init_main_arg-Titled}
use xiao_hg_server.Setup.{Answers, init_socket}
use xiao_hg_server.Setup.Ready.{unused, starts, IsReady, init_socket-IsReady}

-- Two ports, and a pool of three connections.
abbrev pub two_ports : List ConfItem
two_ports =
    record { item_name = codes "ListenPortCount"; item_content = codes "2" }
    ∷ record { item_name = codes "EpollCreateConnectCount"; item_content = codes "3" }
    ∷ record { item_name = codes "ListenPort0"; item_content = codes "5678" }
    ∷ []

abbrev pub fine : Answers
fine = record {
  mutex = 0;
  recycler_created = true;
  monitor_created = true;
  port = λ i. record { socket_fd = pos i; nonblocking = true; bound = true; listens = true };
  epoll = pos 4;
  ctl_ok = λ a. true;
}

two_ports_start : starts two_ports fine ≡ true
unfolding get_int_default
two_ports_start = refl

init_socket-IsReady_example :
    Ends (IsReady two_ports fine.port) (starts two_ports fine) (init_socket 7 two_ports fine unused)
init_socket-IsReady_example = init_socket-IsReady 7 two_ports fine

-- The arguments `a`, `b` and one variable of the environment.
abbrev args : List (List ℕ)
args = codes "server" ∷ codes "-d" ∷ []

abbrev envs : List (List ℕ)
envs = codes "HOME=/" ∷ []

init_main_arg-Titled_example :
    Titled
      (codes "worker")
      envs
      (init_main_arg 0 0 args envs)
      (ltb (length (codes "worker")) (length (init_main_arg 0 0 args envs).os_mem))
      (set_proc_title (codes "worker") (init_main_arg 0 0 args envs))
    × (map
          (string_at (set_proc_title (codes "worker") (init_main_arg 0 0 args envs)).1)
          (set_proc_title (codes "worker") (init_main_arg 0 0 args envs)).1.environ
        ≡ envs)
init_main_arg-Titled_example =
    let clean : NoZero (codes "worker") = search in
    let env_clean : All NoZero envs = search in
    init_main_arg-Titled (codes "worker") args envs (omega arith) (omega arith) clean env_clean

-- The three standard descriptors are open.
abbrev standard : ℕ → File
standard j = if ltb 2 j then closed else other_file

abbrev forked : DaemonAnswers
forked = record {
  fork = in_child;
  setsid = true;
  opened = some 3;
  dup_stdin = true;
  dup_stdout = true;
  close_fd = true;
}

opened_was_closed : (fd : ℕ) → forked.opened ≡ some fd → standard fd ≡ closed
opened_was_closed fd h = let e : 3 ≡ fd = cc in subst (λ k. standard k ≡ closed) e refl

init_daemon-DaemonEnds_example :
    DaemonEnds standard forked.fork forked.setsid forked.opened
      (copies forked)
      (init_daemon forked standard)
init_daemon-DaemonEnds_example = init_daemon-DaemonEnds forked standard opened_was_closed

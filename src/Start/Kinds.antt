-- ===== src/Start/Kinds.antt =====
-- What the processes are that come from `main` of app/XiaoHG_main.cxx.
use xiao_hg_server.Base.{
  flatten, eq_ℤ, pos, done, ltb, [], ◌∷◌, ℕ, ◌<◌, ◌+◌, ◌^◌, ◌≡◌, Bool, true, false, ◌&&◌, ◌||◌,
  List, map, All, Option, none, some, if◌then◌else◌, ◌==◌, length, codes,
}
use xiao_hg_server.Process.Daemon.{copies}
use xiao_hg_server.Conf.{get_int_default, ConfItem, get_string}
use xiao_hg_server.Process.{
  File, in_os, strings, string_at, Process, master_process, worker_process, ended_process,
  master_process_cycle, DaemonAnswers, ForkResult, fork_failed, in_parent, in_child, daemon_child,
  init_daemon,
}
use xiao_hg_server.Process.Environ.{NoZero}
use xiao_hg_server.Server.{MessageCtl}
use xiao_hg_server.Setup.Ready.{unused}
use xiao_hg_server.Signal.{signals, init_signals}
use xiao_hg_server.Start.{
  Program, ProgramAnswers, ProcessId, master_id, worker_id, Started, is_master, is_worker,
  has_ended, stuck, undefined,
}
use xiao_hg_server.Threads.{ThreadPool}
use xiao_hg_server.Worker.{Worker, worker_process_init}
use xiao_hg_server.Worker.Start.{IsStarted, worker_starts}

-- What a process is when it has come so far.
abbrev pub kind : Started → Process
kind (is_master p mask) = master_process
kind (is_worker i p w) = worker_process i
kind has_ended = ended_process
kind stuck = ended_process
kind undefined = ended_process

-- The objects of a program before `main`.
abbrev pub fresh : ThreadPool → MessageCtl → Worker
fresh pool message = record { pool = pool; message = message; listener = unused }

-- A program before `main` that has both titles, in which no title and no string of the environment
-- holds a zero, the arguments and the environment together and each title are shorter than 2 ^ 32
-- characters, and their two sizes start at 0.
pub record IsLaunch (items : List ConfItem) (args envs : List (List ℕ)) (p : Program)
    (master worker : List ℕ) : Type 0 where
  pub no_args : p.main_arg.argv_need_mem_size ≡ 0
  pub no_envs : p.main_arg.env_need_mem_size ≡ 0
  pub size : length (strings args) + length (strings envs) < 2 ^ 32
  pub clean_envs : All NoZero envs
  pub master_title : get_string items (codes "MasterProcessTitle") ≡ some master
  pub master_size : length master < 2 ^ 32
  pub clean_master : NoZero master
  pub worker_title : get_string items (codes "WorkerProcessTitle") ≡ some worker
  pub worker_size : length worker < 2 ^ 32
  pub clean_worker : NoZero worker

-- The descriptors `d` of a process that goes on: those that there were, or those of the daemon.
abbrev pub FilesOf : List ConfItem → DaemonAnswers → (ℕ → File) → (ℕ → File) → Type 0
FilesOf items a fds d =
    if eq_ℤ (get_int_default items (codes "Daemon") (pos 0)) (pos 0)
    then d ≡ fds
    else init_daemon (record a { fork = in_child }) fds ≡ daemon_child d

-- A process of the program that was `p` before `main`.
pub record Runs (items : List ConfItem) (a : ProgramAnswers) (envs : List (List ℕ)) (p : Program)
    (id : ProcessId) (title : List ℕ) (q : Program) : Type 0 where
  pub name : string_at q.main_arg (in_os 0) ≡ title
  pub environ : map (string_at q.main_arg) q.main_arg.environ ≡ envs
  pub handlers : q.dispositions ≡ init_signals a.sigaction signals p.dispositions
  pub files : FilesOf items a.daemon p.descriptors q.descriptors
  pub process_id : q.process_id ≡ id

-- A process that has come to its loop is as it has to be there; none waits for ever before that.
abbrev pub Serves :
    ℕ
    → List ConfItem
    → ProgramAnswers
    → List (List ℕ)
    → Program
    → List ℕ
    → List ℕ
    → Worker
    → Started
    → Type 0
Serves now items a envs p master worker w (is_master q mask) =
    Runs items a envs p master_id master q
    × ((n : ℕ) → q.blocked n ≡ (p.blocked n || (a.sigprocmask && (n == 14 || n == 17))))
    × ((n : ℕ) → mask n ≡ false)
Serves now items a envs p master worker w (is_worker i q v) =
    Runs items a envs p worker_id worker q
    × ((n : ℕ) → q.blocked n ≡ false)
    × (worker_process_init now items (a.worker i) w ≡ done v)
    × IsStarted items (a.worker i) w v
Serves now items a envs p master worker w has_ended = Unit
Serves now items a envs p master worker w stuck = ⊥
Serves now items a envs p master worker w undefined = ⊥

-- A worker process that cannot set its title or start ends.
abbrev pub if_works : List ConfItem → ProgramAnswers → Bool → Process → Process
if_works items a room (worker_process i) =
    if room && worker_starts items (a.worker i) then worker_process i else ended_process
if_works items a room master_process = master_process
if_works items a room ended_process = ended_process

-- Whether the calls of a daemon behind `fork` succeed.
abbrev pub daemon_goes : DaemonAnswers → Option ℕ → Bool
daemon_goes a none = false
daemon_goes a (some fd) = a.setsid && copies a fd

-- Which processes go on from `InitDaemon`: a parent never does.
abbrev pub daemons : DaemonAnswers → ForkResult → List Bool
daemons a fork_failed = false ∷ []
daemons a in_parent = false ∷ daemon_goes a a.opened ∷ []
daemons a in_child = false ∷ daemon_goes a a.opened ∷ []

-- Which processes go on to `MasterProcessCycle`.
abbrev pub going : List ConfItem → DaemonAnswers → List Bool
going items a =
    if eq_ℤ (get_int_default items (codes "Daemon") (pos 0)) (pos 0)
    then true ∷ []
    else daemons a a.fork

-- The processes that one process becomes, by whether it goes on with its title.
abbrev pub becomes : List ConfItem → ProgramAnswers → Bool → Bool → List Process
becomes items a room ok =
    if ok
    then map (if_works items a room) (master_process_cycle items a.fork)
    else ended_process ∷ []

-- Every process that comes from `main`, by whether each of the calls succeeds; and what those are
-- that have come to their loops.
pub record Launches (now : ℕ) (items : List ConfItem) (a : ProgramAnswers)
    (args envs : List (List ℕ)) (p : Program) (master worker : List ℕ) (w : Worker)
    (l : List Started) : Type 0 where
  pub processes : map kind l ≡ (
      if a.sem_init
      then flatten (
          map
            (λ ok.
              becomes items a
                (ltb (length worker) (length (strings args) + length (strings envs)))
                (ok && ltb (length master) (length (strings args) + length (strings envs))))
            (going items a.daemon))
      else ended_process ∷ [])
  pub serve : All (Serves now items a envs p master worker w) l

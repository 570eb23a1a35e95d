-- ===== src/Process.antt =====
-- app/XiaoHG_C_MainArgCtl.cxx, app/XiaoHG_C_ProcessCtl.cxx and app/XiaoHG_C_RunInit.cxx: the title of a
-- process, the daemon, and the processes that are forked. What the system answers is an argument.
pub mod Environ
pub mod Title
pub mod Daemon
use xiao_hg_server.Base.{
  map, ℕ, zero, suc, ℤ, pos, negsuc, eq_ℤ, ltb_ℤ, ◌+◌, ◌-◌, ◌%◌, ◌^◌, Bool, true, false, not, List,
  [], ◌∷◌, ◌++◌, Option, none, some, if◌then◌else◌, ltb, leb, ◌==◌, length, replicate, drop,
  write_at, update, codes,
}
use xiao_hg_server.Conf.{ConfItem, c_str, get_int_default}
use xiao_hg_server.Setup.{as_unsigned}

-- A pointer into the memory that the system gave to the arguments and the environment, or into
-- `m_pEnvMem`.
pub data StringPtr : Type 0 where
  in_os : ℕ → StringPtr
  in_env_mem : ℕ → StringPtr

-- The members of `CMainArgCtl`, the memory that `m_pOsArgv[0]` begins, and `environ`.
pub record MainArg : Type 0 where
  pub os_mem : List ℕ
  pub env_mem : List ℕ
  pub environ : List StringPtr
  pub argv_need_mem_size : ℕ
  pub env_need_mem_size : ℕ

-- A string with its final zero.
abbrev pub stored_string : List ℕ → List ℕ
stored_string s = s ++ (0 ∷ [])

abbrev pub strings : List (List ℕ) → List ℕ
strings [] = []
strings (s ∷ ss) = stored_string s ++ strings ss

-- `strlen` of the string at a pointer is that of this text.
abbrev pub string_at : MainArg → StringPtr → List ℕ
string_at m (in_os k) = c_str (drop k m.os_mem)
string_at m (in_env_mem k) = c_str (drop k m.env_mem)

-- The loops that add up the sizes of strings.
unfoldable pub need_size : ℕ → List (List ℕ) → ℕ
need_size n [] = n
need_size n (s ∷ ss) = need_size ((n + (length s + 1)) % 2 ^ 64) ss

-- `strcpy(m_pEnvMem + at, environ[i])`, and the next place.
unfoldable pub move_strings : ℕ → List (List ℕ) → List ℕ → List ℕ
move_strings at [] mem = mem
move_strings at (s ∷ ss) mem =
    move_strings (at + (length s + 1)) ss (write_at mem at (stored_string s))

-- Where the strings are then.
unfoldable pub moved_to : ℕ → List (List ℕ) → List StringPtr
moved_to at [] = []
moved_to at (s ∷ ss) = in_env_mem at ∷ moved_to (at + (length s + 1)) ss

-- `Init(argc, argv)` with the texts of the arguments and of the environment, which stand one behind
-- the other in memory. The constructor leaves the two sizes as they are; they are arguments.
unfoldable pub init_main_arg : ℕ → ℕ → List (List ℕ) → List (List ℕ) → MainArg
unfolding need_size move_strings moved_to
init_main_arg argv_size env_size args envs =
    let need = need_size env_size envs in
    record {
      os_mem = strings args ++ strings envs;
      env_mem = move_strings 0 envs (replicate need 0);
      environ = moved_to 0 envs;
      argv_need_mem_size = need_size argv_size args;
      env_need_mem_size = need;
    }

-- `SetProcTitle(pTitle)`.
unfoldable pub set_proc_title : List ℕ → MainArg → Bool × MainArg
set_proc_title title m =
    let total = (m.argv_need_mem_size + m.env_need_mem_size) % 2 ^ 32 in
    let title_len = length title % 2 ^ 32 in
    if leb total title_len then (false, m) else (
      true,
      record m {
        os_mem =
            write_at (write_at m.os_mem 0 (stored_string title)) title_len
              (replicate (total - title_len) 0);
      },
    )

-- What a file descriptor refers to.
pub data File : Type 0 where
  closed dev_null other_file : File

-- The answers to the calls of `InitDaemon`. `opened` is the descriptor of `/dev/null`, if there is
-- one.
pub data ForkResult : Type 0 where
  fork_failed in_child in_parent : ForkResult

pub record DaemonAnswers : Type 0 where
  pub fork : ForkResult
  pub setsid : Bool
  pub opened : Option ℕ
  pub dup_stdin : Bool
  pub dup_stdout : Bool
  pub close_fd : Bool

-- How `InitDaemon` ends: -1, 1, 0 with the descriptors of the daemon, or `exit`.
pub data DaemonEnd : Type 0 where
  daemon_error daemon_parent daemon_exit : DaemonEnd
  daemon_child : (ℕ → File) → DaemonEnd

-- `if (iFd > STDERR_FILENO)`.
abbrev pub close_extra : Bool → ℕ → (ℕ → File) → DaemonEnd
close_extra close_ok fd fds =
    if ltb 2 fd
    then (if close_ok then daemon_child (update fds fd closed) else daemon_error)
    else daemon_child fds

-- The calls of `dup2`: descriptors 0 and 1 become copies.
unfoldable pub to_dev_null : DaemonAnswers → ℕ → (ℕ → File) → DaemonEnd
unfolding update
to_dev_null a fd fds =
    if not a.dup_stdin
    then daemon_error
    else if not a.dup_stdout
    then daemon_error
    else close_extra a.close_fd fd (update (update fds 0 (fds fd)) 1 (fds fd))

-- The child, behind `fork`.
unfoldable pub child_end : DaemonAnswers → Bool → Option ℕ → (ℕ → File) → DaemonEnd
unfolding to_dev_null update
child_end a false opened fds = daemon_exit
child_end a true none fds = daemon_error
child_end a true (some fd) fds = to_dev_null a fd (update fds fd dev_null)

-- The `switch` over the answer of `fork`.
unfoldable pub fork_end : DaemonAnswers → ForkResult → (ℕ → File) → DaemonEnd
unfolding child_end
fork_end a fork_failed fds = daemon_error
fork_end a in_parent fds = daemon_parent
fork_end a in_child fds = child_end a a.setsid a.opened fds

-- `InitDaemon`, with the descriptors that the process has.
unfoldable pub init_daemon : DaemonAnswers → (ℕ → File) → DaemonEnd
unfolding fork_end
init_daemon a fds = fork_end a a.fork fds

-- A `fork` that does not fail answers in both processes: the parent, which stands first here, and the
-- child. The other calls are those of the child.
abbrev pub both_answers : DaemonAnswers → ForkResult → List DaemonAnswers
both_answers a fork_failed = record a { fork = fork_failed } ∷ []
both_answers a in_parent = record a { fork = in_parent } ∷ record a { fork = in_child } ∷ []
both_answers a in_child = record a { fork = in_parent } ∷ record a { fork = in_child } ∷ []

-- The `switch` of `Runing`: only a daemon goes on.
abbrev pub descriptors_of : DaemonEnd → Option (ℕ → File)
descriptors_of daemon_error = none
descriptors_of daemon_parent = none
descriptors_of daemon_exit = none
descriptors_of (daemon_child d) = some d

-- `Runing`: each process that there is before `MasterProcessCycle`, with its descriptors if it goes on
-- to that.
unfoldable pub run_descriptors :
    List ConfItem → DaemonAnswers → (ℕ → File) → List (Option (ℕ → File))
unfolding init_daemon get_int_default
run_descriptors items a fds =
    if eq_ℤ (get_int_default items (codes "Daemon") (pos 0)) (pos 0)
    then some fds ∷ []
    else map (λ x. descriptors_of (init_daemon x fds)) (both_answers a a.fork)

-- The processes behind `MasterProcessCycle`.
pub data Process : Type 0 where
  master_process : Process
  worker_process : ℕ → Process
  ended_process : Process

-- The loop that forks: every process that comes out of it, in the order of the calls, with whether
-- each `fork` succeeds. A child never comes back from `WorkerProcessCycle`.
unfoldable pub fork_workers : ℕ → (ℕ → Bool) → ℕ → List Process
fork_workers zero ok i = master_process ∷ []
fork_workers (suc n) ok i =
    if ok i then worker_process i ∷ fork_workers n ok (suc i) else ended_process ∷ []

-- `m_WorkProcessCount`.
abbrev pub worker_count : List ConfItem → ℕ
worker_count items = as_unsigned 32 (get_int_default items (codes "WorkerProcessesCount") (pos 1))

-- `MasterProcessCycle` up to its loop over signals; `WorkerProcessesCount` is 1 by default.
unfoldable pub master_process_cycle : List ConfItem → (ℕ → Bool) → List Process
unfolding fork_workers get_int_default
master_process_cycle items ok =
    fork_workers (as_unsigned 32 (get_int_default items (codes "WorkerProcessesCount") (pos 1))) ok
      0

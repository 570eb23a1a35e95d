-- ===== src/Start.antt =====
-- `main` of app/XiaoHG_main.cxx, `Init` and `Runing` of app/XiaoHG_C_RunInit.cxx, and the cycles of
-- app/XiaoHG_C_ProcessCtl.cxx: from `main` to the processes that serve, and the loop of the master.
-- What the system answers is an argument.
pub mod Titles
pub mod Kinds
pub mod Daemons
pub mod Works
pub mod Launch
pub mod Master
use xiao_hg_server.Base.{
  flatten, ℕ, Bool, not, List, [], ◌∷◌, ◌++◌, map, Option, none, some, Outcome, done, exited,
  deadlock, if◌then◌else◌, ◌>>=◌, codes, ◌⊎◌, inl, inr,
}
use xiao_hg_server.Conf.{ConfItem, get_string}
use xiao_hg_server.Process.{
  MainArg, init_main_arg, set_proc_title, File, DaemonAnswers, run_descriptors, Process,
  master_process, worker_process, ended_process, master_process_cycle,
}
use xiao_hg_server.Setup.{need}
use xiao_hg_server.Signal.{
  SignalEntry, signals, Disposition, default_action, calls_handler, ignored, init_signals, SigSet,
  set_sig_empty, register_signals, WaitAnswer, Status, signal_handler,
}
use xiao_hg_server.Worker.{Worker, WorkerAnswers, worker_process_init}

-- `m_ProcessID`.
pub data ProcessId : Type 0 where
  master_id worker_id : ProcessId

-- What a process has of arguments, descriptors and signals.
pub record Program : Type 0 where
  pub main_arg : MainArg
  pub descriptors : ℕ → File
  pub dispositions : ℕ → Disposition
  pub blocked : SigSet
  pub process_id : ProcessId

-- What the system answers: `sem_init`, `sigaction` for each signal, the calls of `InitDaemon`
-- (its `fork` answers in both processes when it does not fail), the `sigprocmask` of the master, each
-- `fork`, and the calls of each worker process.
pub record ProgramAnswers : Type 0 where
  pub sem_init : Bool
  pub sigaction : ℕ → Bool
  pub daemon : DaemonAnswers
  pub sigprocmask : Bool
  pub fork : ℕ → Bool
  pub worker : ℕ → WorkerAnswers

-- Where a process comes to: the loop of the master, with the set that it passes to `sigsuspend`; the
-- loop of a worker process; or its end. `stuck` waits for ever, and `undefined` has read through a
-- null pointer or past an array.
pub data Started : Type 0 where
  is_master : Program → SigSet → Started
  is_worker : ℕ → Program → Worker → Started
  has_ended stuck undefined : Started

-- `CRun::Init`.
unfoldable pub init_run : ProgramAnswers → Program → Outcome Program
init_run a p =
    need a.sem_init (record p { dispositions = init_signals a.sigaction signals p.dispositions })

-- `SetProcTitle(m_pMaterTitle)` and `SetProcTitle(m_pWorkerTitle)` with the test of the answer: where
-- the process ends, or the process with its title. `strlen` reads through the title.
unfoldable pub with_title : Option (List ℕ) → Program → Started ⊎ Program
with_title none p = inl undefined
with_title (some t) p =
    let r = set_proc_title t p.main_arg in
    if r.0 then inr (record p { main_arg = r.1 }) else inl has_ended

-- Behind `WorkerProcessInit`.
abbrev pub begin_work : ℕ → Program → Outcome Worker → Started
begin_work i p (done w) = is_worker i (record p { blocked = set_sig_empty }) w
begin_work i p exited = has_ended
begin_work i p deadlock = stuck

-- `WorkerProcessCycle` up to its loop, in the process number `i`, whose objects are `w`.
unfoldable pub worker_cycle : ℕ → List ConfItem → ProgramAnswers → Worker → Program → ℕ → Started
unfolding with_title worker_process_init get_string
worker_cycle now items a w p i =
    elim (with_title (get_string items (codes "WorkerProcessTitle"))
      (record p { process_id = worker_id })) [
        | inl e ↦ e
        | inr q ↦ begin_work i q (worker_process_init now items (a.worker i) w)
      ]

-- The processes behind the loop that forks.
unfoldable pub goes_on : ℕ → List ConfItem → ProgramAnswers → Worker → Program → Process → Started
unfolding worker_cycle
goes_on now items a w p master_process = is_master p set_sig_empty
goes_on now items a w p (worker_process i) = worker_cycle now items a w p i
goes_on now items a w p ended_process = has_ended

-- The array `signals` of `MasterProcessCycle`.
abbrev pub master_signals : List ℕ
master_signals = 17 ∷ 14 ∷ 29 ∷ 2 ∷ 1 ∷ 10 ∷ 12 ∷ 28 ∷ 15 ∷ 3 ∷ []

-- `MasterProcessCycle` behind `RegisterSignals`, up to the loop over signals.
unfoldable pub master_cycle : ℕ → List ConfItem → ProgramAnswers → Worker → Program → List Started
unfolding with_title goes_on master_process_cycle get_string
master_cycle now items a w p = elim (with_title (get_string items (codes "MasterProcessTitle")) p) [
  | inl e ↦ e ∷ []
  | inr q ↦ map (goes_on now items a w q) (master_process_cycle items a.fork)
]

-- `RegisterSignals` and what follows it.
unfoldable pub registered :
    ℕ → List ConfItem → ProgramAnswers → Worker → Program → Option SigSet → List Started
unfolding master_cycle
registered now items a w p none = undefined ∷ []
registered now items a w p (some s) = master_cycle now items a w (record p { blocked = s })

-- Behind the choice of `Runing`, in a process that goes on with its descriptors, or ends.
unfoldable pub as_master :
    ℕ → List ConfItem → ProgramAnswers → Worker → Program → Option (ℕ → File) → List Started
unfolding registered register_signals
as_master now items a w p none = has_ended ∷ []
as_master now items a w p (some d) =
    registered now items a w (record p { descriptors = d; process_id = master_id })
      (register_signals a.sigprocmask master_signals p.blocked)

-- `Runing` with the texts of the arguments and of the environment.
unfoldable pub runing :
    ℕ
    → List ConfItem
    → ProgramAnswers
    → Worker
    → List (List ℕ)
    → List (List ℕ)
    → Program
    → List Started
unfolding as_master init_main_arg run_descriptors flatten
runing now items a w args envs p =
    let m = p.main_arg in
    let q = record p {
      main_arg = init_main_arg m.argv_need_mem_size m.env_need_mem_size args envs;
    } in
    flatten (map (as_master now items a w q) (run_descriptors items a.daemon p.descriptors))

-- `main`: every process that comes out of it, the parent of a daemon first, and then in the order in
-- which they are forked. `w` holds the
-- objects of the program before it.
unfoldable pub main :
    ℕ
    → List ConfItem
    → ProgramAnswers
    → Worker
    → List (List ℕ)
    → List (List ℕ)
    → Program
    → List Started
unfolding init_run runing
main now items a w args envs p = elim (init_run a p) [
  | done q ↦ runing now items a w args envs q
  | exited ↦ has_ended ∷ []
  | deadlock ↦ stuck ∷ []
]

-- What the master has of its loop: the array `signals`, and what it has written of its children to the
-- log.
pub record Waiting : Type 0 where
  pub table : List SignalEntry
  pub children : List ℕ

-- A signal that comes, with what `waitpid` answers from then on.
pub record Signalled : Type 0 where
  pub signal_no : ℕ
  pub answers : List WaitAnswer

abbrev pub with_status : Waiting → List SignalEntry → Option Status → Outcome Waiting
with_status m t none = deadlock
with_status m t (some r) = done (record { table = t; children = m.children ++ r.codes })

-- What a signal does that comes in `sigsuspend`, by the disposition. `fatal` are the signals whose
-- default action ends the process.
unfoldable pub deliver : (ℕ → Bool) → Disposition → Signalled → Waiting → Outcome Waiting
unfolding signal_handler
deliver fatal default_action g m = if fatal g.signal_no then exited else done m
deliver fatal ignored g m = done m
deliver fatal calls_handler g m =
    let r = signal_handler g.signal_no g.answers m.table in with_status m r.0 r.1

-- The loop of the master over the signals that come; one that is in the set of `sigsuspend` does not
-- wake it.
unfoldable pub master_loop :
    (ℕ → Bool) → SigSet → (ℕ → Disposition) → List Signalled → Waiting → Outcome Waiting
unfolding deliver
master_loop fatal mask d [] m = done m
master_loop fatal mask d (g ∷ l) m =
    (if mask g.signal_no then done m else deliver fatal (d g.signal_no) g m)
    >>= master_loop fatal mask d l

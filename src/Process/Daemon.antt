-- ===== src/Process/Daemon.antt =====
-- app/XiaoHG_C_ProcessCtl.cxx: the daemon, and the processes that the master forks.
use xiao_hg_server.Base.{
  ℕ, zero, suc, ◌<◌, ◌≤◌, ◌≡◌, refl, sym, subst, ap, ◌∙◌, inl, inr, Bool, true, false, ◌&&◌, List,
  [], ◌∷◌, ◌++◌, Option, none, some, arith, if◌then◌else◌, ltb, ◌==◌, update, update_self,
  update_ne, Bool-cases, if_true, ltb→lt, ltb-false, ==_iff, eq-false→ne,
}
use xiao_hg_server.Conf.{ConfItem}
use xiao_hg_server.Process.{
  File, closed, dev_null, ForkResult, fork_failed, in_child, in_parent, DaemonAnswers, DaemonEnd,
  daemon_error, daemon_parent, daemon_exit, daemon_child, to_dev_null, child_end, fork_end,
  init_daemon, master_process_cycle, worker_count, Process, master_process, worker_process,
  fork_workers,
}

-- The descriptors of a daemon that had `fds` before, and `fd` for `/dev/null`. Only when `fds` had no
-- standard error does it stay `/dev/null`.
pub record IsDaemon (fd : ℕ) (fds d : ℕ → File) : Type 0 where
  pub stdin : d 0 ≡ dev_null
  pub stdout : d 1 ≡ dev_null
  pub stderr : ¬ (fd ≡ 2) → d 2 ≡ fds 2
  pub others : (j : ℕ) → 2 < j → d j ≡ fds j

-- Whether the calls of the child that follow `open` succeed; `close` is called for a descriptor
-- above 2 only.
abbrev pub copies : DaemonAnswers → ℕ → Bool
copies a fd = a.dup_stdin && a.dup_stdout && (if ltb 2 fd then a.close_fd else true)

-- How `InitDaemon` ends, by the answers of `fork`, `setsid` and `open`, and by whether the other
-- calls succeed.
abbrev pub DaemonEnds : (ℕ → File) → ForkResult → Bool → Option ℕ → (ℕ → Bool) → DaemonEnd → Type 0
DaemonEnds fds fork_failed sid opened ok e = e ≡ daemon_error
DaemonEnds fds in_parent sid opened ok e = e ≡ daemon_parent
DaemonEnds fds in_child false opened ok e = e ≡ daemon_exit
DaemonEnds fds in_child true none ok e = e ≡ daemon_error
DaemonEnds fds in_child true (some fd) ok e =
    if ok fd then ((d : ℕ → File) × (e ≡ daemon_child d) × IsDaemon fd fds d) else e ≡ daemon_error

-- Descriptors 0 and 1 as copies of `fd`.
abbrev copied : ℕ → (ℕ → File) → ℕ → File
copied fd fds = let f = update fds fd dev_null in update (update f 0 (f fd)) 1 (f fd)

copied_lem :
    (fd : ℕ) (fds : ℕ → File) (j : ℕ)
    → (j < 2 → copied fd fds j ≡ dev_null) × (1 < j → ¬ (j ≡ fd) → copied fd fds j ≡ fds j)
unfolding update
copied_lem fd fds j = (λ h. ground arith, λ h n. ground arith)

-- The descriptor that `open` gave is closed again.
closed_again :
    (fd : ℕ) (fds : ℕ → File) (j : ℕ)
    → fds fd ≡ closed
    → 1 < j
    → update (copied fd fds) fd closed j ≡ fds j
closed_again fd fds j free h = elim (Bool-cases (j == fd)) [
  | inl e ↦
      subst (λ k. update (copied fd fds) fd closed k ≡ fds k) (sym ((==_iff j fd).0 e))
        (update_self (copied fd fds) fd closed ∙ sym free)
  | inr e ↦
      let ne = eq-false→ne j fd e in
      update_ne (copied fd fds) fd closed j ne ∙ (copied_lem fd fds j).1 h ne
]

kept-IsDaemon : (fd : ℕ) (fds : ℕ → File) → fd ≤ 2 → IsDaemon fd fds (copied fd fds)
kept-IsDaemon fd fds small = record {
  stdin = (copied_lem fd fds 0).0 (omega arith);
  stdout = (copied_lem fd fds 1).0 (omega arith);
  stderr = λ n. (copied_lem fd fds 2).1 (omega arith) (omega (arith, n));
  others = λ j h. (copied_lem fd fds j).1 (omega arith) (omega arith);
}

closed-IsDaemon :
    (fd : ℕ) (fds : ℕ → File)
    → fds fd ≡ closed
    → 2 < fd
    → IsDaemon fd fds (update (copied fd fds) fd closed)
closed-IsDaemon fd fds free big =
    let low : (j : ℕ) → j < 2 → update (copied fd fds) fd closed j ≡ dev_null =
      λ j h. update_ne (copied fd fds) fd closed j (omega arith) ∙ (copied_lem fd fds j).0 h in
    record {
      stdin = low 0 (omega arith);
      stdout = low 1 (omega arith);
      stderr = λ n. closed_again fd fds 2 free (omega arith);
      others = λ j h. closed_again fd fds j free (omega arith);
    }

-- The calls behind `open`.
copies_ends :
    (a : DaemonAnswers) (fd : ℕ) (fds : ℕ → File)
    → fds fd ≡ closed
    → DaemonEnds fds in_child true (some fd) (copies a) (to_dev_null a fd (update fds fd dev_null))
unfolding to_dev_null
copies_ends a fd fds free = elim (Bool-cases a.dup_stdin) [
  | inr e ↦ rw e refl
  | inl e ↦ elim (Bool-cases a.dup_stdout) [
    | inr f ↦ rw (e, f) refl
    | inl f ↦ elim (Bool-cases (ltb 2 fd)) [
      | inr g ↦ rw (e, f, g) (copied fd fds, refl, kept-IsDaemon fd fds (ltb-false 2 fd g))
      | inl g ↦ elim (Bool-cases a.close_fd) [
        | inr k ↦ rw (e, f, g, k) refl
        | inl k ↦
            rw (e, f, g, k)
              (update (copied fd fds) fd closed, refl, closed-IsDaemon fd fds free (ltb→lt 2 fd g))
      ]
    ]
  ]
]

ends_by :
    (a : DaemonAnswers) (fds : ℕ → File) (o : Option ℕ) (sid : Bool)
    → ((fd : ℕ) → o ≡ some fd → fds fd ≡ closed)
    → DaemonEnds fds in_child sid o (copies a) (child_end a sid o fds)
unfolding child_end
ends_by a fds o false free = refl
ends_by a fds none true free = refl
ends_by a fds (some fd) true free = copies_ends a fd fds (free fd refl)

by_fork :
    (a : DaemonAnswers) (fds : ℕ → File) (f : ForkResult)
    → ((fd : ℕ) → a.opened ≡ some fd → fds fd ≡ closed)
    → DaemonEnds fds f a.setsid a.opened (copies a) (fork_end a f fds)
unfolding fork_end
by_fork a fds fork_failed free = refl
by_fork a fds in_parent free = refl
by_fork a fds in_child free = ends_by a fds a.opened a.setsid free

-- When `open` gives a descriptor that was closed: `InitDaemon` returns 1 in the parent, and an error
-- when `fork`, `open`, `dup2` or `close` fails; the child ends when `setsid` fails; else it goes on
-- with `/dev/null` as its standard input and output, and with no other descriptor changed but a
-- standard error that was closed.
pub init_daemon-DaemonEnds :
    (a : DaemonAnswers) (fds : ℕ → File)
    → ((fd : ℕ) → a.opened ≡ some fd → fds fd ≡ closed)
    → DaemonEnds fds a.fork a.setsid a.opened (copies a) (init_daemon a fds)
unfolding init_daemon
init_daemon-DaemonEnds a fds free = by_fork a fds a.fork free

-- The processes `i`, ..., `i + n - 1`.
abbrev pub workers : ℕ → ℕ → List Process
workers zero i = []
workers (suc n) i = worker_process i ∷ workers n (suc i)

fork_workers_lem :
    (n : ℕ) (ok : ℕ → Bool) (i : ℕ)
    → ((j : ℕ) → ok j ≡ true)
    → fork_workers n ok i ≡ workers n i ++ (master_process ∷ [])
unfolding fork_workers
fork_workers_lem zero ok i h = refl
fork_workers_lem (suc n) ok i h =
    if_true (ok i) _ _ (h i) ∙ ap (◌∷◌ (worker_process i)) (fork_workers_lem n ok (suc i) h)

-- While every `fork` succeeds, `MasterProcessCycle` makes as many worker processes as are
-- configured, each of them once, and goes on as the only master: no worker forks.
pub master_process_cycle-workers :
    (items : List ConfItem) (ok : ℕ → Bool)
    → ((i : ℕ) → ok i ≡ true)
    → master_process_cycle items ok ≡ workers (worker_count items) 0 ++ (master_process ∷ [])
unfolding master_process_cycle
master_process_cycle-workers items ok h = fork_workers_lem (worker_count items) ok 0 h

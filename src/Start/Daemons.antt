-- ===== src/Start/Daemons.antt =====
-- `InitDaemon` and `Runing`: the processes that there are before `MasterProcessCycle`.
use xiao_hg_server.Base.{
  subst, ℕ, ◌≡◌, refl, sym, ap, ◌∙◌, Bool, true, false, ◌&&◌, List, [], ◌∷◌, Option, none, some,
  map, All, ltb, eq_ℤ, pos, codes, if◌then◌else◌, Bool-cases, inl, inr, if_true, if_false, not,
}
use xiao_hg_server.Conf.{ConfItem, get_int_default}
use xiao_hg_server.Process.{
  File, DaemonAnswers, DaemonEnd, daemon_error, daemon_parent, daemon_exit, daemon_child,
  ForkResult, fork_failed, in_parent, in_child, both_answers, descriptors_of, init_daemon,
  run_descriptors, child_end, fork_end, to_dev_null,
}
use xiao_hg_server.Process.Daemon.{copies}
use xiao_hg_server.Start.Kinds.{FilesOf, daemon_goes, daemons, going}

abbrev pub goes : Option (ℕ → File) → Bool
goes none = false
goes (some d) = true

-- The tests behind `open`.
by_calls :
    (stdin stdout big close : Bool) (x y : ℕ → File)
    → goes (
        descriptors_of (
          if not stdin
          then daemon_error
          else if not stdout
          then daemon_error
          else if big
          then (if close then daemon_child x else daemon_error)
          else daemon_child y))
      ≡ (stdin && stdout && (if big then close else true))
by_calls false stdout big close x y = refl
by_calls true false big close x y = refl
by_calls true true false close x y = refl
by_calls true true true true x y = refl
by_calls true true true false x y = refl

child_goes :
    (a : DaemonAnswers) (sid : Bool) (opened : Option ℕ) (fds : ℕ → File)
    → a.setsid ≡ sid
    → goes (descriptors_of (child_end a sid opened fds)) ≡ daemon_goes a opened
unfolding child_end to_dev_null
child_goes a false none fds e = refl
child_goes a true none fds e = refl
child_goes a false (some fd) fds e = ap (λ b. b && copies a fd) (sym e)
child_goes a true (some fd) fds e =
    by_calls a.dup_stdin a.dup_stdout (ltb 2 fd) a.close_fd _ _ ∙ ap (λ b. b && copies a fd) (sym e)

forked_goes :
    (a : DaemonAnswers) (f : ForkResult) (fds : ℕ → File)
    → map goes (map (λ x. descriptors_of (init_daemon x fds)) (both_answers a f)) ≡ daemons a f
unfolding init_daemon fork_end
forked_goes a fork_failed fds = refl
forked_goes a in_parent fds =
    ap (λ b. false ∷ b ∷ []) (child_goes (record a { fork = in_child }) a.setsid a.opened fds refl)
forked_goes a in_child fds =
    ap (λ b. false ∷ b ∷ []) (child_goes (record a { fork = in_child }) a.setsid a.opened fds refl)

abbrev is_plain : List ConfItem → Bool
is_plain items = eq_ℤ (get_int_default items (codes "Daemon") (pos 0)) (pos 0)

pub run_descriptors-going :
    (items : List ConfItem) (a : DaemonAnswers) (fds : ℕ → File)
    → map goes (run_descriptors items a fds) ≡ going items a
unfolding run_descriptors
run_descriptors-going items a fds = elim (Bool-cases (is_plain items)) [
  | inl e ↦ rw e refl
  | inr e ↦ rw e (forked_goes a a.fork fds)
]

-- What goes on has the right descriptors.
abbrev pub FilesIn : List ConfItem → DaemonAnswers → (ℕ → File) → Option (ℕ → File) → Type 0
FilesIn items a fds none = Unit
FilesIn items a fds (some d) = FilesOf items a fds d

ended_files :
    (items : List ConfItem) (a : DaemonAnswers) (fds : ℕ → File) (e : DaemonEnd)
    → is_plain items ≡ false
    → init_daemon (record a { fork = in_child }) fds ≡ e
    → FilesIn items a fds (descriptors_of e)
ended_files items a fds daemon_error b e = tt
ended_files items a fds daemon_parent b e = tt
ended_files items a fds daemon_exit b e = tt
ended_files items a fds (daemon_child d) b e = rw b e

forked_files :
    (items : List ConfItem) (a : DaemonAnswers) (f : ForkResult) (fds : ℕ → File)
    → is_plain items ≡ false
    → All (FilesIn items a fds) (map (λ x. descriptors_of (init_daemon x fds)) (both_answers a f))
unfolding init_daemon fork_end
forked_files items a fork_failed fds b = (tt, tt)
forked_files items a in_parent fds b =
    (tt, (ended_files items a fds (init_daemon (record a { fork = in_child }) fds) b refl, tt))
forked_files items a in_child fds b =
    (tt, (ended_files items a fds (init_daemon (record a { fork = in_child }) fds) b refl, tt))

pub run_descriptors-FilesIn :
    (items : List ConfItem) (a : DaemonAnswers) (fds : ℕ → File)
    → All (FilesIn items a fds) (run_descriptors items a fds)
unfolding run_descriptors
run_descriptors-FilesIn items a fds = elim (Bool-cases (is_plain items)) [
  | inl e ↦
      let same : FilesOf items a fds fds = rw e refl in
      subst (All (FilesIn items a fds)) (sym (if_true (is_plain items) _ _ e)) (same, tt)
  | inr e ↦
      subst (All (FilesIn items a fds)) (sym (if_false (is_plain items) _ _ e))
        (forked_files items a a.fork fds e)
]

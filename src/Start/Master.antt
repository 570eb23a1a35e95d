-- ===== src/Start/Master.antt =====
-- The loop of `MasterProcessCycle` of app/XiaoHG_C_ProcessCtl.cxx over the signals that come.
use xiao_hg_server.Base.{
  ℕ, ◌≡◌, refl, sym, ap, ap₂, ◌∙◌, subst, inl, inr, Bool, true, not, ◌&&◌, ◌||◌, List, [], ◌∷◌,
  ◌++◌, append_assoc, append-nil, map, All, some, arith, if◌then◌else◌, ◌==◌, Ends, returns, exits,
  >>=-Ends, Bool-cases, ==_iff, eq-false→ne, Option, update, if_true, if_false, ne→eq-false,
}
use xiao_hg_server.Signal.{
  SignalEntry, signals, sigchld, Disposition, default_action, calls_handler, ignored, init_signals,
  set_sig_empty, signal_handler, Status,
}
use xiao_hg_server.Signal.Children.{
  Passing, Last, answers_of, last_answer, codes_of, Handled, signal_handler-Handled,
}
use xiao_hg_server.Start.{Waiting, Signalled, deliver, master_loop, with_status}

-- A signal that comes, with what `waitpid` answers: children that have ended and interruptions, and
-- an answer that ends them.
pub record Coming : Type 0 where
  pub number : ℕ
  pub passing : List Passing
  pub last : Last

abbrev pub signalled : Coming → Signalled
signalled c = record {
  signal_no = c.number;
  answers = answers_of c.passing (last_answer c.last ∷ []);
}

-- What the signals do once `CSignalCtl::Init` has set them up.
abbrev pub set_up : (ℕ → Disposition) → ℕ → Disposition
set_up d n =
    if n == 29 || n == 3 || n == sigchld || n == 15 || n == 2 || n == 1
    then calls_handler
    else if n == 31
    then ignored
    else d n

-- Whether the process goes on.
abbrev pub endures : (ℕ → Bool) → ℕ → Disposition → Bool
endures fatal n default_action = not (fatal n)
endures fatal n calls_handler = true
endures fatal n ignored = true

abbrev pub all_endured : (ℕ → Bool) → (ℕ → Disposition) → List Coming → Bool
all_endured fatal d [] = true
all_endured fatal d (c ∷ l) = endures fatal c.number (d c.number) && all_endured fatal d l

-- The codes of the children that a signal brings.
abbrev pub brings : Coming → List ℕ
brings c = if c.number == sigchld then codes_of c.passing else []

abbrev pub all_brought : List Coming → List ℕ
all_brought [] = []
all_brought (c ∷ l) = brings c ++ all_brought l

-- The log holds `codes`, and the array `others` behind its first entry, which has a number.
pub record Logs (others : List SignalEntry) (codes : List ℕ) (m : Waiting) : Type 0 where
  pub first : SignalEntry
  pub table : m.table ≡ first ∷ others
  pub numbered : ¬ (first.signal_no ≡ 0)
  pub children : m.children ≡ codes

init_signals_lem :
    (ok : ℕ → Bool) (d : ℕ → Disposition) (n : ℕ)
    → ((k : ℕ) → ok k ≡ true)
    → init_signals ok signals d n ≡ set_up d n
unfolding init_signals update
init_signals_lem ok d n h = rw (h 1, h 2, h 15, h 17, h 3, h 29, h 31) (ground arith)

brings_none : (c : Coming) → ¬ (c.number ≡ sigchld) → brings c ≡ []
brings_none c h = if_false (c.number == sigchld) _ _ (ne→eq-false c.number sigchld h)

-- A signal that writes nothing.
unwritten :
    {others : List SignalEntry} {codes : List ℕ} (c : Coming) (m : Waiting)
    → ¬ (c.number ≡ sigchld)
    → Logs others codes m
    → Logs others (codes ++ brings c) m
unwritten {codes} c m h logs = record {
  first = logs.first;
  table = logs.table;
  numbered = logs.numbered;
  children = logs.children ∙ sym (append-nil codes) ∙ ap (λ l. codes ++ l) (sym (brings_none c h));
}

default_not : ¬ (default_action ≡ calls_handler)
default_not e = cc

ignored_not : ¬ (ignored ≡ calls_handler)
ignored_not e = cc

status_lem :
    (c : Coming) (e : SignalEntry) (l : List SignalEntry) (r : List SignalEntry × Option Status)
    → Handled c.number e l c.passing c.last [] r
    → (st : Status) × (r.1 ≡ some st) × (st.codes ≡ brings c)
status_lem c e l r h = elim (Bool-cases (c.number == sigchld)) [
  | inl y ↦
      (_, h.children ((==_iff c.number sigchld).0 y), sym (if_true (c.number == sigchld) _ _ y))
  | inr n ↦ (
    _,
    h.no_children (eq-false→ne c.number sigchld n),
    sym (if_false (c.number == sigchld) _ _ n),
  )
]

deliver-Ends :
    (fatal : ℕ → Bool) (others : List SignalEntry) (codes : List ℕ) (c : Coming) (m : Waiting)
    (d : Disposition)
    → ¬ (c.number ≡ 0)
    → (c.number ≡ sigchld → d ≡ calls_handler)
    → Logs others codes m
    → Ends
        (Logs others (codes ++ brings c))
        (endures fatal c.number d)
        (deliver fatal d (signalled c) m)
unfolding deliver
deliver-Ends fatal others codes c m default_action some_signal child logs =
    let stays = unwritten c m (λ e. default_not (child e)) logs in
    elim (Bool-cases (fatal c.number)) [
      | inl e ↦ exits (ap not e) (if_true (fatal c.number) _ _ e)
      | inr e ↦ returns m (ap not e) (if_false (fatal c.number) _ _ e) stays
    ]
deliver-Ends fatal others codes c m ignored some_signal child logs =
    returns m refl refl (unwritten c m (λ e. ignored_not (child e)) logs)
deliver-Ends fatal others codes c m calls_handler some_signal child logs =
    let answers = answers_of c.passing (last_answer c.last ∷ []) in
    let r = signal_handler c.number answers (logs.first ∷ others) in
    let handled =
      signal_handler-Handled c.number logs.first others c.passing c.last [] some_signal
        logs.numbered in
    let (st, e, same) = status_lem c logs.first others r handled in
    let now : Waiting = record { table = r.0; children = m.children ++ st.codes } in
    returns now refl
      (ap (λ t. let q = signal_handler c.number answers t in with_status m q.0 q.1) logs.table
        ∙ ap (with_status m r.0) e)
      (record {
        first = record logs.first { signal_no = c.number };
        table = handled.table;
        numbered = some_signal;
        children = ap₂ (λ k l. k ++ l) logs.children same;
      })

-- While the master waits with no signal blocked, after every `sigaction` of `CSignalCtl::Init` has
-- succeeded, and each number of a signal that comes is not 0: a signal whose default action is fatal
-- ends it, unless it is one of SIGHUP, SIGINT, SIGTERM, SIGQUIT, SIGCHLD, SIGIO and SIGSYS; if none
-- such comes, it goes on through all the signals and has written to the log the codes of all children
-- that have ended, as SIGCHLD brought them, and of the array `signals` only the first entry has
-- changed.
pub master_loop-Ends :
    (fatal : ℕ → Bool) (ok : ℕ → Bool) (d : ℕ → Disposition) (l : List Coming)
    (others : List SignalEntry) (codes : List ℕ) (m : Waiting)
    → ((n : ℕ) → ok n ≡ true)
    → All (λ c. ¬ (c.number ≡ 0)) l
    → Logs others codes m
    → Ends
        (Logs others (codes ++ all_brought l))
        (all_endured fatal (set_up d) l)
        (master_loop fatal set_sig_empty (init_signals ok signals d) (map signalled l) m)
unfolding master_loop
master_loop-Ends fatal ok d [] others codes m set some_signals logs =
    returns m refl refl (subst (λ k. Logs others k m) (sym (append-nil codes)) logs)
master_loop-Ends fatal ok d (c ∷ l) others codes m set some_signals logs =
    let done_as : init_signals ok signals d c.number ≡ set_up d c.number =
      init_signals_lem ok d c.number set in
    >>=-Ends (endures fatal c.number (set_up d c.number)) (all_endured fatal (set_up d) l)
      (deliver fatal (init_signals ok signals d c.number) (signalled c) m)
      (master_loop fatal set_sig_empty (init_signals ok signals d) (map signalled l))
      (subst
        (λ k.
          Ends (Logs others (codes ++ brings c)) (endures fatal c.number (set_up d c.number))
            (deliver fatal k (signalled c) m))
        (sym done_as)
        (deliver-Ends fatal others codes c m (set_up d c.number) some_signals.0
          (λ e. ap (set_up d) e) logs))
      (λ r logs_r.
        subst
          (λ k.
            Ends (Logs others k) (all_endured fatal (set_up d) l)
              (master_loop fatal set_sig_empty (init_signals ok signals d) (map signalled l) r))
          (append_assoc codes (brings c) (all_brought l))
          (master_loop-Ends fatal ok d l others (codes ++ brings c) r set some_signals.1 logs_r))

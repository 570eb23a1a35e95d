-- ===== src/Signal/Children.antt =====
-- signal/XiaoHG_C_Signal.cxx: what a signal does.
use xiao_hg_server.Base.{
  ℕ, ◌≡◌, refl, ap, ◌∙◌, Bool, true, false, ◌||◌, List, [], ◌∷◌, Option, some, arith, ◌==◌, if_true,
  if_false, ne→eq-false, update,
}
use xiao_hg_server.Signal.{
  SignalEntry, sigchld, SigSet, add_sig, add_signals, register_signals, WaitAnswer, nothing_changed,
  wait_interrupted, no_child, wait_failed, child_ended, Status, wait_loop, process_get_status,
  find_signal, signal_handler, add_code,
}

-- The answers that do not end the loop: the codes of children, and interruptions.
pub data Passing : Type 0 where
  interrupted : Passing
  ended : ℕ → Passing

abbrev pub answer_of : Passing → WaitAnswer
answer_of interrupted = wait_interrupted
answer_of (ended n) = child_ended n

abbrev pub answers_of : List Passing → List WaitAnswer → List WaitAnswer
answers_of [] l = l
answers_of (p ∷ ps) l = answer_of p ∷ answers_of ps l

-- The codes of the children, in their order.
abbrev pub codes_of : List Passing → List ℕ
codes_of [] = []
codes_of (interrupted ∷ ps) = codes_of ps
codes_of (ended n ∷ ps) = n ∷ codes_of ps

-- The answers that end it.
pub data Last : Type 0 where
  last_running last_no_child last_failed : Last

abbrev pub last_answer : Last → WaitAnswer
last_answer last_running = nothing_changed
last_answer last_no_child = no_child
last_answer last_failed = wait_failed

-- Whether a failure goes to the log; it does not when a child was found before.
abbrev pub reports : Last → List ℕ → Bool
reports last_running l = false
reports last_no_child [] = true
reports last_no_child (n ∷ l) = false
reports last_failed l = true

abbrev some_before : Bool → List ℕ → List ℕ
some_before true l = 0 ∷ l
some_before false l = l

abbrev reaped : Bool → List Passing → Last → List WaitAnswer → Status
reaped one ps t l = record {
  codes = codes_of ps;
  failed = reports t (some_before one (codes_of ps));
  rest = l;
}

reports_some : (t : Last) (n m : ℕ) (l k : List ℕ) → reports t (n ∷ l) ≡ reports t (m ∷ k)
reports_some last_running n m l k = refl
reports_some last_no_child n m l k = refl
reports_some last_failed n m l k = refl

wait_loop_lem :
    (one : Bool) (ps : List Passing) (t : Last) (l : List WaitAnswer)
    → wait_loop one (answers_of ps (last_answer t ∷ l)) ≡ some (reaped one ps t l)
unfolding wait_loop
wait_loop_lem one [] last_running l = refl
wait_loop_lem true [] last_no_child l = refl
wait_loop_lem false [] last_no_child l = refl
wait_loop_lem one [] last_failed l = refl
wait_loop_lem one (interrupted ∷ ps) t l = wait_loop_lem one ps t l
wait_loop_lem true (ended n ∷ ps) t l =
    ap (add_code n) (wait_loop_lem true ps t l)
    ∙ ap (λ f. some (record { codes = n ∷ codes_of ps; failed = f; rest = l }))
        (reports_some t 0 0 (codes_of ps) (n ∷ codes_of ps))
wait_loop_lem false (ended n ∷ ps) t l =
    ap (add_code n) (wait_loop_lem true ps t l)
    ∙ ap (λ f. some (record { codes = n ∷ codes_of ps; failed = f; rest = l }))
        (reports_some t 0 n (codes_of ps) (codes_of ps))

-- What `SignalHandler` leaves, by whether the signal is SIGCHLD.
pub record Handled (n : ℕ) (first : SignalEntry) (others : List SignalEntry) (ps : List Passing)
    (t : Last) (l : List WaitAnswer) (r : List SignalEntry × Option Status) : Type 0 where
  pub table : r.0 ≡ record first { signal_no = n } ∷ others
  pub children :
      n ≡ sigchld
      → r.1 ≡ some (record { codes = codes_of ps; failed = reports t (codes_of ps); rest = l })
  pub no_children :
      ¬ (n ≡ sigchld)
      → r.1 ≡ some (record { codes = []; failed = false; rest = answers_of ps (last_answer t ∷ l) })

-- On a signal whose number is not 0, with an array whose first entry has a number: `SignalHandler`
-- returns, and its first entry now has the number of the signal, whatever it was. On SIGCHLD it
-- goes on, however often `waitpid` is interrupted, until no child is left that has ended, and
-- writes the code of each to the log; on other signals it does not call `waitpid`.
pub signal_handler-Handled :
    (n : ℕ) (first : SignalEntry) (others : List SignalEntry) (ps : List Passing) (t : Last)
    (l : List WaitAnswer)
    → ¬ (n ≡ 0)
    → ¬ (first.signal_no ≡ 0)
    → Handled n first others ps t l
        (signal_handler n (answers_of ps (last_answer t ∷ l)) (first ∷ others))
unfolding signal_handler find_signal process_get_status
signal_handler-Handled n first others ps t l some_signal some_first =
    let is_some = ne→eq-false n 0 some_signal in
    let is_first = ne→eq-false first.signal_no 0 some_first in
    record {
      table =
          if_false _ _ _ is_first
          ∙ ap (λ r. record first { signal_no = n } ∷ r) (if_false (n == 0) _ others is_some);
      children = λ e. if_true (n == sigchld) _ _ (ground (arith, e)) ∙ wait_loop_lem false ps t l;
      no_children = λ e. if_false (n == sigchld) _ _ (ne→eq-false n sigchld e);
    }

-- `RegisterSignals` blocks the first two signals of the array that it is given, and none of the
-- others, beside those that were blocked.
pub register_signals_two :
    (a b : ℕ) (sigs : List ℕ) (blocked : SigSet) (n : ℕ)
    → (s : SigSet) × (register_signals true (a ∷ b ∷ sigs) blocked ≡ some s)
      × (s n ≡ (blocked n || (n == a) || (n == b)))
unfolding register_signals add_signals add_sig update
register_signals_two a b sigs blocked n = (_, refl, ground arith)

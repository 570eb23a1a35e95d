-- ===== src/Signal.antt =====
-- signal/XiaoHG_C_Signal.cxx: the signals of a process. What `sigaction`, `sigprocmask` and `waitpid`
-- answer is an argument; the numbers are those of Linux.
pub mod Children
use xiao_hg_server.Base.{
  ℕ, zero, suc, Bool, true, false, not, ◌&&◌, ◌||◌, List, [], ◌∷◌, Option, none, some,
  if◌then◌else◌, ◌==◌, update,
}

-- `SIGNAL_T`: whether there is a `LogicHandlerCallBack`.
pub record SignalEntry : Type 0 where
  pub signal_no : ℕ
  pub has_callback : Bool

abbrev pub sigchld : ℕ
sigchld = 17

-- The array `signals`, with its last entry.
abbrev pub signals : List SignalEntry
signals =
    record { signal_no = 1; has_callback = true }
    ∷ record { signal_no = 2; has_callback = true }
    ∷ record { signal_no = 15; has_callback = true }
    ∷ record { signal_no = sigchld; has_callback = true }
    ∷ record { signal_no = 3; has_callback = true }
    ∷ record { signal_no = 29; has_callback = true }
    ∷ record { signal_no = 31; has_callback = false }
    ∷ record { signal_no = 0; has_callback = false }
    ∷ []

-- What the process does on a signal.
pub data Disposition : Type 0 where
  default_action calls_handler ignored : Disposition

-- The loop of `Init` over the array, up to the entry with number 0.
unfoldable pub init_signals : (ℕ → Bool) → List SignalEntry → (ℕ → Disposition) → ℕ → Disposition
init_signals ok [] d = d
init_signals ok (e ∷ es) d =
    let entry = if e.has_callback then calls_handler else ignored in
    if e.signal_no == 0
    then d
    else init_signals ok es (if ok e.signal_no then update d e.signal_no entry else d)

-- A `sigset_t`, and the operations on `m_stSet`.
abbrev pub SigSet : Type 0
SigSet = ℕ → Bool

abbrev pub set_sig_empty : SigSet
set_sig_empty n = false

unfoldable pub add_sig : ℕ → SigSet → SigSet
unfolding update
add_sig n s = update s n true

pub del_sig : ℕ → SigSet → SigSet
del_sig n s = update s n false

abbrev pub is_sig_member : ℕ → SigSet → Bool
is_sig_member n s = s n

-- `AddSigPending` with the signals that are pending.
abbrev pub add_sig_pending : SigSet → SigSet → SigSet
add_sig_pending pending s = pending

-- The loop of `RegisterSignals` over `n` entries; it reads past the end of a shorter array.
unfoldable pub add_signals : ℕ → List ℕ → SigSet → Option SigSet
unfolding add_sig
add_signals zero sigs s = some s
add_signals (suc n) [] s = none
add_signals (suc n) (k ∷ sigs) s = add_signals n sigs (add_sig k s)

-- `sizeof(m_Signals)/sizeof(m_Signals[0])`: the size of a pointer, by that of a `uint32_t`.
abbrev pub registered_count : ℕ
registered_count = 2

-- `RegisterSignals` for the signals that `m_Signals` points to, and the signals that are blocked.
unfoldable pub register_signals : Bool → List ℕ → SigSet → Option SigSet
unfolding add_signals
register_signals ok sigs blocked = elim (add_signals registered_count sigs set_sig_empty) [
  | none ↦ none
  | some s ↦ some (if ok then (λ n. blocked n || s n) else blocked)
]

-- An answer of `waitpid(-1, &iStatus, WNOHANG)`: a child that has ended comes with the number that
-- is written to the log.
pub data WaitAnswer : Type 0 where
  nothing_changed wait_interrupted no_child wait_failed : WaitAnswer
  child_ended : ℕ → WaitAnswer

-- What `ProcessGetStatus` writes to the log, and the answers that it leaves.
pub record Status : Type 0 where
  pub codes : List ℕ
  pub failed : Bool
  pub rest : List WaitAnswer

abbrev pub add_code : ℕ → Option Status → Option Status
add_code n none = none
add_code n (some r) = some (record r { codes = n ∷ r.codes })

-- The loop of `ProcessGetStatus`, with `iOne`; it goes on until an answer ends it.
unfoldable pub wait_loop : Bool → List WaitAnswer → Option Status
wait_loop one [] = none
wait_loop one (nothing_changed ∷ l) = some (record { codes = []; failed = false; rest = l })
wait_loop one (wait_interrupted ∷ l) = wait_loop one l
wait_loop one (no_child ∷ l) = some (record { codes = []; failed = not one; rest = l })
wait_loop one (wait_failed ∷ l) = some (record { codes = []; failed = true; rest = l })
wait_loop one (child_ended n ∷ l) = add_code n (wait_loop true l)

unfoldable pub process_get_status : List WaitAnswer → Option Status
unfolding wait_loop
process_get_status l = wait_loop false l

-- The loop of `SignalHandler`: its test assigns the number of the signal.
unfoldable pub find_signal : ℕ → List SignalEntry → List SignalEntry
find_signal n [] = []
find_signal n (e ∷ es) =
    let rest = find_signal n es in
    if e.signal_no == 0 then e ∷ es else record e { signal_no = n } ∷ (if n == 0 then rest else es)

-- `SignalHandler(signalNo)`: the array behind it, and what `ProcessGetStatus` does. Its `switch`es
-- do nothing.
unfoldable pub signal_handler :
    ℕ → List WaitAnswer → List SignalEntry → List SignalEntry × Option Status
unfolding find_signal process_get_status
signal_handler n answers table = (
  find_signal n table,
  if n == sigchld
      then process_get_status answers
      else some (record { codes = []; failed = false; rest = answers }),
)

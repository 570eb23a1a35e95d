-- ===== src/Log.antt =====
-- app/XiaoHG_C_Log.cxx: the log. A text that a format makes is a list of characters; `snprintf`
-- returns its full length, also when it writes less of it.
pub mod Buffer
pub mod Lines
pub mod Bounds
use xiao_hg_server.Base.{
  ℕ, ℤ, pos, ltb_ℤ, ◌+◌, ◌-◌, ◌%◌, ◌^◌, Bool, true, false, List, [], ◌∷◌, ◌++◌, Option, none, some,
  if◌then◌else◌, leb, ◌==◌, length, take, get_or, replicate, write_at, codes,
}
use xiao_hg_server.Conf.{ConfItem, c_str, get_string, get_int_default, decimal}

abbrev pub max_log_strlen : ℕ
max_log_strlen = 2048

abbrev pub basic_log_strlen : ℕ
basic_log_strlen = 512

abbrev pub log_level_err : ℕ
log_level_err = 4

abbrev pub log_level_track : ℕ
log_level_track = 9

abbrev pub stderr_fileno : ℕ
stderr_fileno = 2

-- `g_ErrLevel`.
abbrev pub err_level : List (List ℕ)
err_level =
    codes "stderr"
    ∷ codes "emerg"
    ∷ codes "alert"
    ∷ codes "serious"
    ∷ codes "error"
    ∷ codes "warn"
    ∷ codes "notice"
    ∷ codes "info"
    ∷ codes "debug"
    ∷ codes "track"
    ∷ []

-- One call of `write`: what it hands over of the buffer, and how many bytes behind its end.
pub record Written : Type 0 where
  pub fd : ℕ
  pub bytes : List ℕ
  pub beyond : ℕ

-- The members of `CLog`; `log_fd` is none for -1. `overrun` counts the bytes that were written
-- behind the end of `m_pLogBuff`, and `written` lists the calls of `write`, the last one first.
pub record Log : Type 0 where
  pub log_fd : Option ℕ
  pub log_level : ℤ
  pub log_buff : List ℕ
  pub log_str_len : ℕ
  pub overrun : ℕ
  pub written : List Written

-- Bytes that are written into the buffer from index `at` on.
abbrev pub put : ℕ → List ℕ → Log → Log
put at bytes g = record g {
  log_buff = take max_log_strlen (write_at g.log_buff at bytes);
  overrun = g.overrun + (at + length bytes - max_log_strlen);
}

-- What `snprintf` stores of a text.
abbrev pub stored : ℕ → List ℕ → List ℕ
stored size text = if size == 0 then [] else take (size - 1) text ++ (0 ∷ [])

-- `m_LogStrPoint = snprintf(m_pLogBuff + m_LogStrLen, size, ...); m_LogStrLen += m_LogStrPoint;`
unfoldable pub snprintf : ℕ → List ℕ → Log → Log
snprintf size text g = record (put g.log_str_len (stored size text) g) {
  log_str_len = (g.log_str_len + length text) % 2 ^ 16;
}

-- `cap - m_LogStrLen`, an `int` that becomes a `size_t`.
abbrev pub size_left : ℕ → ℕ → ℕ
size_left cap n = if leb n cap then cap - n else 2 ^ 64 - (n - cap)

abbrev pub empty_line : Log → Log
empty_line g = record g { log_buff = replicate max_log_strlen 0; log_str_len = 0 }

-- `LogBasicStr(logLevel)`; `stamp` is the date and the process, as the format writes them.
unfoldable pub log_basic_str : List ℕ → ℕ → Log → Bool × Log
unfolding snprintf
log_basic_str stamp level g = elim g.log_fd [
  | none ↦ (false, empty_line g)
  | some fd ↦
      if ltb_ℤ g.log_level (pos level)
      then (false, empty_line g)
      else (true, snprintf basic_log_strlen stamp (empty_line g))
]

-- Where `WriteLog` writes to.
abbrev pub target : Bool → ℕ → ℕ
target to_stderr fd = if to_stderr then stderr_fileno else fd

-- `WriteLog(fmt, stArgs, stdFlag)` with the text that the format makes.
unfoldable pub write_log : List ℕ → Bool → ℕ → Log → Log
unfolding snprintf c_str
write_log text to_stderr fd g =
    let h = snprintf (size_left max_log_strlen g.log_str_len) text g in
    let ended = put (length (c_str h.log_buff)) (10 ∷ []) h in
    record ended {
      written =
          record {
            fd = target to_stderr fd;
            bytes = take (ended.log_str_len + 1) ended.log_buff;
            beyond = ended.log_str_len + 1 - max_log_strlen;
          }
          ∷ ended.written;
    }

-- A call of one of the five functions `Log`, with what its format makes. `reason` is the text of
-- `strerror`.
pub data LogCall : Type 0 where
  log_std : (text : List ℕ) → LogCall
  log_plain : (level : ℕ) (text : List ℕ) → LogCall
  log_errno : (level err_no : ℕ) (reason text : List ℕ) → LogCall
  log_line : (level : ℕ) (file_name : List ℕ) (line_no : ℕ) (text : List ℕ) → LogCall
  log_full : (level err_no : ℕ) (reason file_name : List ℕ) (line_no : ℕ) (text : List ℕ) → LogCall

abbrev pub level_of : LogCall → ℕ
level_of (log_std text) = log_level_track
level_of (log_plain level text) = level
level_of (log_errno level err_no reason text) = level
level_of (log_line level file_name line_no text) = level
level_of (log_full level err_no reason file_name line_no text) = level

abbrev pub text_of : LogCall → List ℕ
text_of (log_std text) = text
text_of (log_plain level text) = text
text_of (log_errno level err_no reason text) = text
text_of (log_line level file_name line_no text) = text
text_of (log_full level err_no reason file_name line_no text) = text

abbrev pub to_stderr : LogCall → Bool
to_stderr (log_std text) = true
to_stderr (log_plain level text) = false
to_stderr (log_errno level err_no reason text) = false
to_stderr (log_line level file_name line_no text) = false
to_stderr (log_full level err_no reason file_name line_no text) = false

abbrev level_tag : ℕ → List ℕ
level_tag level = codes "[" ++ (get_or err_level level [] ++ codes "]")

abbrev errno_tag : ℕ → List ℕ → List ℕ
errno_tag err_no reason =
    codes "[errno:" ++ (decimal err_no ++ (codes ", " ++ (reason ++ codes "] ")))

abbrev place : List ℕ → ℕ → List ℕ
place file_name line_no = codes "[" ++ (file_name ++ (codes ": " ++ (decimal line_no ++ codes "]")))

-- What each function puts in front of the text.
unfoldable pub tag_of : LogCall → List ℕ
unfolding decimal
tag_of (log_std text) = codes "[std] "
tag_of (log_plain level text) = level_tag level ++ codes " "
tag_of (log_errno level err_no reason text) = level_tag level ++ errno_tag err_no reason
tag_of (log_line level file_name line_no text) =
    level_tag level ++ (place file_name line_no ++ codes " ")
tag_of (log_full level err_no reason file_name line_no text) =
    level_tag level ++ (place file_name line_no ++ errno_tag err_no reason)

-- Behind `LogBasicStr`: the tag, and the text of the caller.
unfoldable pub log_text : LogCall → Option ℕ → Log → Log
unfolding snprintf write_log
log_text call none h = h
log_text call (some fd) h =
    write_log (text_of call) (to_stderr call) fd
      (snprintf (size_left basic_log_strlen h.log_str_len) (tag_of call) h)

-- The functions `Log`; a descriptor of -1 ends the call in `LogBasicStr` already.
unfoldable pub log : List ℕ → LogCall → Log → Log
unfolding log_basic_str log_text
log stamp call g =
    let r = log_basic_str stamp (level_of call) g in if r.0 then log_text call g.log_fd r.1 else r.1

-- `SetLogFile(pLogFile)`; `opened` is what `open` answers for a path.
unfoldable pub set_log_file : (List ℕ → Option ℕ) → Option (List ℕ) → Log → Bool × Log
set_log_file opened path g =
    let fd = opened (elim path [ none ↦ codes "logs/XiaoHG_error.log" | some p ↦ p ]) in
    (elim fd [ none ↦ false | some n ↦ true ], record g { log_fd = fd })

-- `SetLogLevel(logLevel)`.
unfoldable pub set_log_level : ℤ → Log → Log
set_log_level level g = record g { log_level = level }

-- `Init`, with the items of the configuration.
pub init_log : (List ℕ → Option ℕ) → List ConfItem → Log → Log
unfolding get_string get_int_default set_log_file set_log_level
init_log opened items g =
    (set_log_file opened (get_string items (codes "Log")) (
      set_log_level (get_int_default items (codes "LogLevel") (pos log_level_err))
        (record g { log_buff = replicate max_log_strlen 0 }))).1

-- ===== src/Examples/Logging.antt =====
-- Tests of the log.
use xiao_hg_server.Base.{
  ℕ, pos, ◌+◌, ◌<◌, ◌^◌, ◌≡◌, refl, false, List, some, [], arith, length, codes, replicate,
  length-replicate, ◌++◌,
}
use xiao_hg_server.Log.{
  Log, LogCall, log_plain, log, tag_of, text_of, basic_log_strlen, max_log_strlen,
}
use xiao_hg_server.Log.Bounds.{Ended, log-Ended}
use xiao_hg_server.Log.Lines.{LogEnds, NoZero, log-LogEnds}

abbrev error_log : Log
error_log = record {
  log_fd = some 5;
  log_level = pos 4;
  log_buff = [];
  log_str_len = 0;
  overrun = 0;
  written = [];
}

abbrev date : List ℕ
date = codes "2020/04/23"

abbrev short_call : LogCall
short_call = log_plain 4 (codes "no")

-- A text of 2100 characters.
abbrev long_call : LogCall
long_call = log_plain 4 (replicate 2100 97)

short_call-NoZero : NoZero ((date ++ tag_of short_call) ++ text_of short_call)
unfolding tag_of
short_call-NoZero = search

short_call-fits :
    (length date + length (tag_of short_call) < basic_log_strlen)
    × (length date + length (tag_of short_call) + length (text_of short_call) < max_log_strlen)
unfolding tag_of
short_call-fits = (omega arith, omega arith)

long_call-fits :
    (length date + length (tag_of long_call) < basic_log_strlen)
    × (length date + length (tag_of long_call) + length (text_of long_call) < 2 ^ 16)
unfolding tag_of
long_call-fits =
    let n : length (text_of long_call) ≡ 2100 = length-replicate {A = ℕ} 2100 97 in
    (omega arith, omega (arith, n))

log-LogEnds_example :
    LogEnds date short_call (some 5) false error_log (log date short_call error_log)
log-LogEnds_example =
    log-LogEnds date short_call error_log short_call-NoZero short_call-fits.0 short_call-fits.1

log-Ended_example :
    Ended
      (length date + length (tag_of long_call) + length (text_of long_call))
      error_log
      (log date long_call error_log)
log-Ended_example = log-Ended date long_call 5 error_log refl refl long_call-fits.0 long_call-fits.1

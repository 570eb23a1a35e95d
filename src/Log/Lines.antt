-- ===== src/Log/Lines.antt =====
-- app/XiaoHG_C_Log.cxx: what reaches the log file.
use xiao_hg_server.Base.{
  ℕ, zero, suc, pos, ltb_ℤ, ◌+◌, ◌-◌, ◌<◌, ◌≡◌, refl, ap, ap₂, ◌∙◌, Bool, true, false, List, [],
  ◌∷◌, ◌++◌, Option, none, some, arith, ◌==◌, length, take, write_at, length-append, take-append,
  All,
}
use xiao_hg_server.Conf.{c_str}
use xiao_hg_server.Log.Buffer.{
  zeros, write_behind, Holds, snprintf-Appended, size_left_within, basic_part, basic_part-Appended,
  log_by, log-kept,
}
use xiao_hg_server.Log.{
  Log, LogCall, max_log_strlen, basic_log_strlen, put, snprintf, size_left, target, write_log,
  level_of, text_of, tag_of, to_stderr, log,
}

abbrev pub line_end : List ℕ
line_end = 10 ∷ []

-- A text without zeros, in front of zeros.
abbrev pub NoZero : List ℕ → Type 0
NoZero = All (λ c. (c == 0) ≡ false)

c_str-zeros : (t : List ℕ) (n : ℕ) → NoZero t → 0 < n → c_str (t ++ zeros n) ≡ t
unfolding c_str
c_str-zeros [] zero h k = absurd (omega arith)
c_str-zeros [] (suc n) h k = refl
c_str-zeros (c ∷ t) n h k = rw (h.0) (ap (◌∷◌ c) (c_str-zeros t n h.1 k))

-- The end of the line, on the first zero of the buffer.
ended_line :
    (t : List ℕ) (h : Log)
    → Holds t h
    → NoZero t
    → length t < max_log_strlen
    → take (h.log_str_len + 1) (put (length (c_str h.log_buff)) (10 ∷ []) h).log_buff
      ≡ t ++ line_end
ended_line t h hold clean room =
    let behind : ℕ = max_log_strlen - (length t + length line_end) in
    let text : c_str h.log_buff ≡ t =
      ap c_str hold.text ∙ c_str-zeros t (max_log_strlen - length t) clean (omega arith) in
    let count : h.log_str_len + 1 ≡ length (t ++ line_end) =
      omega (arith, hold.size, length-append t line_end) in
    ap₂ (λ k s. take k (take max_log_strlen (write_at h.log_buff (length s) (10 ∷ [])))) count text
    ∙ ap
        (λ b. take (length (t ++ line_end)) (take max_log_strlen (write_at b (length t) (10 ∷ []))))
        hold.text
    ∙ ap (take (length (t ++ line_end))) (write_behind max_log_strlen t (10 ∷ []) (omega arith))
    ∙ take-append (t ++ line_end) (zeros behind)

write_log-line :
    (text t : List ℕ) (std : Bool) (fd : ℕ) (g : Log)
    → Holds t g
    → NoZero (t ++ text)
    → length t + length text < max_log_strlen
    → (write_log text std fd g).written
      ≡ record { fd = target std fd; bytes = (t ++ text) ++ (10 ∷ []); beyond = 0 } ∷ g.written
unfolding write_log
write_log-line text t std fd g h clean room =
    let left : size_left max_log_strlen g.log_str_len ≡ max_log_strlen - length t =
      ap (size_left max_log_strlen) h.size
      ∙ size_left_within max_log_strlen (length t) (omega arith) in
    let a =
      snprintf-Appended (size_left max_log_strlen g.log_str_len) text t g h (omega (arith, left))
        room in
    let all : length (t ++ text) < max_log_strlen = omega (arith, length-append t text) in
    let last : (snprintf (size_left max_log_strlen g.log_str_len) text g).log_str_len
          + 1
          - max_log_strlen
        ≡ 0 =
      omega (arith, a.holds.size) in
    ap₂ (λ (b : List ℕ) (m : ℕ). record { fd = target std fd; bytes = b; beyond = m } ∷ g.written)
      (ended_line (t ++ text) _ a.holds clean all) last

-- What a call leaves of the log, by the descriptor of the log and whether the level is too high.
abbrev pub LogEnds : List ℕ → LogCall → Option ℕ → Bool → Log → Log → Type 0
LogEnds stamp call none high g h = h.written ≡ g.written
LogEnds stamp call (some fd) true g h = h.written ≡ g.written
LogEnds stamp call (some fd) false g h =
    h.written
    ≡ record {
      fd = target (to_stderr call) fd;
      bytes = ((stamp ++ tag_of call) ++ text_of call) ++ line_end;
      beyond = 0;
    }
      ∷ g.written

module _ (stamp : List ℕ) (call : LogCall) (g : Log) where
  -- A line of a level that is kept.
  kept_line :
      (fd : ℕ)
      → g.log_fd ≡ some fd
      → ltb_ℤ g.log_level (pos (level_of call)) ≡ false
      → NoZero ((stamp ++ tag_of call) ++ text_of call)
      → length stamp + length (tag_of call) < basic_log_strlen
      → length stamp + length (tag_of call) + length (text_of call) < max_log_strlen
      → (log stamp call g).written
        ≡ record {
          fd = target (to_stderr call) fd;
          bytes = ((stamp ++ tag_of call) ++ text_of call) ++ line_end;
          beyond = 0;
        }
          ∷ g.written
  kept_line fd e f clean tag room =
      let a = basic_part-Appended stamp call g tag in
      ap (λ h. h.written) (log-kept stamp call g fd e f)
      ∙ write_log-line (text_of call) (stamp ++ tag_of call) (to_stderr call) fd
          (basic_part stamp call g) a.holds clean (omega (arith, length-append stamp (tag_of call)))
      ∙ ap
          (λ w.
            record {
              fd = target (to_stderr call) fd;
              bytes = ((stamp ++ tag_of call) ++ text_of call) ++ line_end;
              beyond = 0;
            }
            ∷ w)
          a.written

ends_by :
    (stamp : List ℕ) (call : LogCall) (g : Log) (o : Option ℕ) (high : Bool)
    → g.log_fd ≡ o
    → ltb_ℤ g.log_level (pos (level_of call)) ≡ high
    → NoZero ((stamp ++ tag_of call) ++ text_of call)
    → length stamp + length (tag_of call) < basic_log_strlen
    → length stamp + length (tag_of call) + length (text_of call) < max_log_strlen
    → LogEnds stamp call o high g (log stamp call g)
ends_by stamp call g none high e f clean tag room =
    ap (λ h. h.written) (log_by stamp call g none high e f)
ends_by stamp call g (some fd) true e f clean tag room =
    ap (λ h. h.written) (log_by stamp call g (some fd) true e f)
ends_by stamp call g (some fd) false e f clean tag room =
    kept_line stamp call g fd e f clean tag room

-- While the date and the tag have less than 512 characters, and with the text less than 2048, and
-- none of them is zero: a call of `Log` writes nothing when the log is not open or its level is
-- too high; else it writes the date, the tag and the text, in this order, and a line feed.
pub log-LogEnds :
    (stamp : List ℕ) (call : LogCall) (g : Log)
    → NoZero ((stamp ++ tag_of call) ++ text_of call)
    → length stamp + length (tag_of call) < basic_log_strlen
    → length stamp + length (tag_of call) + length (text_of call) < max_log_strlen
    → LogEnds stamp call g.log_fd (ltb_ℤ g.log_level (pos (level_of call))) g (log stamp call g)
log-LogEnds stamp call g clean tag room =
    ends_by stamp call g g.log_fd (ltb_ℤ g.log_level (pos (level_of call))) refl refl clean tag room

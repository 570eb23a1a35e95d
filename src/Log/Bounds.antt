-- ===== src/Log/Bounds.antt =====
-- app/XiaoHG_C_Log.cxx: reads and writes at the end of the buffer.
use xiao_hg_server.Base.{
  ℕ, zero, suc, pos, ltb_ℤ, ◌+◌, ◌-◌, ◌^◌, ◌≤◌, ◌<◌, ◌≡◌, refl, sym, ap, ap₂, subst, ◌∙◌, Bool,
  false, List, [], ◌∷◌, ◌++◌, some, arith, ◌==◌, length, take, write_at, length-append,
  append_assoc, if_false, ne→eq-false,
}
use xiao_hg_server.Conf.{c_str}
use xiao_hg_server.Log.Buffer.{
  zeros, write_behind, Holds, size_left_within, basic_part, basic_part-Appended, log-kept,
}
use xiao_hg_server.Log.{
  Log, Written, LogCall, max_log_strlen, basic_log_strlen, stored, snprintf, size_left, write_log,
  level_of, text_of, tag_of, to_stderr, log,
}

length-c_str_zero : (t rest : List ℕ) → length (c_str (t ++ (0 ∷ rest))) ≤ length t
unfolding c_str
length-c_str_zero [] rest = omega arith
length-c_str_zero (c ∷ t) rest = ground (arith, length-c_str_zero t rest)

length-take_le : (n : ℕ) (s : List ℕ) → length (take n s) ≤ n
length-take_le zero s = omega arith
length-take_le (suc n) [] = omega arith
length-take_le (suc n) (c ∷ s) = omega (arith, length-take_le n s)

abbrev zero_end : List ℕ
zero_end = 0 ∷ []

-- What `vsnprintf` leaves of the room behind a text has a zero in it.
length-c_str-stored :
    (most n : ℕ) (t text : List ℕ)
    → length t < most
    → n ≡ most - length t
    → (length t + length (stored n text) ≤ most)
      × (length
            (c_str (take most (write_at (t ++ zeros (most - length t)) (length t) (stored n text))))
          < most)
length-c_str-stored most n t text h e =
    let cut : List ℕ = take (n - 1) text in
    let short : length cut ≤ n - 1 = length-take_le (n - 1) text in
    let is : stored n text ≡ cut ++ zero_end =
      if_false (n == 0) [] (cut ++ zero_end) (ne→eq-false n 0 (omega arith)) in
    let fits : length t + length (cut ++ zero_end) ≤ most =
      omega (arith, length-append cut zero_end) in
    let rest : List ℕ = zeros (most - (length t + length (cut ++ zero_end))) in
    let buff : take most (write_at (t ++ zeros (most - length t)) (length t) (stored n text))
        ≡ (t ++ cut) ++ (0 ∷ rest) =
      ap (λ z. take most (write_at (t ++ zeros (most - length t)) (length t) z)) is
      ∙ write_behind most t (cut ++ zero_end) fits
      ∙ ap (λ z. z ++ rest) (sym (append_assoc t cut zero_end))
      ∙ append_assoc (t ++ cut) zero_end rest in
    (
      omega (arith, fits, ap length is),
      omega (
        arith,
        ap (λ b. length (c_str b)) buff,
        length-c_str_zero (t ++ cut) rest,
        length-append t cut,
      ),
    )

-- A call of `write_log` behind a text: what it counts.
pub record Ended (total : ℕ) (g h : Log) : Type 0 where
  pub line : Written
  pub lines : h.written ≡ line ∷ g.written
  pub beyond : line.beyond ≡ total + 1 - max_log_strlen
  pub overrun : h.overrun ≡ g.overrun

write_log-Ended :
    (text t : List ℕ) (std : Bool) (fd : ℕ) (g : Log)
    → Holds t g
    → length t < max_log_strlen
    → length t + length text < 2 ^ 16
    → Ended (length t + length text) g (write_log text std fd g)
unfolding write_log snprintf
write_log-Ended text t std fd g h room total =
    let n : ℕ = size_left max_log_strlen g.log_str_len in
    let left : n ≡ max_log_strlen - length t =
      ap (size_left max_log_strlen) h.size
      ∙ size_left_within max_log_strlen (length t) (omega arith) in
    let (fits, ends) = length-c_str-stored max_log_strlen n t text room left in
    let same : take max_log_strlen
          (write_at (t ++ zeros (max_log_strlen - length t)) (length t) (stored n text))
        ≡ take max_log_strlen (write_at g.log_buff g.log_str_len (stored n text)) =
      ap₂ (λ b k. take max_log_strlen (write_at b k (stored n text))) (sym h.text) (sym h.size) in
    record {
      line = _;
      lines = refl;
      beyond = omega (arith, h.size);
      overrun = omega (arith, h.size, ap (λ b. length (c_str b)) same);
    }

-- While the date and the tag have less than 512 characters, and with the text less than 2 ^ 16: a
-- call of `Log` whose level is kept writes nothing behind the end of the buffer, and hands over to
-- `write` as many bytes from behind its end as the line with its line feed has above 2048.
pub log-Ended :
    (stamp : List ℕ) (call : LogCall) (fd : ℕ) (g : Log)
    → g.log_fd ≡ some fd
    → ltb_ℤ g.log_level (pos (level_of call)) ≡ false
    → length stamp + length (tag_of call) < basic_log_strlen
    → length stamp + length (tag_of call) + length (text_of call) < 2 ^ 16
    → Ended (length stamp + length (tag_of call) + length (text_of call)) g (log stamp call g)
log-Ended stamp call fd g e f tag total =
    let a = basic_part-Appended stamp call g tag in
    let n = length-append stamp (tag_of call) in
    let w =
      write_log-Ended (text_of call) (stamp ++ tag_of call) (to_stderr call) fd
        (basic_part stamp call g) a.holds (omega (arith, n)) (omega (arith, n)) in
    subst (Ended _ g) (sym (log-kept stamp call g fd e f)) (record {
      line = w.line;
      lines = w.lines ∙ ap (◌∷◌ w.line) a.written;
      beyond = omega (arith, w.beyond, n);
      overrun = w.overrun ∙ a.overrun;
    })

-- ===== src/Log/Buffer.antt =====
-- app/XiaoHG_C_Log.cxx: the buffer of a line, and the branches of `Log`.
use xiao_hg_server.Base.{
  ℕ, zero, suc, pos, ltb_ℤ, ◌+◌, ◌-◌, ◌≤◌, ◌<◌, ◌≡◌, refl, sym, ap, ap₂, ◌∙◌, Bool, true, false,
  List, [], ◌∷◌, ◌++◌, Option, none, some, arith, if◌then◌else◌, leb, ◌==◌, length, take, drop,
  replicate, write_at, length-append, length-replicate, append_assoc, write_at_append, take_more,
  if_true, if_false, ne→eq-false, le→leb,
}
use xiao_hg_server.Log.{
  Log, LogCall, max_log_strlen, basic_log_strlen, stored, snprintf, size_left, empty_line,
  log_basic_str, write_log, level_of, text_of, tag_of, to_stderr, log_text, log,
}

abbrev pub zeros : ℕ → List ℕ
zeros n = replicate n 0

pub length-zeros : (n : ℕ) → length (zeros n) ≡ n
length-zeros n = length-replicate n 0

pub drop-replicate : (m n : ℕ) → drop m (zeros n) ≡ zeros (n - m)
drop-replicate zero n = let k : n ≡ n - 0 = omega arith in ap zeros k
drop-replicate (suc m) zero = let k : 0 ≡ 0 - suc m = omega arith in ap zeros k
drop-replicate (suc m) (suc n) =
    let k : n - m ≡ suc n - suc m = omega arith in drop-replicate m n ∙ ap zeros k

-- A write behind a text in a buffer of zeros.
pub write_behind :
    (most : ℕ) (t bs : List ℕ)
    → length t + length bs ≤ most
    → take most (write_at (t ++ zeros (most - length t)) (length t) bs)
      ≡ (t ++ bs) ++ zeros (most - (length t + length bs))
write_behind most t bs h =
    let rest : List ℕ = zeros (most - (length t + length bs)) in
    let tail : zeros (most - length t - length bs) ≡ rest = ap zeros (omega arith) in
    let size : length ((t ++ bs) ++ rest) ≤ most = omega (
      arith,
      length-append (t ++ bs) rest,
      length-append t bs,
      length-zeros (most - (length t + length bs)),
    ) in
    ap (take most) (
      write_at_append t (zeros (most - length t)) bs
      ∙ ap (λ z. t ++ (bs ++ z)) (drop-replicate (length bs) (most - length t) ∙ tail)
      ∙ sym (append_assoc t bs rest))
    ∙ take_more most ((t ++ bs) ++ rest) size

-- The buffer holds a text and zeros.
pub record Holds (t : List ℕ) (g : Log) : Type 0 where
  pub text : g.log_buff ≡ t ++ zeros (max_log_strlen - length t)
  pub size : g.log_str_len ≡ length t

-- The terminating zero is one of the zeros of the buffer.
with_zero :
    (most : ℕ) (t bs : List ℕ)
    → length t + length bs < most
    → (t ++ (bs ++ (0 ∷ []))) ++ zeros (most - (length t + length (bs ++ (0 ∷ []))))
      ≡ (t ++ bs) ++ zeros (most - length (t ++ bs))
with_zero most t bs h =
    let k : ℕ = most - (length t + length (bs ++ (0 ∷ []))) in
    let n : suc k ≡ most - length (t ++ bs) =
      omega (arith, length-append t bs, length-append bs (0 ∷ [])) in
    ap (λ z. z ++ zeros k) (sym (append_assoc t bs (0 ∷ [])))
    ∙ append_assoc (t ++ bs) (0 ∷ []) (zeros k)
    ∙ ap (λ m. (t ++ bs) ++ zeros m) n

stored_whole : (size : ℕ) (text : List ℕ) → length text < size → stored size text ≡ text ++ (0 ∷ [])
stored_whole size text h =
    if_false (size == 0) _ _ (ne→eq-false size 0 (omega arith))
    ∙ ap (λ z. z ++ (0 ∷ [])) (take_more (size - 1) text (omega arith))

pub record Appended (t : List ℕ) (g h : Log) : Type 0 where
  pub holds : Holds t h
  pub overrun : h.overrun ≡ g.overrun
  pub written : h.written ≡ g.written
  pub log_fd : h.log_fd ≡ g.log_fd

pub snprintf-Appended :
    (size : ℕ) (text t : List ℕ) (g : Log)
    → Holds t g
    → length text < size
    → length t + length text < max_log_strlen
    → Appended (t ++ text) g (snprintf size text g)
unfolding snprintf
snprintf-Appended size text t g h small room =
    let whole = stored_whole size text small in
    let n : length (text ++ (0 ∷ [])) ≡ suc (length text) =
      omega (arith, length-append text (0 ∷ [])) in
    record {
      holds = record {
        text =
            ap₂ (λ b k. take max_log_strlen (write_at b k (stored size text))) h.text h.size
            ∙ ap
                (λ z.
                  take max_log_strlen
                    (write_at (t ++ zeros (max_log_strlen - length t)) (length t) z))
                whole
            ∙ write_behind max_log_strlen t (text ++ (0 ∷ [])) (omega (arith, n))
            ∙ with_zero max_log_strlen t text room;
        size = omega (arith, h.size, length-append t text);
      };
      overrun = omega (arith, h.size, n, ap length whole);
      written = refl;
      log_fd = refl;
    }

pub size_left_within : (most n : ℕ) → n ≤ most → size_left most n ≡ most - n
size_left_within most n h = if_true (leb n most) _ _ (le→leb n most h)

empty_line-Holds : (g : Log) → Holds [] (empty_line g)
empty_line-Holds g = record { text = refl; size = refl }

-- The date and the tag, in the buffer.
abbrev pub basic_part : List ℕ → LogCall → Log → Log
basic_part stamp call g =
    let h = snprintf basic_log_strlen stamp (empty_line g) in
    snprintf (size_left basic_log_strlen h.log_str_len) (tag_of call) h

pub basic_part-Appended :
    (stamp : List ℕ) (call : LogCall) (g : Log)
    → length stamp + length (tag_of call) < basic_log_strlen
    → Appended (stamp ++ tag_of call) g (basic_part stamp call g)
basic_part-Appended stamp call g room =
    let a =
      snprintf-Appended basic_log_strlen stamp [] (empty_line g) (empty_line-Holds g) (omega arith)
        (omega arith) in
    let h : Log = snprintf basic_log_strlen stamp (empty_line g) in
    let left : size_left basic_log_strlen h.log_str_len ≡ basic_log_strlen - length stamp =
      ap (size_left basic_log_strlen) a.holds.size
      ∙ size_left_within basic_log_strlen (length stamp) (omega arith) in
    let b =
      snprintf-Appended (size_left basic_log_strlen h.log_str_len) (tag_of call) stamp h a.holds
        (omega (arith, left)) (omega arith) in
    record {
      holds = b.holds;
      overrun = b.overrun ∙ a.overrun;
      written = b.written ∙ a.written;
      log_fd = b.log_fd ∙ a.log_fd;
    }

module _ (stamp : List ℕ) (call : LogCall) (g : Log) where
  abbrev pub after_basic : Bool × Log → Log
  after_basic r = if r.0 then log_text call g.log_fd r.1 else r.1

  -- `LogBasicStr` by its tests.
  abbrev pub basic_by : Option ℕ → Bool → Bool × Log
  basic_by o high = elim o [
    | none ↦ (false, empty_line g)
    | some fd ↦
        if high
        then (false, empty_line g)
        else (true, snprintf basic_log_strlen stamp (empty_line g))
  ]

  pub log_by :
      (o : Option ℕ) (high : Bool)
      → g.log_fd ≡ o
      → ltb_ℤ g.log_level (pos (level_of call)) ≡ high
      → log stamp call g ≡ after_basic (basic_by o high)
  unfolding log log_basic_str
  log_by o high e f = ap₂ (λ a b. after_basic (basic_by a b)) e f

  pub log-kept :
      (fd : ℕ)
      → g.log_fd ≡ some fd
      → ltb_ℤ g.log_level (pos (level_of call)) ≡ false
      → log stamp call g ≡ write_log (text_of call) (to_stderr call) fd (basic_part stamp call g)
  unfolding log_text
  log-kept fd e f =
      log_by (some fd) false e f
      ∙ ap (λ o. log_text call o (snprintf basic_log_strlen stamp (empty_line g))) e

-- ===== src/Pool/Recovery.antt =====
-- net/XiaoHG_C_SocketConn.cxx, `DelayRecoveryConnectionThread`: which connections a round gives back.
use xiao_hg_server.Base.{
  ℕ, zero, suc, pos, inc, dec, ltb_ℤ, ◌+◌, ◌<◌, ◌≡◌, refl, sym, ap, ap₂, ◌∙◌, inl, inr, Bool, false,
  not, List, [], ◌∷◌, ◌++◌, Option, none, some, arith, if◌then◌else◌, ltb, length, if_true,
  if_false, Bool-cases, append_assoc, append-nil, length-append, update, update_keeps,
}
use xiao_hg_server.Server.{Socket, Server}
use xiao_hg_server.Pool.{
  free_connection, put_one_to_free, is_due, first_due, recover_one, recover_loop,
  delay_recovery_pass,
}

-- The connections of a queue that pass a test, and those that do not, in their order.
abbrev pub passing : (ℕ → Bool) → List ℕ → List ℕ
passing p [] = []
passing p (c ∷ cs) = if p c then c ∷ passing p cs else passing p cs

abbrev pub failing : (ℕ → Bool) → List ℕ → List ℕ
failing p [] = []
failing p (c ∷ cs) = if p c then failing p cs else c ∷ failing p cs

passing_ext : (p q : ℕ → Bool) (cs : List ℕ) → ((c : ℕ) → p c ≡ q c) → passing p cs ≡ passing q cs
passing_ext p q [] e = refl
passing_ext p q (c ∷ cs) e = rw (e c, passing_ext p q cs e) refl

failing_ext : (p q : ℕ → Bool) (cs : List ℕ) → ((c : ℕ) → p c ≡ q c) → failing p cs ≡ failing q cs
failing_ext p q [] e = refl
failing_ext p q (c ∷ cs) e = rw (e c, failing_ext p q cs e) refl

-- What `first_due` finds.
data Found (p : ℕ → Bool) (cs : List ℕ) (r : Option (ℕ × List ℕ)) : Type 0 where
  no_due : r ≡ none → passing p cs ≡ [] → failing p cs ≡ cs → Found p cs r
  a_due :
      (c : ℕ) (rest : List ℕ)
      → r ≡ some (c, rest)
      → passing p cs ≡ c ∷ passing p rest
      → failing p cs ≡ failing p rest
      → length cs ≡ suc (length rest)
      → Found p cs r

first_due-Found :
    (now : ℕ) (s : Socket) (cs : List ℕ) → Found (is_due now s) cs (first_due now s cs)
unfolding first_due
first_due-Found now s [] = no_due refl refl refl
first_due-Found now s (c ∷ cs) = elim (Bool-cases (is_due now s c)) [
  | inl e ↦ rw e (a_due c cs refl (rw e refl) (rw e refl) refl)
  | inr e ↦ rw e (behind e (first_due-Found now s cs))
]
  where
    behind :
        is_due now s c ≡ false
        → Found (is_due now s) cs (first_due now s cs)
        → Found
            (is_due now s)
            (c ∷ cs)
            (elim (first_due now s cs) [ none ↦ none | some (d, r) ↦ some (d, c ∷ r) ])
    behind e (no_due r p f) = no_due (rw r refl) (rw e p) (rw e (ap (◌∷◌ c) f))
    behind e (a_due d rest r p f l) =
        a_due d (c ∷ rest) (rw r refl) (rw e p) (rw e (ap (◌∷◌ c) f)) (ap suc l)

-- What giving one connection back does to the lists, and that it leaves the others' waits.
record Recovered (now c : ℕ) (rest : List ℕ) (s t : Server) : Type 0 where
  queue : t.socket.recy_connection_list ≡ rest
  free : t.socket.free_connection_list ≡ s.socket.free_connection_list ++ (c ∷ [])
  delayed : t.socket.delay_recovery_connection_count ≡ dec s.socket.delay_recovery_connection_count
  counted : t.socket.free_connection_count ≡ inc s.socket.free_connection_count
  waits : (j : ℕ) → is_due now t.socket j ≡ is_due now s.socket j

recover_one-Recovered :
    (now c : ℕ) (rest : List ℕ) (s : Server) → Recovered now c rest s (recover_one c rest s)
unfolding recover_one free_connection put_one_to_free
recover_one-Recovered now c rest s = record {
  queue = refl;
  free = refl;
  delayed = refl;
  counted = refl;
  waits = λ j.
      ap (λ n. not (ltb now (n + s.socket.delay_recovery_connection_wait_time)))
        (update_keeps (λ x. x.put_recy_conn_queue_time) (update s.socket.conn c _) c _ j refl
          ∙ update_keeps (λ x. x.put_recy_conn_queue_time) s.socket.conn c _ j refl);
}

-- A round's work on the lists: those that are due go to the free list, in their order.
pub record Recovers (now : ℕ) (s t : Server) : Type 0 where
  pub queue :
      t.socket.recy_connection_list ≡ failing (is_due now s.socket) s.socket.recy_connection_list
  pub free :
      t.socket.free_connection_list
      ≡ s.socket.free_connection_list ++ passing (is_due now s.socket) s.socket.recy_connection_list
  pub delayed :
      t.socket.delay_recovery_connection_count ≡ pos (length t.socket.recy_connection_list)
  pub counted : t.socket.free_connection_count ≡ pos (length t.socket.free_connection_list)

loop_step :
    (fuel now c : ℕ) (rest : List ℕ) (s : Server)
    → first_due now s.socket s.socket.recy_connection_list ≡ some (c, rest)
    → recover_loop (suc fuel) now s ≡ recover_loop fuel now (recover_one c rest s)
unfolding recover_loop
loop_step fuel now c rest s e = rw (e, recover_loop) refl

recover_loop-Recovers :
    (fuel now : ℕ) (s : Server)
    → length s.socket.recy_connection_list < fuel
    → s.socket.delay_recovery_connection_count ≡ pos (length s.socket.recy_connection_list)
    → s.socket.free_connection_count ≡ pos (length s.socket.free_connection_list)
    → Recovers now s (recover_loop fuel now s)
unfolding recover_loop
recover_loop-Recovers zero now s f d n = absurd (omega arith)
recover_loop-Recovers (suc fuel) now s f d n =
    elim (first_due-Found now s.socket s.socket.recy_connection_list) [
      | no_due r p k ↦
          rw (r, recover_loop)
            (record {
              queue = sym k;
              free =
                  sym (append-nil s.socket.free_connection_list)
                  ∙ ap (λ l. s.socket.free_connection_list ++ l) (sym p);
              delayed = d;
              counted = n;
            })
      | a_due c rest r p k l ↦
          let t : Server = recover_one c rest s in
          let h = recover_one-Recovered now c rest s in
          let d' : t.socket.delay_recovery_connection_count
              ≡ pos (length t.socket.recy_connection_list) =
            h.delayed ∙ ap dec (d ∙ ap pos l) ∙ ap (λ q. pos (length q)) (sym h.queue) in
          let n' : t.socket.free_connection_count ≡ pos (length t.socket.free_connection_list) =
            h.counted
            ∙ ap inc n
            ∙ ap pos (omega (arith, length-append s.socket.free_connection_list (c ∷ [])))
            ∙ ap (λ q. pos (length q)) (sym h.free) in
          let i : Recovers now t (recover_loop fuel now t) =
            recover_loop-Recovers fuel now t (omega (arith, l, ap length h.queue)) d' n' in
          let kept : failing (is_due now t.socket) t.socket.recy_connection_list
              ≡ failing (is_due now s.socket) s.socket.recy_connection_list =
            ap (failing (is_due now t.socket)) h.queue
            ∙ failing_ext (is_due now t.socket) (is_due now s.socket) rest h.waits
            ∙ sym k in
          let given : passing (is_due now t.socket) t.socket.recy_connection_list
              ≡ passing (is_due now s.socket) rest =
            ap (passing (is_due now t.socket)) h.queue
            ∙ passing_ext (is_due now t.socket) (is_due now s.socket) rest h.waits in
          rw (loop_step fuel now c rest s r) (record {
            queue = i.queue ∙ kept;
            free =
                i.free
                ∙ ap₂ (λ a b. a ++ b) h.free given
                ∙ append_assoc s.socket.free_connection_list (c ∷ [])
                    (passing (is_due now s.socket) rest)
                ∙ ap (λ q. s.socket.free_connection_list ++ q) (sym p);
            delayed = i.delayed;
            counted = i.counted;
          })
    ]

nothing_waits :
    (now : ℕ) (s : Server) (q : List ℕ)
    → s.socket.recy_connection_list ≡ q
    → ltb 0 (length q) ≡ false
    → s.socket.delay_recovery_connection_count ≡ pos (length s.socket.recy_connection_list)
    → s.socket.free_connection_count ≡ pos (length s.socket.free_connection_list)
    → Recovers now s s
nothing_waits now s (x ∷ q) e none_left d n = absurd (ground arith)
nothing_waits now s [] e none_left d n = record {
  queue = rw e refl;
  free = rw e (sym (append-nil s.socket.free_connection_list));
  delayed = d;
  counted = n;
}

-- While both lists are counted, a round of `DelayRecoveryConnectionThread` ends, appends to the
-- free list exactly those connections of the recycling queue whose wait is over, in their order,
-- leaves the others in the queue in theirs, and keeps both lists counted.
pub delay_recovery_pass-Recovers :
    (now : ℕ) (s : Server)
    → s.socket.delay_recovery_connection_count ≡ pos (length s.socket.recy_connection_list)
    → s.socket.free_connection_count ≡ pos (length s.socket.free_connection_list)
    → Recovers now s (delay_recovery_pass now s)
unfolding delay_recovery_pass
delay_recovery_pass-Recovers now s d n =
    elim (Bool-cases (ltb_ℤ (pos 0) s.socket.delay_recovery_connection_count)) [
      | inl e ↦
          rw (if_true _ (recover_loop (suc (length s.socket.recy_connection_list)) now s) s e) (
            recover_loop-Recovers (suc (length s.socket.recy_connection_list)) now s (omega arith) d
              n)
      | inr e ↦
          rw (if_false _ (recover_loop (suc (length s.socket.recy_connection_list)) now s) s e) (
            nothing_waits now s s.socket.recy_connection_list refl (ap (ltb_ℤ (pos 0)) (sym d) ∙ e)
              d n)
    ]

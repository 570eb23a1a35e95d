-- ===== src/Threads/Alerts.antt =====
-- misc/XiaoHG_C_ThreadPool.cxx: how often the log is told that there are not enough threads.
use xiao_hg_server.Base.{
  ℕ, ◌+◌, ◌-◌, ◌<◌, ◌≡◌, ◌∙◌, refl, sym, subst, inl, inr, Bool, true, false, List, [], ◌∷◌, ◌++◌,
  arith, ltb→lt, Bool-cases, if_true, if_false, eq_ℤ, inc,
}
use xiao_hg_server.Threads.{
  ThreadPool, alerting, call_recv_msg_handle_thread, push_recv_msg_to_recv_list_and_cond,
}

-- One call of `PushRecvMsgToRecvListAndCond`, with its time and the answers to it.
pub record Call : Type 0 where
  pub now : ℕ
  pub locked : Bool
  pub unlocked : Bool
  pub signalled : Bool
  pub message : ℕ

abbrev pub push : Call → ThreadPool → ThreadPool
push c p = push_recv_msg_to_recv_list_and_cond c.now c.locked c.unlocked c.signalled c.message p

abbrev pub push_all : List Call → ThreadPool → ThreadPool
push_all [] p = p
push_all (c ∷ cs) p = push_all cs (push c p)

-- Times, the last one first, each more than ten seconds behind the one before it.
abbrev pub Spaced : List ℕ → Type 0
Spaced [] = Unit
Spaced (t ∷ []) = Unit
Spaced (t ∷ u ∷ l) = (u + 10 < t) × Spaced (u ∷ l)

-- The alerts are spaced, and the last one is remembered.
pub record IsCalm (p : ThreadPool) : Type 0 where
  pub spaced : Spaced p.alerts
  pub remembered : (u : ℕ) (l : List ℕ) → p.alerts ≡ u ∷ l → u ≡ p.last_alart_not_enough_thread_time

-- A new alert in front of the others.
Spaced-cons :
    (now last : ℕ) (l : List ℕ)
    → 10 < now - last
    → ((u : ℕ) (r : List ℕ) → l ≡ u ∷ r → u ≡ last)
    → Spaced l
    → Spaced (now ∷ l)
Spaced-cons now last [] late h s = tt
Spaced-cons now last (u ∷ r) late h s = (omega (arith, h u r refl), s)

alerting-late :
    (now : ℕ) (p : ThreadPool)
    → alerting now p ≡ true
    → 10 < now - p.last_alart_not_enough_thread_time
alerting-late now p h = elim (Bool-cases (eq_ℤ p.thread_num p.running_thread_count)) [
  | inl e ↦ ltb→lt 10 (now - p.last_alart_not_enough_thread_time) (sym (if_true _ _ _ e) ∙ h)
  | inr e ↦ let no : false ≡ true = sym (if_false _ _ _ e) ∙ h in cc
]

call-IsCalm :
    (now : ℕ) (signalled : Bool) (p : ThreadPool)
    → IsCalm p
    → IsCalm (call_recv_msg_handle_thread now signalled p)
unfolding call_recv_msg_handle_thread
call-IsCalm now false p h = h
call-IsCalm now true p h = elim (Bool-cases (alerting now p)) [
  | inl e ↦ subst IsCalm (sym (if_true (alerting now p) _ p e)) (record {
    spaced =
        Spaced-cons now p.last_alart_not_enough_thread_time p.alerts (alerting-late now p e)
          h.remembered h.spaced;
    remembered = λ u l r. cc;
  })
  | inr e ↦ subst IsCalm (sym (if_false (alerting now p) _ p e)) h
]

push-IsCalm : (c : Call) (p : ThreadPool) → IsCalm p → IsCalm (push c p)
unfolding push_recv_msg_to_recv_list_and_cond
push-IsCalm c p h = elim (Bool-cases c.locked) [
  | inr e ↦ rw e h
  | inl e ↦
      let q : ThreadPool = record p {
        msg_recv_queue = p.msg_recv_queue ++ (c.message ∷ []);
        recv_msg_queue_count = inc p.recv_msg_queue_count;
      } in
      let calm : IsCalm q = record { spaced = h.spaced; remembered = h.remembered } in
      elim (Bool-cases c.unlocked) [
        | inr f ↦ rw (e, f) calm
        | inl f ↦ rw (e, f) (call-IsCalm c.now c.signalled q calm)
      ]
]

-- Whatever the times of the calls and the answers to them: the log is told at most once in more than
-- ten seconds that there are not enough threads.
pub push_all-IsCalm : (cs : List Call) (p : ThreadPool) → IsCalm p → IsCalm (push_all cs p)
push_all-IsCalm [] p h = h
push_all-IsCalm (c ∷ cs) p h = push_all-IsCalm cs (push c p) (push-IsCalm c p h)

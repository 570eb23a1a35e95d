-- ===== src/Send/Push.antt =====
-- app/XiaoHG_C_MessageCtl.cxx, `PushSendMsgToSendListAndSem`: every branch of it.
use xiao_hg_server.Base.{
  ℕ, suc, pos, ltb_ℤ, ◌+◌, ◌-◌, ◌^◌, ◌<◌, ◌≡◌, refl, sym, subst, ap, ◌∙◌, inl, inr, Bool, true,
  false, ◌||◌, [], ◌∷◌, ◌++◌, Option, none, some, Outcome, done, arith, ◌>>=◌, ltb, ◌==◌, add32,
  if_true, if_false, Bool-cases, ne→eq-false, update_self,
}
use xiao_hg_server.Comm.{max_sendqueue_count, max_eachconn_sendcount}
use xiao_hg_server.Memory.{Message, Memory, free_memory}
use xiao_hg_server.Pool.Closing.{close_connection_to_recy_returns}
use xiao_hg_server.Send.{
  fault, used, discarded, queue_check, backlog_check, enqueue, sem_post,
  push_send_msg_to_send_list_and_sem,
}
use xiao_hg_server.Server.{Server, MessageCtl, conn_of}
use xiao_hg_server.Timer.Insert.{IsTimed}

free_live :
    (a : ℕ) (m : Memory) (b : Message)
    → ¬ (a ≡ 0)
    → m.block a ≡ some b
    → ((free_memory a m).block a ≡ none) × ((free_memory a m).faults ≡ m.faults)
unfolding free_memory
free_live a m b live e =
    let shut = ne→eq-false a 0 live in rw (shut, e, free_memory) (update_self m.block a none, refl)

free_dead :
    (a : ℕ) (m : Memory)
    → ¬ (a ≡ 0)
    → m.block a ≡ none
    → ((free_memory a m).block a ≡ none) × ((free_memory a m).faults ≡ suc m.faults)
unfolding free_memory
free_dead a m live e = let shut = ne→eq-false a 0 live in rw (shut, e, free_memory) (e, refl)

-- The lists and the semaphore, which the two checks leave alone.
record SameQueue (s t : MessageCtl) : Type 0 where
  list : t.send_msg_list ≡ s.send_msg_list
  size : t.send_msg_list_size ≡ s.send_msg_list_size
  sem : t.send_sem ≡ s.send_sem

abbrev pub is_full : Server → Bool
is_full s = ltb max_sendqueue_count s.message.send_msg_list_size

abbrev pub is_backlogged : Server → ℕ → Bool
is_backlogged s c = ltb_ℤ (pos max_eachconn_sendcount) (conn_of s c).send_msg_list_count

-- The first check: the message is whole, or it is gone and was used after that.
data First (a : ℕ) (s t : Server) : Type 0 where
  passes : is_full s ≡ false → t ≡ s → First a s t
  dies :
      is_full s ≡ true
      → SameQueue s.message t.message
      → t.socket ≡ s.socket
      → t.memory.block a ≡ none
      → t.memory.faults ≡ suc s.memory.faults
      → First a s t

used_dead : (a : ℕ) (s : Server) → s.memory.block a ≡ none → used a s ≡ fault s
used_dead a s e = use_of (s.memory.block a) e
  where
    use_of : (r : Option Message) → r ≡ none → (elim r [ none ↦ fault s | some b ↦ s ]) ≡ fault s
    use_of none h = refl
    use_of (some b) h = cc

used_live : (a : ℕ) (b : Message) (s : Server) → s.memory.block a ≡ some b → used a s ≡ s
used_live a b s e = use_of (s.memory.block a) e
  where
    use_of : (r : Option Message) → r ≡ some b → (elim r [ none ↦ fault s | some b ↦ s ]) ≡ s
    use_of none h = cc
    use_of (some b) h = refl

queue_check-First :
    (a : ℕ) (b : Message) (s : Server)
    → ¬ (a ≡ 0)
    → s.memory.block a ≡ some b
    → First a s (used a (queue_check a s))
unfolding queue_check
queue_check-First a b s live e = elim (Bool-cases (is_full s)) [
  | inl f ↦
      let (dead, same) = free_live a s.memory b live e in
      let reads =
        ap (used a) (if_true (is_full s) (discarded a s) s f) ∙ used_dead a (discarded a s) dead in
      subst (First a s) (sym reads)
        (dies f (record { list = refl; size = refl; sem = refl }) refl dead (ap suc same))
  | inr f ↦ passes f (ap (used a) (if_false (is_full s) (discarded a s) s f) ∙ used_live a b s e)
]

-- The second check: nothing happens, or the message is gone and the connection is closed.
data Second (a c : ℕ) (s : Server) (o : Outcome Server) : Type 0 where
  short : is_backlogged s c ≡ false → o ≡ done s → Second a c s o
  cut :
      (t : Server)
      → is_backlogged s c ≡ true
      → o ≡ done t
      → SameQueue s.message t.message
      → t.memory ≡ free_memory a s.memory
      → Second a c s o

backlog_check-Second :
    (now a c : ℕ) (s : Server)
    → IsTimed s.socket
    → s.socket.time_queue_mutex ≡ false
    → Second a c s (backlog_check now a c s)
unfolding backlog_check
backlog_check-Second now a c s timed free = elim (Bool-cases (is_backlogged s c)) [
  | inl f ↦
      let (t, r, m, y) = close_connection_to_recy_returns now c (discarded a s) timed free in
      cut t f (if_true (is_backlogged s c) _ (done s) f ∙ r)
        (record {
          list = ap (λ q. q.send_msg_list) m;
          size = ap (λ q. q.send_msg_list_size) m;
          sem = ap (λ q. q.send_sem) m;
        })
        y
  | inr f ↦ short f (if_false (is_backlogged s c) _ (done s) f)
]

-- What a call does to the list, the semaphore, and the block at the message's address.
pub record Pushed (a c : ℕ) (s : Server) (o : Outcome Server) : Type 0 where
  pub after : Server
  pub returns : o ≡ done after
  pub list : after.message.send_msg_list ≡ s.message.send_msg_list ++ (a ∷ [])
  pub size : after.message.send_msg_list_size ≡ add32 s.message.send_msg_list_size 1
  pub sem : after.message.send_sem ≡ s.message.send_sem + 1
  pub whole : is_full s || is_backlogged s c ≡ false → after.memory ≡ s.memory
  pub gone : is_full s || is_backlogged s c ≡ true → after.memory.block a ≡ none
  pub misused : is_full s ≡ true → s.memory.faults < after.memory.faults

finish :
    (a c : ℕ) (s t : Server)
    → SameQueue s.message t.message
    → (s.message.send_sem == 2 ^ 31 - 1) ≡ false
    → (is_full s || is_backlogged s c ≡ false → t.memory ≡ s.memory)
    → (is_full s || is_backlogged s c ≡ true → t.memory.block a ≡ none)
    → (is_full s ≡ true → s.memory.faults < t.memory.faults)
    → Pushed a c s (sem_post (enqueue a c t))
unfolding sem_post enqueue
finish a c s t q room whole gone misused = record {
  after = _;
  returns = if_false _ _ _ (ap (λ n. n == 2 ^ 31 - 1) q.sem ∙ room);
  list = ap (λ l. l ++ (a ∷ [])) q.list;
  size = ap (λ n. add32 n 1) q.size;
  sem = ap (λ n. n + 1) q.sem;
  whole = whole;
  gone = gone;
  misused = misused;
}

same_queue : (s : Server) → SameQueue s.message s.message
same_queue s = record { list = refl; size = refl; sem = refl }

-- The message passed the first check.
push_room :
    (now a : ℕ) (b : Message) (s : Server)
    → ¬ (a ≡ 0)
    → s.memory.block a ≡ some b
    → (s.message.send_sem == 2 ^ 31 - 1) ≡ false
    → is_full s ≡ false
    → Second a b.conn s (backlog_check now a b.conn s)
    → Pushed a b.conn s (backlog_check now a b.conn s >>= (λ t. sem_post (enqueue a b.conn t)))
push_room now a b s live e room f (short k o) = rw o (
    finish a b.conn s s (same_queue s) room (λ h. refl) (λ h. absurd (ground arith))
      (λ h. absurd (ground arith)))
push_room now a b s live e room f (cut t k o q y) = rw o (
    finish a b.conn s t q room (λ h. absurd (ground arith))
      (λ h. ap (λ m. m.block a) y ∙ (free_live a s.memory b live e).0) (λ h. absurd (ground arith)))

-- The message was freed by the first check.
push_gone :
    (now a c : ℕ) (s u : Server)
    → ¬ (a ≡ 0)
    → (s.message.send_sem == 2 ^ 31 - 1) ≡ false
    → is_full s ≡ true
    → SameQueue s.message u.message
    → u.memory.block a ≡ none
    → u.memory.faults ≡ suc s.memory.faults
    → Second a c u (backlog_check now a c u)
    → Pushed a c s (backlog_check now a c u >>= (λ t. sem_post (enqueue a c t)))
push_gone now a c s u live room f q dead faults (short k o) =
    rw o (finish a c s u q room (λ h. absurd (ground arith)) (λ h. dead) (λ h. omega arith))
push_gone now a c s u live room f q dead faults (cut t k o p y) =
    let (gone, twice) = free_dead a u.memory live dead in
    let both : SameQueue s.message t.message = record {
      list = p.list ∙ q.list;
      size = p.size ∙ q.size;
      sem = p.sem ∙ q.sem;
    } in
    rw o (
      finish a c s t both room (λ h. absurd (ground arith)) (λ h. ap (λ m. m.block a) y ∙ gone)
        (λ h. omega (arith, ap (λ m. m.faults) y, twice, faults)))

-- A call with a live message at an address that is not null, while the timer queue is in order, by
-- a thread that does not hold the timer queue's mutex and while the semaphore has room, returns,
-- and always appends the message's address to the list, counts it and posts the semaphore. While
-- the list has at most 50000 messages and the connection at most 400, the memory is as before;
-- else the message is freed, so that the list holds a dead block, and a full list also makes the
-- call use the block after it was freed.
pub push_send_msg_to_send_list_and_sem-Pushed :
    (now a : ℕ) (b : Message) (s : Server)
    → ¬ (a ≡ 0)
    → s.memory.block a ≡ some b
    → IsTimed s.socket
    → s.socket.time_queue_mutex ≡ false
    → (s.message.send_sem == 2 ^ 31 - 1) ≡ false
    → Pushed a b.conn s (push_send_msg_to_send_list_and_sem now a s)
unfolding push_send_msg_to_send_list_and_sem
push_send_msg_to_send_list_and_sem-Pushed now a b s live e timed free room =
    rw (e, push_send_msg_to_send_list_and_sem)
      (elim (queue_check-First a b s live e) [
        | passes f same ↦
            rw same
              (push_room now a b s live e room f (backlog_check-Second now a b.conn s timed free))
        | dies f q k dead faults ↦
            let u : Server = used a (queue_check a s) in
            push_gone now a b.conn s u live room f q dead faults (
              backlog_check-Second now a b.conn u (subst IsTimed (sym k) timed)
                (ap (λ z. z.time_queue_mutex) k ∙ free))
      ])

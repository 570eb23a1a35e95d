-- ===== src/Threads/Clearing.antt =====
-- misc/XiaoHG_C_ThreadPool.cxx and app/XiaoHG_C_MessageCtl.cxx: the queues are freed at the end.
use xiao_hg_server.Base.{
  ℕ, suc, ◌≡◌, refl, sym, subst, ap, ◌∙◌, List, [], ◌∷◌, none, some, ◌==◌, ne→eq-false, if_false,
  All, All-both, update, update_self, update_ne,
}
use xiao_hg_server.Memory.{Message, Memory, free_memory}
use xiao_hg_server.Server.{Server}
use xiao_hg_server.Threads.{ThreadPool, free_all, clear_msg_recv_queue, clear_msg_send_list}

-- A live block at an address that is not null.
abbrev pub IsLive : Memory → ℕ → Type 0
IsLive m a = ¬ (a ≡ 0) × (x : Message) × (m.block a ≡ some x)

-- Live blocks, each of them once.
abbrev pub IsOwned : Memory → List ℕ → Type 0
IsOwned m [] = Unit
IsOwned m (a ∷ l) = IsLive m a × All (λ b. ¬ (b ≡ a)) l × IsOwned m l

-- The blocks of a list are freed, and nothing else is.
pub record IsFreed (l : List ℕ) (m n : Memory) : Type 0 where
  pub faults : n.faults ≡ m.faults
  pub freed : All (λ a. n.block a ≡ none) l
  pub others : (b : ℕ) → All (λ a. ¬ (b ≡ a)) l → n.block b ≡ m.block b

free_memory_live :
    (a : ℕ) (m : Memory) → IsLive m a → free_memory a m ≡ record m { block = update m.block a none }
unfolding free_memory
free_memory_live a m (nonzero, x, e) =
    if_false (a == 0) m _ (ne→eq-false a 0 nonzero)
    ∙ ap
        (λ o. elim o [
          | none ↦ record m { faults = suc m.faults }
          | some y ↦ record m { block = update m.block a none }
        ])
        e

-- Ownership of the other blocks stays.
IsOwned-after :
    (a : ℕ) (m : Memory) (l : List ℕ)
    → All (λ b. ¬ (b ≡ a)) l
    → IsOwned m l
    → IsOwned (record m { block = update m.block a none }) l
IsOwned-after a m [] ne h = tt
IsOwned-after a m (b ∷ l) ne ((nonzero, x, e), fresh, rest) =
    ((nonzero, x, update_ne m.block a none b ne.0 ∙ e), fresh, IsOwned-after a m l ne.1 rest)

free_all-IsFreed : (l : List ℕ) (m : Memory) → IsOwned m l → IsFreed l m (free_all l m)
unfolding free_all
free_all-IsFreed [] m h = record { faults = refl; freed = tt; others = λ b ne. refl }
free_all-IsFreed (a ∷ l) m (live, fresh, rest) =
    let n : Memory = record m { block = update m.block a none } in
    let r = free_all-IsFreed l n (IsOwned-after a m l fresh rest) in
    subst (λ k. IsFreed (a ∷ l) m (free_all l k)) (sym (free_memory_live a m live))
      (record {
        faults = r.faults;
        freed = (
          r.others a (All-both l (λ b p q. λ e. p (sym e)) fresh fresh)
              ∙ update_self m.block a none,
          r.freed,
        );
        others = λ b ne. r.others b ne.1 ∙ update_ne m.block a none b ne.0;
      })

-- While the queue of received messages holds live blocks, each of them once, `ClearMsgRecvQueue`
-- frees each of them once and nothing else, and leaves the queue empty.
pub clear_msg_recv_queue-IsFreed :
    (p : ThreadPool) (m : Memory)
    → IsOwned m p.msg_recv_queue
    → IsFreed p.msg_recv_queue m (clear_msg_recv_queue p m).1
      × ((clear_msg_recv_queue p m).0.msg_recv_queue ≡ [])
unfolding clear_msg_recv_queue
clear_msg_recv_queue-IsFreed p m h = (free_all-IsFreed p.msg_recv_queue m h, refl)

-- While the list of messages to be sent holds live blocks, each of them once, `ClearMsgSendList`
-- frees each of them once and nothing else, and leaves the list empty.
pub clear_msg_send_list-IsFreed :
    (s : Server)
    → IsOwned s.memory s.message.send_msg_list
    → IsFreed s.message.send_msg_list s.memory (clear_msg_send_list s).memory
      × ((clear_msg_send_list s).message.send_msg_list ≡ [])
unfolding clear_msg_send_list
clear_msg_send_list-IsFreed s h = (free_all-IsFreed s.message.send_msg_list s.memory h, refl)

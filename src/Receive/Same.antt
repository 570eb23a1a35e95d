-- ===== src/Receive/Same.antt =====
-- net/XiaoHG_C_SocketRequest.cxx: a connection receives as before while what the receiver reads of it is
-- the same.
use xiao_hg_server.Base.{
  ℕ, ◌+◌, ◌<◌, ◌≡◌, refl, sym, subst, ap, ◌∙◌, inl, inr, List, length, take, map,
}
use xiao_hg_server.Connection.{Connection, BuffPtr, head_at, msg_at}
use xiao_hg_server.Memory.{Memory}
use xiao_hg_server.Receive.State.{IsReceiving, InHead, InBody, so_far, view, packet_of}

-- The parts of two connections that the receiver reads.
pub record SameReader (x y : Connection) : Type 0 where
  pub head : y.data_head_info ≡ x.data_head_info
  pub buff : y.recv_msg_buff ≡ x.recv_msg_buff
  pub len : y.recv_msg_len ≡ x.recv_msg_len
  pub status : y.recv_msg_cur_status ≡ x.recv_msg_cur_status
  pub mem : y.recv_msg_mem_pointer ≡ x.recv_msg_mem_pointer

SameReader-InHead : (x y : Connection) → SameReader x y → InHead x → InHead y
SameReader-InHead x y e h = record {
  at = h.at;
  points = e.buff ∙ h.points;
  rest = ap (λ n. h.at + n) e.len ∙ h.rest;
  some_rest = subst (λ n. 0 < n) (sym e.len) h.some_rest;
  status = elim h.status [ inl s ↦ inl (s.0, e.status ∙ s.1) | inr s ↦ inr (e.status ∙ s) ];
}

SameReader-InBody :
    (x y : Connection) (m : Memory) (l : List ℕ) → SameReader x y → InBody x m l → InBody y m l
SameReader-InBody x y m l e h = record {
  addr = h.addr;
  at = h.at;
  block = h.block;
  points = e.buff ∙ h.points;
  owned = e.mem ∙ h.owned;
  live = h.live;
  allocated = h.allocated;
  unqueued = h.unqueued;
  behind_header = h.behind_header;
  rest = ap (λ n. h.at + n) e.len ∙ h.rest;
  some_rest = subst (λ n. 0 < n) (sym e.len) h.some_rest;
  sized = h.sized;
  legal = h.legal;
  status = elim h.status [ inl s ↦ inl (e.status ∙ s) | inr s ↦ inr (e.status ∙ s) ];
}

pub SameReader-IsReceiving :
    (x y : Connection) (m : Memory) (l : List ℕ)
    → SameReader x y
    → IsReceiving x m l
    → IsReceiving y m l
SameReader-IsReceiving x y m l e h = record {
  head_room = ap length e.head ∙ h.head_room;
  queued = h.queued;
  phase = elim h.phase [
    | inl p ↦ inl (SameReader-InHead x y e p)
    | inr p ↦ inr (SameReader-InBody x y m l e p)
  ];
}

so_far_same :
    (b : BuffPtr) (x y : Connection) (m : Memory) → SameReader x y → so_far b y m ≡ so_far b x m
so_far_same (head_at k) x y m e = ap (take k) e.head
so_far_same (msg_at a k) x y m e = refl

pub SameReader-view :
    (x y : Connection) (m : Memory) (l : List ℕ) → SameReader x y → view y m l ≡ view x m l
SameReader-view x y m l e =
    ap (λ p. record { pending = p; frames = map (packet_of m) l })
      (ap (λ b. so_far b y m) e.buff ∙ so_far_same x.recv_msg_buff x y m e)

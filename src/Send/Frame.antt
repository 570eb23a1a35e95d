-- ===== src/Send/Frame.antt =====
-- app/XiaoHG_C_MessageCtl.cxx, `SendMsgThread`: what a step for one message leaves of all others.
use xiao_hg_server.Base.{
  ℕ, done-injective, ◌⊎◌, ==_iff, update_self, eq-false→ne, ℤ, pos, negsuc, inc, ltb_ℤ, ◌≡◌, refl,
  sym, ap, ◌∙◌, inl, inr, Bool, true, false, Option, none, some, done, arith, ◌==◌, Bool-cases,
  update, update_ne, update_keeps,
}
use xiao_hg_server.Connection.{Connection}
use xiao_hg_server.Epoll.{Action, epoll_register_event}
use xiao_hg_server.Memory.{Message, Memory, free_memory}
use xiao_hg_server.Send.{freed, set_of, thrown, watch_writes}
use xiao_hg_server.Server.{Server, conn_of}

abbrev pub waits_for_epoll : Connection → Bool
waits_for_epoll x = ltb_ℤ (pos 0) x.throw_send_msg_count

-- No connection changes its serial number or stops to wait for epoll, and no block but the one at
-- `a` changes.
pub record Step (a : ℕ) (s t : Server) : Type 0 where
  pub serial : (j : ℕ) → (conn_of t j).curr_sequence ≡ (conn_of s j).curr_sequence
  pub waits : (j : ℕ) → waits_for_epoll (conn_of s j) ≡ true → waits_for_epoll (conn_of t j) ≡ true
  pub blocks : (j : ℕ) → ¬ (j ≡ a) → t.memory.block j ≡ s.memory.block j

pub Step-trans : (a : ℕ) (s t u : Server) → Step a s t → Step a t u → Step a s u
Step-trans a s t u p q = record {
  serial = λ j. q.serial j ∙ p.serial j;
  waits = λ j h. q.waits j (p.waits j h);
  blocks = λ j h. q.blocks j h ∙ p.blocks j h;
}

update_waits :
    (f : ℕ → Connection) (k : ℕ) (v : Connection) (j : ℕ)
    → (waits_for_epoll (f k) ≡ true → waits_for_epoll v ≡ true)
    → waits_for_epoll (f j) ≡ true
    → waits_for_epoll (update f k v j) ≡ true
update_waits f k v j w h = elim (Bool-cases (j == k)) [
  | inl e ↦
      let same : j ≡ k = (==_iff j k).0 e in
      ap (λ i. waits_for_epoll (update f k v i)) same
      ∙ ap waits_for_epoll (update_self f k v)
      ∙ w (ap (λ i. waits_for_epoll (f i)) (sym same) ∙ h)
  | inr e ↦ ap waits_for_epoll (update_ne f k v j (eq-false→ne j k e)) ∙ h
]

-- A write of one connection that keeps its serial number and does not end its wait.
pub set_of-Step :
    (a c : ℕ) (x : Connection) (s : Server)
    → x.curr_sequence ≡ (conn_of s c).curr_sequence
    → (waits_for_epoll (conn_of s c) ≡ true → waits_for_epoll x ≡ true)
    → Step a s (set_of c x s)
set_of-Step a c x s e w = record {
  serial = λ j. update_keeps (λ y. y.curr_sequence) s.socket.conn c x j e;
  waits = λ j h. update_waits s.socket.conn c x j w h;
  blocks = λ j h. refl;
}

block-cases : (r : Option Message) → (r ≡ none) ⊎ ((b : Message) × (r ≡ some b))
block-cases none = inl refl
block-cases (some b) = inr (b, refl)

free_other : (a : ℕ) (m : Memory) (j : ℕ) → ¬ (j ≡ a) → (free_memory a m).block j ≡ m.block j
unfolding free_memory
free_other a m j h = elim (Bool-cases (a == 0)) [
  | inl e ↦ rw (e, free_memory) refl
  | inr e ↦ elim (block-cases (m.block a)) [
    | inl r ↦ rw (e, r, free_memory) refl
    | inr (b, r) ↦ rw (e, r, free_memory) (update_ne m.block a none j h)
  ]
]

pub freed-Step : (a : ℕ) (s : Server) → Step a s (freed a s)
freed-Step a s = record {
  serial = λ j. refl;
  waits = λ j h. h;
  blocks = λ j h. free_other a s.memory j h;
}

inc_waits : (n : ℤ) → ltb_ℤ (pos 0) n ≡ true → ltb_ℤ (pos 0) (inc n) ≡ true
inc_waits (pos n) h = ground arith
inc_waits (negsuc n) h = cc

pub thrown-Step : (a c : ℕ) (s : Server) → Step a s (thrown c s)
thrown-Step a c s = set_of-Step a c _ s refl (inc_waits (conn_of s c).throw_send_msg_count)

-- `watch_writes` returns or ends the process; it only changes what a connection is watched for.
pub watch_writes-Step :
    (a : ℕ) (action : Action) (ctl_ok : Bool) (c : ℕ) (s t : Server)
    → watch_writes action ctl_ok c s ≡ done t
    → Step a s t × (t.message ≡ s.message)
unfolding watch_writes epoll_register_event
watch_writes-Step a action true c s t h =
    let same : t ≡ _ = done-injective (sym h) in rw same (set_of-Step a c _ s refl (λ w. w), refl)
watch_writes-Step a action false c s t h = cc

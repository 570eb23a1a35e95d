-- ===== src/Send/One.antt =====
-- app/XiaoHG_C_MessageCtl.cxx, `SendMsgThread`: how one message of the list is sent.
use xiao_hg_server.Base.{
  ℕ, zero, suc, ℤ, pos, negsuc, ◌≡◌, refl, sym, subst, ap, ◌∙◌, inl, inr, Bool, true, false, List,
  ◌++◌, some, Outcome, done, exited, ◌>>=◌, ◌==◌, sub32, Bool-cases, if_true, if_false,
  done-injective, update_self,
}
use xiao_hg_server.Epoll.{epoll_add, epoll_register_event}
use xiao_hg_server.Memory.{Message}
use xiao_hg_server.Send.{
  Net, freed, set_of, thrown, erase_message, taken, watch_writes, after_send, send_msg_proc,
  send_one,
}
use xiao_hg_server.Send.Frame.{
  Step, Step-trans, waits_for_epoll, set_of-Step, freed-Step, thrown-Step, watch_writes-Step,
}
use xiao_hg_server.Server.{Server, conn_of}

taken-Step :
    (a c : ℕ) (packet rest : List ℕ) (s : Server)
    → Step a s (taken a c packet rest s)
      × ((conn_of (taken a c packet rest s) c).send_msg_mem_pointer ≡ a)
unfolding taken
taken-Step a c packet rest s =
    let p = set_of-Step a c _ s refl (λ w. w) in
    (
      record { serial = p.serial; waits = p.waits; blocks = p.blocks },
      ap (λ x. x.send_msg_mem_pointer) (update_self s.socket.conn c _),
    )

-- A step that leaves the list alone.
Quietly : ℕ → Server → Server → Type 0
Quietly a s t = Step a s t × (t.message ≡ s.message)

frees : (a p : ℕ) (s t : Server) → p ≡ a → done (freed p s) ≡ done t → Quietly a s t
unfolding Quietly
frees a p s t own h =
    rw (sym (done-injective h)) (subst (λ q. Step a s (freed q s)) (sym own) (freed-Step a s), refl)

watches :
    (a c : ℕ) (ctl_ok : Bool) (s u t : Server)
    → Quietly a s u
    → watch_writes epoll_add ctl_ok c u ≡ done t
    → Quietly a s t
unfolding Quietly
watches a c ctl_ok s u t before h =
    let (step, same) = watch_writes-Step a epoll_add ctl_ok c u t h in
    (Step-trans a s u t before.0 step, same ∙ before.1)

after_send-Step :
    (ctl_ok : Bool) (a c : ℕ) (n : ℤ) (s t : Server)
    → (conn_of s c).send_msg_mem_pointer ≡ a
    → after_send ctl_ok a c n s ≡ done t
    → Quietly a s t
unfolding after_send Quietly
after_send-Step ctl_ok a c (pos zero) s t own h = frees a _ s t own h
after_send-Step ctl_ok a c (pos (suc n)) s t own h =
    elim (Bool-cases (suc n == (conn_of s c).send_msg_len)) [
      | inl e ↦ frees a _ s t own (sym (if_true _ _ _ e) ∙ h)
      | inr e ↦
          let u : Server = set_of c _ s in
          watches a c ctl_ok s (thrown c u) t
            (
              Step-trans a s u (thrown c u) (set_of-Step a c _ s refl (λ w. w)) (thrown-Step a c u),
              refl,
            )
            (sym (if_false _ _ _ e) ∙ h)
    ]
after_send-Step ctl_ok a c (negsuc zero) s t own h =
    watches a c ctl_ok s (thrown c s) t (thrown-Step a c s, refl) h
after_send-Step ctl_ok a c (negsuc (suc n)) s t own h = frees a _ s t own h

-- `after_send` returns, or ends the process when `epoll_ctl` fails.
data Ending (ctl_ok : Bool) (o : Outcome Server) : Type 0 where
  exits : ctl_ok ≡ false → o ≡ exited → Ending ctl_ok o
  gives : (t : Server) → o ≡ done t → Ending ctl_ok o

watch_writes-Ending :
    (ctl_ok : Bool) (c : ℕ) (s : Server) → Ending ctl_ok (watch_writes epoll_add ctl_ok c s)
unfolding watch_writes epoll_register_event
watch_writes-Ending true c s = gives _ refl
watch_writes-Ending false c s = exits refl refl

after_send-Ending :
    (ctl_ok : Bool) (a c : ℕ) (n : ℤ) (s : Server) → Ending ctl_ok (after_send ctl_ok a c n s)
unfolding after_send
after_send-Ending ctl_ok a c (pos zero) s = gives _ refl
after_send-Ending ctl_ok a c (pos (suc n)) s =
    elim (Bool-cases (suc n == (conn_of s c).send_msg_len)) [
      | inl e ↦ gives _ (if_true _ _ _ e)
      | inr e ↦ subst (Ending ctl_ok) (sym (if_false _ _ _ e)) (watch_writes-Ending ctl_ok c _)
    ]
after_send-Ending ctl_ok a c (negsuc zero) s = watch_writes-Ending ctl_ok c _
after_send-Ending ctl_ok a c (negsuc (suc n)) s = gives _ refl

-- The message at `a` is live, and its connection is the one that it was made for and waits for
-- epoll to send.
pub record Waits (s : Server) (a : ℕ) : Type 0 where
  pub message : Message
  pub live : s.memory.block a ≡ some message
  pub current : ((conn_of s message.conn).curr_sequence == message.curr_sequence) ≡ true
  pub waiting : waits_for_epoll (conn_of s message.conn) ≡ true

abbrev pub Live : Server → ℕ → Type 0
Live s a = (b : Message) × (s.memory.block a ≡ some b)

-- How one round of the loop ends.
pub data One (net : Net) (kept rest : List ℕ) (a : ℕ) (s : Server) (o : Outcome (Bool × Server))
    : Type 0 where
  process_ends : (c : ℕ) → net.ctl_ok c ≡ false → o ≡ exited → One net kept rest a s o
  stays : o ≡ done (true, s) → Waits s a → One net kept rest a s o
  leaves :
      (t : Server)
      → o ≡ done (false, t)
      → Step a s t
      → t.message.send_msg_list ≡ kept ++ rest
      → t.message.send_msg_list_size ≡ sub32 s.message.send_msg_list_size 1
      → One net kept rest a s o

sending :
    (net : Net) (kept rest : List ℕ) (a c : ℕ) (n : ℤ) (packet : List ℕ) (s : Server)
    → One net kept rest a s (
        after_send (net.ctl_ok c) a c n (taken a c packet (kept ++ rest) s)
        >>= (λ t. done (false, t)))
unfolding Quietly taken
sending net kept rest a c n packet s =
    let u : Server = taken a c packet (kept ++ rest) s in
    let (step, own) = taken-Step a c packet (kept ++ rest) s in
    elim (after_send-Ending (net.ctl_ok c) a c n u) [
      | exits f e ↦ process_ends c f (ap (λ o. o >>= (λ t. done (false, t))) e)
      | gives t e ↦
          let (next, same) = after_send-Step (net.ctl_ok c) a c n u t own e in
          leaves t (ap (λ o. o >>= (λ t. done (false, t))) e) (Step-trans a s u t step next)
            (ap (λ m. m.send_msg_list) same) (ap (λ m. m.send_msg_list_size) same)
    ]

pub send_one-One :
    (net : Net) (kept rest : List ℕ) (a : ℕ) (s : Server)
    → Live s a
    → One net kept rest a s (send_one net kept a rest s)
unfolding send_one
send_one-One net kept rest a s (b, e) =
    rw (e, send_one)
      (elim (Bool-cases ((conn_of s b.conn).curr_sequence == b.curr_sequence)) [
        | inl current ↦ elim (Bool-cases (waits_for_epoll (conn_of s b.conn))) [
          | inl w ↦
              rw (current, w)
                (stays refl (record { message = b; live = e; current = current; waiting = w }))
          | inr w ↦
              rw (current, w)
                (sending net kept rest a b.conn (send_msg_proc (net.send a)) b.packet s)
        ]
        | inr stale ↦
            let u : Server = erase_message (kept ++ rest) s in
            let p = freed-Step a u in
            rw stale (
              leaves (freed a u) refl
                (record { serial = p.serial; waits = p.waits; blocks = p.blocks }) refl refl)
      ])

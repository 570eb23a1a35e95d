-- ===== src/Business/Accepts.antt =====
-- app/XiaoHG_C_MessageCtl.cxx, `RecvMsgHandleProc`: which packets are handled, and which end the
-- process.
use xiao_hg_server.Base.{
  ℕ, zero, suc, ◌+◌, ◌-◌, ◌*◌, ◌^◌, ◌≤◌, ◌≡◌, refl, sym, subst, ap₂, inl, inr, Bool, true, false,
  ◌&&◌, ◌||◌, List, Option, none, some, Outcome, done, exited, arith, if◌then◌else◌, ltb, leb, ◌==◌,
  length, take, drop, get_or, get_or-write_at, if_true, Bool-cases, update_self, sub16,
}
use xiao_hg_server.Comm.{len_pkg_header, pkg_length, msg_code, crc_field}
use xiao_hg_server.Crc32.{get_crc}
use xiao_hg_server.Memory.{Message, alloc_memory}
use xiao_hg_server.Business.{
  LogicHandler, heartbeat, register, login, swapped, set_packet, reply, handle_register,
  handle_login, handle_heartbeat, status_handler, call_handler, dispatch, checked,
  recv_msg_handle_proc,
}
use xiao_hg_server.Send.{push_send_msg_to_send_list_and_sem}
use xiao_hg_server.Send.Push.{push_send_msg_to_send_list_and_sem-Pushed}
use xiao_hg_server.Server.{Server, conn_of}
use xiao_hg_server.Timer.Insert.{IsTimed}

-- A state in which a reply can be queued.
pub record CanReply (s : Server) : Type 0 where
  pub timed : IsTimed s.socket
  pub free : s.socket.time_queue_mutex ≡ false
  pub room : (s.message.send_sem == 2 ^ 31 - 1) ≡ false
  pub fresh : ¬ (s.memory.next ≡ 0)

abbrev pub Returns : Outcome Server → Type 0
Returns o = (t : Server) × (o ≡ done t)

-- A message that is stored at an address can be pushed.
push_stored :
    (now a : ℕ) (b : Message) (s : Server)
    → ¬ (a ≡ 0)
    → s.memory.block a ≡ some b
    → IsTimed s.socket
    → s.socket.time_queue_mutex ≡ false
    → (s.message.send_sem == 2 ^ 31 - 1) ≡ false
    → Returns (push_send_msg_to_send_list_and_sem now a s)
push_stored now a b s live e timed free room =
    let p = push_send_msg_to_send_list_and_sem-Pushed now a b s live e timed free room in
    (p.after, p.returns)

-- A block that is live.
on_live :
    (r : Option Message) (x : Message) (o : Outcome Server) (k : Message → Outcome Server)
    → r ≡ some x
    → Returns (k x)
    → Returns (elim r [ none ↦ o | some y ↦ k y ])
on_live none x o k e h = cc
on_live (some y) x o k e h = subst (λ z. Returns (elim z [ none ↦ o | some y ↦ k y ])) (sym e) h

reply-Returns :
    (now : ℕ) (b : Message) (code n : ℕ) (s : Server) → CanReply s → Returns (reply now b code n s)
unfolding reply alloc_memory
reply-Returns now b code n s h = on_live _ _ _ _ (update_self s.memory.block s.memory.next _) (
    push_stored now s.memory.next _ _ h.fresh
      (update_self (alloc_memory b.conn b.curr_sequence (len_pkg_header + n) s.memory).1.block
        s.memory.next _)
      h.timed h.free h.room)

stored-CanReply :
    (a : ℕ) (b : Message) (p : List ℕ) (s : Server) → CanReply s → CanReply (set_packet a b p s)
stored-CanReply a b p s h = record {
  timed = h.timed;
  free = h.free;
  room = h.room;
  fresh = h.fresh;
}

call_handler-Returns :
    (k : LogicHandler) (now a : ℕ) (b : Message) (n : ℕ) (s : Server)
    → CanReply s
    → Returns (call_handler k now a b n s)
unfolding call_handler handle_heartbeat handle_register handle_login alloc_memory
call_handler-Returns heartbeat now a b n s h = elim (Bool-cases (n == 0)) [
  | inl e ↦ rw e (
      on_live _ _ _ _ (update_self s.memory.block s.memory.next _) (
        push_stored now s.memory.next _ _ h.fresh
          (update_self (alloc_memory b.conn b.curr_sequence len_pkg_header s.memory).1.block
            s.memory.next _)
          (record {
            sorted = h.timed.sorted;
            counted = h.timed.counted;
            fits = h.timed.fits;
            earliest = h.timed.earliest;
          })
          h.free h.room))
  | inr e ↦ rw e (s, refl)
]
call_handler-Returns register now a b n s h = elim (Bool-cases (n == 100)) [
  | inl e ↦ rw e (reply-Returns now b 5 100 _ (stored-CanReply a b _ s h))
  | inr e ↦ rw e (s, refl)
]
call_handler-Returns login now a b n s h = elim (Bool-cases (n == 96)) [
  | inl e ↦ rw e (reply-Returns now b 6 96 _ (stored-CanReply a b _ s h))
  | inr e ↦ rw e (s, refl)
]

-- The conditions on a message, as the protocol has them.
unfoldable pub well_summed : List ℕ → Bool
well_summed p =
    if pkg_length p == len_pkg_header
    then crc_field p == 0
    else get_crc (take (pkg_length p - len_pkg_header) (drop len_pkg_header p)) == crc_field p

unfoldable pub known_code : ℕ → Bool
known_code n = n == 0 || n == 5 || n == 6

unfoldable pub acceptable : Server → Message → Bool
unfolding well_summed known_code
acceptable s b =
    well_summed b.packet
    && ((conn_of s b.conn).curr_sequence == b.curr_sequence)
    && known_code (msg_code b.packet)

-- The process ends, or the call returns.
pub data Decides (ok : Bool) (o : Outcome Server) : Type 0 where
  accepts : ok ≡ true → Returns o → Decides ok o
  ends : ok ≡ false → o ≡ exited → Decides ok o

-- The table has a handler for the known codes only.
by_code :
    (code : ℕ) (k : LogicHandler → Outcome Server)
    → ((h : LogicHandler) → Returns (k h))
    → Decides (known_code code) (
        if leb 7 code
        then exited
        else elim (get_or status_handler code none) [ none ↦ exited | some h ↦ k h ])
unfolding known_code status_handler
by_code zero k r = accepts refl (r heartbeat)
by_code (suc zero) k r = ends refl refl
by_code (suc (suc zero)) k r = ends refl refl
by_code (suc (suc (suc zero))) k r = ends refl refl
by_code (suc (suc (suc (suc zero)))) k r = ends refl refl
by_code (suc (suc (suc (suc (suc zero))))) k r = accepts refl (r register)
by_code (suc (suc (suc (suc (suc (suc zero)))))) k r = accepts refl (r login)
by_code (suc (suc (suc (suc (suc (suc (suc n))))))) k r =
    ends (ground arith)
      (if_true (leb 7 (suc (suc (suc (suc (suc (suc (suc n)))))))) exited _ (ground arith))

-- Turning the checksum round in place does not touch the message code.
msg_code-swapped : (p : List ℕ) → len_pkg_header ≤ length p → msg_code (swapped 4 p) ≡ msg_code p
unfolding msg_code swapped
msg_code-swapped p h =
    ap₂ (λ x y. x * 256 + y) (get_or-write_at p 4 _ 2 0 (omega arith) (omega arith))
      (get_or-write_at p 4 _ 3 0 (omega arith) (omega arith))

dispatch-Decides :
    (now a : ℕ) (b : Message) (s : Server)
    → CanReply s
    → Decides
        (((conn_of s b.conn).curr_sequence == b.curr_sequence) && known_code (msg_code b.packet))
        (dispatch now a b s)
unfolding dispatch
dispatch-Decides now a b s h =
    elim (Bool-cases ((conn_of s b.conn).curr_sequence == b.curr_sequence)) [
      | inl e ↦ rw e (
          by_code (msg_code b.packet)
            (λ k. call_handler k now a b (sub16 (pkg_length b.packet) len_pkg_header) s)
            (λ k. call_handler-Returns k now a b _ s h))
      | inr e ↦ rw e (ends refl refl)
    ]

abbrev body_sum : List ℕ → Bool
body_sum p = get_crc (take (pkg_length p - len_pkg_header) (drop len_pkg_header p)) == crc_field p

checked-Decides :
    (now a : ℕ) (b : Message) (s : Server)
    → CanReply s
    → len_pkg_header ≤ length b.packet
    → Decides
        (body_sum b.packet
          && ((conn_of s b.conn).curr_sequence == b.curr_sequence)
          && known_code (msg_code b.packet))
        (checked now a b s)
unfolding checked
checked-Decides now a b s h whole =
    let q : List ℕ = swapped 4 b.packet in
    let turned : Message = record b { packet = q } in
    let t : Server = set_packet a b q s in
    elim (Bool-cases (body_sum b.packet)) [
      | inl e ↦ rw e (
          subst
            (λ m.
              Decides (((conn_of s b.conn).curr_sequence == b.curr_sequence) && known_code m)
                (dispatch now a turned t))
            (msg_code-swapped b.packet whole)
            (dispatch-Decides now a turned t (stored-CanReply a b q s h)))
      | inr e ↦ rw e (ends refl refl)
    ]

-- For a message in a live block, whose packet and length field are not shorter than a header, in a
-- state in which a reply can be queued (the timer queue is in order and its mutex free, the
-- semaphore is below its largest value, and the next block is not the null one), the call returns
-- when the message is acceptable: its checksum is right (or 0, when it is a header alone),
-- its connection is still the one that it came from, and its code is 0, 5 or 6. Any other message
-- ends the whole process.
pub recv_msg_handle_proc-Decides :
    (now a : ℕ) (b : Message) (s : Server)
    → CanReply s
    → s.memory.block a ≡ some b
    → len_pkg_header ≤ length b.packet
    → len_pkg_header ≤ pkg_length b.packet
    → Decides (acceptable s b) (recv_msg_handle_proc now a s)
unfolding recv_msg_handle_proc acceptable well_summed
recv_msg_handle_proc-Decides now a b s h e whole legal =
    rw (e, recv_msg_handle_proc)
      (elim (Bool-cases (pkg_length b.packet == len_pkg_header)) [
        | inl x ↦ elim (Bool-cases (crc_field b.packet == 0)) [
          | inl z ↦ rw (x, z) (dispatch-Decides now a b s h)
          | inr z ↦ rw (x, z) (ends refl refl)
        ]
        | inr x ↦
            let long : ltb (pkg_length b.packet) len_pkg_header ≡ false = ground arith in
            rw (x, long) (checked-Decides now a b s h whole)
      ])

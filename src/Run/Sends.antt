-- ===== src/Run/Sends.antt =====
-- app/XiaoHG_C_MessageCtl.cxx: what the sending of messages does to the books.
use xiao_hg_server.Base.{
  ℕ, zero, suc, ℤ, pos, negsuc, ltb_ℤ, ◌-◌, ◌^◌, ◌≡◌, refl, sym, inr, ap, ◌∙◌, Bool, true, false,
  not, List, [], ◌∷◌, ◌++◌, append_assoc, Outcome, done, ltb, ◌==◌, if_split, option_split,
  if◌then◌else◌, Whenever, ◌>>=◌, >>=-Whenever,
}
use xiao_hg_server.Comm.{max_sendqueue_count, max_eachconn_sendcount}
use xiao_hg_server.Epoll.{Action, epoll_add, epoll_register_event}
use xiao_hg_server.Memory.{Message}
use xiao_hg_server.Pool.{close_connection_to_recy}
use xiao_hg_server.Run.Books.{
  worker, sender, after_moves, pools, lists, waits, leaves, without, Moves, Moves-refl, Moves-trans,
  kept, message_moves,
}
use xiao_hg_server.Run.Closes.{close_connection_to_recy-Moves}
use xiao_hg_server.Send.{
  freed, fault, used, discarded, sem_post, enqueue, queue_check, backlog_check,
  push_send_msg_to_send_list_and_sem, send_msg_proc, Net, watch_writes, thrown, after_send, taken,
  erase_message, send_one, send_pass, SemWait, woken, interrupted, sem_error, send_msg_round,
}
use xiao_hg_server.Server.{Server, conn_of}

used-Moves : (a : ℕ) (s : Server) → Moves worker s (used a s)
used-Moves a s =
    option_split (Moves worker s) (s.memory.block a) (kept refl refl) (λ b. Moves-refl s)

sem_post-Moves : (s : Server) → Whenever (Moves worker s) (sem_post s)
unfolding sem_post
sem_post-Moves s =
    if_split (Whenever (Moves worker s)) (s.message.send_sem == 2 ^ 31 - 1) (λ most. tt)
      (λ more. kept refl refl)

queue_check-Moves : (a : ℕ) (s : Server) → Moves worker s (queue_check a s)
unfolding queue_check
queue_check-Moves a s =
    if_split (Moves worker s) (ltb max_sendqueue_count s.message.send_msg_list_size)
      (λ full. kept refl refl) (λ room. Moves-refl s)

backlog_check-Moves :
    (now a c : ℕ) (s : Server) → Whenever (Moves worker s) (backlog_check now a c s)
unfolding backlog_check
backlog_check-Moves now a c s =
    if_split (Whenever (Moves worker s))
      (ltb_ℤ (pos max_eachconn_sendcount) (conn_of s c).send_msg_list_count)
      (λ behind.
        after_moves (close_connection_to_recy now c (discarded a s))
          (kept {t = discarded a s} refl refl)
          (close_connection_to_recy-Moves (inr refl) now c (discarded a s)))
      (λ calm. Moves-refl s)

enqueue-Moves : (a c : ℕ) (s : Server) → Moves worker s (enqueue a c s)
unfolding enqueue
enqueue-Moves a c s = message_moves refl (waits refl a refl)

pub push_send_msg_to_send_list_and_sem-Moves :
    (now a : ℕ) (s : Server)
    → Whenever (Moves worker s) (push_send_msg_to_send_list_and_sem now a s)
unfolding push_send_msg_to_send_list_and_sem
push_send_msg_to_send_list_and_sem-Moves now a s =
    let t : Server = used a (queue_check a s) in
    let checked = Moves-trans (queue_check-Moves a s) (used-Moves a (queue_check a s)) in
    option_split (Whenever (Moves worker s)) (s.memory.block a) (kept refl refl) (λ b.
      >>=-Whenever (Moves worker t) (Moves worker s) (backlog_check now a b.conn t)
        (λ u. sem_post (enqueue a b.conn u)) (backlog_check-Moves now a b.conn t)
        (λ u h.
          after_moves (sem_post (enqueue a b.conn u))
            (Moves-trans checked (Moves-trans h (enqueue-Moves a b.conn u)))
            (sem_post-Moves (enqueue a b.conn u))))

-- What leaves the books alone: neither the connections' lists nor the messages' change.
abbrev Quiet : Server → Server → Type 0
Quiet s t = (pools t.socket ≡ pools s.socket) × (lists t.message ≡ lists s.message)

watch_writes-Quiet :
    (action : Action) (ctl_ok : Bool) (c : ℕ) (s : Server)
    → Whenever (Quiet s) (watch_writes action ctl_ok c s)
unfolding watch_writes epoll_register_event
watch_writes-Quiet action true c s = (refl, refl)
watch_writes-Quiet action false c s = tt

after_send-Quiet :
    (ctl_ok : Bool) (a c : ℕ) (n : ℤ) (s : Server) → Whenever (Quiet s) (after_send ctl_ok a c n s)
unfolding after_send
after_send-Quiet ctl_ok a c (pos zero) s = (refl, refl)
after_send-Quiet ctl_ok a c (pos (suc n)) s =
    if_split (Whenever (Quiet s)) (suc n == (conn_of s c).send_msg_len) (λ full. (refl, refl))
      (λ part. watch_writes-Quiet epoll_add ctl_ok c _)
after_send-Quiet ctl_ok a c (negsuc zero) s = watch_writes-Quiet epoll_add ctl_ok c (thrown c s)
after_send-Quiet ctl_ok a c (negsuc (suc _)) s = (refl, refl)

-- A round for the message at `a`, with `seen` before it and `rest` behind it in the list.
abbrev Passed : List ℕ → ℕ → List ℕ → Server → Bool × Server → Type 0
Passed seen a rest s (stays, t) =
    Moves sender s t
    × (t.message.send_msg_list ≡ (if stays then seen ++ (a ∷ []) else seen) ++ rest)

module _ (net : Net) (seen : List ℕ) (a : ℕ) (rest : List ℕ) (s : Server)
    (here : s.message.send_msg_list ≡ seen ++ (a ∷ rest)) where
  stays-Passed : (t : Server) → Quiet s t → Passed seen a rest s (true, t)
  stays-Passed t q =
      (kept q.0 q.1, ap (λ l. l.send) q.1 ∙ here ∙ sym (append_assoc seen (a ∷ []) rest))

  -- The message leaves the list.
  leaves-Moves : (t : Server) → Quiet (erase_message (seen ++ rest) s) t → Moves sender s t
  leaves-Moves t q =
      Moves-trans
        (message_moves {t = erase_message (seen ++ rest) s} refl
          (leaves refl a (seen ++ rest) (without seen rest here refl) refl))
        (kept q.0 q.1)

  leaves-Passed :
      (t : Server) → Quiet (erase_message (seen ++ rest) s) t → Passed seen a rest s (false, t)
  leaves-Passed t q = (leaves-Moves t q, ap (λ l. l.send) q.1)

  sends-Passed :
      (b : Message)
      → Whenever (Passed seen a rest s) (
          after_send
            (net.ctl_ok b.conn)
            a
            b.conn
            (send_msg_proc (net.send a))
            (taken a b.conn b.packet (seen ++ rest) s)
          >>= (λ t. done (false, t)))
  unfolding taken
  sends-Passed b =
      let t : Server = taken a b.conn b.packet (seen ++ rest) s in
      >>=-Whenever (Quiet t) (Passed seen a rest s)
        (after_send (net.ctl_ok b.conn) a b.conn (send_msg_proc (net.send a)) t) _
        (after_send-Quiet (net.ctl_ok b.conn) a b.conn (send_msg_proc (net.send a)) t)
        (λ u q. leaves-Passed u q)

  send_one-Passed : Whenever (Passed seen a rest s) (send_one net seen a rest s)
  unfolding send_one
  send_one-Passed =
      let P : Outcome (Bool × Server) → Type 0 = Whenever (Passed seen a rest s) in
      option_split P (s.memory.block a) (stays-Passed (fault s) (refl, refl)) (λ b.
        let x = conn_of s b.conn in
        if_split P (not (x.curr_sequence == b.curr_sequence))
          (λ stale. leaves-Passed (freed a (erase_message (seen ++ rest) s)) (refl, refl))
          (λ fresh.
            if_split P (ltb_ℤ (pos 0) x.throw_send_msg_count) (λ busy. stays-Passed s (refl, refl))
              (λ idle. sends-Passed b)))

-- The list of messages is walked through once.
send_pass-Moves :
    (net : Net) (seen rest : List ℕ) (s : Server)
    → s.message.send_msg_list ≡ seen ++ rest
    → Whenever (Moves sender s) (send_pass net seen rest s)
unfolding send_pass
send_pass-Moves net seen [] s e = Moves-refl s
send_pass-Moves net seen (a ∷ rest) s e =
    >>=-Whenever (Passed seen a rest s) (Moves sender s) (send_one net seen a rest s) _
      (send_one-Passed net seen a rest s e)
      (λ p h.
        let more : List ℕ = if p.0 then seen ++ (a ∷ []) else seen in
        after_moves (send_pass net more rest p.1) h.0 (send_pass-Moves net more rest p.1 h.1))

pub send_msg_round-Moves :
    (net : Net) (w : SemWait) (s : Server) → Whenever (Moves sender s) (send_msg_round net w s)
unfolding send_msg_round
send_msg_round-Moves net sem_error s = tt
send_msg_round-Moves net interrupted s =
    if_split (Whenever (Moves sender s)) (ltb 0 s.message.send_msg_list_size)
      (λ some_wait. send_pass-Moves net [] s.message.send_msg_list s refl) (λ empty. Moves-refl s)
send_msg_round-Moves net woken s =
    let m = s.message in
    let t : Server = record s { message = record m { send_sem = m.send_sem - 1 } } in
    if_split (Whenever (Moves sender s)) (ltb 0 m.send_msg_list_size)
      (λ some_wait.
        after_moves (send_pass net [] m.send_msg_list t) (kept {t = t} refl refl)
          (send_pass-Moves net [] m.send_msg_list t refl))
      (λ empty. kept refl refl)

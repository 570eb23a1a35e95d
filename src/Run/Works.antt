-- ===== src/Run/Works.antt =====
-- net/XiaoHG_C_BusinessCtl.cxx and app/XiaoHG_C_MessageCtl.cxx: what handling a message does to the
-- books.
use xiao_hg_server.Base.{
  ℕ, ◌+◌, ◌≡◌, refl, not, List, [], ◌∷◌, none, Outcome, done, ltb, leb, ◌==◌, sub16, sub32, length,
  get_or, if_split, option_split, Whenever, ◌>>=◌, >>=-Whenever,
}
use xiao_hg_server.Business.{
  set_packet, swapped, reply, handle_register, handle_login, handle_heartbeat, LogicHandler,
  cmd_register, cmd_login, heartbeat, register, login, status_handler, call_handler, dispatch,
  checked, recv_msg_handle_proc, thread_round,
}
use xiao_hg_server.Comm.{len_pkg_header, len_register, len_login, pkg_length, msg_code, crc_field}
use xiao_hg_server.Crc32.{get_crc}
use xiao_hg_server.Memory.{Memory, Message, alloc_memory}
use xiao_hg_server.Run.Books.{
  worker, after_moves, is_handled, Moves, Moves-refl, Moves-trans, kept, message_moves,
}
use xiao_hg_server.Run.Sends.{push_send_msg_to_send_list_and_sem-Moves}
use xiao_hg_server.Send.{freed, push_send_msg_to_send_list_and_sem}
use xiao_hg_server.Server.{Server, conn_of}

-- A message that is sent from a state with the same books.
sent-Moves :
    (now a : ℕ) (s t : Server)
    → Moves worker s t
    → Whenever (Moves worker s) (push_send_msg_to_send_list_and_sem now a t)
sent-Moves now a s t h =
    after_moves (push_send_msg_to_send_list_and_sem now a t) h
      (push_send_msg_to_send_list_and_sem-Moves now a t)

reply-Moves :
    (now : ℕ) (b : Message) (code n : ℕ) (s t : Server)
    → Moves worker s t
    → Whenever (Moves worker s) (reply now b code n t)
unfolding reply
reply-Moves now b code n s t h =
    let p : ℕ × Memory = alloc_memory b.conn b.curr_sequence (len_pkg_header + n) t.memory in
    option_split (Whenever (Moves worker s)) (p.1.block p.0) (Moves-trans h (kept refl refl))
      (λ r. sent-Moves now p.0 s _ (Moves-trans h (kept {s = t} refl refl)))

handle_heartbeat-Moves :
    (now : ℕ) (b : Message) (n : ℕ) (s : Server)
    → Whenever (Moves worker s) (handle_heartbeat now b n s)
unfolding handle_heartbeat
handle_heartbeat-Moves now b n s =
    if_split (Whenever (Moves worker s)) (not (n == 0)) (λ body. Moves-refl s)
      (λ alone.
        let p : ℕ × Memory = alloc_memory b.conn b.curr_sequence len_pkg_header s.memory in
        option_split (Whenever (Moves worker s)) (p.1.block p.0) (kept refl refl)
          (λ r. sent-Moves now p.0 s _ (kept {s = s} refl refl)))

handle_register-Moves :
    (now a : ℕ) (b : Message) (n : ℕ) (s : Server)
    → Whenever (Moves worker s) (handle_register now a b n s)
unfolding handle_register
handle_register-Moves now a b n s =
    if_split (Whenever (Moves worker s)) (not (n == len_register)) (λ other. Moves-refl s)
      (λ exact. reply-Moves now b cmd_register len_register s _ (kept {s = s} refl refl))

handle_login-Moves :
    (now a : ℕ) (b : Message) (n : ℕ) (s : Server)
    → Whenever (Moves worker s) (handle_login now a b n s)
unfolding handle_login
handle_login-Moves now a b n s =
    if_split (Whenever (Moves worker s)) (not (n == len_login)) (λ other. Moves-refl s)
      (λ exact. reply-Moves now b cmd_login len_login s _ (kept {s = s} refl refl))

call_handler-Moves :
    (h : LogicHandler) (now a : ℕ) (b : Message) (n : ℕ) (s : Server)
    → Whenever (Moves worker s) (call_handler h now a b n s)
unfolding call_handler
call_handler-Moves heartbeat now a b n s = handle_heartbeat-Moves now b n s
call_handler-Moves register now a b n s = handle_register-Moves now a b n s
call_handler-Moves login now a b n s = handle_login-Moves now a b n s

dispatch-Moves :
    (now a : ℕ) (b : Message) (s : Server) → Whenever (Moves worker s) (dispatch now a b s)
unfolding dispatch
dispatch-Moves now a b s =
    let P : Outcome Server → Type 0 = Whenever (Moves worker s) in
    if_split P (not ((conn_of s b.conn).curr_sequence == b.curr_sequence)) (λ stale. tt)
      (λ fresh.
        if_split P (leb (length status_handler) (msg_code b.packet)) (λ beyond. tt)
          (λ within.
            option_split P (get_or status_handler (msg_code b.packet) none) tt
              (λ h. call_handler-Moves h now a b (sub16 (pkg_length b.packet) len_pkg_header) s)))

checked-Moves :
    (now a : ℕ) (b : Message) (s : Server) → Whenever (Moves worker s) (checked now a b s)
unfolding checked
checked-Moves now a b s =
    let q : Message = record b { packet = swapped 4 b.packet } in
    let t : Server = set_packet a b q.packet s in
    if_split (Whenever (Moves worker s)) (get_crc _ == crc_field b.packet)
      (λ matches.
        after_moves (dispatch now a q t) (kept {t = t} refl refl) (dispatch-Moves now a q t))
      (λ differs. tt)

recv_msg_handle_proc-Moves :
    (now a : ℕ) (s : Server) → Whenever (Moves worker s) (recv_msg_handle_proc now a s)
unfolding recv_msg_handle_proc
recv_msg_handle_proc-Moves now a s =
    let P : Outcome Server → Type 0 = Whenever (Moves worker s) in
    option_split P (s.memory.block a) (kept refl refl) (λ b.
      if_split P (pkg_length b.packet == len_pkg_header)
        (λ alone.
          if_split P (crc_field b.packet == 0) (λ zero_sum. dispatch-Moves now a b s) (λ other. tt))
        (λ body.
          if_split P (ltb (pkg_length b.packet) len_pkg_header) (λ short. kept refl refl)
            (λ long. checked-Moves now a b s)))

pub thread_round-Moves : (now : ℕ) (s : Server) → Whenever (Moves worker s) (thread_round now s)
unfolding thread_round
thread_round-Moves now s = by_list s.message.recv_msg_list refl
  where
    without_first : List ℕ → Server
    without_first rest =
        let m = s.message in
        record s {
          message = record m {
            recv_msg_list = rest;
            recv_msg_list_size = sub32 m.recv_msg_list_size 1;
          };
        }

    by_list :
        (q : List ℕ)
        → s.message.recv_msg_list ≡ q
        → Whenever (Moves worker s) (elim q [
          | [] ↦ done s
          | a ∷ rest ↦ recv_msg_handle_proc now a (without_first rest) >>= (λ u. done (freed a u))
        ])
    by_list [] e = Moves-refl s
    by_list (a ∷ rest) e =
        let t : Server = without_first rest in
        >>=-Whenever (Moves worker t) (Moves worker s) (recv_msg_handle_proc now a t)
          (λ u. done (freed a u)) (recv_msg_handle_proc-Moves now a t)
          (λ u h.
            Moves-trans (message_moves {t = t} refl (is_handled refl a rest e refl))
              (Moves-trans h (kept refl refl)))

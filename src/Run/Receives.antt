-- ===== src/Run/Receives.antt =====
-- net/XiaoHG_C_SocketRequest.cxx and app/XiaoHG_C_MessageCtl.cxx: what receiving does to the books.
use xiao_hg_server.Base.{
  ℕ, zero, suc, ℤ, pos, negsuc, refl, inl, Bool, true, false, ◌||◌, List, [], ◌∷◌, take, ltb, ◌==◌,
  if_split, option_split, Whenever, done, ◌>>=◌, >>=-Whenever,
}
use xiao_hg_server.Comm.{
  RecvStatus, hd_init, hd_recving, bd_init, bd_recving, len_pkg_header, pkg_max_length, pkg_length,
}
use xiao_hg_server.Connection.{BuffPtr, head_at, msg_at}
use xiao_hg_server.Pool.{close_connection_to_recy}
use xiao_hg_server.Receive.{
  eagain, eintr, econnreset, ebadf, other_errno, RecvResult, received, failed, put_bytes,
  recv_msg_proc, test_flood, flood_check, recv_msg_packet_parse_proc, new_message,
  recv_msg_header_parse_proc, wait_more, body_complete, on_received, after_recv,
  epoll_event_read_request_handler,
}
use xiao_hg_server.Run.Books.{
  main, after_moves, arrives, Moves, MovesTo, Moves-refl, Moves-trans, kept, message_moves,
}
use xiao_hg_server.Run.Closes.{close_connection_to_recy-Moves}
use xiao_hg_server.Server.{Server, conn_of}

put_bytes-Moves :
    (c : ℕ) (p : BuffPtr) (bs : List ℕ) (s : Server) → Moves main s (put_bytes c p bs s)
unfolding put_bytes
put_bytes-Moves c (head_at k) bs s = kept refl refl
put_bytes-Moves c (msg_at a k) bs s =
    option_split (Moves main s) (s.memory.block a) (kept refl refl) (λ b. kept refl refl)

recv_msg_proc-Moves :
    (now c : ℕ) (r : RecvResult) (s : Server) → Whenever (MovesTo main s) (recv_msg_proc now c r s)
unfolding recv_msg_proc
recv_msg_proc-Moves now c r s = by_answer r
  where
    closes :
        Whenever (MovesTo main s) (close_connection_to_recy now c s >>= (λ t. done (negsuc 0, t)))
    closes =
        >>=-Whenever (Moves main s) (MovesTo main s) (close_connection_to_recy now c s)
          (λ t. done (negsuc 0, t)) (close_connection_to_recy-Moves (inl refl) now c s) (λ t h. h)

    by_answer : (q : RecvResult) → Whenever (MovesTo main s) (recv_msg_proc now c q s)
    by_answer (received []) = closes
    by_answer (received (b ∷ bs)) = put_bytes-Moves c (conn_of s c).recv_msg_buff (b ∷ bs) s
    by_answer (failed eagain) = Moves-refl s
    by_answer (failed eintr) = Moves-refl s
    by_answer (failed econnreset) = closes
    by_answer (failed ebadf) = closes
    by_answer (failed other_errno) = closes

flood_check-Moves : (ms c : ℕ) (s : Server) → Moves main s (flood_check ms c s).1
unfolding flood_check test_flood
flood_check-Moves ms c s =
    if_split (MovesTo main s) (s.socket.flood_attack_enable == 1) (λ on. kept refl refl)
      (λ off. Moves-refl s)

recv_msg_packet_parse_proc-Moves :
    (c : ℕ) (is_flood : Bool) (s : Server) → Moves main s (recv_msg_packet_parse_proc c is_flood s)
unfolding recv_msg_packet_parse_proc
recv_msg_packet_parse_proc-Moves c true s = kept refl refl
recv_msg_packet_parse_proc-Moves c false s =
    message_moves refl (arrives refl (conn_of s c).recv_msg_mem_pointer refl)

new_message-Moves : (c n : ℕ) (head : List ℕ) (s : Server) → Moves main s (new_message c n head s)
unfolding new_message
new_message-Moves c n head s = Moves-trans (kept refl refl) (put_bytes-Moves c _ head _)

-- A packet that is complete.
packet-Moves :
    (ms c : ℕ) (s : Server)
    → let p = flood_check ms c s in Moves main s (recv_msg_packet_parse_proc c p.0 p.1)
packet-Moves ms c s =
    let p : Bool × Server = flood_check ms c s in
    Moves-trans (flood_check-Moves ms c s) (recv_msg_packet_parse_proc-Moves c p.0 p.1)

recv_msg_header_parse_proc-Moves :
    (ms c : ℕ) (s : Server) → Moves main s (recv_msg_header_parse_proc ms c s).1
unfolding recv_msg_header_parse_proc
recv_msg_header_parse_proc-Moves ms c s =
    let head = take len_pkg_header (conn_of s c).data_head_info in
    let n = pkg_length head in
    let t : Server = new_message c n head s in
    let made : Moves main s t = new_message-Moves c n head s in
    if_split (MovesTo main s) (ltb n len_pkg_header || ltb pkg_max_length n)
      (λ illegal. kept refl refl)
      (λ legal.
        if_split (MovesTo main s) (n == len_pkg_header)
          (λ alone. Moves-trans made (packet-Moves ms c t))
          (λ body. Moves-trans made (kept refl refl)))

on_received-Moves :
    (status : RecvStatus) (ms c n : ℕ) (s : Server) → Moves main s (on_received status ms c n s).1
unfolding on_received wait_more body_complete
on_received-Moves hd_init ms c n s =
    if_split (MovesTo main s) (n == len_pkg_header)
      (λ full. recv_msg_header_parse_proc-Moves ms c s) (λ part. kept refl refl)
on_received-Moves hd_recving ms c n s =
    if_split (MovesTo main s) ((conn_of s c).recv_msg_len == n)
      (λ full. recv_msg_header_parse_proc-Moves ms c s) (λ part. kept refl refl)
on_received-Moves bd_init ms c n s =
    if_split (MovesTo main s) (n == (conn_of s c).recv_msg_len) (λ full. packet-Moves ms c s)
      (λ part. kept refl refl)
on_received-Moves bd_recving ms c n s =
    if_split (MovesTo main s) ((conn_of s c).recv_msg_len == n) (λ full. packet-Moves ms c s)
      (λ part. kept refl refl)

after_recv-Moves :
    (now ms c : ℕ) (n : ℤ) (s : Server) → Whenever (Moves main s) (after_recv now ms c n s)
unfolding after_recv
after_recv-Moves now ms c (negsuc _) s = Moves-refl s
after_recv-Moves now ms c (pos zero) s = Moves-refl s
after_recv-Moves now ms c (pos (suc n)) s =
    let p : Bool × Server = on_received (conn_of s c).recv_msg_cur_status ms c (suc n) s in
    let h : Moves main s p.1 = on_received-Moves (conn_of s c).recv_msg_cur_status ms c (suc n) s in
    if_split (Whenever (Moves main s)) p.0
      (λ flood.
        after_moves (close_connection_to_recy now c p.1) h
          (close_connection_to_recy-Moves (inl refl) now c p.1))
      (λ calm. h)

pub epoll_event_read_request_handler-Moves :
    (now ms c : ℕ) (r : RecvResult) (s : Server)
    → Whenever (Moves main s) (epoll_event_read_request_handler now ms c r s)
unfolding epoll_event_read_request_handler
epoll_event_read_request_handler-Moves now ms c r s =
    >>=-Whenever (MovesTo main s) (Moves main s) (recv_msg_proc now c r s) _
      (recv_msg_proc-Moves now c r s)
      (λ p h. after_moves (after_recv now ms c p.0 p.1) h (after_recv-Moves now ms c p.0 p.1))

-- ===== src/Receive/Refine.antt =====
-- `EpollEventReadRequestHandler` on bytes that came, against the packet reader of Receive/Frame.
use xiao_hg_server.Base.{
  ℕ, suc, ◌≤◌, ◌<◌, ◌≡◌, refl, sym, subst, ap, ◌∙◌, ◌⊎◌, inl, inr, Bool, false, List, ◌∷◌, ◌++◌,
  map, Outcome, done, arith, if◌then◌else◌, ◌==◌, length, Bool-cases, ==_iff, eq-false→ne, if_true,
  if_false,
}
use xiao_hg_server.Comm.{
  RecvStatus, hd_init, hd_recving, bd_init, bd_recving, len_pkg_header, pkg_length,
}
use xiao_hg_server.Connection.{Connection, BuffPtr}
use xiao_hg_server.Memory.{Memory}
use xiao_hg_server.Server.{Server, conn_of}
use xiao_hg_server.Receive.{
  received, put_bytes, recv_msg_header_parse_proc, wait_more, body_complete, on_received,
  epoll_event_read_request_handler,
}
use xiao_hg_server.Receive.Frame.{push_bytes, settle, refused}
use xiao_hg_server.Receive.State.{
  packet_of, so_far, view, framer_of, InHead, InBody, IsReceiving, Receives,
}
use xiao_hg_server.Receive.Steps.{
  Holds, Keeps, handler_received, with_head, with_packet, stored, head_of, put_head-Holds,
  put_body-Holds, wait_more-Holds, body_complete-Holds, header_refused, header_alone,
  header_of_body,
}
use xiao_hg_server.Receive.Pending.{
  push_bytes-view, head_waits-IsReceiving, pending_head_waits, pending_head_ends, with_head-room,
  settle-view,
}
use xiao_hg_server.Receive.Header.{refused-view, alone_view, body_view}
use xiao_hg_server.Receive.Body.{waits_view, complete_view}

-- The call returns, and its connection has read what the packet reader reads.
pub record Reads (c : ℕ) (s : Server) (bs : List ℕ) (o : Outcome Server) : Type 0 where
  pub after : Server
  pub returns : o ≡ done after
  pub receives : Receives c after
  pub framed : framer_of c after ≡ push_bytes (framer_of c s) bs
  pub flood_off : (after.socket.flood_attack_enable == 1) ≡ false

-- What a branch of the state machine does, seen by the packet reader.
abbrev Settles : ℕ → List ℕ → List (List ℕ) → Bool × Server → Type 0
Settles c p out r =
    (r.0 ≡ false)
    × Receives c r.1
    × (framer_of c r.1 ≡ settle p out)
    × ((r.1.socket.flood_attack_enable == 1) ≡ false)

settles :
    (p : List ℕ) (out : List (List ℕ)) {c : ℕ} {y : Connection} {m : Memory} {l : List ℕ}
    {r : Bool × Server}
    → Keeps c y m l r
    → IsReceiving y m l × (view y m l ≡ settle p out)
    → Settles c p out r
settles p out (quiet, h) (i, v) =
    (quiet, rw (h.conn, h.memory, h.queue) i, rw (h.conn, h.memory, h.queue) v, h.flood_off)

-- The two header states do the same, and so do the two body states.
on_received_head :
    (ms c n k : ℕ) (t : Server) (st : RecvStatus)
    → ((st ≡ hd_init) × (k ≡ len_pkg_header)) ⊎ (st ≡ hd_recving)
    → (conn_of t c).recv_msg_len ≡ k
    → on_received st ms c n t
      ≡ (if k == n then recv_msg_header_parse_proc ms c t else (false, wait_more c n hd_recving t))
unfolding on_received
on_received_head ms c n k t hd_init (inl (e, f)) g = ground arith
on_received_head ms c n k t hd_init (inr e) g = cc
on_received_head ms c n k t hd_recving h g = rw g refl
on_received_head ms c n k t bd_init (inl (e, f)) g = cc
on_received_head ms c n k t bd_init (inr e) g = cc
on_received_head ms c n k t bd_recving (inl (e, f)) g = cc
on_received_head ms c n k t bd_recving (inr e) g = cc

on_received_body :
    (ms c n k : ℕ) (t : Server) (st : RecvStatus)
    → (st ≡ bd_init) ⊎ (st ≡ bd_recving)
    → (conn_of t c).recv_msg_len ≡ k
    → on_received st ms c n t
      ≡ (if k == n then body_complete ms c t else (false, wait_more c n bd_recving t))
unfolding on_received
on_received_body ms c n k t hd_init (inl e) g = cc
on_received_body ms c n k t hd_init (inr e) g = cc
on_received_body ms c n k t hd_recving (inl e) g = cc
on_received_body ms c n k t hd_recving (inr e) g = cc
on_received_body ms c n k t bd_init h g = rw g (ground arith)
on_received_body ms c n k t bd_recving h g = rw g refl

module _ (ms c : ℕ) (x : Connection) (m : Memory) (l : List ℕ) (h : IsReceiving x m l) (b : ℕ)
    (bs : List ℕ) (fits : suc (length bs) ≤ x.recv_msg_len) where
  abbrev goal : List ℕ
  goal = so_far x.recv_msg_buff x m ++ (b ∷ bs)

  abbrev queue : List (List ℕ)
  queue = map (packet_of m) l

  header_ends :
      (p : InHead x) (t : Server)
      → suc (length bs) ≡ x.recv_msg_len
      → Holds c (with_head p.at (b ∷ bs) x) m l t
      → Settles c goal queue (recv_msg_header_parse_proc ms c t)
  header_ends p t ends ht =
      let y = with_head p.at (b ∷ bs) x in
      let room = with_head-room h p (b ∷ bs) ends ∙ h.head_room in
      let same = ap (λ q. settle q queue) (sym (pending_head_ends h p (b ∷ bs) ends)) in
      let n = pkg_length (head_of y) in
      elim (Bool-cases (refused n)) [
        | inl bad ↦
            let v = refused-view c y m l room h.queued bad in
            settles goal queue (header_refused ms c t ht bad) (v.0, v.1 ∙ same)
        | inr good ↦ elim (Bool-cases (n == len_pkg_header)) [
          | inl alone ↦
              let v = alone_view c y m l room h.queued good alone in
              settles goal queue (header_alone ms c t ht good alone) (v.0, v.1 ∙ same)
          | inr more ↦
              let v = body_view c y m l room h.queued good more in
              settles goal queue (header_of_body ms c t ht good more) (v.0, v.1 ∙ same)
        ]
      ]

  head_branch :
      (p : InHead x) (t : Server)
      → Holds c (with_head p.at (b ∷ bs) x) m l t
      → Settles c goal queue
          (on_received (conn_of t c).recv_msg_cur_status ms c (suc (length bs)) t)
  head_branch p t ht =
      let at_head =
        on_received_head ms c (suc (length bs)) x.recv_msg_len t (conn_of t c).recv_msg_cur_status
          (rw ht.conn
            (elim p.status [ inl (k, e) ↦ inl (e, omega (arith, p.rest)) | inr e ↦ inr e ]))
          (ap (λ y. y.recv_msg_len) ht.conn) in
      elim (Bool-cases (x.recv_msg_len == suc (length bs))) [
        | inl e ↦
            subst (Settles c goal queue) (sym (at_head ∙ if_true _ _ _ e))
              (header_ends p t (sym ((==_iff x.recv_msg_len (suc (length bs))).0 e)) ht)
        | inr e ↦
            let short : suc (length bs) < x.recv_msg_len =
              omega (arith, eq-false→ne x.recv_msg_len (suc (length bs)) e) in
            let inside = head_waits-IsReceiving h p (b ∷ bs) short in
            subst (Settles c goal queue) (sym (at_head ∙ if_false _ _ _ e)) (
              settles goal queue (refl, wait_more-Holds c (suc (length bs)) hd_recving t ht)
                (
                  inside,
                  sym (settle-view goal queue inside (pending_head_waits h p (b ∷ bs) fits) refl),
                ))
      ]

  body_branch :
      (p : InBody x m l) (t : Server)
      → Holds c x (stored p.addr (with_packet p.at (b ∷ bs) p.block) m) l t
      → Settles c goal queue
          (on_received (conn_of t c).recv_msg_cur_status ms c (suc (length bs)) t)
  body_branch p t ht =
      let at_body =
        on_received_body ms c (suc (length bs)) x.recv_msg_len t (conn_of t c).recv_msg_cur_status
          (rw ht.conn p.status) (ap (λ y. y.recv_msg_len) ht.conn) in
      elim (Bool-cases (x.recv_msg_len == suc (length bs))) [
        | inl e ↦ subst (Settles c goal queue) (sym (at_body ∙ if_true _ _ _ e)) (
            settles goal queue (body_complete-Holds c ms t ht) (
              complete_view x m l h p (b ∷ bs) fits
                (sym ((==_iff x.recv_msg_len (suc (length bs))).0 e))))
        | inr e ↦ subst (Settles c goal queue) (sym (at_body ∙ if_false _ _ _ e)) (
            settles goal queue (refl, wait_more-Holds c (suc (length bs)) bd_recving t ht)
              (waits_view x m l h p (b ∷ bs) fits
                (omega (arith, eq-false→ne x.recv_msg_len (suc (length bs)) e))))
      ]

-- The branch that the state machine takes, from the state before the read.
branch :
    (ms c b : ℕ) (bs : List ℕ) (s : Server)
    → Receives c s
    → (s.socket.flood_attack_enable == 1) ≡ false
    → suc (length bs) ≤ (conn_of s c).recv_msg_len
    → let t = put_bytes c (conn_of s c).recv_msg_buff (b ∷ bs) s in
      Settles c
        (so_far (conn_of s c).recv_msg_buff (conn_of s c) s.memory ++ (b ∷ bs))
        (map (packet_of s.memory) s.message.recv_msg_list)
        (on_received (conn_of t c).recv_msg_cur_status ms c (suc (length bs)) t)
branch ms c b bs s h off fits =
    let here : Holds c (conn_of s c) s.memory s.message.recv_msg_list s = record {
      conn = refl;
      memory = refl;
      queue = refl;
      flood_off = off;
    } in
    let l = s.message.recv_msg_list in
    let x = conn_of s c in
    let Branch = λ (q : BuffPtr).
      let t = put_bytes c q (b ∷ bs) s in
      Settles c (so_far x.recv_msg_buff x s.memory ++ (b ∷ bs)) (map (packet_of s.memory) l)
        (on_received (conn_of t c).recv_msg_cur_status ms c (suc (length bs)) t) in
    elim h.phase [
      | inl p ↦
          subst Branch (sym p.points)
            (head_branch ms c x s.memory l h b bs fits p _ (put_head-Holds c p.at (b ∷ bs) s here))
      | inr p ↦ subst Branch (sym p.points) (
          body_branch ms c x s.memory l h b bs fits p _
            (put_body-Holds c p.addr p.at (b ∷ bs) s p.block p.live here))
    ]

-- With flood detection off, for a connection whose pointer, length and status agree, a read of at
-- least one byte and at most as many as the connection asked for returns; the connection is a
-- reader again, and it has read, and queued, exactly what the packet reader makes of those bytes
-- one by one.
pub epoll_event_read_request_handler-Reads :
    (now ms c b : ℕ) (bs : List ℕ) (s : Server)
    → Receives c s
    → (s.socket.flood_attack_enable == 1) ≡ false
    → length (b ∷ bs) ≤ (conn_of s c).recv_msg_len
    → Reads c s (b ∷ bs) (epoll_event_read_request_handler now ms c (received (b ∷ bs)) s)
epoll_event_read_request_handler-Reads now ms c b bs s h off fits =
    let (quiet, i, v, o) = branch ms c b bs s h off fits in
    record {
      after = _;
      returns =
          handler_received now ms c b bs s (conn_of s c).recv_msg_buff refl ∙ if_false _ _ _ quiet;
      receives = i;
      framed = v ∙ sym (push_bytes-view b bs h fits);
      flood_off = o;
    }

-- ===== src/Receive/Stream.antt =====
-- All the reads of one connection: however the kernel cuts the byte stream into reads, and
-- however often it has nothing to give, the connection receives the same packets.
use xiao_hg_server.Base.{
  done-injective, ℕ, ◌≤◌, ◌<◌, ◌≡◌, refl, sym, ap, ◌∙◌, inl, inr, false, List, [], ◌∷◌, ◌++◌,
  flatten, ◌⊎◌, done, arith, ◌==◌, length, All,
}
use xiao_hg_server.Server.{Server, conn_of}
use xiao_hg_server.Receive.{
  Errno, eagain, eintr, received, failed, epoll_event_read_request_handler, recv_msg_proc,
  after_recv,
}
use xiao_hg_server.Receive.Frame.{push_bytes, push_bytes-append, push_bytes-nil}
use xiao_hg_server.Receive.Packets.{IsPacket, push_packets}
use xiao_hg_server.Receive.State.{framer_of, Receives}
use xiao_hg_server.Receive.Refine.{epoll_event_read_request_handler-Reads}

-- `Feeds c s stream u`: calls of `EpollEventReadRequestHandler` for connection `c` took the server
-- from `s` to `u`, and read `stream` in all. In each, `recv` gave some bytes, at most as many as
-- asked for, or had to be called again.
pub data Feeds (c : ℕ) : Server → List ℕ → Server → Type 0 where
  idle : {s : Server} → Feeds c s [] s
  read :
      {s t u : Server} {stream : List ℕ} (now ms b : ℕ) (bs rest : List ℕ)
      → length (b ∷ bs) ≤ (conn_of s c).recv_msg_len
      → epoll_event_read_request_handler now ms c (received (b ∷ bs)) s ≡ done t
      → Feeds c t rest u
      → stream ≡ (b ∷ bs) ++ rest
      → Feeds c s stream u
  again :
      {s t u : Server} {stream : List ℕ} (now ms : ℕ) (e : Errno)
      → (e ≡ eagain) ⊎ (e ≡ eintr)
      → epoll_event_read_request_handler now ms c (failed e) s ≡ done t
      → Feeds c t stream u
      → Feeds c s stream u

-- What holds of the connection through all its reads.
pub record Reader (c : ℕ) (s : Server) : Type 0 where
  pub receives : Receives c s
  pub flood_off : (s.socket.flood_attack_enable == 1) ≡ false

handler_again :
    (now ms c : ℕ) (e : Errno) (s : Server)
    → (e ≡ eagain) ⊎ (e ≡ eintr)
    → epoll_event_read_request_handler now ms c (failed e) s ≡ done s
unfolding epoll_event_read_request_handler recv_msg_proc after_recv
handler_again now ms c eagain s h = refl
handler_again now ms c eintr s h = refl
handler_again now ms c e s h = ground arith

-- Whatever the sizes of the reads, the connection has read what the packet reader makes of the
-- stream byte by byte.
pub Feeds-push_bytes :
    {c : ℕ} {s u : Server} {stream : List ℕ}
    → Reader c s
    → Feeds c s stream u
    → Reader c u × (framer_of c u ≡ push_bytes (framer_of c s) stream)
Feeds-push_bytes r idle = (r, sym (push_bytes-nil _))
Feeds-push_bytes {c} {s} r (read {t = t} now ms b bs rest fits e more split) =
    let one = epoll_event_read_request_handler-Reads now ms c b bs s r.receives r.flood_off fits in
    let same : one.after ≡ t = done-injective (sym one.returns ∙ e) in
    let r' : Reader c t =
      rw (← same) (record { receives = one.receives; flood_off = one.flood_off }) in
    let (r'', f) = Feeds-push_bytes r' more in
    (
      r'',
      f
          ∙ ap (λ q. push_bytes (framer_of c q) rest) (sym same)
          ∙ ap (λ q. push_bytes q rest) one.framed
          ∙ sym (push_bytes-append (framer_of c s) (b ∷ bs) rest)
          ∙ ap (push_bytes (framer_of c s)) (sym split),
    )
Feeds-push_bytes {c} {s} {stream = stream} r (again {t = t} now ms x why e more) =
    let same : s ≡ t = done-injective (sym (handler_again now ms c x s why) ∙ e) in
    let r' : Reader c t = rw (← same) r in
    let (r'', f) = Feeds-push_bytes r' more in
    (r'', f ∙ ap (λ q. push_bytes (framer_of c q) stream) (sym same))

-- A connection that is between two packets and is sent whole packets queues exactly these, in
-- their order, behind what was queued before, and is between two packets again.
pub Feeds-packets :
    {c : ℕ} {s u : Server} (ps : List (List ℕ))
    → Reader c s
    → (framer_of c s).pending ≡ []
    → All IsPacket ps
    → Feeds c s (flatten ps) u
    → ((framer_of c u).pending ≡ []) × ((framer_of c u).frames ≡ (framer_of c s).frames ++ ps)
Feeds-packets {c} {s} ps r between whole f =
    let e =
      (Feeds-push_bytes r f).1
      ∙ ap (λ p. push_bytes (record { pending = p; frames = (framer_of c s).frames }) (flatten ps))
          between
      ∙ push_packets ps (framer_of c s).frames whole in
    (ap (λ q. q.pending) e, ap (λ q. q.frames) e)

one_fits : (c : ℕ) (s : Server) → Receives c s → 0 < (conn_of s c).recv_msg_len
one_fits c s h = elim h.phase [ inl p ↦ p.some_rest | inr p ↦ p.some_rest ]

-- The handler never stands still: every stream can be read to its end.
pub Feeds-total :
    (c : ℕ) (s : Server) (stream : List ℕ) → Reader c s → (u : Server) × Feeds c s stream u
Feeds-total c s [] r = (s, idle)
Feeds-total c s (b ∷ rest) r =
    let one =
      epoll_event_read_request_handler-Reads 0 0 c b [] s r.receives r.flood_off
        (one_fits c s r.receives) in
    let (u, f) =
      Feeds-total c one.after rest
        (record { receives = one.receives; flood_off = one.flood_off }) in
    (u, read 0 0 b [] rest (one_fits c s r.receives) one.returns f refl)

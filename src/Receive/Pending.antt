-- ===== src/Receive/Pending.antt =====
-- The views of the states that a read passes through, as the packet reader `settle` sees them.
use xiao_hg_server.Base.{
  ℕ, suc, ◌+◌, ◌≤◌, ◌<◌, ◌≡◌, refl, sym, ap, ap₂, ◌∙◌, inl, inr, List, [], ◌∷◌, ◌++◌, map, arith,
  length, take, write_at, All, length-take, length-write_at, take-write_at,
}
use xiao_hg_server.Comm.{hd_recving, len_pkg_header, msg_header_len, pkg_length-take}
use xiao_hg_server.Connection.{Connection}
use xiao_hg_server.Memory.{Memory}
use xiao_hg_server.Receive.{ready}
use xiao_hg_server.Receive.Frame.{
  settle, push_bytes, IsPending, in_header, in_body, push_bytes-settle, settle_waits,
}
use xiao_hg_server.Receive.State.{packet_in, packet_of, so_far, view, InHead, InBody, IsReceiving}
use xiao_hg_server.Receive.Steps.{with_head, waited, head_of}

pending_of_head :
    {x : Connection} (m : Memory) (h : InHead x)
    → so_far x.recv_msg_buff x m ≡ take h.at x.data_head_info
pending_of_head {x} m h = ap (λ p. so_far p x m) h.points

pub pending_of_body :
    {x : Connection} {m : Memory} {l : List ℕ} (h : InBody x m l)
    → so_far x.recv_msg_buff x m ≡ take h.at h.block.packet
pending_of_body {x} {m} h =
    ap (λ p. so_far p x m) h.points ∙ ap (λ b. take h.at (packet_in b)) h.live

-- A reading connection lacks as many bytes as it asks `recv` for.
pub IsReceiving-IsPending :
    {x : Connection} {m : Memory} {l : List ℕ}
    → IsReceiving x m l
    → IsPending (so_far x.recv_msg_buff x m) x.recv_msg_len
IsReceiving-IsPending {x} {m} h = elim h.phase [
  | inl p ↦ rw (pending_of_head m p) (
      in_header
        (omega
          (arith, p.rest, length-take p.at x.data_head_info (omega (arith, h.head_room, p.rest))))
        p.some_rest)
  | inr p ↦
      let n = length-take p.at p.block.packet (omega (arith, p.rest)) in
      let k = pkg_length-take p.at p.block.packet (omega (arith, p.behind_header)) in
      rw (pending_of_body p) (
        in_body (omega (arith, n, p.behind_header)) (omega (arith, k, p.legal))
          (omega (arith, n, k, p.rest, p.sized)) p.some_rest)
]

-- So what the packet reader makes of a read is one `settle`.
pub push_bytes-view :
    {x : Connection} {m : Memory} {l : List ℕ} (b : ℕ) (bs : List ℕ)
    → IsReceiving x m l
    → suc (length bs) ≤ x.recv_msg_len
    → push_bytes (view x m l) (b ∷ bs)
      ≡ settle (so_far x.recv_msg_buff x m ++ (b ∷ bs)) (map (packet_of m) l)
push_bytes-view {x} {m} {l} b bs h fits =
    push_bytes-settle (so_far x.recv_msg_buff x m) (map (packet_of m) l) b bs x.recv_msg_len
      (IsReceiving-IsPending h) fits

-- The read ends inside the header.
module _ {x : Connection} {m : Memory} {l : List ℕ} (h : IsReceiving x m l) (p : InHead x)
    (bs : List ℕ) where
  pub head_waits-IsReceiving :
      length bs < x.recv_msg_len
      → IsReceiving (waited (length bs) hd_recving (with_head p.at bs x)) m l
  head_waits-IsReceiving short = record {
    head_room =
        length-write_at x.data_head_info p.at bs (omega (arith, h.head_room, p.rest)) ∙ h.head_room;
    queued = h.queued;
    phase = inl (record {
      at = p.at + length bs;
      points =
          ap (λ q. (waited (length bs) hd_recving (record x { recv_msg_buff = q })).recv_msg_buff)
            p.points;
      rest = omega (arith, p.rest);
      some_rest = omega (arith, p.rest);
      status = inr refl;
    });
  }

  pub pending_head :
      length bs ≤ x.recv_msg_len
      → so_far x.recv_msg_buff x m ++ bs
        ≡ take (p.at + length bs) (write_at x.data_head_info p.at bs)
  pending_head fits =
      ap (λ t. t ++ bs) (pending_of_head m p)
      ∙ sym (take-write_at x.data_head_info p.at bs (omega (arith, h.head_room, p.rest)))

  pub pending_head_waits :
      length bs ≤ x.recv_msg_len
      → so_far x.recv_msg_buff x m ++ bs
        ≡ so_far
            (waited (length bs) hd_recving (with_head p.at bs x)).recv_msg_buff
            (waited (length bs) hd_recving (with_head p.at bs x))
            m
  pending_head_waits fits =
      pending_head fits
      ∙ sym (
          ap
            (λ q.
              so_far (waited (length bs) hd_recving (record x { recv_msg_buff = q })).recv_msg_buff
                (waited (length bs) hd_recving (with_head p.at bs x)) m)
            p.points)

  -- The read ends the header: it stands in `dataHeadInfo`.
  pub pending_head_ends :
      length bs ≡ x.recv_msg_len → so_far x.recv_msg_buff x m ++ bs ≡ head_of (with_head p.at bs x)
  pending_head_ends ends =
      let full : p.at + length bs ≡ len_pkg_header = omega (arith, p.rest) in
      pending_head (omega arith) ∙ ap (λ k. take k (write_at x.data_head_info p.at bs)) full

  pub with_head-room :
      length bs ≡ x.recv_msg_len
      → length (with_head p.at bs x).data_head_info ≡ length x.data_head_info
  with_head-room ends =
      length-write_at x.data_head_info p.at bs (omega (arith, h.head_room, p.rest))

-- The packet reader waits where the receiver waits.
pub settle-view :
    {x : Connection} {m : Memory} {l : List ℕ} (p : List ℕ) (out : List (List ℕ))
    → IsReceiving x m l
    → p ≡ so_far x.recv_msg_buff x m
    → out ≡ map (packet_of m) l
    → settle p out ≡ view x m l
settle-view {x} {m} {l} p out h e f =
    ap₂ settle e f ∙ settle_waits _ (map (packet_of m) l) (IsReceiving-IsPending h)

-- A block outside the queue can be written without a change to the queued packets.
pub map-packet_of :
    (m m' : Memory) (l : List ℕ)
    → All (λ a. m'.block a ≡ m.block a) l
    → map (packet_of m') l ≡ map (packet_of m) l
map-packet_of m m' [] h = refl
map-packet_of m m' (a ∷ l) h = ap₂ ◌∷◌ (ap packet_in h.0) (map-packet_of m m' l h.1)

pub map-packet_of_concat :
    (m m' : Memory) (l : List ℕ) (a : ℕ)
    → All (λ j. m'.block j ≡ m.block j) l
    → map (packet_of m') (l ++ (a ∷ [])) ≡ map (packet_of m) l ++ (packet_of m' a ∷ [])
map-packet_of_concat m m' [] a h = refl
map-packet_of_concat m m' (j ∷ l) a h =
    ap₂ ◌∷◌ (ap packet_in h.0) (map-packet_of_concat m m' l a h.1)

pub ready-IsReceiving :
    (x : Connection) (m : Memory) (l : List ℕ)
    → length x.data_head_info ≡ msg_header_len
    → All (λ a. a < m.next) l
    → IsReceiving (ready x) m l
ready-IsReceiving x m l r q = record {
  head_room = r;
  queued = q;
  phase = inl (record {
    at = 0;
    points = refl;
    rest = omega arith;
    some_rest = omega arith;
    status = inl (refl, refl);
  });
}

-- ===== src/Receive/Body.antt =====
-- A read into the body of a packet: what is made of the connection and of the memory.
use xiao_hg_server.Base.{
  ℕ, ◌+◌, ◌≤◌, ◌<◌, ◌≡◌, refl, sym, ap, subst, ◌∙◌, inr, false, List, [], ◌∷◌, ◌++◌, some, map,
  arith, length, take, update_self, update_ne, All, All-map, All-append, length-take,
  length-write_at, take-write_at, take_all,
}
use xiao_hg_server.Comm.{
  bd_recving, len_pkg_header, pkg_max_length, pkg_length, pkg_length-take, pkg_length-append,
}
use xiao_hg_server.Connection.{Connection}
use xiao_hg_server.Memory.{Message, Memory}
use xiao_hg_server.Receive.{ready}
use xiao_hg_server.Receive.Frame.{settle, refused, settle_complete}
use xiao_hg_server.Receive.State.{packet_in, packet_of, so_far, view, InBody, IsReceiving}
use xiao_hg_server.Receive.Steps.{with_packet, stored, waited}
use xiao_hg_server.Receive.Pending.{
  pending_of_body, settle-view, map-packet_of, map-packet_of_concat, ready-IsReceiving,
}

accept : (n : ℕ) → len_pkg_header ≤ n → n ≤ pkg_max_length → refused n ≡ false
accept n h k = ground arith

module _ (x : Connection) (m : Memory) (l : List ℕ) (h : IsReceiving x m l) (p : InBody x m l)
    (bs : List ℕ) (fits : length bs ≤ x.recv_msg_len) where
  abbrev block : Message
  block = with_packet p.at bs p.block

  abbrev made : Memory
  made = stored p.addr (with_packet p.at bs p.block) m

  live : made.block p.addr ≡ some block
  live = update_self m.block p.addr (some block)

  others : All (λ a. made.block a ≡ m.block a) l
  others = All-map l (λ a ne. update_ne m.block p.addr _ a ne) p.unqueued

  length_block : length block.packet ≡ length p.block.packet
  length_block = length-write_at p.block.packet p.at bs (omega (arith, p.rest))

  take_block : take (p.at + length bs) block.packet ≡ take p.at p.block.packet ++ bs
  take_block = take-write_at p.block.packet p.at bs (omega (arith, p.rest))

  -- The length field is not written again.
  named : pkg_length block.packet ≡ pkg_length p.block.packet
  named =
      sym (pkg_length-take (p.at + length bs) block.packet (omega (arith, p.behind_header)))
      ∙ ap pkg_length take_block
      ∙ pkg_length-append (take p.at p.block.packet) bs (
          omega (
            arith,
            p.behind_header,
            p.rest,
            length-take p.at p.block.packet (omega (arith, p.rest)),
          ))
      ∙ pkg_length-take p.at p.block.packet (omega (arith, p.behind_header))

  gathered : so_far x.recv_msg_buff x m ++ bs ≡ take (p.at + length bs) (packet_of made p.addr)
  gathered =
      ap (λ t. t ++ bs) (pending_of_body p)
      ∙ sym (ap (λ b. take (p.at + length bs) (packet_in b)) live ∙ take_block)

  -- The body is not complete.
  pub waits_view :
      length bs < x.recv_msg_len
      → let y = waited (length bs) bd_recving x in
        IsReceiving y made l
        × (view y made l ≡ settle (so_far x.recv_msg_buff x m ++ bs) (map (packet_of m) l))
  waits_view short = (
    inside,
    sym (
        settle-view (so_far x.recv_msg_buff x m ++ bs) (map (packet_of m) l) inside
          (gathered
            ∙ sym (
                ap
                  (λ q.
                    so_far
                      (waited (length bs) bd_recving (record x { recv_msg_buff = q })).recv_msg_buff
                      (waited (length bs) bd_recving x) made)
                  p.points))
          (sym (map-packet_of m made l others))),
  )
    where
      inside : IsReceiving (waited (length bs) bd_recving x) made l
      inside = record {
        head_room = h.head_room;
        queued = h.queued;
        phase = inr (record {
          addr = p.addr;
          at = p.at + length bs;
          block = block;
          points =
              ap
                (λ q.
                  (waited (length bs) bd_recving (record x { recv_msg_buff = q })).recv_msg_buff)
                p.points;
          owned = p.owned;
          live = live;
          allocated = p.allocated;
          unqueued = p.unqueued;
          behind_header = omega (arith, p.behind_header);
          rest = omega (arith, p.rest, length_block, p.legal, p.sized);
          some_rest = omega (arith, p.rest, p.legal, p.sized);
          sized = length_block ∙ p.sized ∙ sym named;
          legal = omega (arith, named, p.legal);
          status = inr refl;
        });
      }

  accepted :
      length block.packet ≡ pkg_length block.packet → refused (pkg_length block.packet) ≡ false
  accepted e =
      accept (pkg_length block.packet) (omega (arith, e, length_block, p.rest, p.behind_header))
        (omega (arith, named, p.legal))

  -- The body is complete: its block goes to the queue.
  pub complete_view :
      length bs ≡ x.recv_msg_len
      → IsReceiving (ready x) made (l ++ (x.recv_msg_mem_pointer ∷ []))
        × (view (ready x) made (l ++ (x.recv_msg_mem_pointer ∷ []))
            ≡ settle (so_far x.recv_msg_buff x m ++ bs) (map (packet_of m) l))
  complete_view ends =
      let full : p.at + length bs ≡ length block.packet = omega (arith, p.rest, length_block) in
      let whole =
        gathered
        ∙ ap (λ b. take (p.at + length bs) (packet_in b)) live
        ∙ ap (λ k. take k block.packet) full
        ∙ take_all block.packet in
      subst
        (λ a.
          IsReceiving (ready x) made (l ++ (a ∷ []))
          × (view (ready x) made (l ++ (a ∷ []))
              ≡ settle (so_far x.recv_msg_buff x m ++ bs) (map (packet_of m) l)))
        (sym p.owned)
        (
          ready-IsReceiving x made (l ++ (p.addr ∷ [])) h.head_room
              (All-append (λ a. a < m.next) l (p.addr ∷ []) h.queued (p.allocated, tt)),
          ap (λ f. record { pending = []; frames = f })
                (map-packet_of_concat m made l p.addr others
                  ∙ ap (λ q. map (packet_of m) l ++ (q ∷ [])) (ap packet_in live))
              ∙ sym (
                  ap (λ q. settle q (map (packet_of m) l)) whole
                  ∙ settle_complete block.packet (map (packet_of m) l)
                      (omega (arith, length_block, p.rest, p.behind_header))
                      (accepted (length_block ∙ p.sized ∙ sym named))
                      (length_block ∙ p.sized ∙ sym named)),
        )

-- ===== src/Receive/Header.antt =====
-- A header that has just been completed: what is made of the connection and of the memory.
use xiao_hg_server.Base.{
  ℕ, ◌+◌, ◌≤◌, ◌<◌, ◌≡◌, refl, sym, ap, ◌∙◌, inl, inr, true, false, List, [], ◌∷◌, ◌++◌, some, map,
  arith, ◌==◌, length, take, replicate, update_self, update_ne, All, All-map, All-append,
  length-take, length-write_at, take-write_at, length-replicate, write_at_all, ==_iff,
}
use xiao_hg_server.Comm.{
  len_pkg_header, msg_header_len, pkg_max_length, pkg_length, pkg_length-take,
}
use xiao_hg_server.Connection.{Connection}
use xiao_hg_server.Memory.{Message, Memory}
use xiao_hg_server.Receive.{ready}
use xiao_hg_server.Receive.Frame.{settle, refused, settle-refused, settle_complete}
use xiao_hg_server.Receive.State.{packet_in, packet_of, view, IsReceiving}
use xiao_hg_server.Receive.Steps.{with_packet, with_block, blank, labelled, head_of, to_body}
use xiao_hg_server.Receive.Pending.{
  settle-view, map-packet_of, map-packet_of_concat, ready-IsReceiving,
}

module _ (c : ℕ) (x : Connection) (m : Memory) (l : List ℕ)
    (room : length x.data_head_info ≡ msg_header_len) (queued : All (λ a. a < m.next) l) where
  abbrev head : List ℕ
  head = head_of x

  abbrev size : ℕ
  size = pkg_length (head_of x)

  abbrev made : Memory
  made = labelled c (pkg_length (head_of x)) (head_of x) x m

  abbrev block : Message
  block = with_packet 0 (head_of x) (blank c x.curr_sequence (pkg_length (head_of x)) m.junk)

  length-head : length head ≡ len_pkg_header
  length-head = length-take len_pkg_header x.data_head_info (omega (arith, room))

  live : made.block m.next ≡ some block
  live = update_self _ m.next (some block)

  others : All (λ a. made.block a ≡ m.block a) l
  others =
      All-map l
        (λ a lt. update_ne _ m.next _ a (omega arith) ∙ update_ne m.block m.next _ a (omega arith))
        queued

  length_block : len_pkg_header ≤ size → length block.packet ≡ size
  length_block h =
      length-write_at (replicate size m.junk) 0 head
        (omega (arith, length-head, length-replicate size m.junk))
      ∙ length-replicate size m.junk

  take_block : len_pkg_header ≤ size → take len_pkg_header block.packet ≡ head
  take_block h =
      let full : len_pkg_header ≡ 0 + length head = omega (arith, length-head) in
      ap (λ k. take k block.packet) full
      ∙ take-write_at (replicate size m.junk) 0 head
          (omega (arith, length-head, length-replicate size m.junk))

  pub refused-view :
      refused size ≡ true
      → IsReceiving (ready x) m l × (view (ready x) m l ≡ settle head (map (packet_of m) l))
  refused-view bad = (
    ready-IsReceiving x m l room queued,
    sym (settle-refused head (map (packet_of m) l) (omega (arith, length-head)) bad),
  )

  pub alone_view :
      refused size ≡ false
      → (size == len_pkg_header) ≡ true
      → let y = ready (with_block m.next x) in
        IsReceiving y made (l ++ (m.next ∷ []))
        × (view y made (l ++ (m.next ∷ [])) ≡ settle head (map (packet_of m) l))
  alone_view good alone =
      let n : size ≡ len_pkg_header = (==_iff size len_pkg_header).0 alone in
      let packet : packet_of made m.next ≡ head =
        ap packet_in live
        ∙ write_at_all (replicate size m.junk) head
            (omega (arith, length-head, length-replicate size m.junk, n)) in
      (
        ready-IsReceiving (with_block m.next x) made (l ++ (m.next ∷ [])) room (
            All-append (λ a. a < made.next) l (m.next ∷ []) (All-map l (λ a h. omega arith) queued)
              (omega arith, tt)),
        ap (λ f. record { pending = []; frames = f })
              (map-packet_of_concat m made l m.next others
                ∙ ap (λ q. map (packet_of m) l ++ (q ∷ [])) packet)
            ∙ sym (
                settle_complete head (map (packet_of m) l) (omega (arith, length-head)) good
                  (omega (arith, length-head, n))),
      )

  body_size :
      refused size ≡ false
      → (size == len_pkg_header) ≡ false
      → (len_pkg_header < size) × (size ≤ pkg_max_length)
  body_size good more = ground arith

  body_inside :
      refused size ≡ false
      → (size == len_pkg_header) ≡ false
      → IsReceiving (to_body m.next size x) made l
  body_inside good more =
      let ok = body_size good more in
      let h : len_pkg_header ≤ size = omega (arith, ok.0) in
      let named =
        sym (pkg_length-take len_pkg_header block.packet (omega arith))
        ∙ ap pkg_length (take_block h) in
      record {
        head_room = room;
        queued = All-map l (λ a h. omega arith) queued;
        phase = inr (record {
          addr = m.next;
          at = len_pkg_header;
          block = block;
          points = refl;
          owned = refl;
          live = live;
          allocated = omega arith;
          unqueued = All-map l (λ a lt e. omega arith) queued;
          behind_header = omega arith;
          rest = omega (arith, length_block h);
          some_rest = omega (arith, ok.0);
          sized = length_block h ∙ sym named;
          legal = omega (arith, named, ok.1);
          status = inl refl;
        });
      }

  pub body_view :
      refused size ≡ false
      → (size == len_pkg_header) ≡ false
      → let y = to_body m.next size x in
        IsReceiving y made l × (view y made l ≡ settle head (map (packet_of m) l))
  body_view good more =
      let ok = body_size good more in
      let h : len_pkg_header ≤ size = omega (arith, ok.0) in
      (
        body_inside good more,
        sym (
            settle-view head (map (packet_of m) l) (body_inside good more)
              (sym (ap (λ b. take len_pkg_header (packet_in b)) live ∙ take_block h))
              (sym (map-packet_of m made l others))),
      )

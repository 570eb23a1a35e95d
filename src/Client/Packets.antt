-- ===== src/Client/Packets.antt =====
-- test/test_logic.cxx: the packets of the test client, and what the server makes of their headers.
use xiao_hg_server.Base.{
  ℕ, ◌+◌, ◌^◌, ◌<◌, ◌≡◌, refl, sym, subst, ap, ◌∙◌, true, List, [], ◌∷◌, ◌++◌, arith, All, length,
  drop, write_at, write_at_lem, drop_all, length-drop, codes,
}
use xiao_hg_server.Business.{htons, htonl, header_of}
use xiao_hg_server.Business.Accepts.{well_summed}
use xiao_hg_server.Business.Reply.{All-drop, headed, headed-IsReply}
use xiao_hg_server.Client.{
  heart_beat_packet, summed_block, register_packet, login_packet, Request, heart_beat, register,
  login, block_size, packet_of,
}
use xiao_hg_server.Comm.{len_pkg_header, len_register, len_login, pkg_length, msg_code, crc_field}
use xiao_hg_server.Crc32.{get_crc}
use xiao_hg_server.Receive.Packets.{IsPacket}
use xiao_hg_server.Client.Headers.{
  IsByte, IsHeaded, stamped, four, headed_block-IsHeaded, write_at-IsHeaded,
}

-- The checksum makes it a packet.
summed_block-headed :
    (size code : ℕ) (b : List ℕ)
    → IsHeaded size code b
    → summed_block b ≡ headed (len_pkg_header + size) code (drop len_pkg_header b)
unfolding summed_block
summed_block-headed size code b h =
    let c : List ℕ = htonl (get_crc (drop len_pkg_header b)) in
    write_at_lem b 4 c ∙ ap (λ l. l ++ (c ++ drop len_pkg_header b)) h.head

-- A packet that the server takes, with the code of the request.
pub record Proper (size code : ℕ) (p : List ℕ) : Type 0 where
  pub long : length p ≡ size
  pub packet : IsPacket p
  pub summed : well_summed p ≡ true
  pub kind : msg_code p ≡ code

summed_block-Proper :
    (size code : ℕ) (b : List ℕ)
    → IsHeaded size code b
    → 0 < size
    → size < 1000
    → code < 2 ^ 16
    → Proper (len_pkg_header + size) code (summed_block b)
summed_block-Proper size code b h some_body small known =
    let body : List ℕ = drop len_pkg_header b in
    let e = summed_block-headed size code b h in
    let n : length body + len_pkg_header ≡ len_pkg_header + size =
      omega (arith, length-drop len_pkg_header b, h.long) in
    let r =
      headed-IsReply (len_pkg_header + size) code body n (omega (arith, n)) (omega arith) known
        (All-drop len_pkg_header b h.bytes) in
    let long : length (headed (len_pkg_header + size) code body) ≡ len_pkg_header + size =
      omega (arith, n) in
    subst (Proper (len_pkg_header + size) code) (sym e) (record {
      long = long;
      packet = record {
        header = omega (arith, long);
        short = omega (arith, long);
        sized = r.size ∙ sym long;
      };
      summed = r.summed;
      kind = r.kind;
    })

-- The header alone.
heart_beat_packet_lem :
    (block : List ℕ) → length block ≡ len_pkg_header → heart_beat_packet block ≡ header_of 8 0 0
unfolding heart_beat_packet
heart_beat_packet_lem block e =
    four (λ b. length b ≡ len_pkg_header → heart_beat_packet b ≡ header_of 8 0 0) block
      (omega (arith, e)) alone e
  where
    zeros : List ℕ
    zeros = 0 ∷ 0 ∷ 0 ∷ 0 ∷ []

    alone :
        (x y z w : ℕ) (rest : List ℕ)
        → length (x ∷ y ∷ z ∷ w ∷ rest) ≡ len_pkg_header
        → heart_beat_packet (x ∷ y ∷ z ∷ w ∷ rest) ≡ header_of 8 0 0
    alone x y z w rest n =
        ap (λ b. write_at (write_at b 2 (htons 0)) 0 (htons 8))
          (write_at_lem (x ∷ y ∷ z ∷ w ∷ rest) 4 zeros)
        ∙ stamped 0 0 0 8 x y z w (zeros ++ drop 4 rest)
        ∙ ap (λ l. 0 ∷ 8 ∷ 0 ∷ 0 ∷ (zeros ++ l)) (drop_all 4 rest (omega (arith, n)))

heart_beat_packet-Proper :
    (block : List ℕ) → length block ≡ len_pkg_header → Proper 8 0 (heart_beat_packet block)
unfolding pkg_length msg_code crc_field well_summed
heart_beat_packet-Proper block e =
    subst (Proper 8 0) (sym (heart_beat_packet_lem block e)) header_alone
  where
    header_alone : Proper 8 0 (header_of 8 0 0)
    header_alone = record {
      long = refl;
      packet = record { header = omega arith; short = omega arith; sized = refl };
      summed = refl;
      kind = refl;
    }

register_packet-Proper :
    (block : List ℕ)
    → length block ≡ len_pkg_header + len_register
    → All IsByte block
    → Proper 108 5 (register_packet block)
unfolding register_packet
register_packet-Proper block e h =
    let b = headed_block-IsHeaded 5 len_register block e h in
    let b1 =
      write_at-IsHeaded len_register 5 _ 8 (htonl 100) b (omega arith) (omega arith)
        (omega arith) in
    let b2 =
      write_at-IsHeaded len_register 5 _ 12 (codes "XiaoHG_Register" ++ (0 ∷ [])) b1 (omega arith)
        (omega arith) (omega arith) in
    let b3 =
      write_at-IsHeaded len_register 5 _ 68 (codes "xiaohaige" ++ (0 ∷ [])) b2 (omega arith)
        (omega arith) (omega arith) in
    summed_block-Proper len_register 5 _ b3 (omega arith) (omega arith) (omega arith)

login_packet-Proper :
    (block : List ℕ)
    → length block ≡ len_pkg_header + len_login
    → All IsByte block
    → Proper 104 6 (login_packet block)
unfolding login_packet
login_packet-Proper block e h =
    let b = headed_block-IsHeaded 6 len_login block e h in
    let b1 =
      write_at-IsHeaded len_login 6 _ 8 (codes "XiaoHG_Login" ++ (0 ∷ [])) b (omega arith)
        (omega arith) (omega arith) in
    let b2 =
      write_at-IsHeaded len_login 6 _ 64 (codes "xiaohaige" ++ (0 ∷ [])) b1 (omega arith)
        (omega arith) (omega arith) in
    summed_block-Proper len_login 6 _ b2 (omega arith) (omega arith) (omega arith)

-- The message code of a request.
abbrev pub code_of : Request → ℕ
code_of heart_beat = 0
code_of register = 5
code_of login = 6

pub packet_of-Proper :
    (r : Request) (block : List ℕ)
    → length block ≡ block_size r
    → All IsByte block
    → Proper (block_size r) (code_of r) (packet_of r block)
unfolding packet_of
packet_of-Proper heart_beat block e h = heart_beat_packet-Proper block e
packet_of-Proper register block e h = register_packet-Proper block e h
packet_of-Proper login block e h = login_packet-Proper block e h

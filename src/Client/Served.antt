-- ===== src/Client/Served.antt =====
-- test/: what the server makes of what its test client sends.
use xiao_hg_server.Base.{
  ℕ, ℤ, pos, ◌≤◌, ◌≡◌, refl, sym, subst, ap, ap₂, ◌∙◌, Outcome, Bool, true, ◌&&◌, List, [], ◌∷◌,
  ◌++◌, flatten, some, done, arith, All, length, take_more, le→leb, if◌then◌else◌, leb, if_true,
  ==_iff, ◌==◌,
}
use xiao_hg_server.Business.{recv_msg_handle_proc}
use xiao_hg_server.Business.Accepts.{
  CanReply, Returns, Decides, accepts, ends, acceptable, known_code, recv_msg_handle_proc-Decides,
}
use xiao_hg_server.Client.{
  Request, heart_beat, register, login, block_size, packet_of, send_msg, returned, after,
  send_rounds,
}
use xiao_hg_server.Client.Packets.{Proper, code_of, packet_of-Proper}
use xiao_hg_server.Client.Headers.{IsByte}
use xiao_hg_server.Client.Wire.{granted, send_data-granted}
use xiao_hg_server.Comm.{msg_code}
use xiao_hg_server.Memory.{Message}
use xiao_hg_server.Receive.Packets.{IsPacket}
use xiao_hg_server.Receive.State.{framer_of}
use xiao_hg_server.Receive.Stream.{Feeds, Reader, Feeds-packets}
use xiao_hg_server.Server.{Server, conn_of}

-- The packets of the rounds of a thread.
abbrev pub packets : Request → List (List ℕ × List ℤ) → List (List ℕ)
packets r [] = []
packets r ((block, answers) ∷ more) = packet_of r block ∷ packets (after r) more

-- In every round `malloc` gives a block of bytes of the size that is asked for, and `send` takes all
-- of the packet.
abbrev pub AllSent : Request → List (List ℕ × List ℤ) → Type 0
AllSent r [] = Unit
AllSent r ((block, answers) ∷ more) =
    (length block ≡ block_size r)
    × All IsByte block
    × (block_size r ≤ granted answers)
    × AllSent (after r) more

packets-IsPacket :
    (r : Request) (rounds : List (List ℕ × List ℤ))
    → AllSent r rounds
    → All IsPacket (packets r rounds)
packets-IsPacket r [] h = tt
packets-IsPacket r ((block, answers) ∷ more) h =
    ((packet_of-Proper r block h.0 h.1).packet, packets-IsPacket (after r) more h.3)

-- A message that `send` takes whole.
send_msg_whole :
    (r : Request) (answers : List ℤ) (block : List ℕ)
    → length (packet_of r block) ≤ granted answers
    → send_msg r answers block
      ≡ record { wire = packet_of r block; value = some (pos (length (packet_of r block))) }
unfolding send_msg
send_msg_whole r answers block h =
    let p : List ℕ = packet_of r block in
    send_data-granted answers p
    ∙ ap₂ (λ w v. record { wire = w; value = v }) (take_more (granted answers) p h)
        (if_true (leb (length p) (granted answers)) _ _ (le→leb (length p) (granted answers) h))

send_rounds-packets :
    (r : Request) (rounds : List (List ℕ × List ℤ))
    → AllSent r rounds
    → send_rounds r rounds ≡ flatten (packets r rounds)
unfolding send_rounds flatten
send_rounds-packets r [] h = refl
send_rounds-packets r ((block, answers) ∷ more) h =
    let p = packet_of-Proper r block h.0 h.1 in
    let e = send_msg_whole r answers block (omega (arith, p.long, h.2)) in
    let rest = send_rounds-packets (after r) more h.3 in
    ap (λ s. if returned s.value then s.wire ++ send_rounds (after r) more else s.wire) e
    ∙ ap (λ l. packet_of r block ++ l) rest

-- A thread of the test client sends rounds of messages over a connection whose receiver is between
-- two packets, with flood detection off. If `send` takes each packet whole, then however the bytes
-- are cut into reads on their way, when all are read the connection has queued exactly the packets of
-- the rounds, one by one in their order, behind those that it had queued before, and is between two
-- packets again.
pub send_rounds-Feeds :
    (c : ℕ) (s u : Server) (r : Request) (rounds : List (List ℕ × List ℤ))
    → AllSent r rounds
    → Reader c s
    → (framer_of c s).pending ≡ []
    → Feeds c s (send_rounds r rounds) u
    → ((framer_of c u).pending ≡ [])
      × ((framer_of c u).frames ≡ (framer_of c s).frames ++ packets r rounds)
send_rounds-Feeds c s u r rounds sent reader between feeds =
    Feeds-packets (packets r rounds) reader between (packets-IsPacket r rounds sent)
      (subst (λ l. Feeds c s l u) (send_rounds-packets r rounds sent) feeds)

known : (r : Request) → known_code (code_of r) ≡ true
unfolding known_code
known heart_beat = refl
known register = refl
known login = refl

good_message : {o : Outcome Server} → (ok : Bool) → Decides ok o → ok ≡ true → Returns o
good_message ok (accepts e r) h = r
good_message ok (ends e r) h = cc

-- The server takes each packet of its test client: the message of such a packet, in a live block, is
-- handled without an end of the process, while its connection is still the one that it came from
-- and a reply can be queued (the timer queue is in order and its mutex free, the semaphore is below
-- its largest value, and the next block is not the null one).
pub packet_of-Returns :
    (now a : ℕ) (r : Request) (block : List ℕ) (b : Message) (s : Server)
    → length block ≡ block_size r
    → All IsByte block
    → b.packet ≡ packet_of r block
    → s.memory.block a ≡ some b
    → (conn_of s b.conn).curr_sequence ≡ b.curr_sequence
    → CanReply s
    → (t : Server) × (recv_msg_handle_proc now a s ≡ done t)
unfolding acceptable
packet_of-Returns now a r block b s size bytes same live fresh ready =
    let p : Proper (block_size r) (code_of r) b.packet =
      subst (Proper (block_size r) (code_of r)) (sym same) (packet_of-Proper r block size bytes) in
    let code : known_code (msg_code b.packet) ≡ true = ap known_code p.kind ∙ known r in
    let serial : ((conn_of s b.conn).curr_sequence == b.curr_sequence) ≡ true =
      (==_iff (conn_of s b.conn).curr_sequence b.curr_sequence).1 fresh in
    let good : acceptable s b ≡ true =
      ap₂ (λ x y. x && y) (ap₂ (λ x y. x && y) p.summed serial) code in
    good_message (acceptable s b)
      (recv_msg_handle_proc-Decides now a b s ready live p.packet.header
        (subst (λ n. 8 ≤ n) (sym p.packet.sized) p.packet.header))
      good

-- ===== src/Examples/Calling.antt =====
-- Tests of the test client and of the server's answer to it.
use xiao_hg_server.Base.{
  ℕ, ℤ, pos, negsuc, ◌≡◌, refl, List, [], ◌∷◌, ◌++◌, none, some, done, arith, replicate,
  if◌then◌else◌, ◌==◌,
}
use xiao_hg_server.Business.{recv_msg_handle_proc}
use xiao_hg_server.Business.Reply.{All-replicate}
use xiao_hg_server.Client.{login, packet_of, send_data, send_rounds}
use xiao_hg_server.Client.Served.{packets, AllSent, send_rounds-Feeds, packet_of-Returns}
use xiao_hg_server.Client.Wire.{send_data-granted}
use xiao_hg_server.Examples.Receiving.{reader}
use xiao_hg_server.Examples.Serving.{nonzero}
use xiao_hg_server.Examples.Watching.{sockets-IsTimed}
use xiao_hg_server.Fixtures.{idle_server}
use xiao_hg_server.Memory.{Message}
use xiao_hg_server.Receive.State.{framer_of}
use xiao_hg_server.Receive.Stream.{Feeds, Feeds-total}
use xiao_hg_server.Server.{Server}

-- The thread that sends logs in, in two pieces, and registers.
abbrev two_rounds : List (List ℕ × List ℤ)
two_rounds = (replicate 104 7, pos 50 ∷ pos 54 ∷ []) ∷ (replicate 108 9, pos 108 ∷ []) ∷ []

two_rounds-AllSent : AllSent login two_rounds
two_rounds-AllSent = (
  refl,
  All-replicate 104 7 (omega arith),
  omega arith,
  (refl, All-replicate 108 9 (omega arith), omega arith, tt),
)

end_state : Server
end_state = (Feeds-total 3 idle_server (send_rounds login two_rounds) reader).0

all_read : Feeds 3 idle_server (send_rounds login two_rounds) end_state
unfolding end_state
all_read = (Feeds-total 3 idle_server (send_rounds login two_rounds) reader).1

send_rounds-Feeds_example :
    ((framer_of 3 end_state).pending ≡ [])
    × ((framer_of 3 end_state).frames
        ≡ (framer_of 3 idle_server).frames ++ packets login two_rounds)
send_rounds-Feeds_example =
    send_rounds-Feeds 3 idle_server end_state login two_rounds two_rounds-AllSent reader refl
      all_read

-- A login of connection 3 in the block at the address 1.
abbrev login_message : Message
login_message = record { conn = 3; curr_sequence = 1; packet = packet_of login (replicate 104 7) }

abbrev login_server : Server
login_server = record idle_server {
  memory = record {
    next = 2;
    block = λ a. if a == 1 then some login_message else none;
    faults = 0;
    junk = 0;
  };
}

packet_of-Returns_example : (t : Server) × (recv_msg_handle_proc 7 1 login_server ≡ done t)
packet_of-Returns_example =
    packet_of-Returns 7 1 login (replicate 104 7) login_message login_server refl
      (All-replicate 104 7 (omega arith)) refl refl refl
      (record { timed = sockets-IsTimed; free = refl; room = refl; fresh = nonzero 1 })

-- The kernel takes two bytes, and then the peer is gone.
send_data-granted_example :
    send_data (pos 2 ∷ negsuc 0 ∷ []) (1 ∷ 2 ∷ 3 ∷ [])
    ≡ record { wire = 1 ∷ 2 ∷ []; value = some (negsuc 0) }
send_data-granted_example = send_data-granted (pos 2 ∷ negsuc 0 ∷ []) (1 ∷ 2 ∷ 3 ∷ [])

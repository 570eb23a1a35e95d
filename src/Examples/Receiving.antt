-- ===== src/Examples/Receiving.antt =====
-- Tests of the receiver and of the checksum.
use Prim.Native.Nat.{bit_xor}
use xiao_hg_server.Base.{◌≡◌, refl, inl, [], ◌∷◌, flatten, arith}
use xiao_hg_server.Comm.{pkg_length}
use xiao_hg_server.Crc32.{get_crc}
use xiao_hg_server.Crc32.Table.{crc_bytes, get_crc-crc_bytes}
use xiao_hg_server.Fixtures.{idle_server, sockets, heartbeat_packet}
use xiao_hg_server.Receive.{received, epoll_event_read_request_handler}
use xiao_hg_server.Receive.Frame.{push_bytes}
use xiao_hg_server.Pool.{get_connection}
use xiao_hg_server.Receive.Fresh.{Fresh, get_connection-Fresh}
use xiao_hg_server.Receive.Packets.{IsPacket}
use xiao_hg_server.Receive.Refine.{Reads, epoll_event_read_request_handler-Reads}
use xiao_hg_server.Receive.State.{framer_of, Receives}
use xiao_hg_server.Receive.Stream.{
  Feeds, idle, read, Reader, Feeds-push_bytes, Feeds-packets, Feeds-total,
}
use xiao_hg_server.Server.{Server}

idle-Receives : Receives 3 idle_server
idle-Receives = record {
  head_room = refl;
  queued = tt;
  phase = inl (record {
    at = 0;
    points = refl;
    rest = refl;
    some_rest = omega arith;
    status = inl (refl, refl);
  });
}

pub reader : Reader 3 idle_server
reader = record { receives = idle-Receives; flood_off = refl }

-- The whole packet in one read.
whole_read :
    Reads 3 idle_server heartbeat_packet
      (epoll_event_read_request_handler 5 5000 3 (received heartbeat_packet) idle_server)
whole_read =
    epoll_event_read_request_handler-Reads 5 5000 3 0 (8 ∷ 0 ∷ 0 ∷ 0 ∷ 0 ∷ 0 ∷ 0 ∷ []) idle_server
      idle-Receives refl (omega arith)

whole_feed : Feeds 3 idle_server heartbeat_packet whole_read.after
whole_feed =
    read 5 5000 0 (8 ∷ 0 ∷ 0 ∷ 0 ∷ 0 ∷ 0 ∷ 0 ∷ []) [] (omega arith) whole_read.returns idle refl

-- The same packet byte by byte.
slow_end : Server
slow_end = (Feeds-total 3 idle_server heartbeat_packet reader).0

slow_feed : Feeds 3 idle_server heartbeat_packet slow_end
unfolding slow_end
slow_feed = (Feeds-total 3 idle_server heartbeat_packet reader).1

is_packet : IsPacket heartbeat_packet
unfolding pkg_length
is_packet = record { header = omega arith; short = omega arith; sized = refl }

epoll_event_read_request_handler-Reads_example :
    Reads 3 idle_server heartbeat_packet
      (epoll_event_read_request_handler 5 5000 3 (received heartbeat_packet) idle_server)
epoll_event_read_request_handler-Reads_example =
    epoll_event_read_request_handler-Reads 5 5000 3 0 (8 ∷ 0 ∷ 0 ∷ 0 ∷ 0 ∷ 0 ∷ 0 ∷ []) idle_server
      idle-Receives refl (omega arith)

Feeds-push_bytes_example :
    Reader 3 whole_read.after
    × (framer_of 3 whole_read.after ≡ push_bytes (framer_of 3 idle_server) heartbeat_packet)
Feeds-push_bytes_example = Feeds-push_bytes reader whole_feed

Feeds-packets_example :
    ((framer_of 3 whole_read.after).pending ≡ [])
    × ((framer_of 3 whole_read.after).frames ≡ heartbeat_packet ∷ [])
unfolding flatten whole_read
Feeds-packets_example = Feeds-packets (heartbeat_packet ∷ []) reader refl (is_packet, tt) whole_feed

Feeds-total_example : (u : Server) × Feeds 3 idle_server heartbeat_packet u
Feeds-total_example = Feeds-total 3 idle_server heartbeat_packet reader

check_value :
    get_crc (0x31 ∷ 0x32 ∷ 0x33 ∷ 0x34 ∷ 0x35 ∷ 0x36 ∷ 0x37 ∷ 0x38 ∷ 0x39 ∷ []) ≡ 0xcbf43926
unfolding get_crc
check_value = refl

get_crc-crc_bytes_example :
    get_crc (0x31 ∷ 0x32 ∷ []) ≡ bit_xor (crc_bytes (0x31 ∷ 0x32 ∷ []) 0xffffffff) 0xffffffff
get_crc-crc_bytes_example = get_crc-crc_bytes (0x31 ∷ 0x32 ∷ []) (omega arith, (omega arith, tt))

get_connection-Fresh_example : Fresh 9 idle_server (get_connection 5 9 sockets)
get_connection-Fresh_example =
    get_connection-Fresh 5 9 idle_server
      (record { total = refl; free = refl; buffers = (refl, tt) }) tt

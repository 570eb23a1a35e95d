-- ===== src/Receive/State.antt =====
-- How the receiver's pointers stand for a `Framer`, and the invariant of a connection that reads.
use xiao_hg_server.Base.{
  ℕ, ◌+◌, ◌≤◌, ◌<◌, ◌≡◌, ◌⊎◌, List, [], Option, none, some, map, length, take, All,
}
use xiao_hg_server.Comm.{
  hd_init, hd_recving, bd_init, bd_recving, msg_header_len, len_pkg_header, pkg_max_length,
  pkg_length,
}
use xiao_hg_server.Connection.{Connection, BuffPtr, head_at, msg_at}
use xiao_hg_server.Memory.{Message, Memory}
use xiao_hg_server.Server.{Server, conn_of}
use xiao_hg_server.Receive.Frame.{Framer}

abbrev pub packet_in : Option Message → List ℕ
packet_in none = []
packet_in (some b) = b.packet

abbrev pub packet_of : Memory → ℕ → List ℕ
packet_of m a = packet_in (m.block a)

-- The bytes that stand before the pointer.
abbrev pub so_far : BuffPtr → Connection → Memory → List ℕ
so_far (head_at k) x m = take k x.data_head_info
so_far (msg_at a k) x m = take k (packet_of m a)

abbrev pub view : Connection → Memory → List ℕ → Framer
view x m l = record { pending = so_far x.recv_msg_buff x m; frames = map (packet_of m) l }

-- What connection `c` has read of its next packet, and the packets that wait for the threads.
abbrev pub framer_of : ℕ → Server → Framer
framer_of c s = view (conn_of s c) s.memory s.message.recv_msg_list

pub record InHead (x : Connection) : Type 0 where
  pub at : ℕ
  pub points : x.recv_msg_buff ≡ head_at at
  pub rest : at + x.recv_msg_len ≡ len_pkg_header
  pub some_rest : 0 < x.recv_msg_len
  pub status : ((at ≡ 0) × (x.recv_msg_cur_status ≡ hd_init)) ⊎ (x.recv_msg_cur_status ≡ hd_recving)

pub record InBody (x : Connection) (m : Memory) (l : List ℕ) : Type 0 where
  pub addr : ℕ
  pub at : ℕ
  pub block : Message
  pub points : x.recv_msg_buff ≡ msg_at addr at
  pub owned : x.recv_msg_mem_pointer ≡ addr
  pub live : m.block addr ≡ some block
  pub allocated : addr < m.next
  pub unqueued : All (λ a. ¬ (a ≡ addr)) l
  pub behind_header : len_pkg_header ≤ at
  pub rest : at + x.recv_msg_len ≡ length block.packet
  pub some_rest : 0 < x.recv_msg_len
  pub sized : length block.packet ≡ pkg_length block.packet
  pub legal : pkg_length block.packet ≤ pkg_max_length
  pub status : (x.recv_msg_cur_status ≡ bd_init) ⊎ (x.recv_msg_cur_status ≡ bd_recving)

-- A connection between two reads: its pointer, its length and its status agree, and no block of
-- the queue is the block that it reads into.
pub record IsReceiving (x : Connection) (m : Memory) (l : List ℕ) : Type 0 where
  pub head_room : length x.data_head_info ≡ msg_header_len
  pub queued : All (λ a. a < m.next) l
  pub phase : InHead x ⊎ InBody x m l

abbrev pub Receives : ℕ → Server → Type 0
Receives c s = IsReceiving (conn_of s c) s.memory s.message.recv_msg_list

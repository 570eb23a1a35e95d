-- ===== src/Server.antt =====
-- The state of a worker process: the members of CSocket (_include/XiaoHG_C_Socket.h) and of
-- CMessageCtl (_include/XiaoHG_C_MessageCtl.h), the connections by address, and the memory.
use xiao_hg_server.Base.{ℕ, ℤ, Bool, List, update}
use xiao_hg_server.Connection.{Connection}
use xiao_hg_server.Memory.{Memory}

-- What `CSocket::Init` reads from the configuration.
pub record Config : Type 0 where
  pub delay_recovery_connection_wait_time : ℕ
  pub is_hb_time_out_check_enable : ℕ
  pub wait_time : ℕ
  pub is_time_out_kick : ℕ
  pub flood_attack_enable : ℕ
  pub flood_time_interval : ℕ
  pub flood_kick_count : ℕ
  pub epoll_create_connect_count : ℕ

-- An entry of `m_TimerQueueMultiMap`: the key, and the MSG_HEADER_T that it points to.
pub record TimerNode : Type 0 where
  pub time : ℕ
  pub conn : ℕ
  pub curr_sequence : ℕ

-- `timer_queue` is in the order of the multimap. `time_queue_mutex` says that the running thread
-- holds `m_TimeQueueMutex`.
pub record Socket : Type 0 where
  pub conf : Config
  pub open conf use *
  pub conn : ℕ → Connection
  pub next_conn : ℕ
  pub connection_list : List ℕ
  pub total_connection_count : ℤ
  pub free_connection_list : List ℕ
  pub free_connection_count : ℤ
  pub recy_connection_list : List ℕ
  pub delay_recovery_connection_count : ℤ
  pub timer_queue : List TimerNode
  pub current_heart_beat_list_size : ℕ
  pub hb_list_earliest_time : ℕ
  pub time_queue_mutex : Bool
  pub on_line_user_count : ℤ

-- The queues hold the addresses of message blocks. `send_sem` is the value of
-- `g_SendMsgPushEventSem`.
pub record MessageCtl : Type 0 where
  pub recv_msg_list : List ℕ
  pub recv_msg_list_size : ℕ
  pub send_msg_list : List ℕ
  pub send_msg_list_size : ℕ
  pub discard_send_pkg_count : ℕ
  pub send_sem : ℕ

-- `closed` lists the descriptors that were handed to `close`, the last one first.
pub record Server : Type 0 where
  pub socket : Socket
  pub message : MessageCtl
  pub memory : Memory
  pub closed : List ℕ

abbrev pub set_conn : ℕ → Connection → Socket → Socket
set_conn c x s = record s { conn = update s.conn c x }

abbrev pub on_socket : (Socket → Socket) → Server → Server
on_socket f s = record s { socket = f s.socket }

abbrev pub conn_of : Server → ℕ → Connection
conn_of s c = s.socket.conn c

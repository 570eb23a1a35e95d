-- ===== src/Connection.antt =====
-- `stConnection` of _include/XiaoHG_C_Socket.h, with its methods of net/XiaoHG_C_SocketConn.cxx.
use xiao_hg_server.Base.{ℕ, ℤ, pos, ◌-◌, ◌^◌, List, add64}
use xiao_hg_server.Comm.{RecvStatus, hd_init, len_pkg_header}

-- `pRecvMsgBuff`: into `dataHeadInfo`, or into the packet of the block at an address.
pub data BuffPtr : Type 0 where
  head_at : ℕ → BuffPtr
  msg_at : ℕ → ℕ → BuffPtr

-- The member functions that `pcbReadHandler` and `pcbWriteHandler` point to.
pub data Handler : Type 0 where
  no_handler accept_handler read_handler write_handler : Handler

pub record Connection : Type 0 where
  pub sock_fd : ℕ
  pub listen_socket : ℕ
  pub epoll_events : ℕ
  pub pcb_read_handler : Handler
  pub pcb_write_handler : Handler
  pub recv_msg_cur_status : RecvStatus
  pub data_head_info : List ℕ
  pub recv_msg_buff : BuffPtr
  pub recv_msg_len : ℕ
  pub recv_msg_mem_pointer : ℕ
  pub throw_send_msg_count : ℤ
  pub send_msg_mem_pointer : ℕ
  pub send_msg_buff : ℕ
  pub send_msg_len : ℕ
  pub put_recy_conn_queue_time : ℕ
  pub last_heart_beat_time : ℕ
  pub flood_attack_last_time : ℕ
  pub flood_attack_count : ℕ
  pub send_msg_list_count : ℤ
  pub curr_sequence : ℕ

-- `sockFd` is a `uint16_t`, so the assigned -1 is 65535.
abbrev pub fd_none : ℕ
fd_none = 2 ^ 16 - 1

-- `GetOneToUse`, at the time `now`.
unfoldable pub get_one_to_use : ℕ → Connection → Connection
get_one_to_use now c = record c {
  curr_sequence = add64 c.curr_sequence 1;
  sock_fd = fd_none;
  recv_msg_cur_status = hd_init;
  recv_msg_buff = head_at 0;
  recv_msg_len = len_pkg_header;
  recv_msg_mem_pointer = 0;
  throw_send_msg_count = pos 0;
  send_msg_mem_pointer = 0;
  epoll_events = 0;
  last_heart_beat_time = now;
  flood_attack_last_time = 0;
  flood_attack_count = 0;
  send_msg_list_count = pos 0;
}

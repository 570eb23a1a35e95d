-- ===== src/Fixtures.antt =====
-- Small states of a worker process, for the tests.
use xiao_hg_server.Base.{true, ℕ, pos, false, List, [], ◌∷◌, none, some, if◌then◌else◌, ◌==◌}
use xiao_hg_server.Connection.{Connection}
use xiao_hg_server.Memory.{Message, Memory}
use xiao_hg_server.Pool.{zeroed}
use xiao_hg_server.Send.{sent, Net}
use xiao_hg_server.Server.{Config, Socket, MessageCtl, Server}

abbrev pub config : Config
config = record {
  delay_recovery_connection_wait_time = 150;
  is_hb_time_out_check_enable = 1;
  wait_time = 20;
  is_time_out_kick = 0;
  flood_attack_enable = 0;
  flood_time_interval = 100;
  flood_kick_count = 10;
  epoll_create_connect_count = 4;
}

-- A connection between two packets.
abbrev pub between : Connection
between = record zeroed { sock_fd = 7; recv_msg_len = 8; curr_sequence = 1 }

abbrev pub no_memory : Memory
no_memory = record { next = 1; block = λ a. none; faults = 0; junk = 0 }

abbrev pub no_messages : MessageCtl
no_messages = record {
  recv_msg_list = [];
  recv_msg_list_size = 0;
  send_msg_list = [];
  send_msg_list_size = 0;
  discard_send_pkg_count = 0;
  send_sem = 0;
}

-- Connections 1, 2 and 3 are in the pool; 1 and 3 are watched by the heartbeat queue.
abbrev pub sockets : Socket
sockets = record {
  conf = config;
  conn = λ c. between;
  next_conn = 4;
  connection_list = 1 ∷ 2 ∷ 3 ∷ [];
  total_connection_count = pos 3;
  free_connection_list = 2 ∷ [];
  free_connection_count = pos 1;
  recy_connection_list = [];
  delay_recovery_connection_count = pos 0;
  timer_queue =
      record { time = 10; conn = 1; curr_sequence = 1 }
      ∷ record { time = 30; conn = 3; curr_sequence = 1 }
      ∷ [];
  current_heart_beat_list_size = 2;
  hb_list_earliest_time = 10;
  time_queue_mutex = false;
  on_line_user_count = pos 2;
}

abbrev pub idle_server : Server
idle_server = record { socket = sockets; message = no_messages; memory = no_memory; closed = [] }

-- A packet that is a header alone.
abbrev pub heartbeat_packet : List ℕ
heartbeat_packet = 0 ∷ 8 ∷ 0 ∷ 0 ∷ 0 ∷ 0 ∷ 0 ∷ 0 ∷ []

-- A heartbeat of connection 3 stands in the block at address 1.
abbrev pub heartbeat_message : Message
heartbeat_message = record { conn = 3; curr_sequence = 1; packet = heartbeat_packet }

abbrev pub one_message : Memory
one_message = record {
  next = 2;
  block = λ a. if a == 1 then some heartbeat_message else none;
  faults = 0;
  junk = 0;
}

abbrev pub busy_server : Server
busy_server = record idle_server { memory = one_message }

-- Connections 1 and 3 wait to be recycled.
abbrev pub recycling_server : Server
recycling_server = record idle_server {
  socket = record sockets {
    recy_connection_list = 1 ∷ 3 ∷ [];
    delay_recovery_connection_count = pos 2;
  };
}

-- The heartbeat waits to be sent.
abbrev pub sending_server : Server
sending_server = record busy_server {
  message = record no_messages { send_msg_list = 1 ∷ []; send_msg_list_size = 1 };
}

-- The kernel takes three bytes of each message, after one interruption.
abbrev pub slow_net : Net
slow_net = record { send = λ a. record { interrupts = 1; answer = sent 3 }; ctl_ok = λ c. true }

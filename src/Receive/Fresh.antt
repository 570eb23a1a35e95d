-- ===== src/Receive/Fresh.antt =====
-- net/XiaoHG_C_SocketConn.cxx, `GetConnection`: a connection from the pool is ready to receive.
use xiao_hg_server.Base.{
  ℕ, pos, inc, dec, ◌<◌, ◌≡◌, refl, subst, ap, ◌∙◌, inl, List, [], ◌∷◌, arith, length,
  length-append, All, update_self, update_ne,
}
use xiao_hg_server.Comm.{msg_header_len}
use xiao_hg_server.Connection.{Connection, get_one_to_use}
use xiao_hg_server.Memory.{Memory}
use xiao_hg_server.Pool.{in_use, zeroed, take_free, make_new, get_connection}
use xiao_hg_server.Receive.State.{IsReceiving, Receives, framer_of}
use xiao_hg_server.Server.{Socket, Server, conn_of}

-- A pool whose lists are counted, and whose free connections have their header buffer.
pub record IsPool (s : Socket) : Type 0 where
  pub total : s.total_connection_count ≡ pos (length s.connection_list)
  pub free : s.free_connection_count ≡ pos (length s.free_connection_list)
  pub buffers : All (λ c. length (s.conn c).data_head_info ≡ msg_header_len) s.free_connection_list

-- What `GetConnection` gives.
pub record Fresh (fd : ℕ) (s : Server) (r : ℕ × Socket) : Type 0 where
  pub receives : Receives r.0 (record s { socket = r.1 })
  pub between : (framer_of r.0 (record s { socket = r.1 })).pending ≡ []
  pub descriptor : (r.1.conn r.0).sock_fd ≡ fd
  pub others : (j : ℕ) → ¬ (j ≡ r.0) → r.1.conn j ≡ s.socket.conn j
  pub total : r.1.total_connection_count ≡ pos (length r.1.connection_list)
  pub free : r.1.free_connection_count ≡ pos (length r.1.free_connection_list)

in_use-IsReceiving :
    (now fd : ℕ) (x : Connection) (m : Memory) (l : List ℕ)
    → length x.data_head_info ≡ msg_header_len
    → All (λ a. a < m.next) l
    → IsReceiving (in_use now fd x) m l
unfolding get_one_to_use
in_use-IsReceiving now fd x m l room queued = record {
  head_room = room;
  queued = queued;
  phase = inl (record {
    at = 0;
    points = refl;
    rest = refl;
    some_rest = omega arith;
    status = inl (refl, refl);
  });
}

-- A connection `c` that was just set up with `in_use`, seen by the receiver.
seen :
    (now fd c : ℕ) (x : Connection) (s : Server)
    → conn_of s c ≡ in_use now fd x
    → length x.data_head_info ≡ msg_header_len
    → All (λ a. a < s.memory.next) s.message.recv_msg_list
    → Receives c s × ((framer_of c s).pending ≡ []) × ((conn_of s c).sock_fd ≡ fd)
unfolding get_one_to_use
seen now fd c x s e room queued =
    let i = in_use-IsReceiving now fd x s.memory s.message.recv_msg_list room queued in
    rw e (i, refl, refl)

new-Fresh :
    (now fd : ℕ) (s : Server)
    → IsPool s.socket
    → All (λ a. a < s.memory.next) s.message.recv_msg_list
    → Fresh fd s (make_new now fd s.socket)
unfolding make_new
new-Fresh now fd s p queued =
    let c : ℕ = s.socket.next_conn in
    let t : Server = record s { socket = (make_new now fd s.socket).1 } in
    let (r, b, d) = seen now fd c zeroed t (update_self s.socket.conn c _) refl queued in
    record {
      receives = r;
      between = b;
      descriptor = d;
      others = λ j h. update_ne s.socket.conn c _ j h;
      total =
          ap inc p.total ∙ ap pos (omega (arith, length-append s.socket.connection_list (c ∷ [])));
      free = p.free;
    }

free-Fresh :
    (now fd c : ℕ) (rest : List ℕ) (s : Server)
    → s.socket.free_connection_list ≡ c ∷ rest
    → IsPool s.socket
    → All (λ a. a < s.memory.next) s.message.recv_msg_list
    → Fresh fd s (take_free now fd c rest s.socket)
unfolding take_free
free-Fresh now fd c rest s e p queued =
    let t : Server = record s { socket = (take_free now fd c rest s.socket).1 } in
    let rooms : All (λ c. length (s.socket.conn c).data_head_info ≡ msg_header_len) (c ∷ rest) =
      subst (All (λ c. length (s.socket.conn c).data_head_info ≡ msg_header_len)) e p.buffers in
    let (r, b, d) =
      seen now fd c (s.socket.conn c) t (update_self s.socket.conn c _) rooms.0 queued in
    record {
      receives = r;
      between = b;
      descriptor = d;
      others = λ j h. update_ne s.socket.conn c _ j h;
      total = p.total;
      free = ap dec (p.free ∙ ap (λ l. pos (length l)) e);
    }

from_pool :
    (now fd : ℕ) (s : Server) (q : List ℕ)
    → s.socket.free_connection_list ≡ q
    → IsPool s.socket
    → All (λ a. a < s.memory.next) s.message.recv_msg_list
    → Fresh fd s
        (elim q [ [] ↦ make_new now fd s.socket | c ∷ rest ↦ take_free now fd c rest s.socket ])
from_pool now fd s [] e p queued = new-Fresh now fd s p queued
from_pool now fd s (c ∷ rest) e p queued = free-Fresh now fd c rest s e p queued

-- From a counted pool whose free connections have their header buffer, `GetConnection` gives a
-- connection with the descriptor that was asked for, which is between two packets and ready to
-- receive; no other connection changes, and the pool stays counted.
pub get_connection-Fresh :
    (now fd : ℕ) (s : Server)
    → IsPool s.socket
    → All (λ a. a < s.memory.next) s.message.recv_msg_list
    → Fresh fd s (get_connection now fd s.socket)
unfolding get_connection
get_connection-Fresh now fd s p queued =
    from_pool now fd s s.socket.free_connection_list refl p queued

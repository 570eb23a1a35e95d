-- ===== src/Receive/Silent.antt =====
-- net/XiaoHG_C_SocketRequest.cxx, `RecvMsgProc`: reads that give no bytes.
use xiao_hg_server.Base.{
  ℕ, ◌^◌, ◌<◌, ◌≡◌, refl, ap, Bool, true, false, [], ◌∷◌, Outcome, done, ◌>>=◌, negsuc,
}
use xiao_hg_server.Pool.{contains, close_connection_to_recy}
use xiao_hg_server.Pool.Closing.{Closed, close_connection_to_recy-Closed}
use xiao_hg_server.Receive.{
  eagain, eintr, econnreset, ebadf, other_errno, RecvResult, received, failed, recv_msg_proc,
  after_recv, epoll_event_read_request_handler,
}
use xiao_hg_server.Server.{Server, conn_of}
use xiao_hg_server.Timer.Insert.{IsTimed}

abbrev pub is_silent : RecvResult → Bool
is_silent (received []) = true
is_silent (received (b ∷ bs)) = false
is_silent (failed e) = true

-- The read has only to be made again.
abbrev pub is_retry : RecvResult → Bool
is_retry (received bs) = false
is_retry (failed eagain) = true
is_retry (failed eintr) = true
is_retry (failed econnreset) = false
is_retry (failed ebadf) = false
is_retry (failed other_errno) = false

pub data SilentEnds (now c : ℕ) (s : Server) (r : RecvResult) (o : Outcome Server) : Type 0 where
  retries : is_retry r ≡ true → o ≡ done s → SilentEnds now c s r o
  closes : is_retry r ≡ false → (k : Closed now c s) → o ≡ done k.after → SilentEnds now c s r o

closing_read :
    (now ms c : ℕ) (s : Server) (k : Closed now c s)
    → ((close_connection_to_recy now c s >>= (λ t. done (negsuc 0, t)))
        >>= (λ (n, t). after_recv now ms c n t))
      ≡ done k.after
unfolding after_recv
closing_read now ms c s k =
    ap (λ o. (o >>= (λ t. done (negsuc 0, t))) >>= (λ (n, t). after_recv now ms c n t)) k.returns

-- A read that gives no bytes changes nothing when it has only to be made again (EAGAIN or EINTR).
-- Else, when the peer has closed or on any other error, the connection is closed once, provided
-- that it waits for no recycling yet, its serial number is a 64-bit number, and the timer queue is
-- in order and its mutex free.
pub epoll_event_read_request_handler-SilentEnds :
    (now ms c : ℕ) (r : RecvResult) (s : Server)
    → is_silent r ≡ true
    → IsTimed s.socket
    → s.socket.time_queue_mutex ≡ false
    → contains c s.socket.recy_connection_list ≡ false
    → (conn_of s c).curr_sequence < 2 ^ 64
    → SilentEnds now c s r (epoll_event_read_request_handler now ms c r s)
unfolding epoll_event_read_request_handler recv_msg_proc after_recv
epoll_event_read_request_handler-SilentEnds now ms c (received (b ∷ bs)) s h i f n w = cc
epoll_event_read_request_handler-SilentEnds now ms c (failed eagain) s h i f n w = retries refl refl
epoll_event_read_request_handler-SilentEnds now ms c (failed eintr) s h i f n w = retries refl refl
epoll_event_read_request_handler-SilentEnds now ms c (received []) s h i f n w =
    let k = close_connection_to_recy-Closed now c s i f n w in
    closes refl k (closing_read now ms c s k)
epoll_event_read_request_handler-SilentEnds now ms c (failed econnreset) s h i f n w =
    let k = close_connection_to_recy-Closed now c s i f n w in
    closes refl k (closing_read now ms c s k)
epoll_event_read_request_handler-SilentEnds now ms c (failed ebadf) s h i f n w =
    let k = close_connection_to_recy-Closed now c s i f n w in
    closes refl k (closing_read now ms c s k)
epoll_event_read_request_handler-SilentEnds now ms c (failed other_errno) s h i f n w =
    let k = close_connection_to_recy-Closed now c s i f n w in
    closes refl k (closing_read now ms c s k)

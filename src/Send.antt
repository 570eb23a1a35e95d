-- ===== src/Send.antt =====
-- app/XiaoHG_C_MessageCtl.cxx (`PushSendMsgToSendListAndSem`, `SendMsgThread`) and the sending half
-- of net/XiaoHG_C_SocketRequest.cxx. What `send` and `epoll_ctl` answer are arguments, and `send`
-- is interrupted finitely often.
pub mod Push
mod Frame
pub mod One
pub mod Pass
use xiao_hg_server.Base.{
  ℕ, zero, suc, pos, negsuc, ℤ, inc, dec, ltb_ℤ, ◌+◌, ◌-◌, ◌^◌, Bool, true, false, not, List, [],
  ◌∷◌, ◌++◌, none, some, Outcome, done, exited, ◌>>=◌, if◌then◌else◌, ltb, ◌==◌, add32, sub16,
  sub32, update,
}
use xiao_hg_server.Comm.{max_sendqueue_count, max_eachconn_sendcount, pkg_length}
use xiao_hg_server.Connection.{Connection}
use xiao_hg_server.Epoll.{
  epollout, epoll_ctl_mod, Action, epoll_add, epoll_del, epoll_register_event,
}
use xiao_hg_server.Memory.{free_memory}
use xiao_hg_server.Pool.{close_connection_to_recy}
use xiao_hg_server.Server.{Server, set_conn, on_socket, conn_of}

abbrev pub freed : ℕ → Server → Server
freed a s = record s { memory = free_memory a s.memory }

abbrev pub fault : Server → Server
fault s = let m = s.memory in record s { memory = record m { faults = suc m.faults } }

-- A use of the block at an address: a fault when it is not live.
abbrev pub used : ℕ → Server → Server
used a s = elim (s.memory.block a) [ none ↦ fault s | some b ↦ s ]

abbrev pub discarded : ℕ → Server → Server
discarded a s =
    let m = s.message in
    freed a (record s {
      message = record m { discard_send_pkg_count = add32 m.discard_send_pkg_count 1 };
    })

-- `sem_post(&g_SendMsgPushEventSem)` fails at the largest value of a semaphore.
unfoldable pub sem_post : Server → Outcome Server
sem_post s =
    let m = s.message in
    if m.send_sem == 2 ^ 31 - 1
    then exited
    else done (record s { message = record m { send_sem = m.send_sem + 1 } })

abbrev pub set_of : ℕ → Connection → Server → Server
set_of c x s = on_socket (set_conn c x) s

-- The message goes to the list, whatever came before.
unfoldable pub enqueue : ℕ → ℕ → Server → Server
unfolding update
enqueue a c s =
    let x = conn_of s c in
    let m = s.message in
    set_of c (record x { send_msg_list_count = inc x.send_msg_list_count })
      (record s {
        message = record m {
          send_msg_list = m.send_msg_list ++ (a ∷ []);
          send_msg_list_size = add32 m.send_msg_list_size 1;
        };
      })

-- `if(m_SendMsgListSize > MAX_SENDQUEUE_COUNT)`: the message is freed, and the call goes on.
unfoldable pub queue_check : ℕ → Server → Server
queue_check a s = if ltb max_sendqueue_count s.message.send_msg_list_size then discarded a s else s

-- `if(pConn->sendMsgListCount > MAX_EACHCONN_SENDCOUNT)`: the same, and the connection is closed.
unfoldable pub backlog_check : ℕ → ℕ → ℕ → Server → Outcome Server
backlog_check now a c s =
    if ltb_ℤ (pos max_eachconn_sendcount) (conn_of s c).send_msg_list_count
    then close_connection_to_recy now c (discarded a s)
    else done s

-- `PushSendMsgToSendListAndSem(pSendMsgBuff)` at the time `now`. The connection is read from the
-- message after the first check; a block that was freed still shows its old header there.
unfoldable pub push_send_msg_to_send_list_and_sem : ℕ → ℕ → Server → Outcome Server
unfolding queue_check backlog_check enqueue sem_post
push_send_msg_to_send_list_and_sem now a s = elim (s.memory.block a) [
  | none ↦ done (fault s)
  | some b ↦ do
    t ← backlog_check now a b.conn (used a (queue_check a s))
    sem_post (enqueue a b.conn t)
]

-- What `send` answers after a number of interruptions (EINTR).
pub data Answer : Type 0 where
  sent : ℕ → Answer
  full : Answer
  broken : Answer

pub record SendCall : Type 0 where
  pub interrupts : ℕ
  pub answer : Answer

send_loop : ℕ → Answer → ℤ
send_loop (suc n) r = send_loop n r
send_loop zero (sent n) = pos n
send_loop zero full = negsuc 0
send_loop zero broken = negsuc 1

-- `SendMsgProc(pConn, pSendMsgBuff, uiSendLen)`.
unfoldable pub send_msg_proc : SendCall → ℤ
unfolding send_loop
send_msg_proc r = send_loop r.interrupts r.answer

-- What the kernel answers in a round of the thread, by message and by connection.
pub record Net : Type 0 where
  pub send : ℕ → SendCall
  pub ctl_ok : ℕ → Bool

-- `EpollRegisterEvent(pConn->sockFd, EPOLL_CTL_MOD, EPOLLOUT, action, pConn)`; an error ends the
-- process.
unfoldable pub watch_writes : Action → Bool → ℕ → Server → Outcome Server
unfolding epoll_register_event
watch_writes action ctl_ok c s =
    let (ok, t) = epoll_register_event epoll_ctl_mod epollout action ctl_ok c s.socket in
    if ok then done (record s { socket = t }) else exited

abbrev pub thrown : ℕ → Server → Server
thrown c s =
    let x = conn_of s c in
    set_of c (record x { throw_send_msg_count = inc x.throw_send_msg_count }) s

-- The branches on what `SendMsgProc` returned for the message at `a`.
unfoldable pub after_send : Bool → ℕ → ℕ → ℤ → Server → Outcome Server
unfolding watch_writes
after_send ctl_ok a c (pos zero) s = done (freed (conn_of s c).send_msg_mem_pointer s)
after_send ctl_ok a c (pos (suc n)) s =
    let x = conn_of s c in
    if suc n == x.send_msg_len
    then done (freed x.send_msg_mem_pointer s)
    else watch_writes epoll_add ctl_ok c (
        thrown c (
          set_of c
            (record x {
              send_msg_buff = x.send_msg_buff + suc n;
              send_msg_len = sub16 x.send_msg_len (suc n);
            })
            s))
after_send ctl_ok a c (negsuc zero) s = watch_writes epoll_add ctl_ok c (thrown c s)
after_send ctl_ok a c (negsuc (suc _)) s = done (freed (conn_of s c).send_msg_mem_pointer s)

-- `m_SendMsgList.erase(posTmp)` and `--m_SendMsgListSize`.
abbrev pub erase_message : List ℕ → Server → Server
erase_message rest s =
    let m = s.message in
    record s {
      message = record m {
        send_msg_list = rest;
        send_msg_list_size = sub32 m.send_msg_list_size 1;
      };
    }

-- The message at `a` is taken for sending.
unfoldable pub taken : ℕ → ℕ → List ℕ → List ℕ → Server → Server
unfolding update
taken a c packet rest s =
    let x = conn_of s c in
    erase_message rest (
      set_of c
        (record x {
          send_msg_list_count = dec x.send_msg_list_count;
          send_msg_mem_pointer = a;
          send_msg_buff = 0;
          send_msg_len = pkg_length packet;
        })
        s)

-- One round of the loop over the list, at the message at `a`: `kept` stands before it, `rest`
-- behind it. Whether the message stays in the list, and the state.
unfoldable pub send_one : Net → List ℕ → ℕ → List ℕ → Server → Outcome (Bool × Server)
unfolding taken after_send send_msg_proc
send_one net kept a rest s = elim (s.memory.block a) [
  | none ↦ done (true, fault s)
  | some b ↦
      let x = conn_of s b.conn in
      if not (x.curr_sequence == b.curr_sequence)
      then done (false, freed a (erase_message (kept ++ rest) s))
      else if ltb_ℤ (pos 0) x.throw_send_msg_count
      then done (true, s)
      else do
        t ←
            after_send (net.ctl_ok b.conn) a b.conn (send_msg_proc (net.send a))
              (taken a b.conn b.packet (kept ++ rest) s)
        done (false, t)
]

-- The loop `while(pos != posEnd)`.
unfoldable pub send_pass : Net → List ℕ → List ℕ → Server → Outcome Server
unfolding send_one
send_pass net kept [] s = done s
send_pass net kept (a ∷ rest) s = do
  (stays, t) ← send_one net kept a rest s
  send_pass net (if stays then kept ++ (a ∷ []) else kept) rest t

-- What `sem_wait` answers.
pub data SemWait : Type 0 where
  woken interrupted sem_error : SemWait

-- One round of `SendMsgThread`. A call of `sem_wait` that comes back took one from the semaphore.
unfoldable pub send_msg_round : Net → SemWait → Server → Outcome Server
unfolding send_pass
send_msg_round net sem_error s = exited
send_msg_round net interrupted s =
    if ltb 0 s.message.send_msg_list_size
    then send_pass net [] s.message.send_msg_list s
    else done s
send_msg_round net woken s =
    let m = s.message in
    let t = record s { message = record m { send_sem = m.send_sem - 1 } } in
    if ltb 0 m.send_msg_list_size then send_pass net [] m.send_msg_list t else done t

abbrev pub settled : ℕ → Server → Server
settled c s =
    let x = conn_of s c in
    set_of c (record x { throw_send_msg_count = dec x.throw_send_msg_count })
      (freed x.send_msg_mem_pointer s)

-- All of a message is out: the write event is taken off.
unfoldable pub send_complete : Bool → ℕ → Server → Outcome Server
unfolding watch_writes update
send_complete ctl_ok c s = watch_writes epoll_del ctl_ok c s >>= (λ t. sem_post (settled c t))

-- The branches of `EpollEventWriteRequestHandler` on what `SendMsgProc` returned.
unfoldable pub after_write : Bool → ℕ → ℤ → Server → Outcome Server
unfolding send_complete
after_write ctl_ok c (pos zero) s = sem_post s
after_write ctl_ok c (pos (suc n)) s =
    let x = conn_of s c in
    if suc n == x.send_msg_len
    then send_complete ctl_ok c s
    else done (
        set_of c
          (record x {
            send_msg_buff = x.send_msg_buff + suc n;
            send_msg_len = sub16 x.send_msg_len (suc n);
          })
          s)
after_write ctl_ok c (negsuc zero) s = done s
after_write ctl_ok c (negsuc (suc _)) s = sem_post s

-- `EpollEventWriteRequestHandler(pConn)`.
unfoldable pub epoll_event_write_request_handler : SendCall → Bool → ℕ → Server → Outcome Server
unfolding after_write send_msg_proc
epoll_event_write_request_handler call ctl_ok c s = after_write ctl_ok c (send_msg_proc call) s

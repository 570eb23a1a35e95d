-- ===== src/Pool/Closing.antt =====
-- net/XiaoHG_C_Socket.cxx, `CloseConnectionToRecy`: when it returns, and what it leaves behind.
use xiao_hg_server.Base.{
  subst, ℕ, pos, ltb_ℤ, add64, ◌^◌, ◌<◌, ◌≡◌, ◌≢◌, refl, sym, ap, ◌∙◌, inl, inr, true, false, [],
  ◌∷◌, ◌++◌, done, deadlock, arith, if◌then◌else◌, ◌==◌, if_true, if_false, Bool-cases, update_self,
}
use xiao_hg_server.Server.{Socket, Server, conn_of}
use xiao_hg_server.Timer.{delete_from_timer_queue}
use xiao_hg_server.Timer.Delete.{
  without, DeleteEnds, delete_from_timer_queue-without, delete_from_timer_queue_keeps,
}
use xiao_hg_server.Timer.Insert.{IsTimed}
use xiao_hg_server.Pool.{
  contains, drop_timers, close_fd, reset_throw, push_connect_to_recy_queue,
  close_connection_to_recy,
}

drop_timers_held :
    (c : ℕ) (s : Socket)
    → (s.is_hb_time_out_check_enable == 1) ≡ true
    → s.time_queue_mutex ≡ true
    → drop_timers c s ≡ deadlock
unfolding drop_timers delete_from_timer_queue
drop_timers_held c s e h = if_true _ _ _ e ∙ if_true _ _ _ h

pub close_connection_to_recy_held :
    (now c : ℕ) (s : Server)
    → (s.socket.is_hb_time_out_check_enable == 1) ≡ true
    → s.socket.time_queue_mutex ≡ true
    → close_connection_to_recy now c s ≡ deadlock
unfolding close_connection_to_recy
close_connection_to_recy_held now c s e h = rw (drop_timers_held c s.socket e h) refl

-- With the mutex free the timers are dropped, and nothing but the timer queue changes.
record Dropped (c : ℕ) (s t : Socket) : Type 0 where
  returns : drop_timers c s ≡ done t
  conns : t.conn ≡ s.conn
  recy : t.recy_connection_list ≡ s.recy_connection_list
  timers :
      t.timer_queue
      ≡ (if s.is_hb_time_out_check_enable == 1 then without c s.timer_queue else s.timer_queue)
  timed : IsTimed t

drop_timers-Dropped :
    (c : ℕ) (s : Socket) → IsTimed s → s.time_queue_mutex ≡ false → (t : Socket) × Dropped c s t
unfolding drop_timers
drop_timers-Dropped c s timed free = elim (Bool-cases (s.is_hb_time_out_check_enable == 1)) [
  | inl e ↦
      let (t, r, q, i) =
        subst (λ b. DeleteEnds c s b (delete_from_timer_queue c s)) free
          (delete_from_timer_queue-without c s timed) in
      let (k, l) = delete_from_timer_queue_keeps c s t r in
      (t, record { returns = if_true _ _ _ e ∙ r; conns = k; recy = l; timers = rw e q; timed = i })
  | inr e ↦ (
    s,
    record {
      returns = if_false _ _ _ e;
      conns = refl;
      recy = refl;
      timers = rw e refl;
      timed = timed;
    },
  )
]

stale_serial : (n : ℕ) → n < 2 ^ 64 → add64 n 1 ≢ n
stale_serial n h e = absurd (omega arith)

-- What stays of a connection when its count of thrown messages is reset.
record Quiet (c : ℕ) (s t : Socket) : Type 0 where
  recy : t.recy_connection_list ≡ s.recy_connection_list
  timers : t.timer_queue ≡ s.timer_queue
  serial : (t.conn c).curr_sequence ≡ (s.conn c).curr_sequence
  calm : ltb_ℤ (pos 0) (t.conn c).throw_send_msg_count ≡ false

reset_throw-Quiet : (c : ℕ) (s : Socket) → Quiet c s (reset_throw c s)
unfolding reset_throw
reset_throw-Quiet c s = elim (Bool-cases (ltb_ℤ (pos 0) (s.conn c).throw_send_msg_count)) [
  | inl e ↦
      rw (e, reset_throw)
        (record {
          recy = refl;
          timers = refl;
          serial = ap (λ x. x.curr_sequence) (update_self s.conn c _);
          calm = ap (λ x. ltb_ℤ (pos 0) x.throw_send_msg_count) (update_self s.conn c _);
        })
  | inr e ↦ rw (e, reset_throw) (record { recy = refl; timers = refl; serial = refl; calm = e })
]

-- What a close leaves behind.
pub record Closed (now c : ℕ) (s : Server) : Type 0 where
  pub after : Server
  pub returns : close_connection_to_recy now c s ≡ done after
  pub descriptor : after.closed ≡ (conn_of s c).sock_fd ∷ s.closed
  pub queued : after.socket.recy_connection_list ≡ s.socket.recy_connection_list ++ (c ∷ [])
  pub waits : (conn_of after c).put_recy_conn_queue_time ≡ now
  pub timers : after.socket.timer_queue ≡ (
      if s.socket.is_hb_time_out_check_enable == 1
      then without c s.socket.timer_queue
      else s.socket.timer_queue)
  pub stale : (conn_of after c).curr_sequence ≢ (conn_of s c).curr_sequence
  pub calm : ltb_ℤ (pos 0) (conn_of after c).throw_send_msg_count ≡ false
  pub messages : after.message ≡ s.message

-- The first close of a connection (it is not in the recycling queue yet, and its serial number is a
-- 64-bit number), by a thread that does not hold the mutex of the timer queue, which is in order,
-- returns: its
-- descriptor is closed, no timer of it is left while the timeout check is on, it is the last of
-- the recycling queue, and its serial number is not the one of the messages and timers that were
-- made for it before.
pub close_connection_to_recy-Closed :
    (now c : ℕ) (s : Server)
    → IsTimed s.socket
    → s.socket.time_queue_mutex ≡ false
    → contains c s.socket.recy_connection_list ≡ false
    → (conn_of s c).curr_sequence < 2 ^ 64
    → Closed now c s
unfolding close_connection_to_recy close_fd push_connect_to_recy_queue
close_connection_to_recy-Closed now c s timed free new bound =
    let (k, d) = drop_timers-Dropped c s.socket timed free in
    let t : Server = close_fd c (record s { socket = k }) in
    let q = reset_throw-Quiet c t.socket in
    let r : Socket = reset_throw c t.socket in
    let fresh : contains c r.recy_connection_list ≡ false =
      ap (contains c) (q.recy ∙ d.recy) ∙ new in
    let pushed : push_connect_to_recy_queue now c r ≡ _ = if_false _ _ _ fresh in
    let serial : (r.conn c).curr_sequence ≡ (conn_of s c).curr_sequence =
      q.serial
      ∙ ap (λ x. x.curr_sequence) (update_self k.conn c _)
      ∙ ap (λ f. (f c).curr_sequence) d.conns in
    let u = update_self r.conn c _ in
    record {
      after = record t { socket = push_connect_to_recy_queue now c r };
      returns = rw d.returns refl;
      descriptor = ap (λ f. (f c).sock_fd ∷ s.closed) d.conns;
      queued = ap (λ z. z.recy_connection_list) pushed ∙ ap (λ l. l ++ (c ∷ [])) (q.recy ∙ d.recy);
      waits =
          ap (λ z. (z.conn c).put_recy_conn_queue_time) pushed
          ∙ ap (λ x. x.put_recy_conn_queue_time) u;
      timers = ap (λ z. z.timer_queue) pushed ∙ q.timers ∙ d.timers;
      stale = λ e. stale_serial (conn_of s c).curr_sequence bound (
          ap (λ n. add64 n 1) (sym serial)
          ∙ sym (ap (λ z. (z.conn c).curr_sequence) pushed ∙ ap (λ x. x.curr_sequence) u)
          ∙ e);
      calm =
          ap (λ z. ltb_ℤ (pos 0) (z.conn c).throw_send_msg_count) pushed
          ∙ ap (λ x. ltb_ℤ (pos 0) x.throw_send_msg_count) u
          ∙ q.calm;
      messages = refl;
    }

-- Any close returns for a thread that does not hold the queue's mutex, and leaves the messages and
-- their blocks alone.
pub close_connection_to_recy_returns :
    (now c : ℕ) (s : Server)
    → IsTimed s.socket
    → s.socket.time_queue_mutex ≡ false
    → (t : Server) × (close_connection_to_recy now c s ≡ done t)
      × (t.message ≡ s.message)
      × (t.memory ≡ s.memory)
unfolding close_connection_to_recy close_fd
close_connection_to_recy_returns now c s timed free =
    let (k, d) = drop_timers-Dropped c s.socket timed free in
    let t : Server = close_fd c (record s { socket = k }) in
    (
      record t { socket = push_connect_to_recy_queue now c (reset_throw c t.socket) },
      rw d.returns refl,
      refl,
      refl,
    )

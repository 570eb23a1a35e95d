-- ===== src/Receive/Steps.antt =====
-- What each piece of `EpollEventReadRequestHandler` makes of the connection, the memory and the
-- queue that it works on.
use xiao_hg_server.Base.{
  ℕ, Bool, ap₂, suc, ◌-◌, ◌≡◌, refl, ap, ◌∙◌, true, false, List, [], ◌∷◌, ◌++◌, some, done,
  if◌then◌else◌, ◌==◌, sub16, length, take, replicate, write_at, update, update_self, if_true,
  if_false,
}
use xiao_hg_server.Comm.{RecvStatus, bd_init, len_pkg_header, pkg_length}
use xiao_hg_server.Connection.{Connection, BuffPtr, head_at, msg_at}
use xiao_hg_server.Memory.{Message, Memory, alloc_memory}
use xiao_hg_server.Receive.Frame.{refused}
use xiao_hg_server.Server.{Server, set_conn, conn_of}
use xiao_hg_server.Pool.{close_connection_to_recy}
use xiao_hg_server.Receive.{
  received, put_bytes, recv_msg_proc, flood_check, ready, recv_msg_packet_parse_proc, new_message,
  recv_msg_header_parse_proc, advance, wait_more, body_complete, on_received, after_recv,
  epoll_event_read_request_handler,
}

-- The parts of a state that the receiver of `c` reads and writes, while flood detection is off.
pub record Holds (c : ℕ) (x : Connection) (m : Memory) (l : List ℕ) (t : Server) : Type 0 where
  pub conn : conn_of t c ≡ x
  pub memory : t.memory ≡ m
  pub queue : t.message.recv_msg_list ≡ l
  pub flood_off : (t.socket.flood_attack_enable == 1) ≡ false

pub handler_received :
    (now ms c b : ℕ) (bs : List ℕ) (s : Server) (p : BuffPtr)
    → (conn_of s c).recv_msg_buff ≡ p
    → let t = put_bytes c p (b ∷ bs) s in
      let r = on_received (conn_of t c).recv_msg_cur_status ms c (suc (length bs)) t in
      epoll_event_read_request_handler now ms c (received (b ∷ bs)) s
      ≡ (if r.0 then close_connection_to_recy now c r.1 else done r.1)
unfolding epoll_event_read_request_handler recv_msg_proc after_recv
handler_received now ms c b bs s p e =
    ap
      (λ q.
        let t = put_bytes c q (b ∷ bs) s in
        let r = on_received (conn_of t c).recv_msg_cur_status ms c (suc (length bs)) t in
        (if r.0 then close_connection_to_recy now c r.1 else done r.1))
      e

abbrev pub with_head : ℕ → List ℕ → Connection → Connection
with_head k bs x = record x { data_head_info = write_at x.data_head_info k bs }

abbrev pub with_packet : ℕ → List ℕ → Message → Message
with_packet k bs b = record b { packet = write_at b.packet k bs }

abbrev pub stored : ℕ → Message → Memory → Memory
stored a b m = record m { block = update m.block a (some b) }

abbrev pub waited : ℕ → RecvStatus → Connection → Connection
waited n st x = record x {
  recv_msg_cur_status = st;
  recv_msg_buff = advance n x.recv_msg_buff;
  recv_msg_len = sub16 x.recv_msg_len n;
}

module _ (c : ℕ) where
  pub put_head-Holds :
      (k : ℕ) (bs : List ℕ) {x : Connection} {m : Memory} {l : List ℕ} (s : Server)
      → Holds c x m l s
      → Holds c (with_head k bs x) m l (put_bytes c (head_at k) bs s)
  unfolding put_bytes
  put_head-Holds k bs s h = record {
    conn = update_self s.socket.conn c _ ∙ ap (with_head k bs) h.conn;
    memory = h.memory;
    queue = h.queue;
    flood_off = h.flood_off;
  }

  pub put_body-Holds :
      (a k : ℕ) (bs : List ℕ) {x : Connection} {m : Memory} {l : List ℕ} (s : Server) (b : Message)
      → m.block a ≡ some b
      → Holds c x m l s
      → Holds c x (stored a (with_packet k bs b) m) l (put_bytes c (msg_at a k) bs s)
  unfolding put_bytes
  put_body-Holds a k bs s b live h =
      let here : s.memory.block a ≡ some b = ap (λ t. t.block a) h.memory ∙ live in
      rw (here, put_bytes)
        (record {
          conn = h.conn;
          memory = ap (stored a (with_packet k bs b)) h.memory;
          queue = h.queue;
          flood_off = h.flood_off;
        })

  pub wait_more-Holds :
      (n : ℕ) (st : RecvStatus) {x : Connection} {m : Memory} {l : List ℕ} (s : Server)
      → Holds c x m l s
      → Holds c (waited n st x) m l (wait_more c n st s)
  unfolding wait_more
  wait_more-Holds n st s h = record {
    conn = update_self s.socket.conn c _ ∙ ap (waited n st) h.conn;
    memory = h.memory;
    queue = h.queue;
    flood_off = h.flood_off;
  }

  packet_parse-Holds :
      {x : Connection} {m : Memory} {l : List ℕ} (s : Server)
      → Holds c x m l s
      → Holds c
          (ready x)
          m
          (l ++ (x.recv_msg_mem_pointer ∷ []))
          (recv_msg_packet_parse_proc c false s)
  unfolding recv_msg_packet_parse_proc
  packet_parse-Holds s h = record {
    conn = update_self s.socket.conn c _ ∙ ap ready h.conn;
    memory = h.memory;
    queue = ap₂ (λ l x. l ++ (x.recv_msg_mem_pointer ∷ [])) h.queue h.conn;
    flood_off = h.flood_off;
  }

  flood_check_off :
      (ms : ℕ) (s : Server)
      → (s.socket.flood_attack_enable == 1) ≡ false
      → flood_check ms c s ≡ (false, s)
  unfolding flood_check
  flood_check_off ms s off = if_false _ _ _ off

  -- A complete body goes to the queue.
  pub body_complete-Holds :
      (ms : ℕ) {x : Connection} {m : Memory} {l : List ℕ} (s : Server)
      → Holds c x m l s
      → ((body_complete ms c s).0 ≡ false)
        × Holds c (ready x) m (l ++ (x.recv_msg_mem_pointer ∷ [])) (body_complete ms c s).1
  unfolding body_complete
  body_complete-Holds ms s h = rw (flood_check_off ms s h.flood_off) (refl, packet_parse-Holds s h)

abbrev pub fresh_memory : ℕ → Message → Memory → Memory
fresh_memory a b m = record m { next = suc a; block = update m.block a (some b) }

-- The block that is made for a header, before and behind the copy of the header.
abbrev pub blank : ℕ → ℕ → ℕ → ℕ → Message
blank c seq n junk = record { conn = c; curr_sequence = seq; packet = replicate n junk }

abbrev pub with_block : ℕ → Connection → Connection
with_block a x = record x { recv_msg_mem_pointer = a }

abbrev pub labelled : ℕ → ℕ → List ℕ → Connection → Memory → Memory
labelled c n head x m =
    let b = blank c x.curr_sequence n m.junk in
    stored m.next (with_packet 0 head b) (fresh_memory m.next b m)

module _ (c : ℕ) where
  new_message-Holds :
      (n : ℕ) (head : List ℕ) {x : Connection} {m : Memory} {l : List ℕ} (s : Server)
      → Holds c x m l s
      → Holds c (with_block m.next x) (labelled c n head x m) l (new_message c n head s)
  unfolding new_message alloc_memory
  new_message-Holds n head {x} {m} {l} s h =
      rw (← h.conn, ← h.memory, ← h.queue)
        (put_body-Holds c s.memory.next 0 head
          (record s {
            socket = set_conn c (with_block s.memory.next (conn_of s c)) s.socket;
            memory =
                fresh_memory s.memory.next (blank c (conn_of s c).curr_sequence n s.memory.junk)
                  s.memory;
          })
          (blank c (conn_of s c).curr_sequence n s.memory.junk)
          (update_self s.memory.block s.memory.next _)
          (record {
            conn = update_self s.socket.conn c _;
            memory = refl;
            queue = refl;
            flood_off = h.flood_off;
          }))

-- The header that stands in `dataHeadInfo`.
abbrev pub head_of : Connection → List ℕ
head_of x = take len_pkg_header x.data_head_info

abbrev pub to_body : ℕ → ℕ → Connection → Connection
to_body a n x = record x {
  recv_msg_mem_pointer = a;
  recv_msg_cur_status = bd_init;
  recv_msg_buff = msg_at a len_pkg_header;
  recv_msg_len = n - len_pkg_header;
}

abbrev pub Keeps : ℕ → Connection → Memory → List ℕ → Bool × Server → Type 0
Keeps c x m l r = (r.0 ≡ false) × Holds c x m l r.1

module _ (ms c : ℕ) {x : Connection} {m : Memory} {l : List ℕ} (s : Server)
    (h : Holds c x m l s) where
  abbrev size : ℕ
  size = pkg_length (head_of x)

  abbrev written : ℕ
  written = pkg_length (head_of (conn_of s c))

  size_of : {A : Type 0} (f : ℕ → A) → f written ≡ f size
  size_of f = ap (λ y. f (pkg_length (head_of y))) h.conn

  abbrev message : Server
  message = new_message c size (head_of x) s

  message-Holds : Holds c (with_block m.next x) (labelled c size (head_of x) x m) l message
  message-Holds = new_message-Holds c size (head_of x) s h

  same_message : new_message c written (head_of (conn_of s c)) s ≡ message
  same_message = ap (λ y. new_message c (pkg_length (head_of y)) (head_of y) s) h.conn

  pub header_refused :
      refused size ≡ true → Keeps c (ready x) m l (recv_msg_header_parse_proc ms c s)
  unfolding recv_msg_header_parse_proc
  header_refused bad = rw (if_true (refused written) _ _ (size_of (λ n. refused n) ∙ bad)) (
    refl,
    record {
      conn = update_self s.socket.conn c _ ∙ ap ready h.conn;
      memory = h.memory;
      queue = h.queue;
      flood_off = h.flood_off;
    },
  )

  pub header_alone :
      refused size ≡ false
      → (size == len_pkg_header) ≡ true
      → Keeps c
          (ready (with_block m.next x))
          (labelled c size (head_of x) x m)
          (l ++ (m.next ∷ []))
          (recv_msg_header_parse_proc ms c s)
  unfolding recv_msg_header_parse_proc
  header_alone good alone = rw (if_false (refused written) _ _ (size_of (λ n. refused n) ∙ good)) (
      rw (if_true (written == len_pkg_header) _ _ (size_of (λ n. n == len_pkg_header) ∙ alone)) (
        rw same_message (
          rw (flood_check_off c ms message message-Holds.flood_off)
            (refl, packet_parse-Holds c message message-Holds))))

  pub header_of_body :
      refused size ≡ false
      → (size == len_pkg_header) ≡ false
      → Keeps c
          (to_body m.next size x)
          (labelled c size (head_of x) x m)
          l
          (recv_msg_header_parse_proc ms c s)
  unfolding recv_msg_header_parse_proc
  header_of_body good more = rw (if_false (refused written) _ _ (size_of (λ n. refused n) ∙ good)) (
      rw (if_false (written == len_pkg_header) _ _ (size_of (λ n. n == len_pkg_header) ∙ more)) (
        rw same_message (
          refl,
          record {
            conn =
                update_self message.socket.conn c _
                ∙ ap₂ (λ y k. to_body y.recv_msg_mem_pointer k y) message-Holds.conn
                    (size_of (λ n. n));
            memory = message-Holds.memory;
            queue = message-Holds.queue;
            flood_off = message-Holds.flood_off;
          },
        )))

-- ===== src/Threads.antt =====
-- misc/XiaoHG_C_ThreadPool.cxx: the thread pool beside the work of its threads, and
-- `ClearMsgSendList` of app/XiaoHG_C_MessageCtl.cxx. What the calls of pthread answer is an argument.
pub mod Alerts
pub mod Clearing
use xiao_hg_server.Base.{
  ℕ, zero, suc, ℤ, pos, negsuc, inc, eq_ℤ, ◌-◌, ◌%◌, ◌^◌, Bool, true, false, List, [], ◌∷◌, ◌++◌,
  Outcome, done, exited, if◌then◌else◌, ltb, ◌>>=◌, codes,
}
use xiao_hg_server.Conf.{ConfItem, get_int_default}
use xiao_hg_server.Memory.{Memory, free_memory}
use xiao_hg_server.Server.{Server, MessageCtl}

-- The members of `CThreadPool`. `alerts` are the times at which the log was told that there are not
-- enough threads, the last one first.
pub record ThreadPool : Type 0 where
  pub thread_num : ℤ
  pub running_thread_count : ℤ
  pub thread_count : ℕ
  pub recv_msg_queue_count : ℤ
  pub msg_recv_queue : List ℕ
  pub last_alart_not_enough_thread_time : ℕ
  pub alerts : List ℕ

-- The loop that creates `n` threads, of which the next one has the number `i`.
unfoldable pub start_threads : (ℕ → Bool) → ℕ → ℕ → ThreadPool → Outcome ThreadPool
start_threads ok zero i p = done p
start_threads ok (suc n) i p =
    (if ok i then done (record p { thread_count = suc p.thread_count }) else exited)
    >>= start_threads ok n (suc i)

-- A loop `for(int i = 0; i < n; i++)` with an `int` bound.
abbrev pub rounds : ℤ → ℕ
rounds (pos n) = n
rounds (negsuc n) = 0

-- `Init`.
unfoldable pub init_thread_pool : List ConfItem → (ℕ → Bool) → ThreadPool → Outcome ThreadPool
unfolding start_threads get_int_default
init_thread_pool items ok p =
    start_threads ok (rounds (get_int_default items (codes "ProcMsgRecvWorkThreadCount") (pos 5))) 0
      p

-- All threads are busy, and the last alert is more than ten seconds old.
abbrev pub alerting : ℕ → ThreadPool → Bool
alerting now p =
    if eq_ℤ p.thread_num p.running_thread_count
    then ltb 10 (now - p.last_alart_not_enough_thread_time)
    else false

-- `CallRecvMsgHandleThread` at the time `now`, by whether `pthread_cond_signal` succeeds.
unfoldable pub call_recv_msg_handle_thread : ℕ → Bool → ThreadPool → ThreadPool
call_recv_msg_handle_thread now signalled p =
    if signalled
    then if alerting now p
      then record p { last_alart_not_enough_thread_time = now; alerts = now ∷ p.alerts }
      else p
    else p

-- `PushRecvMsgToRecvListAndCond(pRecvMsgBuff)`, by whether the mutex can be locked and unlocked.
unfoldable pub push_recv_msg_to_recv_list_and_cond :
    ℕ → Bool → Bool → Bool → ℕ → ThreadPool → ThreadPool
unfolding call_recv_msg_handle_thread
push_recv_msg_to_recv_list_and_cond now locked unlocked signalled a p =
    if locked
    then (let q : ThreadPool = record p {
      msg_recv_queue = p.msg_recv_queue ++ (a ∷ []);
      recv_msg_queue_count = inc p.recv_msg_queue_count;
    } in
        if unlocked then call_recv_msg_handle_thread now signalled q else q)
    else p

-- The loops of `ClearMsgRecvQueue` and `ClearMsgSendList` over a list of messages.
unfoldable pub free_all : List ℕ → Memory → Memory
unfolding free_memory
free_all [] m = m
free_all (a ∷ l) m = free_all l (free_memory a m)

-- `ClearMsgRecvQueue`; the count stays.
unfoldable pub clear_msg_recv_queue : ThreadPool → Memory → ThreadPool × Memory
unfolding free_all
clear_msg_recv_queue p m = (record p { msg_recv_queue = [] }, free_all p.msg_recv_queue m)

-- `ClearMsgSendList`.
unfoldable pub clear_msg_send_list : Server → Server
unfolding free_all
clear_msg_send_list s = record s {
  message = (let m = s.message in record m { send_msg_list = [] });
  memory = free_all s.message.send_msg_list s.memory;
}

-- `Clear`: whether it succeeds, by whether the threads can be woken; then they are joined, and their
-- items deleted.
pub clear_thread_pool : Bool → ThreadPool → Bool × ThreadPool
clear_thread_pool woken p = if woken then (true, record p { thread_count = 0 }) else (false, p)

-- The getters, as `uint32_t`, and the setter.
abbrev pub as_uint32 : ℤ → ℕ
as_uint32 (pos n) = n % 2 ^ 32
as_uint32 (negsuc n) = 2 ^ 32 - 1 - n % 2 ^ 32

pub get_thread_count : ThreadPool → ℕ
get_thread_count p = as_uint32 p.thread_num

pub get_running_thread_count : ThreadPool → ℕ
get_running_thread_count p = as_uint32 p.running_thread_count

pub get_last_alart_not_enough_thread_time : ThreadPool → ℕ
get_last_alart_not_enough_thread_time p = p.last_alart_not_enough_thread_time % 2 ^ 32

pub set_last_alart_not_enough_thread_time : ℕ → ThreadPool → ThreadPool
set_last_alart_not_enough_thread_time time p = record p { last_alart_not_enough_thread_time = time }

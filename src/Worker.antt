-- ===== src/Worker.antt =====
-- `WorkerProcessInit` and `WorkerProcessCycle` of app/XiaoHG_C_ProcessCtl.cxx, and `Init` of
-- app/XiaoHG_C_MessageCtl.cxx: the life of a worker process. What the system answers is an argument.
pub mod Start
use xiao_hg_server.Base.{ℕ, Bool, List, [], ◌∷◌, Outcome, done, exited, if◌then◌else◌, ◌>>=◌, true}
use xiao_hg_server.Conf.{ConfItem}
use xiao_hg_server.Events.{EpollWait, epol_waitl_process_events}
use xiao_hg_server.Server.{MessageCtl, Server}
use xiao_hg_server.Setup.{Listener, Answers, need, init_socket}
use xiao_hg_server.Threads.{ThreadPool, init_thread_pool}

-- `CMessageCtl::Init`, by whether the sending thread can be created.
unfoldable pub init_message_ctl : Bool → MessageCtl → Outcome MessageCtl
init_message_ctl created m = need created (record m { discard_send_pkg_count = 0 })

-- The three objects of a worker process, before it runs.
pub record Worker : Type 0 where
  pub pool : ThreadPool
  pub message : MessageCtl
  pub listener : Listener

-- What the system answers: `sigprocmask`, `pthread_create` for the pool and for the sending thread,
-- and the calls of `CSocket::Init`.
pub record WorkerAnswers : Type 0 where
  pub sigprocmask : Bool
  pub pool_thread : ℕ → Bool
  pub send_thread : Bool
  pub socket : Answers

-- `WorkerProcessInit`.
unfoldable pub worker_process_init : ℕ → List ConfItem → WorkerAnswers → Worker → Outcome Worker
unfolding init_thread_pool init_message_ctl init_socket
worker_process_init now items a w = need a.sigprocmask w >>= (λ v.
    init_thread_pool items a.pool_thread v.pool >>= (λ p.
      init_message_ctl a.send_thread v.message >>= (λ m.
        init_socket now items a.socket v.listener
        >>= (λ l. done (record { pool = p; message = m; listener = l })))))

-- The loop of `WorkerProcessCycle`, as far as `epoll_wait` has answered.
pub worker_process_cycle : List EpollWait → Server → Outcome Server
unfolding epol_waitl_process_events
worker_process_cycle [] s = done s
worker_process_cycle (w ∷ ws) s = epol_waitl_process_events true w s >>= worker_process_cycle ws

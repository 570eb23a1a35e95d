-- ===== src/Run.antt =====
-- A worker process that runs: the loop of `WorkerProcessCycle` (app/XiaoHG_C_ProcessCtl.cxx) and the
-- threads beside it, which `CSocket::Init`, `CMessageCtl::Init` and `CThreadPool::Init` create, round by
-- round. How the rounds of several threads overlap is not modelled.
pub mod Books
mod Timers
mod Closes
mod Receives
mod Sends
mod Works
mod Serves
pub mod Refine
use xiao_hg_server.Base.{ℕ, ◌≡◌, true, done, ◌==◌, Star}
use xiao_hg_server.Business.{thread_round}
use xiao_hg_server.Events.{EpollWait, epol_waitl_process_events}
use xiao_hg_server.HeartBeat.{heart_beat_monitor_round}
use xiao_hg_server.Pool.{delay_recovery_pass}
use xiao_hg_server.Send.{Net, SemWait, send_msg_round}
use xiao_hg_server.Server.{Server}

-- A round of the main thread, of the sending thread, of a thread of the pool, of the monitor, or of
-- the thread that recycles connections, while no other thread runs, and up to its end: a round in
-- which a thread waits for ever or ends the process is no step.
pub data Step (s t : Server) : Type 0 where
  serves : (w : EpollWait) → epol_waitl_process_events true w s ≡ done t → Step s t
  sends : (net : Net) (w : SemWait) → send_msg_round net w s ≡ done t → Step s t
  works : (now : ℕ) → thread_round now s ≡ done t → Step s t
  watches : (now : ℕ) → heart_beat_monitor_round now s ≡ done t → Step s t
  recycles : (now : ℕ) → t ≡ delay_recovery_pass now s → Step s t

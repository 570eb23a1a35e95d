-- ===== src/Worker/Start.antt =====
-- app/XiaoHG_C_ProcessCtl.cxx: a worker process that has started.
use xiao_hg_server.Base.{
  ℕ, zero, suc, pos, ◌+◌, ◌≡◌, refl, sym, ap, ◌∙◌, Bool, true, false, ◌&&◌, List, arith, Ends,
  returns, exits, >>=-Ends, Ends-map, Ends-weaken, codes, subst,
}
use xiao_hg_server.Conf.{ConfItem, get_int_default}
use xiao_hg_server.Server.{MessageCtl}
use xiao_hg_server.Setup.{need, init_socket}
use xiao_hg_server.Setup.Ready.{unused, starts, IsReady, init_socket-IsReady}
use xiao_hg_server.Threads.{ThreadPool, start_threads, rounds, init_thread_pool}
use xiao_hg_server.Worker.{Worker, WorkerAnswers, init_message_ctl, worker_process_init}

-- Whether `n` threads from the number `i` on can be created.
abbrev pub created : (ℕ → Bool) → ℕ → ℕ → Bool
created ok zero i = true
created ok (suc n) i = ok i && created ok n (suc i)

-- `n` threads more.
abbrev pub with_threads : ℕ → ThreadPool → ThreadPool
with_threads n p = record p { thread_count = p.thread_count + n }

abbrev set_threads : ThreadPool → ℕ → ThreadPool
set_threads p k = record p { thread_count = k }

need_by {ℓ} : {A : Type ℓ} (ok : Bool) (a : A) → Ends (λ b. b ≡ a) ok (need ok a)
need_by false a = exits refl refl
need_by true a = returns a refl refl refl

start_threads-Ends :
    (ok : ℕ → Bool) (n i : ℕ) (p : ThreadPool)
    → Ends (λ q. q ≡ with_threads n p) (created ok n i) (start_threads ok n i p)
unfolding start_threads
start_threads-Ends ok zero i p =
    let same : p.thread_count ≡ p.thread_count + 0 = omega arith in
    returns p refl refl (ap (set_threads p) same)
start_threads-Ends ok (suc n) i p =
    let more : ThreadPool = record p { thread_count = suc p.thread_count } in
    let sum : suc p.thread_count + n ≡ p.thread_count + suc n = omega arith in
    >>=-Ends (ok i) (created ok n (suc i)) (need (ok i) more) (start_threads ok n (suc i))
      (need_by (ok i) more)
      (λ q e.
        Ends-weaken (start_threads-Ends ok n (suc i) q)
          (λ r h. h ∙ ap (with_threads n) e ∙ ap (set_threads p) sum))

-- The number of threads that the configuration asks for.
abbrev pub thread_number : List ConfItem → ℕ
thread_number items = rounds (get_int_default items (codes "ProcMsgRecvWorkThreadCount") (pos 5))

-- A worker process that is ready, and has been `v` before.
pub record IsStarted (items : List ConfItem) (a : WorkerAnswers) (v w : Worker) : Type 0 where
  pub listening : IsReady items a.socket.port w.listener
  pub threads : w.pool ≡ with_threads (thread_number items) v.pool
  pub messages : w.message ≡ record v.message { discard_send_pkg_count = 0 }

-- Whether all calls that end the process succeed.
abbrev pub worker_starts : List ConfItem → WorkerAnswers → Bool
worker_starts items a =
    a.sigprocmask
    && (created a.pool_thread (thread_number items) 0 && (a.send_thread && starts items a.socket))

-- `WorkerProcessInit` of a process whose `g_Socket` was not used before ends the process if the
-- signal mask cannot be set, a thread cannot be created, or `CSocket::Init` ends it. Else it
-- returns, with as many threads more in the pool as are configured, with no packet counted as
-- discarded and the message lists as they were, and with its sockets ready for clients.
pub worker_process_init-IsStarted :
    (now : ℕ) (items : List ConfItem) (a : WorkerAnswers) (p : ThreadPool) (m : MessageCtl)
    → Ends
        (IsStarted items a (record { pool = p; message = m; listener = unused }))
        (worker_starts items a)
        (worker_process_init now items a (record { pool = p; message = m; listener = unused }))
unfolding worker_process_init init_thread_pool init_message_ctl
worker_process_init-IsStarted now items a p m =
    let n : ℕ = thread_number items in
    let v : Worker = record { pool = p; message = m; listener = unused } in
    >>=-Ends a.sigprocmask (created a.pool_thread n 0 && (a.send_thread && starts items a.socket))
      (need a.sigprocmask v) _ (need_by a.sigprocmask v)
      (λ u same.
        >>=-Ends (created a.pool_thread n 0) (a.send_thread && starts items a.socket)
          (start_threads a.pool_thread n 0 u.pool) _ (start_threads-Ends a.pool_thread n 0 u.pool)
          (λ q threads.
            let fresh : MessageCtl = record (u.message) { discard_send_pkg_count = 0 } in
            >>=-Ends a.send_thread (starts items a.socket) (need a.send_thread fresh) _
              (need_by a.send_thread fresh)
              (λ k messages.
                Ends-map (starts items a.socket) (init_socket now items a.socket u.listener)
                  (λ l. record { pool = q; message = k; listener = l })
                  (subst
                    (λ l.
                      Ends (IsReady items a.socket.port) (starts items a.socket)
                        (init_socket now items a.socket l))
                    (sym (ap (λ x. x.listener) same)) (init_socket-IsReady now items a.socket))
                  (λ l ready. record {
                    listening = ready;
                    threads = threads ∙ ap (λ x. with_threads n x.pool) same;
                    messages =
                        messages ∙ ap (λ x. record (x.message) { discard_send_pkg_count = 0 }) same;
                  }))))

-- ===== src/Start/Works.antt =====
-- `WorkerProcessCycle` of app/XiaoHG_C_ProcessCtl.cxx: a worker process with its title.
use xiao_hg_server.Base.{
  ℕ, ◌<◌, ◌+◌, ◌^◌, ◌≡◌, refl, sym, ap, ◌∙◌, subst, ◌⊎◌, inl, inr, Bool, true, List, some, arith,
  ltb, length, returns, exits,
}
use xiao_hg_server.Conf.{ConfItem}
use xiao_hg_server.Process.{strings, worker_process}
use xiao_hg_server.Process.Title.{Prepared}
use xiao_hg_server.Server.{MessageCtl}
use xiao_hg_server.Signal.{signals, init_signals}
use xiao_hg_server.Start.{
  Program, ProgramAnswers, ProcessId, worker_id, Started, has_ended, with_title, worker_cycle,
  begin_work,
}
use xiao_hg_server.Start.Titles.{IsTitled, has_title, no_room, with_title-TitleEnds}
use xiao_hg_server.Threads.{ThreadPool}
use xiao_hg_server.Worker.{Worker, worker_process_init}
use xiao_hg_server.Worker.Start.{worker_process_init-IsStarted}
use xiao_hg_server.Start.Kinds.{FilesOf, kind, fresh, IsLaunch, Runs, Serves, if_works}

module _ (now : ℕ) (items : List ConfItem) (a : ProgramAnswers) (pool : ThreadPool)
    (message : MessageCtl) (args envs : List (List ℕ)) (p : Program) (master worker : List ℕ)
    (h : IsLaunch items args envs p master worker) where
  abbrev pub objects : Worker
  objects = fresh pool message

  abbrev pub size : ℕ
  size = length (strings args) + length (strings envs)

  abbrev pub Good : Started → Type 0
  Good = Serves now items a envs p master worker objects

  -- The program behind `CRun::Init` and the arguments.
  pub record IsReadied (q : Program) : Type 0 where
    pub prepared : Prepared envs q.main_arg
    pub room : length q.main_arg.os_mem ≡ size
    pub handlers : q.dispositions ≡ init_signals a.sigaction signals p.dispositions
    pub files : FilesOf items a.daemon p.descriptors q.descriptors

  pub titled-IsReadied :
      (title : List ℕ) (q r : Program) → IsReadied q → IsTitled title envs q r → IsReadied r
  titled-IsReadied title q r ready t = record {
    prepared = t.prepared;
    room = t.size ∙ ready.room;
    handlers = ap (λ k. k.dispositions) t.others ∙ ready.handlers;
    files =
        subst (FilesOf items a.daemon p.descriptors) (ap (λ k. k.descriptors) (sym t.others))
          ready.files;
  }

  pub titled-Runs :
      (id : ProcessId) (title : List ℕ) (q r : Program)
      → IsReadied q
      → q.process_id ≡ id
      → IsTitled title envs q r
      → Runs items a envs p id title r
  titled-Runs id title q r ready same t =
      let n = titled-IsReadied title q r ready t in
      record {
        name = t.name;
        environ = t.prepared.env r.main_arg.os_mem;
        handlers = n.handlers;
        files = n.files;
        process_id = ap (λ k. k.process_id) t.others ∙ same;
      }

  -- The worker process number `i`, by where its title brings it.
  abbrev pub WorkerFits : Bool → ℕ → Started → Type 0
  WorkerFits room i s = (kind s ≡ if_works items a room (worker_process i)) × Good s

  begin_work-WorkerFits :
      (i : ℕ) (q : Program)
      → Runs items a envs p worker_id worker q
      → WorkerFits true i (begin_work i q (worker_process_init now items (a.worker i) objects))
  begin_work-WorkerFits i q runs =
      elim (worker_process_init-IsStarted now items (a.worker i) pool message) [
        | returns v ok e started ↦
            subst (λ o. WorkerFits true i (begin_work i q o)) (sym e)
              (rw ok (
                refl,
                (
                  record {
                    name = runs.name;
                    environ = runs.environ;
                    handlers = runs.handlers;
                    files = runs.files;
                    process_id = runs.process_id;
                  },
                  λ n. refl,
                  e,
                  started,
                ),
              ))
        | exits ok e ↦ subst (λ o. WorkerFits true i (begin_work i q o)) (sym e) (rw ok (refl, tt))
      ]

  abbrev pub worker_body : ℕ → Started ⊎ Program → Started
  worker_body i e = elim e [
    | inl s ↦ s
    | inr q ↦ begin_work i q (worker_process_init now items (a.worker i) objects)
  ]

  abbrev pub as_worker : Program → Program
  as_worker q = record q { process_id = worker_id }

  worker_cycle_lem :
      (q : Program) (i : ℕ)
      → worker_cycle now items a objects q i
        ≡ worker_body i (with_title (some worker) (as_worker q))
  unfolding worker_cycle
  worker_cycle_lem q i = ap (λ t. worker_body i (with_title t (as_worker q))) h.worker_title

  pub worker_cycle-WorkerFits :
      (q : Program) (i : ℕ)
      → IsReadied q
      → WorkerFits (ltb (length worker) size) i (worker_cycle now items a objects q i)
  worker_cycle-WorkerFits q i ready =
      let at : Program = as_worker q in
      let is_ready : IsReadied at = record {
        prepared = ready.prepared;
        room = ready.room;
        handlers = ready.handlers;
        files = ready.files;
      } in
      let small : length at.main_arg.os_mem < 2 ^ 32 = omega (arith, ready.room, h.size) in
      subst (WorkerFits (ltb (length worker) size) i) (sym (worker_cycle_lem q i)) (
        subst
          (λ n. WorkerFits (ltb (length worker) n) i (worker_body i (with_title (some worker) at)))
          ready.room
          (elim (with_title-TitleEnds worker envs at ready.prepared small h.worker_size
            h.clean_worker) [
              | has_title r room e t ↦
                  subst
                    (λ k.
                      WorkerFits (ltb (length worker) (length at.main_arg.os_mem)) i
                        (worker_body i k))
                    (sym e)
                    (subst (λ b. WorkerFits b i (worker_body i (inr r))) (sym room)
                      (begin_work-WorkerFits i r
                        (titled-Runs worker_id worker at r is_ready refl t)))
              | no_room full e ↦
                  subst
                    (λ k.
                      WorkerFits (ltb (length worker) (length at.main_arg.os_mem)) i
                        (worker_body i k))
                    (sym e)
                    (subst (λ b. WorkerFits b i (worker_body i (inl has_ended))) (sym full)
                      (refl, tt))
            ]))

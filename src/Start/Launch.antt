-- ===== src/Start/Launch.antt =====
-- From `main` of app/XiaoHG_main.cxx to the processes that serve.
use xiao_hg_server.Base.{
  flatten, All-append, ◌++◌, ℕ, ◌<◌, ◌+◌, ◌^◌, ◌≡◌, refl, sym, ap, ap₂, ◌∙◌, subst, ◌⊎◌, inl, inr,
  Bool, true, false, ◌&&◌, ◌||◌, List, [], ◌∷◌, map, All, Option, none, some, Outcome, done, exited,
  deadlock, arith, if◌then◌else◌, ltb, ◌==◌, update, length, length-append,
}
use xiao_hg_server.Conf.{ConfItem}
use xiao_hg_server.Process.{
  File, strings, init_main_arg, Process, master_process, worker_process, ended_process,
  run_descriptors, master_process_cycle,
}
use xiao_hg_server.Process.Title.{Prepared, init_main_arg-Prepared}
use xiao_hg_server.Server.{MessageCtl}
use xiao_hg_server.Setup.{need}
use xiao_hg_server.Signal.{
  signals, init_signals, SigSet, register_signals, set_sig_empty, add_signals, add_sig,
}
use xiao_hg_server.Start.{
  Program, ProgramAnswers, master_id, Started, is_master, has_ended, stuck, master_signals,
  with_title, goes_on, master_cycle, as_master, runing, main, init_run, registered,
}
use xiao_hg_server.Start.Daemons.{goes, FilesIn, run_descriptors-going, run_descriptors-FilesIn}
use xiao_hg_server.Start.Titles.{has_title, no_room, with_title-TitleEnds}
use xiao_hg_server.Threads.{ThreadPool}
use xiao_hg_server.Worker.{Worker}
use xiao_hg_server.Start.Kinds.{becomes, going, Launches, kind, fresh, IsLaunch, Serves, if_works}
use xiao_hg_server.Start.Works

register_signals_lem :
    (ok : Bool) (blocked : SigSet)
    → (s : SigSet) × (register_signals ok master_signals blocked ≡ some s)
      × ((n : ℕ) → s n ≡ (blocked n || (ok && (n == 14 || n == 17))))
unfolding register_signals add_signals add_sig update
register_signals_lem true blocked = (_, refl, λ n. ground arith)
register_signals_lem false blocked = (_, refl, λ n. ground arith)

init_room :
    (args envs : List (List ℕ))
    → length (init_main_arg 0 0 args envs).os_mem ≡ length (strings args) + length (strings envs)
unfolding init_main_arg
init_room args envs = length-append (strings args) (strings envs)

map_append {ℓ κ} :
    {A : Type ℓ} {B : Type κ} (f : A → B) (xs ys : List A) → map f (xs ++ ys) ≡ map f xs ++ map f ys
map_append f [] ys = refl
map_append f (x ∷ xs) ys = ap (◌∷◌ (f x)) (map_append f xs ys)

module _ (now : ℕ) (items : List ConfItem) (a : ProgramAnswers) (pool : ThreadPool)
    (message : MessageCtl) (args envs : List (List ℕ)) (p : Program) (master worker : List ℕ)
    (h : IsLaunch items args envs p master worker) where
  abbrev size : ℕ
  size = length (strings args) + length (strings envs)

  abbrev w : Worker
  w = fresh pool message

  abbrev Good : Started → Type 0
  Good = Serves now items a envs p master worker w

  abbrev Ready : Program → Type 0
  Ready = Works.IsReadied now items a pool message args envs p master worker h

  abbrev works : Process → Process
  works = if_works items a (ltb (length worker) size)

  goes_on-Good :
      (q : Program) (x : Process)
      → Ready q
      → Good (is_master q set_sig_empty)
      → (kind (goes_on now items a w q x) ≡ works x) × Good (goes_on now items a w q x)
  unfolding goes_on
  goes_on-Good q master_process ready good = (refl, good)
  goes_on-Good q (worker_process i) ready good =
      Works.worker_cycle-WorkerFits now items a pool message args envs p master worker h q i ready
  goes_on-Good q ended_process ready good = (refl, tt)

  abbrev Fits : Bool → List Started → Type 0
  Fits ok l = (map kind l ≡ becomes items a (ltb (length worker) size) ok) × All Good l

  all_go :
      (q : Program) (l : List Process)
      → Ready q
      → Good (is_master q set_sig_empty)
      → (map kind (map (goes_on now items a w q) l) ≡ map works l)
        × All Good (map (goes_on now items a w q) l)
  all_go q [] ready good = (refl, tt)
  all_go q (x ∷ l) ready good =
      let first = goes_on-Good q x ready good in
      let rest = all_go q l ready good in (ap₂ (λ k ks. k ∷ ks) first.0 rest.0, (first.1, rest.1))

  -- The signals that the master blocks.
  abbrev Blocks : Program → Type 0
  Blocks q = (n : ℕ) → q.blocked n ≡ (p.blocked n || (a.sigprocmask && (n == 14 || n == 17)))

  abbrev master_body : Started ⊎ Program → List Started
  master_body e = elim e [
    | inl s ↦ s ∷ []
    | inr q ↦ map (goes_on now items a w q) (master_process_cycle items a.fork)
  ]

  master_cycle_lem :
      (q : Program) → master_cycle now items a w q ≡ master_body (with_title (some master) q)
  unfolding master_cycle
  master_cycle_lem q = ap (λ t. master_body (with_title t q)) h.master_title

  master_cycle-Fits :
      (q : Program)
      → Ready q
      → q.process_id ≡ master_id
      → Blocks q
      → Fits (ltb (length master) size) (master_cycle now items a w q)
  master_cycle-Fits q ready same blocks =
      let small : length q.main_arg.os_mem < 2 ^ 32 = omega (arith, ready.room, h.size) in
      let n : ℕ = length q.main_arg.os_mem in
      subst (Fits (ltb (length master) size)) (sym (master_cycle_lem q)) (
        subst (λ k. Fits (ltb (length master) k) (master_body (with_title (some master) q)))
          ready.room
          (elim (with_title-TitleEnds master envs q ready.prepared small h.master_size
            h.clean_master) [
              | has_title r room e t ↦
                  subst (λ k. Fits (ltb (length master) n) (master_body k)) (sym e)
                    (subst (λ b. Fits b (master_body (inr r))) (sym room)
                      (all_go r (master_process_cycle items a.fork)
                        (Works.titled-IsReadied now items a pool message args envs p master worker h
                          master q r ready t)
                        (
                          Works.titled-Runs now items a pool message args envs p master worker h
                              master_id master q r ready same t,
                          (λ k. ap (λ m. m.blocked k) t.others ∙ blocks k),
                          (λ k. refl),
                        )))
              | no_room full e ↦
                  subst (λ k. Fits (ltb (length master) n) (master_body k)) (sym e)
                    (subst (λ b. Fits b (master_body (inl has_ended))) (sym full) (refl, (tt, tt)))
            ]))

  -- The program behind the arguments, when it goes on with the descriptors `d`.
  abbrev with_args : Program
  with_args = record p {
    main_arg = init_main_arg p.main_arg.argv_need_mem_size p.main_arg.env_need_mem_size args envs;
    dispositions = init_signals a.sigaction signals p.dispositions;
  }

  as_master-Fits :
      (d : Option (ℕ → File))
      → FilesIn items a.daemon p.descriptors d
      → Fits (goes d && ltb (length master) size) (as_master now items a w with_args d)
  unfolding as_master registered
  as_master-Fits none e = (refl, (tt, tt))
  as_master-Fits (some d) e =
      let (s, is_set, blocks) = register_signals_lem a.sigprocmask p.blocked in
      let q : Program = record with_args { descriptors = d; process_id = master_id; blocked = s } in
      let init : init_main_arg p.main_arg.argv_need_mem_size p.main_arg.env_need_mem_size args envs
          ≡ init_main_arg 0 0 args envs =
        ap₂ (λ j k. init_main_arg j k args envs) h.no_args h.no_envs in
      let prepared : Prepared envs q.main_arg =
        subst (Prepared envs) (sym init) (init_main_arg-Prepared args envs h.size h.clean_envs) in
      let room : length q.main_arg.os_mem ≡ size =
        ap (λ m. length m.os_mem) init ∙ init_room args envs in
      subst
        (λ o. Fits (ltb (length master) size) (
          registered now items a w (record with_args { descriptors = d; process_id = master_id })
            o))
        (sym is_set)
        (master_cycle-Fits q
          (record { prepared = prepared; room = room; handlers = refl; files = e }) refl blocks)

  -- What one process becomes, by whether it goes on to `MasterProcessCycle`.
  abbrev one : Bool → List Process
  one ok = becomes items a (ltb (length worker) size) (ok && ltb (length master) size)

  -- All processes.
  abbrev Fit : List Bool → List Started → Type 0
  Fit oks l = (map kind l ≡ flatten (map one oks)) × All Good l

  as_masters-Fit :
      (ds : List (Option (ℕ → File)))
      → All (FilesIn items a.daemon p.descriptors) ds
      → Fit (map goes ds) (flatten (map (as_master now items a w with_args) ds))
  unfolding flatten
  as_masters-Fit [] files = (refl, tt)
  as_masters-Fit (d ∷ ds) files =
      let first = as_master-Fits d files.0 in
      let rest = as_masters-Fit ds files.1 in
      let l : List Started = as_master now items a w with_args d in
      let k : List Started = flatten (map (as_master now items a w with_args) ds) in
      (map_append kind l k ∙ ap₂ (λ x y. x ++ y) first.0 rest.0, All-append Good l k first.1 rest.1)

  -- What follows `CRun::Init`.
  abbrev by_init : Outcome Program → List Started
  by_init o = elim o [
    | done q ↦ runing now items a w args envs q
    | exited ↦ has_ended ∷ []
    | deadlock ↦ stuck ∷ []
  ]

  by_init-Fit :
      (ok : Bool)
      → let l =
          by_init (
            need ok
              (record p { dispositions = init_signals a.sigaction signals p.dispositions })) in
        (map kind l ≡ (if ok then flatten (map one (going items a.daemon)) else ended_process ∷ []))
        × All Good l
  unfolding runing
  by_init-Fit true =
      let fit =
        as_masters-Fit (run_descriptors items a.daemon p.descriptors)
          (run_descriptors-FilesIn items a.daemon p.descriptors) in
      (
        fit.0 ∙ ap (λ k. flatten (map one k)) (run_descriptors-going items a.daemon p.descriptors),
        fit.1,
      )
  by_init-Fit false = (refl, (tt, tt))

pub main-Launches :
    (now : ℕ) (items : List ConfItem) (a : ProgramAnswers) (pool : ThreadPool)
    (message : MessageCtl) (args envs : List (List ℕ)) (p : Program) (master worker : List ℕ)
    → IsLaunch items args envs p master worker
    → Launches now items a args envs p master worker
        (fresh pool message)
        (main now items a (fresh pool message) args envs p)
unfolding main init_run
main-Launches now items a pool message args envs p master worker h =
    let (same, good) =
      by_init-Fit now items a pool message args envs p master worker h a.sem_init in
    record { processes = same; serve = good }

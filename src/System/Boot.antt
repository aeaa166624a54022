-- ===== src/System/Boot.antt =====
-- The command of cmd/cronflux/main.go from its arguments to the end of a row of events.
use cronflux.Common.{
  ℕ, suc, ◌≡◌, refl, ap, ◌∙◌, List, [], ◌∷◌, true, Option, some, Str, str_eq, str_eq_iff, ℤ,
  Duration, Result, ok, All, arith, Bool-cases, inl, inr, ◌⊎◌,
}
use cronflux.Common.Dict.{lookup}
use cronflux.Job.{Job}
use cronflux.Store.{Store}
use cronflux.Store.Memory.{MemStore, memory, new, put_job}
use cronflux.Store.Memory.Invariant.{Call, step-IsWellFormed, new-IsWellFormed}
use cronflux.Config.{Config, backend_memory, load, scheduler_options}
use cronflux.Config.Accepted.{load-IsUsable}
use cronflux.Config.Jobs.{LoadError}
use cronflux.Scheduler.{Env, World}
use cronflux.Scheduler.Loop.{with_defaults}
use cronflux.Api.{Server}
use cronflux.Api.Stored.{step-AllJobs}
use cronflux.Cron.Next.Alive.{parse_schedule, IsAlive}
use cronflux.System.{Event, put_jobs, or_put_error, load_into, prepare, run_events}
use cronflux.System.Ready.{IsReady}
use cronflux.System.Ends.{IsFit, run_events-ends}
use cronflux.System.Command.{open_store, on_memory, new_world, finish, start}

module _ (env : Env) (server : Server) (parse_duration : Str → Option Duration) where
  abbrev Ready : World MemStore → Type 0
  Ready = IsReady env server parse_duration

  new-IsReady : Ready (new_world new)
  unfolding lookup
  new-IsReady = record {
    well_formed = new-IsWellFormed;
    alive = λ k j e. cc;
    later = λ id sched e. cc;
  }

  put_jobs-IsReady :
      (js : List Job) (w : World MemStore)
      → All (IsAlive parse_duration) js
      → Ready w
      → (u : World MemStore) × (put_jobs memory js w ≡ (u, ok tt)) × Ready u
  unfolding put_jobs put_job
  put_jobs-IsReady [] w alive h = (w, refl, h)
  put_jobs-IsReady (j ∷ js) w alive h =
      put_jobs-IsReady js (record w { store = (put_job j w.store).0 }) alive.1
        (record {
          well_formed = step-IsWellFormed w.store (Call.put j) h.well_formed;
          alive =
              step-AllJobs env server (IsAlive parse_duration) w.store (Call.put j) alive.0
                h.well_formed h.alive;
          later = h.later;
        })

  prepare-IsReady :
      (cfg : Config) (load_jobs : Str → Result LoadError (List Job)) (jobs : List Job)
      (w : World MemStore)
      → (str_eq cfg.jobs_file [] ≡ true) ⊎ (load_jobs cfg.jobs_file ≡ ok jobs)
      → All (IsAlive parse_duration) jobs
      → Ready w
      → (u : World MemStore) × (prepare memory cfg load_jobs w ≡ (u, ok tt)) × Ready u
  unfolding prepare load_into
  prepare-IsReady cfg load_jobs jobs w given alive h = elim (Bool-cases (str_eq cfg.jobs_file [])) [
    | inl absent ↦ (w, rw (absent, prepare) refl, h)
    | inr there ↦ elim given [
      | inl absent ↦ absurd (ground (arith, absent, there))
      | inr loaded ↦
          let (u, put, ready) = put_jobs-IsReady jobs w alive h in
          (u, rw (there, loaded, prepare, load_into) (ap (or_put_error memory) put), ready)
    ]
  ]

module _ {D : Type 0} (api : Store D) (open_database : Str → Result Str D)
    (load_jobs : Str → Result LoadError (List Job)) (getenv : Str → Str)
    (parse_duration : Str → Option Duration) (atoi : Str → Option ℤ)
    (parse_flags : List Str → Config → Result Str Config) (args : List Str) where
  start-memory :
      (cfg : Config) (w : World MemStore)
      → str_eq cfg.backend backend_memory ≡ true
      → prepare memory cfg load_jobs (new_world new) ≡ (w, ok tt)
      → start api open_database load_jobs (ok cfg)
        ≡ ok (on_memory w (with_defaults (scheduler_options cfg)))
  unfolding start open_store
  start-memory cfg w chosen prepared =
      rw (chosen, start, open_store) (ap (finish on_memory cfg) prepared)

  -- Where Load accepts the arguments and chooses the in-memory backend, and either no jobs file is
  -- configured or LoadJobs accepts it and each of its jobs whose expression Parse accepts is an
  -- @every job or fires again within five years of any instant: `run` starts the scheduler with the
  -- configured options, and with the schedules of cron.Parse every row of ticks before the fuel and
  -- of requests that post such jobs only then runs to its end, with more than one round of fuel
  -- above the ticks' times.
  pub start-ends :
      (env : Env) (server : Server) (cfg : Config) (jobs : List Job) (fuel : ℕ) (es : List Event)
      → env.parse ≡ parse_schedule parse_duration
      → load getenv parse_duration atoi parse_flags args ≡ ok cfg
      → cfg.backend ≡ backend_memory
      → (str_eq cfg.jobs_file [] ≡ true) ⊎ (load_jobs cfg.jobs_file ≡ ok jobs)
      → All (IsAlive parse_duration) jobs
      → All (IsFit env server parse_duration fuel) es
      → (w : World MemStore) × (u : World MemStore) × (start api open_database load_jobs
            (load getenv parse_duration atoi parse_flags args)
          ≡ ok (on_memory w (scheduler_options cfg)))
        × (run_events memory env (scheduler_options cfg) server (suc fuel) es w ≡ some u)
  start-ends env server cfg jobs fuel es parses loaded chosen given alive fit =
      let usable = load-IsUsable getenv parse_duration atoi parse_flags args cfg loaded in
      let (w, prepared, ready) =
        prepare-IsReady env server parse_duration cfg load_jobs jobs (new_world new) given alive
          (new-IsReady env server parse_duration) in
      let (u, ended, still) =
        run_events-ends env server parse_duration parses (scheduler_options cfg) fuel es w fit
          ready in
      (
        w,
        u,
        ap (start api open_database load_jobs) loaded
            ∙ start-memory cfg w ((str_eq_iff cfg.backend backend_memory).1 chosen) prepared
            ∙ ap (λ o. ok (on_memory w o)) usable.1,
        ended,
      )

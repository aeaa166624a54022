-- ===== src/System/Ready.antt =====
-- What a running system keeps so that its next tick ends: every schedule answers with later times.
use cronflux.Common.{
  sym, subst, Option, Str, Time, Duration, Result, ok, err, Result-cases, Bool-cases, inl, inr,
}
use cronflux.Common.Dict.{Dict}
use cronflux.Job.{Job}
use cronflux.Store.{StoreError}
use cronflux.Store.Memory.{MemStore, memory}
use cronflux.Store.Memory.Invariant.{IsWellFormed}
use cronflux.Scheduler
use cronflux.Scheduler.{Env, World, tick}
use cronflux.Scheduler.Dispatcher.Ends.{AllLater}
use cronflux.Scheduler.Loop.{trigger}
use cronflux.Scheduler.Safety.{Keeps, trigger-IsSafe}
use cronflux.Api.{
  Server, Request, Response, serve, respond, check_job, handle_list_jobs, handle_create_job,
  handle_get_job, handle_delete_job, handle_trigger_job, handle_list_runs, handle_get_run,
  handle_ready,
}
use cronflux.Api.Effects.{IsPosted}
use cronflux.Api.Stored.{AllJobs, serve-AllJobs}
use cronflux.Cron.Next.Alive.{IsAlive}

-- The dispatcher's cache after a tick is the one after its dispatch.
pub cache-Keeps : Keeps memory (λ (s : MemStore) (m : Dict Scheduler.Schedule). AllLater m)
cache-Keeps = record {
  get_job = λ id s h. h;
  list_jobs = λ s h. h;
  list_runs = λ f s h. h;
  create_run = λ r s h. h;
  update_run = λ r s h. h;
  claim_due = λ now worker lease limit s h. h;
}

-- An answer that does not look at the world.
respond-AllLater :
    {A : Type 0} (f : StoreError → Response) (g : A → Response)
    (p : World MemStore × Result StoreError A)
    → AllLater p.0.parsed
    → AllLater (respond f g p).0.parsed
respond-AllLater f g (w, ok a) h = h
respond-AllLater f g (w, err e) h = h

module _ (env : Env) (server : Server) (parse_duration : Str → Option Duration) where
  -- No request changes the dispatcher's cache.
  serve-AllLater :
      (now : Time) (r : Request) (w : World MemStore)
      → AllLater w.parsed
      → AllLater (serve memory env server now r w).0.parsed
  unfolding serve handle_list_jobs handle_create_job handle_get_job handle_delete_job
      handle_trigger_job handle_list_runs handle_get_run handle_ready
  serve-AllLater now Request.list_jobs w h = respond-AllLater _ _ _ h
  serve-AllLater now (Request.create_job decoded) w h =
      elim (Result-cases (check_job server decoded)) [
        | inl (j, e) ↦ rw (e, handle_create_job) (respond-AllLater _ _ _ h)
        | inr (p, e) ↦ rw (e, handle_create_job) h
      ]
  serve-AllLater now (Request.get_job id) w h = respond-AllLater _ _ _ h
  serve-AllLater now (Request.delete_job id) w h = respond-AllLater _ _ _ h
  serve-AllLater now (Request.trigger_job id) w h = elim (Bool-cases server.has_scheduler) [
    | inr e ↦ rw (e, handle_trigger_job) h
    | inl e ↦
        rw (e, handle_trigger_job)
          (respond-AllLater _ _ (trigger memory env id w)
            (trigger-IsSafe memory env (λ s m. AllLater m) cache-Keeps id w h))
  ]
  serve-AllLater now (Request.list_runs q) w h = respond-AllLater _ _ _ h
  serve-AllLater now (Request.get_run id) w h = respond-AllLater _ _ _ h
  serve-AllLater now Request.health w h = h
  serve-AllLater now Request.ready w h = respond-AllLater _ _ _ h
  serve-AllLater now Request.service_info w h = h
  serve-AllLater now Request.unmatched w h = h

  -- A job that the request posts fires again and again.
  abbrev pub PostsAlive : Request → Type 0
  PostsAlive (Request.create_job (ok j)) = IsAlive parse_duration j
  PostsAlive _ = Unit

  posted-IsAlive : (r : Request) (j : Job) → PostsAlive r → IsPosted r j → IsAlive parse_duration j
  posted-IsAlive (Request.create_job decoded) j h (now, i, e, same) =
      let alive : IsAlive parse_duration i =
        subst (λ (d : Result Str Job). PostsAlive (Request.create_job d)) e h in
      subst (IsAlive parse_duration) (sym same) alive
  posted-IsAlive Request.list_jobs j h p = elim p [ ]
  posted-IsAlive (Request.get_job id) j h p = elim p [ ]
  posted-IsAlive (Request.delete_job id) j h p = elim p [ ]
  posted-IsAlive (Request.trigger_job id) j h p = elim p [ ]
  posted-IsAlive (Request.list_runs q) j h p = elim p [ ]
  posted-IsAlive (Request.get_run id) j h p = elim p [ ]
  posted-IsAlive Request.health j h p = elim p [ ]
  posted-IsAlive Request.ready j h p = elim p [ ]
  posted-IsAlive Request.service_info j h p = elim p [ ]
  posted-IsAlive Request.unmatched j h p = elim p [ ]

  -- Between two events: the store is well formed, and every schedule answers with later times.
  pub record IsReady (w : World MemStore) : Type 0 where
    pub well_formed : IsWellFormed w.store
    pub alive : AllJobs (IsAlive parse_duration) w.store
    pub later : AllLater w.parsed

  pub serve-IsReady :
      (now : Time) (r : Request) (w : World MemStore)
      → PostsAlive r
      → IsReady w
      → IsReady (serve memory env server now r w).0
  serve-IsReady now r w p h =
      let (v, alive) =
        serve-AllJobs env server (IsAlive parse_duration) now r w
          (λ j vetted posted. posted-IsAlive r j p posted) h.well_formed h.alive in
      record { well_formed = v; alive = alive; later = serve-AllLater now r w h.later }

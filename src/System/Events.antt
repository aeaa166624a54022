-- ===== src/System/Events.antt =====
-- What holds of the in-memory store between the ticks and the requests of a running system.
use cronflux.Common.{
  ℕ, List, [], ◌∷◌, Option, none, some, Option-cases, inl, inr, ◌≡◌, refl, sym, subst,
}
use cronflux.Common.Dict.{Dict, lookup}
use cronflux.Job.{Job, Run}
use cronflux.Store.Memory.{
  MemStore, memory, list_jobs, list_runs, create_run, update_run, claim_due,
}
use cronflux.Store.Memory.Invariant.{Call, IsWellFormed, step-IsWellFormed}
use cronflux.Scheduler.{Env, World}
use cronflux.Scheduler.Loop.{Options, step}
use cronflux.Scheduler.Safety.{Keeps}
use cronflux.Scheduler.Safety.Pass.{step-keeps}
use cronflux.Api.{Server, serve}
use cronflux.Api.Effects.{IsVetted, get_job-keeps}
use cronflux.Api.Stored.{AllJobs, AllVetted, serve-AllVetted}
use cronflux.System.{Event, tick, request, run_events}

update_run-jobs : (r : Run) (s : MemStore) → (update_run r s).0.jobs ≡ s.jobs
unfolding update_run
update_run-jobs r s = elim (Option-cases (lookup r.id s.runs)) [
  | inl e ↦ rw (e, update_run) refl
  | inr (old, e) ↦ rw (e, update_run) refl
]

module _ (env : Env) (server : Server) where
  abbrev pub IsSound : MemStore → Type 0
  IsSound s = IsWellFormed s × AllVetted env server s

  -- No call of the scheduler stores a job.
  pub jobs-Keeps :
      (P : Job → Type 0) → Keeps memory (λ (s : MemStore) m. IsWellFormed s × AllJobs P s)
  unfolding list_jobs list_runs create_run claim_due
  jobs-Keeps P = record {
    get_job = λ id s h.
        subst (λ (x : MemStore). IsWellFormed x × AllJobs P x) (sym (get_job-keeps env server id s))
          h;
    list_jobs = λ s h. h;
    list_runs = λ f s h. h;
    create_run = λ r s h. (step-IsWellFormed s (Call.create r) h.0, h.1);
    update_run = λ r s h. (
      step-IsWellFormed s (Call.update r) h.0,
      λ key j e.
          h.1 key j (subst (λ (m : Dict Job). lookup key m ≡ some j) (update_run-jobs r s) e),
    );
    claim_due = λ now worker lease limit s h.
        (step-IsWellFormed s (Call.claim now worker lease limit) h.0, h.1);
  }

  abbrev pub IsSoundEnd : Option (World MemStore) → Type 0
  IsSoundEnd none = Unit
  IsSoundEnd (some w) = IsSound w.store

  -- From a well-formed in-memory store that holds vetted jobs only, any row of ticks and requests
  -- leads to such a store again, unless the fuel of a tick runs out: every stored job has an ID, and
  -- an expression that is empty or that Parse accepts.
  pub run_events-IsSoundEnd :
      (opts : Options) (fuel : ℕ) (es : List Event) (w : World MemStore)
      → IsWellFormed w.store
      → AllVetted env server w.store
      → IsSoundEnd (run_events memory env opts server fuel es w)
  unfolding run_events
  run_events-IsSoundEnd opts fuel [] w v h = (v, h)
  run_events-IsSoundEnd opts fuel (request now r ∷ es) w v h =
      let (v', h') = serve-AllVetted env server now r w v h in
      run_events-IsSoundEnd opts fuel es (serve memory env server now r w).0 v' h'
  run_events-IsSoundEnd opts fuel (tick now ∷ es) w v h =
      elim (Option-cases (step memory env opts fuel now w)) [
        | inl out ↦ rw (out, run_events) tt
        | inr (w', passed) ↦
            let kept =
              step-keeps memory env (λ s m. IsSound s) (jobs-Keeps (IsVetted env server))
                (λ j sched s m e p. p) opts fuel now w (v, h) in
            let (v', h') : IsSound w'.store = rw passed at kept in
            rw (passed, run_events) (run_events-IsSoundEnd opts fuel es w' v' h')
      ]

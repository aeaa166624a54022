-- ===== src/System/Ends.antt =====
-- A running system ends every row of ticks and requests: the fuel of its ticks does not run out.
use cronflux.Common.{
  ℕ, suc, ◌<◌, ◌≡◌, refl, sym, ap, ◌∙◌, subst, List, [], ◌∷◌, Option, some, Str, Time, Duration, ok,
  All, All-map, Option-cases, inl, inr, ok_inj,
}
use cronflux.Common.Dict.{Dict, lookup}
use cronflux.Job.{Job}
use cronflux.Store.Memory.{MemStore, memory, list_jobs}
use cronflux.Store.Memory.Invariant.{IsWellFormed}
use cronflux.Scheduler
use cronflux.Scheduler.{Env, World, tick}
use cronflux.Scheduler.Dispatcher.{dispatch}
use cronflux.Scheduler.Dispatcher.Ends.{AllLater, IsLaterJob, dispatch-EndsLater}
use cronflux.Scheduler.Loop.{Options, step, drain, publish_backlog}
use cronflux.Scheduler.Safety.Pass.{drain-keeps, publish_backlog-keeps, step-keeps}
use cronflux.Store.Memory.Inventory.{list_jobs-IsInventory}
use cronflux.Api.{Server, serve}
use cronflux.Api.Stored.{AllJobs}
use cronflux.Cron.Next.Alive.{parse_schedule, IsAlive, parse_schedule-IsLater}
use cronflux.System
use cronflux.System.{Event, run_events}
use cronflux.System.Events.{jobs-Keeps}
use cronflux.System.Ready.{cache-Keeps, PostsAlive, IsReady, serve-IsReady}

-- What an event must be for the system to go on: a tick comes before the fuel, and a posted job fires
-- again and again.
abbrev pub IsFit : Env → Server → (Str → Option Duration) → ℕ → Event → Type 0
IsFit env server parse_duration fuel (System.tick now) = now < fuel
IsFit env server parse_duration fuel (System.request now r) = PostsAlive env server parse_duration r

module _ (env : Env) (server : Server) (parse_duration : Str → Option Duration)
    (parses : env.parse ≡ parse_schedule parse_duration) where
  abbrev Ready : World MemStore → Type 0
  Ready = IsReady env server parse_duration

  listed-IsLater :
      (s : MemStore)
      → IsWellFormed s
      → AllJobs (IsAlive parse_duration) s
      → (js : List Job) → (list_jobs s).1 ≡ ok js
      → All (IsLaterJob memory env) js
  unfolding list_jobs
  listed-IsLater s v alive js e =
      let stored = (list_jobs-IsInventory s v).0.sound in
      All-map (λ (j : Job). lookup j.id s.jobs ≡ some j) (IsLaterJob memory env) js
        (λ j at sched made.
          parse_schedule-IsLater parse_duration j sched (alive j.id j at)
            (ap (λ (f : Str → Option Scheduler.Schedule). f j.spec) (sym parses) ∙ made))
        (subst (All (λ (j : Job). lookup j.id s.jobs ≡ some j)) (ok_inj e) stored)

  step-IsReady :
      (opts : Options) (fuel : ℕ) (now : Time) (w : World MemStore)
      → now < fuel
      → Ready w
      → (u : World MemStore) × (step memory env opts (suc fuel) now w ≡ some u) × Ready u
  unfolding step
  step-IsReady opts fuel now w enough h =
      let ticked = record w { metrics = Scheduler.tick ∷ w.metrics } in
      let listed = listed-IsLater w.store h.well_formed h.alive in
      let ended = dispatch-EndsLater memory env fuel now ticked listed h.later enough in
      let I = λ (s : MemStore) (m : Dict Scheduler.Schedule).
        IsWellFormed s × AllJobs (IsAlive parse_duration) s in
      let kept =
        step-keeps memory env I (jobs-Keeps env server (IsAlive parse_duration))
          (λ j sched s m e p. p) opts (suc fuel) now w (h.well_formed, h.alive) in
      elim (Option-cases (dispatch memory env (suc fuel) now ticked)) [
        | inl out ↦ absurd (rw out at ended)
        | inr (p, e) ↦
            let drained = drain memory env opts now p.0 in
            let u = publish_backlog memory env opts now drained in
            let passed : step memory env opts (suc fuel) now w ≡ some u = rw (e, step) refl in
            let stored : I u.store u.parsed = rw passed at kept in
            let later =
              publish_backlog-keeps memory env (λ s m. AllLater m) cache-Keeps opts now drained
                (drain-keeps memory env (λ s m. AllLater m) cache-Keeps opts now p.0
                  (rw e at ended)) in
            (u, passed, record { well_formed = stored.0; alive = stored.1; later = later })
      ]

  -- With the schedules of cron.Parse, every row of ticks and requests on an in-memory store runs to
  -- its end, if the store is well formed, every stored or posted job whose expression Parse accepts
  -- is an @every job or fires again within five years of any instant, the cached schedules answer
  -- every time with a later one, and the fuel of the ticks is more than one above their times. The
  -- same then holds of the store and of the cache again.
  pub run_events-ends :
      (opts : Options) (fuel : ℕ) (es : List Event) (w : World MemStore)
      → All (IsFit env server parse_duration fuel) es
      → Ready w
      → (u : World MemStore) × (run_events memory env opts server (suc fuel) es w ≡ some u)
        × Ready u
  unfolding run_events
  run_events-ends opts fuel [] w fit h = (w, refl, h)
  run_events-ends opts fuel (System.request now r ∷ es) w fit h =
      run_events-ends opts fuel es (serve memory env server now r w).0 fit.1
        (serve-IsReady env server parse_duration now r w fit.0 h)
  run_events-ends opts fuel (System.tick now ∷ es) w fit h =
      let (v, passed, ready) = step-IsReady opts fuel now w fit.0 h in
      let (u, done, end) = run_events-ends opts fuel es v fit.1 ready in
      (u, rw (passed, run_events) done, end)

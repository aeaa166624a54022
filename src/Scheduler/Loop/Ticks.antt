-- ===== src/Scheduler/Loop/Ticks.antt =====
-- A tick of the loop of internal/scheduler/scheduler.go ends.
use cronflux.Common.{ℕ, suc, ◌<◌, ◌≡◌, refl, List, ◌∷◌, some, Option-cases, Time, ok, All, inl, inr}
use cronflux.Job.{Job}
use cronflux.Store.{Store}
use cronflux.Scheduler.{Env, World, tick}
use cronflux.Scheduler.Dispatcher.{dispatch}
use cronflux.Scheduler.Dispatcher.Ends.{AllLater, IsLaterJob, dispatch-EndsLater}
use cronflux.Scheduler.Loop.{Options, drain, publish_backlog, step}

module _ {S : Type 0} (api : Store S) (env : Env) where
  -- Over any backend, a tick at `now` ends with more than `now + 1` rounds of fuel, if the schedules
  -- of the dispatcher's cache and those that the parser makes of the listed jobs' expressions answer
  -- every time with a later one.
  pub step_ends :
      (opts : Options) (fuel : ℕ) (now : Time) (w : World S)
      → ((js : List Job) → (api.list_jobs w.store).1 ≡ ok js → All (IsLaterJob api env) js)
      → AllLater w.parsed
      → now < fuel
      → (u : World S) × (step api env opts (suc fuel) now w ≡ some u)
  unfolding step
  step_ends opts fuel now w listed later enough =
      let ticked = record w { metrics = tick ∷ w.metrics } in
      let ended = dispatch-EndsLater api env fuel now ticked listed later enough in
      elim (Option-cases (dispatch api env (suc fuel) now ticked)) [
        | inl out ↦ absurd (rw out at ended)
        | inr (p, e) ↦
            (publish_backlog api env opts now (drain api env opts now p.0), rw (e, step) refl)
      ]

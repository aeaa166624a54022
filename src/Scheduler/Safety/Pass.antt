-- ===== src/Scheduler/Safety/Pass.antt =====
-- A pass of internal/scheduler/scheduler.go keeps what the methods of the store keep.
use mathlib.Core.Option
use cronflux.Common.{
  ℕ, List, [], ◌∷◌, Option, none, some, Time, Result, Bool-cases, Result-cases, inl, inr, ◌≡◌,
}
use cronflux.Common.Dict.{Dict, insert}
use cronflux.Job.{Job, Run, state_eq, succeeded}
use cronflux.Store.{Store, StoreError}
use cronflux.Scheduler.{Env, World, Schedule, call, read_clock, new_id, tick}
use cronflux.Scheduler.Worker.{process}
use cronflux.Scheduler.Dispatcher.{dispatch}
use cronflux.Scheduler.Loop.{
  Options, handle, handle_all, drain, publish_backlog, step, claim_limit, pending_filter,
}
use cronflux.Scheduler.Safety.{Keeps, Holds, After, process-IsSafe}
use cronflux.Scheduler.Safety.Dispatch.{dispatch-After, enqueue_dependents-IsSafe}

module _ {S : Type 0} (api : Store S) (env : Env) (I : S → Dict Schedule → Type 0)
    (k : Keeps api I) where
  handle-keeps :
      (opts : Options) (r : Run) (w : World S) → Holds I w → Holds I (handle api env opts r w)
  unfolding handle
  handle-keeps opts r w h =
      let processed = process-IsSafe api env I k r w h in
      elim (Result-cases (process api env r w).1) [
        | inr (x, e) ↦ rw (e, handle) processed
        | inl (r', e) ↦ elim (Bool-cases (state_eq r'.state succeeded)) [
          | inr other ↦ rw (e, other, handle) processed
          | inl done ↦
              let w' = (process api env r w).0 in
              rw (e, done, handle)
                (enqueue_dependents-IsSafe api env I k r' (env.clock w'.readings)
                  (read_clock env w').0 processed)
        ]
      ]

  handle_all-keeps :
      (opts : Options) (rs : List Run) (w : World S)
      → Holds I w
      → Holds I (handle_all api env opts rs w)
  unfolding handle_all
  handle_all-keeps opts [] w h = h
  handle_all-keeps opts (r ∷ rs) w h =
      handle_all-keeps opts rs (handle api env opts r w) (handle-keeps opts r w h)

  pub drain-keeps :
      (opts : Options) (now : Time) (w : World S) → Holds I w → Holds I (drain api env opts now w)
  unfolding drain
  drain-keeps opts now w h =
      let limit = claim_limit opts.workers in
      let w' = (call (api.claim_due now (env.new_id w.ids) opts.lease limit) (new_id env w).0).0 in
      let claimed = k.claim_due now (env.new_id w.ids) opts.lease limit w.store h in
      elim (Result-cases (api.claim_due now (env.new_id w.ids) opts.lease limit w.store).1) [
        | inr (x, e) ↦ rw (e, drain) claimed
        | inl (rs, e) ↦ rw (e, drain) (handle_all-keeps opts rs w' claimed)
      ]

  pub publish_backlog-keeps :
      (opts : Options) (now : Time) (w : World S)
      → Holds I w
      → Holds I (publish_backlog api env opts now w)
  unfolding publish_backlog
  publish_backlog-keeps opts now w h =
      let listed = k.list_runs pending_filter w.store h in
      elim (Result-cases (api.list_runs pending_filter w.store).1) [
        | inr (x, e) ↦ rw (e, publish_backlog) listed
        | inl (rs, e) ↦ rw (e, publish_backlog) listed
      ]

  abbrev pub Kept : Option (World S) → Type 0
  Kept none = Unit
  Kept (some w) = Holds I w

  rest_of_step :
      (opts : Options) (now : Time) (o : Option (World S × Result StoreError ℕ))
      → After I o
      → Kept (
          Option.map
            (λ (p : World S × Result StoreError ℕ).
              publish_backlog api env opts now (drain api env opts now p.0))
            o)
  rest_of_step opts now none h = tt
  rest_of_step opts now (some (w, x)) h =
      publish_backlog-keeps opts now (drain api env opts now w) (drain-keeps opts now w h)

  pub step-keeps :
      ((j : Job) (sched : Schedule) (s : S) (m : Dict Schedule)
        → env.parse j.spec ≡ some sched
        → I s m
        → I s (insert j.id sched m))
      → (opts : Options) (fuel : ℕ) (now : Time) (w : World S) → Holds I w
      → Kept (step api env opts fuel now w)
  unfolding step
  step-keeps cache opts fuel now w h =
      let ticked = record w { metrics = tick ∷ w.metrics } in
      rest_of_step opts now (dispatch api env fuel now ticked)
        (dispatch-After api env I k cache fuel now ticked h)

-- ===== src/Scheduler/Safety.antt =====
-- What a property of the store's state needs so that no pass of internal/scheduler can break it: the
-- six methods that the scheduler calls keep it.
pub mod Dispatch
pub mod Pass
use cronflux.Common.{
  ℕ, zero, suc, ◌+◌, List, [], ◌∷◌, Bool, true, false, not, ◌||◌, Option, none, some, Str, str_eq,
  ℤ, pos, Time, Duration, sub_time, Result, ok, err, leb, ltb_ℤ, if◌then◌else◌, Bool-cases,
  Option-cases, Result-cases, inl, inr, ◌≡◌, refl, any, ◌⊎◌,
}
use cronflux.Common.Dict.{Dict, lookup, insert}
use cronflux.Job.{Job, Run, new_run, state_eq, succeeded, failed, dead}
use cronflux.Store.{Store, StoreError, RunFilter, Method}
use cronflux.Scheduler.{
  Env, World, Action, Schedule, and_then, ◌>>=◌, ◌>>◌, pure, call, with_store, emit, observe_run,
  inc_retry, read_clock, execute, new_id,
}
use cronflux.Scheduler.Worker.{
  jitter_number, schedule_retry, record_failure, record_success, record_outcome, process,
}
use cronflux.Scheduler.Dispatcher.{
  by_job, has_slot, is_empty, has_succeeded, contains, schedule, enqueue_root, catch_up, fire,
  visit_scheduled, visit, visit_all, dispatch, deps_satisfied, enqueue_once, enqueue_dependent,
  enqueue_all, enqueue_dependents,
}
use cronflux.Scheduler.Loop.{Options, handle, handle_all, drain, publish_backlog, step, trigger}

-- The methods that the scheduler calls keep the property `I` of the store, whatever the dispatcher's
-- cache of parsed schedules holds.
pub record Keeps {S : Type 0} (api : Store S) (I : S → Dict Schedule → Type 0) : Type 0 where
  pub get_job : {m : Dict Schedule} (id : Str) (s : S) → I s m → I (api.get_job id s).0 m
  pub list_jobs : {m : Dict Schedule} (s : S) → I s m → I (api.list_jobs s).0 m
  pub list_runs : {m : Dict Schedule} (f : RunFilter) (s : S) → I s m → I (api.list_runs f s).0 m
  pub create_run : {m : Dict Schedule} (r : Run) (s : S) → I s m → I (api.create_run r s).0 m
  pub update_run : {m : Dict Schedule} (r : Run) (s : S) → I s m → I (api.update_run r s).0 m
  pub claim_due :
      {m : Dict Schedule} (now : Time) (worker : Str) (lease : Duration) (limit : ℤ) (s : S)
      → I s m
      → I (api.claim_due now worker lease limit s).0 m

abbrev pub Holds : {S : Type 0} → (S → Dict Schedule → Type 0) → World S → Type 0
Holds I w = I w.store w.parsed

module _ {S : Type 0} (I : S → Dict Schedule → Type 0) where
  abbrev pub IsSafe : {A : Type 0} → Action S A → Type 0
  IsSafe m = (w : World S) → Holds I w → Holds I (m w).0

  -- The result of a call that may run out of fuel.
  abbrev pub After : {A : Type 0} → Option (World S × A) → Type 0
  After none = Unit
  After (some (w, a)) = Holds I w

  and_then-After :
      {A B : Type 0} (p : World S × Result StoreError A) (f : A → Action S B)
      → Holds I p.0
      → ((a : A) → IsSafe (f a))
      → Holds I (and_then p f).0
  and_then-After (w, ok a) f h safe = safe a w h
  and_then-After (w, err e) f h safe = h

  bind-IsSafe :
      {A B : Type 0} (m : Action S A) (f : A → Action S B)
      → IsSafe m
      → ((a : A) → IsSafe (f a))
      → IsSafe (m >>= f)
  bind-IsSafe m f safe rest w h = and_then-After (m w) f (safe w h) rest

  if-IsSafe :
      {A : Type 0} (b : Bool) (m n : Action S A) → IsSafe m → IsSafe n → IsSafe (if b then m else n)
  if-IsSafe true m n safe safe' = safe
  if-IsSafe false m n safe safe' = safe'

module _ {S : Type 0} (api : Store S) (env : Env) (I : S → Dict Schedule → Type 0)
    (k : Keeps api I) where
  jitter_number-IsSafe : (j : Job) → IsSafe I (jitter_number api env j)
  unfolding jitter_number
  jitter_number-IsSafe j = if-IsSafe I _ _ _ (λ w h. h) (λ w h. h)

  schedule_retry-IsSafe : (j : Job) (r : Run) (at : Time) → IsSafe I (schedule_retry api env j r at)
  unfolding schedule_retry
  schedule_retry-IsSafe j r at w h =
      elim (Bool-cases (env.floats.lt (env.floats.of_int (pos 0)) j.backoff.jitter)) [
        | inl e ↦ rw (e, schedule_retry) (k.create_run _ w.store h)
        | inr e ↦ rw (e, schedule_retry) (k.create_run _ w.store h)
      ]

  record_failure-IsSafe :
      (j : Job) (r : Run) (error : Str) (finish : Time) (dur : Duration)
      → IsSafe I (record_failure api env j r error finish dur)
  unfolding record_failure
  record_failure-IsSafe j r error finish dur w h =
      elim (Bool-cases (ltb_ℤ (pos r.attempt) j.max_retries)) [
        | inr last ↦
            let dead_run = record r { error = error; state = dead } in
            elim (Result-cases (api.update_run dead_run w.store).1) [
              | inl (u, e) ↦ rw (last, e, record_failure) (k.update_run dead_run w.store h)
              | inr (x, e) ↦ rw (last, e, record_failure) (k.update_run dead_run w.store h)
            ]
        | inl more ↦
            let failed_run = record r { error = error; state = failed } in
            let w1 = (call (api.update_run failed_run) w).0 in
            elim (Result-cases (api.update_run failed_run w.store).1) [
              | inr (x, e) ↦ rw (more, e, record_failure) (k.update_run failed_run w.store h)
              | inl (u, e) ↦
                  let retried : Holds I (schedule_retry api env j failed_run finish w1).0 =
                    schedule_retry-IsSafe j failed_run finish w1
                      (k.update_run failed_run w.store h) in
                  rw (more, e, record_failure)
                    (and_then-After I (schedule_retry api env j failed_run finish w1)
                      (λ _.
                        emit (observe_run j.id failed dur)
                        >> (emit (inc_retry j.id) >> pure failed_run))
                      retried (λ _ v p. p))
            ]
      ]

  record_success-IsSafe :
      (j : Job) (r : Run) (dur : Duration) → IsSafe I (record_success api env j r dur)
  unfolding record_success
  record_success-IsSafe j r dur w h =
      let done = record r { state = succeeded; error = [] } in
      elim (Result-cases (api.update_run done w.store).1) [
        | inl (u, e) ↦ rw (e, record_success) (k.update_run done w.store h)
        | inr (x, e) ↦ rw (e, record_success) (k.update_run done w.store h)
      ]

  record_outcome-IsSafe :
      (j : Job) (r : Run) (error : Option Str) (start : Time)
      → IsSafe I (record_outcome api env j r error start)
  unfolding record_outcome
  record_outcome-IsSafe j r none start w h =
      let finish = env.clock w.readings in
      record_success-IsSafe j (record r { finished_at = some finish; updated_at = finish })
        (sub_time finish start) (read_clock env w).0 h
  record_outcome-IsSafe j r (some e) start w h =
      let finish = env.clock w.readings in
      record_failure-IsSafe j (record r { finished_at = some finish; updated_at = finish }) e finish
        (sub_time finish start) (read_clock env w).0 h

  pub process-IsSafe : (r : Run) → IsSafe I (process api env r)
  unfolding process
  process-IsSafe r w h =
      let got = k.get_job r.job_id w.store h in
      elim (Result-cases (api.get_job r.job_id w.store).1) [
        | inr (x, e) ↦ rw (e, process) got
        | inl (j, e) ↦ elim (Bool-cases (env.execute w.executions j r).parent_done) [
          | inl stopped ↦ rw (e, stopped, process) got
          | inr finished ↦
              rw (e, finished, process)
                (record_outcome-IsSafe j r (env.execute w.executions j r).error
                  (env.clock w.readings)
                  (execute env j r (read_clock env (call (api.get_job r.job_id) w).0).0).0 got)
        ]
      ]

  pub trigger-IsSafe : (id : Str) → IsSafe I (trigger api env id)
  unfolding trigger
  trigger-IsSafe id w h =
      let got = k.get_job id w.store h in
      elim (Result-cases (api.get_job id w.store).1) [
        | inr (x, e) ↦ rw (e, trigger) got
        | inl (j, e) ↦
            let at = env.clock w.readings in
            let r = new_run (env.new_id w.ids) j.id (env.new_id (w.ids + 1)) 0 at at in
            elim (Result-cases (api.create_run r (api.get_job id w.store).0).1) [
              | inl (u, e') ↦ rw (e, e', trigger) (k.create_run r _ got)
              | inr (x, e') ↦ rw (e, e', trigger) (k.create_run r _ got)
            ]
      ]

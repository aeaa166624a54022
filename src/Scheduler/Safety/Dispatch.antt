-- ===== src/Scheduler/Safety/Dispatch.antt =====
-- The dispatcher of internal/scheduler/dispatcher.go keeps what the methods of the store keep.
use cronflux.Common.{
  ℕ, zero, suc, ◌+◌, ◌≡◌, List, [], ◌∷◌, not, ◌||◌, Option, none, some, Str, str_eq, Time, leb,
  if◌then◌else◌, Bool-cases, Option-cases, Result-cases, inl, inr,
}
use cronflux.Common.Dict.{Dict, lookup, insert}
use cronflux.Job.{Job, Run}
use cronflux.Store.{Store}
use cronflux.Scheduler.{Env, World, Schedule, pure, call}
use cronflux.Scheduler.Dispatcher.{
  by_job, has_slot, is_empty, has_succeeded, contains, schedule, enqueue_root, catch_up, fire,
  visit_scheduled, visit, visit_all, dispatch, deps_satisfied, enqueue_once, enqueue_dependent,
  enqueue_all, enqueue_dependents,
}
use cronflux.Scheduler.Dispatcher.Results.{Option-results}
use cronflux.Scheduler.Safety.{Keeps, Holds, IsSafe, After, and_then-After, if-IsSafe}

module _ {S : Type 0} (api : Store S) (env : Env) (I : S → Dict Schedule → Type 0)
    (k : Keeps api I) where
  enqueue_root-IsSafe : (j : Job) (at : Time) → IsSafe I (enqueue_root api env j at)
  unfolding enqueue_root
  enqueue_root-IsSafe j at w h =
      let listed = k.list_runs (by_job j.id []) w.store h in
      elim (Result-cases (api.list_runs (by_job j.id []) w.store).1) [
        | inr (x, e) ↦ rw (e, enqueue_root) listed
        | inl (rs, e) ↦ elim (Bool-cases (has_slot at rs)) [
          | inl there ↦ rw (e, there, enqueue_root) listed
          | inr gone ↦ rw (e, gone, enqueue_root) (k.create_run _ _ listed)
        ]
      ]

  enqueue_once-IsSafe : (id batch : Str) (now : Time) → IsSafe I (enqueue_once api env id batch now)
  unfolding enqueue_once
  enqueue_once-IsSafe id batch now w h =
      let listed = k.list_runs (by_job id batch) w.store h in
      elim (Result-cases (api.list_runs (by_job id batch) w.store).1) [
        | inr (x, e) ↦ rw (e, enqueue_once) listed
        | inl (rs, e) ↦ elim (Bool-cases (not (is_empty rs))) [
          | inl there ↦ rw (e, there, enqueue_once) listed
          | inr gone ↦ rw (e, gone, enqueue_once) (k.create_run _ _ listed)
        ]
      ]

  deps_satisfied-IsSafe :
      (deps : List Str) (batch : Str) → IsSafe I (deps_satisfied api env deps batch)
  unfolding deps_satisfied
  deps_satisfied-IsSafe [] batch w h = h
  deps_satisfied-IsSafe (d ∷ deps) batch w h =
      let listed = k.list_runs (by_job d batch) w.store h in
      elim (Result-cases (api.list_runs (by_job d batch) w.store).1) [
        | inr (x, e) ↦ rw (e, deps_satisfied) listed
        | inl (rs, e) ↦ elim (Bool-cases (has_succeeded rs)) [
          | inl found ↦ rw (e, found, deps_satisfied) (deps_satisfied-IsSafe deps batch _ listed)
          | inr gone ↦ rw (e, gone, deps_satisfied) listed
        ]
      ]

  enqueue_dependent-IsSafe :
      (r : Run) (now : Time) (j : Job) → IsSafe I (enqueue_dependent api env r now j)
  unfolding enqueue_dependent
  enqueue_dependent-IsSafe r now j w h =
      let checked = deps_satisfied-IsSafe j.depends_on r.batch_id w h in
      elim (Bool-cases (not (contains j.depends_on r.job_id))) [
        | inl other ↦ rw (other, enqueue_dependent) h
        | inr depends ↦
            rw (depends, enqueue_dependent)
              (and_then-After I (deps_satisfied api env j.depends_on r.batch_id w)
                (λ ready. if not ready then pure tt else enqueue_once api env j.id r.batch_id now)
                checked
                λ ready.
                  if-IsSafe I (not ready) (pure tt) (enqueue_once api env j.id r.batch_id now)
                    (λ v p. p) (enqueue_once-IsSafe j.id r.batch_id now))
      ]

  enqueue_all-IsSafe :
      (r : Run) (now : Time) (js : List Job) → IsSafe I (enqueue_all api env r now js)
  unfolding enqueue_all
  enqueue_all-IsSafe r now [] w h = h
  enqueue_all-IsSafe r now (j ∷ js) w h =
      and_then-After I (enqueue_dependent api env r now j w) (λ _. enqueue_all api env r now js)
        (enqueue_dependent-IsSafe r now j w h) λ _. enqueue_all-IsSafe r now js

  pub enqueue_dependents-IsSafe :
      (r : Run) (now : Time) → IsSafe I (enqueue_dependents api env r now)
  unfolding enqueue_dependents
  enqueue_dependents-IsSafe r now w h =
      and_then-After I (call api.list_jobs w) (λ js. enqueue_all api env r now js)
        (k.list_jobs w.store h) λ js. enqueue_all-IsSafe r now js

  catch_up-After :
      (fuel : ℕ) (sched : Schedule) (j : Job) (now next : Time) (created : ℕ) (w : World S)
      → Holds I w
      → After I (catch_up api env fuel sched j now next created w)
  unfolding catch_up
  catch_up-After zero sched j now next created w h = tt
  catch_up-After (suc fuel) sched j now next created w h =
      let rooted = enqueue_root-IsSafe j next w h in
      elim (Bool-cases (leb next now)) [
        | inr future ↦ rw (future, catch_up) h
        | inl past ↦ elim (Result-cases (enqueue_root api env j next w).1) [
          | inr (x, e) ↦ rw (past, e, catch_up) rooted
          | inl (u, e) ↦
              rw (past, e, catch_up)
                (catch_up-After fuel sched j now (sched next) (created + 1)
                  (enqueue_root api env j next w).0 rooted)
        ]
      ]

  fire-After :
      (fuel : ℕ) (sched : Schedule) (j : Job) (now : Time) (created : ℕ) (w : World S)
      → Holds I w
      → After I (fire api env fuel sched j now created w)
  unfolding fire
  fire-After fuel sched j now created w h = elim (Option-cases (lookup j.id w.next_fire)) [
    | inl e ↦ rw (e, fire) h
    | inr (next, e) ↦
        let caught = catch_up-After fuel sched j now next created w h in
        elim (Option-results (catch_up api env fuel sched j now next created w)) [
          | inl out ↦ rw (e, out, fire) tt
          | inr (inl (u, x, broke)) ↦ rw (e, broke, fire) (rw broke at caught)
          | inr (inr (u, a, done)) ↦ rw (e, done, fire) (rw done at caught)
        ]
  ]

  visit_scheduled-After :
      (fuel : ℕ) (now : Time) (j : Job) (created : ℕ) (p : World S × Option Schedule)
      → Holds I p.0
      → After I (visit_scheduled api env fuel now j created p)
  unfolding visit_scheduled
  visit_scheduled-After fuel now j created (w, none) h = h
  visit_scheduled-After fuel now j created (w, some sched) h =
      fire-After fuel sched j now created w h

  -- Caching a parsed schedule keeps the property.
  module _
      (cache : (j : Job) (sched : Schedule) (s : S) (m : Dict Schedule)
        → env.parse j.spec ≡ some sched
        → I s m
        → I s (insert j.id sched m)) where
    schedule-keeps : (j : Job) (w : World S) → Holds I w → Holds I (schedule api env j w).0
    unfolding schedule
    schedule-keeps j w h = elim (Option-cases (lookup j.id w.parsed)) [
      | inr (s, e) ↦ rw (e, schedule) h
      | inl e ↦ elim (Option-cases (env.parse j.spec)) [
        | inl e' ↦ rw (e, e', schedule) h
        | inr (s, e') ↦ rw (e, e', schedule) (cache j s w.store w.parsed e' h)
      ]
    ]

    visit-After :
        (fuel : ℕ) (now : Time) (j : Job) (created : ℕ) (w : World S)
        → Holds I w
        → After I (visit api env fuel now j created w)
    unfolding visit
    visit-After fuel now j created w h = elim (Bool-cases (not j.enabled || str_eq j.spec [])) [
      | inl e ↦ rw (e, visit) h
      | inr e ↦
          rw (e, visit)
            (visit_scheduled-After fuel now j created (schedule api env j w) (schedule-keeps j w h))
    ]

    visit_all-After :
        (fuel : ℕ) (now : Time) (js : List Job) (created : ℕ) (w : World S)
        → Holds I w
        → After I (visit_all api env fuel now js created w)
    unfolding visit_all
    visit_all-After fuel now [] created w h = h
    visit_all-After fuel now (j ∷ js) created w h =
        let visited = visit-After fuel now j created w h in
        elim (Option-results (visit api env fuel now j created w)) [
          | inl out ↦ rw (out, visit_all) tt
          | inr (inl (u, x, broke)) ↦ rw (broke, visit_all) (rw broke at visited)
          | inr (inr (u, count, done)) ↦
              rw (done, visit_all) (visit_all-After fuel now js count u (rw done at visited))
        ]

    pub dispatch-After :
        (fuel : ℕ) (now : Time) (w : World S) → Holds I w → After I (dispatch api env fuel now w)
    unfolding dispatch
    dispatch-After fuel now w h =
        let listed = k.list_jobs w.store h in
        elim (Result-cases (api.list_jobs w.store).1) [
          | inr (x, e) ↦ rw (e, dispatch) listed
          | inl (js, e) ↦
              rw (e, dispatch) (visit_all-After fuel now js 0 (call api.list_jobs w).0 listed)
        ]

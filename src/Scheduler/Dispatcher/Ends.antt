-- ===== src/Scheduler/Dispatcher/Ends.antt =====
-- A tick of internal/scheduler ends, over any backend, where every schedule answers with a later
-- time.
use cronflux.Common.{
  ℕ, zero, suc, ◌+◌, ◌<◌, ◌≡◌, refl, sym, ap, ◌∙◌, subst, List, [], ◌∷◌, not, ◌||◌, Option, none,
  some, Str, str_eq, Time, ok, leb, arith, Bool-cases, Option-cases, Result-cases, All, inl, inr,
}
use cronflux.Common.Dict.{Dict, lookup, insert, lookup-insert}
use cronflux.Job.{Job}
use cronflux.Store.{Store}
use cronflux.Scheduler.{Env, World, Schedule, call}
use cronflux.Scheduler.Dispatcher.Results.{Option-results}
use cronflux.Scheduler.Dispatcher.{
  by_job, has_slot, schedule, enqueue_root, catch_up, fire, visit_scheduled, visit, visit_all,
  dispatch,
}

abbrev pub IsLater : Schedule → Type 0
IsLater sched = (t : Time) → t < sched t

-- The schedules of the dispatcher's cache answer with later times.
abbrev pub AllLater : Dict Schedule → Type 0
AllLater m = (id : Str) (sched : Schedule) → lookup id m ≡ some sched → IsLater sched

module _ {S : Type 0} (api : Store S) (env : Env) where
  -- The call ends, with the cache `m`.
  abbrev Ends : {A : Type 0} → Dict Schedule → Option (World S × A) → Type 0
  Ends m none = ⊥
  Ends m (some (w, a)) = w.parsed ≡ m

  enqueue_root-parsed :
      (j : Job) (at : Time) (w : World S) → (enqueue_root api env j at w).0.parsed ≡ w.parsed
  unfolding enqueue_root
  enqueue_root-parsed j at w = elim (Result-cases (api.list_runs (by_job j.id []) w.store).1) [
    | inr (x, e) ↦ rw (e, enqueue_root) refl
    | inl (rs, e) ↦ elim (Bool-cases (has_slot at rs)) [
      | inl there ↦ rw (e, there, enqueue_root) refl
      | inr gone ↦ rw (e, gone, enqueue_root) refl
    ]
  ]

  catch_up-Ends :
      (fuel : ℕ) (sched : Schedule) (j : Job) (now next : Time) (created : ℕ) (w : World S)
      → IsLater sched
      → now < next + fuel
      → Ends w.parsed (catch_up api env (suc fuel) sched j now next created w)
  unfolding catch_up
  catch_up-Ends zero sched j now next created w later enough = elim (Bool-cases (leb next now)) [
    | inr future ↦ rw (future, catch_up) refl
    | inl past ↦ absurd (ground (arith, past, enough))
  ]
  catch_up-Ends (suc fuel) sched j now next created w later enough =
      let same = enqueue_root-parsed j next w in
      elim (Bool-cases (leb next now)) [
        | inr future ↦ rw (future, catch_up) refl
        | inl past ↦ elim (Result-cases (enqueue_root api env j next w).1) [
          | inr (x, e) ↦ rw (past, e, catch_up) same
          | inl (u, e) ↦
              let rest =
                catch_up-Ends fuel sched j now (sched next) (created + 1)
                  (enqueue_root api env j next w).0 later (omega (arith, later next, enough)) in
              rw (past, e, catch_up)
                (subst
                  (λ (m : Dict Schedule). Ends m (
                    catch_up api env (suc fuel) sched j now (sched next) (created + 1)
                      (enqueue_root api env j next w).0))
                  same rest)
        ]
      ]

  fire-Ends :
      (fuel : ℕ) (sched : Schedule) (j : Job) (now : Time) (created : ℕ) (w : World S)
      → IsLater sched
      → now < fuel
      → Ends w.parsed (fire api env (suc fuel) sched j now created w)
  unfolding fire
  fire-Ends fuel sched j now created w later enough =
      elim (Option-cases (lookup j.id w.next_fire)) [
        | inl e ↦ rw (e, fire) refl
        | inr (next, e) ↦
            let caught =
              catch_up-Ends fuel sched j now next created w later (omega (arith, enough)) in
            elim (Option-results (catch_up api env (suc fuel) sched j now next created w)) [
              | inl out ↦ absurd (rw out at caught)
              | inr (inl (u, x, broke)) ↦ rw (e, broke, fire) (rw broke at caught)
              | inr (inr (u, a, done)) ↦ rw (e, done, fire) (rw done at caught)
            ]
      ]

  -- What the parser makes of the job's expression answers with later times.
  abbrev pub IsLaterJob : Job → Type 0
  IsLaterJob j = (sched : Schedule) → env.parse j.spec ≡ some sched → IsLater sched

  -- The call ends, and the schedules of the cache answer with later times still.
  abbrev pub EndsLater : {A : Type 0} → Option (World S × A) → Type 0
  EndsLater none = ⊥
  EndsLater (some (w, a)) = AllLater w.parsed

  Ends-EndsLater :
      {A : Type 0} (m : Dict Schedule) (o : Option (World S × A))
      → AllLater m
      → Ends m o
      → EndsLater o
  Ends-EndsLater m none h e = e
  Ends-EndsLater m (some (w, a)) h e = subst AllLater (sym e) h

  insert-AllLater :
      (k : Str) (sched : Schedule) (m : Dict Schedule)
      → IsLater sched
      → AllLater m
      → AllLater (insert k sched m)
  insert-AllLater k sched m later h id other e = elim (Bool-cases (str_eq k id)) [
    | inl same ↦
        let given : Path (Option Schedule) (some sched) (some other) =
          sym (lookup-insert k id sched m ∙ rw same refl) ∙ e in
        let equal : Path Schedule sched other =
          ap (λ (o : Option Schedule). elim o [ none ↦ sched | some x ↦ x ]) given in
        subst IsLater equal later
    | inr apart ↦ h id other (sym (lookup-insert k id sched m ∙ rw apart refl) ∙ e)
  ]

  -- What `schedule` answers.
  abbrev IsUsable : World S × Option Schedule → Type 0
  IsUsable (w, none) = AllLater w.parsed
  IsUsable (w, some sched) = AllLater w.parsed × IsLater sched

  schedule-IsUsable :
      (j : Job) (w : World S) → IsLaterJob j → AllLater w.parsed → IsUsable (schedule api env j w)
  unfolding schedule
  schedule-IsUsable j w parses h = elim (Option-cases (lookup j.id w.parsed)) [
    | inr (sched, e) ↦
        let found : schedule api env j w ≡ (w, some sched) = rw (e, schedule) refl in
        subst IsUsable (sym found) (h, h j.id sched e)
    | inl e ↦ elim (Option-cases (env.parse j.spec)) [
      | inl e' ↦
          let failed_parse : schedule api env j w ≡ (w, none) = rw (e, e', schedule) refl in
          subst IsUsable (sym failed_parse) h
      | inr (sched, e') ↦
          let later = parses sched e' in
          let cached : schedule api env j w
              ≡ (record w { parsed = insert j.id sched w.parsed }, some sched) =
            rw (e, e', schedule) refl in
          subst IsUsable (sym cached) (insert-AllLater j.id sched w.parsed later h, later)
    ]
  ]

  visit_scheduled-EndsLater :
      (fuel : ℕ) (now : Time) (j : Job) (created : ℕ) (p : World S × Option Schedule)
      → IsUsable p
      → now < fuel
      → EndsLater (visit_scheduled api env (suc fuel) now j created p)
  unfolding visit_scheduled
  visit_scheduled-EndsLater fuel now j created (w, none) h enough = h
  visit_scheduled-EndsLater fuel now j created (w, some sched) h enough =
      Ends-EndsLater w.parsed (fire api env (suc fuel) sched j now created w) h.0
        (fire-Ends fuel sched j now created w h.1 enough)

  visit-EndsLater :
      (fuel : ℕ) (now : Time) (j : Job) (created : ℕ) (w : World S)
      → IsLaterJob j
      → AllLater w.parsed
      → now < fuel
      → EndsLater (visit api env (suc fuel) now j created w)
  unfolding visit
  visit-EndsLater fuel now j created w parses h enough =
      elim (Bool-cases (not j.enabled || str_eq j.spec [])) [
        | inl e ↦ rw (e, visit) h
        | inr e ↦
            rw (e, visit)
              (visit_scheduled-EndsLater fuel now j created (schedule api env j w)
                (schedule-IsUsable j w parses h) enough)
      ]

  visit_all-EndsLater :
      (fuel : ℕ) (now : Time) (js : List Job) (created : ℕ) (w : World S)
      → All IsLaterJob js
      → AllLater w.parsed
      → now < fuel
      → EndsLater (visit_all api env (suc fuel) now js created w)
  unfolding visit_all
  visit_all-EndsLater fuel now [] created w all h enough = h
  visit_all-EndsLater fuel now (j ∷ js) created w all h enough =
      let visited = visit-EndsLater fuel now j created w all.0 h enough in
      elim (Option-results (visit api env (suc fuel) now j created w)) [
        | inl out ↦ absurd (rw out at visited)
        | inr (inl (u, x, broke)) ↦ rw (broke, visit_all) (rw broke at visited)
        | inr (inr (u, count, done)) ↦
            rw (done, visit_all)
              (visit_all-EndsLater fuel now js count u all.1 (rw done at visited) enough)
      ]

  pub dispatch-EndsLater :
      (fuel : ℕ) (now : Time) (w : World S)
      → ((js : List Job) → (api.list_jobs w.store).1 ≡ ok js → All IsLaterJob js)
      → AllLater w.parsed
      → now < fuel
      → EndsLater (dispatch api env (suc fuel) now w)
  unfolding dispatch
  dispatch-EndsLater fuel now w listed h enough = elim (Result-cases (api.list_jobs w.store).1) [
    | inr (x, e) ↦ rw (e, dispatch) h
    | inl (js, e) ↦
        rw (e, dispatch)
          (visit_all-EndsLater fuel now js 0 (call api.list_jobs w).0 (listed js e) h enough)
  ]

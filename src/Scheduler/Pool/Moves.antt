-- ===== src/Scheduler/Pool/Moves.antt =====
-- A call of a goroutine of `drain` on the in-memory backend, case by case: it keeps what the others
-- rely on, and gives the goroutine what it relies on at its next call.
use cronflux.Common.{
  ◌≡◌, ◌≢◌, refl, List, Option, none, some, Str, Time, arith, Bool-cases, Option-cases, inl, inr,
}
use cronflux.Common.Dict.{lookup, insert}
use cronflux.Job.{Job, Run, new_run, clone}
use cronflux.Backoff.{Floats}
use cronflux.Store.Memory.{MemStore, memory, get_job, list_jobs, list_runs, create_run, update_run}
use cronflux.Store.Memory.Invariant.{IsWellFormed}
use cronflux.Store.Memory.Listing.{listed}
use cronflux.Scheduler.Dispatcher.{by_job, has_succeeded, is_empty}
use cronflux.Scheduler.Pool.{
  Pc, fetching, executing, recording, retrying, locking, listing, checking, probing, creating,
  unlocking, leaving, finished, Input, processed, record_result, retry_run, check_deps, visit_next,
  advance,
}
use cronflux.Scheduler.Pool.Slots.{
  Known, Clear, overwrite-Preserves, overwrite-PreservesClear, add-Preserves, add-PreservesClear,
}
use cronflux.Scheduler.Pool.Fits.{
  Fits, Moved, still, stores, processed-Fits, record_result-Fits, check_deps-Fits, visit_next-Fits,
  is_empty→Clear,
}

module _ (floats : Floats) (a : Input) (s : MemStore) (w : IsWellFormed s) where
  abbrev go : Pc → MemStore × Pc
  go pc = advance memory floats a pc s

  -- What the first call of `process` finds.
  fetching-Moved : (r : Run) → Known s.runs r → Moved s (fetching r) (go (fetching r))
  unfolding advance get_job
  fetching-Moved r k = elim (Option-cases (lookup r.job_id s.jobs)) [
    | inl e ↦ still s w (fetching r) leaving (go (fetching r)) (rw (e, advance, get_job) refl) tt
    | inr (j, e) ↦
        still s w (fetching r) (executing (clone j) r) (go (fetching r))
          (rw (e, advance, get_job) refl) k
  ]

  executing-Moved :
      (j : Job) (r : Run) → Known s.runs r → Moved s (executing j r) (go (executing j r))
  unfolding advance
  executing-Moved j r k = elim (Bool-cases a.outcome.parent_done) [
    | inl e ↦
        still s w (executing j r) (processed r) (go (executing j r)) (rw (e, advance) refl)
          (processed-Fits s.runs r)
    | inr e ↦
        still s w (executing j r) (record_result j r a.outcome.error a.time) (go (executing j r))
          (rw (e, advance) refl) (record_result-Fits s.runs j r a.outcome.error a.time k)
  ]

  -- The outcome is written over the run of the same slot.
  recording-Moved :
      (retry : Option Job) (r : Run)
      → Known s.runs r
      → Moved s (recording retry r) (go (recording retry r))
  unfolding advance update_run create_run
  recording-Moved none r k =
      stores s w (recording none r) r (processed r) (go (recording none r))
        (rw (k.1, advance, update_run, create_run) refl) (overwrite-Preserves r s.runs k)
        (λ z. overwrite-PreservesClear r s.runs k) (processed-Fits (insert r.id r s.runs) r)
  recording-Moved (some j) r k =
      stores s w (recording (some j) r) r (retrying j r) (go (recording (some j) r))
        (rw (k.1, advance, update_run, create_run) refl) (overwrite-Preserves r s.runs k)
        (λ z. overwrite-PreservesClear r s.runs k) tt

  -- A retry is no first attempt.
  retrying-Moved :
      (j : Job) (r : Run) → lookup a.id s.runs ≡ none → Moved s (retrying j r) (go (retrying j r))
  unfolding advance create_run retry_run
  retrying-Moved j r fresh =
      let q = retry_run floats a j r in
      let later : q.attempt ≢ 0 = λ e. absurd (omega (arith, e)) in
      stores s w (retrying j r) q (processed r) (go (retrying j r)) refl
        (add-Preserves q s.runs fresh (λ e. absurd (later e)))
        (λ z. add-PreservesClear q s.runs fresh later) (processed-Fits (insert q.id q s.runs) r)

  listing-Moved : (r : Run) (now : Time) → Moved s (listing r now) (go (listing r now))
  unfolding advance list_jobs
  listing-Moved r now =
      still s w (listing r now) (visit_next r now (listed (list_jobs s))) (go (listing r now)) refl
        (visit_next-Fits s.runs r now (listed (list_jobs s)))

  checking-Moved :
      (r : Run) (now : Time) (j : Job) (dep : Str) (deps : List Str) (js : List Job)
      → Moved s (checking r now j dep deps js) (go (checking r now j dep deps js))
  unfolding advance list_runs
  checking-Moved r now j dep deps js =
      let pc = checking r now j dep deps js in
      elim (Bool-cases (has_succeeded (listed (list_runs (by_job dep r.batch_id) s)))) [
        | inl e ↦
            still s w pc (check_deps r now j deps js) (go pc) (rw (e, advance) refl)
              (check_deps-Fits s.runs r now j deps js)
        | inr e ↦
            still s w pc (visit_next r now js) (go pc) (rw (e, advance) refl)
              (visit_next-Fits s.runs r now js)
      ]

  -- Only an empty listing leads to the creation of a dependent's run.
  probing-Moved :
      (r : Run) (now : Time) (j : Job) (js : List Job)
      → Moved s (probing r now j js) (go (probing r now j js))
  unfolding advance list_runs
  probing-Moved r now j js =
      let pc = probing r now j js in
      elim (Bool-cases (is_empty (listed (list_runs (by_job j.id r.batch_id) s)))) [
        | inl e ↦
            still s w pc (creating r now j js) (go pc) (rw (e, advance) refl)
              (is_empty→Clear s j.id r.batch_id w e)
        | inr e ↦
            still s w pc (visit_next r now js) (go pc) (rw (e, advance) refl)
              (visit_next-Fits s.runs r now js)
      ]

  creating-Moved :
      (r : Run) (now : Time) (j : Job) (js : List Job)
      → lookup a.id s.runs ≡ none
      → Clear s.runs j.id r.batch_id
      → Moved s (creating r now j js) (go (creating r now j js))
  unfolding advance create_run
  creating-Moved r now j js fresh c =
      let q = new_run a.id j.id r.batch_id 0 now now in
      stores s w (creating r now j js) q (visit_next r now js) (go (creating r now j js)) refl
        (add-Preserves q s.runs fresh (λ e. c)) (λ z. absurd (omega (arith, z)))
        (visit_next-Fits (insert q.id q s.runs) r now js)

  pub advance-Moved : (pc : Pc) → lookup a.id s.runs ≡ none → Fits s.runs pc → Moved s pc (go pc)
  unfolding advance
  advance-Moved (fetching r) fresh f = fetching-Moved r f
  advance-Moved (executing j r) fresh f = executing-Moved j r f
  advance-Moved (recording retry r) fresh f = recording-Moved retry r f
  advance-Moved (retrying j r) fresh f = retrying-Moved j r fresh
  advance-Moved (locking r) fresh f = still s w (locking r) (listing r a.time) _ refl tt
  advance-Moved (listing r now) fresh f = listing-Moved r now
  advance-Moved (checking r now j dep deps js) fresh f = checking-Moved r now j dep deps js
  advance-Moved (probing r now j js) fresh f = probing-Moved r now j js
  advance-Moved (creating r now j js) fresh f = creating-Moved r now j js fresh f
  advance-Moved unlocking fresh f = still s w unlocking leaving _ refl tt
  advance-Moved leaving fresh f = still s w leaving finished _ refl tt
  advance-Moved finished fresh f = still s w finished finished _ refl tt

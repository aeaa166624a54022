-- ===== src/Scheduler/Pool/Ends.antt =====
-- The goroutines of `drain` in internal/scheduler/scheduler.go end on the in-memory backend: only
-- boundedly many turns are possible.
pub mod Turns
use cronflux.Common.{
  ℕ, zero, suc, ◌+◌, ◌*◌, ◌≤◌, ◌<◌, ◌≡◌, refl, sym, ap, ◌∙◌, subst, List, [], ◌∷◌, ◌++◌, Bool, true,
  false, not, ◌&&◌, Option, none, some, Str, Time, pos, ltb_ℤ, arith, Bool-cases, Option-cases, inl,
  inr, ◌⊎◌, if◌then◌else◌, ltb, length,
}
use cronflux.Common.Dict.{lookup}
use cronflux.Job.{Job, Run, clone, new_run, state_eq, succeeded}
use cronflux.Backoff.{Floats}
use cronflux.Store.Memory.{MemStore, memory, get_job, list_jobs, list_runs, create_run, update_run}
use cronflux.Store.Memory.Listing.{listed}
use cronflux.Scheduler.Dispatcher.{by_job, contains, has_succeeded, is_empty}
use cronflux.Scheduler.Pool.{
  Pc, fetching, executing, recording, retrying, locking, listing, checking, probing, creating,
  unlocking, leaving, finished, Input, processed, record_result, retry_run, check_deps, visit_next,
  advance, is_active, Pool, total, thread_at, set_thread, is_blocked, Choice, launch, go_on,
  launch_from, turn, run_schedule, open_pool,
}
use cronflux.Scheduler.Pool.Threads.{total-append, total-set_thread}
use cronflux.Scheduler.Pool.Progress.{acts, calls, is_waiting}

-- The calls that the loop of `enqueueDependents` makes at most.
abbrev pub cost : List Job → ℕ
cost [] = 0
cost (j ∷ js) = 2 + length j.depends_on + cost js

-- The calls that a goroutine still makes at most, when the loop over all jobs makes at most `all`.
abbrev pub left : ℕ → Pc → ℕ
left all (fetching r) = 8 + all
left all (executing j r) = 7 + all
left all (recording retry r) = 6 + all
left all (retrying j r) = 5 + all
left all (locking r) = 4 + all
left all (listing r now) = 3 + all
left all (checking r now j dep deps js) = 5 + length deps + cost js
left all (probing r now j js) = 4 + cost js
left all (creating r now j js) = 3 + cost js
left all unlocking = 2
left all leaving = 1
left all finished = 0

abbrev pub cost_in : MemStore → ℕ
cost_in s = cost (listed (list_jobs s))

module _ (all : ℕ) where
  processed-left : (r : Run) → left all (processed r) ≤ 4 + all
  processed-left r = ground arith

  record_result-left :
      (j : Job) (r : Run) (e : Option Str) (t : Time) → left all (record_result j r e t) ≤ 6 + all
  unfolding record_result
  record_result-left j r none t = omega arith
  record_result-left j r (some e) t = ground arith

  check_deps-left :
      (r : Run) (now : Time) (j : Job) (deps : List Str) (js : List Job)
      → left all (check_deps r now j deps js) ≤ 4 + length deps + cost js
  check_deps-left r now j [] js = omega arith
  check_deps-left r now j (dep ∷ deps) js = omega arith

  visit_next-left :
      (r : Run) (now : Time) (js : List Job) → left all (visit_next r now js) ≤ 2 + cost js
  unfolding visit_next
  visit_next-left r now [] = omega arith
  visit_next-left r now (j ∷ js) = elim (Bool-cases (contains j.depends_on r.job_id)) [
    | inl e ↦ rw e (omega (arith, check_deps-left r now j j.depends_on js))
    | inr e ↦ rw e (omega (arith, visit_next-left r now js))
  ]

-- A call leaves fewer calls, if it was possible, and the jobs.
pub record Shrinks (s : MemStore) (pc : Pc) (next : MemStore × Pc) : Type 0 where
  pub jobs : next.0.jobs ≡ s.jobs
  pub fewer :
      left (cost_in s) next.1 + (if ltb 0 (is_active pc) then 1 else 0) ≤ left (cost_in s) pc

module _ (s : MemStore) (pc : Pc) where
  abbrev all : ℕ
  all = cost_in s

  to :
      (s' : MemStore) (pc' : Pc) (next : MemStore × Pc)
      → next ≡ (s', pc')
      → s'.jobs ≡ s.jobs
      → left all pc' + 1 ≤ left all pc
      → Shrinks s pc next
  to s' pc' next e same h =
      subst (Shrinks s pc) (sym e) (record { jobs = same; fewer = ground (arith, h) })

module _ (floats : Floats) (a : Input) (s : MemStore) where
  abbrev go : Pc → MemStore × Pc
  go pc = advance memory floats a pc s

  first_calls-Shrink : (r : Run) → Shrinks s (fetching r) (go (fetching r))
  unfolding advance get_job
  first_calls-Shrink r = elim (Option-cases (lookup r.job_id s.jobs)) [
    | inl e ↦ to s (fetching r) s leaving _ (rw (e, advance, get_job) refl) refl (omega arith)
    | inr (j, e) ↦
        to s (fetching r) s (executing (clone j) r) _ (rw (e, advance, get_job) refl) refl
          (omega arith)
  ]

  executing-Shrinks : (j : Job) (r : Run) → Shrinks s (executing j r) (go (executing j r))
  unfolding advance
  executing-Shrinks j r = elim (Bool-cases a.outcome.parent_done) [
    | inl e ↦
        to s (executing j r) s (processed r) _ (rw (e, advance) refl) refl
          (omega (arith, processed-left (all s (executing j r)) r))
    | inr e ↦
        to s (executing j r) s (record_result j r a.outcome.error a.time) _ (rw (e, advance) refl)
          refl (omega (arith, record_result-left (cost_in s) j r a.outcome.error a.time))
  ]

  recording-Shrinks :
      (retry : Option Job) (r : Run) → Shrinks s (recording retry r) (go (recording retry r))
  unfolding advance update_run create_run
  recording-Shrinks retry r = elim (Option-cases (lookup r.id s.runs)) [
    | inl e ↦
        to s (recording retry r) s leaving _ (rw (e, advance, update_run) refl) refl (omega arith)
    | inr (old, e) ↦ elim (Option-cases retry) [
      | inl z ↦
          to s (recording retry r) (create_run r s).0 (processed r) _
            (rw (e, z, advance, update_run) refl) refl (omega (arith, processed-left (cost_in s) r))
      | inr (j, z) ↦
          to s (recording retry r) (create_run r s).0 (retrying j r) _
            (rw (e, z, advance, update_run) refl) refl (omega arith)
    ]
  ]

  retrying-Shrinks : (j : Job) (r : Run) → Shrinks s (retrying j r) (go (retrying j r))
  unfolding advance create_run
  retrying-Shrinks j r =
      to s (retrying j r) (create_run (retry_run floats a j r) s).0 (processed r) _ refl refl
        (omega (arith, processed-left (cost_in s) r))

  checking-Shrinks :
      (r : Run) (now : Time) (j : Job) (dep : Str) (deps : List Str) (js : List Job)
      → Shrinks s (checking r now j dep deps js) (go (checking r now j dep deps js))
  unfolding advance list_runs
  checking-Shrinks r now j dep deps js =
      let pc = checking r now j dep deps js in
      elim (Bool-cases (has_succeeded (listed (list_runs (by_job dep r.batch_id) s)))) [
        | inl e ↦
            to s pc s (check_deps r now j deps js) _ (rw (e, advance) refl) refl
              (omega (arith, check_deps-left (cost_in s) r now j deps js))
        | inr e ↦
            to s pc s (visit_next r now js) _ (rw (e, advance) refl) refl
              (omega (arith, visit_next-left (cost_in s) r now js))
      ]

  probing-Shrinks :
      (r : Run) (now : Time) (j : Job) (js : List Job)
      → Shrinks s (probing r now j js) (go (probing r now j js))
  unfolding advance list_runs
  probing-Shrinks r now j js =
      let pc = probing r now j js in
      elim (Bool-cases (is_empty (listed (list_runs (by_job j.id r.batch_id) s)))) [
        | inl e ↦ to s pc s (creating r now j js) _ (rw (e, advance) refl) refl (omega arith)
        | inr e ↦
            to s pc s (visit_next r now js) _ (rw (e, advance) refl) refl
              (omega (arith, visit_next-left (cost_in s) r now js))
      ]

  pub advance-Shrinks : (pc : Pc) → Shrinks s pc (go pc)
  unfolding advance list_jobs create_run
  advance-Shrinks (fetching r) = first_calls-Shrink r
  advance-Shrinks (executing j r) = executing-Shrinks j r
  advance-Shrinks (recording retry r) = recording-Shrinks retry r
  advance-Shrinks (retrying j r) = retrying-Shrinks j r
  advance-Shrinks (locking r) = to s (locking r) s (listing r a.time) _ refl refl (omega arith)
  advance-Shrinks (listing r now) =
      to s (listing r now) s (visit_next r now (listed (list_jobs s))) _ refl refl
        (omega (arith, visit_next-left (cost_in s) r now (listed (list_jobs s))))
  advance-Shrinks (checking r now j dep deps js) = checking-Shrinks r now j dep deps js
  advance-Shrinks (probing r now j js) = probing-Shrinks r now j js
  advance-Shrinks (creating r now j js) =
      to s (creating r now j js) (create_run (new_run a.id j.id r.batch_id 0 now now) s).0
        (visit_next r now js) _ refl refl (omega (arith, visit_next-left (cost_in s) r now js))
  advance-Shrinks unlocking = to s unlocking s leaving _ refl refl (omega arith)
  advance-Shrinks leaving = to s leaving s finished _ refl refl (omega arith)
  advance-Shrinks finished = record { jobs = refl; fewer = omega arith }

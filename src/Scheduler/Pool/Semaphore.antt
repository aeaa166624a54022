-- ===== src/Scheduler/Pool/Semaphore.antt =====
-- The semaphore of `drain` in internal/scheduler/scheduler.go: how many goroutines run at a time.
use cronflux.Common.{
  ℕ, ◌+◌, ◌≤◌, ◌≡◌, refl, List, [], ◌∷◌, Option, none, some, Str, Time, arith, ltb, Bool-cases,
  Option-cases, Result-cases, inl, inr,
}
use cronflux.Job.{Job, Run, new_run}
use cronflux.Backoff.{Floats}
use cronflux.Store.{Store}
use cronflux.Scheduler.Dispatcher.{by_job, contains, has_succeeded, is_empty}
use cronflux.Scheduler.Pool.{
  Pc, fetching, executing, recording, retrying, locking, listing, checking, probing, creating,
  unlocking, leaving, finished, Input, processed, record_result, retry_run, check_deps, visit_next,
  advance, is_active, Pool, total, thread_at, set_thread, is_blocked, slots_after, Choice, launch,
  go_on, launch_from, turn, run_schedule, open_pool,
}
use cronflux.Scheduler.Pool.Threads.{total-append, total-set_thread, total-at}

is_active-processed : (r : Run) → is_active (processed r) ≡ 1
is_active-processed r = ground arith

is_active-record_result :
    (j : Job) (r : Run) (e : Option Str) (t : Time) → is_active (record_result j r e t) ≡ 1
unfolding record_result
is_active-record_result j r none t = refl
is_active-record_result j r (some e) t = ground arith

is_active-check_deps :
    (r : Run) (now : Time) (j : Job) (deps : List Str) (js : List Job)
    → is_active (check_deps r now j deps js) ≡ 1
is_active-check_deps r now j [] js = refl
is_active-check_deps r now j (dep ∷ deps) js = refl

is_active-visit_next : (r : Run) (now : Time) (js : List Job) → is_active (visit_next r now js) ≡ 1
unfolding visit_next
is_active-visit_next r now [] = refl
is_active-visit_next r now (j ∷ js) = elim (Bool-cases (contains j.depends_on r.job_id)) [
  | inl e ↦ rw e (is_active-check_deps r now j j.depends_on js)
  | inr e ↦ rw e (is_active-visit_next r now js)
]

module _ {S : Type 0} (api : Store S) (floats : Floats) where
  -- What a call does to the count of the active goroutines it does to the semaphore.
  slots-advance :
      (slots : ℕ) (a : Input) (pc : Pc) (s : S)
      → is_active pc ≤ slots
      → is_active (advance api floats a pc s).1 + slots ≡ is_active pc + slots_after slots pc
  unfolding advance
  slots-advance slots a (fetching r) s k = elim (Result-cases (api.get_job r.job_id s).1) [
    | inl (j, e) ↦ rw (e, advance) refl
    | inr (x, e) ↦ rw (e, advance) refl
  ]
  slots-advance slots a (executing j r) s k = elim (Bool-cases a.outcome.parent_done) [
    | inl e ↦ rw (e, advance, is_active-processed r) refl
    | inr e ↦ rw (e, advance, is_active-record_result j r a.outcome.error a.time) refl
  ]
  slots-advance slots a (recording none r) s k = elim (Result-cases (api.update_run r s).1) [
    | inl (u, e) ↦ rw (e, advance, is_active-processed r) refl
    | inr (x, e) ↦ rw (e, advance) refl
  ]
  slots-advance slots a (recording (some j) r) s k = elim (Result-cases (api.update_run r s).1) [
    | inl (u, e) ↦ rw (e, advance) refl
    | inr (x, e) ↦ rw (e, advance) refl
  ]
  slots-advance slots a (retrying j r) s k =
      elim (Result-cases (api.create_run (retry_run floats a j r) s).1) [
        | inl (u, e) ↦ rw (e, advance, is_active-processed r) refl
        | inr (x, e) ↦ rw (e, advance) refl
      ]
  slots-advance slots a (locking r) s k = refl
  slots-advance slots a (listing r now) s k = elim (Result-cases (api.list_jobs s).1) [
    | inl (js, e) ↦ rw (e, advance, is_active-visit_next r now js) refl
    | inr (x, e) ↦ rw (e, advance) refl
  ]
  slots-advance slots a (checking r now j dep deps js) s k =
      elim (Result-cases (api.list_runs (by_job dep r.batch_id) s).1) [
        | inr (x, e) ↦ rw (e, advance) refl
        | inl (rs, e) ↦ elim (Bool-cases (has_succeeded rs)) [
          | inl y ↦ rw (e, y, advance, is_active-check_deps r now j deps js) refl
          | inr n ↦ rw (e, n, advance, is_active-visit_next r now js) refl
        ]
      ]
  slots-advance slots a (probing r now j js) s k =
      elim (Result-cases (api.list_runs (by_job j.id r.batch_id) s).1) [
        | inr (x, e) ↦ rw (e, advance) refl
        | inl (rs, e) ↦ elim (Bool-cases (is_empty rs)) [
          | inl y ↦ rw (e, y, advance) refl
          | inr n ↦ rw (e, n, advance, is_active-visit_next r now js) refl
        ]
      ]
  slots-advance slots a (creating r now j js) s k =
      elim (Result-cases (api.create_run (new_run a.id j.id r.batch_id 0 now now) s).1) [
        | inl (u, e) ↦ rw (e, advance, is_active-visit_next r now js) refl
        | inr (x, e) ↦ rw (e, advance) refl
      ]
  slots-advance slots a unlocking s k = refl
  slots-advance slots a leaving s k = omega (arith, k)
  slots-advance slots a finished s k = refl

slots_after-le : (slots : ℕ) (pc : Pc) → slots_after slots pc ≤ slots
slots_after-le slots pc = ground arith

module _ {S : Type 0} (api : Store S) (floats : Floats) (workers : ℕ) where
  -- The semaphore's channel holds one value for each active goroutine, and no more than fit.
  abbrev pub IsInStep : Pool S → Type 0
  IsInStep p = (p.slots ≡ total is_active p.threads) × (p.slots ≤ workers)

  launch-IsInStep :
      (rs : List Run) (p : Pool S)
      → p.slots + 1 ≤ workers
      → IsInStep p
      → IsInStep (launch_from api floats workers rs p)
  launch-IsInStep [] p k h = h
  launch-IsInStep (r ∷ rs) p k h =
      (omega (arith, h.0, total-append is_active (fetching r) p.threads), k)

  moved-IsInStep :
      (n : ℕ) (a : Input) (pc : Pc) (p : Pool S)
      → thread_at n p.threads ≡ some pc
      → IsInStep p
      → (slots_after p.slots pc
          ≡ total is_active (set_thread n (advance api floats a pc p.store).1 p.threads))
        × (slots_after p.slots pc ≤ workers)
  moved-IsInStep n a pc p e h =
      let low : is_active pc ≤ p.slots = omega (arith, h.0, total-at is_active pc n p.threads e) in
      (
        omega (
          arith,
          h.0,
          total-set_thread is_active (advance api floats a pc p.store).1 pc n p.threads e,
          slots-advance api floats p.slots a pc p.store low,
        ),
        omega (arith, h.1, slots_after-le p.slots pc),
      )

  turn-IsInStep : (c : Choice) (p : Pool S) → IsInStep p → IsInStep (turn api floats workers c p)
  unfolding turn
  turn-IsInStep launch p h = elim (Bool-cases (ltb p.slots workers)) [
    | inr full ↦ rw (full, turn) h
    | inl free ↦ rw (free, turn) (launch-IsInStep p.waiting p (ground arith) h)
  ]
  turn-IsInStep (go_on n a) p h = elim (Option-cases (thread_at n p.threads)) [
    | inl e ↦ rw (e, turn) h
    | inr (pc, e) ↦ elim (Bool-cases (is_blocked p.locked pc)) [
      | inl b ↦ rw (e, b, turn) h
      | inr b ↦ rw (e, b, turn) (moved-IsInStep n a pc p e h)
    ]
  ]

  pub run_schedule-IsInStep :
      (cs : List Choice) (p : Pool S) → IsInStep p → IsInStep (run_schedule api floats workers cs p)
  unfolding run_schedule
  run_schedule-IsInStep [] p h = h
  run_schedule-IsInStep (c ∷ cs) p h =
      run_schedule-IsInStep cs (turn api floats workers c p) (turn-IsInStep c p h)

  -- On every store and in every schedule of the goroutines that `drain` launches, the channel of the
  -- semaphore holds one value for each goroutine that has been launched and has not released it yet,
  -- and these goroutines are at most `workers`.
  pub run_schedule-bounds_active :
      (cs : List Choice) (s : S) (claimed : List Run)
      → let p = run_schedule api floats workers cs (open_pool s claimed) in
        (p.slots ≡ total is_active p.threads) × (total is_active p.threads ≤ workers)
  run_schedule-bounds_active cs s claimed =
      let h = run_schedule-IsInStep cs (open_pool s claimed) (refl, omega arith) in
      (h.0, omega (arith, h.0, h.1))

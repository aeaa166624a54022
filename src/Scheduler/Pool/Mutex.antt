-- ===== src/Scheduler/Pool/Mutex.antt =====
-- The mutex of `drain` in internal/scheduler/scheduler.go: how many goroutines stand between Lock and
-- Unlock.
use cronflux.Common.{
  ℕ, ◌+◌, ◌≤◌, ◌≡◌, refl, List, [], ◌∷◌, Bool, true, false, Option, none, some, Str, Time,
  if◌then◌else◌, arith, ltb, Bool-cases, Option-cases, Result-cases, inl, inr,
}
use cronflux.Job.{Job, Run, new_run}
use cronflux.Backoff.{Floats}
use cronflux.Store.{Store}
use cronflux.Scheduler.Dispatcher.{by_job, contains, has_succeeded, is_empty}
use cronflux.Scheduler.Pool.{
  Pc, fetching, executing, recording, retrying, locking, listing, checking, probing, creating,
  unlocking, leaving, finished, Input, processed, record_result, retry_run, check_deps, visit_next,
  advance, is_critical, Pool, total, thread_at, set_thread, is_blocked, lock_after, Choice, launch,
  go_on, launch_from, turn, run_schedule, open_pool,
}
use cronflux.Scheduler.Pool.Threads.{total-append, total-set_thread, total-at}

is_critical-processed : (r : Run) → is_critical (processed r) ≡ 0
is_critical-processed r = ground arith

is_critical-record_result :
    (j : Job) (r : Run) (e : Option Str) (t : Time) → is_critical (record_result j r e t) ≡ 0
unfolding record_result
is_critical-record_result j r none t = refl
is_critical-record_result j r (some e) t = ground arith

is_critical-check_deps :
    (r : Run) (now : Time) (j : Job) (deps : List Str) (js : List Job)
    → is_critical (check_deps r now j deps js) ≡ 1
is_critical-check_deps r now j [] js = refl
is_critical-check_deps r now j (dep ∷ deps) js = refl

is_critical-visit_next :
    (r : Run) (now : Time) (js : List Job) → is_critical (visit_next r now js) ≡ 1
unfolding visit_next
is_critical-visit_next r now [] = refl
is_critical-visit_next r now (j ∷ js) = elim (Bool-cases (contains j.depends_on r.job_id)) [
  | inl e ↦ rw e (is_critical-check_deps r now j j.depends_on js)
  | inr e ↦ rw e (is_critical-visit_next r now js)
]

-- How many goroutines hold the mutex.
abbrev pub held : Bool → ℕ
held b = if b then 1 else 0

module _ {S : Type 0} (api : Store S) (floats : Floats) where
  -- What a call does to the count of the goroutines that hold the mutex it does to the mutex.
  held-advance :
      (locked : Bool) (a : Input) (pc : Pc) (s : S)
      → is_blocked locked pc ≡ false
      → is_critical pc ≤ held locked
      → is_critical (advance api floats a pc s).1 + held locked
        ≡ is_critical pc + held (lock_after locked pc)
  unfolding advance
  held-advance locked a (fetching r) s h k = elim (Result-cases (api.get_job r.job_id s).1) [
    | inl (j, e) ↦ rw (e, advance) refl
    | inr (x, e) ↦ rw (e, advance) refl
  ]
  held-advance locked a (executing j r) s h k = elim (Bool-cases a.outcome.parent_done) [
    | inl e ↦ rw (e, advance, is_critical-processed r) refl
    | inr e ↦ rw (e, advance, is_critical-record_result j r a.outcome.error a.time) refl
  ]
  held-advance locked a (recording none r) s h k = elim (Result-cases (api.update_run r s).1) [
    | inl (u, e) ↦ rw (e, advance, is_critical-processed r) refl
    | inr (x, e) ↦ rw (e, advance) refl
  ]
  held-advance locked a (recording (some j) r) s h k = elim (Result-cases (api.update_run r s).1) [
    | inl (u, e) ↦ rw (e, advance) refl
    | inr (x, e) ↦ rw (e, advance) refl
  ]
  held-advance locked a (retrying j r) s h k =
      elim (Result-cases (api.create_run (retry_run floats a j r) s).1) [
        | inl (u, e) ↦ rw (e, advance, is_critical-processed r) refl
        | inr (x, e) ↦ rw (e, advance) refl
      ]
  held-advance locked a (locking r) s h k = ground arith
  held-advance locked a (listing r now) s h k = elim (Result-cases (api.list_jobs s).1) [
    | inl (js, e) ↦ rw (e, advance, is_critical-visit_next r now js) refl
    | inr (x, e) ↦ rw (e, advance) refl
  ]
  held-advance locked a (checking r now j dep deps js) s h k =
      elim (Result-cases (api.list_runs (by_job dep r.batch_id) s).1) [
        | inr (x, e) ↦ rw (e, advance) refl
        | inl (rs, e) ↦ elim (Bool-cases (has_succeeded rs)) [
          | inl y ↦ rw (e, y, advance, is_critical-check_deps r now j deps js) refl
          | inr n ↦ rw (e, n, advance, is_critical-visit_next r now js) refl
        ]
      ]
  held-advance locked a (probing r now j js) s h k =
      elim (Result-cases (api.list_runs (by_job j.id r.batch_id) s).1) [
        | inr (x, e) ↦ rw (e, advance) refl
        | inl (rs, e) ↦ elim (Bool-cases (is_empty rs)) [
          | inl y ↦ rw (e, y, advance) refl
          | inr n ↦ rw (e, n, advance, is_critical-visit_next r now js) refl
        ]
      ]
  held-advance locked a (creating r now j js) s h k =
      elim (Result-cases (api.create_run (new_run a.id j.id r.batch_id 0 now now) s).1) [
        | inl (u, e) ↦ rw (e, advance, is_critical-visit_next r now js) refl
        | inr (x, e) ↦ rw (e, advance) refl
      ]
  held-advance true a unlocking s h k = refl
  held-advance false a unlocking s h k = absurd (omega arith)
  held-advance locked a leaving s h k = refl
  held-advance locked a finished s h k = refl

module _ {S : Type 0} (api : Store S) (floats : Floats) (workers : ℕ) where
  pub launch-held :
      (rs : List Run) (p : Pool S)
      → total is_critical p.threads ≡ held p.locked
      → total is_critical (launch_from api floats workers rs p).threads ≡ held p.locked
  launch-held [] p h = h
  launch-held (r ∷ rs) p h = omega (arith, h, total-append is_critical (fetching r) p.threads)

  pub moved-held :
      (n : ℕ) (a : Input) (pc : Pc) (p : Pool S)
      → thread_at n p.threads ≡ some pc
      → is_blocked p.locked pc ≡ false
      → total is_critical p.threads ≡ held p.locked
      → total is_critical (set_thread n (advance api floats a pc p.store).1 p.threads)
        ≡ held (lock_after p.locked pc)
  moved-held n a pc p e b h =
      let low : is_critical pc ≤ held p.locked =
        omega (arith, h, total-at is_critical pc n p.threads e) in
      omega (
        arith,
        h,
        total-set_thread is_critical (advance api floats a pc p.store).1 pc n p.threads e,
        held-advance api floats p.locked a pc p.store b low,
      )

  launch-keeps_lock :
      (rs : List Run) (p : Pool S)
      → held p.locked ≡ held (launch_from api floats workers rs p).locked
  launch-keeps_lock [] p = refl
  launch-keeps_lock (r ∷ rs) p = refl

  turn-held :
      (c : Choice) (p : Pool S)
      → total is_critical p.threads ≡ held p.locked
      → total is_critical (turn api floats workers c p).threads
        ≡ held (turn api floats workers c p).locked
  unfolding turn
  turn-held launch p h = elim (Bool-cases (ltb p.slots workers)) [
    | inr full ↦ rw (full, turn) h
    | inl free ↦ rw (free, turn) (rw (launch-held p.waiting p h) (launch-keeps_lock p.waiting p))
  ]
  turn-held (go_on n a) p h = elim (Option-cases (thread_at n p.threads)) [
    | inl e ↦ rw (e, turn) h
    | inr (pc, e) ↦ elim (Bool-cases (is_blocked p.locked pc)) [
      | inl b ↦ rw (e, b, turn) h
      | inr b ↦ rw (e, b, turn) (moved-held n a pc p e b h)
    ]
  ]

  pub run_schedule-held :
      (cs : List Choice) (p : Pool S)
      → total is_critical p.threads ≡ held p.locked
      → total is_critical (run_schedule api floats workers cs p).threads
        ≡ held (run_schedule api floats workers cs p).locked
  unfolding run_schedule
  run_schedule-held [] p h = h
  run_schedule-held (c ∷ cs) p h =
      run_schedule-held cs (turn api floats workers c p) (turn-held c p h)

  -- On every store and in every schedule of the goroutines that `drain` launches, at most one of
  -- them stands between Lock and Unlock of the mutex around `enqueueDependents`.
  pub run_schedule-excludes :
      (cs : List Choice) (s : S) (claimed : List Run)
      → total is_critical (run_schedule api floats workers cs (open_pool s claimed)).threads ≤ 1
  run_schedule-excludes cs s claimed =
      let p = run_schedule api floats workers cs (open_pool s claimed) in
      ground (arith, run_schedule-held cs (open_pool s claimed) refl)

-- ===== src/Scheduler/Pool/Progress.antt =====
-- The goroutines of `drain` in internal/scheduler/scheduler.go never wait for each other for good.
use cronflux.Common.{
  ℕ, zero, suc, ◌<◌, ◌≡◌, refl, List, [], ◌∷◌, Bool, true, false, not, ◌&&◌, Option, none, some,
  arith, Bool-cases, inl, inr, ltb,
}
use cronflux.Job.{Run}
use cronflux.Backoff.{Floats}
use cronflux.Store.{Store}
use cronflux.Scheduler.Pool.{
  Pc, Input, is_active, is_critical, Pool, total, thread_at, is_blocked, Choice, launch, go_on,
  run_schedule, open_pool,
}
use cronflux.Scheduler.Pool.Mutex.{held, run_schedule-held}
use cronflux.Scheduler.Pool.Semaphore.{run_schedule-IsInStep}

-- Whether a run is waiting for its launch.
abbrev pub is_waiting : List Run → Bool
is_waiting [] = false
is_waiting (r ∷ rs) = true

-- Whether the goroutine makes a call.
abbrev pub calls : Bool → Option Pc → Bool
calls locked none = false
calls locked (some pc) = ltb 0 (is_active pc) && not (is_blocked locked pc)

-- Whether the turn is possible: a run is waiting and the semaphore is free, or the goroutine has not
-- ended and does not wait for the mutex.
unfoldable pub acts : {S : Type 0} → ℕ → Choice → Pool S → Bool
unfolding thread_at
acts workers launch p = is_waiting p.waiting && ltb p.slots workers
acts workers (go_on n a) p = calls p.locked (thread_at n p.threads)

-- `wg.Wait` returns: every claimed run was launched, and every goroutine has ended.
abbrev pub is_done : {S : Type 0} → Pool S → Bool
is_done p = not (is_waiting p.waiting) && ltb (total is_active p.threads) 1

-- A weight that is not zero in all stands at some goroutine.
find-thread :
    (w : Pc → ℕ) (ps : List Pc)
    → 0 < total w ps
    → (n : ℕ) × (pc : Pc) × (thread_at n ps ≡ some pc) × (0 < w pc)
unfolding thread_at
find-thread w [] h = absurd (omega arith)
find-thread w (p ∷ ps) h = elim (Bool-cases (ltb 0 (w p))) [
  | inl here ↦ (zero, p, refl, ground arith)
  | inr there ↦ let (n, pc, e, k) = find-thread w ps (ground (arith, h)) in (suc n, pc, e, k)
]

critical-calls : (locked : Bool) (pc : Pc) → 0 < is_critical pc → calls locked (some pc) ≡ true
critical-calls locked pc h = ground (arith, h)

unlocked-calls : (pc : Pc) → 0 < is_active pc → calls false (some pc) ≡ true
unlocked-calls pc h = ground (arith, h)

module _ {S : Type 0} (workers : ℕ) (a : Input) where
  thread-acts :
      (w : Pc → ℕ) (p : Pool S)
      → ((pc : Pc) → 0 < w pc → calls p.locked (some pc) ≡ true)
      → 0 < total w p.threads
      → (c : Choice) × (acts workers c p ≡ true)
  unfolding acts
  thread-acts w p f h =
      let (n, pc, e, k) = find-thread w p.threads h in (go_on n a, rw (e, acts) (f pc k))

  locked-acts :
      (p : Pool S) (locked : Bool)
      → p.locked ≡ locked
      → 0 < workers
      → total is_critical p.threads ≡ held locked
      → p.slots ≡ total is_active p.threads
      → is_done p ≡ false
      → (c : Choice) × (acts workers c p ≡ true)
  unfolding acts
  locked-acts p true e k h u d =
      thread-acts is_critical p (critical-calls p.locked) (ground (arith, h))
  locked-acts p false e k h u d = elim (Bool-cases (ltb (total is_active p.threads) 1)) [
    | inr some_run ↦ thread-acts is_active p (rw e unlocked-calls) (ground arith)
    | inl none_runs ↦ (launch, ground (arith, d, u))
  ]

module _ {S : Type 0} (api : Store S) (floats : Floats) (workers : ℕ) where
  -- On every store, with at least one worker and after any turns of the goroutines of `drain`,
  -- whatever the next calls of their surroundings answer: as long as some claimed run has not been
  -- launched or some goroutine has not ended, a launch is possible or some goroutine that has not
  -- ended can make its next call. So the goroutines never deadlock.
  pub run_schedule-progresses :
      (cs : List Choice) (s : S) (claimed : List Run) (a : Input)
      → 0 < workers
      → is_done (run_schedule api floats workers cs (open_pool s claimed)) ≡ false
      → (c : Choice) × (acts workers c (run_schedule api floats workers cs (open_pool s claimed))
          ≡ true)
  run_schedule-progresses cs s claimed a k d =
      let p = run_schedule api floats workers cs (open_pool s claimed) in
      locked-acts workers a p p.locked refl k
        (run_schedule-held api floats workers cs (open_pool s claimed) refl)
        (run_schedule-IsInStep api floats workers cs (open_pool s claimed) (refl, omega arith)).0 d

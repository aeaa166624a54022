-- ===== src/Scheduler/Pool/Ends/Turns.antt =====
-- How many turns the goroutines of `drain` in internal/scheduler/scheduler.go have, on the in-memory
-- backend.
use cronflux.Common.{
  ℕ, suc, ◌+◌, ◌*◌, ◌≤◌, ◌≡◌, refl, ap, ◌∙◌, subst, List, [], ◌∷◌, ◌++◌, Bool, true, false, ◌&&◌,
  some, arith, Bool-cases, Option-cases, inl, inr, if◌then◌else◌, ltb, length,
}
use cronflux.Job.{Run}
use cronflux.Backoff.{Floats}
use cronflux.Store.Memory.{MemStore, memory, list_jobs}
use cronflux.Scheduler.Pool.{
  Pc, fetching, Input, advance, is_active, Pool, total, thread_at, set_thread, is_blocked,
  lock_after, slots_after, Choice, launch, go_on, launch_from, turn, run_schedule, open_pool,
}
use cronflux.Scheduler.Pool.Threads.{total-append, total-set_thread}
use cronflux.Scheduler.Pool.Progress.{acts, is_waiting}
use cronflux.Scheduler.Pool.Ends.{left, cost_in, advance-Shrinks}

-- The turns that are possible at most, from the pool on.
abbrev pub turns_left : ℕ → Pool MemStore → ℕ
turns_left all p = total (left all) p.threads + length p.waiting * (9 + all)

cost_in-cong : (s s' : MemStore) → s'.jobs ≡ s.jobs → cost_in s' ≡ cost_in s
unfolding list_jobs
cost_in-cong s s' e = rw e refl

and-right_true : (b : Bool) → (b && true) ≡ b
and-right_true b = ground arith

and-right_false : (b : Bool) → (b && false) ≡ false
and-right_false b = ground arith

-- The first call of a launched goroutine is among those that its run had left.
launch-count :
    (all n : ℕ) (r : Run) (ps : List Pc)
    → total (left all) (ps ++ fetching r ∷ []) + n * (9 + all) + 1
      ≤ total (left all) ps + suc n * (9 + all)
launch-count all n r ps = omega (arith, total-append (left all) (fetching r) ps)

module _ (floats : Floats) (workers : ℕ) where
  -- How many turns of a schedule are possible.
  unfoldable pub count_acts : List Choice → Pool MemStore → ℕ
  unfolding acts turn
  count_acts [] p = 0
  count_acts (c ∷ cs) p =
      let rest = count_acts cs (turn memory floats workers c p) in
      if acts workers c p then 1 + rest else rest

  -- A turn uses up one of those that are left, if it is possible.
  record IsCounted (b : Bool) (p p' : Pool MemStore) : Type 0 where
    same_cost : cost_in p'.store ≡ cost_in p.store
    uses : turns_left (cost_in p.store) p' + (if b then 1 else 0) ≤ turns_left (cost_in p.store) p

  idle-IsCounted : (p : Pool MemStore) → IsCounted false p p
  idle-IsCounted p = record { same_cost = refl; uses = omega arith }

  launch-IsCounted :
      (rs : List Run) (p : Pool MemStore)
      → p.waiting ≡ rs
      → IsCounted (is_waiting rs) p (launch_from memory floats workers rs p)
  launch-IsCounted [] p e = idle-IsCounted p
  launch-IsCounted (r ∷ rs) p e = record {
    same_cost = refl;
    uses = rw (ap length e) (launch-count (cost_in p.store) (length rs) r p.threads);
  }

  module _ (n : ℕ) (a : Input) (pc : Pc) (p : Pool MemStore) where
    -- The pool after the goroutine's call.
    abbrev moved : Pool MemStore
    moved =
        let (s, pc') = advance memory floats a pc p.store in
        record p {
          store = s;
          threads = set_thread n pc' p.threads;
          locked = lock_after p.locked pc;
          slots = slots_after p.slots pc;
        }

    moved-IsCounted : thread_at n p.threads ≡ some pc → IsCounted (ltb 0 (is_active pc)) p moved
    moved-IsCounted e =
        let m = advance-Shrinks floats a p.store pc in
        let all = cost_in p.store in
        let next = advance memory floats a pc p.store in
        let swap = total-set_thread (left all) next.1 pc n p.threads e in
        record {
          same_cost = cost_in-cong p.store next.0 m.jobs;
          uses = omega (arith, m.fewer, swap);
        }

  turn-IsCounted :
      (c : Choice) (p : Pool MemStore)
      → IsCounted (acts workers c p) p (turn memory floats workers c p)
  unfolding turn acts
  turn-IsCounted launch p = elim (Bool-cases (ltb p.slots workers)) [
    | inl free ↦
        rw (free, turn, acts, and-right_true (is_waiting p.waiting))
          (launch-IsCounted p.waiting p refl)
    | inr full ↦ rw (full, turn, acts, and-right_false (is_waiting p.waiting)) (idle-IsCounted p)
  ]
  turn-IsCounted (go_on n a) p = elim (Option-cases (thread_at n p.threads)) [
    | inl e ↦ rw (e, turn, acts) (idle-IsCounted p)
    | inr (pc, e) ↦ elim (Bool-cases (is_blocked p.locked pc)) [
      | inl b ↦ rw (e, b, turn, acts, and-right_false (ltb 0 (is_active pc))) (idle-IsCounted p)
      | inr b ↦
          rw (e, b, turn, acts, and-right_true (ltb 0 (is_active pc))) (moved-IsCounted n a pc p e)
    ]
  ]

  count-turns_left :
      (cs : List Choice) (p : Pool MemStore) (all : ℕ)
      → cost_in p.store ≡ all
      → count_acts cs p + turns_left all (run_schedule memory floats workers cs p)
        ≤ turns_left all p
  unfolding count_acts run_schedule
  count-turns_left [] p all e = omega arith
  count-turns_left (c ∷ cs) p all e =
      let t = turn-IsCounted c p in
      let rest = count-turns_left cs (turn memory floats workers c p) all (t.same_cost ∙ e) in
      let uses : turns_left all (turn memory floats workers c p)
            + (if acts workers c p then 1 else 0)
          ≤ turns_left all p =
        subst
          (λ (n : ℕ).
            turns_left n (turn memory floats workers c p) + (if acts workers c p then 1 else 0)
            ≤ turns_left n p)
          e t.uses in
      elim (Bool-cases (acts workers c p)) [
        | inl y ↦ rw (y, count_acts) (omega (arith, rest, rw y at uses))
        | inr n ↦ rw (n, count_acts) (omega (arith, rest, rw n at uses))
      ]

  -- On the in-memory backend, of the turns of any schedule of the goroutines of `drain`, at most
  -- nine for each claimed run, and for each claimed run two for every stored job and one for every
  -- dependency of a stored job, are possible when their turn comes. So `drain` returns.
  pub run_schedule-ends :
      (cs : List Choice) (s : MemStore) (claimed : List Run)
      → count_acts cs (open_pool s claimed) ≤ length claimed * (9 + cost_in s)
  run_schedule-ends cs s claimed =
      omega (arith, count-turns_left cs (open_pool s claimed) (cost_in s) refl)

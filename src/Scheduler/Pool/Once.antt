-- ===== src/Scheduler/Pool/Once.antt =====
-- Why `drain` of internal/scheduler/scheduler.go takes a mutex around `enqueueDependents`: on the
-- in-memory backend no schedule of its goroutines stores two first attempts of a job in a batch.
use cronflux.Common.{
  ℕ, zero, suc, ◌+◌, ◌≤◌, ◌≡◌, refl, subst, List, [], ◌∷◌, none, some, arith, Bool-cases,
  Option-cases, inl, inr, All, ltb,
}
use cronflux.Common.Dict.{Dict, lookup}
use cronflux.Job.{Run}
use cronflux.Backoff.{Floats}
use cronflux.Store.Memory.{MemStore, memory}
use cronflux.Store.Memory.Invariant.{IsWellFormed}
use cronflux.Scheduler.Pool.{
  Pc, fetching, executing, recording, retrying, locking, listing, checking, probing, creating,
  unlocking, leaving, finished, Input, advance, is_critical, Pool, total, thread_at, set_thread,
  is_blocked, lock_after, slots_after, Choice, launch, go_on, launch_from, turn, run_schedule,
}
use cronflux.Scheduler.Pool.Threads.{total-at, All-at, All-snoc}
use cronflux.Scheduler.Pool.Mutex.{held, launch-held, moved-held}
use cronflux.Scheduler.Pool.Slots.{Known, OneFirst, Preserves}
use cronflux.Scheduler.Pool.Fits.{Fits, Moved}
use cronflux.Scheduler.Pool.Moves.{advance-Moved}

-- Between two turns.
pub record IsConsistent (p : Pool MemStore) : Type 0 where
  pub well_formed : IsWellFormed p.store
  pub one : OneFirst p.store.runs
  pub held : total is_critical p.threads ≡ held p.locked
  pub fits : All (Fits p.store.runs) p.threads
  pub waiting : All (Known p.store.runs) p.waiting

module _ (s : MemStore) (pc : Pc) (next : MemStore × Pc) (m : Moved s pc next) where
  -- What the call of one goroutine leaves to another one; only one of them holds the mutex.
  other-Fits : (q : Pc) → is_critical pc + is_critical q ≤ 1 → Fits s.runs q → Fits next.0.runs q
  other-Fits (fetching r) h f = m.preserves.known r f
  other-Fits (executing j r) h f = m.preserves.known r f
  other-Fits (recording retry r) h f = m.preserves.known r f
  other-Fits (creating r now j js) h f = m.clear (omega (arith, h)) j.id r.batch_id f
  other-Fits (retrying j r) h f = tt
  other-Fits (locking r) h f = tt
  other-Fits (listing r now) h f = tt
  other-Fits (checking r now j dep deps js) h f = tt
  other-Fits (probing r now j js) h f = tt
  other-Fits unlocking h f = tt
  other-Fits leaving h f = tt
  other-Fits finished h f = tt

  others-Fit :
      (ps : List Pc)
      → is_critical pc + total is_critical ps ≤ 1
      → All (Fits s.runs) ps
      → All (Fits next.0.runs) ps
  others-Fit [] h f = tt
  others-Fit (q ∷ ps) h f =
      (other-Fits q (omega (arith, h)) f.0, others-Fit ps (omega (arith, h)) f.1)

  threads-Fit :
      (n : ℕ) (ps : List Pc)
      → thread_at n ps ≡ some pc
      → total is_critical ps ≤ 1
      → All (Fits s.runs) ps
      → All (Fits next.0.runs) (set_thread n next.1 ps)
  unfolding thread_at set_thread
  threads-Fit n [] e h f = tt
  threads-Fit zero (q ∷ ps) e h f =
      let same : q ≡ pc = ground (arith, e) in
      (
        m.fits,
        others-Fit ps (subst (λ (x : Pc). is_critical x + total is_critical ps ≤ 1) same h) f.1,
      )
  threads-Fit (suc n) (q ∷ ps) e h f = (
    other-Fits q (omega (arith, h, total-at is_critical pc n ps e)) f.0,
    threads-Fit n ps e (omega (arith, h)) f.1,
  )

All-Known :
    (m m' : Dict Run) → Preserves m m' → (rs : List Run) → All (Known m) rs → All (Known m') rs
All-Known m m' p [] h = tt
All-Known m m' p (r ∷ rs) h = (p.known r h.0, All-Known m m' p rs h.1)

-- The ID that a turn's call of newID answers is not in use.
abbrev pub IsNew : MemStore → Choice → Type 0
IsNew s launch = Unit
IsNew s (go_on n a) = lookup a.id s.runs ≡ none

module _ (floats : Floats) (workers : ℕ) where
  -- Every turn's new ID is not in use when it is taken.
  abbrev pub IdsAreNew : List Choice → Pool MemStore → Type 0
  IdsAreNew [] p = Unit
  IdsAreNew (c ∷ cs) p = IsNew p.store c × IdsAreNew cs (turn memory floats workers c p)

  module _ (n : ℕ) (a : Input) (pc : Pc) (p : Pool MemStore) where
    -- The pool after the goroutine's call.
    abbrev moved : Pool MemStore
    moved =
        let (s, pc') = advance memory floats a pc p.store in
        record p {
          store = s;
          threads = set_thread n pc' p.threads;
          locked = lock_after p.locked pc;
          slots = slots_after p.slots pc;
        }

    moved-IsConsistent :
        thread_at n p.threads ≡ some pc
        → lookup a.id p.store.runs ≡ none
        → total is_critical moved.threads ≡ held moved.locked
        → IsConsistent p
        → IsConsistent moved
    moved-IsConsistent e fresh h c =
        let fits = All-at (Fits p.store.runs) pc n p.threads c.fits e in
        let m = advance-Moved floats a p.store c.well_formed pc fresh fits in
        let low : total is_critical p.threads ≤ 1 = ground (arith, c.held) in
        record {
          well_formed = m.well_formed;
          one = m.preserves.one c.one;
          held = h;
          fits =
              threads-Fit p.store pc (advance memory floats a pc p.store) m n p.threads e low
                c.fits;
          waiting = All-Known p.store.runs _ m.preserves p.waiting c.waiting;
        }

  launch-IsConsistent :
      (rs : List Run) (p : Pool MemStore)
      → p.waiting ≡ rs
      → IsConsistent p
      → total is_critical (launch_from memory floats workers rs p).threads ≡ held p.locked
      → IsConsistent (launch_from memory floats workers rs p)
  launch-IsConsistent [] p e c h = c
  launch-IsConsistent (r ∷ rs) p e c h =
      let known : All (Known p.store.runs) (r ∷ rs) =
        subst (All (Known p.store.runs)) e c.waiting in
      record {
        well_formed = c.well_formed;
        one = c.one;
        held = h;
        fits = All-snoc (Fits p.store.runs) (fetching r) p.threads c.fits known.0;
        waiting = known.1;
      }

  pub turn-IsConsistent :
      (c : Choice) (p : Pool MemStore)
      → IsNew p.store c
      → IsConsistent p
      → IsConsistent (turn memory floats workers c p)
  unfolding turn
  turn-IsConsistent launch p new c = elim (Bool-cases (ltb p.slots workers)) [
    | inr full ↦ rw (full, turn) c
    | inl free ↦
        rw (free, turn)
          (launch-IsConsistent p.waiting p refl c
            (launch-held memory floats workers p.waiting p c.held))
  ]
  turn-IsConsistent (go_on n a) p new c = elim (Option-cases (thread_at n p.threads)) [
    | inl e ↦ rw (e, turn) c
    | inr (pc, e) ↦ elim (Bool-cases (is_blocked p.locked pc)) [
      | inl b ↦ rw (e, b, turn) c
      | inr b ↦
          rw (e, b, turn)
            (moved-IsConsistent n a pc p e new
              (moved-held memory floats workers n a pc p e b c.held) c)
    ]
  ]

  pub run_schedule-IsConsistent :
      (cs : List Choice) (p : Pool MemStore)
      → IdsAreNew cs p
      → IsConsistent p
      → IsConsistent (run_schedule memory floats workers cs p)
  unfolding run_schedule
  run_schedule-IsConsistent [] p new c = c
  run_schedule-IsConsistent (t ∷ cs) p new c =
      run_schedule-IsConsistent cs (turn memory floats workers t p) new.1
        (turn-IsConsistent t p new.0 c)

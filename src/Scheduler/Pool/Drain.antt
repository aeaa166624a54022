-- ===== src/Scheduler/Pool/Drain.antt =====
-- `drain` of internal/scheduler/scheduler.go on the in-memory backend, from the claim to any point
-- of any schedule of its goroutines.
use cronflux.Common.{
  ℕ, ◌≡◌, refl, sym, ◌∙◌, List, [], ◌∷◌, Bool, some, Str, ℤ, Time, Duration, arith, Option-cases,
  inl, inr, All, any,
}
use cronflux.Common.Dict.{Dict, lookup}
use cronflux.Job.{Run}
use cronflux.Backoff.{Floats}
use cronflux.Store.Memory.{MemStore, memory, claim_due, ready_runs}
use cronflux.Store.Memory.Invariant.{IsWellFormed, Call, step-IsWellFormed}
use cronflux.Store.Memory.Claim.{has_id, lookup-claim_due}
use cronflux.Store.Memory.Claim.Taken.{claimed_runs, IsLeased, claim_due-IsLeased}
use cronflux.Scheduler.Pool.{Pool, Choice, run_schedule, open_pool}
use cronflux.Scheduler.Pool.Slots.{SameSlot, Known, OneFirst}
use cronflux.Scheduler.Pool.Once.{IsConsistent, IdsAreNew, run_schedule-IsConsistent}

-- The pool when the runs are claimed.
abbrev pub opened : MemStore → Time → Str → Duration → ℤ → Pool MemStore
opened s now worker lease limit =
    open_pool (claim_due now worker lease limit s).0
      (claimed_runs (claim_due now worker lease limit s))

module _ (s : MemStore) (w : IsWellFormed s) (now : Time) (worker : Str) (lease : Duration)
    (limit : ℤ) where
  abbrev after : Dict Run
  after = (claim_due now worker lease limit s).0.runs

  abbrev is_taken : Str → Bool
  is_taken i = any (has_id i) (ready_runs now limit s.runs)

  -- A claim keeps the slot of every run.
  claimed-from :
      (i : Str) (a : Run)
      → lookup i after ≡ some a
      → (q : Run) × (lookup i s.runs ≡ some q) × SameSlot q a
  claimed-from i a e =
      let found = sym (lookup-claim_due s now worker lease limit i w) ∙ e in
      elim (Option-cases (lookup i s.runs)) [
        | inl missing ↦ absurd (ground (arith, found, missing))
        | inr (q, here) ↦ (q, here, ground (arith, found, here))
      ]

  claim_due-OneFirst : OneFirst s.runs → OneFirst after
  claim_due-OneFirst h i k a b ea eb fa fb job batch =
      let (p, ep, sp) = claimed-from i a ea in
      let (o, eo, so) = claimed-from k b eb in
      h i k p o ep eo (sp.attempt ∙ fa) (so.attempt ∙ fb) (sp.job ∙ job ∙ sym so.job)
        (sp.batch ∙ batch ∙ sym so.batch)

  Known-claimed :
      (rs : List Run) → All (IsLeased now worker lease s.runs after) rs → All (Known after) rs
  Known-claimed [] h = tt
  Known-claimed (r ∷ rs) h =
      ((r, h.0.written, record { job = refl; batch = refl; attempt = refl }), Known-claimed rs h.1)

  pub opened-IsConsistent : OneFirst s.runs → IsConsistent (opened s now worker lease limit)
  opened-IsConsistent h = record {
    well_formed = step-IsWellFormed s (Call.claim now worker lease limit) w;
    one = claim_due-OneFirst h;
    held = refl;
    fits = tt;
    waiting =
        Known-claimed (claimed_runs (claim_due now worker lease limit s))
          (claim_due-IsLeased now worker lease limit s w);
  }

  -- On a well-formed in-memory store that holds at most one first attempt of every job in every
  -- batch, `drain` claims runs and launches goroutines for them: after any turns of these, in any
  -- order, the store still holds at most one first attempt of every job in every batch, provided
  -- that no ID that newID answers is in use.
  pub drain-OneFirst :
      (floats : Floats) (workers : ℕ) (cs : List Choice)
      → OneFirst s.runs
      → IdsAreNew floats workers cs (opened s now worker lease limit)
      → OneFirst
          (run_schedule memory floats workers cs (opened s now worker lease limit)).store.runs
  drain-OneFirst floats workers cs h new =
      (run_schedule-IsConsistent floats workers cs (opened s now worker lease limit) new
        (opened-IsConsistent h)).one

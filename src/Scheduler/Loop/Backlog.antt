-- ===== src/Scheduler/Loop/Backlog.antt =====
-- The lag gauge of internal/scheduler/scheduler.go: the age of the oldest due run.
use native.Mathlib.Nat.{le_trans}
use cronflux.Common.{
  ◌≤◌, ◌<◌, ◌≡◌, refl, sym, ◌∙◌, [], ◌∷◌, List, Time, arith, inl, inr, ◌⊎◌, In, All,
}
use cronflux.Job.{Run}
use cronflux.Scheduler.Loop.{next_oldest, oldest_due}

-- `t` is the earliest scheduled time among the due runs, or zero if none is due.
pub record IsOldest (now : Time) (rs : List Run) (t : Time) : Type 0 where
  pub bound : All (λ (r : Run). r.scheduled_for ≤ now → (t ≤ r.scheduled_for) × (0 < t)) rs
  pub reached : (t ≡ 0) ⊎ ((r : Run) × In r rs × (r.scheduled_for ≤ now) × (r.scheduled_for ≡ t))

next_oldest-le :
    (now oldest at : Time)
    → 0 < at
    → 0 < oldest
    → (next_oldest now oldest at ≤ oldest) × (0 < next_oldest now oldest at)
unfolding next_oldest
next_oldest-le now oldest at p q = ground arith

next_oldest_due :
    (now oldest at : Time)
    → 0 < at
    → at ≤ now
    → (next_oldest now oldest at ≤ at) × (0 < next_oldest now oldest at)
unfolding next_oldest
next_oldest_due now oldest at p q = ground arith

next_oldest-cases :
    (now oldest at : Time)
    → (next_oldest now oldest at ≡ oldest) ⊎ ((at ≤ now) × (next_oldest now oldest at ≡ at))
unfolding next_oldest
next_oldest-cases now oldest at = ground arith

oldest_due-cons :
    (now oldest : Time) (r : Run) (rs : List Run)
    → oldest_due now oldest (r ∷ rs) ≡ oldest_due now (next_oldest now oldest r.scheduled_for) rs
unfolding oldest_due
oldest_due-cons now oldest r rs = refl

oldest_due-le :
    (now : Time) (rs : List Run) (oldest : Time)
    → 0 < oldest
    → All (λ (r : Run). 0 < r.scheduled_for) rs
    → (oldest_due now oldest rs ≤ oldest) × (0 < oldest_due now oldest rs)
unfolding oldest_due
oldest_due-le now [] oldest p h = (omega arith, p)
oldest_due-le now (r ∷ rs) oldest p h =
    let next = next_oldest-le now oldest r.scheduled_for h.0 p in
    let rest = oldest_due-le now rs (next_oldest now oldest r.scheduled_for) next.1 h.1 in
    (le_trans rest.0 next.0, rest.1)

oldest_due-bound :
    (now : Time) (rs : List Run) (oldest : Time)
    → All (λ (r : Run). 0 < r.scheduled_for) rs
    → All
        (λ (r : Run).
          r.scheduled_for ≤ now
          → (oldest_due now oldest rs ≤ r.scheduled_for) × (0 < oldest_due now oldest rs))
        rs
unfolding oldest_due
oldest_due-bound now [] oldest h = tt
oldest_due-bound now (r ∷ rs) oldest h = (
  λ due.
      let next = next_oldest_due now oldest r.scheduled_for h.0 due in
      let rest = oldest_due-le now rs (next_oldest now oldest r.scheduled_for) next.1 h.1 in
      (le_trans rest.0 next.0, rest.1),
  oldest_due-bound now rs (next_oldest now oldest r.scheduled_for) h.1,
)

oldest_due-reached :
    (now : Time) (rs : List Run) (oldest : Time)
    → (oldest_due now oldest rs ≡ oldest)
      ⊎ ((r : Run) × In r rs
          × (r.scheduled_for ≤ now)
          × (r.scheduled_for ≡ oldest_due now oldest rs))
unfolding oldest_due
oldest_due-reached now [] oldest = inl refl
oldest_due-reached now (r ∷ rs) oldest =
    elim (oldest_due-reached now rs (next_oldest now oldest r.scheduled_for)) [
      | inr (q, i, due, e) ↦ inr (q, inr i, due, e)
      | inl e ↦ elim (next_oldest-cases now oldest r.scheduled_for) [
        | inl f ↦ inl (e ∙ f)
        | inr (due, f) ↦ inr (r, inl refl, due, sym (e ∙ f))
      ]
    ]

-- Over runs with a real scheduled time, the loop finds the earliest time of a due run, and zero
-- exactly if none is due.
oldest_due-IsOldest :
    (now : Time) (rs : List Run)
    → All (λ (r : Run). 0 < r.scheduled_for) rs
    → IsOldest now rs (oldest_due now 0 rs)
oldest_due-IsOldest now rs h = record {
  bound = oldest_due-bound now rs 0 h;
  reached = oldest_due-reached now rs 0;
}

-- ===== src/Scheduler/Dispatcher/Results.antt =====
-- The ways in which a call of internal/scheduler/dispatcher.go ends.
use cronflux.Common.{◌≡◌, refl, ◌⊎◌, inl, inr, Option, none, some, Result, ok, err}
use cronflux.Store.{StoreError}
use cronflux.Scheduler.{World}

-- How a call that may run out of fuel ends.
pub Option-results :
    {S A : Type 0} (o : Option (World S × Result StoreError A))
    → (o ≡ none)
      ⊎ ((w : World S) × (e : StoreError) × (o ≡ some (w, err e)))
      ⊎ ((w : World S) × (a : A) × (o ≡ some (w, ok a)))
Option-results none = inl refl
Option-results (some (w, err e)) = inr (inl (w, e, refl))
Option-results (some (w, ok a)) = inr (inr (w, a, refl))

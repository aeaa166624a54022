-- ===== src/Store/Memory/Claim/Settled.antt =====
-- The claims that `ClaimDue` of internal/store/memory/memory.go answers without a given run.
use cronflux.Common.{◌<◌, ◌≡◌, refl, List, [], ◌∷◌, false, some, Time, arith, any, All}
use cronflux.Common.Dict.{lookup}
use cronflux.Job.{Run, pending}
use cronflux.Store.Memory.{MemStore, is_ready, stamp, ready_runs, claim_due}
use cronflux.Store.Memory.Invariant.{IsWellFormed, Call, step-IsWellFormed}
use cronflux.Store.Memory.Claim.{has_id, ready_runs-is_ready, ready_runs-IsStored, lookup-claim_due}
use cronflux.Store.Memory.Claim.Lease.{Attempt, NeverClaims, claim, held-not-claimed, not-In-ids}

-- A stored run is not returned by claims at whose times it is not ready.
idle-NeverClaims :
    (r : Run) (later : List Attempt) (s : MemStore)
    → IsWellFormed s
    → lookup r.id s.runs ≡ some r
    → All (λ (a : Attempt). is_ready a.now r ≡ false) later
    → NeverClaims r.id later s
unfolding claim_due
idle-NeverClaims r [] s w e idle = tt
idle-NeverClaims r (a ∷ more) s w e idle =
    let taken = ready_runs a.now a.limit s.runs in
    let absent : any (has_id r.id) taken ≡ false =
      held-not-claimed a.now s.runs r taken e idle.0
        (ready_runs-IsStored a.now a.limit s.runs w.runs_once w.runs_keyed)
        (ready_runs-is_ready a.now a.limit s.runs) in
    (
      not-In-ids (stamp a.now a.worker a.lease) (λ q. refl) r.id taken absent,
      idle-NeverClaims r more (claim a s).0
          (step-IsWellFormed s (Call.claim a.now a.worker a.lease a.limit) w)
          (rw (lookup-claim_due s a.now a.worker a.lease a.limit r.id w, absent) e) idle.1,
    )

All-always : (P : Attempt → Type 0) (later : List Attempt) → ((a : Attempt) → P a) → All P later
All-always P [] f = tt
All-always P (a ∷ more) f = (f a, All-always P more f)

-- A stored run that is ready at no time is not returned by any row of claims.
pub settled-NeverClaims :
    (r : Run) (later : List Attempt) (s : MemStore)
    → IsWellFormed s
    → ((now : Time) → is_ready now r ≡ false)
    → lookup r.id s.runs ≡ some r
    → NeverClaims r.id later s
settled-NeverClaims r later s w idle e =
    idle-NeverClaims r later s w e
      (All-always (λ (a : Attempt). is_ready a.now r ≡ false) later (λ a. idle a.now))

waiting-not-ready :
    (r : Run) (early : List Attempt)
    → r.state ≡ pending
    → All (λ (a : Attempt). a.now < r.scheduled_for) early
    → All (λ (a : Attempt). is_ready a.now r ≡ false) early
waiting-not-ready r [] e h = tt
waiting-not-ready r (a ∷ more) e h =
    let early : a.now < r.scheduled_for = h.0 in
    (rw e (ground (arith, early)), waiting-not-ready r more e h.1)

-- A stored pending run is not returned by claims that are made before its time.
pub waiting-NeverClaims :
    (r : Run) (early : List Attempt) (s : MemStore)
    → IsWellFormed s
    → r.state ≡ pending
    → lookup r.id s.runs ≡ some r
    → All (λ (a : Attempt). a.now < r.scheduled_for) early
    → NeverClaims r.id early s
waiting-NeverClaims r early s w p e h =
    idle-NeverClaims r early s w e (waiting-not-ready r early p h)

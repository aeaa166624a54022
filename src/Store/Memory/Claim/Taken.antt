-- ===== src/Store/Memory/Claim/Taken.antt =====
-- The runs that a claim of internal/store/memory/memory.go returns, and those it leaves waiting.
use cronflux.Common.{
  ◌≤◌, ◌<◌, ◌≡◌, refl, ap, List, [], ◌∷◌, map, true, Option, none, some, Str, str_eq_refl, ℤ, Time,
  Duration, add_time, Result, ok, err, arith, inl, inr, ◌⊎◌, any, In, All, All→,
}
use cronflux.Common.Dict.{Dict, lookup}
use cronflux.Job.{Run, running, pending}
use cronflux.Store.{StoreError}
use cronflux.Store.Memory.{MemStore, is_ready, stamp, or_time, ready_runs, claim_due}
use cronflux.Store.Memory.Invariant.{IsWellFormed}
use cronflux.Store.Memory.Claim.{
  has_id, IsStored, ready_runs-is_ready, ready_runs-IsStored, lookup-claim_due,
}

-- The two kinds of runs that `ClaimDue` may take.
abbrev pub IsClaimable : Time → Run → Type 0
IsClaimable now r =
    ((r.state ≡ pending) × (r.scheduled_for ≤ now)) ⊎ ((r.state ≡ running) × (r.lease_expiry < now))

is_ready→IsClaimable : (now : Time) (r : Run) → is_ready now r ≡ true → IsClaimable now r
is_ready→IsClaimable now r h = ground arith

pub IsClaimable→is_ready : (now : Time) (r : Run) → IsClaimable now r → is_ready now r ≡ true
IsClaimable→is_ready now r (inl (e, h)) = rw e (ground arith)
IsClaimable→is_ready now r (inr (e, h)) = rw e (ground arith)

-- The runs that a call returns.
abbrev pub claimed_runs : MemStore × Result StoreError (List Run) → List Run
claimed_runs (s, ok rs) = rs
claimed_runs (s, err e) = []

-- The start time after a claim: the time of the claim if there was none, else the one that was there.
abbrev pub FirstStart : Time → Option Time → Option Time → Type 0
FirstStart now old new =
    ((old ≡ none) × (new ≡ some now)) ⊎ ((t : Time) × (old ≡ some t) × (new ≡ some t))

-- A returned run was claimable, is now running for the worker until the end of the lease, starts now
-- if it never started before, keeps its first start and its other fields, and is stored in this form.
pub record IsLeased (now : Time) (worker : Str) (lease : Duration) (before after : Dict Run)
    (r : Run) : Type 0 where
  pub old : Run
  pub stored : lookup old.id before ≡ some old
  pub claimable : IsClaimable now old
  pub is_running : r.state ≡ running
  pub owned : r.worker ≡ worker
  pub until : r.lease_expiry ≡ add_time now lease
  pub same_id : r.id ≡ old.id
  pub same_attempt : r.attempt ≡ old.attempt
  pub same_slot : r.scheduled_for ≡ old.scheduled_for
  pub same_batch : r.batch_id ≡ old.batch_id
  pub same_job : r.job_id ≡ old.job_id
  pub same_end : r.finished_at ≡ old.finished_at
  pub same_error : r.error ≡ old.error
  pub same_creation : r.created_at ≡ old.created_at
  pub started : FirstStart now old.started_at r.started_at
  pub touched : r.updated_at ≡ now
  pub written : lookup r.id after ≡ some r

All-stamped :
    (P Q : Run → Type 0) (f : Run → Run) (rs : List Run)
    → All P rs
    → ((r : Run) → In r rs → P r → Q (f r))
    → All Q (map f rs)
All-stamped P Q f [] h g = tt
All-stamped P Q f (r ∷ rs) h g = (g r (inl refl) h.0, All-stamped P Q f rs h.1 (λ q i. g q (inr i)))

any-has_id : (r : Run) (rs : List Run) → In r rs → any (has_id r.id) rs ≡ true
any-has_id r [] i = elim i [ ]
any-has_id r (q ∷ rs) (inl e) = rw (ap (has_id r.id) e, str_eq_refl r.id) refl
any-has_id r (q ∷ rs) (inr i) = ground (arith, any-has_id r rs i)

or_time-FirstStart : (o : Option Time) (now : Time) → FirstStart now o (or_time o now)
or_time-FirstStart none now = inl (refl, refl)
or_time-FirstStart (some t) now = inr (t, refl, refl)

module _ (now : Time) (worker : Str) (lease : Duration) (limit : ℤ) (s : MemStore)
    (w : IsWellFormed s) where
  abbrev taken : List Run
  taken = ready_runs now limit s.runs

  stamped-IsLeased :
      (r : Run)
      → In r taken
      → lookup r.id s.runs ≡ some r
      → IsLeased now worker lease s.runs
          (claim_due now worker lease limit s).0.runs
          (stamp now worker lease r)
  stamped-IsLeased r i e = record {
    old = r;
    stored = e;
    claimable =
        is_ready→IsClaimable now r
          (All→ (λ q. is_ready now q ≡ true) r taken (ready_runs-is_ready now limit s.runs) i);
    is_running = refl;
    owned = refl;
    until = refl;
    same_id = refl;
    same_attempt = refl;
    same_slot = refl;
    same_batch = refl;
    same_job = refl;
    same_end = refl;
    same_error = refl;
    same_creation = refl;
    started = or_time-FirstStart r.started_at now;
    touched = refl;
    written = rw (lookup-claim_due s now worker lease limit r.id w, any-has_id r taken i, e) refl;
  }

  -- On a well-formed store, every run that a claim returns was claimable before it, and now stands in
  -- the store as running for this worker until the lease ends. A run that never started starts now, and
  -- one that did keeps its first start; its update time is now, and its other fields are kept.
  pub claim_due-IsLeased :
      All
        (IsLeased now worker lease s.runs (claim_due now worker lease limit s).0.runs)
        (claimed_runs (claim_due now worker lease limit s))
  unfolding claim_due
  claim_due-IsLeased =
      All-stamped (IsStored s.runs) _ (stamp now worker lease) taken
        (ready_runs-IsStored now limit s.runs w.runs_once w.runs_keyed) stamped-IsLeased

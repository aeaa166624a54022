-- ===== src/Store/Memory/Claim/Lease.antt =====
-- A lease of internal/store/memory/memory.go keeps every other claim out until it ends.
use cronflux.Common.{
  ◌≤◌, ◌≡◌, refl, sym, ap, subst, ◌∙◌, List, [], ◌∷◌, map, true, false, some, Str, str_eq_iff, ℤ,
  Time, Duration, add_time, Result, ok, err, arith, inl, inr, any, In, All,
}
use cronflux.Common.Dict.{Dict, lookup}
use cronflux.Job.{Run, running}
use cronflux.Store.{StoreError}
use cronflux.Store.Memory.{MemStore, is_ready, stamp, ready_runs, claim_due}
use cronflux.Store.Memory.Invariant.{IsWellFormed, Call, step-IsWellFormed}
use cronflux.Store.Memory.Claim.{
  has_id, IsStored, ready_runs-is_ready, ready_runs-IsStored, lookup-claim_due,
}

-- Nobody may take this run at `now`: it runs under a lease that has not ended.
abbrev pub IsHeld : Time → Run → Type 0
IsHeld now r = (r.state ≡ running) × (now ≤ r.lease_expiry)

held-not-ready : (now : Time) (r : Run) → IsHeld now r → is_ready now r ≡ false
held-not-ready now r (e, h) = rw e (ground arith)

pub held-not-claimed :
    (now : Time) (m : Dict Run) (r : Run) (rs : List Run)
    → lookup r.id m ≡ some r
    → is_ready now r ≡ false
    → All (IsStored m) rs
    → All (λ q. is_ready now q ≡ true) rs
    → any (has_id r.id) rs ≡ false
held-not-claimed now m r [] e h st rd = refl
held-not-claimed now m r (q ∷ rs) e h st rd =
    ground (arith, held-not-claimed now m r rs e h st.1 rd.1, str_eq_iff q.id r.id)

-- A held run survives any claim as it is, and no claim returns it.
module _ (s : MemStore) (w : IsWellFormed s) (now : Time) (worker : Str) (lease : Duration)
    (limit : ℤ) (r : Run) (e : lookup r.id s.runs ≡ some r) (h : IsHeld now r) where
  not-among : any (has_id r.id) (ready_runs now limit s.runs) ≡ false
  not-among =
      held-not-claimed now s.runs r (ready_runs now limit s.runs) e (held-not-ready now r h)
        (ready_runs-IsStored now limit s.runs w.runs_once w.runs_keyed)
        (ready_runs-is_ready now limit s.runs)

  held-kept : lookup r.id (claim_due now worker lease limit s).0.runs ≡ some r
  held-kept = rw (lookup-claim_due s now worker lease limit r.id w, not-among) e

-- The IDs that a call returns.
abbrev pub claimed_ids : MemStore × Result StoreError (List Run) → List Str
claimed_ids (s, ok rs) = map (λ r. r.id) rs
claimed_ids (s, err e) = []

pub not-In-ids :
    (f : Run → Run) (same_id : (r : Run) → (f r).id ≡ r.id) (id : Str) (rs : List Run)
    → any (has_id id) rs ≡ false
    → ¬ In id (map (λ (r : Run). r.id) (map f rs))
not-In-ids f same_id id [] e i = elim i [ ]
not-In-ids f same_id id (q ∷ rs) e (inl x) = ground (arith, str_eq_iff q.id id, same_id q)
not-In-ids f same_id id (q ∷ rs) e (inr i) = not-In-ids f same_id id rs (ground arith) i

-- One call of `ClaimDue` by some worker.
pub record Attempt : Type 0 where
  pub now : Time
  pub worker : Str
  pub lease : Duration
  pub limit : ℤ

abbrev pub claim : Attempt → MemStore → MemStore × Result StoreError (List Run)
claim a s = claim_due a.now a.worker a.lease a.limit s

-- No call of the row returns the run `id`.
abbrev pub NeverClaims : Str → List Attempt → MemStore → Type 0
NeverClaims id [] s = Unit
NeverClaims id (a ∷ more) s =
    (¬ In id (claimed_ids (claim a s))) × NeverClaims id more (claim a s).0

claimed_stored :
    (f : Run → Run) (same_id : (r : Run) → (f r).id ≡ r.id) (m : Dict Run) (id : Str)
    (rs : List Run)
    → In id (map (λ (r : Run). r.id) (map f rs))
    → All (IsStored m) rs
    → (q : Run) × (q.id ≡ id) × (lookup id m ≡ some q) × (any (has_id id) rs ≡ true)
claimed_stored f same_id m id [] i h = elim i [ ]
claimed_stored f same_id m id (q ∷ rs) (inl e) h =
    let same : q.id ≡ id = sym (same_id q) ∙ e in
    (q, same, ap (λ (j : Str). lookup j m) (sym same) ∙ h.0, rw ((str_eq_iff q.id id).1 same) refl)
claimed_stored f same_id m id (q ∷ rs) (inr i) h =
    let (p, same, e, t) = claimed_stored f same_id m id rs i h.1 in (p, same, e, ground arith)

held-NeverClaims :
    (r : Run) (till : Time) (later : List Attempt) (s : MemStore)
    → IsWellFormed s
    → r.state ≡ running
    → till ≤ r.lease_expiry
    → lookup r.id s.runs ≡ some r
    → All (λ (b : Attempt). b.now ≤ till) later
    → NeverClaims r.id later s
unfolding claim_due
held-NeverClaims r till [] s w st le e h = tt
held-NeverClaims r till (a ∷ more) s w st le e h =
    let held : IsHeld a.now r = (st, omega arith) in
    (
      not-In-ids (stamp a.now a.worker a.lease) (λ q. refl) r.id (ready_runs a.now a.limit s.runs)
          (not-among s w a.now a.worker a.lease a.limit r e held),
      held-NeverClaims r till more (claim a s).0
          (step-IsWellFormed s (Call.claim a.now a.worker a.lease a.limit) w) st le
          (held-kept s w a.now a.worker a.lease a.limit r e held) h.1,
    )

-- On a well-formed store, a run that a claim returned is not returned by any of the claims that
-- follow it directly, of any workers and however many, as long as each is made no later than the end
-- of the lease.
pub claim-excludes :
    (s : MemStore) (a : Attempt) (later : List Attempt) (id : Str)
    → IsWellFormed s
    → In id (claimed_ids (claim a s))
    → All (λ (b : Attempt). b.now ≤ add_time a.now a.lease) later
    → NeverClaims id later (claim a s).0
unfolding claim_due
claim-excludes s a later id w i h =
    let (q, same, e, t) =
      claimed_stored (stamp a.now a.worker a.lease) (λ r. refl) s.runs id
        (ready_runs a.now a.limit s.runs) i
        (ready_runs-IsStored a.now a.limit s.runs w.runs_once w.runs_keyed) in
    let found : lookup id (claim a s).0.runs ≡ some (stamp a.now a.worker a.lease q) =
      rw (lookup-claim_due s a.now a.worker a.lease a.limit id w, t, e) refl in
    subst (λ (j : Str). NeverClaims j later (claim a s).0) same
      (held-NeverClaims (stamp a.now a.worker a.lease q) (add_time a.now a.lease) later
        (claim a s).0 (step-IsWellFormed s (Call.claim a.now a.worker a.lease a.limit) w) refl
        (omega arith) (ap (λ (j : Str). lookup j (claim a s).0.runs) same ∙ found) h)

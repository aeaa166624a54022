-- ===== src/Store/Memory/Claim/Serves.antt =====
-- No ready run starves: `ClaimDue` of internal/store/memory/memory.go serves them in order.
use cronflux.Common.{
  ℕ, zero, suc, ◌≡◌, ap, List, [], ◌∷◌, map, true, false, some, Str, ℤ, pos, pos_part, Time,
  Duration, arith, Bool-cases, inl, inr, ◌⊎◌, length, filter, take, drop, In, All, All→, In-filter,
  length-take, length-map,
}
use cronflux.Common.Dict.{lookup, values, entry_of_lookup, In-values}
use cronflux.Common.Sort.{IsSorted, In-sort_by, sort_by-IsSorted}
use cronflux.Job.{Run}
use cronflux.Store.Memory.{MemStore, is_ready, earlier, stamp, ready_runs, claim_due}
use cronflux.Store.Memory.Claim.{sorted_ready, is_cut, earlier-IsWeakOrder}
use cronflux.Store.Memory.Claim.Taken.{IsClaimable, IsClaimable→is_ready, claimed_runs}

In-split : (n : ℕ) (r : Run) (l : List Run) → In r l → In r (take n l) ⊎ In r (drop n l)
In-split zero r l i = inr i
In-split (suc n) r [] i = inr i
In-split (suc n) r (x ∷ l) (inl e) = inl (inl e)
In-split (suc n) r (x ∷ l) (inr i) = ground (arith, In-split n r l i)

In-drop : (n : ℕ) (r : Run) (l : List Run) → In r (drop n l) → In r l
In-drop zero r l i = i
In-drop (suc n) r [] i = i
In-drop (suc n) r (x ∷ l) i = inr (In-drop n r l i)

In-map : (f : Run → Run) (r : Run) (l : List Run) → In r l → In (f r) (map f l)
In-map f r [] i = i
In-map f r (x ∷ l) (inl e) = inl (ap f e)
In-map f r (x ∷ l) (inr i) = inr (In-map f r l i)

-- In a sorted list nothing that is dropped is less than what is kept.
take-before-drop :
    (n : ℕ) (r : Run) (l : List Run)
    → IsSorted earlier l
    → In r (drop n l)
    → All (λ c. earlier r c ≡ false) (take n l)
take-before-drop zero r l s i = tt
take-before-drop (suc n) r [] s i = tt
take-before-drop (suc n) r (x ∷ l) s i =
    (All→ (λ y. earlier y x ≡ false) r l s.0 (In-drop n r l i), take-before-drop n r l s.1 i)

All-map-stamp :
    (now : Time) (worker : Str) (lease : Duration) (r : Run) (l : List Run)
    → All (λ c. earlier r c ≡ false) l
    → All (λ c. earlier r c ≡ false) (map (stamp now worker lease) l)
All-map-stamp now worker lease r [] h = tt
All-map-stamp now worker lease r (x ∷ l) h = (h.0, All-map-stamp now worker lease r l h.1)

-- The limit is met, and nothing that was returned comes after `r`.
abbrev pub IsCrowdedOut : ℤ → Run → List Run → Type 0
IsCrowdedOut limit r claimed =
    (limit ≡ pos (length claimed)) × All (λ c. earlier r c ≡ false) claimed

module _ (now : Time) (worker : Str) (lease : Duration) (limit : ℤ) (s : MemStore) (r : Run)
    (e : lookup r.id s.runs ≡ some r) (c : IsClaimable now r) where
  abbrev ready : List Run
  ready = sorted_ready now limit s.runs

  In-ready : In r ready
  In-ready = In-sort_by earlier r (filter (is_ready now) (values s.runs)) (
      In-filter (is_ready now) r (values s.runs)
        (In-values r.id r s.runs (entry_of_lookup r.id r s.runs e)) (IsClaimable→is_ready now r c))

  ready-IsSorted : IsSorted earlier ready
  ready-IsSorted = sort_by-IsSorted earlier-IsWeakOrder (filter (is_ready now) (values s.runs))

  length-cut :
      is_cut now limit s.runs ≡ true
      → limit ≡ pos (length (map (stamp now worker lease) (take (pos_part limit) ready)))
  length-cut cut = ground (
    arith,
    length-map (stamp now worker lease) (take (pos_part limit) ready),
    length-take (pos_part limit) ready,
  )

  -- Every stored run that is claimable is returned by the claim, stamped, or the claim returned as
  -- many runs as its limit allows and none of them comes after it in scheduled time and ID.
  pub claim_due-serves :
      In (stamp now worker lease r) (claimed_runs (claim_due now worker lease limit s))
      ⊎ IsCrowdedOut limit r (claimed_runs (claim_due now worker lease limit s))
  unfolding claim_due ready_runs
  claim_due-serves = elim (Bool-cases (is_cut now limit s.runs)) [
    | inr e ↦ rw e (inl (In-map (stamp now worker lease) r ready In-ready))
    | inl cut ↦ elim (In-split (pos_part limit) r ready In-ready) [
      | inl i ↦ rw cut (inl (In-map (stamp now worker lease) r (take (pos_part limit) ready) i))
      | inr i ↦ rw cut (
          inr (
            length-cut cut,
            All-map-stamp now worker lease r (take (pos_part limit) ready)
                (take-before-drop (pos_part limit) r ready ready-IsSorted i),
          ))
    ]
  ]

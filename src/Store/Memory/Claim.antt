-- ===== src/Store/Memory/Claim.antt =====
-- `ClaimDue` of internal/store/memory/memory.go: which runs it takes, and what it writes.
pub mod Lease
pub mod Settled
pub mod Taken
pub mod Serves
use mathlib.Core.Option
use cronflux.Common.{
  ℕ, ◌≤◌, ◌<◌, ◌≡◌, refl, sym, ap, ◌∙◌, List, [], ◌∷◌, ◌++◌, map, Bool, true, false, ◌||◌, ◌&&◌,
  Option, none, some, Str, str_eq, str_lt, str_eq_iff, str_eq_refl, str_lt_asymm, str_lt_neg_trans,
  ℤ, pos, pos_part, Time, Duration, add_time, Result, ok, err, arith, ltb, ltb_ℤ, if◌then◌else◌,
  Bool-cases, Option-cases, inl, inr, ◌⊎◌, ◌≢◌, length, filter, take, drop, any, In, All, All→,
  →All, All-map, All-filter, All-take, All-filter_self, In-filter, take-append-drop, length-take,
  length-map,
}
use cronflux.Common.Dict.{
  Dict, lookup, insert, values, IsMap, lookup-insert, lookup_of_entry, entry_of_lookup, In-values,
  All-values,
}
use cronflux.Common.Sort.{sort_by, IsSorted, IsWeakOrder, All-sort_by, In-sort_by, sort_by-IsSorted}
use cronflux.Job.{Run, running, pending, state_eq}
use cronflux.Store.{StoreError}
use cronflux.Store.Memory.{MemStore, is_ready, earlier, stamp, ready_runs, write_runs, claim_due}
use cronflux.Store.Memory.Invariant.{IsWellFormed, IsKeyed}

abbrev pub has_id : Str → Run → Bool
has_id id r = str_eq r.id id

-- `r` is stored under its own ID.
abbrev pub IsStored : Dict Run → Run → Type 0
IsStored m r = lookup r.id m ≡ some r

pub values-IsStored :
    (m : Dict Run) → IsMap m → IsKeyed (λ (r : Run). r.id) m → All (IsStored m) (values m)
values-IsStored m o k = All-values (IsStored m) m (
    lookup_of_entry (λ i (r : Run). lookup r.id m ≡ some r) m o
      (λ i r e. ap (λ (j : Str). lookup j m) (k i r e) ∙ e))

pub earlier-IsWeakOrder : IsWeakOrder earlier
earlier-IsWeakOrder = record {
  asymm = λ a b h. ground (arith, str_lt_asymm a.id b.id);
  trans = λ a b c h k. ground (arith, str_lt_neg_trans a.id b.id c.id);
}

module _ (now : Time) (limit : ℤ) (m : Dict Run) where
  abbrev pub sorted_ready : List Run
  sorted_ready = sort_by earlier (filter (is_ready now) (values m))

  abbrev pub is_cut : Bool
  is_cut = (ltb_ℤ (pos 0) limit && ltb (pos_part limit) (length sorted_ready))

  ready_runs-All {κ} : (P : Run → Type κ) → All P sorted_ready → All P (ready_runs now limit m)
  unfolding ready_runs
  ready_runs-All P h = elim (Bool-cases is_cut) [
    | inl e ↦ rw e (All-take P (pos_part limit) sorted_ready h)
    | inr e ↦ rw e h
  ]

  pub ready_runs-is_ready : All (λ r. is_ready now r ≡ true) (ready_runs now limit m)
  ready_runs-is_ready =
      ready_runs-All (λ r. is_ready now r ≡ true)
        (All-sort_by earlier (λ r. is_ready now r ≡ true) _
          (All-filter_self (is_ready now) (values m)))

  pub ready_runs-IsStored :
      IsMap m → IsKeyed (λ (r : Run). r.id) m → All (IsStored m) (ready_runs now limit m)
  ready_runs-IsStored o k = ready_runs-All (IsStored m) (
      All-sort_by earlier (IsStored m) _
        (All-filter (IsStored m) (is_ready now) (values m) (values-IsStored m o k)))

-- The writes replace exactly the runs that were taken, by their stamped versions.
lookup-write_runs :
    (f : Run → Run) (same_id : (r : Run) → (f r).id ≡ r.id) (m : Dict Run) (rs : List Run)
    (w : Dict Run) (id : Str)
    → All (IsStored m) rs
    → lookup id (write_runs (map f rs) w)
      ≡ (if any (has_id id) rs then Option.map f (lookup id m) else lookup id w)
unfolding write_runs
lookup-write_runs f same_id m [] w id h = refl
lookup-write_runs f same_id m (r ∷ rs) w id h = ground (
  arith,
  lookup-write_runs f same_id m rs (insert (f r).id (f r) w) id h.1,
  lookup-insert (f r).id id (f r) w,
  same_id r,
  str_eq_iff r.id id,
  h.0,
)

-- After a claim on a well-formed store each run of the store is as it was, unless its ID is among those claimed: then it
-- is the old run, marked running for the worker until the lease ends.
pub lookup-claim_due :
    (s : MemStore) (now : Time) (worker : Str) (lease : Duration) (limit : ℤ) (id : Str)
    → IsWellFormed s
    → lookup id (claim_due now worker lease limit s).0.runs ≡ (
        if any (has_id id) (ready_runs now limit s.runs)
        then Option.map (stamp now worker lease) (lookup id s.runs)
        else lookup id s.runs)
unfolding claim_due
lookup-claim_due s now worker lease limit id w =
    lookup-write_runs (stamp now worker lease) (λ r. refl) s.runs (ready_runs now limit s.runs)
      s.runs id (ready_runs-IsStored now limit s.runs w.runs_once w.runs_keyed)

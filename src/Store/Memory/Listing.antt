-- ===== src/Store/Memory/Listing.antt =====
-- `ListRuns` of internal/store/memory/memory.go: what it returns, in what order, and how the pages of
-- a listing fit together.
use mathlib.Core.List.{Perm}
use cronflux.Common.{
  ℕ, zero, suc, ◌+◌, ◌≤◌, ◌<◌, ◌≡◌, refl, sym, ap, ◌∙◌, List, [], ◌∷◌, ◌++◌, true, false, some, Str,
  str_eq_iff, str_lt, str_lt_total, str_lt_asymm, str_lt_neg_trans, ℤ, pos, ltb_ℤ, Result, ok, err,
  arith, ◌⊎◌, length, filter, take, drop, In, All, All-filter, All-filter_self, In-filter,
  take-append-drop,
}
use cronflux.Common.Dict.{lookup, values, entry_of_lookup, In-values}
use cronflux.Common.Sort.{
  sort_by, IsPairwise, IsSorted-IsPairwise, IsWeakOrder, All-sort_by, In-sort_by, sort_by-IsSorted,
  sort_by-perm,
}
use cronflux.Job.{Run, state_name}
use cronflux.Store.{RunFilter, StoreError}
use cronflux.Store.Memory.{MemStore, newer, matches, page, list_runs}
use cronflux.Store.Memory.Invariant.{IsWellFormed}
use cronflux.Store.Memory.Claim.{IsStored, values-IsStored}

newer-IsWeakOrder : IsWeakOrder newer
newer-IsWeakOrder = record {
  asymm = λ a b h. ground (arith, str_lt_asymm b.id a.id);
  trans = λ a b c h k. ground (arith, str_lt_neg_trans c.id b.id a.id);
}

-- The order of a listing: by falling creation time, and among runs of one time by falling ID.
abbrev pub StandsBefore : Run → Run → Type 0
StandsBefore a b =
    (b.created_at < a.created_at)
    ⊎ ((a.created_at ≡ b.created_at) × ((str_lt b.id a.id ≡ true) ⊎ (a.id ≡ b.id)))

newer-StandsBefore : (a b : Run) → newer b a ≡ false → StandsBefore a b
newer-StandsBefore a b h = ground (arith, str_lt_total b.id a.id, h)

-- The runs that a call returns.
abbrev pub listed : {A : Type 0} → MemStore × Result StoreError (List A) → List A
listed (s, ok rs) = rs
listed (s, err e) = []

-- A condition of the filter holds of a field: it is absent, or names the field's value.
abbrev pub Wants : Str → Str → Type 0
Wants want got = (want ≡ []) ⊎ (got ≡ want)

-- The run meets every condition of the filter.
abbrev pub Meets : RunFilter → Run → Type 0
Meets f r =
    Wants f.job_id r.job_id × Wants f.batch_id r.batch_id × Wants f.state (state_name r.state)

matches→Meets : (f : RunFilter) (r : Run) → matches f r ≡ true → Meets f r
matches→Meets f r h = ground (
  arith,
  str_eq_iff f.job_id [],
  str_eq_iff r.job_id f.job_id,
  str_eq_iff f.batch_id [],
  str_eq_iff r.batch_id f.batch_id,
  str_eq_iff f.state [],
  str_eq_iff (state_name r.state) f.state,
)

pub Meets→matches : (f : RunFilter) (r : Run) → Meets f r → matches f r ≡ true
Meets→matches f r h = ground (
  arith,
  str_eq_iff f.job_id [],
  str_eq_iff r.job_id f.job_id,
  str_eq_iff f.batch_id [],
  str_eq_iff r.batch_id f.batch_id,
  str_eq_iff f.state [],
  str_eq_iff (state_name r.state) f.state,
)

page-all :
    (offset limit : ℤ) (out : List Run)
    → ltb_ℤ (pos 0) offset ≡ false
    → ltb_ℤ (pos 0) limit ≡ false
    → page offset limit out ≡ out
unfolding page
page-all offset limit out h k = rw (h, k) refl

-- `rs` is a listing of the stored runs that meet the filter: each of them and no other, each of the
-- stored runs once, from the newest to the oldest.
pub record IsListing (s : MemStore) (f : RunFilter) (rs : List Run) : Type 0 where
  pub perm : Perm rs (filter (matches f) (values s.runs))
  pub sound : All (λ r. IsStored s.runs r × Meets f r) rs
  pub complete : (r : Run) → lookup r.id s.runs ≡ some r → Meets f r → In r rs
  pub sorted : IsPairwise StandsBefore rs

All-both : (P Q : Run → Type 0) (rs : List Run) → All P rs → All Q rs → All (λ r. P r × Q r) rs
All-both P Q [] h k = tt
All-both P Q (r ∷ rs) h k = ((h.0, k.0), All-both P Q rs h.1 k.1)

All-matches : (f : RunFilter) (rs : List Run) → All (λ r. matches f r ≡ true) rs → All (Meets f) rs
All-matches f [] h = tt
All-matches f (r ∷ rs) h = (matches→Meets f r h.0, All-matches f rs h.1)

module _ (s : MemStore) (f : RunFilter) (w : IsWellFormed s) where
  abbrev found : List Run
  found = filter (matches f) (values s.runs)

  sorted-IsListing : IsListing s f (sort_by newer found)
  sorted-IsListing = record {
    perm = sort_by-perm newer found;
    sound =
        All-sort_by newer (λ r. IsStored s.runs r × Meets f r) found
          (All-both (IsStored s.runs) (Meets f) found
            (All-filter (IsStored s.runs) (matches f) (values s.runs)
              (values-IsStored s.runs w.runs_once w.runs_keyed))
            (All-matches f found (All-filter_self (matches f) (values s.runs))));
    complete = λ r e m. In-sort_by newer r found (
        In-filter (matches f) r (values s.runs)
          (In-values r.id r s.runs (entry_of_lookup r.id r s.runs e)) (Meets→matches f r m));
    sorted =
        IsSorted-IsPairwise newer StandsBefore (sort_by newer found) newer-StandsBefore
          (sort_by-IsSorted newer-IsWeakOrder found);
  }

  -- On a well-formed store, with no offset and no limit the call returns all the stored runs that meet the filter, and only
  -- those, each once, and leaves the store alone. Of
  -- two runs in the answer the earlier one has the later creation time, or the same and no smaller ID.
  pub list_runs-IsListing :
      ltb_ℤ (pos 0) f.offset ≡ false
      → ltb_ℤ (pos 0) f.limit ≡ false
      → IsListing s f (listed (list_runs f s)) × ((list_runs f s).0 ≡ s)
  unfolding list_runs
  list_runs-IsListing h k =
      (rw (page-all f.offset f.limit (sort_by newer found) h k) sorted-IsListing, refl)

drop-length : (n : ℕ) (l : List Run) → length l ≤ n → drop n l ≡ []
drop-length zero [] h = refl
drop-length zero (x ∷ l) h = absurd (omega arith)
drop-length (suc n) [] h = refl
drop-length (suc n) (x ∷ l) h = drop-length n l (omega arith)

take-length : (n : ℕ) (l : List Run) → length l ≤ n → take n l ≡ l
take-length zero [] h = refl
take-length zero (x ∷ l) h = absurd (omega arith)
take-length (suc n) [] h = refl
take-length (suc n) (x ∷ l) h = ap (◌∷◌ x) (take-length n l (omega arith))

drop-nil : (n : ℕ) → drop {A = Run} n [] ≡ []
drop-nil zero = refl
drop-nil (suc n) = refl

take-nil : (n : ℕ) → take {A = Run} n [] ≡ []
take-nil zero = refl
take-nil (suc n) = refl

drop-drop : (n m : ℕ) (l : List Run) → drop m (drop n l) ≡ drop (n + m) l
drop-drop zero m l = ap (λ (k : ℕ). drop k l) {x = m} (omega arith)
drop-drop (suc n) m [] = drop-nil m ∙ sym (drop-nil (suc n + m))
drop-drop (suc n) m (x ∷ l) =
    drop-drop n m l ∙ ap (λ (k : ℕ). drop k (x ∷ l)) {x = suc (n + m)} (omega arith)

-- A positive limit cuts what stands after the offset.
page-take :
    (offset limit : ℕ) (out : List Run)
    → 0 < limit
    → page (pos offset) (pos limit) out ≡ take limit (drop offset out)
unfolding page
page-take zero limit out h = ground (arith, take-length limit out)
page-take (suc n) limit out h =
    ground (arith, drop-length (suc n) out, take-length limit (drop (suc n) out), take-nil limit)

page-drop : (offset : ℕ) (out : List Run) → page (pos offset) (pos 0) out ≡ drop offset out
unfolding page
page-drop zero out = refl
page-drop (suc n) out = ground (arith, drop-length (suc n) out)

-- A page and the listing that starts where it ends make up the listing that starts where the page
-- does: a client that advances the offset by the limit misses no run and sees none twice.
page-append-page :
    (offset limit : ℕ) (out : List Run)
    → 0 < limit
    → page (pos offset) (pos limit) out ++ page (pos (offset + limit)) (pos 0) out
      ≡ page (pos offset) (pos 0) out
page-append-page offset limit out h =
    rw
      (
        page-take offset limit out h,
        page-drop (offset + limit) out,
        page-drop offset out,
        ← drop-drop offset limit out,
      )
      (take-append-drop limit (drop offset out))

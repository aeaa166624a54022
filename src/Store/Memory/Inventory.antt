-- ===== src/Store/Memory/Inventory.antt =====
-- `ListJobs` of internal/store/memory/memory.go: what it returns and in what order.
use mathlib.Core.List.{Perm}
use cronflux.Common.{
  ◌≡◌, refl, sym, ap, ◌∙◌, List, [], ◌∷◌, map, some, subst, Str, str_lt, str_lt_total, str_lt_asymm,
  arith, ◌⊎◌, true, false, str_lt_neg_trans, In, All,
}
use cronflux.Common.Dict.{lookup, values, entry_of_lookup, In-values, lookup_of_entry, All-values}
use cronflux.Common.Sort.{
  sort_by, IsPairwise, IsSorted-IsPairwise, IsWeakOrder, All-sort_by, In-sort_by, sort_by-IsSorted,
  sort_by-perm,
}
use cronflux.Job.{Job, clone}
use cronflux.Store.Memory.{MemStore, job_less, list_jobs}
use cronflux.Store.Memory.Invariant.{IsWellFormed}
use cronflux.Store.Memory.Listing.{listed}

job_less-IsWeakOrder : IsWeakOrder job_less
job_less-IsWeakOrder = record {
  asymm = λ a b. str_lt_asymm a.id b.id;
  trans = λ a b c. str_lt_neg_trans a.id b.id c.id;
}

-- The order of an inventory: by rising ID.
abbrev pub StandsBefore : Job → Job → Type 0
StandsBefore a b = (str_lt a.id b.id ≡ true) ⊎ (a.id ≡ b.id)

job_less-StandsBefore : (a b : Job) → job_less b a ≡ false → StandsBefore a b
job_less-StandsBefore a b h = ground (arith, str_lt_total a.id b.id, h)

-- `js` holds each stored job once, by rising ID.
pub record IsInventory (s : MemStore) (js : List Job) : Type 0 where
  pub perm : Perm js (values s.jobs)
  pub sound : All (λ (j : Job). lookup j.id s.jobs ≡ some j) js
  pub complete : (j : Job) → lookup j.id s.jobs ≡ some j → In j js
  pub sorted : IsPairwise StandsBefore js

map-clone : (js : List Job) → map clone js ≡ js
unfolding clone
map-clone [] = refl
map-clone (j ∷ js) = ap (◌∷◌ j) (map-clone js)

module _ (s : MemStore) (w : IsWellFormed s) where
  values-stored : All (λ (j : Job). lookup j.id s.jobs ≡ some j) (values s.jobs)
  values-stored =
      All-values (λ (j : Job). lookup j.id s.jobs ≡ some j) s.jobs
        (lookup_of_entry (λ k j. lookup j.id s.jobs ≡ some j) s.jobs w.jobs_once
          λ k j e. ap (λ (i : Str). lookup i s.jobs) (w.jobs_keyed k j e) ∙ e)

  sorted-IsInventory : IsInventory s (sort_by job_less (values s.jobs))
  sorted-IsInventory = record {
    perm = sort_by-perm job_less (values s.jobs);
    sound =
        All-sort_by job_less (λ (j : Job). lookup j.id s.jobs ≡ some j) (values s.jobs)
          values-stored;
    complete = λ j e.
        In-sort_by job_less j (values s.jobs)
          (In-values j.id j s.jobs (entry_of_lookup j.id j s.jobs e));
    sorted =
        IsSorted-IsPairwise job_less StandsBefore (sort_by job_less (values s.jobs))
          job_less-StandsBefore (sort_by-IsSorted job_less-IsWeakOrder (values s.jobs));
  }

  -- On a well-formed store `ListJobs` returns every stored job once and nothing else, by rising ID in
  -- the order of bytes, and leaves the store alone.
  pub list_jobs-IsInventory : IsInventory s (listed (list_jobs s)) × ((list_jobs s).0 ≡ s)
  unfolding list_jobs
  list_jobs-IsInventory = (
    subst (λ (js : List Job). IsInventory s (sort_by job_less js)) (sym (map-clone (values s.jobs)))
        sorted-IsInventory,
    refl,
  )

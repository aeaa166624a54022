-- ===== src/Tests/Claims.antt =====
-- The theorems on the in-memory backend, on stores of a few entries.
use cronflux.Common.{◌≡◌, refl, List, [], ◌∷◌, Str, codes, pos, arith, inl, ◌⊎◌, All, In, str_eq}
use cronflux.Common.Dict.{lookup, insert}
use cronflux.Common.Sort.{sort_by}
use cronflux.Job.{state_name, pending}
use cronflux.Store.{RunFilter}
use cronflux.Store.Memory.{
  new, claim_due, put_job, create_run, ready_runs, stamp, list_jobs, list_runs,
}
use cronflux.Store.Memory.Invariant.{IsWellFormed, Call, run_calls, run_calls-IsWellFormed}
use cronflux.Store.Memory.Claim.Lease.{Attempt, NeverClaims, claim, claim-excludes}
use cronflux.Store.Memory.Claim.Taken.{IsLeased, claimed_runs, claim_due-IsLeased}
use cronflux.Store.Memory.Claim.Serves.{IsCrowdedOut, claim_due-serves}
use cronflux.Store.Memory.Listing.{IsListing, listed, list_runs-IsListing}
use cronflux.Store.Memory.Inventory.{IsInventory, list_jobs-IsInventory}
use cronflux.Store.Memory.Refinement.{Op, replies, spec_replies, empty_view, replies-new}
use cronflux.Tests.Fixtures.{stored, stored-IsWellFormed, run_1, history, job_a}

abbrev worker : Str
worker = codes "w"

abbrev first_claim : Attempt
first_claim = record { now = 20; worker = worker; lease = pos 30; limit = pos 4 }

abbrev later_claims : List Attempt
later_claims =
    record first_claim { now = 50; worker = codes "v" }
    ∷ record first_claim { now = 45; limit = pos 0 }
    ∷ []

claim-excludes_example : NeverClaims (codes "r1") later_claims (claim first_claim stored).0
unfolding claim_due put_job create_run ready_runs sort_by insert
claim-excludes_example =
    claim-excludes stored first_claim later_claims (codes "r1") stored-IsWellFormed (inl refl)
      (omega arith, (omega arith, tt))

claim_due-IsLeased_example :
    All
      (IsLeased 20 worker (pos 30) stored.runs (claim_due 20 worker (pos 30) (pos 4) stored).0.runs)
      (claimed_runs (claim_due 20 worker (pos 30) (pos 4) stored))
claim_due-IsLeased_example =
    claim_due-IsLeased 20 worker (pos 30) (pos 4) stored stored-IsWellFormed

claim_due-serves_example :
    In (stamp 20 worker (pos 30) run_1) (claimed_runs (claim_due 20 worker (pos 30) (pos 4) stored))
    ⊎ IsCrowdedOut (pos 4) run_1 (claimed_runs (claim_due 20 worker (pos 30) (pos 4) stored))
unfolding put_job create_run insert lookup str_eq
claim_due-serves_example =
    claim_due-serves 20 worker (pos 30) (pos 4) stored run_1 refl (inl (refl, omega arith))

abbrev some_ops : List Op
some_ops = Op.puts job_a ∷ Op.gets (codes "a") ∷ Op.deletes (codes "a") ∷ Op.gets (codes "a") ∷ []

replies-new_example : replies new some_ops ≡ spec_replies empty_view some_ops
replies-new_example = replies-new some_ops

run_calls-IsWellFormed_example :
    IsWellFormed
      (run_calls new (Call.claim 20 worker (pos 30) (pos 4) ∷ Call.update run_1 ∷ history))
run_calls-IsWellFormed_example =
    run_calls-IsWellFormed (Call.claim 20 worker (pos 30) (pos 4) ∷ Call.update run_1 ∷ history)

abbrev whole_filter : RunFilter
whole_filter = record {
  job_id = codes "a";
  batch_id = [];
  state = state_name pending;
  limit = pos 0;
  offset = pos 0;
}

list_runs-IsListing_example :
    IsListing stored whole_filter (listed (list_runs whole_filter stored))
    × ((list_runs whole_filter stored).0 ≡ stored)
list_runs-IsListing_example = list_runs-IsListing stored whole_filter stored-IsWellFormed refl refl

list_jobs-IsInventory_example :
    IsInventory stored (listed (list_jobs stored)) × ((list_jobs stored).0 ≡ stored)
list_jobs-IsInventory_example = list_jobs-IsInventory stored stored-IsWellFormed

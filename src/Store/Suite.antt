-- ===== src/Store/Suite.antt =====
-- internal/store/storetest/suite.go: the conformance suite of the backends, over any backend of the
-- contract. A test answers the texts that it reports, in order, without the values that are printed
-- into them; `t.Fatalf` ends it, `t.Errorf` does not.

use cronflux.Common.{
  ◌+◌, ◌*◌, ◌-◌, List, [], ◌∷◌, Bool, true, false, not, ◌||◌, none, Str, codes, str_eq, pos, Time,
  add_time, second, Result, ok, err, ◌==◌, length, if◌then◌else◌,
}
use cronflux.Job.{Job, Run, RunState, pending, running, succeeded, failed, state_eq, state_name}
use cronflux.Store.{Store, StoreError, not_found, RunFilter}

-- What a test reports.
pub data Report : Type 0 where
  fatal : Str → Report
  error : Str → Report

-- `if bad { t.Errorf(...) }`, and what follows.
unfoldable pub error_if : Bool → Str → List Report → List Report
error_if bad text rest = if bad then error text ∷ rest else rest

-- `if bad { t.Fatalf(...) }`
unfoldable pub fatal_if : Bool → Str → List Report → List Report
fatal_if bad text rest = if bad then fatal text ∷ [] else rest

-- `if err != nil { t.Fatalf(...) }` after a call; what follows takes the result.
unfoldable pub must :
    {S A : Type 0} → Str → S × Result StoreError A → (S → A → List Report) → List Report
must text (s, err e) rest = fatal text ∷ []
must text (s, ok a) rest = rest s a

-- `!errors.Is(err, store.ErrNotFound)`
abbrev pub is_found : {A : Type 0} → Result StoreError A → Bool
is_found (err not_found) = false
is_found _ = true

-- A call whose error the test reads.
unfoldable pub try :
    {S A : Type 0} → S × Result StoreError A → (S → Result StoreError A → List Report) → List Report
try (s, r) rest = rest s r

-- The runs of a call whose error is ignored; with an error they are nil.
abbrev pub runs_of : Result StoreError (List Run) → List Run
runs_of (err e) = []
runs_of (ok rs) = rs

-- Go's zero values.
abbrev zero_job : Job
zero_job = record {
  id = [];
  name = [];
  spec = [];
  command = [];
  max_retries = pos 0;
  backoff = record { base = pos 0; max = pos 0; factor = 0; jitter = 0 };
  depends_on = [];
  timeout = pos 0;
  enabled = false;
  created_at = 0;
  updated_at = 0;
}

abbrev run_of : Str → Str → RunState → Time → Time → Run
run_of id job_id state scheduled_for created_at = record {
  id = id;
  job_id = job_id;
  batch_id = [];
  state = state;
  attempt = 0;
  scheduled_for = scheduled_for;
  started_at = none;
  finished_at = none;
  lease_expiry = 0;
  worker = [];
  error = [];
  created_at = created_at;
  updated_at = 0;
}

abbrev no_filter : RunFilter
no_filter = record { job_id = []; batch_id = []; state = []; limit = pos 0; offset = pos 0 }

-- `time.Date(2026, 5, 1, 10, 0, 0, 0, time.UTC)`, 739736 days after the first of January of year 1.
abbrev now : Time
now = (739736 * 86400 + 10 * 3600) * second

abbrev minute_ago : Time
minute_ago = now - 60 * second

abbrev build : Job
build = record zero_job {
  id = codes "build";
  name = codes "Build";
  spec = codes "@hourly";
  command = codes "make" ∷ [];
}

-- `len(claimed) != 1 || claimed[0].ID != "due"`
abbrev pub is_not_due : List Run → Bool
is_not_due (r ∷ []) = not (str_eq r.id (codes "due"))
is_not_due _ = true

-- The checks of the claimed run, which was found to be the only one.
unfoldable pub check_lease : List Run → List Report → List Report
check_lease [] rest = rest
check_lease (r ∷ rs) rest =
    error_if (not (state_eq r.state running) || not (str_eq r.worker (codes "worker-1")))
      (codes "claimed run not leased correctly")
      (error_if (not (r.lease_expiry == add_time now (pos (30 * second)))) (codes "lease expiry")
        rest)

-- `len(got) != 1 || got[0].Worker != "worker-2"`
abbrev pub is_not_redelivered : List Run → Bool
is_not_redelivered (r ∷ []) = not (str_eq r.worker (codes "worker-2"))
is_not_redelivered _ = true

-- `len(byJob) == 2 && byJob[0].ID != "b"`
abbrev pub is_misordered : List Run → Bool
is_misordered (r ∷ q ∷ []) = not (str_eq r.id (codes "b"))
is_misordered _ = false

module _ {S : Type 0} (api : Store S) where
  -- `testJobCRUD`
  unfoldable pub test_job_crud : S → List Report
  test_job_crud s0 = must (codes "PutJob") (api.put_job build s0) λ s1 _.
      must (codes "GetJob") (api.get_job (codes "build") s1) λ s2 got.
        error_if (not (str_eq got.name (codes "Build")) || not (str_eq got.spec (codes "@hourly")))
          (codes "GetJob returned")
          (must (codes "ListJobs") (api.list_jobs s2) λ s3 jobs.
            fatal_if (not (length jobs == 1)) (codes "ListJobs len") (
              must (codes "DeleteJob") (api.delete_job (codes "build") s3) λ s4 _.
                try (api.get_job (codes "build") s4)
                  λ s5 gone. error_if (is_found gone) (codes "GetJob after delete") []))

  -- `mustCreate`
  unfoldable pub must_create : List Run → S → (S → List Report) → List Report
  must_create [] s rest = rest s
  must_create (r ∷ rs) s rest =
      must (codes "CreateRun") (api.create_run r s) λ s' _. must_create rs s' rest

  -- `testRunLifecycle`
  unfoldable pub test_run_lifecycle : S → List Report
  test_run_lifecycle s0 =
      let r = run_of (codes "r1") (codes "build") pending now now in
      must (codes "CreateRun") (api.create_run r s0) λ s1 _.
        must (codes "UpdateRun") (api.update_run (record r { state = succeeded }) s1) λ s2 _.
          must (codes "GetRun") (api.get_run (codes "r1") s2) λ s3 got.
            error_if (not (state_eq got.state succeeded)) (codes "run state") (
              try (api.get_run (codes "missing") s3)
                λ s4 missing. error_if (is_found missing) (codes "GetRun(missing)") [])

  -- `testClaimDue`
  unfoldable pub test_claim_due : S → List Report
  test_claim_due s0 =
      let due = run_of (codes "due") (codes "j") pending minute_ago now in
      let future = run_of (codes "future") (codes "j") pending (now + 3600 * second) now in
      let lease = pos (30 * second) in
      must_create (due ∷ future ∷ []) s0 λ s1.
        must (codes "ClaimDue") (api.claim_due now (codes "worker-1") lease (pos 10) s1)
          λ s2 claimed. fatal_if (is_not_due claimed) (codes "claimed") (
            check_lease claimed (
              must (codes "ClaimDue again") (api.claim_due now (codes "worker-2") lease (pos 10) s2)
                λ s3 again. error_if (not (length again == 0)) (codes "second claim returned") []))

  -- `testLeaseRedelivery`
  unfoldable pub test_lease_redelivery : S → List Report
  test_lease_redelivery s0 =
      let r = run_of (codes "r") (codes "j") pending minute_ago now in
      let lease = pos (30 * second) in
      let second_worker = codes "worker-2" in
      must_create (r ∷ []) s0 λ s1.
        must (codes "first claim") (api.claim_due now (codes "worker-1") lease (pos 10) s1) λ s2 _.
          try (api.claim_due (now + 10 * second) second_worker lease (pos 10) s2) λ s3 early.
            fatal_if (not (length (runs_of early) == 0)) (codes "claimed a still-leased run") (
              must (codes "redelivery claim")
                (api.claim_due (now + 60 * second) second_worker lease (pos 10) s3)
                λ s4 got.
                  fatal_if (is_not_redelivered got) (codes "expected redelivery to worker-2") [])

  -- `testListRunsFilter`
  unfoldable pub test_list_runs_filter : S → List Report
  test_list_runs_filter s0 =
      let a = run_of (codes "a") (codes "j1") succeeded 0 now in
      let b = run_of (codes "b") (codes "j1") failed 0 (now + second) in
      let c = run_of (codes "c") (codes "j2") succeeded 0 (now + 2 * second) in
      must_create (a ∷ b ∷ c ∷ []) s0 λ s1.
        must (codes "ListRuns") (api.list_runs (record no_filter { job_id = codes "j1" }) s1)
          λ s2 by_job. error_if (not (length by_job == 2)) (codes "JobID filter returned") (
            error_if (is_misordered by_job) (codes "expected newest run first") (
              must (codes "ListRuns state")
                (api.list_runs (record no_filter { state = state_name succeeded }) s2)
                λ s3 by_state.
                  error_if (not (length by_state == 2)) (codes "state filter returned") (
                    must (codes "ListRuns limit")
                      (api.list_runs (record no_filter { limit = pos 1 }) s3)
                      λ s4 limited.
                        error_if (not (length limited == 1)) (codes "limit returned") [])))

  -- `Run`: each test runs on a fresh store, whether or not the tests before it passed.
  unfoldable pub run_suite : S → List (List Report)
  unfolding test_job_crud test_run_lifecycle test_claim_due test_lease_redelivery
      test_list_runs_filter
  run_suite fresh =
      test_job_crud fresh
      ∷ test_run_lifecycle fresh
      ∷ test_claim_due fresh
      ∷ test_lease_redelivery fresh
      ∷ test_list_runs_filter fresh
      ∷ []

-- ===== src/Tests/Suites.antt =====
-- The conformance suite of internal/store/storetest/suite.go on the in-memory backend.
use cronflux.Common.{◌≡◌, refl, [], ◌∷◌, str_eq}
use cronflux.Common.Dict.{lookup, insert, erase}
use cronflux.Common.Sort.{sort_by}
use cronflux.Job.{clone}
use cronflux.Store.Memory.{
  memory, new, put_job, get_job, list_jobs, delete_job, create_run, get_run, update_run, list_runs,
  claim_due, page,
}
use cronflux.Store.Suite.{error_if, fatal_if, must, try, must_create, run_suite, check_lease}

memory_passes : run_suite memory new ≡ [] ∷ [] ∷ [] ∷ [] ∷ [] ∷ []
unfolding run_suite must_create check_lease put_job create_run get_job update_run claim_due
    list_runs lookup insert str_eq clone get_run sort_by page list_jobs delete_job erase must try
    error_if fatal_if
memory_passes = refl

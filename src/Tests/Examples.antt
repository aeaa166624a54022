-- ===== src/Tests/Examples.antt =====
-- The example of examples/inmemory-dag, run for four ticks.
use cronflux.Scheduler.Dispatcher.{
  dispatch, visit_all, visit, enqueue_dependents, enqueue_all, enqueue_dependent, deps_satisfied,
  enqueue_once, contains, has_succeeded,
}
use cronflux.Scheduler.Loop.{
  step, drain, handle, handle_all, publish_backlog, oldest_due, trigger, with_defaults, claim_limit,
}
use cronflux.Scheduler.Worker.{process, record_outcome, record_success}
use cronflux.Store.Memory.{
  list_jobs, list_runs, put_job, get_job, create_run, update_run, claim_due, ready_runs, write_runs,
  page,
}
use cronflux.Common.Sort.{sort_by}
use cronflux.Common.Dict.{lookup, insert}
use cronflux.Job.{clone}
use cronflux.System.{put_jobs}
use cronflux.Common.{str_eq, str_lt, ◌≡◌, refl, List, [], ◌∷◌, Option, none, some, Str, codes}
use cronflux.Store.Memory.{MemStore, new}
use cronflux.Scheduler.{World}
use cronflux.Examples.{prepare_dag, run_ticks, order}
use cronflux.Tests.Fixtures.{env, passes, world_of}

abbrev printed : Option (World MemStore) → List Str
printed none = []
printed (some w) = order w.metrics

dag_order :
    printed (
      run_ticks
        (env passes)
        1
        (200 ∷ 300 ∷ 400 ∷ 500 ∷ [])
        (prepare_dag (env passes) (world_of new)).0)
    ≡ codes "extract" ∷ codes "transform" ∷ codes "load" ∷ []
unfolding prepare_dag run_ticks order dispatch visit_all visit enqueue_dependents enqueue_all
    enqueue_dependent deps_satisfied enqueue_once contains has_succeeded step drain handle
    handle_all publish_backlog oldest_due trigger with_defaults process record_outcome
    record_success list_jobs list_runs put_job get_job create_run update_run claim_due ready_runs
    write_runs page sort_by lookup insert clone put_jobs str_eq str_lt claim_limit
dag_order = refl

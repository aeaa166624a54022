-- ===== src/Tests/Events.antt =====
-- The theorems on the running system and on its startup.
use cronflux.Common.{
  ◌≡◌, refl, List, [], ◌∷◌, Option, some, Str, codes, str_eq, Result, ok, err, ok_inj, subst, pos,
  Duration, arith, All, none, true, Bool-cases, inl, inr,
}
use cronflux.Common.Dict.{lookup, insert}
use cronflux.Common.Sort.{sort_by}
use cronflux.Job.{Job, clone}
use cronflux.Store.Memory.{MemStore, memory, new, list_jobs, put_job}
use cronflux.Scheduler.{Env, World}
use cronflux.Scheduler.Loop.{Options, step}
use cronflux.Scheduler.Dispatcher.Ends.{AllLater}
use cronflux.Cron.Spec.{parse, parse_trimmed, trim_right, trim_left, after_prefix, parse_descriptor}
use cronflux.Cron.Every.{parse_every}
use cronflux.Cron.Next.Alive.{parse_schedule, IsAlive, step-FiresAgain}
use cronflux.Config.{Config, default, load, scheduler_options}
use cronflux.System.Command.{start, on_memory}
use cronflux.System.Boot.{start-ends}
use cronflux.Config.Jobs.{LoadError}
use cronflux.Store.Memory.Invariant.{Call, step-IsWellFormed, new-IsWellFormed}
use cronflux.Api.{Server, Request}
use cronflux.Api.Stored.{AllJobs}
use cronflux.System.{prepare, Event, tick, request, run_events}
use cronflux.System.Ready.{IsReady}
use cronflux.System.Ends.{run_events-ends}
use cronflux.System.Startup.{last_with, prepare-lookup}
use cronflux.Tests.Fixtures.{env_of, passes, job_a, job_b, world_of}

abbrev two_seconds : Str → Option Duration
two_seconds s = some (pos 2000000000)

abbrev every_job : Job
every_job = record job_a { id = codes "e"; spec = codes "@every 2s" }

abbrev start_world : World MemStore
start_world = world_of (put_job every_job new).0

abbrev real_env : Env
real_env = env_of passes (parse_schedule two_seconds)

abbrev test_server : Server
test_server = record {
  has_scheduler = true;
  version = codes "1.0";
  atoi = λ s. none;
  parse_duration = two_seconds;
}

abbrev options : Options
options = record { tick_interval = pos 1; workers = pos 2; lease = pos 30 }

every_job-IsAlive : IsAlive two_seconds every_job
unfolding parse parse_trimmed trim_right trim_left after_prefix parse_descriptor parse_every str_eq
every_job-IsAlive s e = cc

listed_jobs-IsAlive :
    (js : List Job) → (list_jobs start_world.store).1 ≡ ok js → All (IsAlive two_seconds) js
unfolding list_jobs put_job insert sort_by clone
listed_jobs-IsAlive js e = subst (All (IsAlive two_seconds)) (ok_inj e) (every_job-IsAlive, tt)

empty-AllLater : AllLater []
unfolding lookup
empty-AllLater id sched e = cc

step-FiresAgain_example :
    (u : World MemStore) × (step memory real_env options 26 20 start_world ≡ some u)
step-FiresAgain_example =
    step-FiresAgain memory real_env two_seconds options 25 20 start_world refl empty-AllLater
      listed_jobs-IsAlive (omega arith)

every_job-AllJobs : AllJobs (IsAlive two_seconds) start_world.store
unfolding put_job insert lookup clone
every_job-AllJobs k j e = elim (Bool-cases (str_eq every_job.id k)) [
  | inl same ↦
      subst (IsAlive two_seconds) {x = every_job} {y = j} (ground (arith, e, same))
        every_job-IsAlive
  | inr other ↦ absurd (ground (arith, e, other))
]

start-IsReady : IsReady real_env test_server two_seconds start_world
start-IsReady = record {
  well_formed = step-IsWellFormed new (Call.put every_job) new-IsWellFormed;
  alive = every_job-AllJobs;
  later = empty-AllLater;
}

abbrev busy_row : List Event
busy_row =
    tick 20
    ∷ request 21 (Request.create_job (ok (record every_job { id = codes "f" })))
    ∷ request 22 (Request.trigger_job (codes "f"))
    ∷ tick 24
    ∷ request 25 (Request.delete_job (codes "e"))
    ∷ []

run_events-ends_example :
    (u : World MemStore) × (run_events memory real_env options test_server 26 busy_row start_world
      ≡ some u)
    × IsReady real_env test_server two_seconds u
run_events-ends_example =
    run_events-ends real_env test_server two_seconds refl options 25 busy_row start_world
      (omega arith, (every_job-IsAlive, (tt, (omega arith, (tt, tt))))) start-IsReady

abbrev with_file : Config
with_file = record default { jobs_file = codes "jobs.json" }

-- The file names the first job twice.
abbrev from_file : Str → Result LoadError (List Job)
from_file path = ok (job_a ∷ job_b ∷ record job_a { max_retries = pos 7 } ∷ [])

prepare-lookup_example :
    let (w, result) = prepare memory with_file from_file (world_of new) in
    (result ≡ ok tt)
    × ((id : Str)
        → lookup id w.store.jobs
          ≡ last_with id
              (job_a ∷ job_b ∷ record job_a { max_retries = pos 7 } ∷ [])
              (lookup id (world_of new).store.jobs))
    × (w.store.runs ≡ new.runs)
unfolding str_eq
prepare-lookup_example =
    prepare-lookup with_file from_file (job_a ∷ job_b ∷ record job_a { max_retries = pos 7 } ∷ [])
      (world_of new) refl refl

abbrev no_environment : Str → Str
no_environment name = []

-- The flag of the jobs file is given.
abbrev file_flag : List Str → Config → Result Str Config
file_flag args c = ok (record c { jobs_file = codes "jobs.json" })

abbrev every_file : Str → Result LoadError (List Job)
every_file path = ok (every_job ∷ [])

abbrev no_database : Str → Result Str MemStore
no_database url = err (codes "no database")

start-ends_example :
    (w : World MemStore) × (u : World MemStore) × (start memory no_database every_file
        (load no_environment two_seconds (λ s. none) file_flag (codes "-jobs" ∷ []))
      ≡ ok (on_memory w (scheduler_options with_file)))
    × (run_events memory real_env (scheduler_options with_file) test_server 26 busy_row w ≡ some u)
unfolding load str_eq
start-ends_example =
    start-ends memory no_database every_file no_environment two_seconds (λ s. none) file_flag
      (codes "-jobs" ∷ []) real_env test_server with_file (every_job ∷ []) 25 busy_row refl refl
      refl (inr refl) (every_job-IsAlive, tt)
      (omega arith, (every_job-IsAlive, (tt, (omega arith, (tt, tt)))))

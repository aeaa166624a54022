-- ===== src/System/Startup.antt =====
-- What the jobs file leaves in the in-memory store.
use cronflux.Common.{
  List, [], ◌∷◌, false, Option, some, ◌≡◌, refl, ap, ◌∙◌, Str, str_eq, Result, ok, if◌then◌else◌,
}
use cronflux.Common.Dict.{Dict, lookup, insert, lookup-insert}
use cronflux.Job.{Job, clone}
use cronflux.Store.Memory.{MemStore, memory, put_job}
use cronflux.Scheduler.{World}
use cronflux.Config.{Config}
use cronflux.Config.Jobs.{LoadError}
use cronflux.System.{put_jobs, or_put_error, load_into, prepare}

-- The last job of a row with an ID.
abbrev pub last_with : Str → List Job → Option Job → Option Job
last_with id [] found = found
last_with id (j ∷ js) found = last_with id js (if str_eq j.id id then some j else found)

put_all : List Job → Dict Job → Dict Job
put_all [] m = m
put_all (j ∷ js) m = put_all js (insert j.id j m)

lookup-put_all :
    (id : Str) (js : List Job) (m : Dict Job)
    → lookup id (put_all js m) ≡ last_with id js (lookup id m)
unfolding put_all
lookup-put_all id [] m = refl
lookup-put_all id (j ∷ js) m =
    lookup-put_all id js (insert j.id j m) ∙ ap (last_with id js) (lookup-insert j.id id j m)

-- The world with other jobs.
abbrev with_jobs : World MemStore → Dict Job → World MemStore
with_jobs w m = record w { store = record w.store { jobs = m } }

put_jobs-put_all :
    (js : List Job) (w : World MemStore)
    → put_jobs memory js w ≡ (with_jobs w (put_all js w.store.jobs), ok tt)
unfolding put_jobs put_job clone put_all
put_jobs-put_all [] w = refl
put_jobs-put_all (j ∷ js) w = put_jobs-put_all js (with_jobs w (insert j.id j w.store.jobs))

-- Where a jobs file is configured and LoadJobs accepts it, the startup over the in-memory store
-- succeeds; each ID then stands for the last job of the file with it, and for what it stood for
-- before if the file has none. The runs stay as they were.
pub prepare-lookup :
    (cfg : Config) (load : Str → Result LoadError (List Job)) (jobs : List Job) (w : World MemStore)
    → str_eq cfg.jobs_file [] ≡ false
    → load cfg.jobs_file ≡ ok jobs
    → let (w', result) = prepare memory cfg load w in
      (result ≡ ok tt)
      × ((id : Str) → lookup id w'.store.jobs ≡ last_with id jobs (lookup id w.store.jobs))
      × (w'.store.runs ≡ w.store.runs)
unfolding prepare load_into
prepare-lookup cfg load jobs w given loaded =
    let ended : prepare memory cfg load w ≡ (with_jobs w (put_all jobs w.store.jobs), ok tt) =
      rw (given, loaded, prepare, load_into) (ap (or_put_error memory) (put_jobs-put_all jobs w)) in
    rw ended (refl, λ id. lookup-put_all id jobs w.store.jobs, refl)

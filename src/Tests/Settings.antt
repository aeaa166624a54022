-- ===== src/Tests/Settings.antt =====
-- The configuration and the job file: what is accepted, on small examples.
use cronflux.Common.{
  true, false, ◌≡◌, refl, List, [], ◌∷◌, none, some, Str, codes, pos, Result, ok, str_eq,
}
use cronflux.Common.Dict.{lookup, insert}
use cronflux.Common.Sort.{sort_by}
use cronflux.Scheduler.Loop.{with_defaults}
use cronflux.Config.{Config, default, load, scheduler_options}
use cronflux.Config.Accepted.{IsUsable, load-IsUsable}
use cronflux.Config.Jobs.{JobSpec, job_of, load_jobs}
use cronflux.Config.Jobs.Loaded.{StandFor, load_jobs-StandFor}
use cronflux.Job.{Job}
use cronflux.Job.Graph.{ids, build_graph}
use cronflux.Job.Graph.Edges.{AllDeclared}

-- Only CRONFLUX_WORKERS is set, and no flag is given.
abbrev environment : Str → Str
environment name = elim (str_eq name (codes "CRONFLUX_WORKERS")) [ true ↦ codes "9" | false ↦ [] ]

abbrev nine_workers : Config
nine_workers = record default { workers = pos 9 }

load-IsUsable_example :
    IsUsable nine_workers
    × (with_defaults (scheduler_options nine_workers) ≡ scheduler_options nine_workers)
unfolding load str_eq
load-IsUsable_example =
    load-IsUsable environment (λ s. none) (λ s. some (pos 9)) (λ args c. ok c) [] nine_workers refl

abbrev first_spec : JobSpec
first_spec = record {
  id = codes "a";
  name = codes "first";
  spec = codes "@daily";
  command = [];
  max_retries = pos 1;
  backoff = record { base = codes "1s"; max = []; factor = 2; jitter = 0 };
  depends_on = [];
  timeout = [];
  enabled = none;
}

abbrev second_spec : JobSpec
second_spec = record first_spec { id = codes "b"; depends_on = codes "a" ∷ [] }

abbrev spec_jobs : List Job
spec_jobs =
    job_of (λ s. some (pos 7)) first_spec (pos 0) (pos 7) (pos 0)
    ∷ job_of (λ s. some (pos 7)) second_spec (pos 0) (pos 7) (pos 0)
    ∷ []

abbrev read_both : Str → Result Str (List JobSpec)
read_both path = ok (first_spec ∷ second_spec ∷ [])

load_jobs-StandFor_example :
    (specs : List JobSpec) × (read_both (codes "jobs.json") ≡ ok specs)
    × StandFor (λ s. some (pos 7)) spec_jobs specs
    × AllDeclared (ids spec_jobs) spec_jobs
unfolding load_jobs build_graph insert lookup str_eq sort_by
load_jobs-StandFor_example =
    load_jobs-StandFor (λ s. some (pos 7)) read_both (codes "jobs.json") spec_jobs refl

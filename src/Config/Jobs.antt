-- ===== src/Config/Jobs.antt =====
-- internal/config/jobs.go: the job file. Reading and decoding the file are an argument, which gives
-- the specs or an error's message; so is time.ParseDuration.
pub mod Loaded
use cronflux.Common.{
  ℕ, suc, ◌+◌, List, [], ◌∷◌, Bool, true, Option, none, some, Str, str_eq, ℤ, pos, Duration, Result,
  ok, err, if◌then◌else◌, ◌>>=◌,
}
use cronflux.Job.{Job, RetryPolicy, Float64}
use cronflux.Job.Graph.{GraphError, build_graph}

pub record BackoffSpec : Type 0 where
  pub base : Str
  pub max : Str
  pub factor : Float64
  pub jitter : Float64

pub record JobSpec : Type 0 where
  pub id : Str
  pub name : Str
  pub spec : Str
  pub command : List Str
  pub max_retries : ℤ
  pub backoff : BackoffSpec
  pub depends_on : List Str
  pub timeout : Str
  pub enabled : Option Bool

pub data SpecError : Type 0 where
  id_required : SpecError
  bad_timeout bad_base bad_max : Str → SpecError

pub data LoadError : Type 0 where
  bad_file : Str → LoadError
  bad_job : ℕ → Str → SpecError → LoadError
  bad_graph : GraphError → LoadError

module _ (parse_duration : Str → Option Duration) where
  -- `parseOptionalDuration`, with the error that its caller wraps around it.
  unfoldable pub parse_optional : (Str → SpecError) → Str → Result SpecError Duration
  unfolding str_eq
  parse_optional wrap s =
      if str_eq s []
      then ok (pos 0)
      else elim (parse_duration s) [ none ↦ err (wrap s) | some d ↦ ok d ]

  -- The job at the end of `toJob`.
  abbrev pub job_of : JobSpec → Duration → Duration → Duration → Job
  job_of s timeout base max_delay = record {
    id = s.id;
    name = s.name;
    spec = s.spec;
    command = s.command;
    max_retries = s.max_retries;
    backoff = record {
      base = base;
      max = max_delay;
      factor = s.backoff.factor;
      jitter = s.backoff.jitter;
    };
    depends_on = s.depends_on;
    timeout = timeout;
    enabled = elim s.enabled [ none ↦ true | some b ↦ b ];
    created_at = 0;
    updated_at = 0;
  }

  -- The three durations, and the job with them.
  abbrev pub timed_job : JobSpec → Result SpecError Job
  timed_job s = parse_optional bad_timeout s.timeout >>= λ timeout.
      parse_optional bad_base s.backoff.base >>= λ base.
      parse_optional bad_max s.backoff.max >>= λ max_delay. ok (job_of s timeout base max_delay)

  unfoldable pub to_job : JobSpec → Result SpecError Job
  unfolding parse_optional
  to_job s = if str_eq s.id [] then err id_required else timed_job s

  -- The loop of `LoadJobs`, from the spec number `i` on.
  unfoldable pub to_jobs : ℕ → List JobSpec → Result LoadError (List Job)
  unfolding to_job
  to_jobs i [] = ok []
  to_jobs i (s ∷ specs) = elim (to_job s) [
    | err e ↦ err (bad_job i s.id e)
    | ok j ↦ to_jobs (i + 1) specs >>= λ jobs. ok (j ∷ jobs)
  ]

  unfoldable pub load_jobs : (Str → Result Str (List JobSpec)) → Str → Result LoadError (List Job)
  unfolding to_jobs build_graph
  load_jobs read path = elim (read path) [
    | err e ↦ err (bad_file e)
    | ok specs ↦ to_jobs 0 specs >>= λ jobs. elim (build_graph jobs) [
      | err e ↦ err (bad_graph e)
      | ok g ↦ ok jobs
    ]
  ]

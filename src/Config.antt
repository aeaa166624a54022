-- ===== src/Config.antt =====
-- internal/config: the runtime configuration, from defaults, the environment and flags, and its
-- checks. The environment, time.ParseDuration, strconv.Atoi and the flag package are arguments.
pub mod Jobs
pub mod Accepted
use cronflux.Common.{
  ℕ, ◌*◌, List, [], Bool, not, Option, none, some, Str, codes, str_eq, ℤ, pos, ltb_ℤ, Duration,
  second, Result, ok, err, if◌then◌else◌, ◌>>=◌,
}
use cronflux.Scheduler.Loop.{Options}

pub record Config : Type 0 where
  pub listen_addr : Str
  pub backend : Str
  pub database_url : Str
  pub tick_interval : Duration
  pub workers : ℤ
  pub lease_duration : Duration
  pub jobs_file : Str
  pub log_level : Str

abbrev pub backend_memory : Str
backend_memory = codes "memory"

abbrev pub backend_postgres : Str
backend_postgres = codes "postgres"

-- `Default`
abbrev pub default : Config
default = record {
  listen_addr = codes ":8080";
  backend = backend_memory;
  database_url = [];
  tick_interval = pos second;
  workers = pos 4;
  lease_duration = pos (30 * second);
  jobs_file = [];
  log_level = codes "info";
}

pub data ConfigError : Type 0 where
  url_required unknown_backend : Str → ConfigError
  few_workers : ℤ → ConfigError
  bad_tick bad_lease : Duration → ConfigError
  bad_flags : Str → ConfigError

-- The `switch` at the head of `Validate`.
unfoldable pub check_backend : Config → Result ConfigError (Unit {0})
unfolding str_eq
check_backend c =
    if str_eq c.backend backend_memory
    then ok tt
    else if str_eq c.backend backend_postgres
    then (if str_eq c.database_url [] then err (url_required c.backend) else ok tt)
    else err (unknown_backend c.backend)

-- The three checks after it.
unfoldable pub check_numbers : Config → Result ConfigError (Unit {0})
check_numbers c =
    if ltb_ℤ c.workers (pos 1)
    then err (few_workers c.workers)
    else if not (ltb_ℤ (pos 0) c.tick_interval)
    then err (bad_tick c.tick_interval)
    else if not (ltb_ℤ (pos 0) c.lease_duration)
    then err (bad_lease c.lease_duration)
    else ok tt

unfoldable pub validate : Config → Result ConfigError (Unit {0})
unfolding check_backend check_numbers
validate c = check_backend c >>= λ _. check_numbers c

-- A value of the environment over the one that stands: an unset or empty variable changes nothing.
abbrev pub or_text : Str → Str → Str
or_text v base = if str_eq v [] then base else v

-- A value that is parsed first: one that does not parse changes nothing either.
abbrev pub or_parsed : (Str → Option ℤ) → Str → ℤ → ℤ
or_parsed parse_value v base =
    if str_eq v [] then base else elim (parse_value v) [ none ↦ base | some d ↦ d ]

module _ (getenv : Str → Str) (parse_duration : Str → Option Duration) (atoi : Str → Option ℤ) where
  unfoldable pub from_env : Config → Config
  from_env base = record {
    listen_addr = or_text (getenv (codes "CRONFLUX_ADDR")) base.listen_addr;
    backend = or_text (getenv (codes "CRONFLUX_STORE")) base.backend;
    database_url = or_text (getenv (codes "CRONFLUX_DATABASE_URL")) base.database_url;
    tick_interval = or_parsed parse_duration (getenv (codes "CRONFLUX_TICK")) base.tick_interval;
    workers = or_parsed atoi (getenv (codes "CRONFLUX_WORKERS")) base.workers;
    lease_duration = or_parsed parse_duration (getenv (codes "CRONFLUX_LEASE")) base.lease_duration;
    jobs_file = or_text (getenv (codes "CRONFLUX_JOBS")) base.jobs_file;
    log_level = or_text (getenv (codes "CRONFLUX_LOG_LEVEL")) base.log_level;
  }

  -- `Load`. The eight flags have the values so far as their defaults: `parse_flags` maps those to
  -- the values after the arguments, or to the message of an error.
  unfoldable pub load :
      (parse_flags : List Str → Config → Result Str Config) → List Str → Result ConfigError Config
  unfolding from_env validate
  load parse_flags args = elim (parse_flags args (from_env default)) [
    | err e ↦ err (bad_flags e)
    | ok c ↦ elim (validate c) [ err e ↦ err e | ok _ ↦ ok c ]
  ]

-- The options that the command gives to the scheduler.
abbrev pub scheduler_options : Config → Options
scheduler_options c = record {
  tick_interval = c.tick_interval;
  workers = c.workers;
  lease = c.lease_duration;
}

-- ===== src/System/Command.antt =====
-- cmd/cronflux/main.go: what the command does before its goroutines start, and the log level. The
-- database of the durable backend, its store and the answers of Load and LoadJobs are arguments.
use cronflux.Common.{
  List, [], ◌∷◌, Bool, false, Str, codes, str_eq, Result, ok, err, if◌then◌else◌, ◌||◌,
}
use cronflux.Job.{Job}
use cronflux.Store.{Store}
use cronflux.Store.Memory.{MemStore, memory, new}
use cronflux.Config.{Config, ConfigError, backend_memory, backend_postgres, scheduler_options}
use cronflux.Config.Jobs.{LoadError}
use cronflux.Scheduler.{World}
use cronflux.Scheduler.Loop.{Options, with_defaults}
use cronflux.System.{StartError, prepare}

-- `main`: whether the arguments, without the program's name, ask for the version.
unfoldable pub asks_version : List Str → Bool
asks_version [] = false
asks_version (a ∷ args) =
    str_eq a (codes "--version") || (str_eq a (codes "-version") || str_eq a (codes "version"))

pub data Level : Type 0 where
  debug info warn error : Level

-- `newLogger`
unfoldable pub log_level : Str → Level
log_level level =
    if str_eq level (codes "debug")
    then debug
    else if str_eq level (codes "warn")
    then warn
    else if str_eq level (codes "error")
    then error
    else info

-- The errors of `run` up to the start of the goroutines.
pub data RunError : Type 0 where
  of_config : ConfigError → RunError
  of_open : Str → RunError
  unknown_backend : Str → RunError
  of_start : StartError → RunError

-- The backend that `openStore` opened.
pub data Opened (D : Type 0) : Type 0 where
  in_memory : MemStore → Opened D
  durable : D → Opened D

-- `openStore`
unfoldable pub open_store :
    {D : Type 0} → (Str → Result Str D) → Config → Result RunError (Opened D)
open_store open_database cfg =
    if str_eq cfg.backend backend_memory
    then ok (in_memory new)
    else if str_eq cfg.backend backend_postgres
    then elim (open_database cfg.database_url) [ err e ↦ err (of_open e) | ok d ↦ ok (durable d) ]
    else err (unknown_backend cfg.backend)

-- What `run` hands to its goroutines: the world that the scheduler and the server share, and the
-- options that the scheduler works with.
pub data Running (D : Type 0) : Type 0 where
  on_memory : World MemStore → Options → Running D
  on_database : World D → Options → Running D

-- The world of a new scheduler.
abbrev pub new_world : {S : Type 0} → S → World S
new_world s = record {
  store = s;
  ids = 0;
  readings = 0;
  executions = 0;
  randoms = 0;
  metrics = [];
  next_fire = [];
  parsed = [];
}

-- The end of `run`'s setup over a backend.
abbrev pub finish :
    {S D : Type 0}
    → (World S → Options → Running D)
    → Config
    → World S × Result StartError (Unit {0})
    → Result RunError (Running D)
finish make cfg (w, err e) = err (of_start e)
finish make cfg (w, ok u) = ok (make w (with_defaults (scheduler_options cfg)))

-- `run`, up to the start of its goroutines.
unfoldable pub start :
    {D : Type 0}
    → Store D
    → (Str → Result Str D)
    → (Str → Result LoadError (List Job))
    → Result ConfigError Config
    → Result RunError (Running D)
unfolding open_store prepare
start api open_database load_jobs (err e) = err (of_config e)
start api open_database load_jobs (ok cfg) = elim (open_store open_database cfg) [
  | err e ↦ err e
  | ok (in_memory s) ↦ finish on_memory cfg (prepare memory cfg load_jobs (new_world s))
  | ok (durable d) ↦ finish on_database cfg (prepare api cfg load_jobs (new_world d))
]

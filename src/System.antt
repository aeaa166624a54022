-- ===== src/System.antt =====
-- cmd/cronflux/main.go: the jobs file is loaded into the store, and then the scheduler's loop (`Run`
-- of internal/scheduler/scheduler.go) and the HTTP server work on that store. An event is one tick of
-- the loop or one request; each runs to its end before the next one begins, which is one of the
-- orders that the two goroutines may take.
pub mod Startup
pub mod Events
pub mod Ready
pub mod Ends
pub mod Command
pub mod Boot
use cronflux.Common.{
  ℕ, List, [], ◌∷◌, Option, none, some, Str, str_eq, Time, Result, ok, err, if◌then◌else◌,
}
use cronflux.Job.{Job}
use cronflux.Store.{Store, StoreError}
use cronflux.Config.{Config}
use cronflux.Config.Jobs.{LoadError}
use cronflux.Scheduler.{Env, World, Action, call, pure, ◌>>=◌, ◌>>◌}
use cronflux.Scheduler.Loop.{Options, step}
use cronflux.Api.{Server, Request, serve}

pub data StartError : Type 0 where
  of_load : LoadError → StartError
  of_put : StoreError → StartError

pub data Event : Type 0 where
  tick : Time → Event
  request : Time → Request → Event

module _ {S : Type 0} (api : Store S) where
  -- The loop of `loadJobs`.
  unfoldable pub put_jobs : List Job → Action S (Unit {0})
  put_jobs [] = pure tt
  put_jobs (j ∷ js) = do call (api.put_job j); put_jobs js

  abbrev pub or_put_error :
      World S × Result StoreError (Unit {0}) → World S × Result StartError (Unit {0})
  or_put_error (w, err e) = (w, err (of_put e))
  or_put_error (w, ok u) = (w, ok u)

  -- `loadJobs`, by what `config.LoadJobs` answers for a path.
  unfoldable pub load_into :
      (Str → Result LoadError (List Job)) → Str → World S → World S × Result StartError (Unit {0})
  unfolding put_jobs
  load_into load path w = elim (load path) [
    | err e ↦ (w, err (of_load e))
    | ok jobs ↦ or_put_error (put_jobs jobs w)
  ]

  -- What `run` does with the store before the scheduler and the server start.
  unfoldable pub prepare :
      Config
      → (Str → Result LoadError (List Job))
      → World S
      → World S × Result StartError (Unit {0})
  unfolding load_into
  prepare cfg load w =
      if str_eq cfg.jobs_file [] then (w, ok tt) else load_into load cfg.jobs_file w

  -- The events of a running system; `none` means that the fuel of a tick ran out.
  unfoldable pub run_events : Env → Options → Server → ℕ → List Event → World S → Option (World S)
  unfolding step serve
  run_events env opts server fuel [] w = some w
  run_events env opts server fuel (tick now ∷ es) w = elim (step api env opts fuel now w) [
    | none ↦ none
    | some w' ↦ run_events env opts server fuel es w'
  ]
  run_events env opts server fuel (request now r ∷ es) w =
      run_events env opts server fuel es (serve api env server now r w).0

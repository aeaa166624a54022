-- ===== src/Tests/Requests.antt =====
-- The theorems on the HTTP interface, on the shared store.
use cronflux.Common.{List, pos, ◌≡◌, refl, [], ◌∷◌, true, none, codes, ok, str_eq, arith}
use cronflux.Common.Dict.{lookup}
use cronflux.Job.{Job}
use cronflux.Store.Memory.{MemStore, memory, new}
use cronflux.Store.Memory.Invariant.{new-IsWellFormed}
use cronflux.Scheduler.{World}
use cronflux.Cron.Field.{
  parse_field, parse_terms, parse_term, term_step, split_on, term_range, term_mask,
}
use cronflux.Cron.Spec.{
  parse, parse_trimmed, trim_right, trim_left, after_prefix, parse_descriptor, parse_fields, fields,
  words_from, parse_six,
}
use cronflux.Api.{Server, Request, job, write_json, stamp_job, check_job, serve, handle_create_job}
use cronflux.Api.Effects.{serve-refused}
use cronflux.Api.Stored.{AllVetted}
use cronflux.System.{Event, tick, request, run_events}
use cronflux.System.Events.{IsSoundEnd, run_events-IsSoundEnd}
use cronflux.Scheduler.Loop.{Options}
use cronflux.Api.Exchange.{shown, create_job-get_job}
use cronflux.Tests.Fixtures.{stored, job_a, env, passes, world_of}

abbrev server : Server
server = record {
  has_scheduler = true;
  version = codes "dev";
  atoi = λ s. none;
  parse_duration = λ s. none;
}

abbrev options : Options
options = record { tick_interval = pos 1; workers = pos 2; lease = pos 30 }

abbrev before : World MemStore
before = world_of stored

abbrev daily_job : Job
daily_job = record job_a { id = codes "d"; spec = codes "@daily"; created_at = 0 }

create_job-get_job_example :
    let (after, answer) =
      serve memory (env passes) server 60 (Request.create_job (ok daily_job)) before in
    (answer ≡ write_json 201 (job (stamp_job 60 daily_job)))
    × (shown (env passes) server (codes "d") after ≡ write_json 200 (job (stamp_job 60 daily_job)))
    × (shown (env passes) server (codes "a") after ≡ shown (env passes) server (codes "a") before)
unfolding check_job parse str_eq lookup parse_trimmed trim_right trim_left after_prefix
    parse_descriptor parse_fields fields words_from parse_six parse_field parse_terms parse_term
    term_step split_on term_range term_mask
create_job-get_job_example =
    create_job-get_job (env passes) server 60 (ok daily_job) daily_job (codes "a") before refl refl

-- A job whose expression has one field only.
abbrev short_job : Job
short_job = record job_a { id = codes "d"; spec = codes "5" }

serve-refused_example :
    (serve memory (env passes) server 60 (Request.create_job (ok short_job)) before).0.store
    ≡ stored
unfolding serve handle_create_job check_job parse str_eq lookup parse_trimmed trim_right trim_left
    after_prefix parse_fields fields words_from
serve-refused_example =
    serve-refused (env passes) server 60 (Request.create_job (ok short_job)) before (omega arith)

new-AllVetted : AllVetted (env passes) server new
unfolding lookup
new-AllVetted k j e = cc

abbrev posted_then_ticked : List Event
posted_then_ticked =
    request 60 (Request.create_job (ok daily_job))
    ∷ tick 61
    ∷ request 62 (Request.trigger_job (codes "d"))
    ∷ tick 63
    ∷ []

run_events-IsSoundEnd_example :
    IsSoundEnd
      (env passes)
      server
      (run_events memory (env passes) options server 9 posted_then_ticked (world_of new))
run_events-IsSoundEnd_example =
    run_events-IsSoundEnd (env passes) server options 9 posted_then_ticked (world_of new)
      new-IsWellFormed new-AllVetted

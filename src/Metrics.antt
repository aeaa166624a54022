-- ===== src/Metrics.antt =====
-- internal/metrics/metrics.go: what the collectors hold after the calls that the scheduler made. The
-- client library's vectors are functions of the labels; a duration is observed in nanoseconds, not in
-- seconds.
use cronflux.Common.{
  ℕ, ◌+◌, ◌≡◌, refl, List, [], ◌∷◌, ◌&&◌, Str, str_eq, pos, Duration, length, arith, Bool-cases,
  inl, inr, if◌then◌else◌,
}
use cronflux.Job.{RunState, pending, running, succeeded, failed, dead, skipped, state_eq}
use cronflux.Scheduler.{Metric, observe_run, inc_retry, tick, set_pending, set_lag}

pub record Metrics : Type 0 where
  pub runs_total : Str → RunState → ℕ
  pub retries_total : Str → ℕ
  pub run_duration : Str → List Duration
  pub ticks_total : ℕ
  pub pending_runs : ℕ
  pub scheduler_lag : Duration

-- `New`
abbrev pub new_metrics : Metrics
new_metrics = record {
  runs_total = λ job state. 0;
  retries_total = λ job. 0;
  run_duration = λ job. [];
  ticks_total = 0;
  pending_runs = 0;
  scheduler_lag = pos 0;
}

-- `ObserveRun`
unfoldable pub on_observe_run : Str → RunState → Duration → Metrics → Metrics
on_observe_run id state dur m = record m {
  runs_total = λ job s.
      if str_eq job id && state_eq s state then m.runs_total job s + 1 else m.runs_total job s;
  run_duration = λ job. if str_eq job id then dur ∷ m.run_duration job else m.run_duration job;
}

-- `IncRetry`
unfoldable pub on_inc_retry : Str → Metrics → Metrics
on_inc_retry id m = record m {
  retries_total = λ job. if str_eq job id then m.retries_total job + 1 else m.retries_total job;
}

-- A call of one of the methods.
unfoldable pub apply : Metric → Metrics → Metrics
unfolding on_observe_run on_inc_retry
apply (observe_run id state dur) m = on_observe_run id state dur m
apply (inc_retry id) m = on_inc_retry id m
apply tick m = record m { ticks_total = m.ticks_total + 1 }
apply (set_pending n) m = record m { pending_runs = n }
apply (set_lag d) m = record m { scheduler_lag = d }

-- The collectors after the calls, of which the newest comes first.
unfoldable pub collect : List Metric → Metrics
unfolding apply
collect [] = new_metrics
collect (c ∷ cs) = apply c (collect cs)

-- The runs of a job that were counted, over all the states.
abbrev pub runs_of_job : Metrics → Str → ℕ
runs_of_job m job =
    m.runs_total job pending
    + m.runs_total job running
    + m.runs_total job succeeded
    + m.runs_total job failed
    + m.runs_total job dead
    + m.runs_total job skipped

-- One observation of a run adds one to the job's counters and one to its durations.
on_observe_run_adds_up :
    (id : Str) (state : RunState) (dur : Duration) (m : Metrics) (job : Str)
    → runs_of_job m job ≡ length (m.run_duration job)
    → runs_of_job (on_observe_run id state dur m) job
      ≡ length ((on_observe_run id state dur m).run_duration job)
unfolding on_observe_run
on_observe_run_adds_up id pending dur m job h = elim (Bool-cases (str_eq job id)) [
  | inl e ↦ rw e (omega (arith, h))
  | inr e ↦ rw e h
]
on_observe_run_adds_up id running dur m job h = elim (Bool-cases (str_eq job id)) [
  | inl e ↦ rw e (omega (arith, h))
  | inr e ↦ rw e h
]
on_observe_run_adds_up id succeeded dur m job h = elim (Bool-cases (str_eq job id)) [
  | inl e ↦ rw e (omega (arith, h))
  | inr e ↦ rw e h
]
on_observe_run_adds_up id failed dur m job h = elim (Bool-cases (str_eq job id)) [
  | inl e ↦ rw e (omega (arith, h))
  | inr e ↦ rw e h
]
on_observe_run_adds_up id dead dur m job h = elim (Bool-cases (str_eq job id)) [
  | inl e ↦ rw e (omega (arith, h))
  | inr e ↦ rw e h
]
on_observe_run_adds_up id skipped dur m job h = elim (Bool-cases (str_eq job id)) [
  | inl e ↦ rw e (omega (arith, h))
  | inr e ↦ rw e h
]

-- After any calls, a job's counters over all the states add up to the number of durations that were
-- observed for the job.
collect_adds_up :
    (cs : List Metric) (job : Str)
    → runs_of_job (collect cs) job ≡ length ((collect cs).run_duration job)
unfolding collect apply on_observe_run on_inc_retry
collect_adds_up [] job = refl
collect_adds_up (observe_run id state dur ∷ cs) job =
    on_observe_run_adds_up id state dur (collect cs) job (collect_adds_up cs job)
collect_adds_up (inc_retry id ∷ cs) job = collect_adds_up cs job
collect_adds_up (tick ∷ cs) job = collect_adds_up cs job
collect_adds_up (set_pending n ∷ cs) job = collect_adds_up cs job
collect_adds_up (set_lag d ∷ cs) job = collect_adds_up cs job

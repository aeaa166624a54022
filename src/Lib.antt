-- ===== src/Lib.antt =====
-- A verification library for cronflux, a job scheduler with cron expressions and dependent jobs.
--
-- The program: a store keeps jobs and their runs (internal/store, with the in-memory backend of
-- internal/store/memory). Each tick of the scheduler's loop (internal/scheduler) lets a dispatcher
-- create the pending runs whose fire time has come, claims the due runs under a lease, lets workers
-- execute them, and creates the runs of the jobs that depend on the ones that succeeded. A worker
-- retries a failed run with the delay of backoff. The expressions are parsed by cron. The
-- dependencies form the graph of internal/job/dag.go.
--
-- The files:
--   Common          numbers, texts, lists, maps, sorting and bits, which all the parts share
--   Job             internal/job/job.go, run.go, state.go: Job, Run, RunState, Clone, Valid
--   Job/Graph       internal/job/dag.go: AddNode, AddEdge, TopoSort, BuildGraph
--   Store           internal/store/store.go: the contract, as a record over the type of the state
--   Store/Memory    internal/store/memory/memory.go: each method as a function of its maps
--   Store/Postgres  internal/store/postgres/postgres.go: each method over the database
--   Store/Suite     internal/store/storetest/suite.go: the conformance suite of the backends
--   Backoff         backoff/backoff.go: Exponential.Delay
--   Clock           internal/clock/clock.go: the mock clock
--   Metrics         internal/metrics/metrics.go: the collectors after the scheduler's calls
--   Scheduler       the state of one scheduler and what it asks of its surroundings
--   Scheduler/Worker      internal/scheduler/worker.go: process, scheduleRetry
--   Scheduler/Dispatcher  internal/scheduler/dispatcher.go: dispatch, enqueueRoot, enqueueDependents
--   Scheduler/Loop        internal/scheduler/scheduler.go: New, step, drain, Trigger, publishBacklog
--   Scheduler/Pool        internal/scheduler/scheduler.go: the goroutines of drain, call by call
--   Cron/Field      cron/bounds.go, names.go, field.go: the masks of the fields
--   Cron/Every      cron/constant.go: schedules of a constant delay
--   Cron/Spec       cron/parser.go and the day rule of cron/spec.go
--   Cron/Calendar   what cron/spec.go asks of the package time: months, days and clock readings in UTC
--   Cron/Next       cron/spec.go: SpecSchedule.Next
--   Config          internal/config/config.go and load.go: Default, Validate, FromEnv, Load
--   Config/Jobs     internal/config/jobs.go: LoadJobs, toJob
--   Api             internal/api/jobs.go, runs.go, health.go and the answers of server.go
--   Examples        examples/inmemory-dag/main.go: three jobs in a row on the in-memory backend
--   System          cmd/cronflux/main.go: loadJobs, and the scheduler and the server on one store
--   System/Command  cmd/cronflux/main.go: main, run up to its goroutines, openStore, newLogger
--   Tests           examples, on which each theorem is applied
-- The children of a file hold what is proved of it.
--
-- Conventions: a method of the store maps its state to the new state with a result, since one mutex
-- makes each of them one step; the scheduler runs over any backend of the contract. A map is an
-- association list; where Go walks a map in any order, the model walks its list, and the sort that
-- follows in the source hides it. A time is the number of nanoseconds since Go's zero time, and a
-- time before it is not represented; a sum of a time and a duration does not overflow. A text is a
-- list of bytes, and letters and white space are those of ASCII. A uint64 wraps where the source's
-- arithmetic can.
--
-- Fuel: the catch-up loop of the dispatcher takes fuel, and both that enough of it is given and that
-- it may never be are proved. The loop that sets the bits of a mask takes 64 rounds: a round that
-- starts above bit 63 ends it, and the counter falls only if the step wraps. The topological sort
-- takes as many rounds as there are nodes, since each takes another node off the queue. Each loop of
-- Next wraps within 12 months, 31 days, 24 hours, 60 minutes or 60 seconds; each wrap moves the time
-- by a second at least, and the search is given more rounds than there are seconds before its limit.
--
-- Parameters: the IDs, the clock, the executor's outcomes, the random numbers and the operations
-- of float64 are the environment `Env`; time.ParseDuration, strconv.Atoi, the process's
-- environment, the flag package, the decoded job file and, of an HTTP request, its path value, its
-- query and its decoded body are arguments, and so are the database of the durable backend and its
-- JSON codec.
--
-- The goroutines of drain are modelled twice: one after another in the order of the claim, for what
-- a whole pass does to the world, and call by call in any order under the semaphore and the mutex
-- (Scheduler/Pool), where a schedule chooses who goes on.
--
-- Not modelled: locations other than UTC; requests that come while a tick runs, which the running
-- system handles between two ticks; the ticker, logging and contexts other than the outcome of an
-- execution; the SQL statements, which the database runs; the HTTP server around the handlers, with
-- its routing, encoding, start and shutdown; the registration of the metrics and their histograms'
-- buckets; the executor of shell commands; the examples that print fire times and delays.
pub mod Common
pub mod Job
pub mod Store
pub mod Backoff
pub mod Clock
pub mod Metrics
pub mod Scheduler
pub mod Cron
pub mod Config
pub mod Tests
pub mod Api
pub mod System
pub mod Examples

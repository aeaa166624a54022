-- ===== src/Store/Memory.antt =====
-- internal/store/memory/memory.go: the in-memory backend. Every method holds the one mutex from its
-- first line to its return, so a method is one step. The maps are walked in the order of their
-- association lists; the sort that follows each walk hides that order.
pub mod Invariant
pub mod Claim
pub mod Listing
pub mod Inventory
pub mod Refinement
use cronflux.Common.{
  ℕ, ◌≤◌, List, [], ◌∷◌, map, Bool, true, false, not, ◌&&◌, ◌||◌, Option, none, some, Str, str_eq,
  str_lt, ℤ, pos, pos_part, Time, Duration, add_time, Result, ok, err, ltb, leb, ◌==◌, ltb_ℤ,
  if◌then◌else◌, length, filter, take, drop,
}
use cronflux.Common.Dict.{Dict, lookup, insert, erase, values}
use cronflux.Common.Sort.{sort_by}
use cronflux.Job.{Job, Run, RunState, pending, running, state_name, state_eq, clone}
use cronflux.Store.{StoreError, not_found, RunFilter, Method, Store}

pub record MemStore : Type 0 where
  pub jobs : Dict Job
  pub runs : Dict Run

-- `New`
abbrev pub new : MemStore
new = record { jobs = []; runs = [] }

unfoldable pub put_job : Job → Method MemStore (Unit {0})
put_job j s = (record s { jobs = insert j.id (clone j) s.jobs }, ok tt)

unfoldable pub get_job : Str → Method MemStore Job
get_job id s = elim (lookup id s.jobs) [ none ↦ (s, err not_found) | some j ↦ (s, ok (clone j)) ]

-- The less function of `ListJobs`.
abbrev pub job_less : Job → Job → Bool
job_less i k = str_lt i.id k.id

unfoldable pub list_jobs : Method MemStore (List Job)
list_jobs s = (s, ok (sort_by job_less (map clone (values s.jobs))))

unfoldable pub delete_job : Str → Method MemStore (Unit {0})
delete_job id s = elim (lookup id s.jobs) [
  | none ↦ (s, err not_found)
  | some j ↦ (record s { jobs = erase id s.jobs }, ok tt)
]

unfoldable pub create_run : Run → Method MemStore (Unit {0})
create_run r s = (record s { runs = insert r.id r s.runs }, ok tt)

unfoldable pub get_run : Str → Method MemStore Run
get_run id s = elim (lookup id s.runs) [ none ↦ (s, err not_found) | some r ↦ (s, ok r) ]

unfoldable pub update_run : Run → Method MemStore (Unit {0})
update_run r s = elim (lookup r.id s.runs) [
  | none ↦ (s, err not_found)
  | some old ↦ (record s { runs = insert r.id r s.runs }, ok tt)
]

-- One condition of the filter: `want != "" && got != want` skips the run.
abbrev pub field_matches : Str → Str → Bool
field_matches want got = str_eq want [] || str_eq got want

abbrev pub matches : RunFilter → Run → Bool
matches f r =
    field_matches f.job_id r.job_id
    && (field_matches f.batch_id r.batch_id && field_matches f.state (state_name r.state))

-- The less function of `ListRuns`: newest first, and by descending ID at equal times.
abbrev pub newer : Run → Run → Bool
newer i k =
    if not (i.created_at == k.created_at) then ltb k.created_at i.created_at else str_lt k.id i.id

-- `Offset`, then `Limit`.
unfoldable pub page : ℤ → ℤ → List Run → List Run
page offset limit out =
    if ltb_ℤ (pos 0) offset && leb (length out) (pos_part offset)
    then []
    else let rest = if ltb_ℤ (pos 0) offset then drop (pos_part offset) out else out in
      if ltb_ℤ (pos 0) limit && ltb (pos_part limit) (length rest)
      then take (pos_part limit) rest
      else rest

unfoldable pub list_runs : RunFilter → Method MemStore (List Run)
list_runs f s = (s, ok (page f.offset f.limit (sort_by newer (filter (matches f) (values s.runs)))))

-- The `switch` of `ClaimDue`: a due pending run, or a running run whose lease is over.
abbrev pub is_ready : Time → Run → Bool
is_ready now r =
    (state_eq r.state pending && leb r.scheduled_for now)
    || (state_eq r.state running && ltb r.lease_expiry now)

-- The less function of `ClaimDue`: by scheduled time, and by ID at equal times.
abbrev pub earlier : Run → Run → Bool
earlier i k =
    if not (i.scheduled_for == k.scheduled_for)
    then ltb i.scheduled_for k.scheduled_for
    else str_lt i.id k.id

abbrev pub or_time : Option Time → Time → Option Time
or_time none now = some now
or_time (some t) now = some t

-- The body of the claiming loop, without the write to the map.
abbrev pub stamp : Time → Str → Duration → Run → Run
stamp now worker lease r = record r {
  state = running;
  worker = worker;
  lease_expiry = add_time now lease;
  started_at = or_time r.started_at now;
  updated_at = now;
}

-- The runs that a call of `ClaimDue` takes, before it stamps them.
unfoldable pub ready_runs : Time → ℤ → Dict Run → List Run
ready_runs now limit runs =
    let ready = sort_by earlier (filter (is_ready now) (values runs)) in
    if ltb_ℤ (pos 0) limit && ltb (pos_part limit) (length ready)
    then take (pos_part limit) ready
    else ready

-- The writes of the claiming loop, in its order.
unfoldable pub write_runs : List Run → Dict Run → Dict Run
write_runs [] m = m
write_runs (r ∷ rs) m = write_runs rs (insert r.id r m)

unfoldable pub claim_due : Time → Str → Duration → ℤ → Method MemStore (List Run)
unfolding ready_runs write_runs
claim_due now worker lease limit s =
    let claimed = map (stamp now worker lease) (ready_runs now limit s.runs) in
    (record s { runs = write_runs claimed s.runs }, ok claimed)

-- The backend as an implementation of the contract.
abbrev pub memory : Store MemStore
memory = record {
  put_job = put_job;
  get_job = get_job;
  list_jobs = list_jobs;
  delete_job = delete_job;
  create_run = create_run;
  get_run = get_run;
  update_run = update_run;
  list_runs = list_runs;
  claim_due = claim_due;
}

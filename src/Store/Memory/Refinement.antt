-- ===== src/Store/Memory/Refinement.antt =====
-- The calls of internal/store/memory/memory.go that read and write one entry, against the plain
-- specification of a store: two finite maps from IDs, with no order and no layout.
use mathlib.Core.Path.{fun_ext}
use cronflux.Common.{
  ◌≡◌, refl, ap, List, [], ◌∷◌, Option, none, some, Str, str_eq, Result, ok, err, arith,
  if◌then◌else◌, Option-cases, inl, inr,
}
use cronflux.Common.Dict.{lookup, lookup-insert, lookup-erase}
use cronflux.Job.{Job, Run, clone}
use cronflux.Store.{StoreError, not_found, failure}
use cronflux.Store.Memory.{
  MemStore, new, put_job, get_job, delete_job, create_run, get_run, update_run,
}
use cronflux.Store.Memory.Invariant.{IsWellFormed, step-IsWellFormed, new-IsWellFormed, Call}

pub record View : Type 0 where
  pub jobs : Str → Option Job
  pub runs : Str → Option Run

abbrev pub view : MemStore → View
view s = record { jobs = λ id. lookup id s.jobs; runs = λ id. lookup id s.runs }

pub data Op : Type 0 where
  puts : Job → Op
  gets deletes : Str → Op
  creates : Run → Op
  reads : Str → Op
  updates : Run → Op

pub data Reply : Type 0 where
  done missing : Reply
  found_job : Job → Reply
  found_run : Run → Reply
  broken : Str → Reply

abbrev reply : {A : Type 0} → (A → Reply) → Result StoreError A → Reply
reply f (ok a) = f a
reply f (err not_found) = missing
reply f (err (failure e)) = broken e

abbrev answer : {A : Type 0} → (A → Reply) → MemStore × Result StoreError A → MemStore × Reply
answer f (s, r) = (s, reply f r)

-- The backend.
abbrev pub exec : MemStore → Op → MemStore × Reply
exec s (puts j) = answer (λ _. done) (put_job j s)
exec s (gets id) = answer found_job (get_job id s)
exec s (deletes id) = answer (λ _. done) (delete_job id s)
exec s (creates r) = answer (λ _. done) (create_run r s)
exec s (reads id) = answer found_run (get_run id s)
exec s (updates r) = answer (λ _. done) (update_run r s)

abbrev set : {V : Type 0} → Str → V → (Str → Option V) → Str → Option V
set k v f j = if str_eq k j then some v else f j

abbrev unset : {V : Type 0} → Str → (Str → Option V) → Str → Option V
unset k f j = if str_eq k j then none else f j

abbrev or_missing : {V : Type 0} → Option V → View × Reply → (V → View × Reply) → View × Reply
or_missing none a f = a
or_missing (some v) a f = f v

-- The specification.
abbrev pub spec : View → Op → View × Reply
spec v (puts j) = (record v { jobs = set j.id j v.jobs }, done)
spec v (gets id) = or_missing (v.jobs id) (v, missing) (λ j. (v, found_job j))
spec v (deletes id) =
    or_missing (v.jobs id) (v, missing) (λ _. (record v { jobs = unset id v.jobs }, done))
spec v (creates r) = (record v { runs = set r.id r v.runs }, done)
spec v (reads id) = or_missing (v.runs id) (v, missing) (λ r. (v, found_run r))
spec v (updates r) =
    or_missing (v.runs r.id) (v, missing) (λ _. (record v { runs = set r.id r v.runs }, done))

abbrev Refines : MemStore × Reply → View × Reply → Type 0
Refines a b = ◌≡◌ {A = View × Reply} (view a.0, a.1) b

exec-Refines : (s : MemStore) (op : Op) → IsWellFormed s → Refines (exec s op) (spec (view s) op)
unfolding put_job get_job delete_job create_run get_run update_run clone
exec-Refines s (puts j) w = λ i.
    (record { jobs = fun_ext (λ k. lookup-insert j.id k j s.jobs) i; runs = (view s).runs }, done)
exec-Refines s (gets id) w = elim (Option-cases (lookup id s.jobs)) [
  | inl e ↦ rw (e, get_job) refl
  | inr (j, e) ↦ rw (e, get_job) refl
]
exec-Refines s (deletes id) w = elim (Option-cases (lookup id s.jobs)) [
  | inl e ↦ rw (e, delete_job) refl
  | inr (j, e) ↦
      rw (e, delete_job)
        (λ i. (
          record {
            jobs = fun_ext (λ k. lookup-erase id k s.jobs w.jobs_once) i;
            runs = (view s).runs;
          },
          done,
        ))
]
exec-Refines s (creates r) w = λ i.
    (record { jobs = (view s).jobs; runs = fun_ext (λ k. lookup-insert r.id k r s.runs) i }, done)
exec-Refines s (reads id) w = elim (Option-cases (lookup id s.runs)) [
  | inl e ↦ rw (e, get_run) refl
  | inr (r, e) ↦ rw (e, get_run) refl
]
exec-Refines s (updates r) w = elim (Option-cases (lookup r.id s.runs)) [
  | inl e ↦ rw (e, update_run) refl
  | inr (old, e) ↦
      rw (e, update_run)
        (λ i. (
          record { jobs = (view s).jobs; runs = fun_ext (λ k. lookup-insert r.id k r s.runs) i },
          done,
        ))
]

exec-IsWellFormed : (s : MemStore) (op : Op) → IsWellFormed s → IsWellFormed (exec s op).0
unfolding get_job get_run
exec-IsWellFormed s (puts j) w = step-IsWellFormed s (Call.put j) w
exec-IsWellFormed s (gets id) w = ground arith
exec-IsWellFormed s (deletes id) w = step-IsWellFormed s (Call.delete id) w
exec-IsWellFormed s (creates r) w = step-IsWellFormed s (Call.create r) w
exec-IsWellFormed s (reads id) w = ground arith
exec-IsWellFormed s (updates r) w = step-IsWellFormed s (Call.update r) w

-- The replies to a history of calls.
abbrev pub replies : MemStore → List Op → List Reply
replies s [] = []
replies s (op ∷ ops) = (exec s op).1 ∷ replies (exec s op).0 ops

abbrev pub spec_replies : View → List Op → List Reply
spec_replies v [] = []
spec_replies v (op ∷ ops) = (spec v op).1 ∷ spec_replies (spec v op).0 ops

replies-refine :
    (s : MemStore) (ops : List Op) → IsWellFormed s → replies s ops ≡ spec_replies (view s) ops
replies-refine s [] w = refl
replies-refine s (op ∷ ops) w =
    rw (replies-refine (exec s op).0 ops (exec-IsWellFormed s op w))
      (ap (λ (p : View × Reply). p.1 ∷ spec_replies p.0 ops) (exec-Refines s op w))

abbrev pub empty_view : View
empty_view = record { jobs = λ _. none; runs = λ _. none }

-- A new backend answers every history of calls as the two maps do that start empty: what was put
-- is got, what was dropped or never put is missing, an update of a missing run changes nothing.
pub replies-new : (ops : List Op) → replies new ops ≡ spec_replies empty_view ops
unfolding lookup
replies-new ops = replies-refine new ops new-IsWellFormed

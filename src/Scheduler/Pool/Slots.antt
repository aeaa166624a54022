-- ===== src/Scheduler/Pool/Slots.antt =====
-- What the in-memory backend's map of runs says of first attempts: a run has a slot, its job, its
-- batch and its attempt, that no write of the scheduler changes.
use cronflux.Common.{
  ◌≡◌, ◌≢◌, refl, sym, ap, ◌∙◌, subst, none, some, Str, str_eq, str_eq_iff, arith, Bool-cases, inl,
  inr, ◌⊎◌,
}
use cronflux.Common.Dict.{Dict, lookup, insert, lookup-insert}
use cronflux.Job.{Run}

pub record SameSlot (q r : Run) : Type 0 where
  pub job : q.job_id ≡ r.job_id
  pub batch : q.batch_id ≡ r.batch_id
  pub attempt : q.attempt ≡ r.attempt

-- Under the run's ID a run with the run's slot is stored.
abbrev pub Known : Dict Run → Run → Type 0
Known m r = (q : Run) × (lookup r.id m ≡ some q) × SameSlot q r

-- At most one first attempt of a job is stored in a batch.
abbrev pub OneFirst : Dict Run → Type 0
OneFirst m =
    (i k : Str) (q r : Run)
    → lookup i m ≡ some q
    → lookup k m ≡ some r
    → q.attempt ≡ 0
    → r.attempt ≡ 0
    → q.job_id ≡ r.job_id
    → q.batch_id ≡ r.batch_id
    → i ≡ k

-- No first attempt of the job is stored in the batch.
abbrev pub Clear : Dict Run → Str → Str → Type 0
Clear m job batch =
    (i : Str) (q : Run) → lookup i m ≡ some q → q.job_id ≡ job → q.batch_id ≡ batch → q.attempt ≢ 0

-- What a write keeps of every run that some goroutine holds.
pub record Preserves (m m' : Dict Run) : Type 0 where
  pub known : (r : Run) → Known m r → Known m' r
  pub one : OneFirst m → OneFirst m'

abbrev pub PreservesClear : Dict Run → Dict Run → Type 0
PreservesClear m m' = (job batch : Str) → Clear m job batch → Clear m' job batch

pub Preserves-refl : (m : Dict Run) → Preserves m m
Preserves-refl m = record { known = λ r k. k; one = λ h. h }

-- What stands in a map after a write.
pub entry-cases :
    (q a : Run) (i : Str) (m : Dict Run)
    → lookup i (insert q.id q m) ≡ some a
    → ((q.id ≡ i) × (q ≡ a)) ⊎ (lookup i m ≡ some a)
entry-cases q a i m e = elim (Bool-cases (str_eq q.id i)) [
  | inl same ↦ inl ((str_eq_iff q.id i).0 same, ground (arith, lookup-insert q.id i q m))
  | inr other ↦ inr (ground (arith, lookup-insert q.id i q m))
]

module _ (q : Run) (m : Dict Run) where
  Known-insert :
      ((p : Run) → lookup q.id m ≡ some p → SameSlot p q)
      → (r : Run) → Known m r
      → Known (insert q.id q m) r
  Known-insert same r (p, e, slot) = elim (Bool-cases (str_eq q.id r.id)) [
    | inl h ↦
        let i = (str_eq_iff q.id r.id).0 h in
        let s = same p (ap (λ (k : Str). lookup k m) i ∙ e) in
        (
          q,
          rw (lookup-insert q.id r.id q m, h) refl,
          record {
            job = sym s.job ∙ slot.job;
            batch = sym s.batch ∙ slot.batch;
            attempt = sym s.attempt ∙ slot.attempt;
          },
        )
    | inr h ↦ (p, rw (lookup-insert q.id r.id q m, h) e, slot)
  ]

  -- A run that is written over one with its slot.
  module _ (k : Known m q) where
    overwritten :
        (i : Str) (a : Run)
        → lookup i (insert q.id q m) ≡ some a
        → (p : Run) × (lookup i m ≡ some p) × SameSlot p a
    overwritten i a e = elim (entry-cases q a i m e) [
      | inl (same, eq) ↦
          (k.0, subst (λ (x : Str). lookup x m ≡ some k.0) same k.1, subst (SameSlot k.0) eq k.2)
      | inr old ↦ (a, old, record { job = refl; batch = refl; attempt = refl })
    ]

    pub overwrite-Preserves : Preserves m (insert q.id q m)
    overwrite-Preserves = record {
      known = Known-insert (λ p e. subst (λ (x : Run). SameSlot x q) (ground (arith, k.1)) k.2);
      one = λ h i j a b ea eb fa fb job batch.
          let (p, ep, sp) = overwritten i a ea in
          let (o, eo, so) = overwritten j b eb in
          h i j p o ep eo (sp.attempt ∙ fa) (so.attempt ∙ fb) (sp.job ∙ job ∙ sym so.job)
            (sp.batch ∙ batch ∙ sym so.batch);
    }

    pub overwrite-PreservesClear : PreservesClear m (insert q.id q m)
    overwrite-PreservesClear job batch h i a e ej eb f =
        let (p, ep, sp) = overwritten i a e in
        h i p ep (sp.job ∙ ej) (sp.batch ∙ eb) (sp.attempt ∙ f)

  -- A run that is written under a new ID.
  module _ (fresh : lookup q.id m ≡ none) where
    pub add-Preserves :
        (q.attempt ≡ 0 → Clear m q.job_id q.batch_id) → Preserves m (insert q.id q m)
    add-Preserves clear = record {
      known = Known-insert (λ p e. cc);
      one = λ h i j a b ea eb fa fb job batch. elim (entry-cases q a i m ea) [
        | inl (i_eq, qa) ↦ elim (entry-cases q b j m eb) [
          | inl (j_eq, qb) ↦ sym i_eq ∙ j_eq
          | inr old ↦ absurd (
              clear (ap (λ (x : Run). x.attempt) qa ∙ fa) j b old
                (sym job ∙ sym (ap (λ (x : Run). x.job_id) qa))
                (sym batch ∙ sym (ap (λ (x : Run). x.batch_id) qa)) fb)
        ]
        | inr old ↦ elim (entry-cases q b j m eb) [
          | inl (j_eq, qb) ↦ absurd (
              clear (ap (λ (x : Run). x.attempt) qb ∙ fb) i a old
                (job ∙ sym (ap (λ (x : Run). x.job_id) qb))
                (batch ∙ sym (ap (λ (x : Run). x.batch_id) qb)) fa)
          | inr old' ↦ h i j a b old old' fa fb job batch
        ]
      ];
    }

    pub add-PreservesClear : q.attempt ≢ 0 → PreservesClear m (insert q.id q m)
    add-PreservesClear later job batch h i a e ej eb f = elim (entry-cases q a i m e) [
      | inl (same, eq) ↦ later (ap (λ (x : Run). x.attempt) eq ∙ f)
      | inr old ↦ h i a old ej eb f
    ]

-- ===== src/Config/Jobs/Loaded.antt =====
-- What `LoadJobs` of internal/config/jobs.go returns.
use cronflux.Common.{
  ℕ, ◌+◌, ◌≡◌, refl, ◌∙◌, ◌≢◌, List, [], ◌∷◌, Str, str_eq, Bool, true, Option, none, some, pos, ◌⊎◌,
  Option-cases, Result, ok, err, Duration, arith, >>=-eq-ok, ◌>>=◌, Bool-cases, inl, inr,
  Result-cases, ok_inj, ap, sym, subst, str_eq_iff,
}
use cronflux.Job.{Job}
use cronflux.Job.Graph.{build_graph, ids}
use cronflux.Job.Graph.Edges.{AllDeclared, build_graph-HasEdges}
use cronflux.Config.Jobs.{
  JobSpec, SpecError, LoadError, to_job, to_jobs, load_jobs, job_of, timed_job, parse_optional,
  bad_timeout, bad_base, bad_max, bad_graph,
}

-- The duration that a text of the file stands for: none is written, or it parses.
abbrev pub IsDuration : (Str → Option Duration) → Str → Duration → Type 0
IsDuration parse_duration text d =
    ((text ≡ []) × (d ≡ pos 0)) ⊎ ((text ≢ []) × (parse_duration text ≡ some d))

-- A job is enabled if the file says so or says nothing.
abbrev pub IsEnabled : Option Bool → Bool → Type 0
IsEnabled written enabled = ((written ≡ none) × (enabled ≡ true)) ⊎ (written ≡ some enabled)

-- The job has the values that the spec gives, field by field, and no times yet.
pub record StandsFor (parse_duration : Str → Option Duration) (j : Job) (s : JobSpec) : Type 0 where
  pub named : s.id ≢ []
  pub same_id : j.id ≡ s.id
  pub same_name : j.name ≡ s.name
  pub same_spec : j.spec ≡ s.spec
  pub same_command : j.command ≡ s.command
  pub same_retries : j.max_retries ≡ s.max_retries
  pub same_dependencies : j.depends_on ≡ s.depends_on
  pub timeout : IsDuration parse_duration s.timeout j.timeout
  pub base : IsDuration parse_duration s.backoff.base j.backoff.base
  pub max : IsDuration parse_duration s.backoff.max j.backoff.max
  pub same_factor : j.backoff.factor ≡ s.backoff.factor
  pub same_jitter : j.backoff.jitter ≡ s.backoff.jitter
  pub enabled : IsEnabled s.enabled j.enabled
  pub uncreated : j.created_at ≡ 0
  pub unchanged : j.updated_at ≡ 0

-- The jobs stand for the specs, one by one and in order.
abbrev pub StandFor : (Str → Option Duration) → List Job → List JobSpec → Type 0
StandFor parse_duration [] [] = Unit
StandFor parse_duration [] (s ∷ specs) = ⊥
StandFor parse_duration (j ∷ jobs) [] = ⊥
StandFor parse_duration (j ∷ jobs) (s ∷ specs) =
    StandsFor parse_duration j s × StandFor parse_duration jobs specs

parse_optional-IsDuration :
    (parse_duration : Str → Option Duration) (wrap : Str → SpecError) (text : Str) (d : Duration)
    → parse_optional parse_duration wrap text ≡ ok d
    → IsDuration parse_duration text d
unfolding parse_optional
parse_optional-IsDuration parse_duration wrap text d h = elim (Bool-cases (str_eq text [])) [
  | inl empty ↦
      let zero_long : pos 0 ≡ d = ok_inj {Error = SpecError} (ground (arith, h, empty)) in
      inl ((str_eq_iff text []).0 empty, sym zero_long)
  | inr written ↦ elim (Option-cases (parse_duration text)) [
    | inl bad ↦ absurd (ground (arith, h, written, bad))
    | inr (x, good) ↦
        let same : x ≡ d = ok_inj {Error = SpecError} (ground (arith, h, written, good)) in
        inr (λ e. absurd (ground (arith, written, (str_eq_iff text []).1 e)), good ∙ ap some same)
  ]
]

or_true-IsEnabled : (o : Option Bool) → IsEnabled o (elim o [ none ↦ true | some b ↦ b ])
or_true-IsEnabled none = inl (refl, refl)
or_true-IsEnabled (some b) = inr refl

to_job-StandsFor :
    (parse_duration : Str → Option Duration) (s : JobSpec) (j : Job)
    → to_job parse_duration s ≡ ok j
    → StandsFor parse_duration j s
unfolding to_job
to_job-StandsFor parse_duration s j h = elim (Bool-cases (str_eq s.id [])) [
  | inl empty ↦ absurd (ground (arith, h, empty))
  | inr named ↦
      let h0 : timed_job parse_duration s ≡ ok j = ground (arith, h, named) in
      let (timeout, t, h1) = >>=-eq-ok (parse_optional parse_duration bad_timeout s.timeout) _ h0 in
      let (base, b, h2) = >>=-eq-ok (parse_optional parse_duration bad_base s.backoff.base) _ h1 in
      let (max_delay, m, h3) =
        >>=-eq-ok (parse_optional parse_duration bad_max s.backoff.max) _ h2 in
      let same : job_of parse_duration s timeout base max_delay ≡ j =
        ok_inj {Error = SpecError} h3 in
      subst (λ (k : Job). StandsFor parse_duration k s) same
        (record {
          named = λ e. absurd (ground (arith, named, (str_eq_iff s.id []).1 e));
          same_id = refl;
          same_name = refl;
          same_spec = refl;
          same_command = refl;
          same_retries = refl;
          same_dependencies = refl;
          timeout = parse_optional-IsDuration parse_duration bad_timeout s.timeout timeout t;
          base = parse_optional-IsDuration parse_duration bad_base s.backoff.base base b;
          max = parse_optional-IsDuration parse_duration bad_max s.backoff.max max_delay m;
          same_factor = refl;
          same_jitter = refl;
          enabled = or_true-IsEnabled s.enabled;
          uncreated = refl;
          unchanged = refl;
        })
]

to_jobs-StandFor :
    (parse_duration : Str → Option Duration) (i : ℕ) (specs : List JobSpec) (jobs : List Job)
    → to_jobs parse_duration i specs ≡ ok jobs
    → StandFor parse_duration jobs specs
unfolding to_jobs
to_jobs-StandFor parse_duration i [] jobs h =
    subst (λ (js : List Job). StandFor parse_duration js []) (ok_inj h) tt
to_jobs-StandFor parse_duration i (s ∷ specs) jobs h =
    elim (Result-cases (to_job parse_duration s)) [
      | inr (x, f) ↦ absurd (ground (arith, h, f))
      | inl (j, f) ↦
          let (js, e, same) =
            >>=-eq-ok (to_jobs parse_duration (i + 1) specs) (λ (js : List Job). ok (j ∷ js))
              (ground (arith, h, f)) in
          subst (λ (ks : List Job). StandFor parse_duration ks (s ∷ specs)) (ok_inj same)
            (
              to_job-StandsFor parse_duration s j f,
              to_jobs-StandFor parse_duration (i + 1) specs js e,
            )
    ]

abbrev checked : List Job → Result LoadError (List Job)
checked js = elim (build_graph js) [ err e ↦ err (bad_graph e) | ok g ↦ ok js ]

-- The jobs that `LoadJobs` returns stand for the specs of the file, one by one and field by field:
-- each has the spec's non-empty ID, name, expression, command, retries, dependencies and factors, the
-- durations that its texts parse to, zero where none is written, and is enabled unless the spec says
-- otherwise. Every dependency of one of them is the ID of one of them.
pub load_jobs-StandFor :
    (parse_duration : Str → Option Duration) (read : Str → Result Str (List JobSpec)) (path : Str)
    (jobs : List Job)
    → load_jobs parse_duration read path ≡ ok jobs
    → (specs : List JobSpec) × (read path ≡ ok specs)
      × StandFor parse_duration jobs specs
      × AllDeclared (ids jobs) jobs
unfolding load_jobs
load_jobs-StandFor parse_duration read path jobs h = elim (Result-cases (read path)) [
  | inr (x, f) ↦ absurd (ground (arith, h, f))
  | inl (specs, f) ↦
      let h0 : (to_jobs parse_duration 0 specs >>= checked) ≡ ok jobs = ground (arith, h, f) in
      let (js, e, rest) = >>=-eq-ok (to_jobs parse_duration 0 specs) checked h0 in
      elim (Result-cases (build_graph js)) [
        | inr (x, b) ↦ absurd (ground (arith, rest, b))
        | inl (g, b) ↦
            let same : js ≡ jobs = ok_inj {Error = LoadError} (ground (arith, rest, b)) in
            let (stand, known) =
              subst (λ (ks : List Job). StandFor parse_duration ks specs × AllDeclared (ids ks) ks)
                same
                (to_jobs-StandFor parse_duration 0 specs js e, (build_graph-HasEdges js g b).1) in
            (specs, f, stand, known)
      ]
]

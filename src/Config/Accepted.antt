-- ===== src/Config/Accepted.antt =====
-- What `Validate` of internal/config/config.go accepts, and what the scheduler makes of it.
use cronflux.Common.{
  ◌≡◌, ◌≢◌, ◌<◌, refl, [], true, false, Str, str_eq, str_eq_iff, ℤ, pos, negsuc, pos_part, ltb_ℤ,
  Result, ok, >>=-eq-ok, Result-cases, ok_inj, subst, List, Option, arith, Bool-cases, ◌⊎◌, inl,
  inr, ◌↔◌, Duration,
}
use cronflux.Scheduler.Loop.{with_defaults}
use cronflux.Config.{
  Config, ConfigError, backend_memory, backend_postgres, check_backend, check_numbers, validate,
  from_env, default, load, scheduler_options,
}

-- A configuration that a server can run on.
pub record IsUsable (c : Config) : Type 0 where
  pub backend :
      (c.backend ≡ backend_memory) ⊎ ((c.backend ≡ backend_postgres) × (c.database_url ≢ []))
  pub workers : 0 < pos_part c.workers
  pub ticks : 0 < pos_part c.tick_interval
  pub lease : 0 < pos_part c.lease_duration

positive_iff : (z : ℤ) → (ltb_ℤ (pos 0) z ≡ true) ↔ (0 < pos_part z)
positive_iff (pos n) = ground arith
positive_iff (negsuc n) = ground arith

at_least_one_iff : (z : ℤ) → (ltb_ℤ z (pos 1) ≡ false) ↔ (0 < pos_part z)
at_least_one_iff (pos n) = ground arith
at_least_one_iff (negsuc n) = ground arith

abbrev HasNumbers : Config → Type 0
HasNumbers c =
    (0 < pos_part c.workers) × (0 < pos_part c.tick_interval) × (0 < pos_part c.lease_duration)

check_numbers_iff : (c : Config) → (check_numbers c ≡ ok tt) ↔ HasNumbers c
unfolding check_numbers
check_numbers_iff c =
    ground (
      arith,
      at_least_one_iff c.workers,
      positive_iff c.tick_interval,
      positive_iff c.lease_duration,
    )

abbrev HasBackend : Config → Type 0
HasBackend c =
    (c.backend ≡ backend_memory) ⊎ ((c.backend ≡ backend_postgres) × (c.database_url ≢ []))

check_backend→ : (c : Config) → check_backend c ≡ ok tt → HasBackend c
unfolding check_backend
check_backend→ c h = elim (Bool-cases (str_eq c.backend backend_memory)) [
  | inl same ↦ inl ((str_eq_iff c.backend backend_memory).0 same)
  | inr m ↦ elim (Bool-cases (str_eq c.backend backend_postgres)) [
    | inl same ↦ inr (
      (str_eq_iff c.backend backend_postgres).0 same,
      λ e. absurd (ground (arith, h, m, same, (str_eq_iff c.database_url []).1 e)),
    )
    | inr p ↦ absurd (ground (arith, h, m, p))
  ]
]

→check_backend : (c : Config) → HasBackend c → check_backend c ≡ ok tt
unfolding check_backend
→check_backend c (inl e) = ground (arith, (str_eq_iff c.backend backend_memory).1 e)
→check_backend c (inr (e, n)) =
    ground (arith, (str_eq_iff c.backend backend_postgres).1 e, not_empty)
  where
    not_empty : str_eq c.database_url [] ≡ false
    not_empty = elim (Bool-cases (str_eq c.database_url [])) [
      | inl same ↦ absurd (n ((str_eq_iff c.database_url []).0 same))
      | inr f ↦ f
    ]

-- `Validate` accepts exactly the usable configurations: the backend is the memory, or PostgreSQL with
-- a database URL, and the workers, the tick interval and the lease are positive.
validate_iff : (c : Config) → (validate c ≡ ok tt) ↔ IsUsable c
unfolding validate
validate_iff c = (
  λ h.
      let (u, b, n) = >>=-eq-ok (check_backend c) (λ _. check_numbers c) h in
      let (w, t, l) = (check_numbers_iff c).0 n in
      record { backend = check_backend→ c b; workers = w; ticks = t; lease = l },
  λ u. rw (→check_backend c u.backend) ((check_numbers_iff c).1 (u.workers, u.ticks, u.lease)),
)

-- A configuration with positive numbers gives the scheduler no reason for a default.
with_defaults_lem :
    (c : Config) → HasNumbers c → with_defaults (scheduler_options c) ≡ scheduler_options c
unfolding with_defaults
with_defaults_lem c (w, t, l) =
    rw
      (
        (at_least_one_iff c.workers).1 w,
        (positive_iff c.tick_interval).1 t,
        (positive_iff c.lease_duration).1 l,
      )
      refl

-- A configuration that `Load` returns is usable, and `New` leaves the scheduler's options in it as they
-- are.
pub load-IsUsable :
    (getenv : Str → Str) (parse_duration : Str → Option Duration) (atoi : Str → Option ℤ)
    (parse_flags : List Str → Config → Result Str Config) (args : List Str) (c : Config)
    → load getenv parse_duration atoi parse_flags args ≡ ok c
    → IsUsable c × (with_defaults (scheduler_options c) ≡ scheduler_options c)
unfolding load
load-IsUsable getenv parse_duration atoi parse_flags args c e =
    elim (Result-cases (parse_flags args (from_env getenv parse_duration atoi default))) [
      | inr (x, f) ↦ absurd (ground (arith, e, f))
      | inl (d, f) ↦ elim (Result-cases (validate d)) [
        | inr (x, v) ↦ absurd (ground (arith, e, f, v))
        | inl (done, v) ↦
            let same : d ≡ c = ok_inj {Error = ConfigError} (ground (arith, e, f, v)) in
            let u = subst IsUsable same ((validate_iff d).0 v) in
            (u, with_defaults_lem c (u.workers, u.ticks, u.lease))
      ]
    ]

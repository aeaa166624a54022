-- ===== src/Cron/Spec/Constant.antt =====
-- Where cron/parser.go answers with a schedule of a constant delay, it is one that `Every` made.
use cronflux.Common.{
  ◌≡◌, refl, [], Option, Str, codes, str_eq, Result, ok, err, pos, ltb_ℤ, Duration, Bool-cases,
  Option-cases, inl, inr,
}
use cronflux.Common.Dict.{lookup}
use cronflux.Cron.Field.{CronError}
use cronflux.Cron.Every.{ConstantDelaySchedule, every, parse_every}
use cronflux.Cron.Spec.{
  SpecSchedule, Schedule, spec, constant, as_spec, as_constant, after_prefix, trim, descriptors,
  parse_fields, fields, parse_descriptor, parse_trimmed, parse,
}

abbrev IsMade : Result CronError Schedule → Type 0
IsMade (err e) = Unit
IsMade (ok (spec s)) = Unit
IsMade (ok (constant c)) = (d : Duration) × (c ≡ every d)

as_spec-IsMade : (r : Result CronError SpecSchedule) → IsMade (as_spec r)
as_spec-IsMade (ok s) = tt
as_spec-IsMade (err e) = tt

parse_every-IsMade :
    (parse_duration : Str → Option Duration) (raw : Str)
    → IsMade (as_constant (parse_every parse_duration raw))
unfolding parse_every
parse_every-IsMade parse_duration raw = elim (Option-cases (parse_duration raw)) [
  | inl e ↦ rw (e, parse_every) tt
  | inr (d, e) ↦ elim (Bool-cases (ltb_ℤ (pos 0) d)) [
    | inl positive ↦ rw (e, positive, parse_every) (d, refl)
    | inr low ↦ rw (e, low, parse_every) tt
  ]
]

module _ (parse_duration : Str → Option Duration) where
  parse_descriptor-IsMade : (s : Str) → IsMade (parse_descriptor parse_duration s)
  unfolding parse_descriptor
  parse_descriptor-IsMade s = elim (Option-cases (after_prefix (codes "@every ") s)) [
    | inr (rest, e) ↦ rw (e, parse_descriptor) (parse_every-IsMade parse_duration (trim rest))
    | inl e ↦ elim (Option-cases (lookup s descriptors)) [
      | inl gone ↦ rw (e, gone, parse_descriptor) tt
      | inr (expanded, found) ↦
          rw (e, found, parse_descriptor) (as_spec-IsMade (parse_fields (fields expanded)))
    ]
  ]

  parse_trimmed-IsMade : (s : Str) → IsMade (parse_trimmed parse_duration s)
  unfolding parse_trimmed
  parse_trimmed-IsMade s = elim (Bool-cases (str_eq s [])) [
    | inl empty ↦ rw (empty, parse_trimmed) tt
    | inr given ↦ elim (Option-cases (after_prefix (codes "@") s)) [
      | inr (rest, e) ↦ rw (given, e, parse_trimmed) (parse_descriptor-IsMade s)
      | inl e ↦ rw (given, e, parse_trimmed) (as_spec-IsMade (parse_fields (fields s)))
    ]
  ]

  pub parse-every :
      (text : Str) (c : ConstantDelaySchedule)
      → parse parse_duration text ≡ ok (constant c)
      → (d : Duration) × (c ≡ every d)
  unfolding parse
  parse-every text c e = let made = parse_trimmed-IsMade (trim text) in rw e at made

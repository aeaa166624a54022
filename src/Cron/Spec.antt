-- ===== src/Cron/Spec.antt =====
-- cron/parser.go, and the masks and the day rule of cron/spec.go. White space is ASCII white space;
-- the location that a schedule carries is left to the code that evaluates it.
pub mod Parsing
pub mod Constant
use Prim.Native.Nat.{bit_and, bit_or}
use cronflux.Common.{
  ℕ, ◌-◌, ◌^◌, List, [], ◌∷◌, map, Bool, true, false, not, ◌&&◌, ◌||◌, Option, none, some, Str,
  codes, str_eq, Result, ok, err, ◌>>=◌, leb, ltb, ◌==◌, if◌then◌else◌, Duration,
}
use cronflux.Common.Dict.{Dict, lookup}
use cronflux.Cron.Field.{
  CronError, empty_spec, unknown_descriptor, wrong_field_count, star_bit, cut, parse_field,
  seconds_bound, minutes_bound, hours_bound, dom_bound, month_bound, dow_bound,
}
use cronflux.Cron.Every.{ConstantDelaySchedule, parse_every}

pub record SpecSchedule : Type 0 where
  pub second : ℕ
  pub minute : ℕ
  pub hour : ℕ
  pub dom : ℕ
  pub month : ℕ
  pub dow : ℕ

-- The two implementations of `Schedule`.
pub data Schedule : Type 0 where
  spec : SpecSchedule → Schedule
  constant : ConstantDelaySchedule → Schedule

abbrev pub is_space : ℕ → Bool
is_space c = c == 32 || (leb 9 c && leb c 13)

-- `strings.Fields`: the word that is being read and the words after it.
unfoldable pub words_from : Str → Str × List Str
words_from [] = ([], [])
words_from (c ∷ cs) =
    let (word, words) = words_from cs in
    if is_space c then ([], (if str_eq word [] then words else word ∷ words)) else (c ∷ word, words)

unfoldable pub fields : Str → List Str
fields s = let (word, words) = words_from s in if str_eq word [] then words else word ∷ words

unfoldable pub trim_left : Str → Str
trim_left [] = []
trim_left (c ∷ cs) = let rest = trim_left cs in if is_space c then rest else c ∷ cs

-- Drops the white space at the end: a text of white space alone is dropped whole.
unfoldable pub trim_right : Str → Str
trim_right [] = []
trim_right (c ∷ cs) =
    let rest = trim_right cs in if is_space c && str_eq rest [] then [] else c ∷ rest

-- `strings.TrimSpace`
abbrev pub trim : Str → Str
trim s = trim_right (trim_left s)

-- What is left of a text after a prefix, where it has that prefix.
unfoldable pub after_prefix : Str → Str → Option Str
after_prefix [] s = some s
after_prefix (p ∷ ps) [] = none
after_prefix (p ∷ ps) (c ∷ cs) = let rest = after_prefix ps cs in if p == c then rest else none

abbrev pub descriptors : Dict Str
descriptors =
    (codes "@yearly", codes "0 0 0 1 1 *")
    ∷ (codes "@annually", codes "0 0 0 1 1 *")
    ∷ (codes "@monthly", codes "0 0 0 1 * *")
    ∷ (codes "@weekly", codes "0 0 0 * * 0")
    ∷ (codes "@daily", codes "0 0 0 * * *")
    ∷ (codes "@midnight", codes "0 0 0 * * *")
    ∷ (codes "@hourly", codes "0 0 * * * *")
    ∷ []

-- `mask & (1 << i) != 0`
abbrev pub has_bit : ℕ → ℕ → Bool
has_bit mask i = not (bit_and mask (2 ^ i) == 0)

-- `(mask &^ (1 << 7)) | 1` where bit 7 is set.
unfoldable pub normalize_dow : ℕ → ℕ
normalize_dow mask = if has_bit mask 7 then bit_or (mask - bit_and mask (2 ^ 7)) 1 else mask

-- The six fields, parsed in this order; the first error is the result.
unfoldable pub parse_six : Str → Str → Str → Str → Str → Str → Result CronError SpecSchedule
parse_six sec min hour dom month dow = parse_field sec seconds_bound >>= λ s.
    parse_field min minutes_bound >>= λ m. parse_field hour hours_bound >>= λ h.
    parse_field dom dom_bound >>= λ d. parse_field month month_bound >>= λ mo.
    parse_field dow dow_bound >>= λ w.
    ok (record { second = s; minute = m; hour = h; dom = d; month = mo; dow = normalize_dow w })

unfoldable pub parse_fields : List Str → Result CronError SpecSchedule
parse_fields (min ∷ hour ∷ dom ∷ month ∷ dow ∷ []) = parse_six (codes "0") min hour dom month dow
parse_fields (sec ∷ min ∷ hour ∷ dom ∷ month ∷ dow ∷ []) = parse_six sec min hour dom month dow
parse_fields _ = err wrong_field_count

abbrev pub as_spec : Result CronError SpecSchedule → Result CronError Schedule
as_spec (ok s) = ok (spec s)
as_spec (err e) = err e

abbrev pub as_constant : Result CronError ConstantDelaySchedule → Result CronError Schedule
as_constant (ok s) = ok (constant s)
as_constant (err e) = err e

unfoldable pub parse_descriptor : (Str → Option Duration) → Str → Result CronError Schedule
parse_descriptor parse_duration s = elim (after_prefix (codes "@every ") s) [
  | some rest ↦ as_constant (parse_every parse_duration (trim rest))
  | none ↦ elim (lookup s descriptors) [
    | some expanded ↦ as_spec (parse_fields (fields expanded))
    | none ↦ err unknown_descriptor
  ]
]

-- `ParseInLocation` after the trim.
unfoldable pub parse_trimmed : (Str → Option Duration) → Str → Result CronError Schedule
parse_trimmed parse_duration s =
    if str_eq s [] then err empty_spec else elim (after_prefix (codes "@") s) [
      | some rest ↦ parse_descriptor parse_duration s
      | none ↦ as_spec (parse_fields (fields s))
    ]

-- `Parse`; `ParseInLocation` differs by the location alone.
unfoldable pub parse : (Str → Option Duration) → Str → Result CronError Schedule
parse parse_duration text = parse_trimmed parse_duration (trim text)

-- `dayMatches`, by the day of the month and the day of the week.
unfoldable pub day_matches : SpecSchedule → ℕ → ℕ → Bool
day_matches s day weekday =
    let dom_match = has_bit s.dom day in
    let dow_match = has_bit s.dow weekday in
    if has_bit s.dom 63 || has_bit s.dow 63 then dom_match && dow_match else dom_match || dow_match

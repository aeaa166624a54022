-- ===== src/Cron/Field.antt =====
-- cron/field.go, cron/bounds.go and cron/names.go: one field of a cron expression becomes a mask of
-- 64 bits. Of the text functions of the standard library, `strings.ToLower` is modelled on ASCII
-- letters and leaves other bytes alone.
pub mod Loop
pub mod Mask
pub mod Terms
use Prim.Native.Nat.{bit_or}
use cronflux.Common.{
  ℕ, zero, suc, ◌+◌, ◌-◌, ◌*◌, ◌%◌, ◌^◌, List, [], ◌∷◌, map, Bool, true, false, not, ◌&&◌, ◌||◌,
  Option, none, some, Str, codes, str_eq, Result, ok, err, ◌>>=◌, ltb, leb, ◌==◌, if◌then◌else◌,
}
use cronflux.Common.Dict.{Dict, lookup}

-- The errors, with the text that they quote.
pub data CronError : Type 0 where
  invalid_step invalid_value invalid_range_start invalid_range_end : Str → CronError
  out_of_range inverted_range : Str → CronError
  empty_spec : CronError
  unknown_descriptor wrong_field_count : CronError
  invalid_duration : Str → CronError
  nonpositive_duration : CronError

pub record Bounds : Type 0 where
  pub min : ℕ
  pub max : ℕ
  pub names : Option (Dict ℕ)

abbrev pub month_names : Dict ℕ
month_names =
    (codes "jan", 1)
    ∷ (codes "feb", 2)
    ∷ (codes "mar", 3)
    ∷ (codes "apr", 4)
    ∷ (codes "may", 5)
    ∷ (codes "jun", 6)
    ∷ (codes "jul", 7)
    ∷ (codes "aug", 8)
    ∷ (codes "sep", 9)
    ∷ (codes "oct", 10)
    ∷ (codes "nov", 11)
    ∷ (codes "dec", 12)
    ∷ []

abbrev pub dow_names : Dict ℕ
dow_names =
    (codes "sun", 0)
    ∷ (codes "mon", 1)
    ∷ (codes "tue", 2)
    ∷ (codes "wed", 3)
    ∷ (codes "thu", 4)
    ∷ (codes "fri", 5)
    ∷ (codes "sat", 6)
    ∷ []

-- The bounds after `init`.
abbrev pub seconds_bound : Bounds
seconds_bound = record { min = 0; max = 59; names = none }

abbrev pub minutes_bound : Bounds
minutes_bound = record { min = 0; max = 59; names = none }

abbrev pub hours_bound : Bounds
hours_bound = record { min = 0; max = 23; names = none }

abbrev pub dom_bound : Bounds
dom_bound = record { min = 1; max = 31; names = none }

abbrev pub month_bound : Bounds
month_bound = record { min = 1; max = 12; names = some month_names }

abbrev pub dow_bound : Bounds
dow_bound = record { min = 0; max = 6; names = some dow_names }

abbrev pub star_bit : ℕ
star_bit = 2 ^ 63

abbrev pub word : ℕ
word = 2 ^ 64

-- `strings.ToLower`
abbrev pub lower : ℕ → ℕ
lower c = if leb b'A' c && leb c b'Z' then c + 32 else c

-- The text before and after the first byte `c`.
unfoldable pub cut : ℕ → Str → Option (Str × Str)
cut c [] = none
cut c (x ∷ xs) = elim (x == c) [
  | true ↦ some ([], xs)
  | false ↦ elim (cut c xs) [ none ↦ none | some (a, b) ↦ some (x ∷ a, b) ]
]

-- `strings.Split` at a byte: what is before the first separator, and the parts after it.
unfoldable pub split_on : ℕ → Str → Str × List Str
split_on c [] = ([], [])
split_on c (x ∷ xs) =
    let (part, parts) = split_on c xs in if x == c then ([], part ∷ parts) else (x ∷ part, parts)

abbrev pub is_digit : ℕ → Bool
is_digit c = leb b'0' c && leb c b'9'

unfoldable pub digits_value : ℕ → Str → Option ℕ
digits_value acc [] = some acc
digits_value acc (c ∷ cs) =
    let rest = digits_value (acc * 10 + (c - b'0')) cs in if is_digit c then rest else none

-- `strconv.ParseUint(s, 10, 64)`
unfoldable pub parse_uint : Str → Option ℕ
unfolding digits_value
parse_uint [] = none
parse_uint (c ∷ cs) = elim (digits_value 0 (c ∷ cs)) [
  | none ↦ none
  | some n ↦ if ltb n word then some n else none
]

abbrev pub name_value : Option (Dict ℕ) → Str → Option ℕ
name_value none s = none
name_value (some names) s = lookup (map lower s) names

unfoldable pub parse_value : Str → Bounds → Result CronError ℕ
unfolding parse_uint
parse_value s b = elim (name_value b.names s) [
  | some v ↦ ok v
  | none ↦ elim (parse_uint s) [ some n ↦ ok n | none ↦ err (invalid_value s) ]
]

-- `for i := lo; i <= hi; i += step { mask |= 1 << i }` in 64-bit words. No word above 63 is reached,
-- so 64 rounds are enough.
unfoldable pub fill : ℕ → ℕ → ℕ → ℕ → ℕ → ℕ
fill zero i hi step mask = mask
fill (suc fuel) i hi step mask =
    let rest = fill fuel ((i + step) % word) hi step (bit_or mask (2 ^ i % word)) in
    if leb i hi then rest else mask

-- The part of a term before its step, and the step.
unfoldable pub term_step : Str → Result CronError (Str × ℕ × Bool)
unfolding cut parse_uint
term_step term = elim (cut b'/' term) [
  | none ↦ ok (term, 1, false)
  | some (range, digits) ↦ elim (parse_uint digits) [
    | none ↦ err (invalid_step term)
    | some s ↦ if s == 0 then err (invalid_step term) else ok (range, s, true)
  ]
]

abbrev pub wrap_error :
    {A : Type 0} → (Str → CronError) → Str → Result CronError A → Result CronError A
wrap_error f term (ok a) = ok a
wrap_error f term (err e) = err (f term)

-- The `switch` over the three forms of a range: its ends, and whether it was a star.
unfoldable pub term_range : Str → Str → Bool → Bounds → Result CronError (ℕ × ℕ × Bool)
unfolding cut parse_value str_eq
term_range term range has_step b =
    if str_eq range (codes "*") || str_eq range (codes "?")
    then ok (b.min, b.max, true)
    else elim (cut b'-' range) [
      | some (left, right) ↦ wrap_error invalid_range_start term (parse_value left b) >>= λ l.
          wrap_error invalid_range_end term (parse_value right b) >>= λ h. ok (l, h, false)
      | none ↦ parse_value range b >>= λ n. ok (n, (if has_step then b.max else n), false)
    ]

-- The end of `parseTerm`: the two checks, the loop, and the star bit.
unfoldable pub term_mask : Str → ℕ → ℕ → ℕ → Bool → Bounds → Result CronError ℕ
term_mask term lo hi step is_star b =
    if ltb lo b.min || ltb b.max hi
    then err (out_of_range term)
    else (if ltb hi lo
        then err (inverted_range term)
        else (let mask = fill 64 lo hi step 0 in
            ok (if is_star then bit_or mask star_bit else mask)))

unfoldable pub parse_term : Str → Bounds → Result CronError ℕ
parse_term term b = term_step term >>= λ (range, step, has_step).
    term_range term range has_step b >>= λ (lo, hi, star).
    term_mask term lo hi step (star && not has_step) b

-- The loop of `parseField`.
unfoldable pub parse_terms : List Str → Bounds → ℕ → Result CronError ℕ
parse_terms [] b mask = ok mask
parse_terms (t ∷ ts) b mask = parse_term t b >>= λ m. parse_terms ts b (bit_or mask m)

unfoldable pub parse_field : Str → Bounds → Result CronError ℕ
parse_field field b = let (part, parts) = split_on b',' field in parse_terms (part ∷ parts) b 0

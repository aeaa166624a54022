-- ===== src/Tests/Expressions.antt =====
-- The parser and its theorems on short expressions.
use cronflux.Common.{
  ℕ, ◌-◌, ◌^◌, ◌≡◌, ◌≤◌, refl, [], Bool, true, false, Str, codes, pos, arith, Result, ok, err, ap,
  ◌∙◌, ◌+◌,
}
use cronflux.Common.Bits.{bit}
use cronflux.Cron.Field.{
  minutes_bound, dow_bound, word, term_step, term_range, parse_term, parse_terms, term_mask,
  split_on, parse_field, fill, CronError, cut, parse_uint, digits_value, parse_value,
}
use cronflux.Common.Dict.{lookup}
use cronflux.Cron.Field.Mask.{Allows, parse_term-Allows}
use cronflux.Cron.Field.Terms.{fill_wraps}
use cronflux.Cron.Every.{IsNextFire, next, every, next-IsNextFire}
use cronflux.Cron.Spec.{normalize_dow}
use cronflux.Cron.Spec.Parsing.{NoWrap, parse_field-in_bounds, normalize_dow-parse_field}

next-IsNextFire_example : IsNextFire (pos 1500000000) 7 (next (every (pos 1500000000)) 7)
next-IsNextFire_example = next-IsNextFire (pos 1500000000) 7

fill_wraps_example : bit (fill 64 5 59 (word - 1) 0) 0 ≡ 1
fill_wraps_example = fill_wraps 64 5 59 0 0 (omega arith) (omega arith) (omega arith) (omega arith)

-- 10-30/15 of minutes: 10 and 25.
parse_term-Allows_example : (0 ≤ 10) × (10 ≤ 30) × (30 ≤ 59) × Allows (2 ^ 10 + 2 ^ 25) 10 30 15
unfolding parse_term term_step term_range term_mask fill
parse_term-Allows_example =
    parse_term-Allows (codes "10-30/15") (codes "10-30") 10 30 15 true false minutes_bound
      (2 ^ 10 + 2 ^ 25) (omega arith) refl refl (omega arith) refl

-- Monday to Friday.
abbrev days : Str
days = codes "1-5"

abbrev the_step : Result CronError (Str × ℕ × Bool) → Str × ℕ × Bool
the_step (ok p) = p
the_step (err e) = ([], 0, false)

abbrev the_range : Result CronError (ℕ × ℕ × Bool) → ℕ × ℕ × Bool
the_range (ok p) = p
the_range (err e) = (0, 0, false)

days-NoWrap : NoWrap dow_bound days
unfolding term_step term_range lookup cut parse_uint digits_value parse_value
days-NoWrap range step has_step lo hi star s r =
    let parts : Path (Str × ℕ × Bool) (days, 1, false) (range, step, has_step) = ap the_step s in
    let one : 1 ≡ step = ap (λ (p : Str × ℕ × Bool). p.1) parts in
    let five : 5 ≡ hi =
      ap (λ (p : Str × ℕ × Bool). (the_range (term_range days p.0 p.2 dow_bound)).1) parts
      ∙ ap (λ (q : Result CronError (ℕ × ℕ × Bool)). (the_range q).1) r in
    omega arith

parse_field-in_bounds_example : (0 ≤ 3) × (3 ≤ 6)
unfolding parse_field split_on parse_terms parse_term term_step term_range lookup term_mask fill bit
parse_field-in_bounds_example =
    parse_field-in_bounds days dow_bound 62 3 (omega arith) (days-NoWrap, tt) refl (omega arith)
      refl

normalize_dow-parse_field_example : normalize_dow 62 ≡ 62
unfolding parse_field split_on parse_terms parse_term term_step term_range lookup term_mask fill
normalize_dow-parse_field_example = normalize_dow-parse_field days 62 (days-NoWrap, tt) refl

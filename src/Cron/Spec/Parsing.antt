-- ===== src/Cron/Spec/Parsing.antt =====
-- `Parse` of cron/parser.go: surrounding white space, and the second spelling of Sunday.
use cronflux.Common.{
  ℕ, ◌+◌, ◌≤◌, ◌<◌, ◌≡◌, ◌≢◌, refl, sym, ap, ◌∙◌, [], ◌∷◌, ◌++◌, Bool, true, false, Option, Str,
  str_eq, ok, arith, Bool-cases, inl, inr, All, All→, Duration, >>=-eq-ok,
}
use cronflux.Common.Bits.{bit, bit_le, bit_and-pow}
use cronflux.Cron.Field.{Bounds, dow_bound, word, term_step, term_range, parse_term, parse_field}
use cronflux.Cron.Field.Mask.{parse_term-Allows}
use cronflux.Cron.Field.Terms.{terms, parse_field-HasTerm}
use cronflux.Cron.Spec.{
  is_space, trim_left, trim_right, trim, parse, parse_trimmed, normalize_dow, has_bit,
}

-- A text of white space alone.
abbrev pub IsBlank : Str → Type 0
IsBlank s = All (λ c. is_space c ≡ true) s

trim_left-append : (pre s : Str) → IsBlank pre → trim_left (pre ++ s) ≡ trim_left s
unfolding trim_left
trim_left-append [] s h = refl
trim_left-append (c ∷ pre) s h = rw h.0 (trim_left-append pre s h.1)

trim_left_blank : (s : Str) → IsBlank s → trim_left s ≡ []
unfolding trim_left
trim_left_blank [] h = refl
trim_left_blank (c ∷ s) h = rw h.0 (trim_left_blank s h.1)

trim_right_blank : (s : Str) → IsBlank s → trim_right s ≡ []
unfolding trim_right str_eq
trim_right_blank [] h = refl
trim_right_blank (c ∷ s) h = rw (h.0, trim_right_blank s h.1) refl

trim_right-append : (s post : Str) → IsBlank post → trim_right (s ++ post) ≡ trim_right s
unfolding trim_right
trim_right-append [] post h = trim_right_blank post h
trim_right-append (c ∷ s) post h = rw (trim_right-append s post h) refl

skip : (c : ℕ) (s : Str) → is_space c ≡ true → trim_left (c ∷ s) ≡ trim_left s
unfolding trim_left
skip c s e = rw e refl

stay : (c : ℕ) (s : Str) → is_space c ≡ false → trim_left (c ∷ s) ≡ c ∷ s
unfolding trim_left
stay c s e = rw e refl

trim-append : (s post : Str) → IsBlank post → trim (s ++ post) ≡ trim s
trim-append [] post h = ap trim_right (trim_left_blank post h ∙ sym (unfold trim_left in refl))
trim-append (c ∷ s) post h = elim (Bool-cases (is_space c)) [
  | inl e ↦
      ap trim_right (skip c (s ++ post) e) ∙ trim-append s post h ∙ sym (ap trim_right (skip c s e))
  | inr e ↦
      ap trim_right (stay c (s ++ post) e)
      ∙ trim_right-append (c ∷ s) post h
      ∙ sym (ap trim_right (stay c s e))
]

-- White space around an expression changes nothing, neither what is accepted nor the error.
parse-append :
    (parse_duration : Str → Option Duration) (pre s post : Str)
    → IsBlank pre
    → IsBlank post
    → parse parse_duration (pre ++ (s ++ post)) ≡ parse parse_duration s
unfolding parse
parse-append parse_duration pre s post h k =
    ap (parse_trimmed parse_duration)
      (ap trim_right (trim_left-append pre (s ++ post) h) ∙ trim-append s post k)

-- The step of every term of the field is too small to make the loop's counter wrap.
abbrev pub NoWrap : Bounds → Str → Type 0
NoWrap b t =
    (range : Str) (step : ℕ) (has_step : Bool) (lo hi : ℕ) (star : Bool)
    → term_step t ≡ ok (range, step, has_step)
    → term_range t range has_step b ≡ ok (lo, hi, star)
    → hi + step < word

term-in_bounds :
    (t : Str) (b : Bounds) (m k : ℕ)
    → b.max < 63
    → NoWrap b t
    → parse_term t b ≡ ok m
    → k < 63
    → bit m k ≡ 1
    → (b.min ≤ k) × (k ≤ b.max)
unfolding parse_term
term-in_bounds t b m k small n e h set =
    let ((range, step, has_step), s, rest) = >>=-eq-ok (term_step t) _ e in
    let ((lo, hi, star), r, last) = >>=-eq-ok (term_range t range has_step b) _ rest in
    let (low, ordered, high, allows) =
      parse_term-Allows t range lo hi step has_step star b m small s r
        (n range step has_step lo hi star s r) e in
    let (i, at, within) = (allows k h).0 set in (omega arith, omega arith)

-- The mask of an accepted field allows no number outside the bounds of the field, if no step is so
-- large that the loop's counter wraps.
pub parse_field-in_bounds :
    (field : Str) (b : Bounds) (m k : ℕ)
    → b.max < 63
    → All (NoWrap b) (terms field)
    → parse_field field b ≡ ok m
    → k < 63
    → bit m k ≡ 1
    → (b.min ≤ k) × (k ≤ b.max)
parse_field-in_bounds field b m k small n e h set =
    let (t, i, (q, f, on)) = (parse_field-HasTerm field b m k e).0 set in
    term-in_bounds t b q k small (All→ (NoWrap b) t (terms field) n i) f h on

clear-bit : (m k : ℕ) → bit m k ≢ 1 → has_bit m k ≡ false
clear-bit m k h = rw (bit_and-pow m k, zero_bit) (ground arith)
  where
    zero_bit : bit m k ≡ 0
    zero_bit = omega (arith, bit_le m k)

-- The fold of Sunday as 7 onto Sunday as 0 never has anything to do: the mask of an accepted
-- day-of-week field has no bit 7, unless a step makes the loop's counter wrap.
pub normalize_dow-parse_field :
    (field : Str) (m : ℕ)
    → All (NoWrap dow_bound) (terms field)
    → parse_field field dow_bound ≡ ok m
    → normalize_dow m ≡ m
unfolding normalize_dow
normalize_dow-parse_field field m n e =
    rw
      (clear-bit m 7 (λ on.
        too_big (parse_field-in_bounds field dow_bound m 7 (omega arith) n e (omega arith) on)))
      refl
  where
    too_big : (0 ≤ 7) × (7 ≤ 6) → ⊥
    too_big h = omega arith

-- ===== src/Cron/Field/Terms.antt =====
-- The comma-separated terms of a field of cron/field.go, and the step that makes the loop wrap.
use Prim.Native.Nat.{bit_or, max}
use native.Mathlib.Decide.{ℕ_discrete}
use cronflux.Common.{
  ℕ, zero, suc, ◌+◌, ◌-◌, ◌%◌, ◌≤◌, ◌<◌, ◌≡◌, ◌⊎◌, ◌↔◌, refl, sym, ap, subst, ◌∙◌, inl, inr, List,
  [], ◌∷◌, Str, Result, ok, arith, In, >>=-eq-ok,
}
use cronflux.Common.Bits.{bit, bit_le, bit-bit_or, bit-zero}
use cronflux.Cron.Field.{
  Bounds, CronError, fill, word, split_on, parse_term, parse_terms, parse_field,
}
use cronflux.Cron.Field.Loop.{fill_round, fill_keeps, set_bit, bit-set_bit_self}

-- Some term of the list is accepted, and its mask has the bit.
abbrev pub HasTerm : Bounds → ℕ → List Str → Type 0
HasTerm b k ts = (t : Str) × In t ts × ((m : ℕ) × (parse_term t b ≡ ok m) × (bit m k ≡ 1))

max-cases : (a b : ℕ) → a ≤ 1 → b ≤ 1 → (max a b ≡ 1) ↔ ((a ≡ 1) ⊎ (b ≡ 1))
max-cases a b p q = (λ h. grind arith, λ h. omega arith)

bit_or-cases : (a b k : ℕ) → (bit (bit_or a b) k ≡ 1) ↔ ((bit a k ≡ 1) ⊎ (bit b k ≡ 1))
bit_or-cases a b k =
    let c = max-cases (bit a k) (bit b k) (bit_le a k) (bit_le b k) in
    (λ h. c.0 (sym (bit-bit_or a b k) ∙ h), λ h. bit-bit_or a b k ∙ c.1 h)

ok-injective : (x y : ℕ) → ◌≡◌ {A = Result CronError ℕ} (ok x) (ok y) → x ≡ y
ok-injective x y e = cc

parse_terms-HasTerm :
    (ts : List Str) (b : Bounds) (mask m k : ℕ)
    → parse_terms ts b mask ≡ ok m
    → (bit m k ≡ 1) ↔ ((bit mask k ≡ 1) ⊎ HasTerm b k ts)
unfolding parse_terms
parse_terms-HasTerm [] b mask m k e =
    let same : mask ≡ m = ground arith in
    (
      λ h. inl (ap (λ (n : ℕ). bit n k) same ∙ h),
      λ h. elim h [
        | inl old ↦ ap (λ (n : ℕ). bit n k) (sym same) ∙ old
        | inr (t, i, r) ↦ elim i [ ]
      ],
    )
parse_terms-HasTerm (t ∷ ts) b mask m k e =
    let (n, f, g) = >>=-eq-ok (parse_term t b) (λ x. parse_terms ts b (bit_or mask x)) e in
    let rest = parse_terms-HasTerm ts b (bit_or mask n) m k g in
    (
      λ h. elim (rest.0 h) [
        | inr (u, i, r) ↦ inr (u, inr i, r)
        | inl or ↦ elim ((bit_or-cases mask n k).0 or) [
          | inl old ↦ inl old
          | inr new ↦ inr (t, inl refl, (n, f, new))
        ]
      ],
      λ h. elim h [
        | inl old ↦ rest.1 (inl ((bit_or-cases mask n k).1 (inl old)))
        | inr (u, inr i, r) ↦ rest.1 (inr (u, i, r))
        | inr (u, inl i, (q, l, set)) ↦
            rest.1 (inl ((bit_or-cases mask n k).1 (inr (head_bit t u n q f l set i))))
      ],
    )
  where
    head_bit :
        (a c : Str) (x y : ℕ)
        → parse_term a b ≡ ok x
        → parse_term c b ≡ ok y
        → bit y k ≡ 1
        → a ≡ c
        → bit x k ≡ 1
    head_bit a c x y f l set i =
        let both : ok x ≡ ok y = sym f ∙ ap (λ (z : Str). parse_term z b) i ∙ l in
        ap (λ (z : ℕ). bit z k) (ok-injective x y both) ∙ set

-- The terms of a field.
abbrev pub terms : Str → List Str
terms field = let (part, parts) = split_on b',' field in part ∷ parts

-- The mask of an accepted field has a bit exactly if the mask of one of its terms has it.
pub parse_field-HasTerm :
    (field : Str) (b : Bounds) (m k : ℕ)
    → parse_field field b ≡ ok m
    → (bit m k ≡ 1) ↔ HasTerm b k (terms field)
unfolding parse_field
parse_field-HasTerm field b m k e =
    let both = parse_terms-HasTerm (terms field) b 0 m k e in
    (
      λ h. elim (both.0 h) [ inl old ↦ absurd (omega (arith, bit-zero k)) | inr r ↦ r ],
      λ r. both.1 (inr r),
    )

-- With the step 2^64 - 1 the counter of the loop falls instead of growing: over a non-empty range
-- below 64 it sets every bit from the start of the range down to zero, given a round for each.
pub fill_wraps :
    (fuel lo hi mask k : ℕ)
    → lo ≤ hi
    → hi < 64
    → lo < fuel
    → k ≤ lo
    → bit (fill fuel lo hi (word - 1) mask) k ≡ 1
fill_wraps zero lo hi mask k le small enough h = absurd (omega arith)
fill_wraps (suc fuel) lo hi mask k le small enough h =
    rw (fill_round fuel lo hi (word - 1) mask le) (elim (ℕ_discrete k lo) [
      | yes same ↦ rw same (
          fill_keeps fuel ((lo + (word - 1)) % word) hi (word - 1) (set_bit mask lo) lo small
            (omega (arith, bit-set_bit_self mask lo (omega arith), bit_le mask lo)))
      | no below ↦
          let down : (lo + (word - 1)) % word ≡ lo - 1 = omega arith in
          subst (λ (i : ℕ). bit (fill fuel i hi (word - 1) (set_bit mask lo)) k ≡ 1) (sym down)
            (fill_wraps fuel (lo - 1) hi (set_bit mask lo) k (omega arith) small (omega arith)
              (omega arith))
    ])

-- ===== src/Lint/Nolint/Suppression.antt =====
-- What the NOLINT comments suppress, and what they leave alone.
use mit_6172_fa15_project.Base.{
  ◌⊎◌, suc, ap, length, length-append, take, ℕ, ◌-◌, Bool, true, false, ◌&&◌, List, [], ◌∷◌, ◌++◌,
  Option, none, some, Text, ◌==◌, ◌≡◌, ◌≢◌, refl, if◌then◌else◌, elem, arith, Bool-cases, inl, inr,
}
use mathlib.Core.List.{reverse-append}
use mit_6172_fa15_project.Str.{codes, is_in, text_eq, starts_with, ends_with}
use mit_6172_fa15_project.Str.Laws.{key_eq, key_eq_iff}
use mit_6172_fa15_project.Regex.Find.{Hit, search, group_of}
use mit_6172_fa15_project.Lint.{Event, suppress, report, Suppressions}
use mit_6172_fa15_project.Lint.Nolint.{
  add_suppression, suppressed_lines, is_error_suppressed_by_nolint, parse_nolint_suppressions,
  add_line, inner, error_categories, parse_category, parse_match, re_suppression,
}

elem-add_line : (n m : ℕ) (s : List ℕ) → elem m (add_line n s) ≡ (if n == m then true else elem m s)
unfolding elem
elem-add_line n m s = elim (Bool-cases (elem n s)) [
  | inl y ↦ rw y (known (Bool-cases (n == m)) y)
  | inr new ↦ rw new (ground arith)
]
  where
    known :
        ((n == m) ≡ true) ⊎ ((n == m) ≡ false)
        → elem n s ≡ true
        → elem m s ≡ (if n == m then true else elem m s)
    known (inl e) y = let e' : n ≡ m = ground arith in rw (e, ← e') y
    known (inr e) y = rw e

abbrev pub both : Bool → Bool → Bool
both a b = a && b

elem-add_suppression :
    (k j : Option Text) (n m : ℕ) (σ : Suppressions)
    → elem m (suppressed_lines j (add_suppression k n σ))
      ≡ (if both (key_eq k j) (n == m) then true else elem m (suppressed_lines j σ))
unfolding add_suppression suppressed_lines
elem-add_suppression k j n m [] = unfold elem in ground arith
elem-add_suppression k j n m ((i, s) ∷ σ) = ground (
  arith,
  elem-add_suppression k j n m σ,
  elem-add_line n m s,
  key_eq_iff i k,
  key_eq_iff i j,
  key_eq_iff k j,
)

-- Whether an entry for `k` suppresses the category: `none` stands for every category.
abbrev pub covers : Option Text → Text → Bool
covers none category = true
covers (some k) category = text_eq k category

-- An entry suppresses its category, or all of them, on its line, and nothing else changes.
pub is_suppressed-add_suppression :
    (k : Option Text) (category : Text) (n m : ℕ) (σ : Suppressions)
    → is_error_suppressed_by_nolint (add_suppression k n σ) category m ≡ (
        if both (covers k category) (n == m)
        then true
        else is_error_suppressed_by_nolint σ category m)
unfolding is_error_suppressed_by_nolint key_eq
is_suppressed-add_suppression none category n m σ =
    ground
      (arith, elem-add_suppression none (some category) n m σ, elem-add_suppression none none n m σ)
is_suppressed-add_suppression (some k) category n m σ = ground (
  arith,
  elem-add_suppression (some k) (some category) n m σ,
  elem-add_suppression (some k) none n m σ,
)

-- The suppressions after the events of a run.
unfoldable pub suppress_all : List Event → Suppressions → Suppressions
suppress_all [] σ = σ
suppress_all (report r ∷ es) σ = suppress_all es σ
suppress_all (suppress k n ∷ es) σ = suppress_all es (add_suppression k n σ)

-- A comment on one line suppresses nothing on another line.
pub parse_nolint_other_lines :
    (raw_line category : Text) (n m : ℕ) (σ : Suppressions)
    → n ≢ m
    → is_error_suppressed_by_nolint
        (suppress_all (parse_nolint_suppressions raw_line n) σ)
        category
        m
      ≡ is_error_suppressed_by_nolint σ category m
unfolding parse_nolint_suppressions
parse_nolint_other_lines raw_line category n m σ d = matched (search re_suppression raw_line)
  where
    entry :
        (k : Option Text)
        → is_error_suppressed_by_nolint (add_suppression k n σ) category m
          ≡ is_error_suppressed_by_nolint σ category m
    entry k = ground (arith, is_suppressed-add_suppression k category n m σ)

    grouped :
        (o : Option Text)
        → is_error_suppressed_by_nolint (suppress_all (parse_category n o) σ) category m
          ≡ is_error_suppressed_by_nolint σ category m
    grouped none = unfold suppress_all parse_category in entry none
    grouped (some c) =
        unfold suppress_all parse_category in ground (arith, entry none, entry (some (inner c)))

    matched :
        (o : Option Hit)
        → is_error_suppressed_by_nolint (suppress_all (parse_match n o) σ) category m
          ≡ is_error_suppressed_by_nolint σ category m
    matched none = unfold suppress_all parse_match in refl
    matched (some h) = unfold parse_match in grouped (group_of h 1)

pub parse_nolint-bare_events :
    (raw_line : Text) (n : ℕ) (h : Hit)
    → search re_suppression raw_line ≡ some h
    → group_of h 1 ≡ none
    → parse_nolint_suppressions raw_line n ≡ suppress none n ∷ []
unfolding parse_nolint_suppressions
parse_nolint-bare_events raw_line n h found bare =
    rw (found, parse_match, bare, parse_category) refl

-- A comment `NOLINT` with no category, as the pattern finds it, suppresses every category on its line.
pub parse_nolint_bare :
    (raw_line category : Text) (n : ℕ) (σ : Suppressions) (h : Hit)
    → search re_suppression raw_line ≡ some h
    → group_of h 1 ≡ none
    → is_error_suppressed_by_nolint
        (suppress_all (parse_nolint_suppressions raw_line n) σ)
        category
        n
      ≡ true
unfolding parse_nolint_suppressions suppress_all
parse_nolint_bare raw_line category n σ h found bare =
    rw (found, parse_match, bare, parse_category)
      (ground (arith, is_suppressed-add_suppression none category n n σ))

abbrev bracketed : Text → Text
bracketed k = b'(' ∷ (k ++ b')' ∷ [])

take-length-append : (k t : Text) → take (length k) (k ++ t) ≡ k
take-length-append [] t = refl
take-length-append (x ∷ k) t = ap (◌∷◌ x) (take-length-append k t)

inner-bracketed : (k : Text) → inner (bracketed k) ≡ k
inner-bracketed k =
    let e : length (bracketed k) - 1 ≡ suc (length k) =
      omega (arith, length-append k (b')' ∷ [])) in
    rw e (take-length-append k (b')' ∷ []))

ends_with-bracketed : (k : Text) → ends_with (bracketed k) (codes ")") ≡ true
unfolding ends_with codes
ends_with-bracketed k = rw (reverse-append (b'(' ∷ k) (b')' ∷ [])) refl

starts_with-bracketed : (k : Text) → starts_with (bracketed k) (codes "(") ≡ true
unfolding starts_with codes
starts_with-bracketed k = refl

star-not_category : is_in (b'*' ∷ []) error_categories ≡ false
unfolding is_in error_categories
star-not_category = refl

-- `(*)` stands for every category, and `*` is none of the list.
star_apart :
    (k : Text) → is_in k error_categories ≡ true → text_eq (bracketed k) (codes "(*)") ≡ false
unfolding text_eq codes
star_apart [] known = refl
star_apart (x ∷ []) known = elim (Bool-cases (x == b'*')) [
  | inl e ↦
      let e' : x ≡ b'*' = ground arith in
      cc (star-not_category, ap (λ c. is_in (c ∷ []) error_categories) e')
  | inr e ↦ rw e
]
star_apart (x ∷ y ∷ []) known = ground arith
star_apart (x ∷ y ∷ z ∷ k) known = ground arith

-- A comment that names a category of the list suppresses it on its line, and changes nothing for
-- the other categories.
pub parse_nolint_category :
    (raw_line k category : Text) (n : ℕ) (σ : Suppressions) (h : Hit)
    → search re_suppression raw_line ≡ some h
    → group_of h 1 ≡ some (b'(' ∷ (k ++ b')' ∷ []))
    → is_in k error_categories ≡ true
    → is_error_suppressed_by_nolint
        (suppress_all (parse_nolint_suppressions raw_line n) σ)
        category
        n
      ≡ (if text_eq k category then true else is_error_suppressed_by_nolint σ category n)
unfolding parse_nolint_suppressions suppress_all
parse_nolint_category raw_line k category n σ h found group known =
    rw
      (
        found,
        parse_match,
        group,
        parse_category,
        star_apart k known,
        starts_with-bracketed k,
        ends_with-bracketed k,
        inner-bracketed k,
        known,
      )
      (ground (arith, is_suppressed-add_suppression (some k) category n n σ))

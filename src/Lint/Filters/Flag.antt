-- ===== src/Lint/Filters/Flag.antt =====
-- Which flags `SetFilters` (clint.py:545) takes.
use mathlib.Core.List.{reverse-append}
use mit_6172_fa15_project.Base.{
  ℕ, true, false, ◌||◌, List, [], ◌∷◌, ◌++◌, Text, ◌==◌, ◌≡◌, ◌↔◌, ◌⊎◌, inl, inr, refl, ap, ◌∙◌,
  if◌then◌else◌, All, arith, map, keep, reverse, Bool-cases,
}
use mit_6172_fa15_project.Str.{strip_bytes, lstrip_bytes, is_byte_space, split}
use mit_6172_fa15_project.Lint.{CppLintState}
use mit_6172_fa15_project.Lint.Filters.{
  is_signed, nonempty, clean_filters, set_filters, IsSigned, set_filters_returns_iff,
}

abbrev pub IsBlank : Text → Type 0
IsBlank s = All (λ c. is_byte_space c ≡ true) s

-- A part of the flag between commas that the call takes: only white space, or, behind white space, a
-- text that starts with + or -.
pub data IsAllowed (part : Text) : Type 0 where
  blank : IsBlank part → IsAllowed part
  signed :
      (front rest : Text) (sign : ℕ)
      → IsBlank front
      → (sign ≡ b'+') ⊎ (sign ≡ b'-')
      → part ≡ front ++ sign ∷ rest
      → IsAllowed part

-- The first character that is no white space.
record IsFirst (part : Text) (c : ℕ) (rest : Text) : Type 0 where
  front : Text
  in_front : IsBlank front
  visible : is_byte_space c ≡ false
  split_at : part ≡ front ++ c ∷ rest

lstrip_bytes-blank : (s : Text) → IsBlank s → lstrip_bytes s ≡ []
unfolding lstrip_bytes
lstrip_bytes-blank [] h = refl
lstrip_bytes-blank (x ∷ s) h = rw h.0 (lstrip_bytes-blank s h.1)

lstrip_bytes-append :
    (front rest : Text) (c : ℕ)
    → IsBlank front
    → is_byte_space c ≡ false
    → lstrip_bytes (front ++ c ∷ rest) ≡ c ∷ rest
unfolding lstrip_bytes
lstrip_bytes-append [] rest c h v = rw v refl
lstrip_bytes-append (x ∷ front) rest c h v = rw h.0 (lstrip_bytes-append front rest c h.1 v)

IsFirst-or_IsBlank : (s : Text) → IsBlank s ⊎ ((c : ℕ) × (rest : Text) × IsFirst s c rest)
IsFirst-or_IsBlank [] = inl tt
IsFirst-or_IsBlank (x ∷ s) = elim (Bool-cases (is_byte_space x)) [
  | inr n ↦ inr (x, s, record { front = []; in_front = tt; visible = n; split_at = refl })
  | inl y ↦ elim (IsFirst-or_IsBlank s) [
    | inl b ↦ inl (y, b)
    | inr (c, rest, f) ↦ inr (
      c,
      rest,
      record {
        front = x ∷ f.front;
        in_front = (y, f.in_front);
        visible = f.visible;
        split_at = ap (λ u. x ∷ u) f.split_at;
      },
    )
  ]
]

-- White space at the end is stripped up to a character that is none.
lstrip_bytes-snoc :
    (s : Text) (c : ℕ)
    → is_byte_space c ≡ false
    → (t : Text) × (lstrip_bytes (s ++ c ∷ []) ≡ t ++ c ∷ [])
unfolding lstrip_bytes
lstrip_bytes-snoc [] c v = ([], rw v refl)
lstrip_bytes-snoc (x ∷ s) c v = elim (Bool-cases (is_byte_space x)) [
  | inl y ↦ rw y (lstrip_bytes-snoc s c v)
  | inr n ↦ rw n (x ∷ s, refl)
]

strip_bytes-blank : (s : Text) → IsBlank s → strip_bytes s ≡ []
unfolding strip_bytes lstrip_bytes
strip_bytes-blank s h = ap (λ t. reverse (lstrip_bytes (reverse t))) (lstrip_bytes-blank s h)

strip_bytes-first :
    (s : Text) (c : ℕ) (rest : Text) → IsFirst s c rest → (more : Text) × (strip_bytes s ≡ c ∷ more)
unfolding strip_bytes
strip_bytes-first s c rest f =
    let (t, e) = lstrip_bytes-snoc (reverse rest) c f.visible in
    let begun : lstrip_bytes s ≡ c ∷ rest =
      ap lstrip_bytes f.split_at ∙ lstrip_bytes-append f.front rest c f.in_front f.visible in
    (
      reverse t,
      ap (λ u. reverse (lstrip_bytes (reverse u))) begun
          ∙ ap (λ u. reverse (lstrip_bytes u)) (reverse-append (c ∷ []) rest)
          ∙ ap reverse e
          ∙ reverse-append t (c ∷ []),
    )

-- The two tests of a filter.
Passes : Text → Type 0
Passes filter = (nonempty filter ≡ false) ⊎ (is_signed filter ≡ true)

Passes-iff : (part : Text) → Passes (strip_bytes part) ↔ IsAllowed part
unfolding Passes is_signed is_byte_space
Passes-iff part = (to (IsFirst-or_IsBlank part), from)
  where
    to :
        IsBlank part ⊎ ((c : ℕ) × (rest : Text) × IsFirst part c rest)
        → Passes (strip_bytes part)
        → IsAllowed part
    to (inl b) p = blank b
    to (inr (c, rest, f)) p =
        let (more, e) = strip_bytes-first part c rest f in
        signed f.front rest c f.in_front (sign_of c more (rw e at p)) f.split_at
      where
        sign_of : (c : ℕ) (more : Text) → Passes (c ∷ more) → (c ≡ b'+') ⊎ (c ≡ b'-')
        sign_of c more (inl e) = cc
        sign_of c more (inr e) = ground arith

    from : IsAllowed part → Passes (strip_bytes part)
    from (blank b) = inl (ap nonempty (strip_bytes-blank part b))
    from (signed front rest c b g e) =
        let (more, q) =
          strip_bytes-first part c rest
            (record { front = front; in_front = b; visible = seen g; split_at = e }) in
        inr (ap is_signed q ∙ is_sign g)
      where
        seen : (c ≡ b'+') ⊎ (c ≡ b'-') → is_byte_space c ≡ false
        seen (inl h) = rw h refl
        seen (inr h) = rw h refl

        is_sign : (c ≡ b'+') ⊎ (c ≡ b'-') → (c == b'+' || c == b'-') ≡ true
        is_sign (inl h) = rw h refl
        is_sign (inr h) = rw h refl

keep-IsSigned :
    (t : Text) (ts : List Text)
    → All IsSigned (if nonempty t then t ∷ ts else ts) ↔ (Passes t × All IsSigned ts)
unfolding Passes is_signed
keep-IsSigned [] ts = (λ h. (inl refl, h), λ p. p.1)
keep-IsSigned (x ∷ t) ts = (λ h. (inr h.0, h.1), λ (p, k). (passed p, k))
  where
    passed : Passes (x ∷ t) → is_signed (x ∷ t) ≡ true
    passed (inl e) = cc
    passed (inr e) = e

All-kept :
    (parts : List Text) → All IsSigned (keep nonempty (map strip_bytes parts)) ↔ All IsAllowed parts
unfolding keep
All-kept [] = (λ h. tt, λ h. tt)
All-kept (part ∷ parts) =
    let (f, g) = All-kept parts in
    let (to, from) = Passes-iff part in
    let (a, b) = keep-IsSigned (strip_bytes part) (keep nonempty (map strip_bytes parts)) in
    (λ h. (to (a h).0, f (a h).1), λ (p, k). b (from p, g k))

-- `SetFilters` returns exactly when each part of the flag between commas is white space only or is
-- white space in front of a text that starts with + or -; any other part raises ValueError.
pub set_filters-IsAllowed :
    (filters : Text) (s : CppLintState)
    → ((set_filters filters s).1 ≡ true) ↔ All IsAllowed (split b',' filters)
unfolding clean_filters
set_filters-IsAllowed filters s =
    let (a, b) = set_filters_returns_iff filters s in
    let (f, g) = All-kept (split b',' filters) in (λ h. f (a h), λ k. b (g k))

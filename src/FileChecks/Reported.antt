-- ===== src/FileChecks/Reported.antt =====
-- Which files the whole-file checks report.
use mit_6172_fa15_project.Base.{
  ℕ, zero, suc, ◌+◌, ◌<◌, Bool, true, false, List, [], ◌∷◌, some, Text, get_elem?, take, any, ◌≡◌,
  ◌↔◌, ◌⊎◌, inl, inr, refl, ap, ◌∙◌, arith, In, here, there, In-cons_cases, Bool-cases,
}
use mit_6172_fa15_project.FileChecks.{
  has_copyright, check_for_copyright, utf8_error, has_replacement, check_unicode_from,
  check_for_unicode_replacement_characters,
}

any-at :
    (p : Text → Bool) (lines : List Text)
    → any p lines ≡ true
    → (i : ℕ) × (line : Text) × (get_elem? lines i ≡ some line) × (p line ≡ true)
unfolding any
any-at p [] h = cc
any-at p (line ∷ lines) h = elim (Bool-cases (p line)) [
  | inl y ↦ (0, line, refl, y)
  | inr n ↦ let (i, l, e, t) = any-at p lines (ground arith) in (suc i, l, e, t)
]

at-any :
    (p : Text → Bool) (lines : List Text) (i : ℕ) (line : Text)
    → get_elem? lines i ≡ some line
    → p line ≡ true
    → any p lines ≡ true
unfolding any
at-any p [] i line e t = cc
at-any p (x ∷ lines) zero line e t = ground arith
at-any p (x ∷ lines) (suc i) line e t = ground (arith, at-any p lines i line e t)

get_elem?-take :
    (n i : ℕ) (lines : List Text) (line : Text)
    → (get_elem? (take n lines) i ≡ some line) ↔ ((i < n) × (get_elem? lines i ≡ some line))
get_elem?-take zero i lines line = (λ h. cc, λ h. absurd (omega arith))
get_elem?-take (suc n) i [] line = (λ h. cc, λ h. cc (h.1))
get_elem?-take (suc n) zero (x ∷ lines) line = (λ h. (omega arith, h), λ h. h.1)
get_elem?-take (suc n) (suc i) (x ∷ lines) line =
    let (a, b) = get_elem?-take n i lines line in
    (λ h. (omega (arith, (a h).0), (a h).1), λ h. b (omega arith, h.1))

-- The copyright check is silent exactly if one of the lines 1 to 10 has the word.
pub check_for_copyright_silent :
    (marker : Text) (lines : List Text)
    → (check_for_copyright (marker ∷ lines) ≡ []) ↔ (
        (i : ℕ) × (line : Text) × (i < 10)
        × (get_elem? lines i ≡ some line)
        × (has_copyright line ≡ true))
unfolding check_for_copyright
check_for_copyright_silent marker lines = (found, silent)
  where
    found :
        check_for_copyright (marker ∷ lines) ≡ []
        → (i : ℕ) × (line : Text) × (i < 10)
          × (get_elem? lines i ≡ some line)
          × (has_copyright line ≡ true)
    found h =
        let (i, line, e, t) = any-at has_copyright (take 10 lines) (ground arith) in
        let (b, g) = (get_elem?-take 10 i lines line).0 e in (i, line, b, g, t)

    silent :
        ((i : ℕ) × (line : Text) × (i < 10)
          × (get_elem? lines i ≡ some line)
          × (has_copyright line ≡ true))
        → check_for_copyright (marker ∷ lines) ≡ []
    silent (i, line, b, g, t) =
        rw
          (at-any has_copyright (take 10 lines) i line ((get_elem?-take 10 i lines line).1 (b, g))
            t)
          refl

check_unicode_from-In :
    (k n : ℕ) (lines : List Text) (line : Text)
    → get_elem? lines n ≡ some line
    → has_replacement line ≡ true
    → In (utf8_error (k + n)) (check_unicode_from k lines)
unfolding check_unicode_from
check_unicode_from-In k n [] line e t = cc
check_unicode_from-In k zero (x ∷ lines) line e t =
    let e' : x ≡ line = ground arith in rw (e', t) (here (ap utf8_error (omega arith)))
check_unicode_from-In k (suc n) (x ∷ lines) line e t =
    let q : k + suc n ≡ k + 1 + n = omega arith in
    later (Bool-cases (has_replacement x)) (rw q (check_unicode_from-In (k + 1) n lines line e t))
  where
    later :
        (has_replacement x ≡ true) ⊎ (has_replacement x ≡ false)
        → In (utf8_error (k + suc n)) (check_unicode_from (k + 1) lines)
        → In (utf8_error (k + suc n)) (check_unicode_from k (x ∷ lines))
    later (inl y) m = rw y (there m)
    later (inr n) m = rw n m

utf8_error_inj : (m k : ℕ) → utf8_error m ≡ utf8_error k → m ≡ k
utf8_error_inj m k e = ground arith

In-check_unicode_from :
    (k m : ℕ) (lines : List Text)
    → In (utf8_error m) (check_unicode_from k lines)
    → (n : ℕ) × (line : Text) × (m ≡ k + n)
      × (get_elem? lines n ≡ some line)
      × (has_replacement line ≡ true)
unfolding check_unicode_from
In-check_unicode_from k m [] h = elim h [ ]
In-check_unicode_from k m (x ∷ lines) h = elim (Bool-cases (has_replacement x)) [
  | inl y ↦ elim (In-cons_cases (rw y at h)) [
    | inl e ↦ (0, x, utf8_error_inj m k e ∙ omega arith, refl, y)
    | inr later ↦
        let (n, line, q, e, t) = In-check_unicode_from (k + 1) m lines later in
        (suc n, line, omega arith, e, t)
  ]
  | inr none_here ↦
      let (n, line, q, e, t) = In-check_unicode_from (k + 1) m lines (rw none_here at h) in
      (suc n, line, omega arith, e, t)
]

-- A line is reported exactly if it holds a replacement character.
pub check_for_unicode_iff :
    (lines : List Text) (m : ℕ)
    → In (utf8_error m) (check_for_unicode_replacement_characters lines)
      ↔ ((line : Text) × (get_elem? lines m ≡ some line) × (has_replacement line ≡ true))
check_for_unicode_iff lines m = (
  λ h.
      let (n, line, q, e, t) = In-check_unicode_from 0 m lines h in
      let q' : m ≡ n = omega arith in (line, rw q' e, t),
  λ (line, e, t).
      let q : 0 + m ≡ m = omega arith in rw (← q) (check_unicode_from-In 0 m lines line e t),
)

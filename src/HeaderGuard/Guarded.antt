-- ===== src/HeaderGuard/Guarded.antt =====
-- Which headers are guarded, and what happens to one with no #ifndef.
use mit_6172_fa15_project.Base.{
  ℕ, ◌+◌, true, List, [], ◌∷◌, ◌++◌, Option, none, some, Text, if◌then◌else◌, ◌≡◌, ◌↔◌, refl, sym,
  ap, ◌∙◌, All, Bool-cases, inl, inr,
}
use mathlib.Core.Path.{ap₂}
use mit_6172_fa15_project.Str.{codes, starts_with, text_eq}
use mit_6172_fa15_project.Str.Laws.{text_eq_iff, text_eq_refl}
use mit_6172_fa15_project.Lint.{Event}
use mit_6172_fa15_project.HeaderGuard.{
  reports, unbound_local_error, Found, nothing_found, argument, read_line, read_lines, keep_first,
  check_endif, check_names, check_for_header_guard, check_found, is_text,
}

-- The argument of the first line that has the directive.
unfoldable pub first_argument : Text → List Text → Option Text
first_argument directive [] = none
first_argument directive (line ∷ lines) =
    keep_first (argument directive line) (first_argument directive lines)

abbrev pub endif_in : Text → Option Text
endif_in line = if starts_with line (codes "#endif") then some line else none

-- The last line that starts with #endif.
unfoldable pub last_endif : List Text → Option Text
last_endif [] = none
last_endif (line ∷ lines) = keep_first (last_endif lines) (endif_in line)

keep_first_assoc :
    (a b c : Option Text) → keep_first (keep_first a b) c ≡ keep_first a (keep_first b c)
keep_first_assoc none b c = refl
keep_first_assoc (some x) b c = refl

keep_none : (o : Option Text) → keep_first o none ≡ o
keep_none none = refl
keep_none (some x) = refl

some-none : (v : Text) → ¬ (some v ≡ none)
some-none v e = cc

is_text-some : (o : Option Text) (t : Text) → is_text o t ≡ true → o ≡ some t
is_text-some none t h = cc
is_text-some (some s) t h = ap some ((text_eq_iff s t).0 h)

read_line_fields :
    (line : Text) (linenum : ℕ) (f : Found)
    → ((read_line line linenum f).ifndef ≡ keep_first f.ifndef (argument (codes "#ifndef") line))
      × ((read_line line linenum f).define ≡ keep_first f.define (argument (codes "#define") line))
      × ((read_line line linenum f).endif ≡ keep_first (endif_in line) f.endif)
unfolding read_line
read_line_fields line linenum f = elim (Bool-cases (starts_with line (codes "#endif"))) [
  | inl y ↦ rw y (refl, refl, refl)
  | inr n ↦ rw n (refl, refl, refl)
]

record Reads (lines : List Text) (f g : Found) : Type 0 where
  ifndef : g.ifndef ≡ keep_first f.ifndef (first_argument (codes "#ifndef") lines)
  define : g.define ≡ keep_first f.define (first_argument (codes "#define") lines)
  endif : g.endif ≡ keep_first (last_endif lines) f.endif

read_lines-Reads :
    (lines : List Text) (linenum : ℕ) (f : Found) → Reads lines f (read_lines lines linenum f)
unfolding read_lines first_argument last_endif
read_lines-Reads [] linenum f = record {
  ifndef = sym (keep_none f.ifndef);
  define = sym (keep_none f.define);
  endif = refl;
}
read_lines-Reads (line ∷ lines) linenum f =
    let r = read_lines-Reads lines (linenum + 1) (read_line line linenum f) in
    let (a, b, c) = read_line_fields line linenum f in
    record {
      ifndef =
          r.ifndef
          ∙ ap (λ o. keep_first o (first_argument (codes "#ifndef") lines)) a
          ∙ keep_first_assoc f.ifndef (argument (codes "#ifndef") line) _;
      define =
          r.define
          ∙ ap (λ o. keep_first o (first_argument (codes "#define") lines)) b
          ∙ keep_first_assoc f.define (argument (codes "#define") line) _;
      endif =
          r.endif
          ∙ ap (keep_first (last_endif lines)) c
          ∙ sym (keep_first_assoc (last_endif lines) (endif_in line) f.endif);
    }

-- The loop ends with the first names and the last #endif line.
found_fields :
    (lines : List Text)
    → ((read_lines lines 0 nothing_found).ifndef ≡ first_argument (codes "#ifndef") lines)
      × ((read_lines lines 0 nothing_found).define ≡ first_argument (codes "#define") lines)
      × ((read_lines lines 0 nothing_found).endif ≡ last_endif lines)
found_fields lines =
    let r = read_lines-Reads lines 0 nothing_found in
    (r.ifndef, r.define, r.endif ∙ keep_none (last_endif lines))

check_unfolds :
    (lines : List Text)
    → check_for_header_guard lines
      ≡ check_found lines
          (read_lines lines 0 nothing_found)
          (first_argument (codes "#ifndef") lines)
          (first_argument (codes "#define") lines)
unfolding check_for_header_guard
check_unfolds lines =
    let (a, b, c) = found_fields lines in
    ap₂ (check_found lines (read_lines lines 0 nothing_found)) a b

none_of_keep : (o p : Option Text) → (keep_first o p ≡ none) ↔ ((o ≡ none) × (p ≡ none))
none_of_keep none p = (λ h. (refl, h), λ h. h.1)
none_of_keep (some v) p = (λ h. absurd (some-none v h), λ h. h.0)

none_of_All :
    (directive : Text) (lines : List Text)
    → (first_argument directive lines ≡ none) ↔ All (λ line. argument directive line ≡ none) lines
unfolding first_argument
none_of_All directive [] = (λ h. tt, λ h. refl)
none_of_All directive (line ∷ lines) =
    let (a, b) = none_of_keep (argument directive line) (first_argument directive lines) in
    (
      λ h. ((a h).0, (none_of_All directive lines).0 (a h).1),
      λ h. b (h.0, (none_of_All directive lines).1 h.1),
    )

-- A header with no #ifndef line raises UnboundLocalError, and no other header does.
pub unbound_local_error_iff :
    (lines : List Text)
    → (check_for_header_guard lines ≡ unbound_local_error)
      ↔ All (λ line. argument (codes "#ifndef") line ≡ none) lines
unbound_local_error_iff lines = (
  λ h. (none_of_All (codes "#ifndef") lines).0 (unbound _ _ (sym (check_unfolds lines) ∙ h)),
  λ h. check_unfolds lines ∙ rw ((none_of_All (codes "#ifndef") lines).1 h) refl,
)
  where
    unbound :
        (o d : Option Text)
        → check_found lines (read_lines lines 0 nothing_found) o d ≡ unbound_local_error
        → o ≡ none
    unbound none d e = refl
    unbound (some x) none e = cc
    unbound (some x) (some y) e = cc

-- The guard `g` of a header that is guarded as the check wants.
pub record IsGuarded (lines : List Text) (g : Text) : Type 0 where
  pub ifndef : first_argument (codes "#ifndef") lines ≡ some g
  pub define : first_argument (codes "#define") lines ≡ some g
  pub endif : last_endif lines ≡ some (codes "#endif  // " ++ g)

append-ne-nil : (es : List Event) (e : Event) → ¬ (es ++ e ∷ [] ≡ [])
append-ne-nil [] e h = cc
append-ne-nil (x ∷ es) e h = cc

endif_silent :
    (lines : List Text) (f : Found) (g : Text)
    → check_endif lines f g ≡ []
    → f.endif ≡ some (codes "#endif  // " ++ g)
unfolding check_endif
endif_silent lines f g h = elim (Bool-cases (is_text f.endif (codes "#endif  // " ++ g))) [
  | inl y ↦ is_text-some f.endif (codes "#endif  // " ++ g) y
  | inr n ↦ absurd (append-ne-nil _ _ (rw n at h))
]

names_silent :
    (lines : List Text) (f : Found) (x y : Text)
    → check_names lines f x y ≡ []
    → (y ≡ x) × (f.endif ≡ some (codes "#endif  // " ++ x))
unfolding check_names
names_silent lines f x y h = elim (Bool-cases (text_eq y x)) [
  | inl e ↦ ((text_eq_iff y x).0 e, endif_silent lines f x (rw (text_eq_refl x, e) at h))
  | inr n ↦ absurd (append-ne-nil [] _ (rw (text_eq_refl x, n) at h))
]

names_guarded :
    (lines : List Text) (f : Found) (g : Text)
    → f.endif ≡ some (codes "#endif  // " ++ g)
    → check_names lines f g g ≡ []
unfolding check_names check_endif
names_guarded lines f g e =
    rw (text_eq_refl g) (rw e (rw (text_eq_refl (codes "#endif  // " ++ g)) refl))

-- No error is raised exactly for a guarded header.
pub check_for_header_guard_silent :
    (lines : List Text)
    → (check_for_header_guard lines ≡ reports []) ↔ ((g : Text) × IsGuarded lines g)
check_for_header_guard_silent lines = (
  λ h. guarded _ _ refl refl (sym (check_unfolds lines) ∙ h),
  λ (g, w). check_unfolds lines ∙ rw (w.ifndef, w.define) (silent g w),
)
  where
    f : Found
    f = read_lines lines 0 nothing_found

    reports_inj : (xs ys : List Event) → reports xs ≡ reports ys → xs ≡ ys
    reports_inj xs ys e = cc

    guarded :
        (o d : Option Text)
        → first_argument (codes "#ifndef") lines ≡ o
        → first_argument (codes "#define") lines ≡ d
        → check_found lines f o d ≡ reports []
        → (g : Text) × IsGuarded lines g
    guarded none d a b e = cc
    guarded (some x) none a b e = cc
    guarded (some x) (some y) a b e =
        let (same, last) = names_silent lines f x y (reports_inj _ [] e) in
        (
          x,
          record {
            ifndef = a;
            define = b ∙ ap some same;
            endif = sym (found_fields lines).2 ∙ last;
          },
        )

    silent : (g : Text) → IsGuarded lines g → reports (check_names lines f g g) ≡ reports []
    silent g w = ap reports (names_guarded lines f g ((found_fields lines).2 ∙ w.endif))

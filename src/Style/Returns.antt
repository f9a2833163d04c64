-- ===== src/Style/Returns.antt =====
-- Where `CheckStyle` (clint.py:2186) does not return.
use mit_6172_fa15_project.Base.{
  ℕ, zero, suc, Bool, true, false, List, [], ◌∷◌, Option, none, some, Text, get_elem?,
  if◌then◌else◌, ◌≡◌, ◌↔◌, ◌⊎◌, inl, inr, refl, sym, ap, ◌∙◌, some-ne-none,
}
use mit_6172_fa15_project.Lint.Checked.{Checked, pass, and_then-none}
use mit_6172_fa15_project.Cleanse.{CleansedLines}
use mit_6172_fa15_project.Classes.{ClassStack, ClassInfo}
use mit_6172_fa15_project.LineChecks.{is_blank_line}
use mit_6172_fa15_project.Style.{
  System, in_class, with_guard, is_header_guard, check_more, check_style,
}
use mit_6172_fa15_project.Style.Blanks.{line_before}
use mit_6172_fa15_project.Style.Spacing.{behind_line, check_spacing, check_if_blank}
use mit_6172_fa15_project.Style.Sections.{at_section, section_of, is_exempt, check_section_spacing}
use mit_6172_fa15_project.Style.Checks.{check_check}
use mit_6172_fa15_project.Style.Checks.Suggestions.{check_check-Suggestion}
use mit_6172_fa15_project.Style.Braces.{check_braces}
use mit_6172_fa15_project.Style.Braces.Ends.{IsStuck}
use mit_6172_fa15_project.Style.Braces.Returns.{IsUnclosed, check_braces-none}

line_before-some :
    (l : List Text) (k : ℕ) {t : Text}
    → get_elem? l k ≡ some t
    → (u : Text) × (line_before l k ≡ some u)
unfolding line_before
line_before-some l zero h = last_of l h
  where
    last_of :
        (l : List Text) {t : Text}
        → get_elem? l 0 ≡ some t
        → (u : Text) × (line_before l 0 ≡ some u)
    last_of [] e = cc
    last_of (x ∷ []) e = (x, refl)
    last_of (x ∷ y ∷ l) e = last_of (y ∷ l) refl
line_before-some l (suc k) h = above l k h
  where
    above :
        (l : List Text) (k : ℕ) {t : Text}
        → get_elem? l (suc k) ≡ some t
        → (u : Text) × (get_elem? l k ≡ some u)
    above [] k e = cc
    above (x ∷ l) zero e = (x, refl)
    above (x ∷ []) (suc k) e = cc
    above (x ∷ y ∷ l) (suc k) e = above (y ∷ l) k e

abbrev Returns : Checked Unit → Type 0
Returns c = ¬ (c.1 ≡ none)

check_spacing-Returns :
    (clean : CleansedLines) (raw elided : Text) (linenum : ℕ)
    → get_elem? clean.elided linenum ≡ some elided
    → Returns (check_spacing clean raw elided linenum)
unfolding check_spacing
check_spacing-Returns clean raw elided linenum at_line e =
    elim ((and_then-none (check_if_blank clean raw linenum) (pass _ tt)).0 e) [
      | inl b ↦ blank (is_blank_line raw) b
      | inr f ↦ cc
    ]
  where
    blank :
        (b : Bool)
        → (if b then behind_line clean (line_before clean.elided linenum) linenum else pass [] tt).1
          ≡ none
        → ⊥
    blank false e = cc
    blank true e =
        let (u, p) = line_before-some clean.elided linenum at_line in let q = rw p at e in cc

check_check-Returns : (raw elided : Text) (linenum : ℕ) → Returns (check_check raw elided linenum)
check_check-Returns raw elided linenum e = elim (check_check-Suggestion raw elided linenum) [
  | inl s ↦ let q = sym (ap (λ c. c.1) s) ∙ e in cc
  | inr s ↦ let q = sym (ap (λ c. c.1) s.reported) ∙ e in cc
]

check_section_spacing-Returns :
    (lines : List Text) (class_info : ClassInfo) (linenum : ℕ) {line : Text}
    → get_elem? lines linenum ≡ some line
    → Returns (check_section_spacing lines class_info linenum)
unfolding check_section_spacing
check_section_spacing-Returns lines class_info linenum {line} at_line e =
    let (u, p) = line_before-some lines linenum at_line in
    go u p (is_exempt class_info linenum) (section_of line)
      (rw (check_section_spacing, at_line, p) at e)
  where
    go :
        (u : Text) (p : line_before lines linenum ≡ some u) (b : Bool) (o : Option Text)
        → (if b then pass [] tt else at_section lines class_info o (some u) linenum).1 ≡ none
        → ⊥
    go u p true o e = cc
    go u p false none e = cc
    go u p false (some s) e = cc

in_class-Returns :
    (clean : CleansedLines) (linenum : ℕ) (class_state : ClassStack) {line : Text}
    → get_elem? clean.lines linenum ≡ some line
    → Returns (in_class clean linenum class_state)
in_class-Returns clean linenum [] at_line e = cc
in_class-Returns clean linenum (c ∷ stack) at_line e =
    check_section_spacing-Returns clean.lines c linenum at_line e

module _ (system : System) (filename extension : Text) (clean : CleansedLines) (linenum : ℕ)
    (class_state : ClassStack) where
  check_more-none :
      (raw elided : Text) {line : Text}
      → get_elem? clean.elided linenum ≡ some elided
      → get_elem? clean.lines linenum ≡ some line
      → ((check_more clean raw elided linenum class_state).1 ≡ none)
        ↔ ((check_braces clean.elided elided linenum).1 ≡ none)
  unfolding check_more
  check_more-none raw elided p q = (
    λ e. elim ((and_then-none (check_braces clean.elided elided linenum) _).0 e) [
      | inl b ↦ b
      | inr f ↦ elim ((and_then-none (check_spacing clean raw elided linenum) _).0 f) [
        | inl s ↦ absurd (check_spacing-Returns clean raw elided linenum p s)
        | inr g ↦ elim ((and_then-none (check_check raw elided linenum) _).0 g) [
          | inl c ↦ absurd (check_check-Returns raw elided linenum c)
          | inr i ↦ absurd (in_class-Returns clean linenum class_state q i)
        ]
      ]
    ],
    λ b. (and_then-none (check_braces clean.elided elided linenum) _).1 (inl b),
  )

  -- On a line of the file, CheckStyle returns unless the name of the header guard is not found, which
  -- only RepositoryName can cause, or the parenthesis behind `} else if` is not closed in the rest of
  -- the file, or the loop of CheckBraces is stuck on the lines above.
  pub check_style-none :
      (raw elided line : Text)
      → get_elem? clean.raw_lines linenum ≡ some raw
      → get_elem? clean.elided linenum ≡ some elided
      → get_elem? clean.lines linenum ≡ some line
      → ((check_style system filename clean linenum extension class_state).1 ≡ none) ↔ (
          (is_header_guard system filename extension raw ≡ none)
          ⊎ IsUnclosed clean.elided elided linenum
          ⊎ IsStuck clean.elided elided linenum)
  unfolding check_style
  check_style-none raw elided line p q r =
      rw (check_style, p, q) (guarded (is_header_guard system filename extension raw))
    where
      Stops : Type 0
      Stops = IsUnclosed clean.elided elided linenum ⊎ IsStuck clean.elided elided linenum

      guarded :
          (g : Option Bool)
          → ((with_guard system clean raw elided linenum class_state g).1 ≡ none)
            ↔ ((g ≡ none) ⊎ Stops)
      guarded none = (λ e. inl refl, λ s. refl)
      guarded (some b) =
          let (m, n) = check_more-none raw elided q r in
          let (c, d) = check_braces-none clean.elided elided linenum in
          (λ e. inr (c (m e)), λ s. elim s [ inl e ↦ absurd (some-ne-none b e) | inr t ↦ n (d t) ])

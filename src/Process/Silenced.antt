-- ===== src/Process/Silenced.antt =====
-- A NOLINT comment and the other checks of its line.
use mit_6172_fa15_project.Base.{
  ℕ, true, List, [], ◌∷◌, ◌++◌, Option, none, some, Text, get_elem?, ◌≡◌, refl, ap, All, arith,
  Bool-cases, inl, inr,
}
use mit_6172_fa15_project.Regex.Find.{Hit, search, group_of}
use mit_6172_fa15_project.Lint.{Event, report, suppress, Suppressions}
use mit_6172_fa15_project.Lint.Nolint.{
  re_suppression, is_error_suppressed_by_nolint, add_suppression,
}
use mit_6172_fa15_project.Lint.Nolint.Suppression.{
  suppress_all, is_suppressed-add_suppression, parse_nolint-bare_events,
}
use mit_6172_fa15_project.Lint.Transcript.{transcript, is_printed}
use mit_6172_fa15_project.Cleanse.{CleansedLines}
use mit_6172_fa15_project.Process.{Rules, FileState, line_checks, on_texts, process_line}

abbrev pub IsAtLine : ℕ → Event → Type 0
IsAtLine n (report r) = r.linenum ≡ n
IsAtLine n (suppress k m) = Unit

-- Every category is suppressed on the line.
abbrev IsSilent : ℕ → Suppressions → Type 0
IsSilent n σ = (category : Text) → is_error_suppressed_by_nolint σ category n ≡ true

transcript-append :
    (v : ℕ) (fs : List Text) (σ : Suppressions) (a b : List Event)
    → transcript v fs σ (a ++ b) ≡ transcript v fs σ a ++ transcript v fs (suppress_all a σ) b
unfolding transcript suppress_all
transcript-append v fs σ [] b = refl
transcript-append v fs σ (suppress k n ∷ a) b = transcript-append v fs (add_suppression k n σ) a b
transcript-append v fs σ (report r ∷ a) b = elim (Bool-cases (is_printed v fs σ r)) [
  | inl y ↦ rw y (ap (λ rs. r ∷ rs) (transcript-append v fs σ a b))
  | inr n ↦ rw n (transcript-append v fs σ a b)
]

transcript-IsSilent :
    (v : ℕ) (fs : List Text) (n : ℕ) (σ : Suppressions) (es : List Event)
    → IsSilent n σ
    → All (IsAtLine n) es
    → transcript v fs σ es ≡ []
unfolding transcript is_printed
transcript-IsSilent v fs n σ [] quiet h = refl
transcript-IsSilent v fs n σ (suppress k m ∷ es) quiet h =
    transcript-IsSilent v fs n (add_suppression k m σ) es
      (λ c. ground (arith, is_suppressed-add_suppression k c m n σ, quiet c)) h.1
transcript-IsSilent v fs n σ (report r ∷ es) quiet h =
    let suppressed : is_error_suppressed_by_nolint σ r.category r.linenum ≡ true =
      rw h.0 (quiet r.category) in
    let rest = transcript-IsSilent v fs n σ es quiet h.1 in rw suppressed rest

module _ (rules : Rules) (verbosity : ℕ) (filename extension : Text) (clean : CleansedLines)
    (line : ℕ) (s : FileState) where
  -- On a line with a comment `NOLINT` of no category, as the pattern finds it, none of the messages
  -- that the checks of the line raise is printed, provided that they are raised at that line; this
  -- holds for all rules, filters, verbosities and earlier suppressions.
  pub process_line-silenced :
      (raw : Text) (h : Hit) (filters : List Text) (σ : Suppressions)
      → get_elem? clean.raw_lines line ≡ some raw
      → search re_suppression raw ≡ some h
      → group_of h 1 ≡ none
      → All (IsAtLine line) (process_line rules verbosity filename extension clean line s).0
      → transcript verbosity filters σ
          (process_line rules verbosity filename extension clean line s).0
        ≡ []
  unfolding process_line transcript
  process_line-silenced raw h filters σ at_line found bare local =
      go (get_elem? clean.raw_lines line) (get_elem? clean.elided line) at_line local
    where
      events : Option Text → Option Text → List Event
      events r e = (on_texts rules verbosity filename extension clean line r e s).0

      go :
          (r e : Option Text)
          → r ≡ some raw
          → All (IsAtLine line) (events r e)
          → transcript verbosity filters σ (events r e) ≡ []
      go none e same k = cc
      go (some r) none same k = refl
      go (some r) (some e) same k =
          let nolint = parse_nolint-bare_events r line h cc bare in
          rw nolint (
            transcript-IsSilent verbosity filters line (add_suppression none line σ)
              (line_checks rules verbosity filename extension clean line r e s).0
              (λ c. ground (arith, is_suppressed-add_suppression none c line line σ))
              (rw nolint at k).1)

-- ===== src/Style/Braces/Ends.antt =====
-- Whether the loop of CheckBraces (clint.py:2082-2088) ends.
use mit_6172_fa15_project.Base.{
  ℕ, zero, suc, ◌≤◌, true, ◌&&◌, List, [], ◌++◌, Option, none, some, Text, if◌then◌else◌, ◌==◌, ◌≡◌,
  ◌↔◌, refl, sym, ap, ◌∙◌, arith, Option-cases, inl, inr,
}
use mit_6172_fa15_project.Str.{count_char}
use mit_6172_fa15_project.Regex.Find.{matches}
use mit_6172_fa15_project.LineChecks.{get_previous_non_blank_line}
use mit_6172_fa15_project.LineChecks.Blank.{get_previous_non_blank_line-IsPrevious}
use mit_6172_fa15_project.Style.Braces.{re_indented, previous, join_lines, rounds_needed}

-- The text that the lines above line `k` and the text `line` come to starts with braces at every
-- round, up to the top of the file.
pub data IsStuck (elided : List Text) : Text → ℕ → Type 0 where
  at_top :
      {line : Text} {k : ℕ}
      → get_previous_non_blank_line elided k ≡ none
      → matches re_indented line ≡ true
      → IsStuck elided line k
  below :
      {line prevline : Text} {k j : ℕ}
      → get_previous_non_blank_line elided k ≡ some (prevline, j)
      → matches re_indented line ≡ true
      → count_char b';' prevline ≡ 0
      → IsStuck elided (prevline ++ line) j
      → IsStuck elided line k

module _ (elided : List Text) where
  -- One round of the loop.
  round_of : ℕ → Text → Text × ℕ → Option Text
  round_of n line (prevline, further) =
      if matches re_indented line && count_char b';' prevline == 0
      then join_lines n elided (prevline ++ line) further
      else some line

  join_lines-suc :
      (n : ℕ) (line : Text) (k : ℕ)
      → join_lines (suc n) elided line k ≡ round_of n line (previous elided k)
  unfolding join_lines round_of
  join_lines-suc n line k = refl

  at_none : (k : ℕ) → get_previous_non_blank_line elided k ≡ none → previous elided k ≡ ([], 0)
  unfolding previous
  at_none k h = rw (previous, h) refl

  at_some :
      (k : ℕ) {p : Text × ℕ} → get_previous_non_blank_line elided k ≡ some p → previous elided k ≡ p
  unfolding previous
  at_some k h = rw (previous, h) refl

  round-again :
      (n : ℕ) (line prevline : Text) (j : ℕ)
      → matches re_indented line ≡ true
      → count_char b';' prevline ≡ 0
      → round_of n line (prevline, j) ≡ join_lines n elided (prevline ++ line) j
  unfolding round_of
  round-again n line prevline j m c = rw (m, c) refl

  -- At the top a round changes nothing.
  join_lines_top :
      (n : ℕ) (line : Text) (k : ℕ)
      → get_previous_non_blank_line elided k ≡ none
      → matches re_indented line ≡ true
      → join_lines n elided line k ≡ none
  unfolding join_lines
  join_lines_top zero line k e m = refl
  join_lines_top (suc n) line k e m =
      join_lines-suc n line k
      ∙ ap (round_of n line) (at_none k e)
      ∙ round-again n line [] 0 m (unfold count_char in refl)
      ∙ join_lines_top n line 0 (unfold get_previous_non_blank_line in refl) m

  join_lines-IsStuck :
      (n : ℕ) {line : Text} {k : ℕ} → IsStuck elided line k → join_lines n elided line k ≡ none
  unfolding join_lines
  join_lines-IsStuck zero s = refl
  join_lines-IsStuck (suc n) {line} {k} (at_top e m) = join_lines_top (suc n) line k e m
  join_lines-IsStuck (suc n) {line} {k} (below {prevline = prevline} {j = j} e m c s) =
      join_lines-suc n line k
      ∙ ap (round_of n line) (at_some k e)
      ∙ round-again n line prevline j m c
      ∙ join_lines-IsStuck n s

  round-none :
      (n : ℕ) (line prevline : Text) (j : ℕ)
      → round_of n line (prevline, j) ≡ none
      → (matches re_indented line ≡ true) × (count_char b';' prevline ≡ 0)
  unfolding round_of
  round-none n line prevline j r = ground arith

  round-further :
      (n : ℕ) (line prevline : Text) (j : ℕ)
      → matches re_indented line ≡ true
      → count_char b';' prevline ≡ 0
      → round_of n line (prevline, j) ≡ none
      → join_lines n elided (prevline ++ line) j ≡ none
  unfolding round_of
  round-further n line prevline j m c r = ground arith

  -- With a round for each line above and two more, the loop ends unless it never does.
  IsStuck-join_lines :
      (n : ℕ) (line : Text) (k : ℕ)
      → rounds_needed k ≤ n
      → join_lines n elided line k ≡ none
      → IsStuck elided line k
  IsStuck-join_lines zero line k l h = absurd (omega arith)
  IsStuck-join_lines (suc n) line k l h =
      elim (Option-cases (get_previous_non_blank_line elided k)) [
        | inl e ↦
            let r = sym (ap (round_of n line) (at_none k e)) ∙ sym (join_lines-suc n line k) ∙ h in
            at_top e (round-none n line [] 0 r).0
        | inr ((prevline, j), e) ↦
            let r = sym (ap (round_of n line) (at_some k e)) ∙ sym (join_lines-suc n line k) ∙ h in
            let (m, c) = round-none n line prevline j r in
            let lower = (get_previous_non_blank_line-IsPrevious elided k prevline j e).above in
            below e m c (
              IsStuck-join_lines n (prevline ++ line) j (omega arith)
                (round-further n line prevline j m c r))
      ]

-- From a line with `k` lines above it, and with any number of rounds from `k + 2` on, the loop has
-- not ended exactly where it is stuck, which does not depend on the rounds: `k + 2` rounds are enough
-- where the loop ends, and where it is stuck no number is.
pub join_lines-none :
    (elided : List Text) (line : Text) (k n : ℕ)
    → rounds_needed k ≤ n
    → (join_lines n elided line k ≡ none) ↔ IsStuck elided line k
join_lines-none elided line k n l =
    (IsStuck-join_lines elided n line k l, λ s. join_lines-IsStuck elided n s)

-- ===== src/LineChecks/Blank.antt =====
-- The nearest line above that is not blank.
use mit_6172_fa15_project.Base.{
  ℕ, zero, suc, ◌≤◌, ◌<◌, true, false, List, none, some, Text, get_elem?, ◌≡◌, arith, Bool-cases,
  Option-cases, inl, inr, ltb, ltb→lt, ltb→ge, ◌∙◌, sym,
}
use mit_6172_fa15_project.LineChecks.{is_blank_line, get_previous_non_blank_line}

-- All lines from `a` up to `b` are blank.
abbrev pub BlankBetween : List Text → ℕ → ℕ → Type 0
BlankBetween lines a b =
    (i : ℕ) (l : Text) → a ≤ i → i < b → get_elem? lines i ≡ some l → is_blank_line l ≡ true

-- The line `line` at `n` is the nearest above `linenum` that is not blank.
pub record IsPrevious (lines : List Text) (linenum : ℕ) (line : Text) (n : ℕ) : Type 0 where
  pub above : n < linenum
  pub at_n : get_elem? lines n ≡ some line
  pub not_blank : is_blank_line line ≡ false
  pub blank_between : BlankBetween lines (suc n) linenum

module _ (lines : List Text) (k : ℕ) where
  -- One round of the loop.
  skip_line :
      {line : Text} {n : ℕ}
      → BlankBetween lines k (suc k)
      → IsPrevious lines k line n
      → IsPrevious lines (suc k) line n
  skip_line {line} {n} b p = record {
    above = omega (arith, p.above);
    at_n = p.at_n;
    not_blank = p.not_blank;
    blank_between = λ i l a c g. below i l a c g;
  }
    where
      below :
          (i : ℕ) (l : Text)
          → suc n ≤ i
          → i < suc k
          → get_elem? lines i ≡ some l
          → is_blank_line l ≡ true
      below i l a c g = elim (Bool-cases (ltb i k)) [
        | inl y ↦ p.blank_between i l a (ltb→lt i k y) g
        | inr m ↦ b i l (ltb→ge i k m) c g
      ]

  no_line_at : get_elem? lines k ≡ none → BlankBetween lines k (suc k)
  no_line_at e i l a c g = let q : i ≡ k = omega arith in absurd (apart (sym e ∙ (rw q at g)))
    where
      apart : ¬ (none ≡ some l)
      apart h = cc

  blank_at :
      (x : Text)
      → get_elem? lines k ≡ some x
      → is_blank_line x ≡ true
      → BlankBetween lines k (suc k)
  blank_at x e b i l a c g =
      let q : i ≡ k = omega arith in
      let same : some x ≡ some l = sym e ∙ (rw q at g) in let same' : x ≡ l = cc in rw (← same') b

-- The call returns the nearest line above that is not blank.
pub get_previous_non_blank_line-IsPrevious :
    (lines : List Text) (linenum : ℕ) (line : Text) (n : ℕ)
    → get_previous_non_blank_line lines linenum ≡ some (line, n)
    → IsPrevious lines linenum line n
unfolding get_previous_non_blank_line
get_previous_non_blank_line-IsPrevious lines zero line n h = cc
get_previous_non_blank_line-IsPrevious lines (suc k) line n h =
    elim (Option-cases (get_elem? lines k)) [
      | inl e ↦
          skip_line lines k (no_line_at lines k e)
            (get_previous_non_blank_line-IsPrevious lines k line n (ground arith))
      | inr (x, e) ↦ elim (Bool-cases (is_blank_line x)) [
        | inl b ↦
            skip_line lines k (blank_at lines k x e b)
              (get_previous_non_blank_line-IsPrevious lines k line n (ground arith))
        | inr b ↦ found x e b (ground arith) (ground arith)
      ]
    ]
  where
    found :
        (x : Text)
        → get_elem? lines k ≡ some x
        → is_blank_line x ≡ false
        → x ≡ line
        → k ≡ n
        → IsPrevious lines (suc k) line n
    found x e b p q = record {
      above = omega arith;
      at_n = rw (← q, ← p) e;
      not_blank = rw (← p) b;
      blank_between = λ i l a c g. absurd (omega arith);
    }

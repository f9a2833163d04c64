-- ===== src/FunctionSize/Body.antt =====
-- How the lines of a body are counted.
use mit_6172_fa15_project.Base.{
  ℕ, zero, suc, ◌+◌, true, false, List, [], ◌∷◌, ◌++◌, Option, none, some, Text, if◌then◌else◌, ◌≡◌,
  refl, sym, ap, ◌∙◌, arith, length, get_elem?, length-append, append_assoc, All,
}
use mit_6172_fa15_project.Regex.Find.{matches}
use mit_6172_fa15_project.Lint.{Event}
use mit_6172_fa15_project.FunctionSize.{
  FunctionState, finish, check, starting_func, re_function_end, re_blank,
  check_for_function_lengths,
}

-- A line of a body: it starts no function and does not end one.
pub record IsOrdinary (line : Text) : Type 0 where
  pub starts_none : starting_func line ≡ false
  pub ends_none : matches re_function_end line ≡ false

-- The lines that count.
unfoldable pub non_blank : List Text → ℕ
non_blank [] = 0
non_blank (line ∷ lines) = (if matches re_blank line then 0 else 1) + non_blank lines

-- The lines from `linenum` on, `n` of them, one after the other; the events are those of each line.
unfoldable pub check_lines :
    ℕ → List Text → ℕ → ℕ → FunctionState → Option (FunctionState × List Event)
check_lines verbosity lines zero linenum s = some (s, [])
check_lines verbosity lines (suc n) linenum s =
    elim (check_for_function_lengths verbosity lines linenum s) [
      | none ↦ none
      | some (s', es) ↦ elim (check_lines verbosity lines n (linenum + 1) s') [
        | none ↦ none
        | some (s'', es') ↦ some (s'', es ++ es')
      ]
    ]

-- `counted n s` is `s` with `n` more lines.
abbrev pub counted : ℕ → FunctionState → FunctionState
counted n s = record s { lines_in_function = s.lines_in_function + n }

ordinary_line :
    (verbosity : ℕ) (lines : List Text) (linenum : ℕ) (s : FunctionState) (line : Text)
    → get_elem? lines linenum ≡ some line
    → s.in_a_function ≡ true
    → IsOrdinary line
    → check_for_function_lengths verbosity lines linenum s
      ≡ some (counted (if matches re_blank line then 0 else 1) s, [])
unfolding check_for_function_lengths
ordinary_line verbosity lines linenum s line e i o =
    rw (e, check_for_function_lengths, o.starts_none, o.ends_none) (ground arith)

counted-counted : (n m : ℕ) (s : FunctionState) → counted m (counted n s) ≡ counted (n + m) s
counted-counted n m s = ground arith

at_front :
    (before : List Text) (line : Text) (rest : List Text)
    → get_elem? (before ++ line ∷ rest) (length before) ≡ some line
at_front [] line rest = refl
at_front (x ∷ before) line rest = at_front before line rest

body_lines_from :
    (verbosity : ℕ) (lines before ls after : List Text) (k : ℕ) (s : FunctionState)
    → lines ≡ before ++ (ls ++ after)
    → k ≡ length before
    → s.in_a_function ≡ true
    → All IsOrdinary ls
    → check_lines verbosity lines (length ls) k s ≡ some (counted (non_blank ls) s, [])
unfolding check_lines non_blank
body_lines_from verbosity lines before [] after k s e q i h = ground arith
body_lines_from verbosity lines before (line ∷ ls) after k s e q i h =
    let n : ℕ = if matches re_blank line then 0 else 1 in
    let ih =
      body_lines_from verbosity lines (before ++ line ∷ []) ls after (k + 1) (counted n s)
        (e ∙ sym (append_assoc before (line ∷ []) (ls ++ after)))
        (omega (arith, length-append before (line ∷ []))) i h.1 in
    rw
      (
        ordinary_line verbosity lines k s line (rw (e, q) (at_front before line (ls ++ after))) i
            h.0,
        check_lines,
        ih,
      )
      (ap (λ m. some (m, [])) (counted-counted n (non_blank ls) s))

-- The ordinary lines of the body of a function are counted where they are not blank, and the line
-- that ends it gets the report for their number, if there is one; no line of the body gets another.
pub check_lines-body :
    (verbosity : ℕ) (before ls after : List Text) (end_line : Text) (s : FunctionState)
    → s.in_a_function ≡ true
    → All IsOrdinary ls
    → starting_func end_line ≡ false
    → matches re_function_end end_line ≡ true
    → (check_lines verbosity (before ++ (ls ++ end_line ∷ after)) (length ls) (length before) s
        ≡ some (counted (non_blank ls) s, []))
      × (check_for_function_lengths verbosity
            (before ++ (ls ++ end_line ∷ after))
            (length before + length ls)
            (counted (non_blank ls) s)
          ≡ some (
            finish (counted (non_blank ls) s),
            check verbosity (counted (non_blank ls) s) (length before + length ls),
          ))
unfolding check_for_function_lengths
check_lines-body verbosity before ls after end_line s i h a b = (
  body_lines_from verbosity _ before ls (end_line ∷ after) (length before) s refl refl i h,
  closing,
)
  where
    at_end :
        get_elem? (before ++ (ls ++ end_line ∷ after)) (length before + length ls) ≡ some end_line
    at_end =
        rw (← append_assoc before ls (end_line ∷ after), ← length-append before ls)
          (at_front (before ++ ls) end_line after)

    closing :
        check_for_function_lengths verbosity
          (before ++ (ls ++ end_line ∷ after))
          (length before + length ls)
          (counted (non_blank ls) s)
        ≡ some (
          finish (counted (non_blank ls) s),
          check verbosity (counted (non_blank ls) s) (length before + length ls),
        )
    closing = rw (at_end, check_for_function_lengths, a, b) refl

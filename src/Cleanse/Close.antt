-- ===== src/Cleanse/Close.antt =====
-- `CloseExpression` (clint.py:994).
use mit_6172_fa15_project.Base.{
  ℕ, zero, suc, ◌+◌, ◌-◌, ◌<◌, List, [], ◌∷◌, Option, none, some, Text, if◌then◌else◌, ◌==◌, leb,
  ltb, take, drop, length, get_elem?, ◌≡◌, ◌↔◌, refl, arith, lt→ltb, ap, ◌∙◌, sym,
}
use mit_6172_fa15_project.Str.{count_char}

-- endchar, for a startchar in '({['
unfoldable pub end_char : ℕ → Option ℕ
end_char c =
    if c == b'('
    then some b')'
    else if c == b'['
    then some b']'
    else if c == b'{'
    then some b'}'
    else none

-- s.rfind(c), `none` for -1
unfoldable pub rfind : ℕ → Text → Option ℕ
rfind c [] = none
rfind c (x ∷ xs) = elim (rfind c xs) [
  | some i ↦ some (suc i)
  | none ↦ if x == c then some 0 else none
]

-- line[0:endpos]; -1 leaves out the last character
abbrev front : Text → Option ℕ → Text
front line none = take (length line - 1) line
front line (some endpos) = take endpos line

-- `while num_open >= 0: endpos = line.rfind(')', 0, endpos)`, for the rounds that the loop makes
unfoldable pub chop : ℕ → Text → Option ℕ → Option ℕ
unfolding rfind
chop zero line endpos = endpos
chop (suc n) line endpos = chop n line (rfind b')' (front line endpos))

-- The line reached, its number, and the brackets opened and closed so far; `num_open` is their
-- difference.
pub record Reached : Type 0 where
  pub line : Text
  pub linenum : ℕ
  pub opened : ℕ
  pub closed : ℕ

abbrev pub read_more : ℕ → ℕ → Text → Reached → Reached
read_more start end_ l r = record {
  line = l;
  linenum = r.linenum + 1;
  opened = r.opened + count_char start l;
  closed = r.closed + count_char end_ l;
}

-- The loop over the lines behind the first; `none` is the IndexError behind the last line.
unfoldable pub extend : ℕ → ℕ → List Text → Reached → Option Reached
extend start end_ [] r = if ltb r.closed r.opened then none else some r
extend start end_ (l ∷ ls) r =
    let more = extend start end_ ls (read_more start end_ l r) in
    if ltb r.closed r.opened then more else some r

abbrev past : Option ℕ → ℕ
past none = 0
past (some n) = n + 1

abbrev rounds_left : Reached → ℕ
rounds_left r = if leb r.closed r.opened then r.opened - r.closed + 1 else 0

-- The tuple (line, linenum, pos); a `pos` of -1 is `none`.
pub record Closing : Type 0 where
  pub line : Text
  pub linenum : ℕ
  pub pos : Option ℕ

abbrev closing_at : Reached → Closing
closing_at r = record {
  line = r.line;
  linenum = r.linenum;
  pos = some (past (chop (rounds_left r) r.line (some (length r.line))));
}

abbrev pub start_at : ℕ → ℕ → Text → ℕ → Reached
start_at start end_ line linenum = record {
  line = line;
  linenum = linenum;
  opened = count_char start line;
  closed = count_char end_ line;
}

abbrev close_from : List Text → ℕ → Text → Option ℕ → Option ℕ → Option Closing
close_from lines linenum line none e = none
close_from lines linenum line (some start) none =
    some (record { line = line; linenum = length lines; pos = none })
close_from lines linenum line (some start) (some end_) =
    elim (extend start end_ (drop (linenum + 1) lines) (start_at start end_ line linenum)) [
      | none ↦ none
      | some r ↦ some (closing_at r)
    ]

abbrev char_end : Option ℕ → Option ℕ
char_end none = none
char_end (some c) = end_char c

-- CloseExpression on the elided lines; `none` is an IndexError
unfoldable pub close_expression : List Text → ℕ → ℕ → Option Closing
unfolding extend chop
close_expression lines linenum pos = elim (get_elem? lines linenum) [
  | none ↦ none
  | some line ↦ close_from lines linenum line (get_elem? line pos) (char_end (get_elem? line pos))
]

-- The brackets opened up to each of the lines outnumber those closed.
unfoldable pub StaysOpen : ℕ → ℕ → List Text → Reached → Type 0
StaysOpen start end_ [] r = r.closed < r.opened
StaysOpen start end_ (l ∷ ls) r =
    (r.closed < r.opened) × StaysOpen start end_ ls (read_more start end_ l r)

extend-none :
    (start end_ : ℕ) (ls : List Text) (r : Reached)
    → (extend start end_ ls r ≡ none) ↔ StaysOpen start end_ ls r
unfolding extend StaysOpen
extend-none start end_ [] r = (λ h. ground arith, λ h. ground arith)
extend-none start end_ (l ∷ ls) r =
    let (a, b) = extend-none start end_ ls (read_more start end_ l r) in
    (λ h. (ground arith, a (ground arith)), λ h. rw (lt→ltb _ _ h.0) (b h.1))

from_some : (o : Option Reached) → Option Closing
from_some none = none
from_some (some r) = some (closing_at r)

rfind-take : (c n : ℕ) (s : Text) → count_char c s ≡ 0 → rfind c (take n s) ≡ none
unfolding rfind count_char
rfind-take c zero s h = refl
rfind-take c (suc n) [] h = refl
rfind-take c (suc n) (x ∷ s) h = ground (arith, rfind-take c n s)

module _ (lines : List Text) (linenum pos start end_ : ℕ) (line : Text)
    (at_line : get_elem? lines linenum ≡ some line) (at_pos : get_elem? line pos ≡ some start)
    (is_bracket : end_char start ≡ some end_) where
  abbrev pub reached : Option Reached
  reached = extend start end_ (drop (linenum + 1) lines) (start_at start end_ line linenum)

  from_bracket : close_expression lines linenum pos ≡ from_some reached
  unfolding close_expression from_some
  from_bracket = rw (at_line, close_expression, at_pos, is_bracket) (joined reached)
    where
      joined :
          (o : Option Reached) → elim o [ none ↦ none | some r ↦ some (closing_at r) ] ≡ from_some o
      joined none = refl
      joined (some r) = refl

  -- From a bracket the call raises IndexError exactly where the bracket count never falls back to
  -- zero up to the last line.
  pub close_expression-none :
      (close_expression lines linenum pos ≡ none)
      ↔ StaysOpen start end_ (drop (linenum + 1) lines) (start_at start end_ line linenum)
  unfolding from_some
  close_expression-none =
      let (a, b) =
        extend-none start end_ (drop (linenum + 1) lines) (start_at start end_ line linenum) in
      (λ h. a (only_none reached (sym from_bracket ∙ h)), λ h. from_bracket ∙ rw (b h) refl)
    where
      only_none : (o : Option Reached) → from_some o ≡ none → o ≡ none
      only_none none e = refl
      only_none (some r) e = cc

  -- Where the count does fall back to zero, on a line with no `)`, the position returned is 0,
  -- whatever the bracket: the loop looks for `)` also where it is to find `]` or `}`.
  pub close_expression_misplaced :
      (r : Reached)
      → reached ≡ some r
      → r.opened ≡ r.closed
      → count_char b')' r.line ≡ 0
      → close_expression lines linenum pos
        ≡ some (record { line = r.line; linenum = r.linenum; pos = some 0 })
  unfolding from_some
  close_expression_misplaced r e balanced none_there =
      from_bracket
      ∙ rw e (
          ap (λ p. some (record { line = r.line; linenum = r.linenum; pos = some (past p) }))
            chopped)
    where
      chopped : chop (rounds_left r) r.line (some (length r.line)) ≡ none
      chopped =
          let one : rounds_left r ≡ 1 = ground arith in
          rw one (unfold chop in rfind-take b')' (length r.line) r.line none_there)

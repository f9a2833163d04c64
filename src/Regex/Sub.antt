-- ===== src/Regex/Sub.antt =====
-- `r.sub(repl, s)`, `r.findall(s)` and `r.split(s)` for a pattern that matches no empty text, as those of clint.py.
use mit_6172_fa15_project.Base.{
  ℕ, zero, suc, ◌+◌, ◌-◌, List, [], ◌∷◌, ◌++◌, Option, none, some, Text, if◌then◌else◌, ◌==◌,
  length, ap, inl, inr, map, Bool, Bool-cases, ◌≡◌, refl, arith,
}
use mit_6172_fa15_project.Regex.{Regex, char, run}
use mit_6172_fa15_project.Regex.Find.{Hit, find_at, search, search_from}

-- The number of characters of a match.
abbrev pub width : Text → Option Hit → ℕ
width rest none = 0
width rest (some h) = length rest - length h.finish.rest

-- `skip` characters belong to the last match.
sub_from : Regex → Text → Text → ℕ → Text → Text
sub_from r repl before skip [] = []
sub_from r repl before (suc skip) (x ∷ xs) = sub_from r repl (x ∷ before) skip xs
sub_from r repl before zero (x ∷ xs) =
    let n = width (x ∷ xs) (find_at r before (x ∷ xs)) in
    (if n == 0 then x ∷ [] else repl) ++ sub_from r repl (x ∷ before) (n - 1) xs

unfoldable pub sub : Regex → Text → Text → Text
unfolding sub_from
sub r repl s = sub_from r repl [] 0 s

sub_from-none :
    (r : Regex) (repl before s : Text)
    → search_from r before s ≡ none
    → sub_from r repl before 0 s ≡ s
unfolding sub_from search_from
sub_from-none r repl before [] h = refl
sub_from-none r repl before (x ∷ s) h = ground (arith, sub_from-none r repl (x ∷ before) s)

count_from : Regex → Text → ℕ → Text → ℕ
count_from r before skip [] = 0
count_from r before (suc skip) (x ∷ xs) = count_from r (x ∷ before) skip xs
count_from r before zero (x ∷ xs) =
    let n = width (x ∷ xs) (find_at r before (x ∷ xs)) in
    (if n == 0 then 0 else 1) + count_from r (x ∷ before) (n - 1) xs

-- len(r.findall(s)), for a pattern that matches no empty text
unfoldable pub count_matches : Regex → Text → ℕ
unfolding count_from
count_matches r s = count_from r [] 0 s

pieces_from : Regex → Text → Text → ℕ → Text → List Text
pieces_from r piece before skip [] = piece ∷ []
pieces_from r piece before (suc skip) (x ∷ xs) = pieces_from r piece (x ∷ before) skip xs
pieces_from r piece before zero (x ∷ xs) =
    let n = width (x ∷ xs) (find_at r before (x ∷ xs)) in
    let rest = pieces_from r (if n == 0 then piece ++ x ∷ [] else []) (x ∷ before) (n - 1) xs in
    if n == 0 then rest else piece ∷ rest

-- r.split(s), for a pattern that matches no empty text and has no groups
unfoldable pub split_by : Regex → Text → List Text
unfolding pieces_from
split_by r s = pieces_from r [] [] 0 s

-- A text in which the pattern is not found stays as it is.
pub sub-none : (r : Regex) (repl s : Text) → search r s ≡ none → sub r repl s ≡ s
unfolding sub
sub-none r repl s h = sub_from-none r repl [] s h

-- A pattern of one character replaces each such character.
sub_from-char :
    (p : ℕ → Bool) (y : ℕ) (before s : Text)
    → sub_from (char p) (y ∷ []) before 0 s ≡ map (λ c. if p c then y else c) s
unfolding sub_from find_at run
sub_from-char p y before [] = refl
sub_from-char p y before (x ∷ s) = elim (Bool-cases (p x)) [
  | inl t ↦
      let n : suc (length s) - length s ≡ 1 = omega arith in
      let rest = sub_from-char p y (x ∷ before) s in rw (t, n) (ap (λ u. y ∷ u) rest)
  | inr f ↦ let rest = sub_from-char p y (x ∷ before) s in rw f (ap (λ u. x ∷ u) rest)
]

pub sub-char :
    (p : ℕ → Bool) (y : ℕ) (s : Text) → sub (char p) (y ∷ []) s ≡ map (λ c. if p c then y else c) s
unfolding sub
sub-char p y s = sub_from-char p y [] s

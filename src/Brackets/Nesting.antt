-- ===== src/Brackets/Nesting.antt =====
-- What stands inside brackets is what is nested properly.
use mathlib.Core.Option
use mit_6172_fa15_project.Base.{
  ℕ, suc, ◌+◌, ◌-◌, true, false, List, [], ◌∷◌, ◌++◌, Option, none, some, Text, ◌==◌, take, length,
  length-append, ◌≡◌, refl, sym, ◌∙◌, ap, arith, append_assoc, Bool-cases, Option-cases, inl, inr,
}
use mit_6172_fa15_project.Regex.{Regex}
use mit_6172_fa15_project.Regex.Find.{Hit, search}
use mit_6172_fa15_project.Brackets.{
  matching_punctuation, is_closing, next_stack, scan, found, nothing, failed, get_text_inside, cut,
  from_bracket,
}

-- A text whose brackets are nested properly.
pub data Nested : Text → Type 0 where
  empty : {s : Text} → s ≡ [] → Nested s
  plain :
      {s : Text} (c : ℕ) (rest : Text)
      → s ≡ c ∷ rest
      → is_closing c ≡ false
      → matching_punctuation c ≡ none
      → Nested rest
      → Nested s
  nest :
      {s : Text} (open_ closer : ℕ) (inner rest : Text)
      → s ≡ open_ ∷ (inner ++ closer ∷ rest)
      → matching_punctuation open_ ≡ some closer
      → Nested inner
      → Nested rest
      → Nested s

-- `n` characters of `s` close the brackets of the stack, one behind the other.
Unwinds : List ℕ → Text → ℕ → Type 0
Unwinds [] s n = n ≡ 0
Unwinds (t ∷ stack) s n =
    (inner : Text) × (rest : Text) × (m : ℕ) × (s ≡ inner ++ t ∷ rest)
    × Nested inner
    × Unwinds stack rest m
    × (n ≡ length inner + suc m)

map-suc : (o : Option ℕ) (n : ℕ) → Option.map suc o ≡ some n → (m : ℕ) × (o ≡ some m) × (n ≡ suc m)
map-suc none n h = cc
map-suc (some m) n h = (m, refl, ground arith)

-- What a round does that does not return.
data Round (c t : ℕ) (stack stack' : List ℕ) : Type 0 where
  pop : c ≡ t → stack' ≡ stack → Round c t stack stack'
  skip :
      is_closing c ≡ false
      → matching_punctuation c ≡ none
      → stack' ≡ t ∷ stack
      → Round c t stack stack'
  push :
      (closer : ℕ)
      → matching_punctuation c ≡ some closer
      → stack' ≡ closer ∷ t ∷ stack
      → Round c t stack stack'

next_stack-Round :
    (c t : ℕ) (stack stack' : List ℕ) → next_stack c t stack ≡ some stack' → Round c t stack stack'
unfolding next_stack
next_stack-Round c t stack stack' h = elim (Bool-cases (c == t)) [
  | inl e ↦ pop (ground arith) (ground arith)
  | inr d ↦ elim (Bool-cases (is_closing c)) [
    | inl e ↦ absurd (ground arith)
    | inr f ↦ elim (Option-cases (matching_punctuation c)) [
      | inl e ↦ skip f e (ground arith)
      | inr (closer, e) ↦ push closer e (ground arith)
    ]
  ]
]

Unwinds-Round :
    (c t : ℕ) (s : Text) (stack stack' : List ℕ) (m : ℕ)
    → Round c t stack stack'
    → Unwinds stack' s m
    → Unwinds (t ∷ stack) (c ∷ s) (suc m)
unfolding Unwinds
Unwinds-Round c t s stack stack' m (pop e f) u =
    ([], s, m, ap (λ x. x ∷ s) e, empty refl, rw f at u, omega arith)
Unwinds-Round c t s stack stack' m (skip f g e) u =
    let (inner, rest, k, p, n, v, q) = rw e at u in
    (c ∷ inner, rest, k, ap (◌∷◌ c) p, plain c inner refl f g n, v, omega arith)
Unwinds-Round c t s stack stack' m (push closer g e) u =
    let (i, r, k, p, n, v, q) = rw e at u in
    let (i', r', k', p', n', v', q') = v in
    (
      c ∷ (i ++ closer ∷ i'),
      r',
      k',
      ap (◌∷◌ c) (p ∙ ap (λ x. i ++ closer ∷ x) p' ∙ sym (append_assoc i (closer ∷ i') (t ∷ r'))),
      nest c closer i i' refl g n n',
      v',
      omega (arith, length-append i (closer ∷ i')),
    )

scan-Unwinds : (s : Text) (stack : List ℕ) (n : ℕ) → scan stack s ≡ some n → Unwinds stack s n
unfolding scan
scan-Unwinds s [] n h = unfold Unwinds in ground arith
scan-Unwinds [] (t ∷ stack) n h = cc
scan-Unwinds (c ∷ s) (t ∷ stack) n h = go (next_stack c t stack) refl h (scan-Unwinds s)
  where
    go :
        (o : Option (List ℕ))
        → next_stack c t stack ≡ o
        → elim o [ none ↦ none | some stack' ↦ Option.map suc (scan stack' s) ] ≡ some n
        → ((stack' : List ℕ) (m : ℕ) → scan stack' s ≡ some m → Unwinds stack' s m)
        → Unwinds (t ∷ stack) (c ∷ s) n
    go none e h ih = cc
    go (some stack') e h ih =
        let (m, f, q) = map-suc (scan stack' s) n h in
        rw q
          (Unwinds-Round c t s stack stack' m (next_stack-Round c t stack stack' e) (ih stack' m f))

brackets_apart :
    (c closer : ℕ)
    → matching_punctuation c ≡ some closer
    → (is_closing c ≡ false) × (is_closing closer ≡ true)
unfolding matching_punctuation is_closing
brackets_apart c closer h = ground arith

not_same : (c t : ℕ) → is_closing c ≡ false → is_closing t ≡ true → (c == t) ≡ false
not_same c t h k = elim (Bool-cases (c == t)) [
  | inl e ↦ let e' : c ≡ t = ground arith in cc (ap is_closing e')
  | inr d ↦ d
]

scan_step :
    (c t : ℕ) (stack stack' : List ℕ) (s : Text)
    → next_stack c t stack ≡ some stack'
    → scan (t ∷ stack) (c ∷ s) ≡ Option.map suc (scan stack' s)
unfolding scan
scan_step c t stack stack' s e = rw (e, scan)

scan_pop :
    (t : ℕ) (stack : List ℕ) (s : Text) → scan (t ∷ stack) (t ∷ s) ≡ Option.map suc (scan stack s)
unfolding next_stack
scan_pop t stack s = scan_step t t stack stack s (ground arith)

scan_skip :
    (c t : ℕ) (stack : List ℕ) (s : Text)
    → is_closing c ≡ false
    → matching_punctuation c ≡ none
    → is_closing t ≡ true
    → scan (t ∷ stack) (c ∷ s) ≡ Option.map suc (scan (t ∷ stack) s)
unfolding next_stack
scan_skip c t stack s f g k = scan_step c t stack (t ∷ stack) s (ground (arith, not_same c t f k))

scan_push :
    (c closer t : ℕ) (stack : List ℕ) (s : Text)
    → matching_punctuation c ≡ some closer
    → is_closing t ≡ true
    → scan (t ∷ stack) (c ∷ s) ≡ Option.map suc (scan (closer ∷ t ∷ stack) s)
unfolding next_stack
scan_push c closer t stack s g k =
    let f = (brackets_apart c closer g).0 in
    scan_step c t stack (closer ∷ t ∷ stack) s (ground (arith, not_same c t f k))

scan-Nested :
    {s : Text} (t m : ℕ) (stack : List ℕ) (rest : Text)
    → Nested s
    → is_closing t ≡ true
    → scan stack rest ≡ some m
    → scan (t ∷ stack) (s ++ t ∷ rest) ≡ some (length s + suc m)
scan-Nested t m stack rest (empty e) k h = rw (e, scan_pop t stack rest, h) (ap some (omega arith))
scan-Nested t m stack rest (plain c r e f g n) k h =
    let ih = scan-Nested t m stack rest n k h in
    rw e (rw (scan_skip c t stack (r ++ t ∷ rest) f g k, ih) (ap some (omega arith)))
scan-Nested t m stack rest (nest o closer i r e g n n') k h =
    let k' = (brackets_apart o closer g).1 in
    let ih = scan-Nested t m stack rest n' k h in
    let ih' = scan-Nested closer (length r + suc m) (t ∷ stack) (r ++ t ∷ rest) n k' ih in
    rw e (
      rw
        (
          scan_push o closer t stack ((i ++ closer ∷ r) ++ t ∷ rest) g k,
          append_assoc i (closer ∷ r) (t ∷ rest),
          ih',
        )
        (ap some (omega (arith, length-append i (closer ∷ r)))))

take-length : (s t : Text) → take (length s) (s ++ t) ≡ s
take-length [] t = refl
take-length (x ∷ s) t = ap (◌∷◌ x) (take-length s t)

cut-inside : (s t : Text) (n : ℕ) → n ≡ length s + 1 → take (n - 1) (s ++ t) ≡ s
cut-inside s t n e = let e' : n - 1 ≡ length s = omega arith in rw e' (take-length s t)

-- The text that a call finds stands between a bracket at the end of the match and the one that
-- closes it, and the brackets in it are nested properly.
pub record IsInside (text : Text) (start_pattern : Regex) (inner : Text) : Type 0 where
  pub hit : Hit
  pub searched : search start_pattern text ≡ some hit
  pub opener : ℕ
  pub before : Text
  pub at_opener : hit.finish.before ≡ opener ∷ before
  pub closer : ℕ
  pub matching : matching_punctuation opener ≡ some closer
  pub rest : Text
  pub splits : hit.finish.rest ≡ inner ++ closer ∷ rest
  pub nested : Nested inner

found_inj : (a b : Text) → found a ≡ found b → a ≡ b
found_inj a b e = cc

scan_one :
    (closer : ℕ) (s : Text) (n : ℕ)
    → scan (closer ∷ []) s ≡ some n
    → (inner : Text) × (rest : Text) × (s ≡ inner ++ closer ∷ rest)
      × Nested inner
      × (n ≡ length inner + 1)
unfolding Unwinds
scan_one closer s n h =
    let u : Unwinds (closer ∷ []) s n = scan-Unwinds s (closer ∷ []) n h in
    let (inner, rest, m, e, nested, z, q) = u in (inner, rest, e, nested, omega arith)

from_bracket-IsInside :
    (text : Text) (start_pattern : Regex) (inner : Text) (hit : Hit)
    → search start_pattern text ≡ some hit
    → (before : Text) → hit.finish.before ≡ before
    → from_bracket before hit.finish.rest ≡ found inner
    → IsInside text start_pattern inner
from_bracket-IsInside text p inner hit e [] b h = cc
from_bracket-IsInside text p inner hit e (c ∷ before) b h = bracket (matching_punctuation c) refl h
  where
    closed :
        (closer : ℕ)
        → matching_punctuation c ≡ some closer
        → (o : Option ℕ) → scan (closer ∷ []) hit.finish.rest ≡ o
        → cut hit.finish.rest o ≡ found inner
        → IsInside text p inner
    closed closer m none s k = cc
    closed closer m (some n) s k =
        let (i, rest, split, nested, q) = scan_one closer hit.finish.rest n s in
        let same : i ≡ inner =
          sym (cut-inside i (closer ∷ rest) n q)
          ∙ ap (take (n - 1)) (sym split)
          ∙ found_inj (take (n - 1) hit.finish.rest) inner k in
        record {
          hit = hit;
          searched = e;
          opener = c;
          before = before;
          at_opener = b;
          closer = closer;
          matching = m;
          rest = rest;
          splits = rw (← same) split;
          nested = rw same at nested;
        }

    bracket :
        (o : Option ℕ)
        → matching_punctuation c ≡ o
        → elim o [
          | none ↦ failed
          | some closer ↦ cut hit.finish.rest (scan (closer ∷ []) hit.finish.rest)
        ]
          ≡ found inner
        → IsInside text p inner
    bracket none m k = cc
    bracket (some closer) m k = closed closer m (scan (closer ∷ []) hit.finish.rest) refl k

-- The text that is found is `IsInside`: a bracket ends the first match of the pattern, and the text
-- reaches from there to the bracket that closes it, with all brackets between nested properly.
pub get_text_inside-IsInside :
    (text : Text) (start_pattern : Regex) (inner : Text)
    → get_text_inside text start_pattern ≡ found inner
    → IsInside text start_pattern inner
unfolding get_text_inside
get_text_inside-IsInside text p inner h = go (search p text) refl h
  where
    go :
        (o : Option Hit)
        → search p text ≡ o
        → elim o [ none ↦ nothing | some m ↦ from_bracket m.finish.before m.finish.rest ]
          ≡ found inner
        → IsInside text p inner
    go none e k = cc
    go (some hit) e k = from_bracket-IsInside text p inner hit e hit.finish.before refl k

-- Conversely the call finds every text that is so placed.
pub get_text_inside_complete :
    (text : Text) (start_pattern : Regex) (inner : Text)
    → IsInside text start_pattern inner
    → get_text_inside text start_pattern ≡ found inner
unfolding get_text_inside
get_text_inside_complete text p inner w =
    let s =
      scan-Nested w.closer 0 [] w.rest w.nested (brackets_apart w.opener w.closer w.matching).1
        (unfold scan in refl) in
    rw (w.searched, get_text_inside, w.at_opener, from_bracket, w.matching, w.splits, s)
      (ap found (cut-inside inner (w.closer ∷ w.rest) (length inner + 1) refl))

-- ===== src/Regex/Find.antt =====
-- The two methods of a compiled pattern, `match` and `search`, that `Match` and `Search` call.
use mit_6172_fa15_project.Base.{
  ◌==◌, if◌then◌else◌, ◌↔◌, ◌<◌, ◌≤◌, ap, length, Text, ℕ, Bool, List, [], ◌∷◌, ◌≡◌, ◌⊎◌, inl, inr,
  Option, none, some, arith, In, here, Option-cases, is_some,
}
use mit_6172_fa15_project.Regex.{Regex, Cursor, cursor_at, run}
use mit_6172_fa15_project.Regex.Matches.{Matches, run-Matches, Matches-run}

-- A match object: the cursors before and behind the text that matched.
pub record Hit : Type 0 where
  pub start : Cursor
  pub finish : Cursor

abbrev pub hit_at : Text → Text → List Cursor → Option Hit
hit_at before rest [] = none
hit_at before rest (d ∷ _) = some (record { start = cursor_at before rest; finish = d })

-- The first match that starts at one place of a text.
unfoldable pub find_at : Regex → Text → Text → Option Hit
find_at r before rest = hit_at before rest (run r (cursor_at before rest))

abbrev pub match : Regex → Text → Option Hit
match r s = find_at r [] s

abbrev pub or_else {ℓ} : {A : Type ℓ} → Option A → Option A → Option A
or_else none y = y
or_else (some x) y = some x

unfoldable pub search_from : Regex → Text → Text → Option Hit
search_from r before [] = find_at r before []
search_from r before (x ∷ xs) = or_else (find_at r before (x ∷ xs)) (search_from r (x ∷ before) xs)

abbrev pub search : Regex → Text → Option Hit
search r s = search_from r [] s

-- Whether `Match` or `Search` returns a match object.
abbrev pub matches : Regex → Text → Bool
matches r s = is_some (match r s)

abbrev pub searches : Regex → Text → Bool
searches r s = is_some (search r s)

-- `(b', s')` is a place of the text at or behind the place `(b, s)`.
pub data Onward : Text → Text → Text → Text → Type 0 where
  stay : {b s : Text} → Onward b s b s
  walk : {b s b' s' : Text} {x : ℕ} → Onward (x ∷ b) s b' s' → Onward b (x ∷ s) b' s'

abbrev pub NoMatchAt : Regex → Text → Text → Type 0
NoMatchAt r b s = (d : Cursor) → ¬ Matches r (cursor_at b s) d

find_at-none : (r : Regex) (b s : Text) → find_at r b s ≡ none → NoMatchAt r b s
unfolding find_at
find_at-none r b s e d m = go (run r (cursor_at b s)) e (Matches-run r (cursor_at b s) d m)
  where
    go : (l : List Cursor) → hit_at b s l ≡ none → In d l → ⊥
    go [] e i = elim i [ ]
    go (x ∷ l) e i = cc

find_at-some :
    (r : Regex) (b s : Text) (h : Hit)
    → find_at r b s ≡ some h
    → (h.start ≡ cursor_at b s) × Matches r (cursor_at b s) h.finish
unfolding find_at
find_at-some r b s h e = go (run r (cursor_at b s)) e (run-Matches r (cursor_at b s))
  where
    go :
        (l : List Cursor)
        → hit_at b s l ≡ some h
        → ((d : Cursor) → In d l → Matches r (cursor_at b s) d)
        → (h.start ≡ cursor_at b s) × Matches r (cursor_at b s) h.finish
    go [] e k = cc
    go (x ∷ l) e k = (ground arith, k h.finish (here (ground arith)))

find_at_total :
    (r : Regex) (b s : Text) (d : Cursor)
    → Matches r (cursor_at b s) d
    → (h : Hit) × (find_at r b s ≡ some h)
find_at_total r b s d m = elim (Option-cases (find_at r b s)) [
  | inl e ↦ absurd (find_at-none r b s e d m)
  | inr found ↦ found
]

search_from-none :
    (r : Regex) (b s : Text) {b' s' : Text}
    → search_from r b s ≡ none
    → Onward b s b' s'
    → NoMatchAt r b' s'
unfolding search_from
search_from-none r b [] e stay = find_at-none r b [] e
search_from-none r b (x ∷ s) e stay = find_at-none r b (x ∷ s) (ground arith)
search_from-none r b (x ∷ s) e (walk w) = search_from-none r (x ∷ b) s (ground arith) w

-- What a hit `h` of a search from the place `(b, s)` says.
pub record Leftmost (r : Regex) (b s : Text) (h : Hit) : Type 0 where
  pub place : Onward b s h.start.before h.start.rest
  pub unset : h.start.groups ≡ []
  pub matched : Matches r (cursor_at h.start.before h.start.rest) h.finish
  pub first :
      (b' s' : Text) → Onward b s b' s' → length b' < length h.start.before → NoMatchAt r b' s'

Onward-length : {b s b' s' : Text} → Onward b s b' s' → length b ≤ length b'
Onward-length stay = omega arith
Onward-length (walk w) = omega (arith, Onward-length w)

find_at-Leftmost : (r : Regex) (b s : Text) (h : Hit) → find_at r b s ≡ some h → Leftmost r b s h
find_at-Leftmost r b s h e =
    let (p, m) = find_at-some r b s h e in
    record {
      place = rw p stay;
      unset = ap (λ c. c.groups) p;
      matched = rw p m;
      first = λ b' s' w l. absurd (omega (arith, Onward-length w, ap (λ c. length c.before) p));
    }

search_from-Leftmost :
    (r : Regex) (b s : Text) (h : Hit) → search_from r b s ≡ some h → Leftmost r b s h
unfolding search_from
search_from-Leftmost r b [] h e = find_at-Leftmost r b [] h e
search_from-Leftmost r b (x ∷ s) h e = elim (Option-cases (find_at r b (x ∷ s))) [
  | inl n ↦ behind n (search_from-Leftmost r (x ∷ b) s h (ground arith))
  | inr (g, f) ↦ find_at-Leftmost r b (x ∷ s) h (ground arith)
]
  where
    behind : find_at r b (x ∷ s) ≡ none → Leftmost r (x ∷ b) s h → Leftmost r b (x ∷ s) h
    behind n k = record {
      place = walk k.place;
      unset = k.unset;
      matched = k.matched;
      first = earlier;
    }
      where
        earlier :
            (b' s' : Text)
            → Onward b (x ∷ s) b' s'
            → length b' < length h.start.before
            → NoMatchAt r b' s'
        earlier b' s' stay l = find_at-none r b (x ∷ s) n
        earlier b' s' (walk w) l = k.first b' s' w l

-- A hit of `search` lies in the text, is a match of the pattern, and no match starts further left.
pub search-Leftmost : (r : Regex) (s : Text) (h : Hit) → search r s ≡ some h → Leftmost r [] s h
search-Leftmost r s h e = search_from-Leftmost r [] s h e

-- `search` finds nothing exactly when the pattern matches at no place of the text.
pub search-none :
    (r : Regex) (s : Text)
    → (search r s ≡ none) ↔ ((b' s' : Text) → Onward [] s b' s' → NoMatchAt r b' s')
search-none r s =
    (λ e b' s' w. search_from-none r [] s e w, λ k. decide k (Option-cases (search r s)))
  where
    decide :
        ((b' s' : Text) → Onward [] s b' s' → NoMatchAt r b' s')
        → (search r s ≡ none) ⊎ ((h : Hit) × (search r s ≡ some h))
        → search r s ≡ none
    decide k (inl e) = e
    decide k (inr (h, e)) =
        let l = search-Leftmost r s h e in
        absurd (k h.start.before h.start.rest l.place h.finish l.matched)

-- m.group(i), `none` for a group that took no part in the match
lookup_group : ℕ → List (ℕ × Text) → Option Text
lookup_group i [] = none
lookup_group i ((j, t) ∷ gs) = if i == j then some t else lookup_group i gs

unfoldable pub group_of : Hit → ℕ → Option Text
unfolding lookup_group
group_of h i = lookup_group i h.finish.groups

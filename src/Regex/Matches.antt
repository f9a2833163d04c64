-- ===== src/Regex/Matches.antt =====
-- What a pattern matches, as a relation between cursors, independent of the search for a match.
use mit_6172_fa15_project.Base.{
  Text, ℕ, zero, suc, ◌≤◌, ◌<◌, Bool, true, List, [], ◌∷◌, ◌≡◌, refl, sym, ◌⊎◌, inl, inr, arith,
  length, keep, flat_map, In, here, there, In-append_left, In-append_right, In-append_cases,
  In-keep, In-of_keep, In-flat_map, In-of_flat_map, Bool-cases, ltb→lt, lt→ltb, In-singleton,
  not-In-nil, In-map, In-of_map,
}
use mit_6172_fa15_project.Regex.{
  Regex, eps, char, seq, alt, star, lazy, group, look, Cursor, close_group, further, rounds,
  lazy_rounds, run, step_over,
}

-- Any number of rounds, each of which consumes something.
pub data Rounds (P : Cursor → Cursor → Type 0) : Cursor → Cursor → Type 0 where
  done : {c d : Cursor} → c ≡ d → Rounds P c d
  more : {c d e : Cursor} → P c d → length d.rest < length c.rest → Rounds P d e → Rounds P c e

unfoldable pub Matches : Regex → Cursor → Cursor → Type 0
Matches eps c d = c ≡ d
Matches (char p) c d =
    (x : ℕ) × (xs : Text) × (c.rest ≡ x ∷ xs)
    × (p x ≡ true)
    × (d ≡ record c { before = x ∷ c.before; rest = xs })
Matches (seq a b) c e = (d : Cursor) × Matches a c d × Matches b d e
Matches (alt a b) c d = Matches a c d ⊎ Matches b c d
Matches (star a) c d = Rounds (Matches a) c d
Matches (lazy a) c d = Rounds (Matches a) c d
Matches (group i a) c d = (e : Cursor) × Matches a c e × (d ≡ close_group i c e)
Matches (look p) c d = (p c.before c.rest ≡ true) × (c ≡ d)

module _ (P : Cursor → Cursor → Type 0) (step : Cursor → List Cursor) where
  module _ (sound : (c d : Cursor) → In d (step c) → P c d) where
    further_step :
        (c : Cursor) {d : Cursor}
        → In d (keep (further c) (step c))
        → P c d × (length d.rest < length c.rest)
    further_step c {d} m =
        let (i, t) = In-of_keep (further c) (step c) m in (sound c d i, ltb→lt _ _ t)

    rounds-Rounds : (n : ℕ) (c : Cursor) {d : Cursor} → In d (rounds n step c) → Rounds P c d
    unfolding rounds
    rounds-Rounds zero c m = done (In-singleton m)
    rounds-Rounds (suc n) c m =
        elim (In-append_cases (flat_map (rounds n step) (keep (further c) (step c))) m) [
          | inl l ↦
              let (d, i, h) = In-of_flat_map (rounds n step) _ l in
              let (p, f) = further_step c i in more p f (rounds-Rounds n d h)
          | inr r ↦ done (In-singleton r)
        ]

    lazy_rounds-Rounds :
        (n : ℕ) (c : Cursor) {d : Cursor} → In d (lazy_rounds n step c) → Rounds P c d
    unfolding lazy_rounds
    lazy_rounds-Rounds zero c m = done (In-singleton m)
    lazy_rounds-Rounds (suc n) c (here e) = done (sym e)
    lazy_rounds-Rounds (suc n) c (there m) =
        let (d, i, h) = In-of_flat_map (lazy_rounds n step) _ m in
        let (p, f) = further_step c i in more p f (lazy_rounds-Rounds n d h)

  module _ (complete : (c d : Cursor) → P c d → In d (step c)) where
    step_further :
        (c d : Cursor) → P c d → length d.rest < length c.rest → In d (keep (further c) (step c))
    step_further c d p f = In-keep (further c) (step c) (complete c d p) (lt→ltb _ _ f)

    Rounds-rounds :
        (n : ℕ) {c d : Cursor} → Rounds P c d → length c.rest ≤ n → In d (rounds n step c)
    unfolding rounds
    Rounds-rounds zero (done e) h = here (sym e)
    Rounds-rounds (suc n) {c} (done e) h =
        In-append_right (flat_map (rounds n step) (keep (further c) (step c))) (here (sym e))
    Rounds-rounds zero (more p f r) h = absurd (omega arith)
    Rounds-rounds (suc n) {c} (more {d = d} p f r) h =
        In-append_left (c ∷ [])
          (In-flat_map (rounds n step) _ (step_further c d p f) (Rounds-rounds n r (omega arith)))

    Rounds-lazy_rounds :
        (n : ℕ) {c d : Cursor} → Rounds P c d → length c.rest ≤ n → In d (lazy_rounds n step c)
    unfolding lazy_rounds
    Rounds-lazy_rounds zero (done e) h = here (sym e)
    Rounds-lazy_rounds (suc n) (done e) h = here (sym e)
    Rounds-lazy_rounds zero (more p f r) h = absurd (omega arith)
    Rounds-lazy_rounds (suc n) {c} (more {d = d} p f r) h = there (
        In-flat_map (lazy_rounds n step) _ (step_further c d p f)
          (Rounds-lazy_rounds n r (omega arith)))

step_over-Matches :
    (p : ℕ → Bool) (c d : Cursor) (l : Text)
    → c.rest ≡ l
    → In d (step_over p c l)
    → Matches (char p) c d
unfolding Matches
step_over-Matches p c d [] e m = elim m [ ]
step_over-Matches p c d (x ∷ xs) e m = elim (Bool-cases (p x)) [
  | inl y ↦ (x, xs, e, y, sym (In-singleton (rw y at m)))
  | inr n ↦ absurd (not-In-nil (rw n at m))
]

-- Every way that the search lists is a match.
pub run-Matches : (r : Regex) (c d : Cursor) → In d (run r c) → Matches r c d
unfolding run Matches
run-Matches eps c d m = In-singleton m
run-Matches (char p) c d m = step_over-Matches p c d c.rest refl m
run-Matches (seq a b) c e m =
    let (d, i, h) = In-of_flat_map (run b) (run a c) m in
    (d, run-Matches a c d i, run-Matches b d e h)
run-Matches (alt a b) c d m = elim (In-append_cases (run a c) m) [
  | inl l ↦ inl (run-Matches a c d l)
  | inr r ↦ inr (run-Matches b c d r)
]
run-Matches (star a) c d m = rounds-Rounds (Matches a) (run a) (run-Matches a) (length c.rest) c m
run-Matches (lazy a) c d m =
    lazy_rounds-Rounds (Matches a) (run a) (run-Matches a) (length c.rest) c m
run-Matches (group i a) c d m =
    let (e, j, h) = In-of_map (close_group i c) (run a c) m in (e, run-Matches a c e j, h)
run-Matches (look p) c d m = elim (Bool-cases (p c.before c.rest)) [
  | inl y ↦ (y, In-singleton (rw y at m))
  | inr n ↦ absurd (not-In-nil (rw n at m))
]

-- Every match is listed.
pub Matches-run : (r : Regex) (c d : Cursor) → Matches r c d → In d (run r c)
unfolding run Matches
Matches-run eps c d m = here (sym m)
Matches-run (char p) c d (x, xs, e, y, f) = rw (e, step_over, y) (here f)
Matches-run (seq a b) c e (d, m, n) =
    In-flat_map (run b) (run a c) (Matches-run a c d m) (Matches-run b d e n)
Matches-run (alt a b) c d (inl m) = In-append_left (run b c) (Matches-run a c d m)
Matches-run (alt a b) c d (inr m) = In-append_right (run a c) (Matches-run b c d m)
Matches-run (star a) c d m =
    Rounds-rounds (Matches a) (run a) (Matches-run a) (length c.rest) m (omega arith)
Matches-run (lazy a) c d m =
    Rounds-lazy_rounds (Matches a) (run a) (Matches-run a) (length c.rest) m (omega arith)
Matches-run (group i a) c d (e, m, f) = In-map (close_group i c) f (Matches-run a c e m)
Matches-run (look p) c d (y, e) = rw y (here (sym e))

-- ===== src/Regex/Cache.antt =====
-- `Match` and `Search` (clint.py:370-387) with their cache of compiled patterns. The module `re` is a
-- parameter here: what it compiles a pattern to, and the two methods of that. The checks call the
-- methods of a pattern directly, which comes to the same.
use mit_6172_fa15_project.Base.{
  Bool, true, false, List, [], ◌∷◌, Option, none, some, Text, if◌then◌else◌, map, ◌≡◌, refl, sym,
  ap, ◌∙◌, Option-cases, inl, inr, is_some, In, here, there, by_branches,
}
use mit_6172_fa15_project.Str.{text_eq}
use mit_6172_fa15_project.Str.Laws.{text_eq_iff, text_eq_refl}
use mit_6172_fa15_project.Dict.{Dict, get, has, put, get-put}

-- What the module `re` gives: `P` are its compiled patterns, `H` its match objects.
pub record Engine (P H : Type 0) : Type 0 where
  pub compile : Text → P
  pub match_start : P → Text → Option H
  pub search_all : P → Text → Option H

-- The two functions that are called.
pub data Call : Type 0 where
  match_call search_call : Text → Text → Call

-- The cache, and the patterns that were given to `compile`, the last one first.
pub record Session (P : Type 0) : Type 0 where
  pub cache : Dict P
  pub compiled : List Text

-- No text twice.
unfoldable pub IsDistinct : List Text → Type 0
IsDistinct [] = Unit
IsDistinct (x ∷ xs) = (¬ (In x xs)) × IsDistinct xs

module _ {P H : Type 0} (re : Engine P H) where
  -- if not pattern in _regexp_compile_cache: ...
  unfoldable pub with_pattern : Text → Session P → Session P
  with_pattern pattern s = if has pattern s.cache then s else record {
    cache = put pattern (re.compile pattern) s.cache;
    compiled = pattern ∷ s.compiled;
  }

  abbrev through : (P → Text → Option H) → Text → Option P → Option (Option H)
  through method s none = none
  through method s (some p) = some (method p s)

  -- Match and Search; the result is `none` for a KeyError
  unfoldable pub cached_match : Text → Text → Session P → Session P × Option (Option H)
  unfolding with_pattern
  cached_match pattern text s =
      let s' = with_pattern pattern s in (s', through re.match_start text (get pattern s'.cache))

  unfoldable pub cached_search : Text → Text → Session P → Session P × Option (Option H)
  unfolding with_pattern
  cached_search pattern text s =
      let s' = with_pattern pattern s in (s', through re.search_all text (get pattern s'.cache))

  abbrev call_with : Call → Session P → Session P × Option (Option H)
  call_with (match_call pattern text) s = cached_match pattern text s
  call_with (search_call pattern text) s = cached_search pattern text s

  -- Calls one after the other: the session behind them, and their results.
  unfoldable pub run_calls : List Call → Session P → Session P × List (Option (Option H))
  unfolding cached_match cached_search
  run_calls [] s = (s, [])
  run_calls (c ∷ cs) s =
      let (s', result) = call_with c s in
      let (last, results) = run_calls cs s' in (last, result ∷ results)

  -- The same call of `re` with no cache.
  abbrev pub direct : Call → Option (Option H)
  direct (match_call pattern s) = some (re.match_start (re.compile pattern) s)
  direct (search_call pattern s) = some (re.search_all (re.compile pattern) s)

  -- Every pattern in the cache is compiled from its key, and no pattern was compiled twice.
  pub record IsSound (s : Session P) : Type 0 where
    pub own : (k : Text) (p : P) → get k s.cache ≡ some p → p ≡ re.compile k
    pub kept : (k : Text) → In k s.compiled → has k s.cache ≡ true
    pub once : IsDistinct s.compiled

  added_own :
      (pattern : Text) (s : Session P)
      → IsSound s
      → (k : Text) (p : P) → get k (put pattern (re.compile pattern) s.cache) ≡ some p
      → p ≡ re.compile k
  added_own pattern s h k p e =
      by_key (text_eq pattern k) refl (sym (get-put k pattern (re.compile pattern) s.cache) ∙ e)
    where
      by_key :
          (b : Bool)
          → text_eq pattern k ≡ b
          → (if b then some (re.compile pattern) else get k s.cache) ≡ some p
          → p ≡ re.compile k
      by_key true q f = let same = (text_eq_iff pattern k).0 q in cc
      by_key false q f = h.own k p f

  added_kept :
      (pattern : Text) (s : Session P)
      → IsSound s
      → (k : Text) → In k (pattern ∷ s.compiled)
      → has k (put pattern (re.compile pattern) s.cache) ≡ true
  added_kept pattern s h k m =
      ap is_some (get-put k pattern (re.compile pattern) s.cache)
      ∙ by_branches (λ o. is_some o ≡ true) (text_eq pattern k) (λ y. refl) (λ n. still m n)
    where
      still : In k (pattern ∷ s.compiled) → text_eq pattern k ≡ false → has k s.cache ≡ true
      still (here e) n = let y = (text_eq_iff pattern k).1 (sym e) in cc
      still (there i) n = h.kept k i

  with_pattern-IsSound :
      (pattern : Text) (s : Session P)
      → IsSound s
      → IsSound (with_pattern pattern s)
        × (get pattern (with_pattern pattern s).cache ≡ some (re.compile pattern))
  unfolding with_pattern IsDistinct
  with_pattern-IsSound pattern s h = elim (Option-cases (get pattern s.cache)) [
    | inr (p, e) ↦ rw e (h, e ∙ ap some (h.own pattern p e))
    | inl n ↦ rw n (
      record {
        own = added_own pattern s h;
        kept = added_kept pattern s h;
        once = (λ i. let y = h.kept pattern i in let z = ap is_some n in cc, h.once);
      },
      get-put pattern pattern (re.compile pattern) s.cache ∙ rw (text_eq_refl pattern) refl,
    )
  ]

  call_with-direct :
      (c : Call) (s : Session P)
      → IsSound s
      → IsSound (call_with c s).0 × ((call_with c s).1 ≡ direct c)
  unfolding cached_match cached_search
  call_with-direct (match_call pattern text) s h =
      let (i, e) = with_pattern-IsSound pattern s h in (i, ap (through re.match_start text) e)
  call_with-direct (search_call pattern text) s h =
      let (i, e) = with_pattern-IsSound pattern s h in (i, ap (through re.search_all text) e)

  calls-direct :
      (cs : List Call) (s : Session P)
      → IsSound s
      → IsSound (run_calls cs s).0 × ((run_calls cs s).1 ≡ map direct cs)
  unfolding run_calls
  calls-direct [] s h = (h, refl)
  calls-direct (c ∷ cs) s h =
      let (i, e) = call_with-direct c s h in
      let (j, f) = calls-direct cs (call_with c s).0 i in
      (j, ap (λ r. r ∷ (run_calls cs (call_with c s).0).1) e ∙ ap (λ rs. direct c ∷ rs) f)

  abbrev pub at_start : Session P
  at_start = record { cache = []; compiled = [] }

  -- From the empty cache any calls of Match and Search raise no KeyError and give what `re` gives for
  -- the pattern compiled anew; every pattern in the cache is then the one compiled from its key, and no
  -- pattern was compiled twice.
  pub run_calls-direct :
      (cs : List Call)
      → ((run_calls cs at_start).1 ≡ map direct cs) × IsSound (run_calls cs at_start).0
  unfolding IsDistinct get
  run_calls-direct cs =
      let (i, e) =
        calls-direct cs at_start
          (record { own = λ k p f. cc; kept = λ k m. elim m [ ]; once = tt }) in
      (e, i)

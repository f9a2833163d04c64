-- ===== src/Comments/Removal.antt =====
-- What the removal of multi-line comments leaves.
use mit_6172_fa15_project.Base.{
  ℕ, zero, suc, ◌+◌, ◌≤◌, ◌<◌, Bool, true, false, List, [], ◌∷◌, Text, leb, length, ◌≡◌, refl, ap,
  arith, get_elem?, some, ◌⊎◌, inl, inr, Bool-cases, ltb, ltb→lt, ltb→ge, leb→le, leb→gt, sym, ◌∙◌,
}
use mit_6172_fa15_project.Str.{strip, starts_with, contains}
use mathlib.Core.Bool.{false≢true}
use mit_6172_fa15_project.Lint.{Event}
use mit_6172_fa15_project.Comments.{
  opens_comment, closes_comment, find_next, dummy, remove_multi_line_comments_from_range,
  unterminated, removal_rounds, remove_multi_line_comments,
}

abbrev pub NoneIn : (Text → Bool) → List Text → ℕ → ℕ → Type 0
NoneIn p lines a b = (i : ℕ) (l : Text) → a ≤ i → i < b → get_elem? lines i ≡ some l → p l ≡ false

-- Line `k` is the first one from `lineix` on that passes the test, or `k` is the number of lines.
pub record IsFirst (p : Text → Bool) (lines : List Text) (lineix k : ℕ) : Type 0 where
  pub from : lineix ≤ k
  pub below : k ≤ length lines
  pub none_before : NoneIn p lines lineix k
  pub passes : (k ≡ length lines) ⊎ ((l : Text) × (get_elem? lines k ≡ some l) × (p l ≡ true))

-- The search from a line of the file, or from its end, gives the first line from there on that
-- passes the test, or the number of lines.
pub find_next-IsFirst :
    (p : Text → Bool) (lines : List Text) (lineix : ℕ)
    → lineix ≤ length lines
    → IsFirst p lines lineix (find_next p lines lineix)
unfolding find_next
find_next-IsFirst p [] lineix h = record {
  from = omega arith;
  below = omega arith;
  none_before = λ i l a b e. absurd (omega arith);
  passes = inl refl;
}
find_next-IsFirst p (line ∷ lines) (suc lineix) h =
    let r = find_next-IsFirst p lines lineix (omega arith) in
    record {
      from = omega (arith, r.from);
      below = omega (arith, r.below);
      none_before = later r.none_before;
      passes = elim r.passes [ inl e ↦ inl (ap suc e) | inr w ↦ inr w ];
    }
  where
    later :
        NoneIn p lines lineix (find_next p lines lineix)
        → NoneIn p (line ∷ lines) (suc lineix) (suc (find_next p lines lineix))
    later k zero l a b e = absurd (omega arith)
    later k (suc i) l a b e = k i l (omega arith) (omega arith) e
find_next-IsFirst p (line ∷ lines) zero h = elim (Bool-cases (p line)) [
  | inl y ↦ rw y (record {
    from = omega arith;
    below = omega arith;
    none_before = λ i l a b e. absurd (omega arith);
    passes = inr (line, refl, y);
  })
  | inr n ↦ rw n (behind n (find_next-IsFirst p lines zero (omega arith)))
]
  where
    earlier :
        p line ≡ false
        → NoneIn p lines zero (find_next p lines zero)
        → NoneIn p (line ∷ lines) zero (suc (find_next p lines zero))
    earlier n k zero l a b e = ground arith
    earlier n k (suc i) l a b e = k i l (omega arith) (omega arith) e

    behind :
        p line ≡ false
        → IsFirst p lines zero (find_next p lines zero)
        → IsFirst p (line ∷ lines) zero (suc (find_next p lines zero))
    behind n r = record {
      from = omega arith;
      below = omega (arith, r.below);
      none_before = earlier n r.none_before;
      passes = elim r.passes [ inl e ↦ inl (ap suc e) | inr w ↦ inr w ];
    }

length-range :
    (lines : List Text) (a b : ℕ)
    → length (remove_multi_line_comments_from_range lines a b) ≡ length lines
unfolding remove_multi_line_comments_from_range
length-range [] a b = refl
length-range (line ∷ lines) zero zero = refl
length-range (line ∷ lines) zero (suc b) = ap suc (length-range lines zero b)
length-range (line ∷ lines) (suc a) zero = refl
length-range (line ∷ lines) (suc a) (suc b) = ap suc (length-range lines a b)

range_outside :
    (lines : List Text) (a b i : ℕ)
    → (i < a) ⊎ (b ≤ i)
    → get_elem? (remove_multi_line_comments_from_range lines a b) i ≡ get_elem? lines i
unfolding remove_multi_line_comments_from_range
range_outside [] a b i h = refl
range_outside (line ∷ lines) zero zero i h = refl
range_outside (line ∷ lines) zero (suc b) zero h = absurd (omega arith)
range_outside (line ∷ lines) zero (suc b) (suc i) h = range_outside lines zero b i (omega arith)
range_outside (line ∷ lines) (suc a) zero i h = refl
range_outside (line ∷ lines) (suc a) (suc b) zero h = refl
range_outside (line ∷ lines) (suc a) (suc b) (suc i) h = range_outside lines a b i (omega arith)

range_inside :
    (lines : List Text) (a b i : ℕ) (l : Text)
    → a ≤ i
    → i < b
    → get_elem? (remove_multi_line_comments_from_range lines a b) i ≡ some l
    → l ≡ dummy
unfolding remove_multi_line_comments_from_range
range_inside [] a b i l h k e = cc
range_inside (line ∷ lines) zero zero i l h k e = absurd (omega arith)
range_inside (line ∷ lines) zero (suc b) zero l h k e = ground arith
range_inside (line ∷ lines) zero (suc b) (suc i) l h k e =
    range_inside lines zero b i l (omega arith) (omega arith) e
range_inside (line ∷ lines) (suc a) zero i l h k e = absurd (omega arith)
range_inside (line ∷ lines) (suc a) (suc b) zero l h k e = absurd (omega arith)
range_inside (line ∷ lines) (suc a) (suc b) (suc i) l h k e =
    range_inside lines a b i l (omega arith) (omega arith) e

range_kept :
    (lines : List Text) (a b i : ℕ)
    → (get_elem? (remove_multi_line_comments_from_range lines a b) i ≡ get_elem? lines i)
      ⊎ ((get_elem? (remove_multi_line_comments_from_range lines a b) i ≡ some dummy)
          × (a ≤ i)
          × (i < b))
unfolding remove_multi_line_comments_from_range
range_kept [] a b i = inl refl
range_kept (line ∷ lines) zero zero i = inl refl
range_kept (line ∷ lines) zero (suc b) zero = inr (refl, omega arith, omega arith)
range_kept (line ∷ lines) zero (suc b) (suc i) = elim (range_kept lines zero b i) [
  | inl e ↦ inl e
  | inr (e, l, m) ↦ inr (e, omega arith, omega arith)
]
range_kept (line ∷ lines) (suc a) zero i = inl refl
range_kept (line ∷ lines) (suc a) (suc b) zero = inl refl
range_kept (line ∷ lines) (suc a) (suc b) (suc i) = elim (range_kept lines a b i) [
  | inl e ↦ inl e
  | inr (e, l, m) ↦ inr (e, omega arith, omega arith)
]

dummy-opens_comment : opens_comment dummy ≡ false
unfolding opens_comment dummy strip starts_with contains
dummy-opens_comment = refl

-- A comment that begins on line `b` and ends nowhere.
pub record Unterminated (out : List Text) (errors : List Event) : Type 0 where
  pub b : ℕ
  pub one_error : errors ≡ unterminated b ∷ []
  pub line : Text
  pub at_b : get_elem? out b ≡ some line
  pub opens : opens_comment line ≡ true
  pub none_opens_before : NoneIn opens_comment out 0 b
  pub none_closes : NoneIn closes_comment out b (length out)

-- Line `i` belongs to a multi-line comment, which begins on line `a` and ends on line `e`.
pub record InComment (lines : List Text) (i : ℕ) : Type 0 where
  pub a : ℕ
  pub e : ℕ
  pub from_a : a ≤ i
  pub to_e : i ≤ e
  pub opener : Text
  pub closer : Text
  pub at_a : get_elem? lines a ≡ some opener
  pub at_e : get_elem? lines e ≡ some closer
  pub opens : opens_comment opener ≡ true
  pub closes : closes_comment closer ≡ true
  pub not_sooner : NoneIn closes_comment lines a e

abbrev Kept : List Text → List Text → ℕ → Type 0
Kept lines out i =
    (get_elem? out i ≡ get_elem? lines i) ⊎ ((get_elem? out i ≡ some dummy) × InComment lines i)

-- What a removal from `lines` leaves: as many lines, each as it was, or the dummy where it belongs
-- to a multi-line comment; and either no line that opens a multi-line comment, or one error, for a comment that is never closed.
pub record IsRemoved (lines out : List Text) (errors : List Event) : Type 0 where
  pub same_length : length out ≡ length lines
  pub kept : (i : ℕ) → Kept lines out i
  pub ends : ((errors ≡ []) × NoneIn opens_comment out 0 (length out)) ⊎ Unterminated out errors

module _ (lines : List Text) (lineix b e : ℕ) where
  abbrev cleared : List Text
  cleared = remove_multi_line_comments_from_range lines b (e + 1)

  cleared_none :
      NoneIn opens_comment lines 0 lineix
      → NoneIn opens_comment lines lineix b
      → NoneIn opens_comment cleared 0 (e + 1)
  cleared_none h k i l a c g = elim (Bool-cases (ltb i b)) [
    | inl y ↦ before (ltb→lt i b y)
    | inr n ↦ rw (range_inside lines b (e + 1) i l (ltb→ge i b n) c g) dummy-opens_comment
  ]
    where
      before : i < b → opens_comment l ≡ false
      before y =
          let g' = sym (range_outside lines b (e + 1) i (inl y)) ∙ g in
          elim (Bool-cases (ltb i lineix)) [
            | inl u ↦ h i l (omega arith) (ltb→lt i lineix u) g'
            | inr u ↦ k i l (ltb→ge i lineix u) y g'
          ]

-- A comment in the lines that are left lies behind the one that was cleared.
cleared-InComment :
    (lines : List Text) (lineix b e i : ℕ)
    → NoneIn opens_comment (cleared lines lineix b e) 0 (e + 1)
    → InComment (cleared lines lineix b e) i
    → InComment lines i
cleared-InComment lines lineix b e i h c = record {
  a = c.a;
  e = c.e;
  from_a = c.from_a;
  to_e = c.to_e;
  opener = c.opener;
  closer = c.closer;
  at_a = sym (same c.a (omega arith)) ∙ c.at_a;
  at_e = sym (same c.e (omega (arith, c.from_a, c.to_e))) ∙ c.at_e;
  opens = c.opens;
  closes = c.closes;
  not_sooner = λ j l m n g. c.not_sooner j l m n (same j m ∙ g);
}
  where
    behind : e < c.a
    behind = elim (Bool-cases (ltb c.a (e + 1))) [
      | inl y ↦
          absurd (
            false≢true (sym (h c.a c.opener (omega arith) (ltb→lt c.a (e + 1) y) c.at_a) ∙ c.opens))
      | inr n ↦ omega (arith, ltb→ge c.a (e + 1) n)
    ]

    same : (j : ℕ) → c.a ≤ j → get_elem? (cleared lines lineix b e) j ≡ get_elem? lines j
    same j m = range_outside lines b (e + 1) j (inr (omega (arith, behind)))

Kept-trans :
    (lines : List Text) (lineix b e : ℕ) (out : List Text) (i : ℕ)
    → NoneIn opens_comment (cleared lines lineix b e) 0 (e + 1)
    → Kept lines (cleared lines lineix b e) i
    → Kept (cleared lines lineix b e) out i
    → Kept lines out i
Kept-trans lines lineix b e out i h (inl p) (inl q) = inl (q ∙ p)
Kept-trans lines lineix b e out i h (inr (p, c)) (inl q) = inr (q ∙ p, c)
Kept-trans lines lineix b e out i h k (inr (q, c)) =
    inr (q, cleared-InComment lines lineix b e i h c)

IsRemoved-nothing :
    (lines : List Text) → NoneIn opens_comment lines 0 (length lines) → IsRemoved lines lines []
IsRemoved-nothing lines h = record {
  same_length = refl;
  kept = λ i. inl refl;
  ends = inl (refl, h);
}

removal_rounds-IsRemoved :
    (fuel : ℕ) (lines : List Text) (lineix : ℕ)
    → lineix ≤ length lines
    → length lines < fuel + lineix
    → NoneIn opens_comment lines 0 lineix
    → IsRemoved lines (removal_rounds fuel lines lineix).0 (removal_rounds fuel lines lineix).1
unfolding removal_rounds
removal_rounds-IsRemoved zero lines lineix h f inv = absurd (omega arith)
removal_rounds-IsRemoved (suc fuel) lines lineix h f inv =
    elim (Bool-cases (leb (length lines) b)) [
      | inl y ↦ rw y (all_done (leb→le (length lines) b y))
      | inr n ↦ elim (Bool-cases (leb (length lines) e)) [
        | inl y ↦ rw (n, y) (never_closed (leb→gt (length lines) b n) (leb→le (length lines) e y))
        | inr m ↦
            rw (n, m)
              (more (leb→gt (length lines) b n) (leb→gt (length lines) e m) (
                removal_rounds-IsRemoved fuel (cleared lines lineix b e) (e + 1)
                  (omega (arith, leb→gt (length lines) e m, length-range lines b (e + 1)))
                  (omega (arith, length-range lines b (e + 1), first.from, last.from))
                  (cleared_none lines lineix b e inv first.none_before)))
      ]
    ]
  where
    b : ℕ
    b = find_next opens_comment lines lineix

    e : ℕ
    e = find_next closes_comment lines b

    first : IsFirst opens_comment lines lineix b
    first = find_next-IsFirst opens_comment lines lineix h

    last : IsFirst closes_comment lines b e
    last = find_next-IsFirst closes_comment lines b first.below

    before_b : NoneIn opens_comment lines 0 b
    before_b i x a c g = elim (Bool-cases (ltb i lineix)) [
      | inl u ↦ inv i x a (ltb→lt i lineix u) g
      | inr u ↦ first.none_before i x (ltb→ge i lineix u) c g
    ]

    all_done : length lines ≤ b → IsRemoved lines lines []
    all_done l = IsRemoved-nothing lines (λ i x a c g. before_b i x a (omega arith) g)

    never_closed : b < length lines → length lines ≤ e → IsRemoved lines lines (unterminated b ∷ [])
    never_closed l m = record {
      same_length = refl;
      kept = λ i. inl refl;
      ends = elim first.passes [
        | inl q ↦ absurd (omega arith)
        | inr (x, g, o) ↦ inr (record {
          b = b;
          one_error = refl;
          line = x;
          at_b = g;
          opens = o;
          none_opens_before = before_b;
          none_closes = λ i y a c. last.none_before i y a (omega arith);
        })
      ];
    }

    cleared_opens : NoneIn opens_comment (cleared lines lineix b e) 0 (e + 1)
    cleared_opens = cleared_none lines lineix b e inv first.none_before

    the_comment :
        (i : ℕ) → b < length lines → e < length lines → b ≤ i → i < e + 1 → InComment lines i
    the_comment i l m p q = elim first.passes [
      | inl w ↦ absurd (omega arith)
      | inr (x, g, o) ↦ elim last.passes [
        | inl w ↦ absurd (omega arith)
        | inr (y, k, c) ↦ record {
          a = b;
          e = e;
          from_a = p;
          to_e = omega arith;
          opener = x;
          closer = y;
          at_a = g;
          at_e = k;
          opens = o;
          closes = c;
          not_sooner = last.none_before;
        }
      ]
    ]

    more :
        {out : List Text} {errors : List Event}
        → b < length lines
        → e < length lines
        → IsRemoved (cleared lines lineix b e) out errors
        → IsRemoved lines out errors
    more {out} l m r = record {
      same_length = r.same_length ∙ length-range lines b (e + 1);
      kept = λ i. Kept-trans lines lineix b e out i cleared_opens (now i) (r.kept i);
      ends = r.ends;
    }
      where
        now : (i : ℕ) → Kept lines (cleared lines lineix b e) i
        now i = elim (range_kept lines b (e + 1) i) [
          | inl same ↦ inl same
          | inr (d, p, q) ↦ inr (d, the_comment i l m p q)
        ]

-- The removal leaves as many lines, each as it was, or a dummy where a multi-line comment stood. Either no line that is left
-- opens a multi-line comment and no error is raised, or one error is raised, for the first line
-- that opens a comment which no later line closes. The rounds given are enough.
pub remove_multi_line_comments-IsRemoved :
    (lines : List Text)
    → IsRemoved lines (remove_multi_line_comments lines).0 (remove_multi_line_comments lines).1
unfolding remove_multi_line_comments
remove_multi_line_comments-IsRemoved lines =
    removal_rounds-IsRemoved (length lines + 1) lines 0 (omega arith) (omega arith)
      (λ i x a c g. absurd (omega arith))

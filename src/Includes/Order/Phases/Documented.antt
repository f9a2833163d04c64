-- ===== src/Includes/Order/Phases/Documented.antt =====
-- The order of headers that the comment in CheckIncludeLine (clint.py:2442-2453) asks for, and the
-- order that CheckNextIncludeOrder (clint.py:461) accepts.
use mit_6172_fa15_project.Base.{
  true, false, List, [], ◌∷◌, ◌++◌, ◌≡◌, ◌≢◌, ◌↔◌, refl, sym, ap, ◌∙◌, All,
}
use mit_6172_fa15_project.Includes.Order.{
  HeaderType, c_sys_header, cpp_sys_header, likely_my_header, possible_my_header, other_header,
  initial_include_state,
}
use mit_6172_fa15_project.Includes.Order.Phases.{accepts, is_mine, is_late, InOrder, accepts_iff}

-- The five kinds of the comment, one after the other: the file's own headers, C, C++, the file's own
-- headers again (deprecated), others.
pub record Documented (ts : List HeaderType) : Type 0 where
  pub mine : List HeaderType
  pub c : List HeaderType
  pub cpp : List HeaderType
  pub mine_late : List HeaderType
  pub others : List HeaderType
  pub split : ts ≡ mine ++ (c ++ (cpp ++ (mine_late ++ others)))
  pub mine_first : All (λ t. is_mine t ≡ true) mine
  pub then_c : All (λ t. t ≡ c_sys_header) c
  pub then_cpp : All (λ t. t ≡ cpp_sys_header) cpp
  pub then_mine : All (λ t. is_mine t ≡ true) mine_late
  pub then_others : All (λ t. t ≡ other_header) others

-- No header of the file itself stands behind an other header.
unfoldable pub NoneBehindOther : List HeaderType → Type 0
NoneBehindOther [] = Unit
NoneBehindOther (t ∷ ts) = (t ≡ other_header → All (λ u. is_mine u ≡ false) ts) × NoneBehindOther ts

abbrev NoOther : List HeaderType → Type 0
NoOther ts = All (λ t. t ≢ other_header) ts

All-weaken :
    {P Q : HeaderType → Type 0} (ts : List HeaderType)
    → ((t : HeaderType) → P t → Q t)
    → All P ts
    → All Q ts
All-weaken [] f h = tt
All-weaken (t ∷ ts) f h = (f t h.0, All-weaken ts f h.1)

All-both :
    (P : HeaderType → Type 0) (xs ys : List HeaderType) → All P xs → All P ys → All P (xs ++ ys)
All-both P [] ys h k = k
All-both P (x ∷ xs) ys h k = (h.0, All-both P xs ys h.1 k)

NoneBehindOther-append :
    (xs ys : List HeaderType) → NoOther xs → NoneBehindOther ys → NoneBehindOther (xs ++ ys)
unfolding NoneBehindOther
NoneBehindOther-append [] ys h k = k
NoneBehindOther-append (x ∷ xs) ys h k = (λ e. absurd (h.0 e), NoneBehindOther-append xs ys h.1 k)

NoneBehindOther-right : (xs ys : List HeaderType) → NoneBehindOther (xs ++ ys) → NoneBehindOther ys
unfolding NoneBehindOther
NoneBehindOther-right [] ys h = h
NoneBehindOther-right (x ∷ xs) ys h = NoneBehindOther-right xs ys h.1

not_other : (t : HeaderType) → is_mine t ≡ true → t ≢ other_header
not_other t m e = let n = rw e at m in cc

NoneBehindOther-others :
    (ts : List HeaderType) → All (λ t. t ≡ other_header) ts → NoneBehindOther ts
unfolding NoneBehindOther
NoneBehindOther-others [] h = tt
NoneBehindOther-others (t ∷ ts) h =
    (λ e. All-weaken ts (λ u q. ap is_mine q) h.1, NoneBehindOther-others ts h.1)

-- The last two kinds of the comment.
record Tail (ts : List HeaderType) : Type 0 where
  mine_late : List HeaderType
  others : List HeaderType
  split : ts ≡ mine_late ++ others
  then_mine : All (λ t. is_mine t ≡ true) mine_late
  then_others : All (λ t. t ≡ other_header) others

late_other : (t : HeaderType) → is_late t ≡ true → is_mine t ≡ false → t ≡ other_header
late_other c_sys_header l m = cc
late_other cpp_sys_header l m = cc
late_other likely_my_header l m = cc
late_other possible_my_header l m = cc
late_other other_header l m = refl

All-others :
    (ts : List HeaderType)
    → All (λ t. is_late t ≡ true) ts
    → All (λ t. is_mine t ≡ false) ts
    → All (λ t. t ≡ other_header) ts
All-others [] h k = tt
All-others (t ∷ ts) h k = (late_other t h.0 k.0, All-others ts h.1 k.1)

tail_of : (ts : List HeaderType) → All (λ t. is_late t ≡ true) ts → NoneBehindOther ts → Tail ts
unfolding NoneBehindOther
tail_of [] h k = record {
  mine_late = [];
  others = [];
  split = refl;
  then_mine = tt;
  then_others = tt;
}
tail_of (c_sys_header ∷ ts) h k = cc (h.0)
tail_of (cpp_sys_header ∷ ts) h k = cc (h.0)
tail_of (other_header ∷ ts) h k = record {
  mine_late = [];
  others = other_header ∷ ts;
  split = refl;
  then_mine = tt;
  then_others = (refl, All-others ts h.1 (k.0 refl));
}
tail_of (t ∷ ts) h k =
    let r = tail_of ts h.1 k.1 in
    record {
      mine_late = t ∷ r.mine_late;
      others = r.others;
      split = ap (λ u. t ∷ u) r.split;
      then_mine = (refl, r.then_mine);
      then_others = r.then_others;
    }

to_order : (ts : List HeaderType) → Documented ts → InOrder ts × NoneBehindOther ts
to_order ts d = (
  record {
    mine = d.mine;
    c = d.c;
    cpp = d.cpp;
    late = d.mine_late ++ d.others;
    split = d.split;
    mine_first = d.mine_first;
    then_c = d.then_c;
    then_cpp = d.then_cpp;
    then_late =
        All-both (λ t. is_late t ≡ true) d.mine_late d.others
          (All-weaken d.mine_late late_mine d.then_mine)
          (All-weaken d.others (λ t e. ap is_late e) d.then_others);
  },
  rw d.split (
      NoneBehindOther-append d.mine _ (All-weaken d.mine not_other d.mine_first) (
        NoneBehindOther-append d.c _ (All-weaken d.c (λ t e f. apart_c (sym e ∙ f)) d.then_c) (
          NoneBehindOther-append d.cpp _
            (All-weaken d.cpp (λ t e f. apart_cpp (sym e ∙ f)) d.then_cpp)
            (NoneBehindOther-append d.mine_late d.others
              (All-weaken d.mine_late not_other d.then_mine)
              (NoneBehindOther-others d.others d.then_others))))),
)
  where
    late_mine : (t : HeaderType) → is_mine t ≡ true → is_late t ≡ true
    late_mine c_sys_header m = m
    late_mine cpp_sys_header m = m
    late_mine likely_my_header m = refl
    late_mine possible_my_header m = refl
    late_mine other_header m = refl

    apart_c : c_sys_header ≢ other_header
    apart_c e = cc

    apart_cpp : cpp_sys_header ≢ other_header
    apart_cpp e = cc

from_order : (ts : List HeaderType) → InOrder ts → NoneBehindOther ts → Documented ts
from_order ts r n = record {
  mine = r.mine;
  c = r.c;
  cpp = r.cpp;
  mine_late = t.mine_late;
  others = t.others;
  split = r.split ∙ ap (λ u. r.mine ++ (r.c ++ (r.cpp ++ u))) t.split;
  mine_first = r.mine_first;
  then_c = r.then_c;
  then_cpp = r.then_cpp;
  then_mine = t.then_mine;
  then_others = t.then_others;
}
  where
    t : Tail r.late
    t = tail_of r.late r.then_late (
        NoneBehindOther-right r.cpp r.late (
          NoneBehindOther-right r.c (r.cpp ++ r.late)
            (NoneBehindOther-right r.mine (r.c ++ (r.cpp ++ r.late)) (rw r.split at n))))

-- Headers stand in the order of the comment exactly when none of them gets a message and no header of
-- the file itself stands behind an other header. So the calls accept every sequence in that order, and
-- what they miss is exactly a header of the file itself behind others.
pub Documented-accepts :
    (ts : List HeaderType)
    → Documented ts ↔ ((accepts ts initial_include_state ≡ true) × NoneBehindOther ts)
Documented-accepts ts =
    let (a, b) = accepts_iff ts in
    (λ d. let (r, n) = to_order ts d in (b r, n), λ (e, n). from_order ts (a e) n)

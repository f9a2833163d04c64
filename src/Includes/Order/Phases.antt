-- ===== src/Includes/Order/Phases.antt =====
-- Which sequences of headers raise no complaint.
pub mod Documented
use mit_6172_fa15_project.Base.{
  Bool, true, false, List, [], ◌∷◌, ◌++◌, Option, none, some, Text, if◌then◌else◌, ◌≡◌, ◌≤◌, arith,
  All, ◌↔◌, refl, is_some, ap, ◌∙◌,
}
use mit_6172_fa15_project.Includes.Order.{
  HeaderType, c_sys_header, cpp_sys_header, likely_my_header, possible_my_header, other_header,
  Section, number, initial_section, my_h_section, c_section, cpp_section, other_h_section,
  IncludeState, check_next_include_order, initial_include_state,
}

-- No header of the sequence gets a message.
unfoldable pub accepts : List HeaderType → IncludeState → Bool
accepts [] s = true
accepts (t ∷ ts) s =
    let rest = accepts ts (check_next_include_order t s).0 in
    if is_some (check_next_include_order t s).1 then false else rest

abbrev pub is_mine : HeaderType → Bool
is_mine likely_my_header = true
is_mine possible_my_header = true
is_mine _ = false

abbrev pub is_late : HeaderType → Bool
is_late c_sys_header = false
is_late cpp_sys_header = false
is_late _ = true

-- The order that the calls accept: headers of the file itself, C system headers, C++ system headers,
-- then headers of the file itself and others in any mixture. The comment at clint.py:2442 wants the
-- first of these in front of the others; `Documented` says how the two orders differ.
pub record InOrder (ts : List HeaderType) : Type 0 where
  pub mine : List HeaderType
  pub c : List HeaderType
  pub cpp : List HeaderType
  pub late : List HeaderType
  pub split : ts ≡ mine ++ (c ++ (cpp ++ late))
  pub mine_first : All (λ t. is_mine t ≡ true) mine
  pub then_c : All (λ t. t ≡ c_sys_header) c
  pub then_cpp : All (λ t. t ≡ cpp_sys_header) cpp
  pub then_late : All (λ t. is_late t ≡ true) late

-- The section behind a header, `none` where it is out of order.
abbrev next : HeaderType → Section → Option Section
next c_sys_header cpp_section = none
next c_sys_header other_h_section = none
next c_sys_header _ = some c_section
next cpp_sys_header other_h_section = none
next cpp_sys_header _ = some cpp_section
next other_header _ = some other_h_section
next _ initial_section = some my_h_section
next _ my_h_section = some my_h_section
next _ _ = some other_h_section

fits : List HeaderType → Section → Bool
fits [] s = true
fits (t ∷ ts) s = elim (next t s) [ none ↦ false | some s' ↦ fits ts s' ]

abbrev Agrees : IncludeState × Option Text → Option Section → Type 0
Agrees (s, message) none = is_some message ≡ true
Agrees (s, message) (some sec) = (is_some message ≡ false) × (s.section ≡ sec)

check-next :
    (t : HeaderType) (s : IncludeState) → Agrees (check_next_include_order t s) (next t s.section)
unfolding check_next_include_order
check-next c_sys_header s = ground arith
check-next cpp_sys_header s = ground arith
check-next _ s = ground arith

accepts-fits : (ts : List HeaderType) (s : IncludeState) → accepts ts s ≡ fits ts s.section
unfolding accepts fits
accepts-fits [] s = refl
accepts-fits (t ∷ ts) s =
    go (next t s.section) (check-next t s) (accepts-fits ts (check_next_include_order t s).0)
  where
    go :
        (o : Option Section)
        → Agrees (check_next_include_order t s) o
        → accepts ts (check_next_include_order t s).0
          ≡ fits ts (check_next_include_order t s).0.section
        → (if is_some (check_next_include_order t s).1
            then false
            else accepts ts (check_next_include_order t s).0)
          ≡ elim o [ none ↦ false | some s' ↦ fits ts s' ]
    go none a ih = rw a
    go (some sec) (a, e) ih = rw a (ih ∙ ap (fits ts) e)

abbrev Late : List HeaderType → Type 0
Late ts = All (λ t. is_late t ≡ true) ts

fits-late : (ts : List HeaderType) → (fits ts other_h_section ≡ true) ↔ Late ts
unfolding fits
fits-late [] = (λ _. tt, λ _. refl)
fits-late (c_sys_header ∷ ts) = (λ h. cc, λ h. h.0)
fits-late (cpp_sys_header ∷ ts) = (λ h. cc, λ h. h.0)
fits-late (likely_my_header ∷ ts) = (λ h. (refl, (fits-late ts).0 h), λ h. (fits-late ts).1 h.1)
fits-late (possible_my_header ∷ ts) = (λ h. (refl, (fits-late ts).0 h), λ h. (fits-late ts).1 h.1)
fits-late (other_header ∷ ts) = (λ h. (refl, (fits-late ts).0 h), λ h. (fits-late ts).1 h.1)

-- Late headers fit behind every section.
fits_late_any : (s : Section) (ts : List HeaderType) → Late ts → fits ts s ≡ true
unfolding fits
fits_late_any s [] h = refl
fits_late_any s (c_sys_header ∷ ts) h = cc (h.0)
fits_late_any s (cpp_sys_header ∷ ts) h = cc (h.0)
fits_late_any s (other_header ∷ ts) h = fits_late_any other_h_section ts h.1
fits_late_any initial_section (likely_my_header ∷ ts) h = fits_late_any my_h_section ts h.1
fits_late_any my_h_section (likely_my_header ∷ ts) h = fits_late_any my_h_section ts h.1
fits_late_any _ (likely_my_header ∷ ts) h = fits_late_any other_h_section ts h.1
fits_late_any initial_section (possible_my_header ∷ ts) h = fits_late_any my_h_section ts h.1
fits_late_any my_h_section (possible_my_header ∷ ts) h = fits_late_any my_h_section ts h.1
fits_late_any _ (possible_my_header ∷ ts) h = fits_late_any other_h_section ts h.1

abbrev AllCpp : List HeaderType → Type 0
AllCpp ts = All (λ t. t ≡ cpp_sys_header) ts

abbrev AllC : List HeaderType → Type 0
AllC ts = All (λ t. t ≡ c_sys_header) ts

abbrev AllMine : List HeaderType → Type 0
AllMine ts = All (λ t. is_mine t ≡ true) ts

fits_cpp :
    (s : Section) (ps ts : List HeaderType)
    → number s ≤ 3
    → AllCpp ps
    → Late ts
    → fits (ps ++ ts) s ≡ true
unfolding fits
fits_cpp s [] ts b h l = fits_late_any s ts l
fits_cpp other_h_section (p ∷ ps) ts b h l = absurd (omega arith)
fits_cpp initial_section (p ∷ ps) ts b h l = rw h.0 (fits_cpp cpp_section ps ts (omega arith) h.1 l)
fits_cpp _ (p ∷ ps) ts b h l = rw h.0 (fits_cpp cpp_section ps ts (omega arith) h.1 l)

fits_c :
    (s : Section) (cs ps ts : List HeaderType)
    → number s ≤ 2
    → AllC cs
    → AllCpp ps
    → Late ts
    → fits (cs ++ (ps ++ ts)) s ≡ true
unfolding fits
fits_c s [] ps ts b c p l = fits_cpp s ps ts (omega arith) p l
fits_c other_h_section (x ∷ cs) ps ts b c p l = absurd (omega arith)
fits_c cpp_section (x ∷ cs) ps ts b c p l = absurd (omega arith)
fits_c initial_section (x ∷ cs) ps ts b c p l =
    rw c.0 (fits_c c_section cs ps ts (omega arith) c.1 p l)
fits_c _ (x ∷ cs) ps ts b c p l = rw c.0 (fits_c c_section cs ps ts (omega arith) c.1 p l)

fits_mine :
    (s : Section) (ms cs ps ts : List HeaderType)
    → number s ≤ 1
    → AllMine ms
    → AllC cs
    → AllCpp ps
    → Late ts
    → fits (ms ++ (cs ++ (ps ++ ts))) s ≡ true
unfolding fits
fits_mine s [] cs ps ts b m c p l = fits_c s cs ps ts (omega arith) c p l
fits_mine s (c_sys_header ∷ ms) cs ps ts b m c p l = cc (m.0)
fits_mine s (cpp_sys_header ∷ ms) cs ps ts b m c p l = cc (m.0)
fits_mine s (other_header ∷ ms) cs ps ts b m c p l = cc (m.0)
fits_mine initial_section (_ ∷ ms) cs ps ts b m c p l =
    fits_mine my_h_section ms cs ps ts (omega arith) m.1 c p l
fits_mine my_h_section (_ ∷ ms) cs ps ts b m c p l =
    fits_mine my_h_section ms cs ps ts (omega arith) m.1 c p l
fits_mine _ (_ ∷ ms) cs ps ts b m c p l = absurd (omega arith)

record CppTail (ts : List HeaderType) : Type 0 where
  cpp : List HeaderType
  late : List HeaderType
  split : ts ≡ cpp ++ late
  then_cpp : AllCpp cpp
  then_late : Late late

record CTail (ts : List HeaderType) : Type 0 where
  c : List HeaderType
  tail : List HeaderType
  split : ts ≡ c ++ tail
  then_c : AllC c
  rest : CppTail tail

only_late : (ts : List HeaderType) → Late ts → CppTail ts
only_late ts h = record { cpp = []; late = ts; split = refl; then_cpp = tt; then_late = h }

cpp_tail : (ts : List HeaderType) → fits ts cpp_section ≡ true → CppTail ts
unfolding fits
cpp_tail [] h = only_late [] tt
cpp_tail (c_sys_header ∷ ts) h = cc
cpp_tail (cpp_sys_header ∷ ts) h =
    let r = cpp_tail ts h in
    record {
      cpp = cpp_sys_header ∷ r.cpp;
      late = r.late;
      split = ap (◌∷◌ cpp_sys_header) r.split;
      then_cpp = (refl, r.then_cpp);
      then_late = r.then_late;
    }
cpp_tail (likely_my_header ∷ ts) h = only_late _ (refl, (fits-late ts).0 h)
cpp_tail (possible_my_header ∷ ts) h = only_late _ (refl, (fits-late ts).0 h)
cpp_tail (other_header ∷ ts) h = only_late _ (refl, (fits-late ts).0 h)

no_c : (ts : List HeaderType) → CppTail ts → CTail ts
no_c ts r = record { c = []; tail = ts; split = refl; then_c = tt; rest = r }

c_tail : (ts : List HeaderType) → fits ts c_section ≡ true → CTail ts
unfolding fits
c_tail [] h = no_c [] (only_late [] tt)
c_tail (c_sys_header ∷ ts) h =
    let r = c_tail ts h in
    record {
      c = c_sys_header ∷ r.c;
      tail = r.tail;
      split = ap (◌∷◌ c_sys_header) r.split;
      then_c = (refl, r.then_c);
      rest = r.rest;
    }
c_tail (cpp_sys_header ∷ ts) h = no_c _ (cpp_tail (cpp_sys_header ∷ ts) h)
c_tail (likely_my_header ∷ ts) h = no_c _ (only_late _ (refl, (fits-late ts).0 h))
c_tail (possible_my_header ∷ ts) h = no_c _ (only_late _ (refl, (fits-late ts).0 h))
c_tail (other_header ∷ ts) h = no_c _ (only_late _ (refl, (fits-late ts).0 h))

no_mine : (ts : List HeaderType) → CTail ts → InOrder ts
no_mine ts r = record {
  mine = [];
  c = r.c;
  cpp = r.rest.cpp;
  late = r.rest.late;
  split = r.split ∙ ap (◌++◌ r.c) r.rest.split;
  mine_first = tt;
  then_c = r.then_c;
  then_cpp = r.rest.then_cpp;
  then_late = r.rest.then_late;
}

one_mine :
    (t : HeaderType) {ts : List HeaderType} → is_mine t ≡ true → InOrder ts → InOrder (t ∷ ts)
one_mine t m r = record {
  mine = t ∷ r.mine;
  c = r.c;
  cpp = r.cpp;
  late = r.late;
  split = ap (◌∷◌ t) r.split;
  mine_first = (m, r.mine_first);
  then_c = r.then_c;
  then_cpp = r.then_cpp;
  then_late = r.then_late;
}

in_order : (s : Section) (ts : List HeaderType) → number s ≤ 1 → fits ts s ≡ true → InOrder ts
unfolding fits
in_order s [] b h = no_mine [] (no_c [] (only_late [] tt))
in_order initial_section (c_sys_header ∷ ts) b h = no_mine _ (c_tail (c_sys_header ∷ ts) h)
in_order my_h_section (c_sys_header ∷ ts) b h = no_mine _ (c_tail (c_sys_header ∷ ts) h)
in_order initial_section (cpp_sys_header ∷ ts) b h = no_mine _ (c_tail (cpp_sys_header ∷ ts) h)
in_order my_h_section (cpp_sys_header ∷ ts) b h = no_mine _ (c_tail (cpp_sys_header ∷ ts) h)
in_order initial_section (other_header ∷ ts) b h = no_mine _ (c_tail (other_header ∷ ts) h)
in_order my_h_section (other_header ∷ ts) b h = no_mine _ (c_tail (other_header ∷ ts) h)
in_order initial_section (t ∷ ts) b h = one_mine t refl (in_order my_h_section ts (omega arith) h)
in_order my_h_section (t ∷ ts) b h = one_mine t refl (in_order my_h_section ts (omega arith) h)
in_order _ (t ∷ ts) b h = absurd (omega arith)

-- From the start of a file no header gets a message exactly when the headers are, in this order,
-- headers of the file itself, C system headers, C++ system headers, and then headers of the file
-- itself and others in any mixture.
pub accepts_iff : (ts : List HeaderType) → (accepts ts initial_include_state ≡ true) ↔ InOrder ts
accepts_iff ts = (
  λ h. in_order initial_section ts (omega arith) (rw accepts-fits at h),
  λ r.
      accepts-fits ts initial_include_state
      ∙ rw r.split (
          fits_mine initial_section r.mine r.c r.cpp r.late (omega arith) r.mine_first r.then_c
            r.then_cpp r.then_late),
)

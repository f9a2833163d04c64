-- ===== src/Classes/Depth.antt =====
-- The stack of classes over the lines of a file.
use mit_6172_fa15_project.Base.{
  suc, length, ◌++◌, ℕ, ◌+◌, ◌≤◌, ◌<◌, true, false, List, [], ◌∷◌, Option, none, some, Text,
  if◌then◌else◌, leb, elem, ◌≡◌, refl, sym, ◌∙◌, arith, by_branches,
}
use mit_6172_fa15_project.Str.{count_char}
use mit_6172_fa15_project.Regex.Find.{Hit, match, searches}
use mit_6172_fa15_project.Lint.{Event}
use mit_6172_fa15_project.Classes.Patterns.{re_class_decl, re_virtual, re_bare_colon}
use mit_6172_fa15_project.Classes.{
  ClassInfo, ClassStack, pushed, note_virtual, leave, inside, look_for_brace, track_top,
  track_classes,
}

-- A class was declared on one of the first `n` lines, and the virtual method noted stands on one of
-- them, not in front of the class.
pub record IsPlaced (n : ℕ) (c : ClassInfo) : Type 0 where
  pub declared : c.linenum < n
  pub method : (m : ℕ) → c.virtual_method_linenumber ≡ some m → (c.linenum ≤ m) × (m < n)

-- Such a class has a positive depth exactly if its open brace was seen, and a virtual method is
-- noted only then.
pub record IsClass (n : ℕ) (c : ClassInfo) : Type 0 where
  pub placed : IsPlaced n c
  pub depth : c.seen_open_brace ≡ leb 1 c.brace_depth
  pub unopened : c.seen_open_brace ≡ false → c.virtual_method_linenumber ≡ none

-- Each class is declared behind all that is noted of those around it.
abbrev pub IsNested : ℕ → ClassStack → Type 0
IsNested n [] = Unit
IsNested n (c ∷ stack) = IsClass n c × IsNested c.linenum stack

IsPlaced-later : (n m : ℕ) (c : ClassInfo) → n ≤ m → IsPlaced n c → IsPlaced m c
IsPlaced-later n m c h k = record {
  declared = let d = k.declared in omega arith;
  method = λ j e. let (a, b) = k.method j e in (a, omega arith);
}

IsNested-later : (n m : ℕ) (stack : ClassStack) → n ≤ m → IsNested n stack → IsNested m stack
IsNested-later n m [] h k = tt
IsNested-later n m (c ∷ stack) h (k, ks) = (
  record { placed = IsPlaced-later n m c h k.placed; depth = k.depth; unopened = k.unopened },
  ks,
)

pushed-IsNested :
    (o : Option Hit) (lines : List Text) (n : ℕ) (stack : ClassStack)
    → IsNested n stack
    → IsNested (n + 1) (pushed o lines n stack)
pushed-IsNested none lines n stack k = IsNested-later n (n + 1) stack (omega arith) k
pushed-IsNested (some m) lines n stack k = (
  record {
    placed = record { declared = omega arith; method = λ j e. cc };
    depth = refl;
    unopened = λ h. refl;
  },
  k,
)

note_virtual-IsPlaced :
    (line : Text) (n : ℕ) (c : ClassInfo)
    → IsPlaced (n + 1) c
    → IsPlaced (n + 1) (note_virtual line n c)
      × ((note_virtual line n c).seen_open_brace ≡ c.seen_open_brace)
      × ((note_virtual line n c).linenum ≡ c.linenum)
unfolding note_virtual
note_virtual-IsPlaced line n c k = (
  record {
    declared = k.declared;
    method =
        by_branches (λ v. (m : ℕ) → v ≡ some m → (c.linenum ≤ m) × (m < n + 1))
          (searches re_virtual line) (λ h m e. let d = k.declared in ground arith) (λ h. k.method);
  },
  refl,
  refl,
)

-- The stack behind a line is nested.
abbrev IsKept : ℕ → ClassStack × List Event → Type 0
IsKept n r = IsNested (n + 1) r.0

leave-IsKept :
    (line : Text) (n : ℕ) (c : ClassInfo) (stack : ClassStack)
    → c.seen_open_brace ≡ true
    → IsPlaced (n + 1) c
    → IsNested c.linenum stack
    → IsKept n (leave line c stack)
unfolding leave
leave-IsKept line n c stack seen k ks =
    by_branches (IsKept n) (leb (c.brace_depth + count_char b'{' line) (count_char b'}' line))
      (λ h. IsNested-later c.linenum (n + 1) stack (let d = k.declared in omega arith) ks)
      (λ h. (
        record {
          placed = record { declared = k.declared; method = k.method };
          depth = ground arith;
          unopened = λ u. cc;
        },
        ks,
      ))

inside-IsKept :
    (line : Text) (n : ℕ) (c : ClassInfo) (stack : ClassStack)
    → c.seen_open_brace ≡ true
    → IsPlaced (n + 1) c
    → IsNested c.linenum stack
    → IsKept n (inside line n c stack)
unfolding inside
inside-IsKept line n c stack seen k ks =
    let (k', same_brace, same) = note_virtual-IsPlaced line n c k in
    leave-IsKept line n (note_virtual line n c) stack (same_brace ∙ seen) k' (rw same ks)

look_for_brace-IsKept :
    (line : Text) (n : ℕ) (c : ClassInfo) (stack : ClassStack)
    → c.seen_open_brace ≡ false
    → IsNested (n + 1) (c ∷ stack)
    → IsKept n (look_for_brace line n c stack)
unfolding look_for_brace
look_for_brace-IsKept line n c stack unseen (k, ks) =
    by_branches (IsKept n) (elem b';' line)
      (λ h. IsNested-later c.linenum (n + 1) stack (let d = k.placed.declared in omega arith) ks)
      (λ h.
        by_branches (IsKept n) (elem b'{' line)
          (λ brace.
            inside-IsKept line n
              (record c {
                seen_open_brace = elem b'{' line;
                is_derived = if searches re_bare_colon line then true else c.is_derived;
              })
              stack brace (record { declared = k.placed.declared; method = k.placed.method }) ks)
          (λ brace. (
            record {
              placed = record { declared = k.placed.declared; method = k.placed.method };
              depth = brace ∙ sym unseen ∙ k.depth;
              unopened = λ u. k.unopened unseen;
            },
            ks,
          )))

track_top-IsKept :
    (line : Text) (n : ℕ) (stack : ClassStack)
    → IsNested (n + 1) stack
    → IsKept n (track_top line n stack)
unfolding track_top
track_top-IsKept line n [] k = tt
track_top-IsKept line n (c ∷ stack) (k, ks) =
    by_branches (IsKept n) c.seen_open_brace (λ h. inside-IsKept line n c stack h k.placed ks)
      (λ h. look_for_brace-IsKept line n c stack h (k, ks))

-- The elided lines of a file from line `n` on.
unfoldable pub track_lines : List Text → List Text → ℕ → ClassStack → ClassStack × List Event
track_lines lines [] n stack = (stack, [])
track_lines lines (line ∷ rest) n stack =
    let (stack', events) = track_classes lines line n stack in
    let (stack'', events') = track_lines lines rest (n + 1) stack' in (stack'', events ++ events')

track_lines_keeps-IsNested :
    (lines rest : List Text) (n : ℕ) (stack : ClassStack)
    → IsNested n stack
    → IsNested (length rest + n) (track_lines lines rest n stack).0
unfolding track_lines track_classes
track_lines_keeps-IsNested lines [] n stack k = IsNested-later n (0 + n) stack (omega arith) k
track_lines_keeps-IsNested lines (line ∷ rest) n stack k =
    IsNested-later (length rest + (n + 1)) (suc (length rest) + n) _ (omega arith) (
      track_lines_keeps-IsNested lines rest (n + 1) (track_classes lines line n stack).0 (
        track_top-IsKept line n (pushed (match re_class_decl line) lines n stack)
          (pushed-IsNested (match re_class_decl line) lines n stack k)))

-- Behind any lines the classes on the stack are nested: each is declared on one of the lines, behind
-- the one around it and behind the virtual method last noted there; its depth is positive exactly if
-- its open brace was seen; a virtual method is noted only then, and not in front of the class.
pub track_lines-IsNested :
    (lines rest : List Text) → IsNested (length rest) (track_lines lines rest 0 []).0
track_lines-IsNested lines rest =
    IsNested-later (length rest + 0) (length rest) _ (omega arith)
      (track_lines_keeps-IsNested lines rest 0 [] tt)

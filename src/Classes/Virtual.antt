-- ===== src/Classes/Virtual.antt =====
-- The warning on a missing virtual destructor, over the lines of a class.
use mit_6172_fa15_project.Base.{
  ℕ, ◌+◌, ◌-◌, ◌≤◌, ◌<◌, Bool, true, false, not, ◌&&◌, List, [], ◌∷◌, ◌++◌, Option, none, some,
  Text, if◌then◌else◌, leb, ◌≡◌, refl, sym, ap, ◌∙◌, arith, append-nil, append_assoc,
}
use mit_6172_fa15_project.Str.{count_char}
use mit_6172_fa15_project.Regex.Find.{match, searches}
use mit_6172_fa15_project.Lint.{Event}
use mit_6172_fa15_project.Classes.Patterns.{re_class_decl, re_virtual, re_destructor}
use mit_6172_fa15_project.Classes.{
  ClassInfo, ClassStack, base_classname, check_explicit, note_virtual, virtual_warning, virtual_at,
  check_virtual_destructor, leave, inside, track_top, track_classes, pushed, look_for_brace,
}
use mit_6172_fa15_project.Classes.Depth.{track_lines}

abbrev pub opens : Text → ℕ
opens line = count_char b'{' line

abbrev pub closes : Text → ℕ
closes line = count_char b'}' line

-- Lines that declare no class and behind each of which a class of that depth stays open.
abbrev pub IsBody : ℕ → List Text → Type 0
IsBody depth [] = Unit
IsBody depth (line ∷ lines) =
    (match re_class_decl line ≡ none)
    × (closes line < depth + opens line)
    × IsBody (depth + opens line - closes line) lines

-- The depth behind lines.
abbrev pub depth_after : ℕ → List Text → ℕ
depth_after depth [] = depth
depth_after depth (line ∷ lines) = depth_after (depth + opens line - closes line) lines

-- A line that declares no class and closes one of that depth.
abbrev pub IsEnd : ℕ → Text → Type 0
IsEnd depth line = (match re_class_decl line ≡ none) × (depth + opens line ≤ closes line)

-- The last line with a virtual method, from line `n` on.
abbrev pub last_virtual : ℕ → Option ℕ → List Text → Option ℕ
last_virtual n found [] = found
last_virtual n found (line ∷ lines) =
    last_virtual (n + 1) (if searches re_virtual line then some n else found) lines

-- Whether a line declares the destructor virtual.
abbrev pub is_virtual_destructor : Text → Text → Bool
is_virtual_destructor name line =
    searches re_virtual line && searches (re_destructor (base_classname name)) line

abbrev pub has_destructor : Text → Bool → List Text → Bool
has_destructor name found [] = found
has_destructor name found (line ∷ lines) =
    has_destructor name (if is_virtual_destructor name line then true else found) lines

abbrev pub explicit_events : Text → ℕ → List Text → List Event
explicit_events name n [] = []
explicit_events name n (line ∷ lines) =
    check_explicit line n name ++ explicit_events name (n + 1) lines

-- The warning that is due for a class at its end.
abbrev pub due : ClassInfo → Option ℕ → Bool → List Event
due c none destructor = []
due c (some n) destructor =
    if not destructor && not c.is_derived then virtual_warning c n ∷ [] else []

-- A line that declares no class, inside of one.
track_classes-inside :
    (lines : List Text) (line : Text) (n : ℕ) (c : ClassInfo) (stack : ClassStack)
    → c.seen_open_brace ≡ true
    → match re_class_decl line ≡ none
    → track_classes lines line n (c ∷ stack) ≡ inside line n c stack
unfolding track_classes track_top
track_classes-inside lines line n c stack seen plain =
    ap (λ o. track_top line n (pushed o lines n (c ∷ stack))) plain
    ∙ ap (λ b. if b then inside line n c stack else look_for_brace line n c stack) seen

virtual_at-due :
    (line : Text) (n : ℕ) (c : ClassInfo) (v : Option ℕ)
    → virtual_at (note_virtual line n c) v
      ≡ due c v (has_destructor c.name c.has_virtual_destructor (line ∷ []))
unfolding note_virtual
virtual_at-due line n c none = refl
virtual_at-due line n c (some m) = refl

inside-closed :
    (line : Text) (n : ℕ) (c : ClassInfo) (stack : ClassStack)
    → c.brace_depth + opens line ≤ closes line
    → inside line n c stack ≡ (
      stack,
      check_explicit line n c.name
          ++ due c
              (last_virtual n c.virtual_method_linenumber (line ∷ []))
              (has_destructor c.name c.has_virtual_destructor (line ∷ [])),
    )
unfolding inside leave note_virtual check_virtual_destructor
inside-closed line n c stack closing =
    let d = note_virtual line n c in
    let test : leb (c.brace_depth + opens line) (closes line) ≡ true = ground arith in
    let r : ClassStack × List Event =
      (record d { brace_depth = c.brace_depth + opens line - closes line } ∷ stack, []) in
    let explicit = check_explicit line n c.name in
    ap
      (λ b.
        let x : ClassStack × List Event = if b then (stack, check_virtual_destructor d) else r in
        (x.0, explicit ++ x.1))
      test
    ∙ ap (λ es. (stack, explicit ++ es)) (virtual_at-due line n c _)

inside-kept :
    (line : Text) (n : ℕ) (c : ClassInfo) (stack : ClassStack)
    → closes line < c.brace_depth + opens line
    → inside line n c stack ≡ (
      record (note_virtual line n c) { brace_depth = c.brace_depth + opens line - closes line }
          ∷ stack,
      check_explicit line n c.name ++ [],
    )
unfolding inside leave note_virtual
inside-kept line n c stack still =
    let d = note_virtual line n c in
    let test : leb (c.brace_depth + opens line) (closes line) ≡ false = ground arith in
    let r : ClassStack × List Event =
      (record d { brace_depth = c.brace_depth + opens line - closes line } ∷ stack, []) in
    ap
      (λ b.
        let x : ClassStack × List Event = if b then (stack, check_virtual_destructor d) else r in
        (x.0, check_explicit line n c.name ++ x.1))
      test

-- The class behind a line that keeps it open.
abbrev kept : Text → ℕ → ClassInfo → ClassInfo
kept line n c = record (note_virtual line n c) {
  brace_depth = c.brace_depth + opens line - closes line;
}

due-kept :
    (line : Text) (n : ℕ) (c : ClassInfo) (v : Option ℕ) (b : Bool)
    → due (kept line n c) v b ≡ due c v b
unfolding note_virtual
due-kept line n c none b = refl
due-kept line n c (some m) b = refl

-- When a class has its open brace and lines that declare no class and keep it open are followed by
-- one that declares none and closes it, the class is taken from the stack. Beside the messages on
-- constructors there is then a warning at its declaration exactly if a virtual method stands on one
-- of the lines or was noted before, the destructor is declared virtual on no line with a virtual
-- method and was not noted before, and the class is not derived; the warning names the last line
-- with a virtual method, or else the one noted before.
pub track_lines-due :
    (lines body : List Text) (line : Text) (n : ℕ) (c : ClassInfo) (stack : ClassStack)
    → c.seen_open_brace ≡ true
    → IsBody c.brace_depth body
    → IsEnd (depth_after c.brace_depth body) line
    → track_lines lines (body ++ line ∷ []) n (c ∷ stack) ≡ (
      stack,
      explicit_events c.name n (body ++ line ∷ [])
          ++ due c
              (last_virtual n c.virtual_method_linenumber (body ++ line ∷ []))
              (has_destructor c.name c.has_virtual_destructor (body ++ line ∷ [])),
    )
unfolding track_lines note_virtual
track_lines-due lines [] line n c stack seen body (plain, closing) =
    let explicit = check_explicit line n c.name in
    let w =
      due c (last_virtual n c.virtual_method_linenumber (line ∷ []))
        (has_destructor c.name c.has_virtual_destructor (line ∷ [])) in
    ap (λ (r : ClassStack × List Event). (r.0, r.1 ++ []))
      (track_classes-inside lines line n c stack seen plain ∙ inside-closed line n c stack closing)
    ∙ ap (λ es. (stack, es))
        (append-nil (explicit ++ w) ∙ ap (λ es. es ++ w) (sym (append-nil explicit)))
track_lines-due lines (x ∷ body) line n c stack seen (plain, still, more) end =
    let explicit = check_explicit x n c.name in
    let rest = explicit_events c.name (n + 1) (body ++ line ∷ []) in
    let v = last_virtual n c.virtual_method_linenumber (x ∷ (body ++ line ∷ [])) in
    let b = has_destructor c.name c.has_virtual_destructor (x ∷ (body ++ line ∷ [])) in
    ap
      (λ (r : ClassStack × List Event).
        let t = track_lines lines (body ++ line ∷ []) (n + 1) r.0 in (t.0, r.1 ++ t.1))
      (track_classes-inside lines x n c stack seen plain ∙ inside-kept x n c stack still)
    ∙ ap (λ (t : ClassStack × List Event). (t.0, (explicit ++ []) ++ t.1))
        (track_lines-due lines body line (n + 1) (kept x n c) stack seen more end)
    ∙ ap (λ es. (stack, (explicit ++ []) ++ (rest ++ es))) (due-kept x n c v b)
    ∙ ap (λ es. (stack, es))
        (ap (λ es. es ++ (rest ++ due c v b)) (append-nil explicit)
          ∙ sym (append_assoc explicit rest (due c v b)))

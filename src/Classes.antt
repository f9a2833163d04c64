-- ===== src/Classes.antt =====
-- The stack of classes: `_ClassInfo` (clint.py:1291), `_ClassState` (clint.py:1318) and the part of
-- CheckForNonStandardConstructs that keeps it (clint.py:1430-1514). The top of the stack stands first.
pub mod Patterns
pub mod Constructs
pub mod Depth
pub mod Virtual
use mit_6172_fa15_project.Base.{
  ℕ, ◌+◌, ◌-◌, Bool, true, false, not, ◌&&◌, ◌||◌, List, [], ◌∷◌, ◌++◌, Option, none, some, Text,
  if◌then◌else◌, ◌==◌, leb, drop, elem, is_some,
}
use mit_6172_fa15_project.Str.{codes, decimal, split, count_char, strip, text_eq}
use mit_6172_fa15_project.Regex.Find.{Hit, match, matches, searches, group_of}
use mit_6172_fa15_project.Lint.{Event, error}
use mit_6172_fa15_project.Classes.Patterns.{
  re_class_decl, re_bare_colon, re_constructor, re_copied, re_virtual, re_destructor,
}

-- _ClassInfo
pub record ClassInfo : Type 0 where
  pub name : Text
  pub linenum : ℕ
  pub seen_open_brace : Bool
  pub is_derived : Bool
  pub virtual_method_linenumber : Option ℕ
  pub has_virtual_destructor : Bool
  pub brace_depth : ℕ
  pub last_line : ℕ

-- The loop of `__init__`: the depth, which may be negative, is the braces opened less those closed.
unfoldable pub find_last_line : ℕ → ℕ → List Text → ℕ → ℕ
find_last_line opened closed [] i = 0
find_last_line opened closed (line ∷ lines) i =
    let opened' = opened + count_char b'{' line in
    let closed' = closed + count_char b'}' line in
    let rest = find_last_line opened' closed' lines (i + 1) in
    if opened' == closed' then i else rest

abbrev pub new_class : Text → List Text → ℕ → ClassInfo
new_class name lines linenum = record {
  name = name;
  linenum = linenum;
  seen_open_brace = false;
  is_derived = false;
  virtual_method_linenumber = none;
  has_virtual_destructor = false;
  brace_depth = 0;
  last_line = find_last_line 0 0 (drop linenum lines) linenum;
}

-- classinfo_stack
abbrev pub ClassStack : Type 0
ClassStack = List ClassInfo

abbrev last_of : Text → List Text → Text
last_of d [] = d
last_of d (x ∷ xs) = last_of x xs

-- classinfo.name.split('::')[-1]; a name has colons only in pairs
unfoldable pub base_classname : Text → Text
base_classname name = last_of [] (split b':' name)

abbrev declared_name : Option Text → Text
declared_name none = []
declared_name (some name) = name

abbrev pub pushed : Option Hit → List Text → ℕ → ClassStack → ClassStack
pushed none lines linenum stack = stack
pushed (some m) lines linenum stack = new_class (declared_name (group_of m 4)) lines linenum ∷ stack

abbrev not_copied : Text → Text → Bool
not_copied base args =
    not (text_eq args (codes "void")) && not (matches (re_copied base) (strip args))

abbrev explicit_in : Text → ℕ → Option Text → List Event
explicit_in base linenum none = []
explicit_in base linenum (some args) =
    if not_copied base args
    then error linenum (codes "runtime/explicit") 5
        (codes "Single-argument constructors should be marked explicit.")
      ∷ []
    else []

abbrev constructor_in : Text → ℕ → Option Hit → List Event
constructor_in base linenum none = []
constructor_in base linenum (some m) = explicit_in base linenum (group_of m 1)

-- Single-argument constructors of the class of a name.
unfoldable pub check_explicit : Text → ℕ → Text → List Event
check_explicit line linenum name =
    let base = base_classname name in constructor_in base linenum (match (re_constructor base) line)

-- Methods declared virtual, and a destructor on the line of one.
unfoldable pub note_virtual : Text → ℕ → ClassInfo → ClassInfo
note_virtual line linenum c =
    let found = searches re_virtual line in
    let destructor = searches (re_destructor (base_classname c.name)) line in
    record c {
      virtual_method_linenumber = if found then some linenum else c.virtual_method_linenumber;
      has_virtual_destructor = if found && destructor then true else c.has_virtual_destructor;
    }

abbrev pub virtual_warning : ClassInfo → ℕ → Event
virtual_warning c n = error c.linenum (codes "runtime/virtual") 4 (
    codes "The class "
    ++ c.name
    ++ codes
        " probably needs a virtual destructor due to having virtual method(s), one declared at line "
    ++ decimal n
    ++ codes ".")

abbrev pub virtual_at : ClassInfo → Option ℕ → List Event
virtual_at c none = []
virtual_at c (some n) =
    if not c.has_virtual_destructor && not c.is_derived then virtual_warning c n ∷ [] else []

-- A class that is popped at its end.
unfoldable pub check_virtual_destructor : ClassInfo → List Event
check_virtual_destructor c = virtual_at c c.virtual_method_linenumber

-- The class end: `brace_depth + opened - closed <= 0`.
unfoldable pub leave : Text → ClassInfo → ClassStack → ClassStack × List Event
leave line c stack =
    let depth = c.brace_depth + count_char b'{' line in
    let closed = count_char b'}' line in
    if leb depth closed
    then (stack, check_virtual_destructor c)
    else (record c { brace_depth = depth - closed } ∷ stack, [])

-- Behind the open brace.
unfoldable pub inside : Text → ℕ → ClassInfo → ClassStack → ClassStack × List Event
unfolding leave
inside line linenum c stack =
    let (stack', events) = leave line (note_virtual line linenum c) stack in
    (stack', check_explicit line linenum c.name ++ events)

-- Before the open brace.
unfoldable pub look_for_brace : Text → ℕ → ClassInfo → ClassStack → ClassStack × List Event
unfolding inside
look_for_brace line linenum c stack =
    let c' = record c {
      seen_open_brace = elem b'{' line;
      is_derived = if searches re_bare_colon line then true else c.is_derived;
    } in
    if elem b';' line
    then (stack, [])
    else if elem b'{' line
    then inside line linenum c' stack
    else (c' ∷ stack, [])

unfoldable pub track_top : Text → ℕ → ClassStack → ClassStack × List Event
unfolding inside look_for_brace
track_top line linenum [] = ([], [])
track_top line linenum (c ∷ stack) =
    if c.seen_open_brace then inside line linenum c stack else look_for_brace line linenum c stack

-- The part of CheckForNonStandardConstructs from the class declarations on; `lines` are those
-- without comments, and `line` is elided.
unfoldable pub track_classes : List Text → Text → ℕ → ClassStack → ClassStack × List Event
unfolding track_top
track_classes lines line linenum stack =
    track_top line linenum (pushed (match re_class_decl line) lines linenum stack)

abbrev bottom : ClassInfo → ClassStack → ClassInfo
bottom c [] = c
bottom c (d ∷ stack) = bottom d stack

-- CheckFinished
unfoldable pub check_finished : ClassStack → List Event
check_finished [] = []
check_finished (c ∷ stack) =
    let first = bottom c stack in
    error first.linenum (codes "build/class") 5
      (codes "Failed to find complete declaration of class " ++ first.name)
    ∷ []

-- ===== src/Tests/Nesting.antt =====
-- The stack of classes (clint.py:1291-1514) at concrete lines.
use mit_6172_fa15_project.Base.{
  ◌≡◌, refl, List, [], ◌∷◌, ◌++◌, some, none, Text, length, flat_map, keep, elem, arith, true,
  false,
}
use mit_6172_fa15_project.Str.{codes, count_char, split}
use mit_6172_fa15_project.Regex.Find.{find_at, search_from, group_of}
use mit_6172_fa15_project.Regex.{run, rounds}
use mit_6172_fa15_project.Classes.Patterns.{re_class_decl, re_bare_colon, re_virtual, re_destructor}
use mit_6172_fa15_project.Classes.{
  ClassInfo, find_last_line, base_classname, note_virtual, leave, inside, look_for_brace, track_top,
  track_classes,
}
use mit_6172_fa15_project.Classes.Depth.{IsNested, track_lines, track_lines-IsNested}
use mit_6172_fa15_project.Classes.Virtual.{
  IsBody, IsEnd, depth_after, last_virtual, has_destructor, explicit_events, due, track_lines-due,
}

abbrev heap_class : ClassInfo
heap_class = record {
  name = codes "Heap";
  linenum = 3;
  seen_open_brace = true;
  is_derived = false;
  virtual_method_linenumber = none;
  has_virtual_destructor = false;
  brace_depth = 1;
  last_line = 6;
}

abbrev body : List Text
body = codes " virtual f();" ∷ codes " g() {" ∷ codes " }" ∷ []

body_test : IsBody 1 body
unfolding codes find_at run re_class_decl flat_map rounds keep count_char
body_test = (refl, omega arith, (refl, omega arith, (refl, omega arith, tt)))

closing_test : IsEnd (depth_after 1 body) (codes "};")
unfolding codes find_at run re_class_decl flat_map rounds keep count_char
closing_test = (refl, omega arith)

track_lines-due_example : track_lines [] (body ++ codes "};" ∷ []) 4 (heap_class ∷ []) ≡ (
  [],
  explicit_events (codes "Heap") 4 (body ++ codes "};" ∷ [])
      ++ due heap_class
          (last_virtual 4 none (body ++ codes "};" ∷ []))
          (has_destructor (codes "Heap") false (body ++ codes "};" ∷ [])),
)
track_lines-due_example =
    track_lines-due [] body (codes "};") 4 heap_class [] refl body_test closing_test

last_test : last_virtual 4 none (body ++ codes "};" ∷ []) ≡ some 4
unfolding codes search_from find_at run re_virtual flat_map
last_test = refl

abbrev declared : List Text
declared = codes "class Heap {" ∷ codes " virtual f();" ∷ []

track_lines-IsNested_example : IsNested (length declared) (track_lines [] declared 0 []).0
track_lines-IsNested_example = track_lines-IsNested [] declared

declared_test :
    (track_lines [] declared 0 []).0
    ≡ record heap_class { linenum = 0; virtual_method_linenumber = some 1; last_line = 0 } ∷ []
unfolding codes track_lines track_classes track_top look_for_brace inside leave note_virtual
    base_classname search_from find_at run flat_map rounds keep elem count_char group_of
    re_class_decl re_bare_colon re_virtual re_destructor split find_last_line
declared_test = refl

-- ===== src/Tests/Patterns.antt =====
-- The pattern engine, the brackets and the module names (clint.py:373-387, 2476 and 2948) at
-- concrete inputs.
use mit_6172_fa15_project.Classes.Patterns.{escaped}
use mit_6172_fa15_project.Regex.Cache.{
  Engine, Call, match_call, search_call, run_calls, direct, at_start, IsSound, run_calls-direct,
}
use mit_6172_fa15_project.Base.{
  List, map, sym, ◌∙◌, ◌≡◌, ◌≢◌, ◌↔◌, refl, true, [], ◌∷◌, ◌++◌, Text, some, none, In, here,
  flat_map,
}
use mit_6172_fa15_project.Str.{codes, replace, words, ends_with, decimal}
use mit_6172_fa15_project.Regex.{Regex, Cursor, cursor_at, run}
use mit_6172_fa15_project.Regex.Find.{
  match, Hit, Leftmost, Onward, NoMatchAt, search, find_at, search_from, search-Leftmost,
  search-none,
}
use mit_6172_fa15_project.Regex.Matches.{Matches, run-Matches, Matches-run}
use mit_6172_fa15_project.Regex.Notation.{is, lit, ◌▸◌}
use mit_6172_fa15_project.Regex.Sub.{sub, sub-none}
use mit_6172_fa15_project.Brackets.{
  get_text_inside, next_stack, matching_punctuation, found, nothing,
}
use mit_6172_fa15_project.Brackets.Nesting.{
  IsInside, get_text_inside-IsInside, get_text_inside_complete,
}
use mit_6172_fa15_project.Includes.SameModule.{
  files_belong_to_same_module, module_of_h, module_of_cc,
}
use mit_6172_fa15_project.Includes.SameModule.Prefix.{Suffixes, same_module_iff}

words_test : words (codes " ab c ") ≡ codes "ab" ∷ codes "c" ∷ []
unfolding codes words
words_test = refl

decimal_test : decimal 203 ≡ codes "203"
unfolding codes decimal
decimal_test = refl

abbrev ab : Regex
ab = is b'a' ▸ is b'b'

abbrev after_ab : Cursor
after_ab = record { before = codes "ba"; rest = codes "c"; groups = [] }

run_test : run ab (cursor_at [] (codes "abc")) ≡ after_ab ∷ []
unfolding codes run is flat_map
run_test = refl

run-Matches_test : Matches ab (cursor_at [] (codes "abc")) after_ab
unfolding codes run is flat_map
run-Matches_test = run-Matches ab (cursor_at [] (codes "abc")) after_ab (here refl)

Matches-run_test : In after_ab (run ab (cursor_at [] (codes "abc")))
Matches-run_test = Matches-run ab (cursor_at [] (codes "abc")) after_ab run-Matches_test

abbrev ab_hit : Hit
ab_hit = record {
  start = cursor_at (codes "x") (codes "abc");
  finish = record { before = codes "bax"; rest = codes "c"; groups = [] };
}

search_test : search ab (codes "xabc") ≡ some ab_hit
unfolding codes search_from find_at run flat_map is
search_test = refl

search-Leftmost_test : Leftmost ab [] (codes "xabc") ab_hit
search-Leftmost_test = search-Leftmost ab (codes "xabc") ab_hit search_test

search-none_test :
    (search ab (codes "ba") ≡ none)
    ↔ ((b' s' : Text) → Onward [] (codes "ba") b' s' → NoMatchAt ab b' s')
search-none_test = search-none ab (codes "ba")

sub_test : sub ab (codes "z") (codes "xabyab") ≡ codes "xzyz"
unfolding codes sub find_at run flat_map is
sub_test = refl

absent_test : search ab (codes "ba") ≡ none
unfolding codes search_from find_at run flat_map is
absent_test = refl

sub-none_test : sub ab (codes "z") (codes "ba") ≡ codes "ba"
sub-none_test = sub-none ab (codes "z") (codes "ba") absent_test

abbrev printf : Regex
printf = lit "printf("

get_text_inside_test : get_text_inside (codes "printf(a(b), c);") printf ≡ found (codes "a(b), c")
unfolding codes get_text_inside search_from find_at run lit flat_map matching_punctuation next_stack
get_text_inside_test = refl

misnested_test : get_text_inside (codes "printf(a[b), c];") printf ≡ nothing
unfolding codes get_text_inside search_from find_at run lit flat_map matching_punctuation next_stack
misnested_test = refl

get_text_inside-IsInside_example : IsInside (codes "printf(a(b), c);") printf (codes "a(b), c")
get_text_inside-IsInside_example =
    get_text_inside-IsInside (codes "printf(a(b), c);") printf (codes "a(b), c")
      get_text_inside_test

get_text_inside_complete_example :
    get_text_inside (codes "printf(a(b), c);") printf ≡ found (codes "a(b), c")
get_text_inside_complete_example =
    get_text_inside_complete (codes "printf(a(b), c);") printf (codes "a(b), c")
      get_text_inside-IsInside_example

abbrev cc_file : Text
cc_file = codes "/a/b/heap_test.c"

abbrev h_file : Text
h_file = codes "b/heap-inl.h"

same_module_test : files_belong_to_same_module cc_file h_file ≡ (true, codes "/a/")
unfolding codes files_belong_to_same_module ends_with module_of_h replace module_of_cc
same_module_test = refl

module_test : module_of_h h_file ≡ codes "b/heap"
unfolding codes module_of_h replace ends_with
module_test = refl

module_of_h_test : module_of_h h_file ≢ []
unfolding codes
module_of_h_test h = let e : codes "b/heap" ≡ [] = sym module_test ∙ h in cc

same_module_iff_example :
    (files_belong_to_same_module cc_file h_file ≡ (true, codes "/a/"))
    ↔ (Suffixes cc_file h_file × (codes "/a/" ++ module_of_h h_file ≡ module_of_cc cc_file))
same_module_iff_example = same_module_iff cc_file h_file (codes "/a/") module_of_h_test

abbrev engine : Engine Regex Hit
engine = record { compile = escaped; match_start = match; search_all = search }

-- A pattern that is searched, matched and searched again, and another one.
abbrev calls : List Call
calls =
    search_call (codes "ab") (codes "xab")
    ∷ match_call (codes "ab") (codes "xab")
    ∷ match_call (codes "x") (codes "xab")
    ∷ search_call (codes "ab") (codes "ba")
    ∷ []

run_calls-direct_example :
    ((run_calls engine calls (at_start engine)).1 ≡ map (direct engine) calls)
    × IsSound engine (run_calls engine calls (at_start engine)).0
run_calls-direct_example = run_calls-direct engine calls

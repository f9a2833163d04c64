-- ===== src/Tests/Functions.antt =====
-- The sizes of functions, the order of includes and the checks of one line (clint.py:390-512,
-- 641-694, 1181-1288, 1598-1698, 1999 and 3128) at concrete inputs.
use mit_6172_fa15_project.Base.{
  ℕ, ◌≡◌, ◌↔◌, ◌⊎◌, refl, true, false, List, [], ◌∷◌, ◌++◌, Text, some, length, arith, ◌+◌, ◌<◌,
  ◌≤◌, ◌*◌, ◌^◌, flat_map, keep, All,
}
use mit_6172_fa15_project.Str.{codes, words, is_space, text_eq, find?, is_alnum}
use mit_6172_fa15_project.Regex.{run, rounds, lazy_rounds}
use mit_6172_fa15_project.Regex.Find.{matches, find_at}
use mit_6172_fa15_project.Lint.{error}
use mit_6172_fa15_project.Includes.Order.{
  HeaderType, number, c_sys_header, cpp_sys_header, likely_my_header, other_header,
  initial_include_state, check_next_include_order, check_next_include_order_monotone,
}
use mit_6172_fa15_project.Includes.Order.Phases.Documented.{
  Documented, NoneBehindOther, Documented-accepts,
}
use mit_6172_fa15_project.Includes.Order.Phases.{accepts, InOrder, accepts_iff}
use mit_6172_fa15_project.FunctionSize.{
  FunctionState, initial_function_state, begin, finish, check, base_trigger, size_message,
  starting_func, re_function_end, check_for_function_lengths,
}
use mit_6172_fa15_project.FunctionSize.Level.{IsLevel, check_reports, check_silent}
use mit_6172_fa15_project.FunctionSize.Body.{
  IsOrdinary, non_blank, check_lines, counted, check_lines-body,
}
use mit_6172_fa15_project.LineChecks.{
  re_invalid_increment, re_todo, check_posix_threading, check_invalid_increment, check_comment,
  is_blank_line, get_previous_non_blank_line, threading_list, check_calls, is_unsafe_call,
}
use mit_6172_fa15_project.LineChecks.Blank.{IsPrevious, get_previous_non_blank_line-IsPrevious}

starting_func_test : starting_func (codes "int main(int argc, char* argv[]) {") ≡ true
unfolding codes starting_func find_at run flat_map rounds keep text_eq words
starting_func_test = refl

abbrev long_function : FunctionState
long_function = record {
  in_a_function = true;
  lines_in_function = 1001;
  current_function = codes "main()";
}

long_test : base_trigger long_function.current_function * 2 ^ 1 < long_function.lines_in_function
unfolding codes base_trigger find_at run flat_map
long_test = omega arith

check_reports_example :
    (level : ℕ) × (check 1 long_function 9
      ≡ error 9
          (codes "readability/fn_size")
          level
          (size_message long_function (base_trigger long_function.current_function * 2 ^ 1))
        ∷ [])
    × IsLevel long_function level
    × ((5 < 1) ⊎ (1 ≤ level))
check_reports_example = check_reports 1 long_function 9 long_test

abbrev short_function : FunctionState
short_function = record long_function { lines_in_function = 10 }

short_test : short_function.lines_in_function ≤ base_trigger short_function.current_function * 2 ^ 1
unfolding codes base_trigger find_at run flat_map
short_test = omega arith

check_silent_test : check 1 short_function 9 ≡ []
check_silent_test = check_silent 1 short_function 9 short_test

abbrev head_line : List Text
head_line = codes "int f() {" ∷ []

abbrev body_lines : List Text
body_lines = codes "  int a;" ∷ codes "" ∷ []

abbrev end_line : Text
end_line = codes "}"

abbrev in_f : FunctionState
in_f = begin (codes "f()") initial_function_state

body_test : All IsOrdinary body_lines
unfolding codes starting_func find_at run flat_map re_function_end
body_test = (
  record { starts_none = refl; ends_none = refl },
  (record { starts_none = refl; ends_none = refl }, _),
)

end_starts_none_test : starting_func end_line ≡ false
unfolding codes starting_func find_at run flat_map
end_starts_none_test = refl

closing_test : matches re_function_end end_line ≡ true
unfolding codes find_at run re_function_end flat_map rounds
closing_test = refl

check_lines-body_example :
    (check_lines 1
        (head_line ++ (body_lines ++ end_line ∷ []))
        (length body_lines)
        (length head_line)
        in_f
      ≡ some (counted (non_blank body_lines) in_f, []))
    × (check_for_function_lengths 1
          (head_line ++ (body_lines ++ end_line ∷ []))
          (length head_line + length body_lines)
          (counted (non_blank body_lines) in_f)
        ≡ some (
          finish (counted (non_blank body_lines) in_f),
          check 1 (counted (non_blank body_lines) in_f) (length head_line + length body_lines),
        ))
check_lines-body_example =
    check_lines-body 1 head_line body_lines [] end_line in_f refl body_test end_starts_none_test
      closing_test

abbrev headers : List HeaderType
headers = likely_my_header ∷ c_sys_header ∷ cpp_sys_header ∷ other_header ∷ []

accepts_test : accepts headers initial_include_state ≡ true
unfolding accepts check_next_include_order
accepts_test = refl

accepts_iff_example : (accepts headers initial_include_state ≡ true) ↔ InOrder headers
accepts_iff_example = accepts_iff headers

Documented-accepts_example :
    Documented headers ↔ ((accepts headers initial_include_state ≡ true) × NoneBehindOther headers)
Documented-accepts_example = Documented-accepts headers

-- The file's own header behind an other header gets no message.
own_behind_other_test : accepts (other_header ∷ likely_my_header ∷ []) initial_include_state ≡ true
unfolding accepts check_next_include_order
own_behind_other_test = refl

check_next_include_order_monotone_test :
    (number initial_include_state.section
      ≤ number (check_next_include_order cpp_sys_header initial_include_state).0.section)
    × (((check_next_include_order cpp_sys_header initial_include_state).0.last_header ≡ [])
        ⊎ ((check_next_include_order cpp_sys_header initial_include_state).0
            ≡ initial_include_state))
check_next_include_order_monotone_test =
    check_next_include_order_monotone cpp_sys_header initial_include_state

abbrev spaced : List Text
spaced = codes "a" ∷ codes "  " ∷ codes "" ∷ codes "b" ∷ []

previous_test : get_previous_non_blank_line spaced 3 ≡ some (codes "a", 0)
unfolding codes get_previous_non_blank_line is_blank_line is_space
previous_test = refl

IsPrevious-test : IsPrevious spaced 3 (codes "a") 0
IsPrevious-test = get_previous_non_blank_line-IsPrevious spaced 3 (codes "a") 0 previous_test

increment_test :
    check_invalid_increment (codes "  *count++;") 4
    ≡ error 4
        (codes "runtime/invalid_increment")
        5
        (codes "Changing pointer instead of value (or unused value of operator*).")
      ∷ []
unfolding codes check_invalid_increment find_at run re_invalid_increment flat_map rounds keep
increment_test = refl

threading_test : length (check_posix_threading (codes "  x = rand();") 4) ≡ 1
unfolding codes check_calls threading_list is_unsafe_call find? is_alnum
threading_test = refl

no_threading_test : check_posix_threading (codes "  x = drand(); y = p->rand();") 4 ≡ []
unfolding codes check_calls threading_list is_unsafe_call find? is_alnum
no_threading_test = refl

todo_test : check_comment (codes "// TODO(me): more") 4 ≡ []
unfolding codes check_comment find_at run re_todo flat_map rounds keep lazy_rounds text_eq
todo_test = refl

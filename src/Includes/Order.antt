-- ===== src/Includes/Order.antt =====
-- `_IncludeState` (clint.py:390): which headers a file includes, and in which order.
pub mod Phases
use mit_6172_fa15_project.Base.{
  ℕ, Bool, true, false, List, [], ◌∷◌, ◌++◌, Option, none, some, Text, if◌then◌else◌, leb, ◌==◌,
  ◌≡◌, ◌≤◌, arith, String, ◌⊎◌,
}
use mit_6172_fa15_project.Str.{codes, replace, lower, text_gt}

-- _C_SYS_HEADER, _CPP_SYS_HEADER, _LIKELY_MY_HEADER, _POSSIBLE_MY_HEADER and _OTHER_HEADER
pub data HeaderType : Type 0 where
  c_sys_header cpp_sys_header likely_my_header possible_my_header other_header : HeaderType

-- The sections, in the order of their numbers.
pub data Section : Type 0 where
  initial_section my_h_section c_section cpp_section other_h_section : Section

abbrev pub number : Section → ℕ
number initial_section = 0
number my_h_section = 1
number c_section = 2
number cpp_section = 3
number other_h_section = 4

-- _TYPE_NAMES
unfoldable pub type_name : HeaderType → Text
unfolding codes
type_name c_sys_header = codes "C system header"
type_name cpp_sys_header = codes "C++ system header"
type_name likely_my_header = codes "header this file implements"
type_name possible_my_header = codes "header this file may implement"
type_name other_header = codes "other header"

-- _SECTION_NAMES
unfoldable pub section_name : Section → Text
unfolding codes
section_name initial_section = codes "... nothing. (This can't be an error.)"
section_name my_h_section = codes "a header this file implements"
section_name c_section = codes "C system header"
section_name cpp_section = codes "C++ system header"
section_name other_h_section = codes "other header"

-- The dict's values are kept as the text that a message shows: a line number, or `file:line`.
pub record IncludeState : Type 0 where
  pub included : List (Text × Text)
  pub section : Section
  pub last_header : Text

abbrev pub initial_include_state : IncludeState
initial_include_state = record { included = []; section = initial_section; last_header = [] }

-- CanonicalizeAlphabeticalOrder
unfoldable pub canonicalize_alphabetical_order : Text → Text
unfolding codes
canonicalize_alphabetical_order header_path =
    lower (replace (codes "-") (codes "_") (replace (codes "-inl.h") (codes ".h") header_path))

-- IsInAlphabeticalOrder
unfoldable pub is_in_alphabetical_order : Text → IncludeState → IncludeState × Bool
is_in_alphabetical_order header_path s =
    let canonical_header = canonicalize_alphabetical_order header_path in
    if text_gt s.last_header canonical_header
    then (s, false)
    else (record s { last_header = canonical_header }, true)

abbrev found_after : HeaderType → Section → Text
found_after t s = codes "Found " ++ type_name t ++ codes " after " ++ section_name s

-- The section is set, and a change of section forgets the last header.
move_to : Section → IncludeState → IncludeState × Option Text
move_to new s = (
  record s {
    section = new;
    last_header = if number new == number s.section then s.last_header else [];
  },
  none,
)

out_of_order : HeaderType → IncludeState → IncludeState × Option Text
out_of_order t s = (record s { last_header = [] }, some (found_after t s.section))

-- CheckNextIncludeOrder: the new state and the message; `none` is the empty string.
unfoldable pub check_next_include_order : HeaderType → IncludeState → IncludeState × Option Text
unfolding move_to out_of_order
check_next_include_order c_sys_header s =
    if leb (number s.section) (number c_section)
    then move_to c_section s
    else out_of_order c_sys_header s
check_next_include_order cpp_sys_header s =
    if leb (number s.section) (number cpp_section)
    then move_to cpp_section s
    else out_of_order cpp_sys_header s
check_next_include_order likely_my_header s =
    if leb (number s.section) (number my_h_section)
    then move_to my_h_section s
    else move_to other_h_section s
check_next_include_order possible_my_header s =
    if leb (number s.section) (number my_h_section)
    then move_to my_h_section s
    else move_to other_h_section s
check_next_include_order other_header s = move_to other_h_section s

-- The section never moves backwards, and the last header outlives a call only within a section.
pub check_next_include_order_monotone :
    (t : HeaderType) (s : IncludeState)
    → (number s.section ≤ number (check_next_include_order t s).0.section)
      × (((check_next_include_order t s).0.last_header ≡ [])
          ⊎ ((check_next_include_order t s).0 ≡ s))
unfolding check_next_include_order
check_next_include_order_monotone t s = ground arith

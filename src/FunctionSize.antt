-- ===== src/FunctionSize.antt =====
-- Function lengths: `_FunctionState` (clint.py:641) and `CheckForFunctionLengths` (clint.py:1598).
pub mod Level
pub mod Body
use mit_6172_fa15_project.Base.{
  ℕ, zero, suc, ◌+◌, ◌*◌, ◌/◌, ◌^◌, Bool, true, false, not, ◌||◌, List, [], ◌∷◌, ◌++◌, Option, none,
  some, Text, if◌then◌else◌, ltb, get_elem?, drop,
}
use mit_6172_fa15_project.Str.{codes, decimal, words, text_eq, lstrip}
use mit_6172_fa15_project.Regex.{Regex, star, char, group}
use mit_6172_fa15_project.Regex.Find.{Hit, match, matches, search, searches, group_of}
use mit_6172_fa15_project.Regex.Notation.{
  lit, is, is_word, is_blank, is_any, is_capital, spaces, plus, eol, bol, ◌▸◌, ◌∣∣◌,
}
use mit_6172_fa15_project.Lint.{Event, error}

pub record FunctionState : Type 0 where
  pub in_a_function : Bool
  pub lines_in_function : ℕ
  pub current_function : Text

abbrev pub initial_function_state : FunctionState
initial_function_state = record {
  in_a_function = false;
  lines_in_function = 0;
  current_function = [];
}

-- Begin
abbrev pub begin : Text → FunctionState → FunctionState
begin function_name s = record {
  in_a_function = true;
  lines_in_function = 0;
  current_function = function_name;
}

-- Count
abbrev pub count : FunctionState → FunctionState
count s = if s.in_a_function then record s { lines_in_function = s.lines_in_function + 1 } else s

-- End
abbrev pub finish : FunctionState → FunctionState
finish s = record s { in_a_function = false }

-- T(EST|est)
unfoldable pub re_test : Regex
unfolding is lit
re_test = is b'T' ▸ (lit "EST" ∣∣ lit "est")

-- _TEST_TRIGGER or _NORMAL_TRIGGER
unfoldable pub base_trigger : Text → ℕ
unfolding re_test
base_trigger current_function = if matches re_test current_function then 400 else 250

-- int(math.log(n, 2)) for n ≥ 1: the rounds of halving until 1 is reached, of which n are enough
unfoldable pub halvings : ℕ → ℕ → ℕ
halvings zero n = 0
halvings (suc f) n = let rest = halvings f (n / 2) in if ltb n 2 then 0 else suc rest

abbrev pub at_most_five : ℕ → ℕ
at_most_five n = if ltb 5 n then 5 else n

unfoldable pub error_level : ℕ → ℕ → ℕ
unfolding halvings
error_level lines base = at_most_five (halvings (lines / base) (lines / base))

unfoldable pub size_message : FunctionState → ℕ → Text
size_message s trigger =
    codes "Small and focused functions are preferred: "
    ++ s.current_function
    ++ codes " has "
    ++ decimal s.lines_in_function
    ++ codes " non-comment lines (error triggered by exceeding "
    ++ decimal trigger
    ++ codes " lines)."

-- Check, at the verbosity of the run
unfoldable pub check : ℕ → FunctionState → ℕ → List Event
check verbosity s linenum =
    let base = base_trigger s.current_function in
    let trigger = base * 2 ^ verbosity in
    if ltb trigger s.lines_in_function
    then error linenum (codes "readability/fn_size") (error_level s.lines_in_function base)
        (size_message s trigger)
      ∷ []
    else []

-- (\w(\w|::|\*|\&|\s)*)\(
unfoldable pub re_declaration : Regex
unfolding is lit is_word is_blank
re_declaration =
    group 1 (
      char is_word
      ▸ star (group 2 (char is_word ∣∣ lit "::" ∣∣ is b'*' ∣∣ is b'&' ∣∣ char is_blank)))
    ▸ is b'('

-- [A-Z_]+$
unfoldable pub re_all_caps : Regex
unfolding plus eol is_capital is
re_all_caps = plus (char is_capital ∣∣ is b'_') ▸ eol

-- ((\w|:)*)\(
unfoldable pub re_name : Regex
unfolding is is_word
re_name = group 1 (star (group 2 (char is_word ∣∣ is b':'))) ▸ is b'('

-- (\(.*\))
unfoldable pub re_parameters : Regex
unfolding is is_any
re_parameters = group 1 (is b'(' ▸ star (char is_any) ▸ is b')')

-- ^\}\s*$
unfoldable pub re_function_end : Regex
unfolding bol is spaces eol
re_function_end = bol ▸ is b'}' ▸ spaces ▸ eol

-- ^\s*$
unfoldable pub re_blank : Regex
unfolding bol spaces eol
re_blank = bol ▸ spaces ▸ eol

-- (;|}) and {
unfoldable pub re_no_body : Regex
unfolding is
re_no_body = group 1 (is b';' ∣∣ is b'}')

unfoldable pub re_body : Regex
unfolding is
re_body = is b'{'

abbrev last : List Text → Text
last [] = []
last (x ∷ []) = x
last (x ∷ xs) = last xs

abbrev text_of : Option Text → Text
text_of none = []
text_of (some t) = t

abbrev group_text : ℕ → Option Hit → Text
group_text i none = []
group_text i (some h) = text_of (group_of h i)

-- Whether the name is that of a function, and of no macro but TEST and TEST_F.
abbrev is_function_name : Text → Bool
is_function_name name =
    text_eq name (codes "TEST") || text_eq name (codes "TEST_F") || not (matches re_all_caps name)

unfoldable pub starting_func : Text → Bool
unfolding re_declaration re_all_caps group_of
starting_func line = elim (match re_declaration line) [
  | none ↦ false
  | some m ↦ is_function_name (last (words (text_of (group_of m 1))))
]

-- What the loop over the lines from the declaration on comes to.
pub data BodySearch : Type 0 where
  no_body_found : BodySearch
  declaration : BodySearch
  body : Text → BodySearch

unfoldable pub find_body : Text → List Text → BodySearch
unfolding re_no_body re_body
find_body joined_line [] = no_body_found
find_body joined_line (start_line ∷ lines) =
    let joined' = joined_line ++ b' ' ∷ lstrip start_line in
    let rest = find_body joined' lines in
    if searches re_no_body start_line
    then declaration
    else if searches re_body start_line
    then body joined'
    else rest

-- The name under which the body is tracked. The search finds a bracket, as the declaration has one.
unfoldable pub function_label : Text → Text → Text
unfolding re_name re_parameters lit group_of
function_label line joined_line =
    let function = group_text 1 (search re_name line) in
    if matches (lit "TEST") function
    then function ++ group_text 1 (search re_parameters joined_line)
    else function ++ codes "()"

abbrev begin_body : Text → ℕ → FunctionState → BodySearch → FunctionState × List Event
begin_body line linenum s no_body_found = (
  s,
  error linenum (codes "readability/fn_size") 5
        (codes "Lint failed to find start of function body.")
      ∷ [],
)
begin_body line linenum s declaration = (s, [])
begin_body line linenum s (body joined_line) = (begin (function_label line joined_line) s, [])

-- The function for the line at `linenum`, `rest` being the lines from there on.
abbrev check_line : ℕ → Text → List Text → ℕ → FunctionState → FunctionState × List Event
check_line verbosity line rest linenum s =
    if starting_func line
    then begin_body line linenum s (find_body [] rest)
    else if matches re_function_end line
    then (finish s, check verbosity s linenum)
    else if not (matches re_blank line)
    then (count s, [])
    else (s, [])

-- CheckForFunctionLengths; `none` is an index out of range
unfoldable pub check_for_function_lengths :
    ℕ → List Text → ℕ → FunctionState → Option (FunctionState × List Event)
unfolding check
check_for_function_lengths verbosity lines linenum s = elim (get_elem? lines linenum) [
  | none ↦ none
  | some line ↦ some (check_line verbosity line (drop linenum lines) linenum s)
]

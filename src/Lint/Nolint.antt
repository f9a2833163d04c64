-- ===== src/Lint/Nolint.antt =====
-- The NOLINT comments (clint.py:298-371).
pub mod Suppression
use mit_6172_fa15_project.Base.{
  ℕ, ◌-◌, Bool, ◌||◌, ◌&&◌, List, [], ◌∷◌, ◌++◌, Option, none, some, Text, take, drop, length,
  if◌then◌else◌, elem,
}
use mit_6172_fa15_project.Str.{codes, is_in, starts_with, ends_with, text_eq}
use mit_6172_fa15_project.Str.Laws.{key_eq}
use mit_6172_fa15_project.Regex.{Regex, star, group}
use mit_6172_fa15_project.Regex.Find.{Hit, search, group_of}
use mit_6172_fa15_project.Regex.Notation.{boundary, lit, is, none_of, opt, ◌▸◌}
use mit_6172_fa15_project.Lint.{Event, suppress, error, Suppressions}

-- \bNOLINT\b(\([^)]*\))?
unfoldable pub re_suppression : Regex
unfolding boundary lit is none_of opt
re_suppression =
    boundary
    ▸ lit "NOLINT"
    ▸ boundary
    ▸ opt (group 1 (is b'(' ▸ star (none_of (b')' ∷ [])) ▸ is b')'))

unfoldable pub error_categories : List Text
unfolding codes
error_categories =
    codes "build/class"
    ∷ codes "build/deprecated"
    ∷ codes "build/endif_comment"
    ∷ codes "build/explicit_make_pair"
    ∷ codes "build/forward_decl"
    ∷ codes "build/header_guard"
    ∷ codes "build/include"
    ∷ codes "build/include_alpha"
    ∷ codes "build/include_order"
    ∷ codes "build/include_what_you_use"
    ∷ codes "build/namespaces"
    ∷ codes "build/printf_format"
    ∷ codes "build/storage_class"
    ∷ codes "legal/copyright"
    ∷ codes "readability/braces"
    ∷ codes "readability/casting"
    ∷ codes "readability/check"
    ∷ codes "readability/constructors"
    ∷ codes "readability/fn_size"
    ∷ codes "readability/function"
    ∷ codes "readability/multiline_comment"
    ∷ codes "readability/multiline_string"
    ∷ codes "readability/nolint"
    ∷ codes "readability/streams"
    ∷ codes "readability/todo"
    ∷ codes "readability/utf8"
    ∷ codes "runtime/arrays"
    ∷ codes "runtime/casting"
    ∷ codes "runtime/explicit"
    ∷ codes "runtime/int"
    ∷ codes "runtime/init"
    ∷ codes "runtime/invalid_increment"
    ∷ codes "runtime/member_string_references"
    ∷ codes "runtime/memset"
    ∷ codes "runtime/operator"
    ∷ codes "runtime/printf"
    ∷ codes "runtime/printf_format"
    ∷ codes "runtime/references"
    ∷ codes "runtime/rtti"
    ∷ codes "runtime/sizeof"
    ∷ codes "runtime/string"
    ∷ codes "runtime/threadsafe_fn"
    ∷ codes "runtime/virtual"
    ∷ codes "whitespace/blank_line"
    ∷ codes "whitespace/braces"
    ∷ codes "whitespace/comma"
    ∷ codes "whitespace/comments"
    ∷ codes "whitespace/end_of_line"
    ∷ codes "whitespace/ending_newline"
    ∷ codes "whitespace/indent"
    ∷ codes "whitespace/labels"
    ∷ codes "whitespace/line_length"
    ∷ codes "whitespace/newline"
    ∷ codes "whitespace/operators"
    ∷ codes "whitespace/parens"
    ∷ codes "whitespace/semicolon"
    ∷ codes "whitespace/tab"
    ∷ codes "whitespace/todo"
    ∷ []

-- category[1:-1]
abbrev inner : Text → Text
inner category = drop 1 (take (length category - 1) category)

-- What the comment says, by the first group of the match.
parse_category : ℕ → Option Text → List Event
parse_category linenum none = suppress none linenum ∷ []
parse_category linenum (some category) =
    if text_eq category (codes "(*)")
    then suppress none linenum ∷ []
    else if starts_with category (codes "(") && ends_with category (codes ")")
    then (if is_in (inner category) error_categories
        then suppress (some (inner category)) linenum ∷ []
        else error linenum (codes "readability/nolint") 5
            (codes "Unknown NOLINT error category: " ++ inner category)
          ∷ [])
    else []

parse_match : ℕ → Option Hit → List Event
parse_match linenum none = []
parse_match linenum (some matched) = parse_category linenum (group_of matched 1)

-- ParseNolintSuppressions
unfoldable pub parse_nolint_suppressions : Text → ℕ → List Event
unfolding parse_match parse_category group_of
parse_nolint_suppressions raw_line linenum = parse_match linenum (search re_suppression raw_line)

-- s.add(n)
abbrev add_line : ℕ → List ℕ → List ℕ
add_line n s = if elem n s then s else n ∷ s

unfoldable pub add_suppression : Option Text → ℕ → Suppressions → Suppressions
unfolding key_eq
add_suppression k n [] = (k, n ∷ []) ∷ []
add_suppression k n ((j, s) ∷ m) =
    if key_eq j k then (j, add_line n s) ∷ m else (j, s) ∷ add_suppression k n m

-- _error_suppressions.get(k, set())
unfoldable pub suppressed_lines : Option Text → Suppressions → List ℕ
unfolding key_eq
suppressed_lines k [] = []
suppressed_lines k ((j, s) ∷ m) = if key_eq j k then s else suppressed_lines k m

-- IsErrorSuppressedByNolint
unfoldable pub is_error_suppressed_by_nolint : Suppressions → Text → ℕ → Bool
unfolding suppressed_lines
is_error_suppressed_by_nolint m category linenum =
    elem linenum (suppressed_lines (some category) m) || elem linenum (suppressed_lines none m)

-- ResetNolintSuppressions
abbrev pub reset_nolint_suppressions : Suppressions → Suppressions
reset_nolint_suppressions m = []

-- ===== src/Includes/Used.antt =====
-- `CheckForIncludeWhatYouUse` (clint.py:3032) and `UpdateIncludeState` (clint.py:3003). The files
-- that are opened, as lines or an IOError, and os.path.abspath are parameters.
pub mod Missing
use mit_6172_fa15_project.Base.{
  ℕ, ◌+◌, Bool, true, false, not, ◌&&◌, ◌||◌, List, [], ◌∷◌, ◌++◌, Option, none, some, Text, String,
  if◌then◌else◌, reverse, map, elem, is_some,
}
use mit_6172_fa15_project.Str.{codes, decimal, ends_with, starts_with, text_eq, replace}
use mit_6172_fa15_project.Dict.{Dict, get, put, has}
use mit_6172_fa15_project.Regex.{Regex, char, lazy, group}
use mit_6172_fa15_project.Regex.Find.{Hit, search, searches, group_of}
use mit_6172_fa15_project.Regex.Sub.{sub}
use mit_6172_fa15_project.Regex.Notation.{
  spaces, is, lit, none_of, opt, eol, boundary, is_any, ◌▸◌, ◌∣∣◌,
}
use mit_6172_fa15_project.Lint.{Event, error}
use mit_6172_fa15_project.Cleanse.{cleanse_comments}
use mit_6172_fa15_project.Includes.Line.{include_of}
use mit_6172_fa15_project.Includes.SameModule.{files_belong_to_same_module}

-- _HEADERS_CONTAINING_TEMPLATES
unfoldable pub headers_containing_templates : List (String × List String)
headers_containing_templates =
    ("<deque>", "deque" ∷ [])
    ∷ (
      "<functional>",
      "unary_function" ∷ "binary_function" ∷ "plus" ∷ "minus" ∷ "multiplies" ∷ "divides" ∷ "modulus"
          ∷ "negate" ∷ "equal_to" ∷ "not_equal_to" ∷ "greater" ∷ "less" ∷ "greater_equal"
          ∷ "less_equal" ∷ "logical_and" ∷ "logical_or" ∷ "logical_not" ∷ "unary_negate" ∷ "not1"
          ∷ "binary_negate" ∷ "not2" ∷ "bind1st" ∷ "bind2nd" ∷ "pointer_to_unary_function"
          ∷ "pointer_to_binary_function" ∷ "ptr_fun" ∷ "mem_fun_t" ∷ "mem_fun" ∷ "mem_fun1_t"
          ∷ "mem_fun1_ref_t" ∷ "mem_fun_ref_t" ∷ "const_mem_fun_t" ∷ "const_mem_fun1_t"
          ∷ "const_mem_fun_ref_t" ∷ "const_mem_fun1_ref_t" ∷ "mem_fun_ref" ∷ [],
    )
    ∷ ("<limits>", "numeric_limits" ∷ [])
    ∷ ("<list>", "list" ∷ [])
    ∷ ("<map>", "map" ∷ "multimap" ∷ [])
    ∷ ("<memory>", "allocator" ∷ [])
    ∷ ("<queue>", "queue" ∷ "priority_queue" ∷ [])
    ∷ ("<set>", "set" ∷ "multiset" ∷ [])
    ∷ ("<stack>", "stack" ∷ [])
    ∷ ("<string>", "char_traits" ∷ "basic_string" ∷ [])
    ∷ ("<utility>", "pair" ∷ [])
    ∷ ("<vector>", "vector" ∷ [])
    ∷ ("<hash_map>", "hash_map" ∷ "hash_multimap" ∷ [])
    ∷ ("<hash_set>", "hash_set" ∷ "hash_multiset" ∷ [])
    ∷ ("<slist>", "slist" ∷ [])
    ∷ []

-- \bstring\b
unfoldable pub re_string : Regex
unfolding boundary lit
re_string = boundary ▸ lit "string" ▸ boundary

-- A pattern, the entity that it stands for, and its header.
pub record Need : Type 0 where
  pub pattern : Regex
  pub template : Text
  pub header : Text

-- [^>.]\bNAME(<.*?>)?\([^\)]
unfoldable pub re_algorithm : String → Regex
unfolding none_of boundary lit opt is is_any
re_algorithm template =
    none_of (b'>' ∷ b'.' ∷ [])
    ▸ boundary
    ▸ lit template
    ▸ opt (group 1 (is b'<' ▸ lazy (char is_any) ▸ is b'>'))
    ▸ is b'('
    ▸ none_of (b')' ∷ [])

-- _re_pattern_algorithm_header
unfoldable pub algorithm_needs : List Need
unfolding re_algorithm codes
algorithm_needs =
    map
      (λ template. record {
        pattern = re_algorithm template;
        template = codes template;
        header = codes "<algorithm>";
      })
      ("copy" ∷ "max" ∷ "min" ∷ "min_element" ∷ "sort" ∷ "swap" ∷ "transform" ∷ [])

-- (\<|\b)NAME\s*\<
unfoldable pub re_template : String → Regex
unfolding boundary lit is spaces
re_template template = group 1 (is b'<' ∣∣ boundary) ▸ lit template ▸ spaces ▸ is b'<'

needs_of : String → List String → List Need
needs_of header [] = []
needs_of header (template ∷ templates) =
    record {
      pattern = re_template template;
      template = codes template ++ codes "<>";
      header = codes header;
    }
    ∷ needs_of header templates

needs_in : List (String × List String) → List Need
needs_in [] = []
needs_in ((header, templates) ∷ rest) = needs_of header templates ++ needs_in rest

-- _re_pattern_templates
unfoldable pub template_needs : List Need
unfolding needs_in needs_of re_template headers_containing_templates codes
template_needs = needs_in headers_containing_templates

-- required: the line and the entity for which a header is needed
abbrev pub Required : Type 0
Required = Dict (ℕ × Text)

-- for pattern, template, header in …: if pattern.search(line): required[header] = …
unfoldable pub require_all : List Need → Text → ℕ → Required → Required
require_all [] line linenum required = required
require_all (need ∷ needs) line linenum required = require_all needs line linenum (
    if searches need.pattern line
    then put need.header (linenum, need.template) required
    else required)

-- Whether a match of `string` is not in a namespace other than std.
unfoldable pub is_std_string : Text → Bool
unfolding codes
is_std_string prefix = ends_with prefix (codes "std::") || not (ends_with prefix (codes "::"))

abbrev pub require_string : Option Hit → ℕ → Required → Required
require_string none linenum required = required
require_string (some m) linenum required =
    if is_std_string (reverse m.start.before)
    then put (codes "<string>") (linenum, codes "string") required
    else required

-- if not line or line[0] == '#'
abbrev pub is_skipped : Text → Bool
is_skipped [] = true
is_skipped (c ∷ line) = elem c (b'#' ∷ [])

-- One line of the first loop.
unfoldable pub require_line : Text → ℕ → Required → Required
unfolding require_all
require_line line linenum required =
    let required' =
      require_all algorithm_needs line linenum
        (require_string (search re_string line) linenum required) in
    if is_skipped line
    then required
    else if elem b'<' line
    then require_all template_needs line linenum required'
    else required'

unfoldable pub require_lines : List Text → ℕ → Required → Required
unfolding require_line
require_lines [] linenum required = required
require_lines (line ∷ lines) linenum required =
    require_lines lines (linenum + 1) (require_line line linenum required)

-- include_state.setdefault(include, value)
abbrev pub set_default : Text → Text → Dict Text → Dict Text
set_default include value included =
    if has include included then included else put include value included

abbrev pub included_by : Option (Text × Text) → Text → Dict Text → Dict Text
included_by none value included = included
included_by (some (bracket, include)) value included = set_default include value included

-- The loop of UpdateIncludeState; `linenum` is the number of the line before.
unfoldable pub read_header : Text → List Text → ℕ → Dict Text → Dict Text
read_header filename [] linenum included = included
read_header filename (line ∷ lines) linenum included = read_header filename lines (linenum + 1) (
    included_by (include_of (cleanse_comments line))
      (filename ++ codes ":" ++ decimal (linenum + 1)) included)

abbrev pub updated_by : Text → Option (List Text) → Dict Text → Dict Text × Bool
updated_by filename none included = (included, false)
updated_by filename (some lines) included = (read_header filename lines 0 included, true)

-- re.sub(r'_flymake\.c$', '.c', abs_filename)
unfoldable pub without_flymake : Text → Text
unfolding lit eol codes
without_flymake = sub (lit "_flymake.c" ▸ eol) (codes ".c")

-- header.strip('<>"') of a header in the tables, which stands in brackets
abbrev pub stripped : Text → Text
stripped header = replace (codes "<") [] (replace (codes ">") [] header)

module _ (open_file : Text → Option (List Text)) where
  -- UpdateIncludeState
  unfoldable pub update_include_state : Text → Dict Text → Dict Text × Bool
  unfolding read_header
  update_include_state filename included = updated_by filename (open_file filename) included

  -- One header of the second loop, with `header_found`.
  unfoldable pub look_into : Text → Text → Dict Text × Bool → Dict Text × Bool
  unfolding update_include_state
  look_into abs_filename header (included, header_found) =
      let (same_module, common_path) = files_belong_to_same_module abs_filename header in
      let (included', read) = update_include_state (common_path ++ header) included in
      if same_module then (included', read || header_found) else (included, header_found)

  unfoldable pub look_into_all : Text → List Text → Dict Text × Bool → Dict Text × Bool
  look_into_all abs_filename [] found = found
  look_into_all abs_filename (header ∷ headers) found =
      look_into_all abs_filename headers (look_into abs_filename header found)

  unfoldable pub missing : Required → Dict Text → List Event
  missing [] included = []
  missing ((header, (linenum, template)) ∷ required) included =
      if has (stripped header) included
      then missing required included
      else error linenum (codes "build/include_what_you_use") 4
          (codes "Add #include " ++ header ++ codes " for " ++ template)
        ∷ missing required included

  abbrev pub keys : Dict Text → List Text
  keys [] = []
  keys ((k, v) ∷ d) = k ∷ keys d

  -- CheckForIncludeWhatYouUse on the elided lines; `full_name` is that of `FileInfo(filename)`
  unfoldable pub check_for_include_what_you_use : Text → Text → List Text → Dict Text → List Event
  unfolding look_into_all missing require_lines codes
  check_for_include_what_you_use filename full_name elided included =
      let (included', header_found) =
        look_into_all (without_flymake full_name) (keys included) (included, false) in
      if ends_with filename (codes ".c") && not header_found
      then []
      else missing (require_lines elided 0 []) included'

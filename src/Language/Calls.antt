-- ===== src/Language/Calls.antt =====
-- `CheckLanguage` on calls of C functions (clint.py:2689-2707, 2732-2747), on the elided line.
use mit_6172_fa15_project.Base.{ℕ, not, ◌||◌, List, [], ◌∷◌, ◌++◌, Option, none, some, Text, elem}
use mit_6172_fa15_project.Str.{codes, text_eq}
use mit_6172_fa15_project.Regex.{Regex, char, star, group}
use mit_6172_fa15_project.Regex.Find.{Hit, match, search, matches, searches, group_of}
use mit_6172_fa15_project.Regex.Notation.{
  boundary, bol, eol, spaces, digits, is, lit, none_of, opt, plus, is_word, is_digit, is_hex,
  lit_any_case, ◌▸◌, ◌∣∣◌,
}
use mit_6172_fa15_project.Lint.{Event, error}
use mit_6172_fa15_project.Lint.Checked.{Checked, pass, event_if}
use mit_6172_fa15_project.Brackets.{Inside, found, nothing, failed, get_text_inside}
use mit_6172_fa15_project.Language.Types.{text_of}

-- snprintf\s*\(([^,]*),\s*([0-9]*)\s*,
unfoldable pub re_snprintf : Regex
unfolding lit spaces is none_of is_digit
re_snprintf =
    lit "snprintf"
    ▸ spaces
    ▸ is b'('
    ▸ group 1 (star (none_of (b',' ∷ [])))
    ▸ is b','
    ▸ spaces
    ▸ group 2 (star (char is_digit))
    ▸ spaces
    ▸ is b','

abbrev snprintf_events : Text → Text → ℕ → List Event
snprintf_events buffer size linenum = event_if (not (text_eq size (codes "0"))) (
    error linenum (codes "runtime/printf") 3 (
      codes "If you can, use sizeof("
      ++ buffer
      ++ codes ") instead of "
      ++ size
      ++ codes " as the 2nd arg to snprintf."))

-- A literal size, other than zero, of a call of snprintf.
unfoldable pub check_snprintf : Text → ℕ → List Event
unfolding codes group_of
check_snprintf line linenum = elim (search re_snprintf line) [
  | none ↦ []
  | some m ↦ snprintf_events (text_of (group_of m 1)) (text_of (group_of m 2)) linenum
]

-- \bsprintf\b and \bsscanf\b and \b(strcpy|strcat)\b
unfoldable pub re_sprintf : Regex
unfolding boundary lit
re_sprintf = boundary ▸ lit "sprintf" ▸ boundary

unfoldable pub re_sscanf : Regex
unfolding boundary lit
re_sscanf = boundary ▸ lit "sscanf" ▸ boundary

unfoldable pub re_string_copy : Regex
unfolding boundary lit
re_string_copy = boundary ▸ group 1 (lit "strcpy" ∣∣ lit "strcat") ▸ boundary

abbrev copy_events : Option Hit → ℕ → List Event
copy_events none linenum = []
copy_events (some m) linenum =
    error linenum (codes "runtime/printf") 4
      (codes "Almost always, snprintf is better than " ++ text_of (group_of m 1))
    ∷ []

-- The C functions that are not to be used.
unfoldable pub check_verboten : Text → ℕ → List Event
unfolding codes group_of
check_verboten line linenum =
    event_if (searches re_sprintf line)
      (error linenum (codes "runtime/printf") 5 (codes "Never use sprintf.  Use snprintf instead."))
    ++ (copy_events (search re_string_copy line) linenum
        ++ event_if (searches re_sscanf line) (
            error linenum (codes "runtime/printf") 1
              (codes "sscanf can be ok, but is slow and can overflow buffers.")))

-- (?i)\b(string)?printf\s*\(
unfoldable pub re_printf : Regex
unfolding boundary opt lit_any_case spaces is
re_printf =
    boundary ▸ opt (group 1 (lit_any_case "string")) ▸ lit_any_case "printf" ▸ spaces ▸ is b'('

-- \b((?:string)?printf)\s*\(, with re.I
unfoldable pub re_printf_name : Regex
unfolding boundary opt lit_any_case spaces is
re_printf_name =
    boundary ▸ group 1 (opt (lit_any_case "string") ▸ lit_any_case "printf") ▸ spaces ▸ is b'('

-- ([\w.\->()]+)$
unfoldable pub re_no_format : Regex
unfolding plus is_word eol codes
re_no_format = group 1 (plus (char (λ c. is_word c || elem c (codes ".->()")))) ▸ eol

abbrev format_error : Text → Text → ℕ → Event
format_error function_name argument linenum = error linenum (codes "runtime/printf") 4 (
    codes "Potential format string bug. Do "
    ++ function_name
    ++ codes "(\"%s\", "
    ++ argument
    ++ codes ") instead.")

-- `none` is the AttributeError where the second search finds nothing.
abbrev format_events : Option Hit → Option Hit → ℕ → Checked Unit
format_events none name linenum = pass [] tt
format_events (some m) none linenum = ([], none)
format_events (some m) (some name) linenum =
    pass (format_error (text_of (group_of name 1)) (text_of (group_of m 1)) linenum ∷ []) tt

abbrev printf_events : Text → Inside → ℕ → Checked Unit
printf_events line failed linenum = ([], none)
printf_events line nothing linenum = pass [] tt
printf_events line (found printf_args) linenum =
    format_events (match re_no_format printf_args) (search re_printf_name line) linenum

-- A printf with no format; the pattern matches no empty text. `none` is an exception.
unfoldable pub check_printf : Text → ℕ → Checked Unit
unfolding codes group_of
check_printf line linenum = printf_events line (get_text_inside line re_printf) linenum

-- memset\s*\(([^,]*),\s*([^,]*),\s*0\s*\)
unfoldable pub re_memset : Regex
unfolding lit spaces is none_of
re_memset =
    lit "memset"
    ▸ spaces
    ▸ is b'('
    ▸ group 1 (star (none_of (b',' ∷ [])))
    ▸ is b','
    ▸ spaces
    ▸ group 2 (star (none_of (b',' ∷ [])))
    ▸ is b','
    ▸ spaces
    ▸ is b'0'
    ▸ spaces
    ▸ is b')'

-- ^''|-?[0-9]+|0x[0-9A-Fa-f]$
unfoldable pub re_fill : Regex
unfolding bol lit opt is plus is_digit is_hex eol
re_fill = (bol ▸ lit "''") ∣∣ (opt (is b'-') ▸ digits) ∣∣ (lit "0x" ▸ char is_hex ▸ eol)

abbrev memset_events : Text → Text → ℕ → List Event
memset_events buffer second linenum = event_if (not (matches re_fill second)) (
    error linenum (codes "runtime/memset") 4
      (codes "Did you mean \"memset(" ++ buffer ++ codes ", 0, " ++ second ++ codes ")\"?"))

-- A memset of zero bytes.
unfoldable pub check_memset : Text → ℕ → List Event
unfolding codes group_of
check_memset line linenum = elim (search re_memset line) [
  | none ↦ []
  | some m ↦ memset_events (text_of (group_of m 1)) (text_of (group_of m 2)) linenum
]

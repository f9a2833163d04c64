-- ===== src/Cleanse/Quiet.antt =====
-- What the cleansing of lines keeps.
use mit_6172_fa15_project.Base.{
  ℕ, zero, suc, sym, Bool-cases, inl, inr, List, [], ◌∷◌, none, some, Text, length, map, get_elem?,
  ◌≡◌, refl, ap, ◌∙◌, arith, take, false,
}
use mit_6172_fa15_project.Str.{codes, find?, rstrip}
use mit_6172_fa15_project.Regex.Find.{search, matches}
use mit_6172_fa15_project.Regex.Sub.{sub-none}
use mit_6172_fa15_project.Cleanse.{
  re_include, re_c_comments, re_escapes, re_single_quotes, re_double_quotes, cleanse_comments,
  collapse_strings, cleansed_lines, is_cpp_string,
}

length-map : (f : Text → Text) (lines : List Text) → length (map f lines) ≡ length lines
length-map f [] = refl
length-map f (x ∷ lines) = ap suc (length-map f lines)

get_elem?-map :
    (f : Text → Text) (lines : List Text) (i : ℕ) (line : Text)
    → get_elem? lines i ≡ some line
    → get_elem? (map f lines) i ≡ some (f line)
get_elem?-map f [] i line h = cc
get_elem?-map f (x ∷ lines) zero line h = ground arith
get_elem?-map f (x ∷ lines) (suc i) line h = get_elem?-map f lines i line h

-- The three copies have the same length, and a line stands in each copy at its own number.
pub cleansed_lines_aligned :
    (lines : List Text) (i : ℕ) (line : Text)
    → get_elem? lines i ≡ some line
    → ((cleansed_lines lines).num_lines ≡ length (cleansed_lines lines).elided)
      × ((cleansed_lines lines).num_lines ≡ length (cleansed_lines lines).lines)
      × (get_elem? (cleansed_lines lines).raw_lines i ≡ some line)
      × (get_elem? (cleansed_lines lines).lines i ≡ some (cleanse_comments line))
      × (get_elem? (cleansed_lines lines).elided i
          ≡ some (cleanse_comments (collapse_strings line)))
unfolding cleansed_lines
cleansed_lines_aligned lines i line h = (
  sym (length-map (λ l. cleanse_comments (collapse_strings l)) lines),
  sym (length-map cleanse_comments lines),
  h,
  get_elem?-map cleanse_comments lines i line h,
  get_elem?-map (λ l. cleanse_comments (collapse_strings l)) lines i line h,
)

-- A `//` that stands in no string ends the line, without the white space in front of it, if no
-- comment `/* */` is left in front of it.
pub cleanse_comments-cut :
    (line : Text) (commentpos : ℕ)
    → find? line (codes "//") ≡ some commentpos
    → is_cpp_string (take commentpos line) ≡ false
    → search re_c_comments (rstrip (take commentpos line)) ≡ none
    → cleanse_comments line ≡ rstrip (take commentpos line)
unfolding cleanse_comments
cleanse_comments-cut line commentpos f s n =
    rw (f, s) (sub-none re_c_comments [] (rstrip (take commentpos line)) n)

uncut :
    (line : Text)
    → find? line (codes "//") ≡ none
    → search re_c_comments line ≡ none
    → cleanse_comments line ≡ line
unfolding cleanse_comments
uncut line f c = rw f (sub-none re_c_comments [] line c)

uncollapsed :
    (line : Text)
    → search re_escapes line ≡ none
    → search re_single_quotes line ≡ none
    → search re_double_quotes line ≡ none
    → collapse_strings line ≡ line
unfolding collapse_strings
uncollapsed line e s d = elim (Bool-cases (matches re_include line)) [
  | inl y ↦ rw y refl
  | inr n ↦
      rw
        (
          n,
          sub-none re_escapes [] line e,
          sub-none re_single_quotes (codes "''") line s,
          sub-none re_double_quotes (codes "\"\"") line d,
        )
        refl
]

-- A line with no comment and nothing that looks like an escape, a character or a string is the
-- same in all three copies.
pub cleanse_quiet :
    (line : Text)
    → find? line (codes "//") ≡ none
    → search re_c_comments line ≡ none
    → search re_escapes line ≡ none
    → search re_single_quotes line ≡ none
    → search re_double_quotes line ≡ none
    → (cleanse_comments line ≡ line) × (cleanse_comments (collapse_strings line) ≡ line)
cleanse_quiet line f c e s d = (plain, ap cleanse_comments collapsed ∙ plain)
  where
    plain : cleanse_comments line ≡ line
    plain = uncut line f c

    collapsed : collapse_strings line ≡ line
    collapsed = uncollapsed line e s d

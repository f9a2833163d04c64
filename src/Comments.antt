-- ===== src/Comments.antt =====
-- Multi-line comments (clint.py:889-930): they are overwritten before any check reads the lines.
pub mod Removal
use mit_6172_fa15_project.Base.{
  ℕ, zero, suc, ◌+◌, Bool, true, false, not, ◌&&◌, List, [], ◌∷◌, ◌++◌, Text, if◌then◌else◌, leb,
  length, drop, is_some, ◌==◌,
}
use mit_6172_fa15_project.Str.{codes, strip, starts_with, ends_with, contains}
use mit_6172_fa15_project.Lint.{Event, error}

-- lines[lineix].strip().startswith('/*') with no '*/' from index 2 on
unfoldable pub opens_comment : Text → Bool
unfolding codes
opens_comment line =
    if starts_with (strip line) (codes "/*")
    then not (contains (drop 2 (strip line)) (codes "*/"))
    else false

-- lines[lineix].strip().endswith('*/')
unfoldable pub closes_comment : Text → Bool
unfolding codes
closes_comment line = ends_with (strip line) (codes "*/")

-- The loop `while lineix < len(lines)` of both searches: the first index from `lineix` on whose
-- line passes the test, and the number of lines where there is none.
unfoldable pub find_next : (Text → Bool) → List Text → ℕ → ℕ
find_next p [] lineix = 0
find_next p (line ∷ lines) (suc lineix) = suc (find_next p lines lineix)
find_next p (line ∷ lines) zero =
    let later = find_next p lines zero in if p line then 0 else suc later

-- FindNextMultiLineCommentStart
abbrev pub find_next_multi_line_comment_start : List Text → ℕ → ℕ
find_next_multi_line_comment_start = find_next opens_comment

-- FindNextMultiLineCommentEnd
abbrev pub find_next_multi_line_comment_end : List Text → ℕ → ℕ
find_next_multi_line_comment_end = find_next closes_comment

unfoldable pub dummy : Text
unfolding codes
dummy = codes "// dummy"

-- RemoveMultiLineCommentsFromRange: `lines[i] = '// dummy'` for i in range(begin, end)
unfoldable pub remove_multi_line_comments_from_range : List Text → ℕ → ℕ → List Text
remove_multi_line_comments_from_range [] begin end = []
remove_multi_line_comments_from_range (line ∷ lines) (suc begin) zero = line ∷ lines
remove_multi_line_comments_from_range (line ∷ lines) (suc begin) (suc end) =
    line ∷ remove_multi_line_comments_from_range lines begin end
remove_multi_line_comments_from_range (line ∷ lines) zero zero = line ∷ lines
remove_multi_line_comments_from_range (line ∷ lines) zero (suc end) =
    dummy ∷ remove_multi_line_comments_from_range lines zero end

-- The error for a comment that begins on line `lineix_begin`.
unfoldable pub unterminated : ℕ → Event
unterminated lineix_begin =
    error (lineix_begin + 1) (codes "readability/multiline_comment") 5
      (codes "Could not find end of multi-line comment")

-- The loop of RemoveMultiLineComments. Each round ends behind the line where it began, so as many
-- rounds as there are lines are enough, and one more to see the end.
unfoldable pub removal_rounds : ℕ → List Text → ℕ → List Text × List Event
unfolding unterminated
removal_rounds zero lines lineix = (lines, [])
removal_rounds (suc fuel) lines lineix =
    let lineix_begin = find_next_multi_line_comment_start lines lineix in
    let lineix_end = find_next_multi_line_comment_end lines lineix_begin in
    let rest =
      removal_rounds fuel
        (remove_multi_line_comments_from_range lines lineix_begin (lineix_end + 1))
        (lineix_end + 1) in
    if leb (length lines) lineix_begin
    then (lines, [])
    else if leb (length lines) lineix_end
    then (lines, unterminated lineix_begin ∷ [])
    else rest

-- RemoveMultiLineComments: the lines that it leaves, and its errors
unfoldable pub remove_multi_line_comments : List Text → List Text × List Event
unfolding removal_rounds
remove_multi_line_comments lines = removal_rounds (length lines + 1) lines 0

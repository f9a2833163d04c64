-- ===== src/Includes/SameModule.antt =====
-- `FilesBelongToSameModule` (clint.py:2948).
pub mod Prefix
use mit_6172_fa15_project.Base.{
  ℕ, ◌-◌, Bool, true, false, List, [], ◌∷◌, ◌++◌, Text, if◌then◌else◌, ◌==◌, take, length, String,
  not,
}
use mit_6172_fa15_project.Str.{codes, ends_with, replace}

-- s[:-n]; `s[:-0]` is empty
unfoldable pub drop_end : ℕ → Text → Text
drop_end n s = if n == 0 then [] else take (length s - n) s

-- The suffix is cut off where it stands.
unfoldable pub cut_suffix : Text → Text → Text
unfolding drop_end
cut_suffix suffix s = if ends_with s suffix then drop_end (length suffix) s else s

-- s.replace('/public/', '/').replace('/internal/', '/')
unfoldable pub drop_directories : Text → Text
unfolding codes
drop_directories s =
    replace (codes "/internal/") (codes "/") (replace (codes "/public/") (codes "/") s)

-- What is left of the two names; the .c file loses one of the two suffixes of a test.
unfoldable pub module_of_cc : Text → Text
unfolding codes drop_directories cut_suffix
module_of_cc filename_cc =
    let s = drop_end 2 filename_cc in
    drop_directories (
      if ends_with s (codes "_unittest")
      then drop_end (length (codes "_unittest")) s
      else cut_suffix (codes "_test") s)

unfoldable pub module_of_h : Text → Text
unfolding codes drop_directories cut_suffix
module_of_h filename_h = drop_directories (cut_suffix (codes "-inl") (drop_end 2 filename_h))

-- FilesBelongToSameModule
unfoldable pub files_belong_to_same_module : Text → Text → Bool × Text
unfolding codes
files_belong_to_same_module filename_cc filename_h =
    if not (ends_with filename_cc (codes ".c"))
    then (false, [])
    else if not (ends_with filename_h (codes ".h"))
    then (false, [])
    else if ends_with (module_of_cc filename_cc) (module_of_h filename_h)
    then (true, drop_end (length (module_of_h filename_h)) (module_of_cc filename_cc))
    else (false, [])

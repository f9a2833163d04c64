-- ===== src/Includes/Classify.antt =====
-- What kind of header an include is: `_DropCommonSuffixes` (clint.py:2302), `_IsTestFilename`
-- (clint.py:2329) and `_ClassifyInclude` (clint.py:2346).
pub mod Own
use mit_6172_fa15_project.Base.{
  ℕ, ◌+◌, Bool, true, false, ◌&&◌, ◌||◌, List, [], ◌∷◌, ◌++◌, reverse, Option, none, some, Text,
  if◌then◌else◌, ◌==◌, ltb, length, get_elem?,
}
use mit_6172_fa15_project.Str.{codes, ends_with, is_in, text_eq}
use mit_6172_fa15_project.Paths.{path_split, splitext, normpath}
use mit_6172_fa15_project.Regex.{Regex, span}
use mit_6172_fa15_project.Regex.Find.{Hit, match}
use mit_6172_fa15_project.Regex.Notation.{bol, none_of, plus, ◌▸◌}
use mit_6172_fa15_project.Includes.SameModule.{drop_end}
use mit_6172_fa15_project.Includes.Order.{
  HeaderType, c_sys_header, cpp_sys_header, likely_my_header, possible_my_header, other_header,
}

unfoldable pub stl_headers : List Text
unfolding codes
stl_headers =
    codes "algobase.h"
    ∷ codes "algorithm"
    ∷ codes "alloc.h"
    ∷ codes "bitset"
    ∷ codes "deque"
    ∷ codes "exception"
    ∷ codes "function.h"
    ∷ codes "functional"
    ∷ codes "hash_map"
    ∷ codes "hash_map.h"
    ∷ codes "hash_set"
    ∷ codes "hash_set.h"
    ∷ codes "iterator"
    ∷ codes "list"
    ∷ codes "list.h"
    ∷ codes "map"
    ∷ codes "memory"
    ∷ codes "new"
    ∷ codes "pair.h"
    ∷ codes "pthread_alloc"
    ∷ codes "queue"
    ∷ codes "set"
    ∷ codes "set.h"
    ∷ codes "sstream"
    ∷ codes "stack"
    ∷ codes "stl_alloc.h"
    ∷ codes "stl_relops.h"
    ∷ codes "type_traits.h"
    ∷ codes "utility"
    ∷ codes "vector"
    ∷ codes "vector.h"
    ∷ []

unfoldable pub cpp_headers : List Text
unfolding codes
cpp_headers =
    codes "algo.h"
    ∷ codes "builtinbuf.h"
    ∷ codes "bvector.h"
    ∷ codes "cassert"
    ∷ codes "cctype"
    ∷ codes "cerrno"
    ∷ codes "cfloat"
    ∷ codes "ciso646"
    ∷ codes "climits"
    ∷ codes "clocale"
    ∷ codes "cmath"
    ∷ codes "complex"
    ∷ codes "complex.h"
    ∷ codes "csetjmp"
    ∷ codes "csignal"
    ∷ codes "cstdarg"
    ∷ codes "cstddef"
    ∷ codes "cstdio"
    ∷ codes "cstdlib"
    ∷ codes "cstring"
    ∷ codes "ctime"
    ∷ codes "cwchar"
    ∷ codes "cwctype"
    ∷ codes "defalloc.h"
    ∷ codes "deque.h"
    ∷ codes "editbuf.h"
    ∷ codes "exception"
    ∷ codes "fstream"
    ∷ codes "fstream.h"
    ∷ codes "hashtable.h"
    ∷ codes "heap.h"
    ∷ codes "indstream.h"
    ∷ codes "iomanip"
    ∷ codes "iomanip.h"
    ∷ codes "ios"
    ∷ codes "iosfwd"
    ∷ codes "iostream"
    ∷ codes "iostream.h"
    ∷ codes "istream"
    ∷ codes "istream.h"
    ∷ codes "iterator.h"
    ∷ codes "limits"
    ∷ codes "map.h"
    ∷ codes "multimap.h"
    ∷ codes "multiset.h"
    ∷ codes "numeric"
    ∷ codes "ostream"
    ∷ codes "ostream.h"
    ∷ codes "parsestream.h"
    ∷ codes "pfstream.h"
    ∷ codes "PlotFile.h"
    ∷ codes "procbuf.h"
    ∷ codes "pthread_alloc.h"
    ∷ codes "rope"
    ∷ codes "rope.h"
    ∷ codes "ropeimpl.h"
    ∷ codes "SFile.h"
    ∷ codes "slist"
    ∷ codes "slist.h"
    ∷ codes "stack.h"
    ∷ codes "stdexcept"
    ∷ codes "stdiostream.h"
    ∷ codes "streambuf.h"
    ∷ codes "stream.h"
    ∷ codes "strfile.h"
    ∷ codes "string"
    ∷ codes "strstream"
    ∷ codes "strstream.h"
    ∷ codes "tempbuf.h"
    ∷ codes "tree.h"
    ∷ codes "typeinfo"
    ∷ codes "valarray"
    ∷ []

unfoldable pub common_suffixes : List Text
unfolding codes
common_suffixes =
    codes "test.c"
    ∷ codes "regtest.c"
    ∷ codes "unittest.c"
    ∷ codes "inl.h"
    ∷ codes "impl.h"
    ∷ codes "internal.h"
    ∷ []

-- filename[-n - 1] in ('-', '_')
abbrev pub separator_at : ℕ → Text → Bool
separator_at n filename = elim (get_elem? (reverse filename) n) [
  | none ↦ false
  | some c ↦ c == b'-' || c == b'_'
]

-- The test of the loop.
unfoldable pub has_suffix : Text → Text → Bool
has_suffix suffix filename =
    if ends_with filename suffix
    then ltb (length suffix) (length filename) && separator_at (length suffix) filename
    else false

unfoldable pub drop_suffix : List Text → Text → Text
drop_suffix [] filename = (splitext filename).0
drop_suffix (suffix ∷ suffixes) filename =
    let later = drop_suffix suffixes filename in
    if has_suffix suffix filename then drop_end (length suffix + 1) filename else later

-- _DropCommonSuffixes
unfoldable pub drop_common_suffixes : Text → Text
drop_common_suffixes filename = drop_suffix common_suffixes filename

-- _IsTestFilename
unfoldable pub is_test_filename : Text → Bool
unfolding codes
is_test_filename filename =
    ends_with filename (codes "_test.c")
    || ends_with filename (codes "_unittest.c")
    || ends_with filename (codes "_regtest.c")

-- _RE_FIRST_COMPONENT: ^[^-_.]+
unfoldable pub re_first_component : Regex
unfolding bol none_of plus
re_first_component = bol ▸ plus (none_of (b'-' ∷ b'_' ∷ b'.' ∷ []))

-- m.group(0)
abbrev whole : Option Hit → Option Text
whole none = none
whole (some h) = some (span h.start h.finish)

unfoldable pub first_component : Text → Option Text
unfolding re_first_component
first_component base = whole (match re_first_component base)

abbrev same_component : Option Text → Option Text → Bool
same_component (some a) (some b) = text_eq a b
same_component _ _ = false

-- `include_dir == target_dir` or the `public` directory beside it
unfoldable pub is_own_directory : Text → Text → Bool
unfolding codes
is_own_directory target_dir include_dir =
    text_eq include_dir target_dir
    || text_eq include_dir (normpath (target_dir ++ codes "/../public"))

abbrev by_name : Text × Text → Text × Text → HeaderType
by_name (target_dir, target_base) (include_dir, include_base) =
    if text_eq target_base include_base && is_own_directory target_dir include_dir
    then likely_my_header
    else if same_component (first_component target_base) (first_component include_base)
    then possible_my_header
    else other_header

-- _ClassifyInclude; `target` is `fileinfo.RepositoryName()`
unfoldable pub classify_include : Text → Text → Bool → HeaderType
classify_include target include is_system =
    if is_system
    then (if is_in include stl_headers || is_in include cpp_headers
        then cpp_sys_header
        else c_sys_header)
    else by_name (path_split (drop_common_suffixes target))
        (path_split (drop_common_suffixes include))

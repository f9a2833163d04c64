-- ===== src/Includes/Classify/Own.antt =====
-- Which headers count as a file's own.
use mathlib.Core.List.{reverse-append}
use mit_6172_fa15_project.Base.{
  ℕ, Bool, true, false, ◌||◌, ◌&&◌, ◌∷◌, ◌++◌, reverse, Text, ◌==◌, lt→ltb, get_elem?, none, some,
  ◌≤◌, length, length-append, ◌≡◌, sym, ◌∙◌, refl, arith, In, here, there,
}
use mit_6172_fa15_project.Str.{codes, ends_with, starts_with}
use mit_6172_fa15_project.Str.Laws.{text_eq_refl}
use mit_6172_fa15_project.Paths.{path_split}
use mit_6172_fa15_project.Includes.SameModule.Prefix.{drop_end-append}
use mit_6172_fa15_project.Includes.Order.{likely_my_header}
use mit_6172_fa15_project.Includes.Classify.{
  common_suffixes, has_suffix, drop_suffix, drop_common_suffixes, is_own_directory, by_name,
  classify_include,
}

-- The test of a suffix read from the end of a name.
abbrev ends_so : Text → Text → Bool
ends_so p s =
    starts_with s (reverse p)
    && elim (get_elem? s (length p)) [ none ↦ false | some c ↦ c == b'-' || c == b'_' ]

module _ (stem : Text) (c : ℕ) where
  has_suffix-append :
      (p s : Text)
      → length p ≤ length s
      → has_suffix p (stem ++ c ∷ s) ≡ ends_so p (reverse (c ∷ s) ++ reverse stem)
  unfolding has_suffix ends_with
  has_suffix-append p s h =
      rw (← reverse-append stem (c ∷ s))
        (ground (arith, length-append stem (c ∷ s), lt→ltb (length p) (length (stem ++ c ∷ s))))

  has_suffix-append_false :
      (p s : Text)
      → starts_with (reverse (c ∷ s) ++ reverse stem) (reverse p) ≡ false
      → has_suffix p (stem ++ c ∷ s) ≡ false
  unfolding has_suffix ends_with
  has_suffix-append_false p s h = rw (reverse-append stem (c ∷ s), h)

  module _ (sep : (c == b'-' || c == b'_') ≡ true) where
    drop_common_suffixes-append :
        (suffix : Text)
        → In suffix common_suffixes
        → drop_common_suffixes (stem ++ c ∷ suffix) ≡ stem
    unfolding common_suffixes drop_common_suffixes drop_suffix codes starts_with
    drop_common_suffixes-append suffix (here e) = rw e (
        rw (has_suffix-append (codes "test.c") (codes "test.c") (omega arith), sep)
          (drop_end-append stem c (codes "test.c")))
    drop_common_suffixes-append suffix (there (here e)) = rw e (
        rw
          (
            has_suffix-append (codes "test.c") (codes "regtest.c") (omega arith),
            has_suffix-append (codes "regtest.c") (codes "regtest.c") (omega arith),
            sep,
          )
          (drop_end-append stem c (codes "regtest.c")))
    drop_common_suffixes-append suffix (there (there (here e))) = rw e (
        rw
          (
            has_suffix-append (codes "test.c") (codes "unittest.c") (omega arith),
            has_suffix-append_false (codes "regtest.c") (codes "unittest.c") refl,
            has_suffix-append (codes "unittest.c") (codes "unittest.c") (omega arith),
            sep,
          )
          (drop_end-append stem c (codes "unittest.c")))
    drop_common_suffixes-append suffix (there (there (there (here e)))) = rw e (
        rw
          (
            has_suffix-append_false (codes "test.c") (codes "inl.h") refl,
            has_suffix-append_false (codes "regtest.c") (codes "inl.h") refl,
            has_suffix-append_false (codes "unittest.c") (codes "inl.h") refl,
            has_suffix-append (codes "inl.h") (codes "inl.h") (omega arith),
            sep,
          )
          (drop_end-append stem c (codes "inl.h")))
    drop_common_suffixes-append suffix (there (there (there (there (here e))))) = rw e (
        rw
          (
            has_suffix-append_false (codes "test.c") (codes "impl.h") refl,
            has_suffix-append_false (codes "regtest.c") (codes "impl.h") refl,
            has_suffix-append_false (codes "unittest.c") (codes "impl.h") refl,
            has_suffix-append_false (codes "inl.h") (codes "impl.h") refl,
            has_suffix-append (codes "impl.h") (codes "impl.h") (omega arith),
            sep,
          )
          (drop_end-append stem c (codes "impl.h")))
    drop_common_suffixes-append suffix (there (there (there (there (there (here e)))))) = rw e (
        rw
          (
            has_suffix-append_false (codes "test.c") (codes "internal.h") refl,
            has_suffix-append_false (codes "regtest.c") (codes "internal.h") refl,
            has_suffix-append_false (codes "unittest.c") (codes "internal.h") refl,
            has_suffix-append_false (codes "inl.h") (codes "internal.h") refl,
            has_suffix-append_false (codes "impl.h") (codes "internal.h") refl,
            has_suffix-append (codes "internal.h") (codes "internal.h") (omega arith),
            sep,
          )
          (drop_end-append stem c (codes "internal.h")))
    drop_common_suffixes-append suffix (there (there (there (there (there (there m)))))) =
        elim m [ ]

classify_include-same :
    (target include : Text)
    → drop_common_suffixes target ≡ drop_common_suffixes include
    → classify_include target include false ≡ likely_my_header
unfolding classify_include is_own_directory
classify_include-same target include e = rw e (own (path_split (drop_common_suffixes include)))
  where
    own : (d : Text × Text) → by_name d d ≡ likely_my_header
    own (dir, base) = rw (text_eq_refl base, text_eq_refl dir)

-- Two names that differ only in a common suffix, such as `a/b_test.c` and `a/b-inl.h`, stand for
-- one file: an include of the one from the other, written in quotes, counts as the file's own
-- header.
pub classify_include-own :
    (stem : Text) (c d : ℕ) (suffix suffix' : Text)
    → (c == b'-' || c == b'_') ≡ true
    → (d == b'-' || d == b'_') ≡ true
    → In suffix common_suffixes
    → In suffix' common_suffixes
    → classify_include (stem ++ c ∷ suffix) (stem ++ d ∷ suffix') false ≡ likely_my_header
classify_include-own stem c d s s' p q m n =
    classify_include-same (stem ++ c ∷ s) (stem ++ d ∷ s')
      (drop_common_suffixes-append stem c p s m ∙ sym (drop_common_suffixes-append stem d q s' n))

-- ===== src/FileInfo/Repository/Relative.antt =====
-- A path without the root of its checkout (clint.py:741, 756).
use mathlib.Core.Path.{subst}
use mit_6172_fa15_project.Base.{
  ℕ, suc, ◌+◌, [], ◌∷◌, ◌++◌, Text, length, drop, ◌≡◌, ◌⊎◌, inl, inr, refl, sym, ap, ◌∙◌, arith,
}
use mit_6172_fa15_project.Str.Laws.{text_eq_refl}
use mit_6172_fa15_project.Paths.{dirname}
use mit_6172_fa15_project.Paths.Parents.{
  IsSlashes, IsBelow, dirname-IsBelow, up, up-IsBelow, up-prefix,
}
use mit_6172_fa15_project.FileInfo.Repository.{common_prefix, behind}

-- The text `name` is the path `path` without the directory `root` and the slash behind it. Behind a
-- directory of slashes alone the next character is missing, whatever it is.
abbrev pub IsRelative : Text → Text → Text → Type 0
IsRelative root path name =
    (path ≡ root ++ b'/' ∷ name) ⊎ (IsSlashes root × (name ≡ drop (length root + 1) path))

common_prefix-append : (a b : Text) → common_prefix a (a ++ b) ≡ a
unfolding common_prefix
common_prefix-append [] b = refl
common_prefix-append (x ∷ a) b =
    let e = text_eq_refl (x ∷ []) in ground (arith, common_prefix-append a b)

drop-append : (a name : Text) → drop (suc (length a)) (a ++ b'/' ∷ name) ≡ name
drop-append [] name = refl
drop-append (x ∷ a) name = drop-append a name

behind_parent :
    (k : ℕ) (path : Text)
    → behind (up k (dirname path)) (dirname path) path
      ≡ drop (length (up k (dirname path)) + 1) path
behind_parent k path =
    let (rest, e) = up-prefix k (dirname path) in
    ap (λ u. drop (length u + 1) path)
      (ap (common_prefix (up k (dirname path))) e ∙ common_prefix-append (up k (dirname path)) rest)

behind-IsRelative :
    (k : ℕ) (path : Text)
    → IsRelative (up k (dirname path)) path (behind (up k (dirname path)) (dirname path) path)
behind-IsRelative k path = place (up-IsBelow k (dirname path) path (dirname-IsBelow path))
  where
    root : Text
    root = up k (dirname path)

    place : IsBelow root path → IsRelative root path (behind root (dirname path) path)
    place b = elim b.slash [
      | inl s ↦ inr (s, behind_parent k path)
      | inr (name, e) ↦
          let whole : path ≡ root ++ b'/' ∷ name = b.path ∙ ap (λ u. root ++ u) e in
          let one : length root + 1 ≡ suc (length root) = omega arith in
          let cut : behind root (dirname path) path ≡ name =
            behind_parent k path
            ∙ ap (λ n. drop n path) one
            ∙ ap (drop (suc (length root))) whole
            ∙ drop-append root name in
          inl (whole ∙ ap (λ u. root ++ b'/' ∷ u) (sym cut))
    ]

pub reached-IsRelative :
    (path root : Text) (k : ℕ)
    → root ≡ up k (dirname path)
    → IsRelative root path (behind root (dirname path) path)
reached-IsRelative path root k e =
    subst (λ r. IsRelative r path (behind r (dirname path) path)) (sym e) (behind-IsRelative k path)

-- ===== src/FileInfo/Repository.antt =====
-- `FileInfo.FullName` and `FileInfo.RepositoryName` (clint.py:712-759). `os.path.abspath` and
-- `os.path.exists` are parameters. The loops go up from a directory, so that the length of the path
-- bounds their rounds; `none` is a loop that does not end.
pub mod Relative
pub mod Climb
pub mod Found
use mathlib.Core.Option
use mit_6172_fa15_project.Base.{
  ℕ, zero, suc, ◌+◌, Bool, true, false, ◌||◌, List, [], ◌∷◌, ◌++◌, Option, none, some, Text,
  if◌then◌else◌, ◌==◌, length, drop,
}
use mit_6172_fa15_project.Str.{codes, replace, ends_with, text_eq}
use mit_6172_fa15_project.Paths.{dirname}

-- os.path.join of a directory and a name
unfoldable pub join : Text → Text → Text
unfolding codes
join [] name = name
join (c ∷ dir) name =
    if ends_with (c ∷ dir) (codes "/") then (c ∷ dir) ++ name else (c ∷ dir) ++ codes "/" ++ name

-- os.path.commonprefix of two paths, character by character
unfoldable pub common_prefix : Text → Text → Text
common_prefix [] b = []
common_prefix (x ∷ a) [] = []
common_prefix (x ∷ a) (y ∷ b) = let rest = common_prefix a b in if x == y then x ∷ rest else []

-- fullname[len(prefix) + 1:]
abbrev pub behind : Text → Text → Text → Text
behind root_dir project_dir fullname =
    drop (length (common_prefix root_dir project_dir) + 1) fullname

module _ (abspath : Text → Text) (exists : Text → Bool) where
  -- FullName
  unfoldable pub full_name : Text → Text
  unfolding codes
  full_name filename = replace (codes "\\") (codes "/") (abspath filename)

  unfoldable pub has_svn : Text → Bool
  unfolding join codes
  has_svn dir = exists (join dir (codes ".svn"))

  -- Whether a directory has one of the three entries.
  unfoldable pub is_checkout : Text → Bool
  unfolding join has_svn codes
  is_checkout dir =
      exists (join dir (codes ".git")) || exists (join dir (codes ".hg")) || has_svn dir

  -- while os.path.exists(os.path.join(one_up_dir, ".svn"))
  unfoldable pub svn_root : ℕ → Text → Text → Option Text
  unfolding has_svn
  svn_root zero root_dir one_up_dir = none
  svn_root (suc n) root_dir one_up_dir =
      let up = svn_root n (dirname root_dir) (dirname one_up_dir) in
      if has_svn one_up_dir then up else some root_dir

  -- The second loop, which looks for a checkout.
  unfoldable pub checkout_root : ℕ → Text → Option Text
  unfolding is_checkout
  checkout_root zero root_dir = none
  checkout_root (suc n) root_dir =
      let up = checkout_root n (dirname root_dir) in
      if text_eq root_dir (dirname root_dir) || is_checkout root_dir then some root_dir else up

  abbrev pub in_checkout : Text → Option Text → Option Text
  in_checkout fullname none = none
  in_checkout fullname (some root_dir) =
      if is_checkout root_dir
      then some (behind root_dir (dirname fullname) fullname)
      else some fullname

  abbrev pub in_svn : Text → Option Text
  in_svn fullname =
      let project_dir = dirname fullname in
      Option.map (λ root_dir. behind root_dir project_dir fullname)
        (svn_root (suc (length fullname)) project_dir (dirname project_dir))

  -- RepositoryName
  unfoldable pub repository_name : Text → Option Text
  unfolding svn_root checkout_root
  repository_name filename =
      let fullname = full_name filename in
      if exists fullname
      then (if has_svn (dirname fullname)
          then in_svn fullname
          else in_checkout fullname (checkout_root (suc (length fullname)) (dirname fullname)))
      else some fullname

-- ===== src/FileInfo.antt =====
-- `FileInfo` (clint.py:702-789): the parts of a file's name relative to the root of its checkout.
-- The name that `RepositoryName` finds is `googlename`.
pub mod Repository
use mit_6172_fa15_project.Base.{Bool, [], ◌∷◌, ◌++◌, Text, drop}
use mit_6172_fa15_project.Str.{codes, is_in}
use mit_6172_fa15_project.Paths.{path_split, splitext}

pub record Parts : Type 0 where
  pub project : Text
  pub base : Text
  pub extension_ : Text

-- Split
unfoldable pub split_parts : Text → Parts
split_parts googlename =
    let (project, rest) = path_split googlename in
    let (base, extension) = splitext rest in
    record { project = project; base = base; extension_ = extension }

-- BaseName
abbrev pub base_name : Text → Text
base_name googlename = (split_parts googlename).base

-- Extension
abbrev pub extension : Text → Text
extension googlename = (split_parts googlename).extension_

-- NoExtension
unfoldable pub no_extension : Text → Text
unfolding codes
no_extension googlename =
    (split_parts googlename).project ++ (codes "/" ++ (split_parts googlename).base)

-- IsSource
unfoldable pub is_source : Text → Bool
unfolding codes
is_source googlename =
    is_in (drop 1 (extension googlename)) (codes "c" ∷ codes "cc" ∷ codes "cpp" ∷ codes "cxx" ∷ [])

-- ===== src/Tests/Naming.antt =====
-- Names in a repository (clint.py:712-759) at a concrete file.
use mit_6172_fa15_project.Base.{ltb, not, ◌&&◌, Bool, length, some, Text, ◌≡◌, refl}
use mit_6172_fa15_project.Str.{codes, replace, text_eq, ends_with}
use mit_6172_fa15_project.Paths.{path_split}
use mit_6172_fa15_project.FileInfo.Repository.{
  join, common_prefix, full_name, has_svn, is_checkout, checkout_root, repository_name,
}

abbrev identity : Text → Text
identity path = path

-- Short paths exist, and so a checkout of Mercurial at the top.
abbrev exists : Text → Bool
exists path = ltb (length path) 5 && not (text_eq path (codes ".svn"))

length-codes_test : length (codes ".svn") ≡ 4
unfolding codes
length-codes_test = refl

root_test : checkout_root identity exists 5 (codes "/b") ≡ some (codes "/")
unfolding codes checkout_root is_checkout has_svn join path_split text_eq ends_with
root_test = refl

-- With a checkout at the top one character too many is cut off.
top_test : repository_name identity exists (codes "/b/a") ≡ some (codes "/a")
unfolding codes repository_name full_name replace checkout_root is_checkout has_svn join path_split
    text_eq ends_with common_prefix
top_test = refl

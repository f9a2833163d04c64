-- ===== src/FileInfo/Repository/Found.antt =====
-- The name of a file in its repository is found (clint.py:716-759).
use mathlib.Core.Option
use mit_6172_fa15_project.Base.{Bool, true, false, Option, Text, ◌≡◌}
use mit_6172_fa15_project.Paths.{dirname}
use mit_6172_fa15_project.FileInfo.Repository.{has_svn}
use mit_6172_fa15_project.FileInfo.Repository.Relative.{IsRelative}
use mit_6172_fa15_project.FileInfo.Repository.Climb.{SvnRoot, CheckoutRoot, NoCheckout}

module _ (abspath : Text → Text) (exists : Text → Bool) where
  -- What RepositoryName is to return for the full name `path`.
  pub data IsName (path : Text) : Text → Type 0 where
    no_file : exists path ≡ false → IsName path path
    below_svn :
        {root name : Text}
        → exists path ≡ true
        → SvnRoot abspath exists (dirname path) root
        → IsRelative root path name
        → IsName path name
    below_checkout :
        {root name : Text}
        → exists path ≡ true
        → has_svn abspath exists (dirname path) ≡ false
        → CheckoutRoot abspath exists (dirname path) root
        → IsRelative root path name
        → IsName path name
    in_no_checkout :
        exists path ≡ true → NoCheckout abspath exists (dirname path) → IsName path path

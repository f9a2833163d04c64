-- ===== src/FileInfo/Repository/Climb.antt =====
-- The loops of RepositoryName end (clint.py:731-750).
use mit_6172_fa15_project.Base.{
  ℕ, zero, suc, ◌≤◌, ◌<◌, Bool, true, false, ◌||◌, Option, some, Text, length, ◌≡◌, ◌⊎◌, inl, inr,
  refl, sym, ap, arith, Bool-cases, if◌then◌else◌, ltb, ltb→lt, ltb→ge,
}
use mit_6172_fa15_project.Str.{text_eq}
use mit_6172_fa15_project.Str.Laws.{text_eq_iff}
use mit_6172_fa15_project.Paths.{dirname}
use mit_6172_fa15_project.Paths.Shrinks.{dirname-IsShrunk}
use mit_6172_fa15_project.Paths.Parents.{up}
use mit_6172_fa15_project.FileInfo.Repository.{has_svn, is_checkout, svn_root, checkout_root}

pub dirname-shorter : (p : Text) → length (dirname p) ≤ length p
dirname-shorter p = elim (dirname-IsShrunk p) [
  | inl e ↦ let n = ap length e in omega arith
  | inr l ↦ omega arith
]

module _ (abspath : Text → Text) (exists : Text → Bool) where
  -- `root` is the topmost of the directories from `dir` up, one after the other, with an entry `.svn`.
  pub record SvnRoot (dir root : Text) : Type 0 where
    pub levels : ℕ
    pub reached : root ≡ up levels dir
    pub inside : (j : ℕ) → j ≤ levels → has_svn abspath exists (up j dir) ≡ true
    pub above : has_svn abspath exists (up (suc levels) dir) ≡ false

  -- `root` is the first of the directories from `dir` up that is a checkout.
  pub record CheckoutRoot (dir root : Text) : Type 0 where
    pub levels : ℕ
    pub reached : root ≡ up levels dir
    pub first : (j : ℕ) → j < levels → is_checkout abspath exists (up j dir) ≡ false
    pub found : is_checkout abspath exists root ≡ true

  -- None of the directories from `dir` up to the topmost is a checkout.
  pub record NoCheckout (dir : Text) : Type 0 where
    pub levels : ℕ
    pub topmost : dirname (up levels dir) ≡ up levels dir
    pub none_up : (j : ℕ) → j ≤ levels → is_checkout abspath exists (up j dir) ≡ false

  -- Where the second loop ends: at the directory `root`.
  pub record Climbed (dir root : Text) : Type 0 where
    pub levels : ℕ
    pub reached : root ≡ up levels dir
    pub none_below : (j : ℕ) → j < levels → is_checkout abspath exists (up j dir) ≡ false
    pub stops : (dirname root ≡ root) ⊎ (is_checkout abspath exists root ≡ true)

  Climbed-more :
      (dir root : Text)
      → is_checkout abspath exists dir ≡ false
      → Climbed (dirname dir) root
      → Climbed dir root
  unfolding up
  Climbed-more dir root n c = record {
    levels = suc c.levels;
    reached = c.reached;
    none_below = below;
    stops = c.stops;
  }
    where
      below : (j : ℕ) → j < suc c.levels → is_checkout abspath exists (up j dir) ≡ false
      below zero l = n
      below (suc j) l = c.none_below j (omega arith)

  pub checkout_root-some :
      (n : ℕ) (dir : Text)
      → length dir < n
      → (root : Text) × (checkout_root abspath exists n dir ≡ some root) × Climbed dir root
  unfolding checkout_root
  checkout_root-some zero dir h = absurd (omega arith)
  checkout_root-some (suc n) dir h =
      by_tests (text_eq dir (dirname dir)) (is_checkout abspath exists dir) refl refl
        (λ shorter. checkout_root-some n (dirname dir) (omega arith))
    where
      Goal : Option Text → Type 0
      Goal o = (root : Text) × (o ≡ some root) × Climbed dir root

      here_ends : (dirname dir ≡ dir) ⊎ (is_checkout abspath exists dir ≡ true) → Goal (some dir)
      here_ends s = (
        dir,
        refl,
        record {
          levels = 0;
          reached = unfold up in refl;
          none_below = λ j l. absurd (omega arith);
          stops = s;
        },
      )

      by_tests :
          (t c : Bool)
          → text_eq dir (dirname dir) ≡ t
          → is_checkout abspath exists dir ≡ c
          → (length (dirname dir) < length dir
              → (root : Text) × (checkout_root abspath exists n (dirname dir) ≡ some root)
                × Climbed (dirname dir) root)
          → Goal (if t || c then some dir else checkout_root abspath exists n (dirname dir))
      by_tests true c e f more = here_ends (inl (sym ((text_eq_iff dir (dirname dir)).0 e)))
      by_tests false true e f more = here_ends (inr f)
      by_tests false false e f more = elim (dirname-IsShrunk dir) [
        | inl q ↦ let p = (text_eq_iff dir (dirname dir)).1 (sym q) in cc
        | inr l ↦ let (root, g, c) = more l in (root, g, Climbed-more dir root f c)
      ]

  pub all_clear :
      {dir root : Text}
      → is_checkout abspath exists root ≡ false
      → Climbed dir root
      → NoCheckout dir
  all_clear {dir} {root} n c = record {
    levels = c.levels;
    topmost = rw (← c.reached) (ends c.stops);
    none_up = upto;
  }
    where
      ends : (dirname root ≡ root) ⊎ (is_checkout abspath exists root ≡ true) → dirname root ≡ root
      ends (inl e) = e
      ends (inr y) = cc

      upto : (j : ℕ) → j ≤ c.levels → is_checkout abspath exists (up j dir) ≡ false
      upto j l = elim (Bool-cases (ltb j c.levels)) [
        | inl y ↦ c.none_below j (ltb→lt j c.levels y)
        | inr m ↦
            let q : j ≡ c.levels = (let g = ltb→ge j c.levels m in omega arith) in
            rw (q, ← c.reached) n
      ]

  SvnRoot-more :
      (dir root : Text)
      → has_svn abspath exists dir ≡ true
      → SvnRoot (dirname dir) root
      → SvnRoot dir root
  unfolding up
  SvnRoot-more dir root y c = record {
    levels = suc c.levels;
    reached = c.reached;
    inside = from_here;
    above = c.above;
  }
    where
      from_here : (j : ℕ) → j ≤ suc c.levels → has_svn abspath exists (up j dir) ≡ true
      from_here zero l = y
      from_here (suc j) l = c.inside j (omega arith)

  module _ (top : (dir : Text) → dirname dir ≡ dir → has_svn abspath exists dir ≡ false) where
    pub svn_root-some :
        (n : ℕ) (dir : Text)
        → has_svn abspath exists dir ≡ true
        → length (dirname dir) < n
        → (root : Text) × (svn_root abspath exists n dir (dirname dir) ≡ some root)
          × SvnRoot dir root
    unfolding svn_root up
    svn_root-some zero dir y h = absurd (omega arith)
    svn_root-some (suc n) dir y h =
        by_test (has_svn abspath exists (dirname dir)) refl
          (λ t l. svn_root-some n (dirname dir) t l)
      where
        here_only : (j : ℕ) → j ≤ 0 → has_svn abspath exists (up j dir) ≡ true
        here_only zero l = y
        here_only (suc j) l = absurd (omega arith)

        by_test :
            (b : Bool)
            → has_svn abspath exists (dirname dir) ≡ b
            → (has_svn abspath exists (dirname dir) ≡ true
                → length (dirname (dirname dir)) < n
                → (root : Text) × (svn_root abspath exists n (dirname dir) (dirname (dirname dir))
                    ≡ some root)
                  × SvnRoot (dirname dir) root)
            → (root : Text) × ((if b
                  then svn_root abspath exists n (dirname dir) (dirname (dirname dir))
                  else some dir)
                ≡ some root)
              × SvnRoot dir root
        by_test false e more =
            (dir, refl, record { levels = 0; reached = refl; inside = here_only; above = e })
        by_test true e more = elim (dirname-IsShrunk (dirname dir)) [
          | inl q ↦ let f = top (dirname dir) q in cc
          | inr l ↦ let (root, g, c) = more e (omega arith) in (root, g, SvnRoot-more dir root y c)
        ]

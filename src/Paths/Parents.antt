-- ===== src/Paths/Parents.antt =====
-- The directories above a path, which `os.path.dirname` gives one after the other.
use mit_6172_fa15_project.Base.{
  ℕ, zero, suc, [], ◌∷◌, ◌++◌, Text, if◌then◌else◌, ◌==◌, ◌≡◌, ◌⊎◌, inl, inr, refl, sym, ap, ◌∙◌,
  arith, All, Bool-cases, append-nil, append_assoc,
}
use mit_6172_fa15_project.Paths.{add_char, cut_last, strip_slashes, path_split, dirname, head_of}
use mit_6172_fa15_project.Paths.Shrinks.{cut_last-append}

abbrev pub IsSlashes : Text → Type 0
IsSlashes s = All (λ c. c ≡ b'/') s

-- The path `p` is that of the directory `d`, and goes on behind it with a slash, unless `d` consists
-- of slashes.
pub record IsBelow (d p : Text) : Type 0 where
  pub rest : Text
  pub path : p ≡ d ++ rest
  pub slash : IsSlashes d ⊎ ((name : Text) × (rest ≡ b'/' ∷ name))

-- A head that is not empty ends in a slash.
cut_last-end :
    (s : Text) → ((cut_last b'/' s).0 ≡ []) ⊎ ((h : Text) × ((cut_last b'/' s).0 ≡ h ++ b'/' ∷ []))
unfolding cut_last
cut_last-end [] = inl refl
cut_last-end (x ∷ s) = go (cut_last b'/' s) (cut_last-end s)
  where
    Ends : Text → Type 0
    Ends t = (t ≡ []) ⊎ ((h : Text) × (t ≡ h ++ b'/' ∷ []))

    go : (r : Text × Text) → Ends r.0 → Ends (add_char b'/' x r).0
    go ([], t) e = elim (Bool-cases (x == b'/')) [
      | inl y ↦ rw y (inr ([], let q : x ≡ b'/' = ground arith in ap (λ c. c ∷ []) q))
      | inr n ↦ rw n (inl refl)
    ]
    go (y ∷ hs, t) (inl e) = cc
    go (y ∷ hs, t) (inr (h, e)) = inr (x ∷ h, ap (λ u. x ∷ u) e)

strip_slashes-split : (s : Text) → (t : Text) × (s ≡ strip_slashes s ++ t) × IsSlashes t
unfolding strip_slashes
strip_slashes-split [] = ([], refl, tt)
strip_slashes-split (x ∷ s) = go (strip_slashes s) (strip_slashes-split s)
  where
    go :
        (rest : Text)
        → (t : Text) × (s ≡ rest ++ t) × IsSlashes t
        → (t : Text) × (x ∷ s
            ≡ elim rest [ [] ↦ if x == b'/' then [] else x ∷ [] | r ∷ rs ↦ x ∷ r ∷ rs ] ++ t)
          × IsSlashes t
    go [] (t, e, h) = elim (Bool-cases (x == b'/')) [
      | inl y ↦ rw y (x ∷ t, ap (λ u. x ∷ u) e, (ground arith, h))
      | inr n ↦ rw n (t, ap (λ u. x ∷ u) e, h)
    ]
    go (r ∷ rs) (t, e, h) = (t, ap (λ u. x ∷ u) e, h)

-- A slash at the end is stripped.
strip_slashes-append : (s : Text) → strip_slashes (s ++ b'/' ∷ []) ≡ strip_slashes s
unfolding strip_slashes
strip_slashes-append [] = refl
strip_slashes-append (x ∷ s) =
    ap (λ r. elim r [ [] ↦ if x == b'/' then [] else x ∷ [] | r ∷ rs ↦ x ∷ r ∷ rs ])
      (strip_slashes-append s)

first_slash : (t : Text) → IsSlashes t → (name : Text) × (t ++ b'/' ∷ [] ≡ b'/' ∷ name)
first_slash [] h = ([], refl)
first_slash (x ∷ t) h = (t ++ b'/' ∷ [], ap (λ c. c ∷ (t ++ b'/' ∷ [])) h.0)

IsSlashes-snoc : (t : Text) → IsSlashes t → IsSlashes (t ++ b'/' ∷ [])
IsSlashes-snoc [] h = (refl, tt)
IsSlashes-snoc (x ∷ t) h = (h.0, IsSlashes-snoc t h.1)

pub dirname-IsBelow : (p : Text) → IsBelow (dirname p) p
unfolding path_split
dirname-IsBelow p =
    cases (cut_last b'/' p).0 (cut_last b'/' p).1 (cut_last-append b'/' p) (cut_last-end p)
  where
    inside :
        (head tail t stripped : Text)
        → head ++ tail ≡ p
        → (name : Text) × (head ≡ stripped ++ b'/' ∷ name)
        → head ≡ stripped ++ t
        → IsSlashes t
        → IsBelow (head_of head stripped) p
    inside head tail t [] e n f h = record { rest = tail; path = sym e; slash = inl (rw f h) }
    inside head tail t (x ∷ s) e (name, g) f h = record {
      rest = b'/' ∷ (name ++ tail);
      path = sym e ∙ ap (λ u. u ++ tail) g ∙ append_assoc (x ∷ s) (b'/' ∷ name) tail;
      slash = inr (name ++ tail, refl);
    }

    cases :
        (head tail : Text)
        → head ++ tail ≡ p
        → (head ≡ []) ⊎ ((h : Text) × (head ≡ h ++ b'/' ∷ []))
        → IsBelow (head_of head (strip_slashes head)) p
    cases [] tail e o = record { rest = tail; path = sym e; slash = inl tt }
    cases (x ∷ head) tail e (inl n) = cc
    cases (x ∷ head) tail e (inr (h, g)) =
        let (t, f, k) = strip_slashes-split h in
        let (name, q) = first_slash t k in
        let whole : x ∷ head ≡ strip_slashes h ++ (t ++ b'/' ∷ []) =
          g ∙ ap (λ u. u ++ b'/' ∷ []) f ∙ append_assoc (strip_slashes h) t (b'/' ∷ []) in
        let same : strip_slashes (x ∷ head) ≡ strip_slashes h =
          ap strip_slashes g ∙ strip_slashes-append h in
        rw same (
          inside (x ∷ head) tail (t ++ b'/' ∷ []) (strip_slashes h) e
            (name, whole ∙ ap (λ u. strip_slashes h ++ u) q) whole (IsSlashes-snoc t k))

-- The directory `k` levels above a directory.
unfoldable pub up : ℕ → Text → Text
up zero dir = dir
up (suc k) dir = up k (dirname dir)

IsBelow-trans : (a b p : Text) → IsBelow a b → IsBelow b p → IsBelow a p
IsBelow-trans a b p x y = record {
  rest = x.rest ++ y.rest;
  path = y.path ∙ ap (λ u. u ++ y.rest) x.path ∙ append_assoc a x.rest y.rest;
  slash = elim x.slash [
    | inl s ↦ inl s
    | inr (name, e) ↦ inr (name ++ y.rest, ap (λ u. u ++ y.rest) e)
  ];
}

-- Every directory above that of a path has the path below it.
pub up-IsBelow : (k : ℕ) (dir p : Text) → IsBelow dir p → IsBelow (up k dir) p
unfolding up
up-IsBelow zero dir p h = h
up-IsBelow (suc k) dir p h =
    up-IsBelow k (dirname dir) p (IsBelow-trans (dirname dir) dir p (dirname-IsBelow dir) h)

pub up-prefix : (k : ℕ) (dir : Text) → (rest : Text) × (dir ≡ up k dir ++ rest)
unfolding up
up-prefix zero dir = ([], sym (append-nil dir))
up-prefix (suc k) dir =
    let (rest, e) = up-prefix k (dirname dir) in
    let b = dirname-IsBelow dir in
    (
      rest ++ b.rest,
      b.path ∙ ap (λ u. u ++ b.rest) e ∙ append_assoc (up k (dirname dir)) rest b.rest,
    )

-- ===== src/Paths/Shrinks.antt =====
-- `os.path.dirname` shortens a path or leaves it as it is.
use mit_6172_fa15_project.Base.{
  ℕ, ◌<◌, [], ◌∷◌, ◌++◌, Text, if◌then◌else◌, ◌==◌, length, ◌≡◌, ◌⊎◌, inl, inr, refl, sym, ap, ◌∙◌,
  arith, by_branches, append-nil, length-append,
}
use mit_6172_fa15_project.Paths.{add_char, cut_last, strip_slashes, path_split, dirname, head_of}

-- Both parts together are the text.
pub cut_last-append : (c : ℕ) (s : Text) → (cut_last c s).0 ++ (cut_last c s).1 ≡ s
unfolding cut_last
cut_last-append c [] = refl
cut_last-append c (x ∷ s) = go (cut_last c s) (cut_last-append c s)
  where
    go : (r : Text × Text) → r.0 ++ r.1 ≡ s → (add_char c x r).0 ++ (add_char c x r).1 ≡ x ∷ s
    go ([], t) e =
        by_branches (λ (q : Text × Text). q.0 ++ q.1 ≡ x ∷ s) (x == c) (λ h. ap (λ u. x ∷ u) e)
          (λ h. ap (λ u. x ∷ u) e)
    go (h ∷ hs, t) e = ap (λ u. x ∷ u) e

abbrev IsShrunk : Text → Text → Type 0
IsShrunk t s = (t ≡ s) ⊎ (length t < length s)

strip_slashes-IsShrunk : (s : Text) → IsShrunk (strip_slashes s) s
unfolding strip_slashes
strip_slashes-IsShrunk [] = inl refl
strip_slashes-IsShrunk (x ∷ s) = go (strip_slashes s) (strip_slashes-IsShrunk s)
  where
    go :
        (rest : Text)
        → IsShrunk rest s
        → IsShrunk
            (elim rest [ [] ↦ if x == b'/' then [] else x ∷ [] | r ∷ rs ↦ x ∷ r ∷ rs ])
            (x ∷ s)
    go [] (inl e) =
        by_branches (λ t. IsShrunk t (x ∷ s)) (x == b'/') (λ h. inr (ground arith))
          (λ h. inl (ap (λ u. x ∷ u) e))
    go [] (inr l) =
        by_branches (λ t. IsShrunk t (x ∷ s)) (x == b'/') (λ h. inr (ground arith))
          (λ h. inr (ground arith))
    go (r ∷ rs) (inl e) = inl (ap (λ u. x ∷ u) e)
    go (r ∷ rs) (inr l) = inr (ground arith)

head_of-IsShrunk :
    (head stripped : Text) → IsShrunk stripped head → IsShrunk (head_of head stripped) head
head_of-IsShrunk head [] h = inl refl
head_of-IsShrunk head (x ∷ s) h = h

pub dirname-IsShrunk : (p : Text) → (dirname p ≡ p) ⊎ (length (dirname p) < length p)
unfolding path_split
dirname-IsShrunk p =
    go (cut_last b'/' p).0 (cut_last b'/' p).1 (cut_last-append b'/' p)
      (head_of-IsShrunk (cut_last b'/' p).0 _ (strip_slashes-IsShrunk (cut_last b'/' p).0))
  where
    go :
        (head tail : Text)
        → head ++ tail ≡ p
        → IsShrunk (head_of head (strip_slashes head)) head
        → IsShrunk (head_of head (strip_slashes head)) p
    go head [] e (inl q) = inl (q ∙ sym (append-nil head) ∙ e)
    go head [] e (inr l) = inr (let n = ap length (sym (append-nil head) ∙ e) in omega arith)
    go head (x ∷ tail) e (inl q) = inr (
        let n = ap length e in
        let m = length-append head (x ∷ tail) in let k = ap length q in omega arith)
    go head (x ∷ tail) e (inr l) =
        inr (let n = ap length e in let m = length-append head (x ∷ tail) in omega arith)

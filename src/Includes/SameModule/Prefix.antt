-- ===== src/Includes/SameModule/Prefix.antt =====
-- What makes two files one module.
use mit_6172_fa15_project.Base.{
  ℕ, ◌-◌, Bool, true, false, [], ◌∷◌, ◌++◌, Text, if◌then◌else◌, take, length, length-append, ◌≡◌,
  ◌≢◌, ◌↔◌, refl, sym, ap, ◌∙◌, arith, Bool-cases, inl, inr, ◌⊎◌,
}
use mathlib.Core.Bool.{false≢true}
use mit_6172_fa15_project.Str.{codes, ends_with}
use mit_6172_fa15_project.Str.Laws.{ends_with-append, ends_with_front}
use mit_6172_fa15_project.Includes.SameModule.{
  drop_end, module_of_cc, module_of_h, files_belong_to_same_module,
}

take-length-append : (q p : Text) → take (length q) (q ++ p) ≡ q
take-length-append [] p = refl
take-length-append (x ∷ q) p = ap (◌∷◌ x) (take-length-append q p)

pub drop_end-append : (q : Text) (x : ℕ) (p : Text) → drop_end (length (x ∷ p)) (q ++ x ∷ p) ≡ q
unfolding drop_end
drop_end-append q x p =
    let e : length (q ++ x ∷ p) - length (x ∷ p) ≡ length q =
      omega (arith, length-append q (x ∷ p)) in
    rw e (ground (arith, take-length-append q (x ∷ p)))

-- The two suffixes that the function asks for.
abbrev pub Suffixes : Text → Text → Type 0
Suffixes filename_cc filename_h =
    (ends_with filename_cc (codes ".c") ≡ true) × (ends_with filename_h (codes ".h") ≡ true)

abbrev last_test : Text → Text → Bool × Text
last_test filename_cc filename_h =
    if ends_with (module_of_cc filename_cc) (module_of_h filename_h)
    then (true, drop_end (length (module_of_h filename_h)) (module_of_cc filename_cc))
    else (false, [])

module _ (filename_cc filename_h : Text) where
  -- With the two suffixes the answer is that of the last test.
  answer :
      Suffixes filename_cc filename_h
      → files_belong_to_same_module filename_cc filename_h ≡ last_test filename_cc filename_h
  unfolding files_belong_to_same_module
  answer (a, b) = rw (a, b)

  Suffixes-needed :
      (p : Text)
      → files_belong_to_same_module filename_cc filename_h ≡ (true, p)
      → Suffixes filename_cc filename_h
  unfolding files_belong_to_same_module
  Suffixes-needed p h = (ground arith, ground arith)

-- For a header whose name is not all suffix: the files belong to one module, with the prefix `p`,
-- exactly when they end in `.c` and `.h` and `p` completes what is left of the header's name to
-- what is left of the other's.
pub same_module_iff :
    (filename_cc filename_h p : Text)
    → module_of_h filename_h ≢ []
    → (files_belong_to_same_module filename_cc filename_h ≡ (true, p))
      ↔ (Suffixes filename_cc filename_h × (p ++ module_of_h filename_h ≡ module_of_cc filename_cc))
same_module_iff cc_ h_ p ne = (there_way, back)
  where
    cut_off : (q m : Text) → m ≢ [] → drop_end (length m) (q ++ m) ≡ q
    cut_off q [] n = absurd (n refl)
    cut_off q (x ∷ m) n = drop_end-append q x m

    there_way :
        files_belong_to_same_module cc_ h_ ≡ (true, p)
        → Suffixes cc_ h_ × (p ++ module_of_h h_ ≡ module_of_cc cc_)
    there_way h = (given, split (Bool-cases (ends_with (module_of_cc cc_) (module_of_h h_))))
      where
        given : Suffixes cc_ h_
        given = Suffixes-needed cc_ h_ p h

        asked : last_test cc_ h_ ≡ (true, p)
        asked = sym (answer cc_ h_ given) ∙ h

        split :
            (ends_with (module_of_cc cc_) (module_of_h h_) ≡ true)
              ⊎ (ends_with (module_of_cc cc_) (module_of_h h_) ≡ false)
            → p ++ module_of_h h_ ≡ module_of_cc cc_
        split (inr n) = absurd (false≢true (ap (λ (r : Bool × Text). r.0) (rw n at asked)))
        split (inl y) =
            let (q, e) = ends_with_front (module_of_cc cc_) (module_of_h h_) y in
            let r = ap (λ (r : Bool × Text). r.1) (rw y at asked) in
            let same : q ≡ p =
              sym (cut_off q (module_of_h h_) ne)
              ∙ ap (drop_end (length (module_of_h h_))) (sym e)
              ∙ r in
            ap (λ x. x ++ module_of_h h_) (sym same) ∙ sym e

    back :
        Suffixes cc_ h_ × (p ++ module_of_h h_ ≡ module_of_cc cc_)
        → files_belong_to_same_module cc_ h_ ≡ (true, p)
    back (s, e) =
        answer cc_ h_ s
        ∙ rw (← e, ends_with-append p (module_of_h h_), cut_off p (module_of_h h_) ne) refl

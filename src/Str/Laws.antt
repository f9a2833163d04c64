-- ===== src/Str/Laws.antt =====
-- Laws of the string methods.
use mit_6172_fa15_project.Base.{
  ℕ, zero, suc, ◌+◌, ◌-◌, ◌*◌, ◌/◌, ◌%◌, ◌<◌, ltb, by_branches, reverse, sym, ◌∙◌, ap, ◌++◌, Bool,
  true, false, [], ◌∷◌, ◌≡◌, refl, ◌↔◌, arith, Text, Option, none, some,
}
use mathlib.Core.List.{reverse-append, reverse-reverse}
use mit_6172_fa15_project.Str.{starts_with, ends_with, text_eq, decimal, decimal_from}

pub text_eq_iff : (a b : Text) → (text_eq a b ≡ true) ↔ (a ≡ b)
unfolding text_eq
text_eq_iff (x ∷ a) (y ∷ b) = ground (arith, text_eq_iff a b)
text_eq_iff _ _ = ground arith

pub text_eq_refl : (a : Text) → text_eq a a ≡ true
text_eq_refl a = (text_eq_iff a a).1 refl

-- The key of a dict that may be None.
unfoldable pub key_eq : Option Text → Option Text → Bool
key_eq none none = true
key_eq (some a) (some b) = text_eq a b
key_eq _ _ = false

pub key_eq_iff : (a b : Option Text) → (key_eq a b ≡ true) ↔ (a ≡ b)
unfolding key_eq
key_eq_iff (some a) (some b) = ground (arith, text_eq_iff a b)
key_eq_iff _ _ = ground arith

pub starts_with-append : (p t : Text) → starts_with (p ++ t) p ≡ true
unfolding starts_with
starts_with-append [] t = refl
starts_with-append (x ∷ p) t = ground (arith, starts_with-append p t)

pub starts_with_rest : (s p : Text) → starts_with s p ≡ true → (t : Text) × (s ≡ p ++ t)
unfolding starts_with
starts_with_rest s [] h = (s, refl)
starts_with_rest [] (y ∷ p) h = cc
starts_with_rest (x ∷ s) (y ∷ p) h =
    let (t, e) = starts_with_rest s p (ground arith) in let e' : x ≡ y = ground arith in (t, cc)

pub ends_with-append : (q p : Text) → ends_with (q ++ p) p ≡ true
unfolding ends_with
ends_with-append q p = rw reverse-append (starts_with-append (reverse p) (reverse q))

pub ends_with_front : (s p : Text) → ends_with s p ≡ true → (q : Text) × (s ≡ q ++ p)
unfolding ends_with
ends_with_front s p h =
    let (t, e) = starts_with_rest (reverse s) (reverse p) h in
    (
      reverse t,
      sym (reverse-reverse s)
          ∙ ap reverse e
          ∙ (reverse-append (reverse p) t ∙ ap (◌++◌ (reverse t)) (reverse-reverse p)),
    )

-- The number that a text of digits stands for, behind a number read before.
unfoldable pub read_digits : ℕ → Text → ℕ
read_digits n [] = n
read_digits n (c ∷ s) = read_digits (n * 10 + (c - b'0')) s

read_digits-decimal_from :
    (f n : ℕ) (out : Text) → n < f → read_digits 0 (decimal_from f n out) ≡ read_digits n out
unfolding read_digits decimal_from
read_digits-decimal_from zero n out h = absurd (omega arith)
read_digits-decimal_from (suc f) n out h =
    by_branches (λ t. read_digits 0 t ≡ read_digits n out) (ltb n 10)
      (λ small. ap (λ k. read_digits k out) (ground arith))
      (λ large.
        read_digits-decimal_from f (n / 10) ((n % 10 + b'0') ∷ out) (ground arith)
        ∙ ap (λ k. read_digits k out) (omega arith))

-- The digits of a number stand for it: its rounds are enough.
pub read_digits-decimal : (n : ℕ) → read_digits 0 (decimal n) ≡ n
unfolding decimal read_digits
read_digits-decimal n = read_digits-decimal_from (suc n) n [] (omega arith)

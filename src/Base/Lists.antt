-- ===== src/Base/Lists.antt =====
-- Lists measured and indexed by native numbers, under the library's names, and membership.
use Prim.Native.Nat.{ℕ, zero, suc, ◌+◌}
use mathlib.Core.Path.{◌≡◌, refl, sym, ap, ◌∙◌, subst}
use mathlib.Core.Logic.{◌⊎◌, inl, inr}
use mathlib.Core.Bool.{Bool, true, false}
use mathlib.Core.List.{List, [], ◌∷◌, ◌++◌, map}
use mathlib.Core.Option.{Option, none, some}
use native.Mathlib.Omega.{arith}
use mit_6172_fa15_project.Base.Tests.{◌==◌, if◌then◌else◌, Bool-cases}

-- A text, as the list of its code points.
abbrev pub Text : Type 0
Text = List ℕ

unfoldable pub elem : ℕ → Text → Bool
elem c [] = false
elem c (x ∷ xs) = if c == x then true else elem c xs

module _ {ℓ} {A : Type ℓ} where
  abbrev pub length : List A → ℕ
  length [] = 0
  length (x ∷ xs) = suc (length xs)

  abbrev pub get_elem? : List A → ℕ → Option A
  get_elem? [] i = none
  get_elem? (x ∷ xs) zero = some x
  get_elem? (x ∷ xs) (suc i) = get_elem? xs i

  abbrev pub take : ℕ → List A → List A
  take zero xs = []
  take (suc n) [] = []
  take (suc n) (x ∷ xs) = x ∷ take n xs

  abbrev pub drop : ℕ → List A → List A
  drop zero xs = xs
  drop (suc n) [] = []
  drop (suc n) (x ∷ xs) = drop n xs

  unfoldable pub keep : (A → Bool) → List A → List A
  keep p [] = []
  keep p (x ∷ xs) = let rest = keep p xs in if p x then x ∷ rest else rest

  abbrev pub is_some : Option A → Bool
  is_some none = false
  is_some (some x) = true

  abbrev pub head? : List A → Option A
  head? [] = none
  head? (x ∷ xs) = some x

  unfoldable pub any : (A → Bool) → List A → Bool
  any p [] = false
  any p (x ∷ xs) = if p x then true else any p xs

  abbrev pub All {κ} : (A → Type κ) → List A → Type κ
  All P [] = Unit
  All P (x ∷ xs) = P x × All P xs

  pub data In (a : A) : List A → Type ℓ where
    here : {x : A} {xs : List A} → a ≡ x → In a (x ∷ xs)
    there : {x : A} {xs : List A} → In a xs → In a (x ∷ xs)

module _ {ℓ} {A : Type ℓ} where
  pub some-ne-none : (x : A) → ¬ (some x ≡ none)
  some-ne-none x e = cc

  pub length-append : (xs ys : List A) → length (xs ++ ys) ≡ length xs + length ys
  length-append [] ys = omega arith
  length-append (x ∷ xs) ys = omega (arith, length-append xs ys)

  pub not-In-nil : {a : A} → ¬ (In a [])
  not-In-nil m = elim m [ ]

  pub In-singleton : {a b : A} → In a (b ∷ []) → b ≡ a
  In-singleton (here e) = sym e
  In-singleton (there h) = elim h [ ]

  pub In-cons_cases : {a x : A} {xs : List A} → In a (x ∷ xs) → (a ≡ x) ⊎ In a xs
  In-cons_cases (here e) = inl e
  In-cons_cases (there m) = inr m

  pub In-append_left : {a : A} {xs : List A} (ys : List A) → In a xs → In a (xs ++ ys)
  In-append_left ys (here e) = here e
  In-append_left ys (there m) = there (In-append_left ys m)

  pub In-append_right : {a : A} (xs : List A) {ys : List A} → In a ys → In a (xs ++ ys)
  In-append_right [] m = m
  In-append_right (x ∷ xs) m = there (In-append_right xs m)

  pub In-append_cases : {a : A} (xs : List A) {ys : List A} → In a (xs ++ ys) → In a xs ⊎ In a ys
  In-append_cases [] m = inr m
  In-append_cases (x ∷ xs) (here e) = inl (here e)
  In-append_cases (x ∷ xs) (there m) = elim (In-append_cases xs m) [
    | inl l ↦ inl (there l)
    | inr r ↦ inr r
  ]

  pub In-keep : {a : A} (p : A → Bool) (xs : List A) → In a xs → p a ≡ true → In a (keep p xs)
  unfolding keep
  In-keep p [] m t = elim m [ ]
  In-keep p (x ∷ xs) (here e) t = rw (← e, t) (here refl)
  In-keep p (x ∷ xs) (there m) t = elim (Bool-cases (p x)) [
    | inl y ↦ rw y (there (In-keep p xs m t))
    | inr n ↦ rw n (In-keep p xs m t)
  ]

  pub In-of_keep : {a : A} (p : A → Bool) (xs : List A) → In a (keep p xs) → In a xs × (p a ≡ true)
  unfolding keep
  In-of_keep p [] m = elim m [ ]
  In-of_keep {a} p (x ∷ xs) m =
      cases (Bool-cases (p x)) (λ h. let (i, t) = In-of_keep p xs h in (there i, t))
    where
      Goal : Type ℓ
      Goal = In a (x ∷ xs) × (p a ≡ true)

      first : p x ≡ true → (In a (keep p xs) → Goal) → In a (x ∷ keep p xs) → Goal
      first y later (here e) = (here e, rw e y)
      first y later (there h) = later h

      cases : (p x ≡ true) ⊎ (p x ≡ false) → (In a (keep p xs) → Goal) → Goal
      cases (inl y) later = first y later (rw y at m)
      cases (inr n) later = later (rw n at m)

module _ {ℓ κ} {A : Type ℓ} {B : Type κ} where
  pub In-map : (f : A → B) {a : A} {b : B} {xs : List A} → b ≡ f a → In a xs → In b (map f xs)
  In-map f e (here h) = here (e ∙ ap f h)
  In-map f e (there m) = there (In-map f e m)

  pub In-of_map :
      (f : A → B) (xs : List A) {b : B} → In b (map f xs) → (a : A) × In a xs × (b ≡ f a)
  In-of_map f [] m = elim m [ ]
  In-of_map f (x ∷ xs) (here e) = (x, here refl, e)
  In-of_map f (x ∷ xs) (there m) = let (a, i, h) = In-of_map f xs m in (a, there i, h)

  unfoldable pub flat_map : (A → List B) → List A → List B
  flat_map f [] = []
  flat_map f (x ∷ xs) = f x ++ flat_map f xs

  pub In-flat_map :
      {a : A} {b : B} (f : A → List B) (xs : List A) → In a xs → In b (f a) → In b (flat_map f xs)
  unfolding flat_map
  In-flat_map f [] m h = elim m [ ]
  In-flat_map {b = b} f (x ∷ xs) (here e) h =
      In-append_left (flat_map f xs) (subst (λ z. In b (f z)) e h)
  In-flat_map f (x ∷ xs) (there m) h = In-append_right (f x) (In-flat_map f xs m h)

  pub In-of_flat_map :
      {b : B} (f : A → List B) (xs : List A) → In b (flat_map f xs) → (a : A) × In a xs × In b (f a)
  unfolding flat_map
  In-of_flat_map f [] m = elim m [ ]
  In-of_flat_map f (x ∷ xs) m = elim (In-append_cases (f x) m) [
    | inl l ↦ (x, here refl, l)
    | inr r ↦ let (a, i, h) = In-of_flat_map f xs r in (a, there i, h)
  ]

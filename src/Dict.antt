-- ===== src/Dict.antt =====
-- A dict of Python whose keys are texts: an association list in the order in which the keys were
-- added.
use mit_6172_fa15_project.Base.{
  Bool, List, [], ◌∷◌, Option, none, some, Text, if◌then◌else◌, is_some, ◌≡◌, refl, arith,
}
use mit_6172_fa15_project.Str.{text_eq}
use mit_6172_fa15_project.Str.Laws.{text_eq_iff}

abbrev pub Dict {ℓ} : Type ℓ → Type ℓ
Dict V = List (Text × V)

module _ {ℓ} {V : Type ℓ} where
  -- d.get(k)
  unfoldable pub get : Text → Dict V → Option V
  unfolding text_eq
  get k [] = none
  get k ((j, v) ∷ d) = if text_eq j k then some v else get k d

  -- k in d
  abbrev pub has : Text → Dict V → Bool
  has k d = is_some (get k d)

  -- d[k] = v
  unfoldable pub put : Text → V → Dict V → Dict V
  unfolding text_eq
  put k v [] = (k, v) ∷ []
  put k v ((j, w) ∷ d) = if text_eq j k then (j, v) ∷ d else (j, w) ∷ put k v d

  pub get-put :
      (k j : Text) (v : V) (d : Dict V)
      → get k (put j v d) ≡ (if text_eq j k then some v else get k d)
  unfolding get put
  get-put k j v [] = refl
  get-put k j v ((i, w) ∷ d) =
      ground (arith, text_eq_iff i j, text_eq_iff i k, text_eq_iff j k, get-put k j v d)

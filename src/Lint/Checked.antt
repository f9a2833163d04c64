-- ===== src/Lint/Checked.antt =====
-- What a check does: it reports, and returns a value or does not return.
use mit_6172_fa15_project.Base.{
  Bool, true, false, All, ◌≡◌, ◌↔◌, ◌⊎◌, inl, inr, refl, List, [], ◌∷◌, ◌++◌, Option, none, some,
  if◌then◌else◌,
}
use mit_6172_fa15_project.Lint.{Event}

-- The events of some code, and what it returns; `none` where it raises an exception or
-- does not end.
abbrev pub Checked : Type 0 → Type 0
Checked A = List Event × Option A

abbrev pub pass : {A : Type 0} → List Event → A → Checked A
pass es a = (es, some a)

unfoldable pub and_then : {A B : Type 0} → Checked A → (A → Checked B) → Checked B
and_then (es, none) f = (es, none)
and_then (es, some a) f = (es ++ (f a).0, (f a).1)

-- A check that returns nothing and raises no exception, in front of the rest.
abbrev pub events_then : {A : Type 0} → List Event → Checked A → Checked A
events_then es (es', o) = (es ++ es', o)

-- A check that changes its state; `none` is an IndexError.
abbrev pub with_state : {A : Type 0} → Option (A × List Event) → Checked A
with_state none = ([], none)
with_state (some (a, es)) = (es, some a)

-- A call of `error` behind a test.
abbrev pub event_if : Bool → Event → List Event
event_if b e = if b then e ∷ [] else []

-- Two checks in a row return nothing exactly where one of them does not.
pub and_then-none :
    {A B : Type 0} (c : Checked A) (d : Checked B)
    → ((and_then c (λ _. d)).1 ≡ none) ↔ ((c.1 ≡ none) ⊎ (d.1 ≡ none))
unfolding and_then
and_then-none (es, none) d = (λ e. inl refl, λ s. refl)
and_then-none (es, some a) d = (inr, λ s. elim s [ inl e ↦ cc | inr e ↦ e ])

module _ {κ} (P : Event → Type κ) where
  pub All-append : (xs ys : List Event) → All P xs → All P ys → All P (xs ++ ys)
  All-append [] ys h k = k
  All-append (x ∷ xs) ys h k = (h.0, All-append xs ys h.1 k)

  pub All-event_if : (b : Bool) (e : Event) → P e → All P (event_if b e)
  All-event_if true e h = (h, tt)
  All-event_if false e h = tt

  pub All-and_then :
      {A B : Type 0} (c : Checked A) (f : A → Checked B)
      → All P c.0
      → ((a : A) → All P (f a).0)
      → All P (and_then c f).0
  unfolding and_then
  All-and_then (es, none) f h k = h
  All-and_then (es, some a) f h k = All-append es (f a).0 h (k a)

  pub All-events_then :
      {A : Type 0} (es : List Event) (c : Checked A)
      → All P es
      → All P c.0
      → All P (events_then es c).0
  All-events_then es (es', o) h k = All-append es es' h k

-- ===== src/FunctionSize/Level.antt =====
-- The confidence of a report on a function's size.
use native.Mathlib.Nat.{pow-suc, mul_comm}
use mit_6172_fa15_project.Base.{
  ℕ, zero, suc, ◌*◌, ◌/◌, ◌^◌, ◌≤◌, ◌<◌, [], ◌∷◌, Text, ltb, ◌≡◌, ◌∙◌, refl, arith, ◌⊎◌, inl, inr,
  Bool-cases, ltb→lt, ltb→ge, lt→ltb,
}
use mit_6172_fa15_project.Str.{codes}
use mit_6172_fa15_project.Lint.{error}
use mit_6172_fa15_project.FunctionSize.{
  FunctionState, base_trigger, halvings, at_most_five, error_level, size_message, check,
}

pow_suc : (k : ℕ) → 2 ^ suc k ≡ 2 * 2 ^ k
pow_suc k = pow-suc 2 k ∙ mul_comm (2 ^ k) 2

halvings_bounds : (f n : ℕ) → 0 < n → n ≤ f → (2 ^ halvings f n ≤ n) × (n < 2 ^ suc (halvings f n))
unfolding halvings
halvings_bounds zero n p h = absurd (omega arith)
halvings_bounds (suc f) n p h = elim (Bool-cases (ltb n 2)) [
  | inl y ↦ rw y (omega (arith, ltb→lt n 2 y), omega (arith, ltb→lt n 2 y))
  | inr m ↦ rw m (
      double (ltb→ge n 2 m) (halvings_bounds f (n / 2) (omega (arith, ltb→ge n 2 m)) (omega arith)))
]
  where
    double :
        2 ≤ n
        → (2 ^ halvings f (n / 2) ≤ n / 2) × (n / 2 < 2 ^ suc (halvings f (n / 2)))
        → (2 ^ suc (halvings f (n / 2)) ≤ n) × (n < 2 ^ suc (suc (halvings f (n / 2))))
    double q (a, b) = (
      omega (arith, pow_suc (halvings f (n / 2))),
      omega (arith, pow_suc (suc (halvings f (n / 2)))),
    )

-- The trigger lies at or above the base, so the quotient of a reported size is at least 1.
abbrev quotient : FunctionState → ℕ
quotient s = s.lines_in_function / base_trigger s.current_function

base_trigger_pos : (t : Text) → 0 < base_trigger t
unfolding base_trigger
base_trigger_pos t = ground arith

pow_pos : (k : ℕ) → 0 < 2 ^ k
pow_pos zero = omega arith
pow_pos (suc k) = omega (arith, pow_suc k, pow_pos k)

pow_mono : (a b : ℕ) → a ≤ b → 2 ^ a ≤ 2 ^ b
pow_mono a zero h = ground arith
pow_mono zero (suc b) h = omega (arith, pow_pos (suc b))
pow_mono (suc a) (suc b) h = omega (arith, pow_suc a, pow_suc b, pow_mono a b (omega arith))

-- A size above `base * 2 ^ v` has at least `v` halvings of its quotient.
halvings-ge : (v n : ℕ) → 0 < n → 2 ^ v ≤ n → v ≤ halvings n n
halvings-ge v n p h = elim (Bool-cases (ltb (halvings n n) v)) [
  | inl y ↦ absurd (
      omega (
        arith,
        (halvings_bounds n n p (omega arith)).1,
        pow_mono (suc (halvings n n)) v (ltb→lt (halvings n n) v y),
      ))
  | inr m ↦ ltb→ge (halvings n n) v m
]

quotient-ge : (lines base q : ℕ) → 0 < base → base * q ≤ lines → q ≤ lines / base
quotient-ge lines base q b h = grind arith

-- What a report says of the size, with the base of the code, 250 lines or 400 in a test, in place of
-- the 50 that its comment counts from: `level` is 5, or the quotient of the size and the base lies
-- between `2 ^ level` and its double.
pub record IsLevel (s : FunctionState) (level : ℕ) : Type 0 where
  pub at_most : level ≤ 5
  pub power_below : 2 ^ level ≤ quotient s
  pub power_above : (level ≡ 5) ⊎ (quotient s < 2 ^ suc level)

-- A body of more lines than its trigger gets one report. Its confidence is a level as stated, and
-- at verbosities up to 5 it is at least the verbosity, so that the report is not filtered for that.
pub check_reports :
    (verbosity : ℕ) (s : FunctionState) (linenum : ℕ)
    → base_trigger s.current_function * 2 ^ verbosity < s.lines_in_function
    → (level : ℕ) × (check verbosity s linenum
        ≡ error linenum
            (codes "readability/fn_size")
            level
            (size_message s (base_trigger s.current_function * 2 ^ verbosity))
          ∷ [])
      × IsLevel s level
      × ((5 < verbosity) ⊎ (verbosity ≤ level))
unfolding check error_level
check_reports verbosity s linenum h = (
  at_most_five (halvings q q),
  rw (lt→ltb _ _ h) refl,
  record { at_most = five; power_below = below; power_above = above },
  reaches,
)
  where
    q : ℕ
    q = quotient s

    reached : 2 ^ verbosity ≤ q
    reached =
        quotient-ge s.lines_in_function (base_trigger s.current_function) (2 ^ verbosity)
          (base_trigger_pos s.current_function) (omega arith)

    pos : 0 < q
    pos = omega (arith, reached, pow_pos verbosity)

    bounds : (2 ^ halvings q q ≤ q) × (q < 2 ^ suc (halvings q q))
    bounds = halvings_bounds q q pos (omega arith)

    five : at_most_five (halvings q q) ≤ 5
    five = ground arith

    capped : at_most_five (halvings q q) ≤ halvings q q
    capped = ground arith

    below : 2 ^ at_most_five (halvings q q) ≤ q
    below = omega (arith, bounds.0, pow_mono (at_most_five (halvings q q)) (halvings q q) capped)

    above : (at_most_five (halvings q q) ≡ 5) ⊎ (q < 2 ^ suc (at_most_five (halvings q q)))
    above = elim (Bool-cases (ltb 5 (halvings q q))) [
      | inl y ↦ inl (rw y refl)
      | inr n ↦ inr (rw n bounds.1)
    ]

    enough : verbosity ≤ 5 → verbosity ≤ at_most_five (halvings q q)
    enough v = ground (arith, halvings-ge verbosity q pos reached)

    reaches : (5 < verbosity) ⊎ (verbosity ≤ at_most_five (halvings q q))
    reaches = elim (Bool-cases (ltb 5 verbosity)) [
      | inl y ↦ inl (ltb→lt 5 verbosity y)
      | inr n ↦ inr (enough (ltb→ge 5 verbosity n))
    ]

-- A body within its trigger gets none.
pub check_silent :
    (verbosity : ℕ) (s : FunctionState) (linenum : ℕ)
    → s.lines_in_function ≤ base_trigger s.current_function * 2 ^ verbosity
    → check verbosity s linenum ≡ []
unfolding check
check_silent verbosity s linenum h = ground arith

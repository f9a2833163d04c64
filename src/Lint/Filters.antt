-- ===== src/Lint/Filters.antt =====
-- The category filters: `SetFilters` (clint.py:545) and the loop of `_ShouldPrintError`
-- (clint.py:803).
pub mod Flag
use mit_6172_fa15_project.Base.{
  ◌↔◌, Bool, true, false, ◌||◌, List, [], ◌∷◌, ◌++◌, Option, none, some, Text, ◌==◌, ◌≡◌, refl,
  if◌then◌else◌, All, arith, ap, ◌∙◌, map, keep,
}
use mit_6172_fa15_project.Str.{starts_with, strip_bytes, split}
use mit_6172_fa15_project.Lint.{CppLintState, default_filters}

-- filt.startswith('+') or filt.startswith('-')
unfoldable pub is_signed : Text → Bool
is_signed [] = false
is_signed (c ∷ pattern) = c == b'+' || c == b'-'

-- if clean_filt:
abbrev pub nonempty : Text → Bool
nonempty [] = false
nonempty _ = true

-- The filters of a flag: split at commas, stripped, the empty ones dropped.
unfoldable pub clean_filters : Text → List Text
clean_filters filters = keep nonempty (map strip_bytes (split b',' filters))

all_signed : List Text → Bool
all_signed [] = true
all_signed (f ∷ fs) = if is_signed f then all_signed fs else false

-- The state that the call leaves, and whether it returned: `false` is the ValueError.
unfoldable pub set_filters : Text → CppLintState → CppLintState × Bool
unfolding all_signed
set_filters filters s =
    let fs = default_filters ++ clean_filters filters in (record s { filters = fs }, all_signed fs)

-- One round of the loop per filter. `none` is the failed assertion on a filter with no sign.
unfoldable pub is_filtered : Text → Bool → List Text → Option Bool
is_filtered category acc [] = some acc
is_filtered category acc ([] ∷ fs) = none
is_filtered category acc ((c ∷ pattern) ∷ fs) =
    let hit = starts_with category pattern in
    let rest = is_filtered category (if hit then c == b'-' else acc) fs in
    if c == b'-' then rest else if c == b'+' then rest else none

abbrev pub IsSigned : Text → Type 0
IsSigned f = is_signed f ≡ true

-- Whether a filter speaks of the category, and what it then says: `true` is "do not print".
abbrev pub applies : Text → Text → Bool
applies category [] = false
applies category (c ∷ pattern) = starts_with category pattern

abbrev pub hides : Text → Bool
hides [] = false
hides (c ∷ pattern) = c == b'-'

-- The last filter of the list that speaks of the category decides.
unfoldable pub last_verdict : Text → Bool → List Text → Bool
last_verdict category default [] = default
last_verdict category default (f ∷ fs) =
    last_verdict category (if applies category f then hides f else default) fs

pub is_filtered-last_verdict :
    (category : Text) (acc : Bool) (fs : List Text)
    → All IsSigned fs
    → is_filtered category acc fs ≡ some (last_verdict category acc fs)
unfolding is_filtered last_verdict is_signed
is_filtered-last_verdict category acc [] h = refl
is_filtered-last_verdict category acc ([] ∷ fs) h = cc (h.0)
is_filtered-last_verdict category acc ((c ∷ p) ∷ fs) h = ground (
  arith,
  is_filtered-last_verdict category (if starts_with category p then c == b'-' else acc) fs,
)

last_verdict-append :
    (category : Text) (b : Bool) (fs gs : List Text)
    → last_verdict category b (fs ++ gs) ≡ last_verdict category (last_verdict category b fs) gs
unfolding last_verdict
last_verdict-append category b [] gs = refl
last_verdict-append category b (f ∷ fs) gs =
    last_verdict-append category (if applies category f then hides f else b) fs gs

silent :
    (category : Text) (b : Bool) (fs : List Text)
    → All (λ f. applies category f ≡ false) fs
    → last_verdict category b fs ≡ b
unfolding last_verdict
silent category b [] h = refl
silent category b (f ∷ fs) h = rw h.0 (silent category b fs h.1)

-- With signed filters the loop asserts nothing, and a category is filtered exactly as the last
-- filter that is a prefix of it says, whatever stands before that one.
pub is_filtered_last :
    (category : Text) (acc : Bool) (before : List Text) (f : Text) (after : List Text)
    → All IsSigned (before ++ f ∷ after)
    → applies category f ≡ true
    → All (λ g. applies category g ≡ false) after
    → is_filtered category acc (before ++ f ∷ after) ≡ some (hides f)
unfolding last_verdict
is_filtered_last category acc before f after signed hit quiet =
    is_filtered-last_verdict category acc (before ++ f ∷ after) signed
    ∙ ap some (
        last_verdict-append category acc before (f ∷ after)
        ∙ rw hit (silent category (hides f) after quiet))

all_signed-IsSigned : (fs : List Text) → all_signed fs ≡ true → All IsSigned fs
unfolding all_signed
all_signed-IsSigned [] h = tt
all_signed-IsSigned (f ∷ fs) h = (ground arith, all_signed-IsSigned fs (ground arith))

IsSigned-all_signed : (fs : List Text) → All IsSigned fs → all_signed fs ≡ true
unfolding all_signed
IsSigned-all_signed [] h = refl
IsSigned-all_signed (f ∷ fs) h = rw h.0 (IsSigned-all_signed fs h.1)

pub set_filters-IsSigned :
    (filters : Text) (s : CppLintState)
    → (set_filters filters s).1 ≡ true
    → All IsSigned (set_filters filters s).0.filters
unfolding set_filters
set_filters-IsSigned filters s h = all_signed-IsSigned (default_filters ++ clean_filters filters) h

-- After `SetFilters` has returned, no category fails the assertion of the loop.
pub is_filtered-set_filters :
    (filters category : Text) (s : CppLintState)
    → (set_filters filters s).1 ≡ true
    → (b : Bool) × (is_filtered category false (set_filters filters s).0.filters ≡ some b)
unfolding set_filters
is_filtered-set_filters filters category s h = (
  last_verdict category false (default_filters ++ clean_filters filters),
  is_filtered-last_verdict category false (default_filters ++ clean_filters filters)
      (all_signed-IsSigned (default_filters ++ clean_filters filters) h),
)

All-of_append : (xs ys : List Text) → All IsSigned (xs ++ ys) → All IsSigned ys
All-of_append [] ys h = h
All-of_append (x ∷ xs) ys h = All-of_append xs ys h.1

-- `SetFilters` returns exactly when every filter of the flag has a sign.
pub set_filters_returns_iff :
    (filters : Text) (s : CppLintState)
    → ((set_filters filters s).1 ≡ true) ↔ All IsSigned (clean_filters filters)
unfolding set_filters default_filters is_signed
set_filters_returns_iff filters s = (
  λ h.
      All-of_append default_filters (clean_filters filters)
        (all_signed-IsSigned (default_filters ++ clean_filters filters) h),
  λ h. IsSigned-all_signed (default_filters ++ clean_filters filters) (refl, h),
)

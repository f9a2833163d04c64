-- ===== src/Lint/Counts.antt =====
-- The error statistic: `IncrementErrorCount` (clint.py:575) and `PrintErrorCounts` (clint.py:585).
use mit_6172_fa15_project.Base.{
  ℕ, ◌+◌, Bool, false, List, [], ◌∷◌, ◌++◌, Option, none, some, Text, ap, ◌∙◌, if◌then◌else◌, ◌≡◌,
  refl, arith, ltb, length, ◌⊎◌, inl, inr,
}
use mit_6172_fa15_project.Str.{codes, text_eq, split, decimal}
use mit_6172_fa15_project.Str.Laws.{text_eq_iff}
use mit_6172_fa15_project.Lint.{CppLintState, Counting, total, toplevel, detailed, unset}

-- if category not in d: d[category] = 0, then d[category] += 1
bump : Text → List (Text × ℕ) → List (Text × ℕ)
bump k [] = (k, 1) ∷ []
bump k ((j, n) ∷ d) = if text_eq j k then (j, n + 1) ∷ d else (j, n) ∷ bump k d

-- l[0]
abbrev first : List Text → Text
first [] = []
first (x ∷ _) = x

-- The key under which an error of a category is counted; `none` where nothing is counted by key.
unfoldable pub count_key : Counting → Text → Option Text
count_key total category = none
count_key unset category = none
count_key toplevel category = some (first (split b'/' category))
count_key detailed category = some category

count_by_key : Option Text → List (Text × ℕ) → List (Text × ℕ)
count_by_key none d = d
count_by_key (some k) d = bump k d

-- IncrementErrorCount
unfoldable pub increment_error_count : Text → CppLintState → CppLintState
unfolding count_by_key bump count_key text_eq
increment_error_count category s = record s {
  error_count = s.error_count + 1;
  errors_by_category = count_by_key (count_key s.counting category) s.errors_by_category;
}

-- The count of a key, 0 where the dict has no such key.
unfoldable pub count_of : Text → List (Text × ℕ) → ℕ
count_of k [] = 0
count_of k ((j, n) ∷ d) = if text_eq j k then n else count_of k d

unfoldable pub sum_counts : List (Text × ℕ) → ℕ
sum_counts [] = 0
sum_counts ((j, n) ∷ d) = n + sum_counts d

unfoldable pub increment_all : List Text → CppLintState → CppLintState
increment_all [] s = s
increment_all (c ∷ cs) s = increment_all cs (increment_error_count c s)

abbrev is_key : Text → Option Text → Bool
is_key k none = false
is_key k (some j) = text_eq j k

-- How many errors of a run are counted under a key.
unfoldable pub occurrences : Counting → Text → List Text → ℕ
occurrences counting k [] = 0
occurrences counting k (c ∷ cs) =
    (if is_key k (count_key counting c) then 1 else 0) + occurrences counting k cs

count_of-bump :
    (k j : Text) (d : List (Text × ℕ))
    → count_of k (bump j d) ≡ count_of k d + (if text_eq j k then 1 else 0)
unfolding count_of bump
count_of-bump k j [] = ground arith
count_of-bump k j ((i, n) ∷ d) =
    ground (arith, count_of-bump k j d, text_eq_iff i j, text_eq_iff i k, text_eq_iff j k)

sum_counts-bump : (k : Text) (d : List (Text × ℕ)) → sum_counts (bump k d) ≡ sum_counts d + 1
unfolding sum_counts bump
sum_counts-bump k [] = ground arith
sum_counts-bump k ((i, n) ∷ d) = ground (arith, sum_counts-bump k d)

count_of-increment :
    (k c : Text) (s : CppLintState)
    → count_of k (increment_error_count c s).errors_by_category
      ≡ count_of k s.errors_by_category + (if is_key k (count_key s.counting c) then 1 else 0)
unfolding increment_error_count
count_of-increment k c s = go (count_key s.counting c)
  where
    go :
        (o : Option Text)
        → count_of k (count_by_key o s.errors_by_category)
          ≡ count_of k s.errors_by_category + (if is_key k o then 1 else 0)
    go none = omega arith
    go (some j) = count_of-bump k j s.errors_by_category

counting-increment :
    (c : Text) (s : CppLintState) → (increment_error_count c s).counting ≡ s.counting
unfolding increment_error_count
counting-increment c s = refl

pub error_count-increment :
    (c : Text) (s : CppLintState) → (increment_error_count c s).error_count ≡ s.error_count + 1
unfolding increment_error_count
error_count-increment c s = refl

count_of-increment_all :
    (k : Text) (cs : List Text) (s : CppLintState)
    → count_of k (increment_all cs s).errors_by_category
      ≡ count_of k s.errors_by_category + occurrences s.counting k cs
unfolding increment_all occurrences
count_of-increment_all k [] s = omega arith
count_of-increment_all k (c ∷ cs) s =
    count_of-increment_all k cs (increment_error_count c s)
    ∙ omega (arith, count_of-increment k c s, ap (λ m. occurrences m k cs) (counting-increment c s))

error_count-increment_all :
    (cs : List Text) (s : CppLintState)
    → (increment_all cs s).error_count ≡ s.error_count + length cs
unfolding increment_all
error_count-increment_all [] s = omega arith
error_count-increment_all (c ∷ cs) s =
    omega
      (arith, error_count-increment_all cs (increment_error_count c s), error_count-increment c s)

-- After any errors the dict holds, under each key, its count before plus the number of the errors
-- counted under that key, and the total has grown by the number of the errors.
pub increment_all-counts :
    (k : Text) (cs : List Text) (s : CppLintState)
    → (count_of k (increment_all cs s).errors_by_category
        ≡ count_of k s.errors_by_category + occurrences s.counting k cs)
      × ((increment_all cs s).error_count ≡ s.error_count + length cs)
increment_all-counts k cs s = (count_of-increment_all k cs s, error_count-increment_all cs s)

sum_counts-increment :
    (c : Text) (s : CppLintState)
    → (s.counting ≡ toplevel) ⊎ (s.counting ≡ detailed)
    → sum_counts (increment_error_count c s).errors_by_category
      ≡ sum_counts s.errors_by_category + 1
unfolding increment_error_count count_key
sum_counts-increment c s (inl e) = rw e (sum_counts-bump _ s.errors_by_category)
sum_counts-increment c s (inr e) = rw e (sum_counts-bump _ s.errors_by_category)

-- Where errors are counted by category, the counts of the categories go on adding up to the total.
pub increment_all-sum_counts :
    (cs : List Text) (s : CppLintState)
    → (s.counting ≡ toplevel) ⊎ (s.counting ≡ detailed)
    → sum_counts s.errors_by_category ≡ s.error_count
    → sum_counts (increment_all cs s).errors_by_category ≡ (increment_all cs s).error_count
unfolding increment_all
increment_all-sum_counts [] s c h = h
increment_all-sum_counts (x ∷ cs) s c h =
    increment_all-sum_counts cs (increment_error_count x s) (rw counting-increment c)
      (omega (arith, sum_counts-increment x s c, error_count-increment x s))

-- bcolors.FAIL, OKBLUE, BOLD and ENDC (clint.py:305)
unfoldable pub escape_code : Text → Text
escape_code digits = 27 ∷ b'[' ∷ (digits ++ b'm' ∷ [])

-- bcolors.color
unfoldable pub color : Text → Text → Text
unfolding escape_code codes
color text style = style ++ text ++ escape_code (codes "0")

unfoldable pub fail_style : Text
unfolding escape_code codes
fail_style = escape_code (codes "91")

unfoldable pub ok_blue : Text
unfolding escape_code codes
ok_blue = escape_code (codes "94")

unfoldable pub bold : Text
unfolding escape_code codes
bold = escape_code (codes "1")

category_lines : List (Text × ℕ) → List Text
category_lines [] = []
category_lines ((category, n) ∷ d) =
    color (codes "Category '" ++ category ++ codes "' errors found: " ++ decimal n ++ codes "\n")
      (if ltb 0 n then fail_style else ok_blue)
    ∷ category_lines d

-- PrintErrorCounts: what it writes, a dict being read in the order of its keys' first errors
unfoldable pub print_error_counts : CppLintState → List Text
unfolding category_lines color fail_style ok_blue bold
print_error_counts s =
    category_lines s.errors_by_category
    ++ color (codes "Total errors found: " ++ decimal s.error_count ++ codes "\n")
        ((if ltb 0 s.error_count then fail_style else ok_blue) ++ bold)
      ∷ []

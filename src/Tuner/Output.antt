-- ===== src/Tuner/Output.antt =====
-- The statistics that mdriver prints: `try_num`, `parse_stdout` and `parse_awsrun_stdout`
-- (opentuner_run.py:17-48).
use mit_6172_fa15_project.Base.{
  ℕ, Bool, false, not, ◌||◌, List, [], ◌∷◌, ◌++◌, Option, none, some, Text, if◌then◌else◌, ◌==◌,
  keep, ◌≡◌, ◌∙◌, refl, arith, Bool-cases, inl, inr,
}
use mit_6172_fa15_project.Str.{codes, starts_with, text_eq}
use mit_6172_fa15_project.Dict.{Dict, get, put, get-put}
use mit_6172_fa15_project.Tuner.{Numbers, Value, num, text}

-- s.splitlines(); `seen` is the line read so far, and `after_cr` tells that the last character ended
-- a line by a carriage return
lines_from : Text → Bool → Text → List Text
lines_from [] after_cr [] = []
lines_from seen after_cr [] = seen ∷ []
lines_from seen after_cr (c ∷ s) =
    let skipped = lines_from seen false s in
    let ended = lines_from [] (c == b'\r') s in
    let longer = lines_from (seen ++ c ∷ []) false s in
    if c == b'\n'
    then (if after_cr then skipped else seen ∷ ended)
    else if c == b'\r'
    then seen ∷ ended
    else longer

unfoldable pub splitlines : Text → List Text
unfolding lines_from
splitlines s = lines_from [] false s

-- s.split(c, 1), `none` where the result has one part
unfoldable pub split_once : ℕ → Text → Option (Text × Text)
split_once c [] = none
split_once c (x ∷ s) =
    if x == c
    then some ([], s)
    else elim (split_once c s) [ none ↦ none | some (a, b) ↦ some (x ∷ a, b) ]

-- line.startswith('Submitting Job:') or line.startswith('Waiting for job to finish')
unfoldable pub is_status : Text → Bool
unfolding codes
is_status line =
    starts_with line (codes "Submitting Job:")
    || starts_with line (codes "Waiting for job to finish")

module _ (p : Numbers) where
  abbrev pub value_of : Text → Option p.Num → Value p.Num
  value_of s none = text s
  value_of s (some n) = num n

  -- try_num
  unfoldable pub try_num : Text → Value p.Num
  try_num s = value_of s (p.read s)

  abbrev pub store : Option (Text × Text) → Dict (Value p.Num) → Dict (Value p.Num)
  store none result = result
  store (some (key, value)) result = put key (try_num value) result

  -- One line of the loop of `parse_stdout`.
  unfoldable pub read_statistic : Text → Dict (Value p.Num) → Dict (Value p.Num)
  unfolding split_once
  read_statistic line result = store (split_once b':' line) result

  unfoldable pub read_statistics : List Text → Dict (Value p.Num) → Dict (Value p.Num)
  read_statistics [] result = result
  read_statistics (line ∷ lines) result = read_statistics lines (read_statistic line result)

  -- parse_stdout
  unfoldable pub parse_stdout : Text → Dict (Value p.Num)
  parse_stdout stdout = read_statistics (splitlines stdout) []

  -- The loop of `parse_awsrun_stdout`, which continues behind a status line.
  unfoldable pub read_awsrun : List Text → Dict (Value p.Num) → Dict (Value p.Num)
  read_awsrun [] result = result
  read_awsrun (line ∷ lines) result =
      read_awsrun lines (if is_status line then result else read_statistic line result)

  -- parse_awsrun_stdout
  unfoldable pub parse_awsrun_stdout : Text → Dict (Value p.Num)
  parse_awsrun_stdout stdout = read_awsrun (splitlines stdout) []

  abbrev pub named : Text → Option (Text × Text) → Option (Value p.Num)
  named key none = none
  named key (some (j, value)) = if text_eq j key then some (try_num value) else none

  abbrev pub later_or : Option (Value p.Num) → Option (Value p.Num) → Option (Value p.Num)
  later_or none old = old
  later_or (some new) old = some new

  -- The value of the last line that gives one for the key.
  unfoldable pub last_value : Text → List Text → Option (Value p.Num)
  last_value key [] = none
  last_value key (line ∷ lines) = later_or (last_value key lines) (named key (split_once b':' line))

  get-store :
      (key : Text) (o : Option (Text × Text)) (result : Dict (Value p.Num))
      → get key (store o result) ≡ later_or (named key o) (get key result)
  get-store key none result = refl
  get-store key (some (j, value)) result = ground (arith, get-put key j (try_num value) result)

  later_or_assoc :
      (a b c : Option (Value p.Num)) → later_or a (later_or b c) ≡ later_or (later_or a b) c
  later_or_assoc none b c = refl
  later_or_assoc (some x) b c = refl

  get-read_statistics :
      (key : Text) (lines : List Text) (result : Dict (Value p.Num))
      → get key (read_statistics lines result) ≡ later_or (last_value key lines) (get key result)
  unfolding read_statistics last_value read_statistic
  get-read_statistics key [] result = refl
  get-read_statistics key (line ∷ lines) result =
      rw
        (
          get-read_statistics key lines (store (split_once b':' line) result),
          get-store key (split_once b':' line) result,
        )
        (later_or_assoc (last_value key lines) (named key (split_once b':' line)) (get key result))

  later_or-none : (a : Option (Value p.Num)) → later_or a none ≡ a
  later_or-none none = refl
  later_or-none (some x) = refl

  read_awsrun-keep :
      (lines : List Text) (result : Dict (Value p.Num))
      → read_awsrun lines result
        ≡ read_statistics (keep (λ line. not (is_status line)) lines) result
  unfolding read_awsrun read_statistics keep
  read_awsrun-keep [] result = refl
  read_awsrun-keep (line ∷ lines) result = elim (Bool-cases (is_status line)) [
    | inl y ↦ rw y (read_awsrun-keep lines result)
    | inr n ↦ rw n (read_awsrun-keep lines (read_statistic line result))
  ]

  -- What the parsed output holds under a key is the value of the last line `key:value` that has the
  -- key; from a run on the worker machines, of the last such line that is no status line.
  pub parse_stdout_last :
      (key stdout : Text)
      → (get key (parse_stdout stdout) ≡ last_value key (splitlines stdout))
        × (get key (parse_awsrun_stdout stdout)
            ≡ last_value key (keep (λ line. not (is_status line)) (splitlines stdout)))
  unfolding parse_stdout parse_awsrun_stdout get
  parse_stdout_last key stdout = (
    get-read_statistics key (splitlines stdout) [] ∙ later_or-none _,
    rw (read_awsrun-keep (splitlines stdout) []) (
        get-read_statistics key (keep (λ line. not (is_status line)) (splitlines stdout)) []
        ∙ later_or-none _),
  )

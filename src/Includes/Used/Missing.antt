-- ===== src/Includes/Used/Missing.antt =====
-- Which headers a file is asked to include.
use mit_6172_fa15_project.Base.{
  ℕ, ◌+◌, suc, Bool, true, false, not, ◌&&◌, List, [], ◌∷◌, ◌++◌, Option, none, some, Text,
  if◌then◌else◌, get_elem?, elem, is_some, reverse, ◌≡◌, ◌⊎◌, inl, inr, refl, ap, ◌∙◌, arith, In,
  here, there, by_branches, Bool-cases,
}
use mit_6172_fa15_project.Str.{codes, text_eq, ends_with}
use mit_6172_fa15_project.Str.Laws.{text_eq_iff}
use mit_6172_fa15_project.Dict.{Dict, put, has, get-put}
use mit_6172_fa15_project.Regex.Find.{Hit, search, searches}
use mit_6172_fa15_project.Lint.{Event, error}
use mathlib.Core.Path.{subst}
use mit_6172_fa15_project.Str.{decimal}
use mit_6172_fa15_project.Cleanse.{cleanse_comments}
use mit_6172_fa15_project.Includes.Line.{include_of}
use mit_6172_fa15_project.Includes.SameModule.{files_belong_to_same_module}
use mit_6172_fa15_project.Includes.Used.{
  Need, Required, re_string, algorithm_needs, template_needs, require_all, require_string,
  require_line, require_lines, is_skipped, is_std_string, set_default, included_by, read_header,
  updated_by, update_include_state, look_into, look_into_all, missing, stripped, keys,
  without_flymake, check_for_include_what_you_use,
}

abbrev pub Entry : Type 0
Entry = Text × (ℕ × Text)

-- Why a line needs a header.
pub data Asks (n : ℕ) (line : Text) (x : Entry) : Type 0 where
  by_need :
      (need : Need)
      → In need algorithm_needs ⊎ In need template_needs
      → searches need.pattern line ≡ true
      → x ≡ (need.header, (n, need.template))
      → Asks n line x
  by_string :
      searches re_string line ≡ true → x ≡ (codes "<string>", (n, codes "string")) → Asks n line x

In-put :
    (x : Entry) (k : Text) (v : ℕ × Text) (d : Required) → In x (put k v d) → (x ≡ (k, v)) ⊎ In x d
unfolding put
In-put x k v [] (here e) = inl e
In-put x k v [] (there i) = elim i [ ]
In-put x k v ((j, w) ∷ d) i = split (text_eq j k) refl i (In-put x k v d)
  where
    split :
        (b : Bool)
        → text_eq j k ≡ b
        → In x (if b then (j, v) ∷ d else (j, w) ∷ put k v d)
        → (In x (put k v d) → (x ≡ (k, v)) ⊎ In x d)
        → (x ≡ (k, v)) ⊎ In x ((j, w) ∷ d)
    split true e (here p) rest = inl (p ∙ ap (λ t. (t, v)) ((text_eq_iff j k).0 e))
    split true e (there m) rest = inr (there m)
    split false e (here p) rest = inr (here p)
    split false e (there m) rest = elim (rest m) [ inl q ↦ inl q | inr m' ↦ inr (there m') ]

-- What is required behind a line was required before, or the line asks for it.
abbrev IsAdded : ℕ → Text → Required → Required → Type 0
IsAdded n line old new = (x : Entry) → In x new → In x old ⊎ Asks n line x

require_all-IsAdded :
    (needs : List Need) (line : Text) (n : ℕ) (required : Required)
    → ((need : Need) → In need needs → In need algorithm_needs ⊎ In need template_needs)
    → IsAdded n line required (require_all needs line n required)
unfolding require_all
require_all-IsAdded [] line n required listed x i = inl i
require_all-IsAdded (need ∷ needs) line n required listed x i =
    let put_in =
      by_branches (IsAdded n line required) (searches need.pattern line)
        (λ found y m. elim (In-put y need.header (n, need.template) required m) [
          | inl e ↦ inr (by_need need (listed need (here refl)) found e)
          | inr old ↦ inl old
        ])
        (λ none_found y m. inl m) in
    elim (require_all-IsAdded needs line n _ (λ d m. listed d (there m)) x i) [
      | inl m ↦ put_in x m
      | inr a ↦ inr a
    ]

IsAdded-trans :
    (n : ℕ) (line : Text) (a b c : Required)
    → IsAdded n line a b
    → IsAdded n line b c
    → IsAdded n line a c
IsAdded-trans n line a b c h k x i = elim (k x i) [ inl m ↦ h x m | inr asks ↦ inr asks ]

require_string-IsAdded :
    (line : Text) (n : ℕ) (required : Required) (o : Option Hit)
    → search re_string line ≡ o
    → IsAdded n line required (require_string o n required)
unfolding codes
require_string-IsAdded line n required none e = λ x i. inl i
require_string-IsAdded line n required (some m) e =
    by_branches (IsAdded n line required) (is_std_string (reverse m.start.before))
      (λ h x i. elim (In-put x (codes "<string>") (n, codes "string") required i) [
        | inl q ↦ inr (by_string (ap is_some e) q)
        | inr old ↦ inl old
      ])
      (λ h x i. inl i)

-- A line of the file that is no directive asks for the entry.
pub record IsAsked (first : ℕ) (lines : List Text) (x : Entry) : Type 0 where
  pub index : ℕ
  pub line : Text
  pub at_line : get_elem? lines index ≡ some line
  pub plain : is_skipped line ≡ false
  pub asks : Asks (first + index) line x

require_line-IsAdded :
    (line : Text) (n : ℕ) (required : Required)
    → IsAdded n line required (require_line line n required)
      × (is_skipped line ≡ true → require_line line n required ≡ required)
unfolding require_line
require_line-IsAdded line n required = (
  by_branches (IsAdded n line required) (is_skipped line) (λ h x i. inl i)
      (λ h.
        by_branches (IsAdded n line required) (elem b'<' line)
          (λ less.
            IsAdded-trans n line required _ _ behind
              (require_all-IsAdded template_needs line n _ (λ need m. inr m)))
          (λ no_less. behind)),
  λ h. rw h refl,
)
  where
    behind :
        IsAdded n line required
          (require_all algorithm_needs line n (require_string (search re_string line) n required))
    behind =
        IsAdded-trans n line required _ _
          (require_string-IsAdded line n required (search re_string line) refl)
          (require_all-IsAdded algorithm_needs line n _ (λ need m. inl m))

require_lines-IsAsked :
    (lines : List Text) (n : ℕ) (required : Required) (x : Entry)
    → In x (require_lines lines n required)
    → In x required ⊎ IsAsked n lines x
unfolding require_lines
require_lines-IsAsked [] n required x i = inl i
require_lines-IsAsked (line ∷ lines) n required x i =
    elim (require_lines-IsAsked lines (n + 1) (require_line line n required) x i) [
      | inr a ↦ inr (record {
        index = suc a.index;
        line = a.line;
        at_line = a.at_line;
        plain = a.plain;
        asks = subst (λ k. Asks k a.line x) (omega arith) a.asks;
      })
      | inl m ↦ elim (Bool-cases (is_skipped line)) [
        | inl skipped ↦ inl (subst (In x) ((require_line-IsAdded line n required).1 skipped) m)
        | inr plain ↦ elim ((require_line-IsAdded line n required).0 x m) [
          | inl old ↦ inl old
          | inr asks ↦ inr (record {
            index = 0;
            line = line;
            at_line = refl;
            plain = plain;
            asks = subst (λ k. Asks k line x) (omega arith) asks;
          })
        ]
      ]
    ]

-- What is included stays included.
abbrev Grows : Dict Text → Dict Text → Type 0
Grows old new = (k : Text) → has k old ≡ true → has k new ≡ true

set_default-Grows :
    (include value : Text) (included : Dict Text)
    → Grows included (set_default include value included)
set_default-Grows include value included =
    by_branches (Grows included) (has include included) (λ h k old. old)
      (λ h k old.
        rw (get-put k include value included)
          (by_branches (λ o. is_some o ≡ true) (text_eq include k) (λ e. refl) (λ e. old)))

read_header-Grows :
    (filename : Text) (lines : List Text) (n : ℕ) (included : Dict Text)
    → Grows included (read_header filename lines n included)
unfolding read_header
read_header-Grows filename [] n included k h = h
read_header-Grows filename (line ∷ lines) n included k h =
    read_header-Grows filename lines (n + 1) _ k
      (one (include_of (cleanse_comments line)) (filename ++ codes ":" ++ decimal (n + 1)))
  where
    one : (o : Option (Text × Text)) (value : Text) → has k (included_by o value included) ≡ true
    one none value = h
    one (some (bracket, include)) value = set_default-Grows include value included k h

module _ (open_file : Text → Option (List Text)) where
  update_include_state-Grows :
      (filename : Text) (included : Dict Text)
      → Grows included (update_include_state open_file filename included).0
  unfolding update_include_state
  update_include_state-Grows filename included k h = opened (open_file filename)
    where
      opened : (o : Option (List Text)) → has k (updated_by filename o included).0 ≡ true
      opened none = h
      opened (some lines) = read_header-Grows filename lines 0 included k h

  look_into_all-Grows :
      (abs_filename : Text) (headers : List Text) (found : Dict Text × Bool)
      → Grows found.0 (look_into_all open_file abs_filename headers found).0
  unfolding look_into_all look_into
  look_into_all-Grows abs_filename [] found k h = h
  look_into_all-Grows abs_filename (header ∷ headers) found k h =
      look_into_all-Grows abs_filename headers (look_into open_file abs_filename header found) k (
        by_branches (λ (r : Dict Text × Bool). has k r.0 ≡ true)
          (files_belong_to_same_module abs_filename header).0
          (λ same. update_include_state-Grows _ found.0 k h) (λ other. h))

  abbrev pub missing_event : Entry → Event
  missing_event (header, (linenum, template)) =
      error linenum (codes "build/include_what_you_use") 4
        (codes "Add #include " ++ header ++ codes " for " ++ template)

  -- A reported entry, required and not included.
  pub record IsMissing (required : Required) (included : Dict Text) (e : Event) : Type 0 where
    pub entry : Entry
    pub required_entry : In entry required
    pub absent : has (stripped entry.0) included ≡ false
    pub event : e ≡ missing_event entry

  missing-IsMissing :
      (required : Required) (included : Dict Text) (e : Event)
      → In e (missing open_file required included)
      → IsMissing required included e
  unfolding missing
  missing-IsMissing [] included e i = elim i [ ]
  missing-IsMissing (x ∷ required) included e i =
      split (has (stripped x.0) included) refl i (missing-IsMissing required included e)
    where
      later : IsMissing required included e → IsMissing (x ∷ required) included e
      later m = record {
        entry = m.entry;
        required_entry = there m.required_entry;
        absent = m.absent;
        event = m.event;
      }

      split :
          (b : Bool)
          → has (stripped x.0) included ≡ b
          → In e (
              if b
              then missing open_file required included
              else missing_event x ∷ missing open_file required included)
          → (In e (missing open_file required included) → IsMissing required included e)
          → IsMissing (x ∷ required) included e
      split true h j rest = later (rest j)
      split false h (here p) rest = record {
        entry = x;
        required_entry = here refl;
        absent = h;
        event = p;
      }
      split false h (there j) rest = later (rest j)

  -- A message and what it stands on.
  pub record IsReported (elided : List Text) (included : Dict Text) (e : Event) : Type 0 where
    pub entry : Entry
    pub event : e ≡ missing_event entry
    pub absent : has (stripped entry.0) included ≡ false
    pub asked : IsAsked 0 elided entry

  -- Each message names a line of the file that is no directive, with an entity of the tables that
  -- stands on that line and the header of that entity, and the file does not include that header
  -- itself; so a header that the file includes is never asked for, whatever the headers of its
  -- module hold.
  pub check_for_include_what_you_use-IsReported :
      (filename full_name : Text) (elided : List Text) (included : Dict Text) (e : Event)
      → In e (check_for_include_what_you_use open_file filename full_name elided included)
      → IsReported elided included e
  unfolding check_for_include_what_you_use
  check_for_include_what_you_use-IsReported filename full_name elided included e =
      by_branches (λ es. In e es → IsReported elided included e)
        (ends_with filename (codes ".c") && not found.1) (λ h i. elim i [ ])
        (λ h i. reported (missing-IsMissing (require_lines elided 0 []) found.0 e i))
    where
      found : Dict Text × Bool
      found =
          look_into_all open_file (without_flymake full_name) (keys open_file included)
            (included, false)

      own :
          (k : Text) (b : Bool)
          → has k included ≡ b
          → has k found.0 ≡ false
          → has k included ≡ false
      own k false h absent = h
      own k true h absent =
          let grown =
            look_into_all-Grows (without_flymake full_name) (keys open_file included)
              (included, false) k h in
          cc

      reported : IsMissing (require_lines elided 0 []) found.0 e → IsReported elided included e
      reported m = record {
        entry = m.entry;
        event = m.event;
        absent = own (stripped m.entry.0) (has (stripped m.entry.0) included) refl m.absent;
        asked = elim (require_lines-IsAsked elided 0 [] m.entry m.required_entry) [
          | inl i ↦ elim i [ ]
          | inr a ↦ a
        ];
      }

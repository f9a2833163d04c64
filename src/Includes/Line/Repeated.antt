-- ===== src/Includes/Line/Repeated.antt =====
-- Which lines the dict of included headers names, and which lines include a header again.
use mit_6172_fa15_project.Base.{
  ℕ, zero, suc, ◌+◌, Bool, List, [], ◌∷◌, ◌++◌, Option, none, some, Text, if◌then◌else◌, ◌≡◌, refl,
  ◌∙◌, arith, take, get_elem?, In, here, In-append_left, In-append_right,
}
use mit_6172_fa15_project.Str.{codes, decimal, text_eq}
use mit_6172_fa15_project.Str.Laws.{text_eq_iff}
use mit_6172_fa15_project.Dict.{get, put, get-put}
use mit_6172_fa15_project.Regex.Find.{or_else}
use mit_6172_fa15_project.Lint.{Event}
use mit_6172_fa15_project.Includes.Order.{
  initial_include_state, IncludeState, check_next_include_order, is_in_alphabetical_order,
  HeaderType,
}
use mit_6172_fa15_project.Includes.Classify.{classify_include}
use mit_6172_fa15_project.Includes.Line.{
  include_of, already_included, add_include, known_or_new, record_include, new_style_events,
  check_include_line,
}

abbrev pub value_at : Text → ℕ → Option (Text × Text) → Option Text
value_at h linenum none = none
value_at h linenum (some (bracket, include)) =
    if text_eq include h then some (decimal linenum) else none

-- The number of the first line that includes the header, as the dict keeps it.
unfoldable pub first_include : Text → List Text → ℕ → Option Text
first_include h [] linenum = none
first_include h (line ∷ lines) linenum =
    or_else (value_at h linenum (include_of line)) (first_include h lines (linenum + 1))

included-order :
    (t : HeaderType) (s : IncludeState) → (check_next_include_order t s).0.included ≡ s.included
unfolding check_next_include_order
included-order t s = ground arith

included-alphabet :
    (h : Text) (s : IncludeState) → (is_in_alphabetical_order h s).0.included ≡ s.included
unfolding is_in_alphabetical_order
included-alphabet h s = ground arith

module _ (filename repository_name : Text) where
  -- The lines from `linenum` on, one after the other.
  unfoldable pub check_include_lines : List Text → ℕ → IncludeState → IncludeState × List Event
  check_include_lines [] linenum s = (s, [])
  check_include_lines (line ∷ lines) linenum s =
      let (s', events) = check_include_line filename repository_name line linenum s in
      let (s'', later) = check_include_lines lines (linenum + 1) s' in (s'', events ++ later)

  included-add_include :
      (include : Text) (is_system : Bool) (linenum : ℕ) (s : IncludeState)
      → (add_include repository_name include is_system linenum s).0.included
        ≡ put include (decimal linenum) s.included
  unfolding add_include
  included-add_include include is_system linenum s =
      included-alphabet include _
      ∙ included-order (classify_include repository_name include is_system) _

  get-record_include :
      (h : Text) (linenum : ℕ) (s : IncludeState) (o : Option (Text × Text))
      → get h (record_include filename repository_name linenum s o).0.included
        ≡ or_else (get h s.included) (value_at h linenum o)
  get-record_include h linenum s none = ground arith
  get-record_include h linenum s (some (bracket, include)) = go (get include s.included) refl
    where
      go :
          (o : Option Text)
          → get include s.included ≡ o
          → get h
              (known_or_new filename repository_name include
                (text_eq bracket (codes "<"))
                linenum
                s
                o).0.included
            ≡ or_else (get h s.included) (value_at h linenum (some (bracket, include)))
      go none e =
          rw (included-add_include include (text_eq bracket (codes "<")) linenum s)
            (ground (arith, get-put h include (decimal linenum) s.included, text_eq_iff include h))
      go (some v) e = ground (arith, text_eq_iff include h)

  get-check_include_line :
      (h line : Text) (linenum : ℕ) (s : IncludeState)
      → get h (check_include_line filename repository_name line linenum s).0.included
        ≡ or_else (get h s.included) (value_at h linenum (include_of line))
  unfolding check_include_line
  get-check_include_line h line linenum s = get-record_include h linenum s (include_of line)

  or_else_assoc : (a b c : Option Text) → or_else (or_else a b) c ≡ or_else a (or_else b c)
  or_else_assoc none b c = refl
  or_else_assoc (some x) b c = refl

  get-check_include_lines :
      (h : Text) (lines : List Text) (linenum : ℕ) (s : IncludeState)
      → get h (check_include_lines lines linenum s).0.included
        ≡ or_else (get h s.included) (first_include h lines linenum)
  unfolding check_include_lines first_include
  get-check_include_lines h [] linenum s = ground arith
  get-check_include_lines h (line ∷ lines) linenum s =
      rw
        (
          get-check_include_lines h lines (linenum + 1)
              (check_include_line filename repository_name line linenum s).0,
          get-check_include_line h line linenum s,
        )
        (or_else_assoc (get h s.included) (value_at h linenum (include_of line)) _)

  -- Behind the lines of a file, the dict gives for each header the number of the first line that
  -- includes it, and has no other header.
  pub included_first :
      (h : Text) (lines : List Text)
      → get h (check_include_lines lines 0 initial_include_state).0.included
        ≡ first_include h lines 0
  unfolding get
  included_first h lines = get-check_include_lines h lines 0 initial_include_state

  check_include_line-again :
      (h bracket line v : Text) (linenum : ℕ) (s : IncludeState)
      → include_of line ≡ some (bracket, h)
      → get h s.included ≡ some v
      → In
          (already_included filename h v linenum)
          (check_include_line filename repository_name line linenum s).1
  unfolding check_include_line
  check_include_line-again h bracket line v linenum s i g =
      In-append_right (new_style_events line linenum) (rw (i, g) (here refl))

  again_from :
      (h bracket v : Text) (lines : List Text) (n : ℕ) (line : Text) (k m : ℕ) (s : IncludeState)
      → k + n ≡ m
      → get_elem? lines n ≡ some line
      → include_of line ≡ some (bracket, h)
      → or_else (get h s.included) (first_include h (take n lines) k) ≡ some v
      → In (already_included filename h v m) (check_include_lines lines k s).1
  unfolding check_include_lines first_include
  again_from h bracket v [] n line k m s q e i g = cc
  again_from h bracket v (x ∷ lines) zero line k m s q e i g =
      let same : x ≡ line = ground arith in
      let here_ : k ≡ m = omega arith in
      In-append_left {xs = (check_include_line filename repository_name x k s).1} _ (
        rw (← here_)
          (check_include_line-again h bracket x v k s (rw same i) (known (get h s.included) g)))
    where
      known : (o : Option Text) → or_else o none ≡ some v → o ≡ some v
      known none g = g
      known (some w) g = g
  again_from h bracket v (x ∷ lines) (suc n) line k m s q e i g =
      In-append_right (check_include_line filename repository_name x k s).1 (
        again_from h bracket v lines n line (k + 1) m
          (check_include_line filename repository_name x k s).0 (omega arith) e i
          (rw (get-check_include_line h x k s) (or_else_assoc (get h s.included) _ _ ∙ g)))

  -- A line that includes a header which a line above it includes gets an error, which names the
  -- number of the first line that includes the header.
  pub check_include_lines_again :
      (h bracket v line : Text) (lines : List Text) (n : ℕ)
      → get_elem? lines n ≡ some line
      → include_of line ≡ some (bracket, h)
      → first_include h (take n lines) 0 ≡ some v
      → In (already_included filename h v n) (check_include_lines lines 0 initial_include_state).1
  unfolding get
  check_include_lines_again h bracket v line lines n e i g =
      again_from h bracket v lines n line 0 n initial_include_state (omega arith) e i g

-- ===== src/Lint/Emit.antt =====
-- `_ShouldPrintError` (clint.py:792), `Error` (clint.py:819) and the events of a run.
use mathlib.Core.Option
use mit_6172_fa15_project.Base.{
  ℕ, ◌+◌, All, Bool, true, false, not, List, [], ◌∷◌, ◌++◌, Option, none, some, Text, if◌then◌else◌,
  ltb, ◌≡◌, ◌↔◌, ◌≤◌, refl, arith, length, length-append,
}
use mit_6172_fa15_project.Str.{codes, decimal}
use mit_6172_fa15_project.Lint.{Report, Event, report, suppress, OutputFormat, emacs, vs7, Linter}
use mit_6172_fa15_project.Lint.Nolint.{is_error_suppressed_by_nolint, add_suppression}
use mit_6172_fa15_project.Lint.Filters.{
  is_filtered, IsSigned, last_verdict, is_filtered-last_verdict,
}
use mit_6172_fa15_project.Lint.Counts.{increment_error_count, color, fail_style}

-- _ShouldPrintError; `none` is the failed assertion on a filter with no sign
unfoldable pub should_print_error : Linter → Text → ℕ → ℕ → Option Bool
should_print_error l category confidence linenum =
    if is_error_suppressed_by_nolint l.suppressions category linenum
    then some false
    else if ltb confidence l.state.verbose_level
    then some false
    else Option.map not (is_filtered category false l.state.filters)

-- The two layouts of a message: `%s(%s):  %s  [%s] [%d]\n` and `%s:%s:  %s  [%s] [%d]\n`.
unfoldable pub layout : OutputFormat → Text → Report → Text
layout vs7 filename r =
    filename
    ++ codes "("
    ++ decimal r.linenum
    ++ codes "):  "
    ++ r.message
    ++ codes "  ["
    ++ r.category
    ++ codes "] ["
    ++ decimal r.confidence
    ++ codes "]\n"
layout emacs filename r =
    filename
    ++ codes ":"
    ++ decimal r.linenum
    ++ codes ":  "
    ++ r.message
    ++ codes "  ["
    ++ r.category
    ++ codes "] ["
    ++ decimal r.confidence
    ++ codes "]\n"

abbrev pub print_report : Text → Report → Linter → Linter
print_report filename r l = record l {
  state = increment_error_count r.category l.state;
  stderr = l.stderr ++ color (layout l.state.output_format filename r) fail_style ∷ [];
}

-- Error
unfoldable pub error_handler : Text → Report → Linter → Option Linter
error_handler filename r l =
    Option.map (λ printed. if printed then print_report filename r l else l)
      (should_print_error l r.category r.confidence r.linenum)

unfoldable pub handle : Text → Event → Linter → Option Linter
unfolding error_handler
handle filename (report r) l = error_handler filename r l
handle filename (suppress k n) l =
    some (record l { suppressions = add_suppression k n l.suppressions })

-- The events of a run, in order.
unfoldable pub handle_all : Text → List Event → Linter → Option Linter
handle_all filename [] l = some l
handle_all filename (e ∷ es) l = elim (handle filename e l) [
  | none ↦ none
  | some l' ↦ handle_all filename es l'
]

-- What a message stands for: it is printed where no NOLINT comment suppresses its category on its
-- line, its confidence is at least the verbosity, and the filters let it pass.
pub record IsPrintable (l : Linter) (r : Report) : Type 0 where
  pub not_suppressed : is_error_suppressed_by_nolint l.suppressions r.category r.linenum ≡ false
  pub confident : l.state.verbose_level ≤ r.confidence
  pub passes : is_filtered r.category false l.state.filters ≡ some false

-- A message is to be printed exactly where it is not suppressed on its line, its confidence reaches
-- the verbosity, and no filter hides its category.
pub should_print_error_iff :
    (l : Linter) (r : Report)
    → (should_print_error l r.category r.confidence r.linenum ≡ some true) ↔ IsPrintable l r
unfolding should_print_error
should_print_error_iff l r = (there_way, back)
  where
    filtered : Option Bool
    filtered = is_filtered r.category false l.state.filters

    there_way : should_print_error l r.category r.confidence r.linenum ≡ some true → IsPrintable l r
    there_way h = record {
      not_suppressed = ground arith;
      confident = ground arith;
      passes = ground arith;
    }

    back : IsPrintable l r → should_print_error l r.category r.confidence r.linenum ≡ some true
    back p = rw (p.not_suppressed, p.passes) (ground arith)

-- An error that is to be printed is counted once and written once, at the end of stderr.
pub error_handler-printed :
    (filename : Text) (r : Report) (l : Linter)
    → IsPrintable l r
    → error_handler filename r l ≡ some (print_report filename r l)
unfolding error_handler
error_handler-printed filename r l p = rw ((should_print_error_iff l r).1 p)

-- As many texts were added to stderr as errors were counted.
abbrev pub Balanced : Linter → Linter → Type 0
Balanced l l' = length l'.stderr + l.state.error_count ≡ length l.stderr + l'.state.error_count

error_handler-Balanced :
    (filename : Text) (r : Report) (l l' : Linter)
    → error_handler filename r l ≡ some l'
    → Balanced l l' × (l'.state.filters ≡ l.state.filters)
unfolding error_handler increment_error_count
error_handler-Balanced filename r l l' h =
    go (should_print_error l r.category r.confidence r.linenum) h
  where
    go :
        (o : Option Bool)
        → Option.map (λ printed. if printed then print_report filename r l else l) o ≡ some l'
        → Balanced l l' × (l'.state.filters ≡ l.state.filters)
    go none e = cc
    go (some true) e = ground (
      arith,
      length-append l.stderr (color (layout l.state.output_format filename r) fail_style ∷ []),
    )
    go (some false) e = ground arith

error_handler_total :
    (filename : Text) (r : Report) (l : Linter)
    → All IsSigned l.state.filters
    → (l' : Linter) × (error_handler filename r l ≡ some l')
unfolding error_handler should_print_error
error_handler_total filename r l h =
    decide (is_error_suppressed_by_nolint l.suppressions r.category r.linenum)
      (ltb r.confidence l.state.verbose_level)
  where
    Goal : Bool → Bool → Type 0
    Goal suppressed low =
        (l' : Linter) × (Option.map (λ printed. if printed then print_report filename r l else l)
            (if suppressed
              then some false
              else if low
              then some false
              else Option.map not (is_filtered r.category false l.state.filters))
          ≡ some l')

    decide : (suppressed low : Bool) → Goal suppressed low
    decide true low = (l, refl)
    decide false true = (l, refl)
    decide false false = (
      if not (last_verdict r.category false l.state.filters) then print_report filename r l else l,
      rw (is_filtered-last_verdict r.category false l.state.filters h) refl,
    )

handle_total :
    (filename : Text) (e : Event) (l : Linter)
    → All IsSigned l.state.filters
    → (l' : Linter) × (handle filename e l ≡ some l')
      × Balanced l l'
      × All IsSigned l'.state.filters
unfolding handle
handle_total filename (report r) l h =
    let (l', e) = error_handler_total filename r l h in
    let (b, f) = error_handler-Balanced filename r l l' e in (l', e, b, rw f h)
handle_total filename (suppress k n) l h =
    (record l { suppressions = add_suppression k n l.suppressions }, refl, refl, h)

-- Where all filters have a sign, a run of any events ends in a state, and it has added as many
-- texts to stderr as errors to the count.
pub handle_all-Balanced :
    (filename : Text) (es : List Event) (l : Linter)
    → All IsSigned l.state.filters
    → (l' : Linter) × (handle_all filename es l ≡ some l') × Balanced l l'
unfolding handle_all
handle_all-Balanced filename [] l h = (l, refl, refl)
handle_all-Balanced filename (e ∷ es) l h =
    let (m, p, b, s) = handle_total filename e l h in
    let (l', q, c) = handle_all-Balanced filename es m s in (l', rw (handle_all, p) q, omega arith)

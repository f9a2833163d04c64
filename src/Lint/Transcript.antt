-- ===== src/Lint/Transcript.antt =====
-- What a run of events prints: an account of the error handler that sees neither the counts nor what
-- was written before.
use mit_6172_fa15_project.Base.{
  ℕ, Bool, false, not, ◌&&◌, List, [], ◌∷◌, ◌++◌, Text, if◌then◌else◌, leb, map,
}
use mit_6172_fa15_project.Lint.{Report, Event, report, suppress, Suppressions, OutputFormat, Linter}
use mit_6172_fa15_project.Lint.Nolint.{is_error_suppressed_by_nolint, add_suppression}
use mit_6172_fa15_project.Lint.Filters.{last_verdict}
use mit_6172_fa15_project.Lint.Counts.{increment_all, color, fail_style}
use mit_6172_fa15_project.Lint.Emit.{layout}

-- Whether a message is printed: it is not suppressed, confident enough, and the last filter that
-- speaks of it does not hide it.
unfoldable pub is_printed : ℕ → List Text → Suppressions → Report → Bool
is_printed verbosity filters σ r =
    not (is_error_suppressed_by_nolint σ r.category r.linenum)
    && leb verbosity r.confidence
    && not (last_verdict r.category false filters)

-- The messages of a run that are printed.
unfoldable pub transcript : ℕ → List Text → Suppressions → List Event → List Report
transcript verbosity filters σ [] = []
transcript verbosity filters σ (suppress k n ∷ es) =
    transcript verbosity filters (add_suppression k n σ) es
transcript verbosity filters σ (report r ∷ es) =
    let rest = transcript verbosity filters σ es in
    if is_printed verbosity filters σ r then r ∷ rest else rest

-- A message as it is written to stderr.
abbrev pub rendered : OutputFormat → Text → Report → Text
rendered f filename r = color (layout f filename r) fail_style

-- The linter behind messages that were printed.
abbrev pub with_messages : Text → List Report → Suppressions → Linter → Linter
with_messages filename rs σ l = record l {
  state = increment_all (map (λ r. r.category) rs) l.state;
  suppressions = σ;
  stderr = l.stderr ++ map (rendered l.state.output_format filename) rs;
}

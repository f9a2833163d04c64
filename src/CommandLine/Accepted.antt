-- ===== src/CommandLine/Accepted.antt =====
-- Which command lines are accepted, and what they set.
use mathlib.Core.Path.{subst}
use mit_6172_fa15_project.Base.{
  ℕ, Bool, true, false, List, [], ◌∷◌, ◌++◌, Option, none, some, Text, if◌then◌else◌, ◌≡◌, ◌≢◌,
  refl, sym, ap, All,
}
use mit_6172_fa15_project.Lint.{CppLintState, OutputFormat, Counting, unset, default_filters}
use mit_6172_fa15_project.Lint.Filters.{clean_filters, IsSigned, set_filters, set_filters-IsSigned}
use mit_6172_fa15_project.CommandLine.{
  Settings, Loop, goes_on, halts, Opt, help, output, verbose, filter, counting, parsed, Start,
  proceeds, stops, read_output, read_counting, read_option, read_options, with_output,
  with_counting, with_verbosity, with_filters, with_files, counted, apply_settings,
  initial_settings, parse_arguments,
}

unfoldable pub is_option : Opt → Opt → Bool
is_option help help = true
is_option output output = true
is_option verbose verbose = true
is_option filter filter = true
is_option counting counting = true
is_option _ _ = false

abbrev later_or : Option Text → Option Text → Option Text
later_or none old = old
later_or (some new) old = some new

-- The value that an option has where it is given last.
unfoldable pub last_given : Opt → List (Opt × Text) → Option Text
unfolding is_option
last_given o [] = none
last_given o ((p, val) ∷ opts) =
    later_or (last_given o opts) (if is_option p o then some val else none)

-- A setting is what its option reads from the value, and as it was where there is no value.
abbrev pub Given {ℓ} : {A : Type ℓ} → (Text → Option A) → Option Text → A → A → Type ℓ
Given read none old new = new ≡ old
Given read (some val) old new = read val ≡ some new

-- Every option of the loop has the effect of its last occurrence.
pub record Sets (int : Text → Option ℕ) (opts : List (Opt × Text)) (old new : Settings)
    : Type 0 where
  pub verbosity : Given int (last_given verbose opts) old.verbosity new.verbosity
  pub output_format : Given read_output (last_given output opts) old.output_format new.output_format
  pub filters : Given some (last_given filter opts) old.filters new.filters
  pub counting_style :
      Given read_counting (last_given counting opts) old.counting_style new.counting_style

Given-trans :
    {A : Type 0} (read : Text → Option A) (later earlier : Option Text) (a b c : A)
    → Given read earlier a b
    → Given read later b c
    → Given read (later_or later earlier) a c
Given-trans read none earlier a b c h k = subst (λ x. Given read earlier a x) (sym k) h
Given-trans read (some val) earlier a b c h k = k

abbrev settings_or : Settings → Loop → Settings
settings_or v (goes_on w) = w
settings_or v (halts h) = v

goes_on-injective : (v w : Settings) → goes_on v ≡ goes_on w → v ≡ w
goes_on-injective v w h = ap (settings_or v) h

module _ (int : Text → Option ℕ) where
  Sets-same : (v : Settings) → Sets int [] v v
  unfolding last_given
  Sets-same v = record {
    verbosity = refl;
    output_format = refl;
    filters = refl;
    counting_style = refl;
  }

  Sets-output :
      (val : Text) (v w : Settings) (o : Option OutputFormat)
      → read_output val ≡ o
      → with_output o v ≡ goes_on w
      → Sets int ((output, val) ∷ []) v w
  unfolding last_given is_option
  Sets-output val v w none e h = cc
  Sets-output val v w (some f) e h =
      subst (Sets int ((output, val) ∷ []) v) (goes_on-injective _ w h)
        (record { verbosity = refl; output_format = e; filters = refl; counting_style = refl })

  Sets-counting :
      (val : Text) (v w : Settings) (o : Option Counting)
      → read_counting val ≡ o
      → with_counting o v ≡ goes_on w
      → Sets int ((counting, val) ∷ []) v w
  unfolding last_given is_option
  Sets-counting val v w none e h = cc
  Sets-counting val v w (some c) e h =
      subst (Sets int ((counting, val) ∷ []) v) (goes_on-injective _ w h)
        (record { verbosity = refl; output_format = refl; filters = refl; counting_style = e })

  Sets-verbose :
      (val : Text) (v w : Settings) (o : Option ℕ)
      → int val ≡ o
      → with_verbosity o v ≡ goes_on w
      → Sets int ((verbose, val) ∷ []) v w
  unfolding last_given is_option
  Sets-verbose val v w none e h = cc
  Sets-verbose val v w (some n) e h =
      subst (Sets int ((verbose, val) ∷ []) v) (goes_on-injective _ w h)
        (record { verbosity = e; output_format = refl; filters = refl; counting_style = refl })

  Sets-filter :
      (val : Text) (v w : Settings)
      → with_filters val v ≡ goes_on w
      → Sets int ((filter, val) ∷ []) v w
  unfolding last_given is_option
  Sets-filter [] v w h = cc
  Sets-filter (c ∷ val) v w h =
      subst (Sets int ((filter, c ∷ val) ∷ []) v) (goes_on-injective _ w h)
        (record { verbosity = refl; output_format = refl; filters = refl; counting_style = refl })

  Sets-one :
      (opt : Opt) (val : Text) (v w : Settings)
      → read_option int opt val v ≡ goes_on w
      → Sets int ((opt, val) ∷ []) v w
  unfolding read_option
  Sets-one help val v w h = cc
  Sets-one output val v w h = Sets-output val v w (read_output val) refl h
  Sets-one verbose val v w h = Sets-verbose val v w (int val) refl h
  Sets-one filter val v w h = Sets-filter val v w h
  Sets-one counting val v w h = Sets-counting val v w (read_counting val) refl h

  Sets-trans :
      (opt : Opt) (val : Text) (opts : List (Opt × Text)) (u v w : Settings)
      → Sets int ((opt, val) ∷ []) u v
      → Sets int opts v w
      → Sets int ((opt, val) ∷ opts) u w
  unfolding last_given
  Sets-trans opt val opts u v w a b = record {
    verbosity = Given-trans int _ _ _ _ _ a.verbosity b.verbosity;
    output_format = Given-trans read_output _ _ _ _ _ a.output_format b.output_format;
    filters = Given-trans some _ _ _ _ _ a.filters b.filters;
    counting_style = Given-trans read_counting _ _ _ _ _ a.counting_style b.counting_style;
  }

  Sets-read_options :
      (opts : List (Opt × Text)) (v w : Settings)
      → read_options int opts v ≡ goes_on w
      → Sets int opts v w
  unfolding read_options
  Sets-read_options [] v w h = subst (Sets int [] v) (goes_on-injective v w h) (Sets-same v)
  Sets-read_options ((opt, val) ∷ opts) v w h =
      step (read_option int opt val v) refl (λ v'. Sets-read_options opts v' w) h
    where
      step :
          (l : Loop)
          → read_option int opt val v ≡ l
          → ((v' : Settings) → read_options int opts v' ≡ goes_on w → Sets int opts v' w)
          → elim l [ goes_on v' ↦ read_options int opts v' | halts x ↦ halts x ] ≡ goes_on w
          → Sets int ((opt, val) ∷ opts) v w
      step (goes_on v') e rest k =
          Sets-trans opt val opts v v' w (Sets-one opt val v v' e) (rest v' k)
      step (halts x) e rest k = cc

  -- What the settings of a command line do to the state.
  pub record Configured (opts : List (Opt × Text)) (filenames : List Text) (s s' : CppLintState)
      : Type 0 where
    pub some_files : filenames ≢ []
    pub verbosity : Given int (last_given verbose opts) s.verbose_level s'.verbose_level
    pub output_format : Given read_output (last_given output opts) s.output_format s'.output_format
    pub counting_style : Given read_counting (last_given counting opts) unset s'.counting
    pub flag : Text
    pub filters_flag : Given some (last_given filter opts) [] flag
    pub filters : s'.filters ≡ default_filters ++ clean_filters flag
    pub signed : All IsSigned s'.filters
    pub same_counts :
        (s'.error_count ≡ s.error_count) × (s'.errors_by_category ≡ s.errors_by_category)

  -- The files and the state of a start, or those given where the program stops.
  abbrev start_or : List Text × CppLintState → Start → List Text × CppLintState
  start_or d (proceeds filenames s) = (filenames, s)
  start_or d (stops h) = d

  apply_settings-Configured :
      (opts : List (Opt × Text)) (v : Settings) (f : Text) (fs filenames' : List Text)
      (s s' : CppLintState)
      → Sets int opts (initial_settings int s) v
      → apply_settings int v (f ∷ fs) s ≡ proceeds filenames' s'
      → (filenames' ≡ f ∷ fs) × Configured opts (f ∷ fs) s s'
  unfolding apply_settings set_filters
  apply_settings-Configured opts v f fs filenames' s s' sets h =
      go (set_filters v.filters mid).1 refl h
    where
      mid : CppLintState
      mid = record s { output_format = v.output_format; verbose_level = v.verbosity }

      go :
          (b : Bool)
          → (set_filters v.filters mid).1 ≡ b
          → counted int v.counting_style (f ∷ fs) ((set_filters v.filters mid).0, b)
            ≡ proceeds filenames' s'
          → (filenames' ≡ f ∷ fs) × Configured opts (f ∷ fs) s s'
      go false e k = cc
      go true e k =
          subst (λ r. (r.0 ≡ f ∷ fs) × Configured opts (f ∷ fs) s r.1)
            (ap (start_or (filenames', s')) k)
            (
              refl,
              record {
                some_files = λ q. cc q;
                verbosity = sets.verbosity;
                output_format = sets.output_format;
                counting_style = sets.counting_style;
                flag = v.filters;
                filters_flag = sets.filters;
                filters = refl;
                signed = set_filters-IsSigned v.filters mid e;
                same_counts = (refl, refl);
              },
            )

  -- If the program goes on, there is a file, the verbosity, the output format, the counting style and
  -- the filters are each what the last occurrence of its option says, or what they were before where
  -- there is none (counting is then unset, and the filters are the default ones), every filter has
  -- a sign, and no count of errors has changed.
  pub parse_arguments-Configured :
      (opts : List (Opt × Text)) (filenames filenames' : List Text) (s s' : CppLintState)
      → parse_arguments int (parsed opts filenames) s ≡ proceeds filenames' s'
      → (filenames' ≡ filenames) × Configured opts filenames s s'
  unfolding parse_arguments
  parse_arguments-Configured opts filenames filenames' s s' h =
      read filenames (read_options int opts (initial_settings int s)) refl h
    where
      read :
          (fs : List Text) (l : Loop)
          → read_options int opts (initial_settings int s) ≡ l
          → with_files int l fs s ≡ proceeds filenames' s'
          → (filenames' ≡ fs) × Configured opts fs s s'
      read fs (halts x) e k = cc
      read [] (goes_on v) e k = cc
      read (f ∷ fs) (goes_on v) e k =
          apply_settings-Configured opts v f fs filenames' s s'
            (Sets-read_options opts (initial_settings int s) v e) k

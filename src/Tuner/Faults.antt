-- ===== src/Tuner/Faults.antt =====
-- When a run of the tuner raises TypeError.
use mathlib.Core.Option
use mathlib.Core.Path.{subst}
use mit_6172_fa15_project.Base.{
  ◌++◌, ℕ, ◌||◌, not, length, Bool, true, false, List, Option, none, some, Text, if◌then◌else◌, ltb,
  ◌≡◌, ◌↔◌, ◌≤◌, inl, inr, refl, sym, arith, Bool-cases, some-ne-none, is_some,
}
use mit_6172_fa15_project.Str.{codes}
use mit_6172_fa15_project.Dict.{Dict, get, has}
use mit_6172_fa15_project.Tuner.{Numbers, Value, num, text}
use mit_6172_fa15_project.Tuner.Output.{parse_awsrun_stdout}
use mit_6172_fa15_project.Tuner.Run.{
  Args, accepts_args, ProgramResult, Result, make_command, trace_params, bin_command, Tuner,
  with_runtime, finish_awsrun, finish_local, run,
}

-- The statistics were read and count at least three, and the runtime among them is no number.
pub record IsMute (p : Numbers) (result : Dict (Value p.Num)) : Type 0 where
  pub enough : 3 ≤ length result
  pub word : Text
  pub runtime : get (codes "runtime") result ≡ some (text word)

module _ (p : Numbers) (args : Args) (call_program : Text → ℕ → ProgramResult p.Num)
    (cfg : List (Text × Text)) (t : Tuner p.Num) where
  -- The program was made, it ran on the worker machines, and its runtime is no number.
  pub record Faults : Type 0 where
    pub made : (call_program (make_command args cfg) args.make_timeout).failed ≡ false
    pub remote : args.awsrun ≡ true
    pub traces : Text
    pub traced : trace_params args ≡ some traces
    pub mute :
        IsMute p (
          parse_awsrun_stdout p
            (call_program (bin_command args traces) args.command_timeout).stdout)

  runtime-none :
      (v : Option (Value p.Num)) (result : Dict (Value p.Num)) (a b : Text)
      → (with_runtime p v result a b t).1 ≡ none
      → (word : Text) × (v ≡ some (text word))
  runtime-none none result a b h = cc
  runtime-none (some (text s)) result a b h = (s, refl)
  runtime-none (some (num n)) result a b h = cc

  finish_awsrun-none :
      (result : Dict (Value p.Num)) (a b : Text)
      → ((finish_awsrun p result a b t).1 ≡ none) ↔ IsMute p result
  unfolding finish_awsrun
  finish_awsrun-none result a b = (there_way, back)
    where
      there_way : (finish_awsrun p result a b t).1 ≡ none → IsMute p result
      there_way h =
          elim (Bool-cases (ltb (length result) 3 || not (has (codes "runtime") result))) [
            | inl y ↦ absurd (some-ne-none _ (rw y at h))
            | inr n ↦
                let (word, e) =
                  runtime-none (get (codes "runtime") result) result a b (rw n at h) in
                record { enough = ground arith; word = word; runtime = e }
          ]

      back : IsMute p result → (finish_awsrun p result a b t).1 ≡ none
      back m = rw m.runtime (ground (arith, m.enough))

  trace_params-some : accepts_args args ≡ true → (traces : Text) × (trace_params args ≡ some traces)
  unfolding trace_params
  trace_params-some = given args.trace_file args.trace_dir
    where
      given :
          (file dir : Option Text)
          → (is_some file || is_some dir) ≡ true
          → (traces : Text) × (elim file [
            | some f ↦ some (codes "-f " ++ f)
            | none ↦ Option.map (λ d. codes "-t " ++ d) dir
          ]
              ≡ some traces)
      given (some f) dir h = (codes "-f " ++ f, refl)
      given none (some d) h = (codes "-t " ++ d, refl)
      given none none h = cc

  finish_local-some : (r : ProgramResult p.Num) (a b : Text) → ¬ ((finish_local p r a b t).1 ≡ none)
  unfolding finish_local
  finish_local-some r a b h = elim (Bool-cases (r.timeout || r.failed)) [
    | inl y ↦ some-ne-none _ (rw y at h)
    | inr n ↦ some-ne-none _ (rw n at h)
  ]

  abbrev finished : Text → Bool → Tuner p.Num × Option (Result p.Num)
  finished traces remote =
      let a = make_command args cfg in
      let b = bin_command args traces in
      let r = call_program b args.command_timeout in
      if remote
      then finish_awsrun p (parse_awsrun_stdout p r.stdout) a b t
      else finish_local p r a b t

  -- Where a trace file or a directory is given, a run raises TypeError exactly if the program was
  -- made, ran on the worker machines and printed at least three statistics with a runtime that is
  -- no number. Every other run ends with a result.
  pub run-none : accepts_args args ≡ true → ((run p args call_program cfg t).1 ≡ none) ↔ Faults
  unfolding run
  run-none accepted = (there_way, back)
    where
      there_way : (run p args call_program cfg t).1 ≡ none → Faults
      there_way h =
          let (traces, e) = trace_params-some accepted in
          elim (Bool-cases (call_program (make_command args cfg) args.make_timeout).failed) [
            | inl y ↦ absurd (some-ne-none _ (rw y at h))
            | inr n ↦ ran traces e n args.awsrun refl (rw (n, e) at h)
          ]
        where
          ran :
              (traces : Text)
              → trace_params args ≡ some traces
              → (call_program (make_command args cfg) args.make_timeout).failed ≡ false
              → (b : Bool) → args.awsrun ≡ b
              → (finished traces b).1 ≡ none
              → Faults
          ran traces e n true i k = record {
            made = n;
            remote = i;
            traces = traces;
            traced = e;
            mute = (finish_awsrun-none _ _ _).0 k;
          }
          ran traces e n false i k = absurd (finish_local-some _ _ _ k)

      back : Faults → (run p args call_program cfg t).1 ≡ none
      back f =
          rw (f.made, f.traced)
            (subst (λ b. (finished f.traces b).1 ≡ none) (sym f.remote)
              ((finish_awsrun-none _ _ _).1 f.mute))

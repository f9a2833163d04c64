-- ===== src/Tuner/Run.antt =====
-- `MdriverTuner` (opentuner_run.py:51-184). Runs may go on in parallel; what they share they change
-- in one step each, under the lock, so that a schedule is the order of these steps.
use mathlib.Core.Option
use mit_6172_fa15_project.Base.{
  ℕ, Bool, not, ◌||◌, List, [], ◌∷◌, ◌++◌, Option, none, some, Text, if◌then◌else◌, ltb, length,
  is_some,
}
use mit_6172_fa15_project.Str.{codes}
use mit_6172_fa15_project.Dict.{Dict, get, has}
use mit_6172_fa15_project.Tuner.{Numbers, Value, num, text, value_gt}
use mit_6172_fa15_project.Tuner.Output.{parse_stdout, parse_awsrun_stdout}

-- self.args
pub record Args : Type 0 where
  pub awsrun : Bool
  pub trace_file : Option Text
  pub trace_dir : Option Text
  pub make_timeout : ℕ
  pub command_timeout : ℕ

-- The assertion of `__init__`.
abbrev pub accepts_args : Args → Bool
accepts_args args = is_some args.trace_file || is_some args.trace_dir

-- What `call_program` returns; `failed` is `returncode != 0`.
pub record ProgramResult (N : Type 0) : Type 0 where
  pub failed : Bool
  pub timeout : Bool
  pub time : N
  pub stdout : Text

pub record Result (N : Type 0) : Type 0 where
  pub accuracy : Value N
  pub time : N

-- '-D {0}={1} ' for each parameter, with the values as `format` writes them
unfoldable pub gcc_params : List (Text × Text) → Text
unfolding codes
gcc_params [] = []
gcc_params ((key, value) ∷ cfg) =
    codes "-D " ++ key ++ codes "=" ++ value ++ codes " " ++ gcc_params cfg

unfoldable pub make_command : Args → List (Text × Text) → Text
unfolding gcc_params codes
make_command args cfg =
    (if args.awsrun
      then codes "make partial_clean mdriver GETTIME=1 DEBUG=0 PARAMS=\""
      else codes "make partial_clean mdriver DEBUG=0 PARAMS=\"")
    ++ gcc_params cfg
    ++ codes "\""

-- `none` is the TypeError of `'-t ' + None`
unfoldable pub trace_params : Args → Option Text
unfolding codes
trace_params args = elim args.trace_file [
  | some file ↦ some (codes "-f " ++ file)
  | none ↦ Option.map (λ dir. codes "-t " ++ dir) args.trace_dir
]

unfoldable pub bin_command : Args → Text → Text
unfolding codes
bin_command args traces =
    (if args.awsrun then codes "awsrun ./mdriver -g " else codes "./mdriver -g ") ++ traces

pub record Tuner (N : Type 0) : Type 0 where
  pub best_accuracy : Value N
  pub best_make_cmd : Text
  pub best_bin_cmd : Text

module _ (p : Numbers) where
  abbrev pub initial_tuner : Tuner p.Num
  initial_tuner = record { best_accuracy = num p.nought; best_make_cmd = []; best_bin_cmd = [] }

  -- The step under the lock.
  unfoldable pub update_best : Value p.Num → Text → Text → Tuner p.Num → Tuner p.Num
  update_best accuracy make_cmd bin_cmd t =
      if value_gt p accuracy t.best_accuracy
      then record { best_accuracy = accuracy; best_make_cmd = make_cmd; best_bin_cmd = bin_cmd }
      else t

  -- The tuner behind a run, and its result; `none` is a TypeError.
  abbrev pub Outcome : Type 0
  Outcome = Tuner p.Num × Option (Result p.Num)

  -- Result(accuracy=accuracy, time=time), with the accuracy still 0
  abbrev pub rejected : p.Num → Tuner p.Num → Outcome
  rejected time t = (t, some (record { accuracy = num p.nought; time = time }))

  abbrev pub measured : Value p.Num → p.Num → Text → Text → Tuner p.Num → Outcome
  measured accuracy time make_cmd bin_cmd t =
      (update_best accuracy make_cmd bin_cmd t, some (record { accuracy = accuracy; time = time }))

  -- result.get('perfidx', accuracy)
  unfoldable pub perfidx : Dict (Value p.Num) → Value p.Num
  perfidx result = elim (get (codes "perfidx") result) [ none ↦ num p.nought | some v ↦ v ]

  -- `time += result['runtime']`
  abbrev pub with_runtime :
      Option (Value p.Num) → Dict (Value p.Num) → Text → Text → Tuner p.Num → Outcome
  with_runtime none result make_cmd bin_cmd t = rejected p.nought t
  with_runtime (some (text s)) result make_cmd bin_cmd t = (t, none)
  with_runtime (some (num n)) result make_cmd bin_cmd t =
      measured (perfidx result) (p.add p.nought n) make_cmd bin_cmd t

  unfoldable pub finish_awsrun : Dict (Value p.Num) → Text → Text → Tuner p.Num → Outcome
  finish_awsrun result make_cmd bin_cmd t =
      if ltb (length result) 3 || not (has (codes "runtime") result)
      then rejected p.nought t
      else with_runtime (get (codes "runtime") result) result make_cmd bin_cmd t

  unfoldable pub finish_local : ProgramResult p.Num → Text → Text → Tuner p.Num → Outcome
  finish_local r make_cmd bin_cmd t =
      let time = p.add p.nought r.time in
      if r.timeout || r.failed
      then rejected time t
      else measured (perfidx (parse_stdout p r.stdout)) time make_cmd bin_cmd t

  abbrev pub run_mdriver :
      Args → (Text → ℕ → ProgramResult p.Num) → Text → Text → Tuner p.Num → Outcome
  run_mdriver args call_program make_cmd bin_cmd t =
      let r = call_program bin_cmd args.command_timeout in
      if args.awsrun
      then finish_awsrun (parse_awsrun_stdout p r.stdout) make_cmd bin_cmd t
      else finish_local r make_cmd bin_cmd t

  abbrev pub with_traces :
      Option Text → Args → (Text → ℕ → ProgramResult p.Num) → Text → Tuner p.Num → Outcome
  with_traces none args call_program make_cmd t = (t, none)
  with_traces (some traces) args call_program make_cmd t =
      run_mdriver args call_program make_cmd (bin_command args traces) t

  -- run
  unfoldable pub run :
      Args → (Text → ℕ → ProgramResult p.Num) → List (Text × Text) → Tuner p.Num → Outcome
  run args call_program cfg t =
      let make_cmd = make_command args cfg in
      if (call_program make_cmd args.make_timeout).failed
      then rejected p.nought t
      else with_traces (trace_params args) args call_program make_cmd t

-- ===== src/Tests/Tuning.antt =====
-- The tuner (mymalloc/opentuner_run.py) at concrete inputs, with the natural numbers for its numbers.
use mit_6172_fa15_project.Base.{
  ℕ, ◌+◌, ◌*◌, ◌-◌, ltb, leb, true, false, not, ◌&&◌, List, [], ◌∷◌, Option, none, some, Text,
  if◌then◌else◌, keep, ◌≡◌, ◌↔◌, refl, arith,
}
use mit_6172_fa15_project.Str.{codes, strip, starts_with}
use mit_6172_fa15_project.Dict.{get, put}
use mit_6172_fa15_project.Tuner.{Numbers, IsOrdered, num, value_gt}
use mit_6172_fa15_project.Tuner.Output.{
  splitlines, split_once, is_status, try_num, read_statistic, read_statistics, parse_stdout,
  read_awsrun, parse_awsrun_stdout, last_value, parse_stdout_last,
}
use mit_6172_fa15_project.Tuner.Run.{
  Args, ProgramResult, initial_tuner, update_best, perfidx, finish_awsrun, make_command,
  bin_command, trace_params, gcc_params, run,
}
use mit_6172_fa15_project.Tuner.Best.{Job, IsBest, run_all, run_all-IsBest}
use mit_6172_fa15_project.Tuner.Faults.{Faults, run-none}

abbrev digits_of : ℕ → Text → Option ℕ
digits_of n [] = some n
digits_of n (c ∷ s) =
    let rest = digits_of (n * 10 + (c - b'0')) s in if leb b'0' c && leb c b'9' then rest else none

abbrev naturals : Numbers
naturals = record {
  Num = ℕ;
  nought = 0;
  add = ◌+◌;
  gt = λ a b. ltb b a;
  read = λ s. digits_of 0 (strip s);
}

naturals_ordered : IsOrdered naturals
naturals_ordered = record { asym = λ a b h. ground arith; neg_trans = λ a b c h k. ground arith }

abbrev stdout : Text
stdout = codes "Waiting for job to finish: 1\nruntime: 2\r\nperfidx: 70\nperfidx: 90\nname: x"

parse_test : get (codes "perfidx") (parse_stdout naturals stdout) ≡ some (num 90)
unfolding codes parse_stdout splitlines split_once read_statistics read_statistic try_num strip put
    get
parse_test = refl

awsrun_test : get (codes "Waiting for job to finish") (parse_awsrun_stdout naturals stdout) ≡ none
unfolding codes parse_awsrun_stdout splitlines split_once read_awsrun read_statistic try_num strip
    put get is_status starts_with
awsrun_test = refl

parse_stdout_last_example :
    (get (codes "name") (parse_stdout naturals stdout)
      ≡ last_value naturals (codes "name") (splitlines stdout))
    × (get (codes "name") (parse_awsrun_stdout naturals stdout)
        ≡ last_value naturals
            (codes "name")
            (keep (λ line. not (is_status line)) (splitlines stdout)))
parse_stdout_last_example = parse_stdout_last naturals (codes "name") stdout

abbrev args : Args
args = record {
  awsrun = true;
  trace_file = none;
  trace_dir = some (codes "traces");
  make_timeout = 20;
  command_timeout = 60;
}

-- A program that is made and then prints the text.
abbrev printing : Text → Text → ℕ → ProgramResult ℕ
printing out command limit = record { failed = false; timeout = false; time = 1; stdout = out }

abbrev cfg : List (Text × Text)
cfg = (codes "MAX_BLOCK_POW", codes "8") ∷ []

abbrev better : Job ℕ
better = record { cfg = cfg; call_program = printing stdout }

abbrev worse : Job ℕ
worse = record { cfg = []; call_program = printing (codes "a:1\nruntime:3\nperfidx:7") }

best_test :
    (run_all naturals args
      (worse ∷ better ∷ worse ∷ [])
      (initial_tuner naturals)
      []).0.best_make_cmd
    ≡ codes "make partial_clean mdriver GETTIME=1 DEBUG=0 PARAMS=\"-D MAX_BLOCK_POW=8 \""
unfolding codes run_all run make_command gcc_params bin_command trace_params finish_awsrun perfidx
    update_best value_gt parse_awsrun_stdout splitlines split_once read_awsrun read_statistic
    try_num strip put get is_status starts_with
best_test = refl

run_all-IsBest_example :
    IsBest naturals
      (run_all naturals args (worse ∷ better ∷ []) (initial_tuner naturals) []).0
      (run_all naturals args (worse ∷ better ∷ []) (initial_tuner naturals) []).1
run_all-IsBest_example = run_all-IsBest naturals naturals_ordered args (worse ∷ better ∷ [])

faults_test :
    (run naturals args
      (printing (codes "a:1\nruntime:x\nperfidx:7"))
      cfg
      (initial_tuner naturals)).1
    ≡ none
unfolding codes run make_command gcc_params bin_command trace_params finish_awsrun
    parse_awsrun_stdout splitlines split_once read_awsrun read_statistic try_num strip put get
    is_status starts_with
faults_test = refl

run-none_example :
    ((run naturals args (printing stdout) cfg (initial_tuner naturals)).1 ≡ none)
    ↔ Faults naturals args (printing stdout) cfg (initial_tuner naturals)
run-none_example = run-none naturals args (printing stdout) cfg (initial_tuner naturals) refl

-- ===== src/Tuner/Best.antt =====
-- What the tuner remembers of its runs.
use mit_6172_fa15_project.Base.{
  ℕ, ◌||◌, not, length, Bool, true, false, List, [], ◌∷◌, Option, none, some, Text, if◌then◌else◌,
  ltb, ◌≡◌, ◌⊎◌, inl, inr, refl, arith, All, In, here, there, Bool-cases,
}
use mit_6172_fa15_project.Str.{codes, text_gt}
use mit_6172_fa15_project.Dict.{Dict, get, has}
use mit_6172_fa15_project.Tuner.Output.{parse_stdout, parse_awsrun_stdout}
use mit_6172_fa15_project.Tuner.{Numbers, IsOrdered, Value, num, text, value_gt}
use mit_6172_fa15_project.Tuner.Run.{
  Args, ProgramResult, Result, make_command, trace_params, bin_command, Tuner, initial_tuner,
  update_best, Outcome, rejected, measured, perfidx, with_runtime, finish_awsrun, finish_local,
  with_traces, run,
}

text_gt-asym : (a b : Text) → text_gt a b ≡ true → text_gt b a ≡ false
unfolding text_gt
text_gt-asym [] b h = cc
text_gt-asym (x ∷ a) [] h = refl
text_gt-asym (x ∷ a) (y ∷ b) h = ground (arith, text_gt-asym a b)

text_gt_trans : (a b c : Text) → text_gt a b ≡ false → text_gt b c ≡ false → text_gt a c ≡ false
unfolding text_gt
text_gt_trans [] b c h k = refl
text_gt_trans (x ∷ a) [] c h k = cc
text_gt_trans (x ∷ a) (y ∷ b) [] h k = cc
text_gt_trans (x ∷ a) (y ∷ b) (z ∷ c) h k = ground (arith, text_gt_trans a b c)

-- A run that came to an end: the accuracy that it reported, and its commands.
pub record Entry (N : Type 0) : Type 0 where
  pub accuracy : Value N
  pub make_cmd : Text
  pub bin_cmd : Text

-- A configuration, and the programs that were called for it.
pub record Job (N : Type 0) : Type 0 where
  pub cfg : List (Text × Text)
  pub call_program : Text → ℕ → ProgramResult N

abbrev bin_of : Args → Text
bin_of args = elim (trace_params args) [ none ↦ [] | some traces ↦ bin_command args traces ]

module _ (p : Numbers) where
  abbrev best_entry : Tuner p.Num → Entry p.Num
  best_entry t = record {
    accuracy = t.best_accuracy;
    make_cmd = t.best_make_cmd;
    bin_cmd = t.best_bin_cmd;
  }

  abbrev add_entry :
      Args → Job p.Num → Option (Result p.Num) → List (Entry p.Num) → List (Entry p.Num)
  add_entry args job none es = es
  add_entry args job (some r) es =
      record { accuracy = r.accuracy; make_cmd = make_command args job.cfg; bin_cmd = bin_of args }
      ∷ es

  -- The runs of a search, in the order in which they take the lock.
  unfoldable pub run_all :
      Args → List (Job p.Num) → Tuner p.Num → List (Entry p.Num) → Tuner p.Num × List (Entry p.Num)
  run_all args [] t es = (t, es)
  run_all args (job ∷ jobs) t es =
      let (t', r) = run p args job.call_program job.cfg t in
      run_all args jobs t' (add_entry args job r es)

  -- The tuner remembers the best accuracy of the runs, and the commands that gave it.
  pub record IsBest (t : Tuner p.Num) (es : List (Entry p.Num)) : Type 0 where
    pub from_zero : value_gt p (num p.nought) t.best_accuracy ≡ false
    pub unbeaten : All (λ e. value_gt p e.accuracy t.best_accuracy ≡ false) es
    pub attained : (t ≡ initial_tuner p) ⊎ In (best_entry t) es

  module _ (o : IsOrdered p) where
    value_gt-asym : (a b : Value p.Num) → value_gt p a b ≡ true → value_gt p b a ≡ false
    unfolding value_gt
    value_gt-asym (num a) (num b) h = o.asym a b h
    value_gt-asym (num a) (text t) h = cc
    value_gt-asym (text s) (num b) h = refl
    value_gt-asym (text s) (text t) h = text_gt-asym s t h

    value_gt_trans :
        (a b c : Value p.Num)
        → value_gt p a b ≡ false
        → value_gt p b c ≡ false
        → value_gt p a c ≡ false
    unfolding value_gt
    value_gt_trans (num a) (num b) (num c) h k = o.neg_trans a b c h k
    value_gt_trans (num a) (num b) (text c) h k = refl
    value_gt_trans (num a) (text b) (num c) h k = cc
    value_gt_trans (num a) (text b) (text c) h k = refl
    value_gt_trans (text a) (num b) c h k = cc
    value_gt_trans (text a) (text b) (num c) h k = cc
    value_gt_trans (text a) (text b) (text c) h k = text_gt_trans a b c h k

    All-raised :
        (a b : Value p.Num) (es : List (Entry p.Num))
        → value_gt p a b ≡ false
        → All (λ e. value_gt p e.accuracy a ≡ false) es
        → All (λ e. value_gt p e.accuracy b ≡ false) es
    All-raised a b [] h k = tt
    All-raised a b (e ∷ es) h k = (value_gt_trans e.accuracy a b k.0 h, All-raised a b es h k.1)

    value_gt_self : (a : Value p.Num) → value_gt p a a ≡ false
    value_gt_self a = elim (Bool-cases (value_gt p a a)) [ inl y ↦ value_gt-asym a a y | inr n ↦ n ]

    rejected-IsBest :
        (t : Tuner p.Num) (es : List (Entry p.Num)) (e : Entry p.Num)
        → e.accuracy ≡ num p.nought
        → IsBest t es
        → IsBest t (e ∷ es)
    rejected-IsBest t es e z b = record {
      from_zero = b.from_zero;
      unbeaten = (rw z b.from_zero, b.unbeaten);
      attained = elim b.attained [ inl i ↦ inl i | inr m ↦ inr (there m) ];
    }

    update_best-IsBest :
        (t : Tuner p.Num) (es : List (Entry p.Num)) (e : Entry p.Num)
        → IsBest t es
        → IsBest (update_best p e.accuracy e.make_cmd e.bin_cmd t) (e ∷ es)
    unfolding update_best
    update_best-IsBest t es e b = elim (Bool-cases (value_gt p e.accuracy t.best_accuracy)) [
      | inl y ↦ rw y (record {
        from_zero =
            value_gt_trans (num p.nought) t.best_accuracy e.accuracy b.from_zero
              (value_gt-asym e.accuracy t.best_accuracy y);
        unbeaten = (
          value_gt_self e.accuracy,
          All-raised t.best_accuracy e.accuracy es (value_gt-asym e.accuracy t.best_accuracy y)
              b.unbeaten,
        );
        attained = inr (here refl);
      })
      | inr n ↦ rw n (record {
        from_zero = b.from_zero;
        unbeaten = (n, b.unbeaten);
        attained = elim b.attained [ inl i ↦ inl i | inr m ↦ inr (there m) ];
      })
    ]

    -- How a run may end: with a TypeError, rejected, or with an accuracy that it offers.
    data Ended (t : Tuner p.Num) (make_cmd bin_cmd : Text) (x : Outcome p) : Type 0 where
      faulted : x ≡ (t, none) → Ended t make_cmd bin_cmd x
      refused : (time : p.Num) → x ≡ rejected p time t → Ended t make_cmd bin_cmd x
      offered :
          (accuracy : Value p.Num) (time : p.Num)
          → x ≡ measured p accuracy time make_cmd bin_cmd t
          → Ended t make_cmd bin_cmd x

    finish_awsrun-Ended :
        (result : Dict (Value p.Num)) (make_cmd bin_cmd : Text) (t : Tuner p.Num)
        → Ended t make_cmd bin_cmd (finish_awsrun p result make_cmd bin_cmd t)
    unfolding finish_awsrun
    finish_awsrun-Ended result make_cmd bin_cmd t =
        elim (Bool-cases (ltb (length result) 3 || not (has (codes "runtime") result))) [
          | inl y ↦ rw y (refused p.nought refl)
          | inr n ↦ rw n (by_runtime (get (codes "runtime") result))
        ]
      where
        by_runtime :
            (v : Option (Value p.Num))
            → Ended t make_cmd bin_cmd (with_runtime p v result make_cmd bin_cmd t)
        by_runtime none = refused p.nought refl
        by_runtime (some (text s)) = faulted refl
        by_runtime (some (num n)) = offered (perfidx p result) (p.add p.nought n) refl

    finish_local-Ended :
        (r : ProgramResult p.Num) (make_cmd bin_cmd : Text) (t : Tuner p.Num)
        → Ended t make_cmd bin_cmd (finish_local p r make_cmd bin_cmd t)
    unfolding finish_local
    finish_local-Ended r make_cmd bin_cmd t = elim (Bool-cases (r.timeout || r.failed)) [
      | inl y ↦ rw y (refused (p.add p.nought r.time) refl)
      | inr n ↦ rw n (offered (perfidx p (parse_stdout p r.stdout)) (p.add p.nought r.time) refl)
    ]

    run-Ended :
        (args : Args) (job : Job p.Num) (t : Tuner p.Num)
        → Ended t (make_command args job.cfg) (bin_of args) (run p args job.call_program job.cfg t)
    unfolding run
    run-Ended args job t =
        elim (Bool-cases (job.call_program (make_command args job.cfg) args.make_timeout).failed) [
          | inl y ↦ rw y (refused p.nought refl)
          | inr n ↦ rw n (traced (trace_params args))
        ]
      where
        traced :
            (o : Option Text)
            → Ended t
                (make_command args job.cfg)
                (elim o [ none ↦ [] | some traces ↦ bin_command args traces ])
                (with_traces p o args job.call_program (make_command args job.cfg) t)
        traced none = faulted refl
        traced (some traces) = chosen args.awsrun
          where
            make_cmd : Text
            make_cmd = make_command args job.cfg

            r : ProgramResult p.Num
            r = job.call_program (bin_command args traces) args.command_timeout

            chosen :
                (b : Bool)
                → Ended t make_cmd (bin_command args traces) (
                    if b
                    then finish_awsrun p
                        (parse_awsrun_stdout p r.stdout)
                        make_cmd
                        (bin_command args traces)
                        t
                    else finish_local p r make_cmd (bin_command args traces) t)
            chosen true = finish_awsrun-Ended _ make_cmd _ t
            chosen false = finish_local-Ended r make_cmd _ t

    run-IsBest :
        (args : Args) (job : Job p.Num) (t : Tuner p.Num) (es : List (Entry p.Num))
        → IsBest t es
        → IsBest
            (run p args job.call_program job.cfg t).0
            (add_entry args job (run p args job.call_program job.cfg t).1 es)
    run-IsBest args job t es b = ended (run-Ended args job t)
      where
        ended :
            {x : Outcome p}
            → Ended t (make_command args job.cfg) (bin_of args) x
            → IsBest x.0 (add_entry args job x.1 es)
        ended (faulted e) = rw e b
        ended (refused time e) = rw e (rejected-IsBest t es _ refl b)
        ended (offered accuracy time e) = rw e (update_best-IsBest t es _ b)

    run_all_keeps-IsBest :
        (args : Args) (jobs : List (Job p.Num)) (t : Tuner p.Num) (es : List (Entry p.Num))
        → IsBest t es
        → IsBest (run_all args jobs t es).0 (run_all args jobs t es).1
    unfolding run_all
    run_all_keeps-IsBest args [] t es b = b
    run_all_keeps-IsBest args (job ∷ jobs) t es b =
        run_all_keeps-IsBest args jobs (run p args job.call_program job.cfg t).0 _
          (run-IsBest args job t es b)

    -- After the runs of a search, whatever they do and in whatever order they take the lock, no run
    -- that came to an end has reported a greater accuracy than the one remembered, and what is
    -- remembered is the accuracy of one of them with its two commands, or still the initial state.
    pub run_all-IsBest :
        (args : Args) (jobs : List (Job p.Num))
        → IsBest
            (run_all args jobs (initial_tuner p) []).0
            (run_all args jobs (initial_tuner p) []).1
    run_all-IsBest args jobs =
        run_all_keeps-IsBest args jobs (initial_tuner p) []
          (record { from_zero = value_gt_self (num p.nought); unbeaten = tt; attained = inl refl })

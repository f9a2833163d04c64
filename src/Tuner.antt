-- ===== src/Tuner.antt =====
-- mymalloc/opentuner_run.py: the search for the best parameters of the allocator. Numbers, and what
-- `int` and `float` read, are parameters; opentuner's `call_program` is an argument of a run.
pub mod Output
pub mod Run
pub mod Best
pub mod Faults
use mit_6172_fa15_project.Base.{Bool, true, false, Option, none, some, Text, ◌≡◌}
use mit_6172_fa15_project.Str.{text_gt}

-- The numbers of Python: `read s` is `int(s)`, else `float(s)`, and `none` where both raise
-- ValueError.
pub record Numbers : Type 1 where
  pub Num : Type 0
  pub nought : Num
  pub add : Num → Num → Num
  pub gt : Num → Num → Bool
  pub read : Text → Option Num

-- `>` on numbers without a NaN.
pub record IsOrdered (p : Numbers) : Type 0 where
  pub asym : (a b : p.Num) → p.gt a b ≡ true → p.gt b a ≡ false
  pub neg_trans : (a b c : p.Num) → p.gt a b ≡ false → p.gt b c ≡ false → p.gt a c ≡ false

pub data Value (N : Type 0) : Type 0 where
  num : N → Value N
  text : Text → Value N

module _ (p : Numbers) where
  -- a > b in Python 2, where every text is greater than every number
  unfoldable pub value_gt : Value p.Num → Value p.Num → Bool
  value_gt (num a) (num b) = p.gt a b
  value_gt (num a) (text t) = false
  value_gt (text s) (num b) = true
  value_gt (text s) (text t) = text_gt s t

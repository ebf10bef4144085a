-- ===== src/Context/Triggers.antt =====
-- `AdaptiveTriggerEvaluator` of di-core/src/context/adaptive_triggers.rs.
use di_rac.Prelude.{
  ℕ, Bool, true, false, List, [], ◌∷◌, Option, none, some, ◌==◌, leb, if◌then◌else◌,
}
use di_rac.Context.Metrics.{
  History, Floats, retry_accumulation, tool_bloat_rate, stale_ratio, growth_rate,
}

pub data TriggerSeverity : Type 0 where
  soft hard : TriggerSeverity

pub record TriggerResult : Type 0 where
  pub severity : TriggerSeverity

-- by the test of the hard threshold, and that of the soft one
abbrev pub graded : Bool → Bool → Option TriggerResult
graded true over_soft = some (record { severity = hard })
graded false true = some (record { severity = soft })
graded false false = none

abbrev pub pushed : Option TriggerResult → List TriggerResult → List TriggerResult
pushed none results = results
pushed (some r) results = r ∷ results

abbrev pub is_soft : TriggerResult → Bool
is_soft r = elim r.severity [ soft ↦ true | hard ↦ false ]

abbrev pub is_hard : TriggerResult → Bool
is_hard r = elim r.severity [ soft ↦ false | hard ↦ true ]

module _ (f : Floats) where
  open f use {F64, ratio, at_least}

  abbrev pub check_rate : ℕ → ℕ → F64 → Option TriggerResult
  check_rate over under rate = graded (at_least rate over) (at_least rate under)

  abbrev pub check_token_threshold : ℕ → ℕ → Option TriggerResult
  check_token_threshold current_tokens token_limit =
      if token_limit == 0 then none else check_rate 85 75 (ratio current_tokens token_limit)

  abbrev pub check_tool_bloat : History → Option TriggerResult
  check_tool_bloat metrics = check_rate 80 60 (tool_bloat_rate f metrics 5)

  abbrev pub check_stale_history : History → Option TriggerResult
  check_stale_history metrics = check_rate 85 70 (stale_ratio f metrics)

  unfoldable pub check_retry_accumulation : History → Option TriggerResult
  unfolding retry_accumulation
  check_retry_accumulation metrics =
      let retries = retry_accumulation metrics in graded (leb 5 retries) (leb 3 retries)

  abbrev pub check_growth_rate : History → Option TriggerResult
  check_growth_rate metrics = check_rate 25 15 (growth_rate f metrics)

  -- `AdaptiveTriggerEvaluator::evaluate`
  unfoldable pub evaluate_triggers : History → ℕ → ℕ → List TriggerResult
  unfolding check_retry_accumulation
  evaluate_triggers metrics current_tokens token_limit =
      pushed (check_token_threshold current_tokens token_limit) (
        pushed (check_tool_bloat metrics) (
          pushed (check_stale_history metrics)
            (pushed (check_retry_accumulation metrics) (pushed (check_growth_rate metrics) []))))

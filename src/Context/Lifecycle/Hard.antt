-- ===== src/Context/Lifecycle/Hard.antt =====
-- Hard triggers of a growing context (di-core/src/context/lifecycle.rs).
use di_rac.Prelude.{ℕ, Bool, true, false, not, ◌&&◌, [], none, ◌≡◌, ◌∙◌, refl, arith, any}
use di_rac.Context.Lifecycle.{
  LifecycleState, growing, near_limit, ContextLifecycleManager, next_state, evaluate_state,
  usage_ratio,
}
use di_rac.Context.Metrics.{Floats, tool_bloat_rate}
use di_rac.Context.Triggers.{
  graded, pushed, is_soft, is_hard, check_token_threshold, check_tool_bloat, check_stale_history,
  check_retry_accumulation, check_growth_rate, evaluate_triggers,
}

abbrev pub is_near : LifecycleState → Bool
is_near near_limit = true
is_near _ = false

soft_of_graded :
    (over under : Bool) → any is_soft (pushed (graded over under) []) ≡ (under && not over)
soft_of_graded true true = refl
soft_of_graded true false = refl
soft_of_graded false true = refl
soft_of_graded false false = refl

module _ (f : Floats) where
  open f use {F64, above, at_least}

  from_growing :
      (usage : F64) (s h : Bool)
      → above usage 75 ≡ false
      → is_near (next_state f usage s h growing) ≡ s
  unfolding next_state
  from_growing usage true h below = rw below refl
  from_growing usage false h below = rw below (ground arith)

  only_bloat :
      (m : ContextLifecycleManager) (c l : ℕ)
      → check_token_threshold f c l ≡ none
      → check_stale_history f m.metrics ≡ none
      → check_retry_accumulation f m.metrics ≡ none
      → check_growth_rate f m.metrics ≡ none
      → evaluate_triggers f m.metrics c l ≡ pushed (check_tool_bloat f m.metrics) []
  unfolding evaluate_triggers
  only_bloat m c l tokens stale retries growth = rw (tokens, stale, retries, growth) refl

-- Where the share of tool results is what may fire a trigger, and the usage is at most 75 percent, a
-- growing context comes near its limit exactly where that share is at least 60 and below 80 percent:
-- from 80 percent on, where the trigger is a hard one, it does not.
pub hard_trigger_ignored :
    (f : Floats) (m : ContextLifecycleManager) (current_tokens token_limit : ℕ)
    → m.state ≡ growing
    → f.above (usage_ratio f current_tokens token_limit) 75 ≡ false
    → check_token_threshold f current_tokens token_limit ≡ none
    → check_stale_history f m.metrics ≡ none
    → check_retry_accumulation f m.metrics ≡ none
    → check_growth_rate f m.metrics ≡ none
    → is_near (evaluate_state f current_tokens token_limit m).state ≡ (
        f.at_least (tool_bloat_rate f m.metrics 5) 60
        && not (f.at_least (tool_bloat_rate f m.metrics 5) 80))
unfolding evaluate_state
hard_trigger_ignored f m c l state below tokens stale retries growth =
    let usage = usage_ratio f c l in
    let rate = tool_bloat_rate f m.metrics 5 in
    rw (state, only_bloat f m c l tokens stale retries growth)
      (from_growing f usage _ (any is_hard (pushed (check_tool_bloat f m.metrics) [])) below
        ∙ soft_of_graded (f.at_least rate 80) (f.at_least rate 60))

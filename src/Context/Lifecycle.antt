-- ===== src/Context/Lifecycle.antt =====
-- `ContextLifecycleManager` of di-core/src/context/lifecycle.rs.
pub mod Pressure
pub mod Hard
use di_rac.Prelude.{
  ℕ, String, Bool, true, false, not, ◌&&◌, ◌||◌, List, [], ◌∷◌, ◌++◌, Option, none, some, ◌==◌, ltb,
  length, any, is_empty, Chars, codes, as_bytes, join_texts, if◌then◌else◌,
}
use di_rac.Context.Metrics.{History, TurnMetrics, Floats, record_turn}
use di_rac.Context.Triggers.{evaluate_triggers, is_soft, is_hard}

pub data LifecycleState : Type 0 where
  normal growing near_limit compaction_due post_compaction hibernating : LifecycleState

pub data PressureLevel : Type 0 where
  low moderate high critical : PressureLevel

pub record CompactAdvisory : Type 0 where
  pub allowed : Bool
  pub pressure_level : PressureLevel
  pub guidance : Option Chars

pub record ContextLifecycleManager : Type 0 where
  pub state : LifecycleState
  pub metrics : History

-- `ContextLifecycleManager::new`
abbrev pub new_lifecycle : ContextLifecycleManager
new_lifecycle = record { state = normal; metrics = [] }

-- `transition_to`: to the state that it is in, too, which changes nothing
abbrev pub transition_to : LifecycleState → ContextLifecycleManager → ContextLifecycleManager
transition_to new_state m = record m { state = new_state }

abbrev pub is_due : LifecycleState → Bool
is_due compaction_due = true
is_due _ = false

abbrev pub should_compact : ContextLifecycleManager → Bool
should_compact m = is_due m.state

abbrev pub notify_compaction_complete : ContextLifecycleManager → ContextLifecycleManager
notify_compaction_complete m = transition_to post_compaction m

abbrev pub only_issue : Bool → String → List Chars
only_issue true message = codes message ∷ []
only_issue false message = []

unfoldable pub check_summary_quality : Chars → Option Chars
unfolding as_bytes
check_summary_quality summary =
    let issues =
      only_issue (ltb (length (as_bytes summary)) 200) "Summary is too short (need >200 chars)"
      ++ only_issue (not (any (λ c. c == b'/') summary) && not (any (λ c. c == b'.') summary))
          "Summary should mention specific file paths" in
    if is_empty issues then none else some (codes "Guidance: " ++ join_texts (codes "; ") issues)

abbrev pub advised : Bool → PressureLevel → Option Chars → CompactAdvisory
advised allowed level guidance = record {
  allowed = allowed;
  pressure_level = level;
  guidance = guidance;
}

-- what the engine does with a manager
pub data LifecycleCall : Type 0 where
  turn : TurnMetrics → LifecycleCall
  evaluation : ℕ → ℕ → LifecycleCall
  completion : LifecycleCall

module _ (f : Floats) where
  open f use {F64, zero_f64, ratio, above, at_most}

  abbrev pub usage_ratio : ℕ → ℕ → F64
  usage_ratio current_tokens token_limit =
      if ltb 0 token_limit then ratio current_tokens token_limit else zero_f64

  -- from a state, by the usage and whether soft and hard triggers fired
  unfoldable pub next_state : F64 → Bool → Bool → LifecycleState → LifecycleState
  next_state usage has_soft has_hard normal = if above usage 50 then growing else normal
  next_state usage has_soft has_hard growing =
      if above usage 75 || has_soft
      then near_limit
      else if at_most usage 40
      then normal
      else growing
  next_state usage has_soft has_hard near_limit =
      if above usage 85 || has_hard
      then compaction_due
      else if at_most usage 50
      then growing
      else near_limit
  next_state usage has_soft has_hard compaction_due = compaction_due
  next_state usage has_soft has_hard post_compaction = normal
  next_state usage has_soft has_hard hibernating = hibernating

  -- `ContextLifecycleManager::evaluate`
  unfoldable pub evaluate_state : ℕ → ℕ → ContextLifecycleManager → ContextLifecycleManager
  unfolding next_state evaluate_triggers
  evaluate_state current_tokens token_limit m =
      let triggers = evaluate_triggers f m.metrics current_tokens token_limit in
      transition_to
        (next_state (usage_ratio current_tokens token_limit) (any is_soft triggers)
          (any is_hard triggers) m.state)
        m

  unfoldable pub evaluate_compact_advisory :
      Chars → ℕ → ℕ → ContextLifecycleManager → CompactAdvisory
  unfolding check_summary_quality
  evaluate_compact_advisory summary current_tokens token_limit m = elim m.state [
    | compaction_due ↦ advised true critical none
    | near_limit ↦ advised true high (check_summary_quality summary)
    | growing ↦
        if above (usage_ratio current_tokens token_limit) 50
        then advised true moderate (check_summary_quality summary)
        else advised false low (
            some (
              codes "Context pressure is low. Continue working — compaction will trigger "
              ++ codes "automatically when needed."))
    | _ ↦ advised false low (some (codes "Context pressure is low. Continue working."))
  ]

  abbrev pub on_call : LifecycleCall → ContextLifecycleManager → ContextLifecycleManager
  unfolding record_turn evaluate_state
  on_call (turn t) m = record m { metrics = record_turn t m.metrics }
  on_call (evaluation current_tokens token_limit) m = evaluate_state current_tokens token_limit m
  on_call completion m = notify_compaction_complete m

  unfoldable pub run_calls : List LifecycleCall → ContextLifecycleManager → ContextLifecycleManager
  unfolding record_turn evaluate_state
  run_calls [] m = m
  run_calls (c ∷ cs) m = run_calls cs (on_call c m)

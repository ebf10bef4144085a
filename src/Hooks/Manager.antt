-- ===== src/Hooks/Manager.antt =====
-- `AgentHookManager` of di-core/src/hooks/mod.rs: the active module and what has been merged.
pub mod Keys
pub mod Kinds
pub mod Capping
pub mod Invariant
pub mod Retrigger
use text.Mathlib.Text.{starts_with}
use di_rac.Prelude.{
  ℕ, ℤ, String, Bool, not, List, [], ◌∷◌, Option, none, some, ◌⊎◌, inl, inr, take, retain, ◌>>=◌,
}
use di_rac.Hooks.Directive.{Severity, DedupeKey, ObserverTrigger, MergedDirectives, no_directives}
use di_rac.Hooks.Directive.Merge.{merge}
use di_rac.Hooks.Eval.Run.{AgentHookLimits, default_limits, EvalResult, evaluate}
use di_rac.Hooks.Event.{AgentLoopEvent, build_context}
use di_rac.Hooks.External.{External}
use di_rac.Hooks.Ir.{CompiledHookModule, RoleDef}

pub record AgentHookManager (x : External) : Type 0 where
  pub active : CompiledHookModule x
  pub limits : AgentHookLimits
  pub merged : MergedDirectives
  pub agent_id : Option String

-- `cap_merged_directives`
unfoldable pub cap_merged_directives : AgentHookLimits → MergedDirectives → MergedDirectives
cap_merged_directives limits m = record m {
  observer_triggers = take limits.max_observer_triggers_per_event m.observer_triggers;
  validations = take limits.max_validation_requests_per_task m.validations;
  planner_reviews = take limits.max_planner_reviews_per_task m.planner_reviews;
  finish_gates = take limits.max_finish_gates m.finish_gates;
  remembered_facts = take limits.max_remembered_facts m.remembered_facts;
}

-- what the agent does with its manager, one call at a time
pub data Call (x : External) : Type 0 where
  fire : (ℕ → ℤ) → AgentLoopEvent x → Call x
  reloads : CompiledHookModule x ⊎ List String → Call x
  swaps : CompiledHookModule x → Call x
  resets clears takes_notes takes_triggers : Call x

-- a key of the kind that `take_observer_triggers` forgets
unfoldable pub is_trigger_key : DedupeKey → Bool
is_trigger_key k = starts_with k.kind "trigger_observer"

module _ {x : External} where
  abbrev empty_module : CompiledHookModule x
  empty_module = record {
    id = "empty";
    source_hash = "empty";
    groups = [];
    roles = [];
    handlers = [];
  }

  -- `with_agent_id`; `loaded` is what the loader returned: a module, or its errors.
  unfoldable pub with_agent_id :
      Option String → CompiledHookModule x ⊎ List String → AgentHookManager x
  with_agent_id agent_id loaded = record {
    active = elim loaded [ inl m ↦ m | inr errors ↦ empty_module ];
    limits = default_limits;
    merged = no_directives;
    agent_id = agent_id;
  }

  -- `reload`, with the errors that it returns
  unfoldable pub reload :
      CompiledHookModule x ⊎ List String
      → AgentHookManager x
      → AgentHookManager x × Option (List String)
  reload (inl m) s = (record s { active = m }, none)
  reload (inr errors) s = (s, some errors)

  -- `swap_active`, with the module that was replaced
  unfoldable pub swap_active :
      CompiledHookModule x → AgentHookManager x → AgentHookManager x × CompiledHookModule x
  swap_active m s = (record s { active = m }, s.active)

  -- `on_event`; `none` is a panic in the evaluator.
  unfoldable pub on_event :
      (ℕ → ℤ) → AgentLoopEvent x → AgentHookManager x → Option (AgentHookManager x × EvalResult)
  on_event clock event s = evaluate x s.active (build_context event) s.limits >>= λ result.
      let merged = merge clock s.merged result.directives in
      some (record s { merged = cap_merged_directives s.limits merged }, result)

  unfoldable pub reset : AgentHookManager x → AgentHookManager x
  reset s = record s { merged = no_directives }

  unfoldable pub clear_finish_gates : AgentHookManager x → AgentHookManager x
  clear_finish_gates s = record s {
    merged = record (s.merged) { finish_gates = []; evidence_required = []; final_notes = [] };
  }

  unfoldable pub roles : AgentHookManager x → List (RoleDef x)
  roles s = s.active.roles

  unfoldable pub take_approval_notes :
      AgentHookManager x → AgentHookManager x × List (Severity × String)
  take_approval_notes s =
      (record s { merged = record (s.merged) { approval_notes = [] } }, s.merged.approval_notes)

  unfoldable pub take_observer_triggers :
      AgentHookManager x → AgentHookManager x × List ObserverTrigger
  take_observer_triggers s =
      let kept = retain (λ k. not (is_trigger_key k)) s.merged.seen_keys in
      (
        record s { merged = record (s.merged) { seen_keys = kept; observer_triggers = [] } },
        s.merged.observer_triggers,
      )

  -- `none` is a panic.
  unfoldable pub step : AgentHookManager x → Call x → Option (AgentHookManager x)
  unfolding reload swap_active reset clear_finish_gates take_approval_notes take_observer_triggers
  step s (fire clock event) = on_event clock event s >>= λ r. some (r.0)
  step s (reloads loaded) = some (reload loaded s).0
  step s (swaps m) = some (swap_active m s).0
  step s resets = some (reset s)
  step s clears = some (clear_finish_gates s)
  step s takes_notes = some (take_approval_notes s).0
  step s takes_triggers = some (take_observer_triggers s).0

  unfoldable pub run : AgentHookManager x → List (Call x) → Option (AgentHookManager x)
  run s [] = some s
  run s (c ∷ cs) = step s c >>= λ t. run t cs

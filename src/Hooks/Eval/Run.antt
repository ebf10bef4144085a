-- ===== src/Hooks/Eval/Run.antt =====
-- `evaluate` and `lower_action` of di-core/src/hooks/evaluator.rs.
use di_rac.Prelude.{
  ℕ, suc, String, Bool, true, List, [], ◌∷◌, ◌++◌, Option, none, some, str_eq, leb, ◌>>=◌,
  if◌then◌else◌,
}
use di_rac.Hooks.Directive.{DedupeKey, LoopDirective, add_hint, add_criterion, diff}
use di_rac.Hooks.External.{External}
use di_rac.Hooks.Ir.{
  Expr, ActionIr, hint, criterion, warn, approval_note, require_validation, trigger_observer,
  trigger_planner_review, require_evidence, require_final_note, remember, audit, block_finish_until,
  Rule, EventHandler, CompiledHookModule,
}
use di_rac.Hooks.Eval.Print.{action_kind, action_name_full, action_name, expr_to_string}
use di_rac.Hooks.Eval.Value.{EvalContext, eval_condition}
use di_rac.Util.{fast_hash_u64}

pub record AgentHookLimits : Type 0 where
  pub max_rules : ℕ
  pub max_ast_nodes : ℕ
  pub max_actions_per_event : ℕ
  pub max_observer_triggers_per_task : ℕ
  pub max_observer_triggers_per_event : ℕ
  pub max_planner_reviews_per_task : ℕ
  pub max_validation_requests_per_task : ℕ
  pub max_finish_gates : ℕ
  pub max_remembered_facts : ℕ
  pub max_eval_steps : ℕ

-- `AgentHookLimits::default`
abbrev pub default_limits : AgentHookLimits
default_limits = record {
  max_rules = 50;
  max_ast_nodes = 5000;
  max_actions_per_event = 20;
  max_observer_triggers_per_task = 10;
  max_observer_triggers_per_event = 3;
  max_planner_reviews_per_task = 5;
  max_validation_requests_per_task = 20;
  max_finish_gates = 10;
  max_remembered_facts = 50;
  max_eval_steps = 1000;
}

pub record MatchedRule : Type 0 where
  pub handler : String
  pub condition : String
  pub actions : List String

pub record EvalResult : Type 0 where
  pub directives : List LoopDirective
  pub matched_rules : List MatchedRule

abbrev evidence_of : Option String → List LoopDirective
evidence_of none = []
evidence_of (some ev) = LoopDirective.require_evidence ev ∷ []

abbrev final_note_of : Option String → List LoopDirective
final_note_of none = []
final_note_of (some text) = LoopDirective.require_final_note text ∷ []

unfoldable pub lower_action : ActionIr → DedupeKey → List LoopDirective
lower_action (hint t) key = add_hint t ∷ []
lower_action (criterion t) key = add_criterion t ∷ []
lower_action (warn s t) key = LoopDirective.warn s t ∷ []
lower_action (approval_note s t) key = LoopDirective.approval_note s t ∷ []
lower_action (require_validation argv reason) key =
    LoopDirective.require_validation argv reason key ∷ []
lower_action (trigger_observer id reason s) key =
    LoopDirective.trigger_observer id reason s diff key ∷ []
lower_action (trigger_planner_review reason) key =
    LoopDirective.trigger_planner_review reason key ∷ []
lower_action (require_evidence n) key = LoopDirective.require_evidence n ∷ []
lower_action (require_final_note t) key = LoopDirective.require_final_note t ∷ []
lower_action (remember f) key = LoopDirective.remember f ∷ []
lower_action (audit kind s) key = LoopDirective.audit kind s ∷ []
lower_action (block_finish_until c w ev text) key =
    evidence_of ev ++ final_note_of text ++ LoopDirective.block_finish_until c w ∷ []

-- the variables of the loops
pub record Progress : Type 0 where
  pub directives : List LoopDirective
  pub matched_rules : List MatchedRule
  pub action_count : ℕ
  pub rule_count : ℕ
  pub step_count : ℕ

abbrev pub start : Progress
start = record {
  directives = [];
  matched_rules = [];
  action_count = 0;
  rule_count = 0;
  step_count = 0;
}

module _ (x : External) (m : CompiledHookModule x) (ctx : EvalContext x)
    (limits : AgentHookLimits) where
  abbrev pub dedupe_key : ActionIr → DedupeKey
  dedupe_key a = record {
    hook_id = ctx.hook_id;
    event = ctx.event;
    kind = action_kind a;
    scope_hash = fast_hash_u64 x.blake3 (action_name_full x a);
  }

  -- `for action in &rule.actions`, with the names collected so far; `none` is a panic.
  unfoldable pub run_actions :
      List ActionIr → Progress → List String → Option (Progress × List String)
  run_actions [] p names = some (p, names)
  run_actions (a ∷ more) p names =
      let counted = record p {
        directives = p.directives ++ lower_action a (dedupe_key a);
        action_count = suc p.action_count;
      } in
      let rest = (action_name x a >>= λ n. run_actions more counted (names ++ n ∷ [])) in
      if leb limits.max_actions_per_event p.action_count then some (p, names) else rest

  -- whether the condition holds, and the progress with the steps that it took
  unfoldable pub matched : Option Expr → Progress → Bool × Progress
  matched none p = (true, p)
  matched (some e) p =
      let (b, n) = eval_condition x ctx m limits.max_eval_steps e p.step_count in
      (b, record p { step_count = n })

  abbrev condition_text : Option Expr → String
  condition_text none = "always"
  condition_text (some e) = expr_to_string e

  -- what a rule that has matched adds
  unfoldable pub fire : String → Rule → Progress → Option Progress
  fire handler rule p = run_actions rule.actions p [] >>= λ result. some (record (result.0) {
    matched_rules =
        result.0.matched_rules
        ++ (record {
          handler = handler;
          condition = condition_text rule.condition;
          actions = result.1;
        })
          ∷ [];
  })

  -- `for rule in &handler.rules`
  unfoldable pub run_rules : String → List Rule → Progress → Option Progress
  run_rules handler [] p = some p
  run_rules handler (rule ∷ rules) p =
      let q = record p { rule_count = suc p.rule_count } in
      let tested = matched rule.condition q in
      let go =
        ((if tested.0 then fire handler rule tested.1 else some tested.1) >>= λ r.
        run_rules handler rules r) in
      if leb limits.max_rules p.rule_count
      then some p
      else if leb limits.max_actions_per_event p.action_count
      then some q
      else go

  -- `for handler in &module.handlers`
  unfoldable pub run_handlers : List EventHandler → Progress → Option Progress
  run_handlers [] p = some p
  run_handlers (h ∷ hs) p =
      (if str_eq h.event ctx.event then run_rules h.name h.rules p else some p) >>= λ q.
      run_handlers hs q

  -- `none` is a panic.
  unfoldable pub evaluate : Option EvalResult
  evaluate = run_handlers m.handlers start >>= λ p.
      some (record { directives = p.directives; matched_rules = p.matched_rules })

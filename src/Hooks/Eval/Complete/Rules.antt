-- ===== src/Hooks/Eval/Complete/Rules.antt =====
-- Rule by rule, and handler by handler (di-core/src/hooks/evaluator.rs).
use di_rac.Prelude.{
  ℕ, suc, ◌+◌, ◌≤◌, ◌<◌, String, Bool, true, false, List, [], ◌∷◌, ◌++◌, Option, none, some, ◌≡◌,
  refl, ap, arith, inl, inr, Bool-cases, All, length, length-append, leb, leb→le, str_eq,
  if◌then◌else◌,
}
use di_rac.Hooks.External.{External}
use di_rac.Hooks.Eval.Fired.{holds, rule_holds, fired, fired-append}
use di_rac.Hooks.Eval.Panics.{RuleClips, HandlerClips}
use di_rac.Hooks.Eval.Run.{
  AgentHookLimits, EvalResult, Progress, start, matched, fire, run_rules, run_handlers, evaluate,
}
use di_rac.Hooks.Eval.Steps.{cost, eval_condition-meaning}
use di_rac.Hooks.Eval.Value.{EvalContext}
use di_rac.Hooks.Ir.{Expr, ActionIr, Rule, EventHandler, CompiledHookModule}
-- the result is there, and satisfies `P`
use di_rac.Hooks.Eval.Complete.{
  Gives, Gives-bind, condition_size, total_size, total_actions, rules_for, total_actions-append,
  total_size-append, lower_all, After, nothing, After-trans, After-suc, run_actions-Gives,
}

module _ (x : External) (m : CompiledHookModule x) (ctx : EvalContext x)
    (limits : AgentHookLimits) where
  fire-Gives :
      (handler : String) (rule : Rule) (p : Progress)
      → RuleClips rule
      → p.action_count + length rule.actions ≤ limits.max_actions_per_event
      → Gives (λ q. After x m ctx limits p q rule.actions 0 0) (fire x m ctx limits handler rule p)
  unfolding fire
  fire-Gives handler rule p h room =
      Gives-bind (λ r. After x m ctx limits p r.0 rule.actions 0 0)
        (λ q. After x m ctx limits p q rule.actions 0 0) _ _
        (run_actions-Gives x m ctx limits rule.actions p [] h room)
        (λ r k. (
          _,
          refl,
          record {
            directives = k.directives;
            actions = k.actions;
            rule_count = k.rule_count;
            step_count = k.step_count;
          },
        ))

  -- the steps that a condition takes
  abbrev condition_cost : Option Expr → ℕ
  condition_cost none = 0
  condition_cost (some e) = cost x ctx m e

  matched-holds :
      (c : Option Expr) (p : Progress)
      → p.step_count + condition_size c ≤ limits.max_eval_steps
      → (matched x m ctx limits c p
          ≡ (rule_holds x ctx m c, record p { step_count = p.step_count + condition_cost c }))
        × (condition_cost c ≤ condition_size c)
  unfolding matched holds
  matched-holds none p room =
      let same : p.step_count ≡ p.step_count + 0 = omega arith in
      (ap (λ n. (true, record p { step_count = n })) same, omega arith)
  matched-holds (some e) p room =
      let (same, le) = eval_condition-meaning x ctx m limits.max_eval_steps e p.step_count room in
      (ap (λ r. (r.0, record p { step_count = r.1 })) same, omega (arith, le))

  -- the actions of a rule, if it fires
  abbrev ran : Bool → Rule → List ActionIr
  ran b rule = if b then rule.actions else []

  tested-Gives :
      (handler : String) (rule : Rule) (b : Bool) (p : Progress)
      → RuleClips rule
      → p.action_count + length rule.actions ≤ limits.max_actions_per_event
      → Gives
          (λ q. After x m ctx limits p q (ran b rule) 0 0)
          (if b then fire x m ctx limits handler rule p else some p)
  tested-Gives handler rule true p h room = fire-Gives handler rule p h room
  tested-Gives handler rule false p h room = (p, refl, nothing x m ctx limits p)

  length-ran : (b : Bool) (rule : Rule) → length (ran b rule) ≤ length rule.actions
  length-ran b rule = ground arith

  -- a rule that has been counted, and whose condition has been evaluated
  Gives-counted :
      (handler : String) (rule : Rule) (p : Progress)
      → RuleClips rule
      → p.action_count + length rule.actions ≤ limits.max_actions_per_event
      → condition_cost rule.condition ≤ condition_size rule.condition
      → let b = rule_holds x ctx m rule.condition in
        let q = record p {
          rule_count = suc p.rule_count;
          step_count = p.step_count + condition_cost rule.condition;
        } in
        Gives
          (λ r. After x m ctx limits p r (ran b rule) 1 (condition_size rule.condition))
          (if b then fire x m ctx limits handler rule q else some q)
  Gives-counted handler rule p h room small =
      let q = record p {
        rule_count = suc p.rule_count;
        step_count = p.step_count + condition_cost rule.condition;
      } in
      let (r, e, k) = tested-Gives handler rule (rule_holds x ctx m rule.condition) q h room in
      (
        r,
        e,
        record {
          directives = k.directives;
          actions = k.actions;
          rule_count = omega (arith, k.rule_count);
          step_count = omega (arith, k.step_count, small);
        },
      )

  run_rules-Gives :
      (handler : String) (rules : List Rule) (p : Progress)
      → All RuleClips rules
      → p.rule_count + length rules ≤ limits.max_rules
      → p.action_count + total_actions rules < limits.max_actions_per_event
      → p.step_count + total_size rules ≤ limits.max_eval_steps
      → Gives
          (λ q. After x m ctx limits p q (fired x ctx m rules) (length rules) (total_size rules))
          (run_rules x m ctx limits handler rules p)
  unfolding run_rules fired
  run_rules-Gives handler [] p h rules actions steps = (p, refl, nothing x m ctx limits p)
  run_rules-Gives handler (rule ∷ rest) p h rules actions steps =
      let q = record p { rule_count = suc p.rule_count } in
      let (tested, small) = matched-holds rule.condition q (omega (arith, steps)) in
      elim (Bool-cases (leb limits.max_rules p.rule_count)) [
        | inl full ↦ absurd (omega (arith, leb→le _ _ full, rules))
        | inr room ↦ elim (Bool-cases (leb limits.max_actions_per_event p.action_count)) [
          | inl full ↦ absurd (omega (arith, leb→le _ _ full, actions))
          | inr free ↦
              rw (room, free, tested)
                (Gives-bind
                  (λ r.
                    After x m ctx limits p r (ran (rule_holds x ctx m rule.condition) rule) 1
                      (condition_size rule.condition))
                  (λ r.
                    After x m ctx limits p r (fired x ctx m (rule ∷ rest)) (length (rule ∷ rest))
                      (total_size (rule ∷ rest)))
                  _ (λ r. run_rules x m ctx limits handler rest r)
                  (Gives-counted handler rule p h.0 (omega (arith, actions)) small)
                  (λ r k.
                    let shorter = length-ran (rule_holds x ctx m rule.condition) rule in
                    let (s, e, after) =
                      run_rules-Gives handler rest r h.1 (omega (arith, rules, k.rule_count))
                        (omega (arith, actions, k.actions, shorter))
                        (omega (arith, steps, k.step_count)) in
                    (
                      s,
                      e,
                      After-suc x m ctx limits
                          (After-trans x m ctx limits p r s _ _ 1 (length rest) _ _ k after),
                    )))
        ]
      ]

  length-fired : (rules : List Rule) → length (fired x ctx m rules) ≤ total_actions rules
  unfolding fired
  length-fired [] = omega arith
  length-fired (r ∷ rs) = omega (
    arith,
    length-append (ran (rule_holds x ctx m r.condition) r) (fired x ctx m rs),
    length-ran (rule_holds x ctx m r.condition) r,
    length-fired rs,
  )

  run_handlers-Gives :
      (hs : List EventHandler) (p : Progress)
      → All HandlerClips hs
      → let rules = rules_for ctx.event hs in
        p.rule_count + length rules ≤ limits.max_rules
        → p.action_count + total_actions rules < limits.max_actions_per_event
        → p.step_count + total_size rules ≤ limits.max_eval_steps
        → Gives
            (λ q. After x m ctx limits p q (fired x ctx m rules) (length rules) (total_size rules))
            (run_handlers x m ctx limits hs p)
  unfolding run_handlers
  run_handlers-Gives [] p h rules actions steps =
      unfold fired in (p, refl, nothing x m ctx limits p)
  run_handlers-Gives (e ∷ es) p h rules actions steps =
      elim (Bool-cases (str_eq e.event ctx.event)) [
        | inl same ↦
            let here = e.rules in
            let rest = rules_for ctx.event es in
            rw same (
              Gives-bind
                (λ q. After x m ctx limits p q (fired x ctx m here) (length here) (total_size here))
                (λ q.
                  After x m ctx limits p q (fired x ctx m (here ++ rest)) (length (here ++ rest))
                    (total_size (here ++ rest)))
                (run_rules x m ctx limits e.name here p) (λ q. run_handlers x m ctx limits es q)
                (run_rules-Gives e.name here p h.0
                  (omega (arith, rw same at rules, length-append here rest))
                  (omega (arith, rw same at actions, total_actions-append here rest))
                  (omega (arith, rw same at steps, total_size-append here rest)))
                (λ q k.
                  let fewer = length-fired here in
                  let (s, found, after) =
                    run_handlers-Gives es q h.1
                      (omega (arith, rw same at rules, length-append here rest, k.rule_count))
                      (omega (
                        arith,
                        rw same at actions,
                        total_actions-append here rest,
                        k.actions,
                        fewer,
                      ))
                      (omega
                        (arith, rw same at steps, total_size-append here rest, k.step_count)) in
                  (
                    s,
                    found,
                    rw
                        (
                          fired-append x ctx m here rest,
                          length-append here rest,
                          total_size-append here rest,
                        )
                        (After-trans x m ctx limits p q s _ _ _ _ _ _ k after),
                  )))
        | inr other ↦ rw other (
            run_handlers-Gives es p h.1 (rw other at rules) (rw other at actions)
              (rw other at steps))
      ]

  -- Where the limits allow all the rules of the event's handlers, their conditions and more than
  -- their actions, and no text is cut inside a character, an evaluation returns, and its directives
  -- are those of the actions of the rules whose conditions hold, in the order of the module.
  pub evaluate-fired :
      All HandlerClips m.handlers
      → length (rules_for ctx.event m.handlers) ≤ limits.max_rules
      → total_actions (rules_for ctx.event m.handlers) < limits.max_actions_per_event
      → total_size (rules_for ctx.event m.handlers) ≤ limits.max_eval_steps
      → (r : EvalResult) × (evaluate x m ctx limits ≡ some r)
        × (r.directives ≡ lower_all x m ctx limits (fired x ctx m (rules_for ctx.event m.handlers)))
  unfolding evaluate
  evaluate-fired h rules actions steps =
      let (p, e, after) =
        run_handlers-Gives m.handlers start h (omega (arith, rules)) (omega (arith, actions))
          (omega (arith, steps)) in
      rw e (_, refl, after.directives)

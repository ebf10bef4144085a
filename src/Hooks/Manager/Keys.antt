-- ===== src/Hooks/Manager/Keys.antt =====
-- The keys of the directives that an evaluation emits (di-core/src/hooks/evaluator.rs) are of the
-- directive's own kind.
use di_rac.Prelude.{
  String, Bool, true, false, List, [], ◌∷◌, ◌++◌, none, some, ◌≡◌, refl, inl, inr, Bool-cases, All,
  All-append, leb, str_eq, if◌then◌else◌,
}
use di_rac.Hooks.Directive.{
  DedupeKey, LoopDirective, require_validation, trigger_observer, trigger_planner_review,
}
use di_rac.Hooks.External.{External}
use di_rac.Hooks.Ir.{ActionIr, block_finish_until, Rule, EventHandler, CompiledHookModule}
use di_rac.Hooks.Eval.Bounds.{Ensures, Ensures-bind, Ensures-bind_any}
use di_rac.Hooks.Eval.Print.{action_kind, action_name}
use di_rac.Hooks.Eval.Run.{
  AgentHookLimits, EvalResult, Progress, start, lower_action, dedupe_key, run_actions, matched,
  fire, run_rules, run_handlers, evaluate,
}
use di_rac.Hooks.Eval.Value.{EvalContext}

-- the kind of the directive's key is the directive's kind
abbrev pub IsKinded : LoopDirective → Type 0
IsKinded (require_validation argv reason key) = key.kind ≡ "require_validation"
IsKinded (trigger_observer id reason s scope key) = key.kind ≡ "trigger_observer"
IsKinded (trigger_planner_review reason key) = key.kind ≡ "trigger_planner_review"
IsKinded _ = Unit

lower_action-IsKinded :
    (a : ActionIr) (k : DedupeKey) → k.kind ≡ action_kind a → All IsKinded (lower_action a k)
unfolding lower_action action_kind
lower_action-IsKinded (ActionIr.require_validation argv reason) k e = (e, tt)
lower_action-IsKinded (ActionIr.trigger_observer id reason s) k e = (e, tt)
lower_action-IsKinded (ActionIr.trigger_planner_review reason) k e = (e, tt)
lower_action-IsKinded (block_finish_until c w none none) k e = (tt, tt)
lower_action-IsKinded (block_finish_until c w none (some t)) k e = (tt, (tt, tt))
lower_action-IsKinded (block_finish_until c w (some v) none) k e = (tt, (tt, tt))
lower_action-IsKinded (block_finish_until c w (some v) (some t)) k e = (tt, (tt, (tt, tt)))
lower_action-IsKinded _ k e = (tt, tt)

abbrev Kinded : Progress → Type 0
Kinded p = All IsKinded p.directives

module _ (x : External) (m : CompiledHookModule x) (ctx : EvalContext x)
    (limits : AgentHookLimits) where
  run_actions-Kinded :
      (actions : List ActionIr) (p : Progress) (names : List String)
      → Kinded p
      → Ensures (λ r. Kinded r.0) (run_actions x m ctx limits actions p names)
  unfolding run_actions
  run_actions-Kinded [] p names h = h
  run_actions-Kinded (a ∷ more) p names h =
      elim (Bool-cases (leb limits.max_actions_per_event p.action_count)) [
        | inl full ↦ rw full h
        | inr room ↦
            let key = dedupe_key x m ctx limits a in
            rw room (
              Ensures-bind_any (λ r. Kinded r.0) (action_name x a) _
                (λ n. run_actions-Kinded more _ (names ++ n ∷ []) (
                  All-append IsKinded p.directives (lower_action a key) h
                    (lower_action-IsKinded a key refl))))
      ]

  fire-Kinded :
      (handler : String) (rule : Rule) (p : Progress)
      → Kinded p
      → Ensures Kinded (fire x m ctx limits handler rule p)
  unfolding fire
  fire-Kinded handler rule p h =
      Ensures-bind (λ r. Kinded r.0) Kinded (run_actions x m ctx limits rule.actions p []) _
        (run_actions-Kinded rule.actions p [] h) (λ r k. k)

  tested-Kinded :
      (handler : String) (rule : Rule) (b : Bool) (p : Progress)
      → Kinded p
      → Ensures Kinded (if b then fire x m ctx limits handler rule p else some p)
  tested-Kinded handler rule true p h = fire-Kinded handler rule p h
  tested-Kinded handler rule false p h = h

  matched-Kinded :
      (rule : Rule) (p : Progress) → Kinded p → Kinded (matched x m ctx limits rule.condition p).1
  unfolding matched
  matched-Kinded rule p h = elim rule.condition as (λ c. Kinded (matched x m ctx limits c p).1) [
    | none ↦ h
    | some e ↦ h
  ]

  run_rules-Kinded :
      (handler : String) (rules : List Rule) (p : Progress)
      → Kinded p
      → Ensures Kinded (run_rules x m ctx limits handler rules p)
  unfolding run_rules
  run_rules-Kinded handler [] p h = h
  run_rules-Kinded handler (rule ∷ rules) p h =
      elim (Bool-cases (leb limits.max_rules p.rule_count)) [
        | inl full ↦ rw full h
        | inr room ↦ rw room (elim (Bool-cases (leb limits.max_actions_per_event p.action_count)) [
          | inl full ↦ rw full h
          | inr free ↦ rw free (
              Ensures-bind Kinded Kinded _ _
                (tested-Kinded handler rule _ _ (matched-Kinded rule _ h))
                (λ q k. run_rules-Kinded handler rules q k))
        ])
      ]

  run_handlers-Kinded :
      (handlers : List EventHandler) (p : Progress)
      → Kinded p
      → Ensures Kinded (run_handlers x m ctx limits handlers p)
  unfolding run_handlers
  run_handlers-Kinded [] p h = h
  run_handlers-Kinded (e ∷ es) p h =
      Ensures-bind Kinded Kinded _ _
        (elim (Bool-cases (str_eq e.event ctx.event)) [
          | inl same ↦ rw same (run_rules-Kinded e.name e.rules p h)
          | inr other ↦ rw other h
        ])
        (λ q k. run_handlers-Kinded es q k)

  pub evaluate-IsKinded :
      Ensures (λ (r : EvalResult). All IsKinded r.directives) (evaluate x m ctx limits)
  unfolding evaluate
  evaluate-IsKinded =
      Ensures-bind Kinded (λ (r : EvalResult). All IsKinded r.directives) _ _
        (run_handlers-Kinded m.handlers start tt) (λ p k. k)

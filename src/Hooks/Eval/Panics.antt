-- ===== src/Hooks/Eval/Panics.antt =====
-- Where `evaluate` of di-core/src/hooks/evaluator.rs panics: `action_name` cuts a text at byte 40.
use di_rac.Prelude.{
  suc, ◌<◌, String, Bool, true, false, List, [], ◌∷◌, ◌++◌, Option, none, some, ◌≡◌, refl, arith,
  inl, inr, Bool-cases, All, leb, str_eq, slice_to, ◌>>=◌, if◌then◌else◌,
}
use di_rac.Hooks.External.{External}
use di_rac.Hooks.Ir.{
  Expr, ActionIr, hint, criterion, warn, approval_note, require_final_note, remember, Rule,
  EventHandler, CompiledHookModule,
}
use di_rac.Hooks.Eval.Print.{action_name}
use di_rac.Hooks.Eval.Run.{
  AgentHookLimits, Progress, start, run_actions, matched, fire, run_rules, run_handlers, evaluate,
}
use di_rac.Hooks.Eval.Value.{EvalContext}

-- byte 40 of the text, or its end, is not inside a character
abbrev pub IsClippable : String → Type 0
IsClippable t = (s : String) × (slice_to t 40 ≡ some s)

-- the text that is cut for display
abbrev pub ClipsWell : ActionIr → Type 0
ClipsWell (hint t) = IsClippable t
ClipsWell (criterion t) = IsClippable t
ClipsWell (warn s t) = IsClippable t
ClipsWell (approval_note s t) = IsClippable t
ClipsWell (require_final_note t) = IsClippable t
ClipsWell (remember t) = IsClippable t
ClipsWell _ = Unit

abbrev pub Returns {ℓ} : {A : Type ℓ} → Option A → Type ℓ
Returns {A = A} o = (a : A) × (o ≡ some a)

Returns-bind {ℓ κ} :
    {A : Type ℓ} {B : Type κ} (o : Option A) (f : A → Option B)
    → Returns o
    → ((a : A) → Returns (f a))
    → Returns (o >>= f)
Returns-bind o f (a, e) k = rw e (k a)

module _ (x : External) where
  pub action_name-Returns : (a : ActionIr) → ClipsWell a → Returns (action_name x a)
  unfolding action_name
  action_name-Returns (hint t) (s, e) = rw e (_, refl)
  action_name-Returns (criterion t) (s, e) = rw e (_, refl)
  action_name-Returns (warn v t) (s, e) = rw e (_, refl)
  action_name-Returns (approval_note v t) (s, e) = rw e (_, refl)
  action_name-Returns (require_final_note t) (s, e) = rw e (_, refl)
  action_name-Returns (remember t) (s, e) = rw e (_, refl)
  action_name-Returns _ h = (_, refl)

abbrev pub RuleClips : Rule → Type 0
RuleClips r = All ClipsWell r.actions

abbrev pub HandlerClips : EventHandler → Type 0
HandlerClips h = All RuleClips h.rules

module _ (x : External) (m : CompiledHookModule x) (ctx : EvalContext x)
    (limits : AgentHookLimits) where
  run_actions-Returns :
      (actions : List ActionIr) (p : Progress) (names : List String)
      → All ClipsWell actions
      → Returns (run_actions x m ctx limits actions p names)
  unfolding run_actions
  run_actions-Returns [] p names h = (_, refl)
  run_actions-Returns (a ∷ more) p names h =
      elim (Bool-cases (leb limits.max_actions_per_event p.action_count)) [
        | inl full ↦ rw full (_, refl)
        | inr room ↦ rw room (
            Returns-bind (action_name x a) _ (action_name-Returns x a h.0)
              (λ n. run_actions-Returns more _ (names ++ n ∷ []) h.1))
      ]

  fire-Returns :
      (handler : String) (rule : Rule) (p : Progress)
      → RuleClips rule
      → Returns (fire x m ctx limits handler rule p)
  unfolding fire
  fire-Returns handler rule p h =
      Returns-bind _ _ (run_actions-Returns rule.actions p [] h) (λ r. (_, refl))

  tested-Returns :
      (handler : String) (rule : Rule) (b : Bool) (p : Progress)
      → RuleClips rule
      → Returns (if b then fire x m ctx limits handler rule p else some p)
  tested-Returns handler rule true p h = fire-Returns handler rule p h
  tested-Returns handler rule false p h = (p, refl)

  run_rules-Returns :
      (handler : String) (rules : List Rule) (p : Progress)
      → All RuleClips rules
      → Returns (run_rules x m ctx limits handler rules p)
  unfolding run_rules
  run_rules-Returns handler [] p h = (p, refl)
  run_rules-Returns handler (rule ∷ rules) p h =
      elim (Bool-cases (leb limits.max_rules p.rule_count)) [
        | inl full ↦ rw full (p, refl)
        | inr room ↦ rw room (elim (Bool-cases (leb limits.max_actions_per_event p.action_count)) [
          | inl full ↦ rw full (_, refl)
          | inr free ↦ rw free (
              Returns-bind _ _ (tested-Returns handler rule _ _ h.0)
                (λ q. run_rules-Returns handler rules q h.1))
        ])
      ]

  run_handlers-Returns :
      (handlers : List EventHandler) (p : Progress)
      → All HandlerClips handlers
      → Returns (run_handlers x m ctx limits handlers p)
  unfolding run_handlers
  run_handlers-Returns [] p h = (p, refl)
  run_handlers-Returns (e ∷ es) p h =
      Returns-bind _ _
        (elim (Bool-cases (str_eq e.event ctx.event)) [
          | inl same ↦ rw same (run_rules-Returns e.name e.rules p h.0)
          | inr other ↦ rw other (p, refl)
        ])
        (λ q. run_handlers-Returns es q h.1)

  -- An evaluation returns, whatever the event and the limits, if no text that is cut for display
  -- has a character across its byte 40.
  pub evaluate-Returns : All HandlerClips m.handlers → Returns (evaluate x m ctx limits)
  unfolding evaluate
  evaluate-Returns h = Returns-bind _ _ (run_handlers-Returns m.handlers start h) (λ p. (_, refl))

  fire_panics :
      (handler : String) (c : Option Expr) (t : String) (more : List ActionIr) (p : Progress)
      → slice_to t 40 ≡ none
      → p.action_count < limits.max_actions_per_event
      → fire x m ctx limits handler (record { condition = c; actions = hint t ∷ more }) p ≡ none
  unfolding fire run_actions action_name
  fire_panics handler c t more p cut room = ground arith

  run_rules_panics :
      (handler : String) (t : String) (more : List ActionIr) (rules : List Rule) (p : Progress)
      → slice_to t 40 ≡ none
      → p.rule_count < limits.max_rules
      → p.action_count < limits.max_actions_per_event
      → run_rules x m ctx limits handler
          ((record { condition = none; actions = hint t ∷ more }) ∷ rules)
          p
        ≡ none
  unfolding run_rules matched
  run_rules_panics handler t more rules p cut some_rule some_action =
      let q = record p { rule_count = suc p.rule_count } in
      ground (arith, fire_panics handler none t more q cut some_action)

  -- It panics at a hint, the first action of an unconditional rule of the event's first handler,
  -- whose text has a character across byte 40, provided the limits let one action run.
  pub evaluate_panics :
      (event handler : String) (t : String) (more : List ActionIr) (rules : List Rule)
      (handlers : List EventHandler)
      → slice_to t 40 ≡ none
      → 0 < limits.max_rules
      → 0 < limits.max_actions_per_event
      → str_eq event ctx.event ≡ true
      → m.handlers
        ≡ (record {
          event = event;
          name = handler;
          rules = (record { condition = none; actions = hint t ∷ more }) ∷ rules;
        })
          ∷ handlers
      → evaluate x m ctx limits ≡ none
  unfolding evaluate run_handlers
  evaluate_panics event handler t more rules handlers cut some_rule some_action same e =
      ground (arith, run_rules_panics handler t more rules start cut some_rule some_action)

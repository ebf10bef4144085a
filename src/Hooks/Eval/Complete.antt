-- ===== src/Hooks/Eval/Complete.antt =====
-- What an evaluation (di-core/src/hooks/evaluator.rs) gives where the limits allow all of it.
pub mod Rules
use di_rac.Prelude.{
  ℕ, zero, suc, ◌+◌, ◌≤◌, ◌<◌, String, Bool, true, false, List, [], ◌∷◌, ◌++◌, Option, none, some,
  ◌≡◌, refl, sym, ap, ◌∙◌, append-nil, append_assoc, arith, inl, inr, Bool-cases, All, All-append,
  length, length-append, leb, leb→le, str_eq, ◌>>=◌, if◌then◌else◌,
}
use di_rac.Hooks.Directive.{LoopDirective}
use di_rac.Hooks.External.{External}
use di_rac.Hooks.Eval.Fired.{holds, rule_holds, fired, fired-append}
use di_rac.Hooks.Eval.Panics.{ClipsWell, RuleClips, HandlerClips, action_name-Returns}
use di_rac.Hooks.Eval.Print.{action_name}
use di_rac.Hooks.Eval.Run.{
  AgentHookLimits, EvalResult, Progress, start, lower_action, dedupe_key, run_actions, matched,
  fire, run_rules, run_handlers, evaluate,
}
use di_rac.Hooks.Eval.Steps.{size, cost, meaning, eval_condition-meaning}
use di_rac.Hooks.Eval.Value.{EvalContext, eval_condition}
use di_rac.Hooks.Ir.{Expr, ActionIr, Rule, EventHandler, CompiledHookModule}

-- the result is there, and satisfies `P`
abbrev pub Gives : {A : Type 0} → (A → Type 0) → Option A → Type 0
Gives {A = A} P o = (a : A) × (o ≡ some a) × P a

Gives-bind :
    {A B : Type 0} (P : A → Type 0) (Q : B → Type 0) (o : Option A) (f : A → Option B)
    → Gives P o
    → ((a : A) → P a → Gives Q (f a))
    → Gives Q (o >>= f)
Gives-bind P Q o f (a, e, h) k = rw e (k a h)

-- the nodes of the rules' conditions
abbrev condition_size : Option Expr → ℕ
condition_size none = 0
condition_size (some e) = size e

abbrev pub total_size : List Rule → ℕ
total_size [] = 0
total_size (r ∷ rs) = condition_size r.condition + total_size rs

abbrev pub total_actions : List Rule → ℕ
total_actions [] = 0
total_actions (r ∷ rs) = length r.actions + total_actions rs

-- the rules of the handlers of an event
abbrev pub rules_for : String → List EventHandler → List Rule
rules_for event [] = []
rules_for event (h ∷ hs) =
    let rest = rules_for event hs in if str_eq h.event event then h.rules ++ rest else rest

total_actions-append :
    (xs ys : List Rule) → total_actions (xs ++ ys) ≡ total_actions xs + total_actions ys
total_actions-append [] ys = omega arith
total_actions-append (r ∷ xs) ys = omega (arith, total_actions-append xs ys)

total_size-append : (xs ys : List Rule) → total_size (xs ++ ys) ≡ total_size xs + total_size ys
total_size-append [] ys = omega arith
total_size-append (r ∷ xs) ys = omega (arith, total_size-append xs ys)

module _ (x : External) (m : CompiledHookModule x) (ctx : EvalContext x)
    (limits : AgentHookLimits) where
  -- the directives of actions, in order
  abbrev pub lower_all : List ActionIr → List LoopDirective
  lower_all [] = []
  lower_all (a ∷ more) = lower_action a (dedupe_key x m ctx limits a) ++ lower_all more

  lower_all-append : (xs ys : List ActionIr) → lower_all (xs ++ ys) ≡ lower_all xs ++ lower_all ys
  lower_all-append [] ys = refl
  lower_all-append (a ∷ xs) ys =
      ap (λ ds. lower_action a (dedupe_key x m ctx limits a) ++ ds) (lower_all-append xs ys)
      ∙ sym (append_assoc _ (lower_all xs) (lower_all ys))

  -- from one progress to another, these actions have run, and so many rules and steps been taken
  record After (p q : Progress) (ran : List ActionIr) (rules steps : ℕ) : Type 0 where
    directives : q.directives ≡ p.directives ++ lower_all ran
    actions : q.action_count ≡ p.action_count + length ran
    rule_count : q.rule_count ≡ p.rule_count + rules
    step_count : q.step_count ≤ p.step_count + steps

  nothing : (p : Progress) → After p p [] 0 0
  nothing p = record {
    directives = sym (append-nil p.directives);
    actions = omega arith;
    rule_count = omega arith;
    step_count = omega arith;
  }

  After-trans :
      (p q r : Progress) (xs ys : List ActionIr) (i j s t : ℕ)
      → After p q xs i s
      → After q r ys j t
      → After p r (xs ++ ys) (i + j) (s + t)
  After-trans p q r xs ys i j s t h k = record {
    directives =
        k.directives
        ∙ ap (λ ds. ds ++ lower_all ys) h.directives
        ∙ append_assoc p.directives (lower_all xs) (lower_all ys)
        ∙ ap (λ ds. p.directives ++ ds) (sym (lower_all-append xs ys));
    actions = omega (arith, h.actions, k.actions, length-append xs ys);
    rule_count = omega (arith, h.rule_count, k.rule_count);
    step_count = omega (arith, h.step_count, k.step_count);
  }

  After-suc :
      {p q : Progress} {xs : List ActionIr} {i s : ℕ}
      → After p q xs (1 + i) s
      → After p q xs (suc i) s
  After-suc h = record {
    directives = h.directives;
    actions = h.actions;
    rule_count = omega (arith, h.rule_count);
    step_count = h.step_count;
  }

  run_actions-Gives :
      (xs : List ActionIr) (p : Progress) (names : List String)
      → All ClipsWell xs
      → p.action_count + length xs ≤ limits.max_actions_per_event
      → Gives (λ r. After p r.0 xs 0 0) (run_actions x m ctx limits xs p names)
  unfolding run_actions
  run_actions-Gives [] p names h room = (_, refl, nothing p)
  run_actions-Gives (a ∷ more) p names h room =
      let key = dedupe_key x m ctx limits a in
      let counted = record p {
        directives = p.directives ++ lower_action a key;
        action_count = suc p.action_count;
      } in
      let one : After p counted (a ∷ []) 0 0 = record {
        directives = ap (λ ds. p.directives ++ ds) (sym (append-nil (lower_action a key)));
        actions = omega arith;
        rule_count = omega arith;
        step_count = omega arith;
      } in
      let (n, named) = action_name-Returns x a h.0 in
      elim (Bool-cases (leb limits.max_actions_per_event p.action_count)) [
        | inl full ↦ absurd (omega (arith, leb→le _ _ full, room))
        | inr free ↦
            let (r, e, rest) =
              run_actions-Gives more counted (names ++ n ∷ []) h.1 (omega (arith, room)) in
            rw (free, named) (r, e, After-trans p counted r.0 (a ∷ []) more 0 0 0 0 one rest)
      ]

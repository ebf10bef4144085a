-- ===== src/Hooks/Eval/Bounds.antt =====
-- The limits that one evaluation keeps (di-core/src/hooks/evaluator.rs).
use di_rac.Prelude.{
  ℕ, suc, ◌+◌, ◌*◌, ◌≤◌, ◌<◌, String, Bool, true, false, List, [], ◌∷◌, ◌++◌, Option, none, some,
  ◌≡◌, refl, subst, arith, inl, inr, Bool-cases, length, length-append, leb, not_leb→lt, str_eq,
  ◌>>=◌, if◌then◌else◌,
}
use di_rac.Hooks.Directive.{DedupeKey}
use di_rac.Hooks.External.{External}
use di_rac.Hooks.Ir.{Expr, ActionIr, block_finish_until, Rule, EventHandler, CompiledHookModule}
use di_rac.Hooks.Eval.Print.{action_name}
use di_rac.Hooks.Eval.Run.{
  AgentHookLimits, MatchedRule, EvalResult, Progress, start, lower_action, dedupe_key, run_actions,
  matched, fire, run_rules, run_handlers, evaluate,
}
use di_rac.Hooks.Eval.Value.{EvalContext}

-- A step's result, where there is one, satisfies `P`.
abbrev pub Ensures {ℓ κ} : {A : Type ℓ} → (A → Type κ) → Option A → Type κ
Ensures P none = Unit
Ensures P (some a) = P a

pub Ensures-bind {ℓ κ μ ν} :
    {A : Type ℓ} {B : Type κ} (P : A → Type μ) (Q : B → Type ν) (o : Option A) (f : A → Option B)
    → Ensures P o
    → ((a : A) → P a → Ensures Q (f a))
    → Ensures Q (o >>= f)
Ensures-bind P Q none f h k = tt
Ensures-bind P Q (some a) f h k = k a h

pub Ensures-bind_any {ℓ κ ν} :
    {A : Type ℓ} {B : Type κ} (Q : B → Type ν) (o : Option A) (f : A → Option B)
    → ((a : A) → Ensures Q (f a))
    → Ensures Q (o >>= f)
Ensures-bind_any Q none f k = tt
Ensures-bind_any Q (some a) f k = k a

-- the names of actions that the matched rules list
abbrev pub named : List MatchedRule → ℕ
named [] = 0
named (r ∷ rs) = length r.actions + named rs

named-append :
    (rs : List MatchedRule) (r : MatchedRule) → named (rs ++ r ∷ []) ≡ named rs + length r.actions
named-append [] r = omega arith
named-append (x ∷ rs) r = omega (arith, named-append rs r)

length-lower_action : (a : ActionIr) (k : DedupeKey) → length (lower_action a k) ≤ 3
unfolding lower_action
length-lower_action (block_finish_until c w none none) k = omega arith
length-lower_action (block_finish_until c w none (some t)) k = omega arith
length-lower_action (block_finish_until c w (some e) none) k = omega arith
length-lower_action (block_finish_until c w (some e) (some t)) k = omega arith
length-lower_action _ k = omega arith

-- what holds between two rules
pub record IsWithin (limits : AgentHookLimits) (p : Progress) : Type 0 where
  pub actions : p.action_count ≤ limits.max_actions_per_event
  pub rules : p.rule_count ≤ limits.max_rules
  pub directives : length p.directives ≤ 3 * p.action_count
  pub matched : length p.matched_rules ≤ p.rule_count
  pub names : named p.matched_rules ≡ p.action_count

-- what holds within a rule, with `names` collected
record IsFiring (limits : AgentHookLimits) (r : Progress × List String) : Type 0 where
  actions : (r.0).action_count ≤ limits.max_actions_per_event
  rules : (r.0).rule_count ≤ limits.max_rules
  directives : length (r.0).directives ≤ 3 * (r.0).action_count
  matched : suc (length (r.0).matched_rules) ≤ (r.0).rule_count
  names : named (r.0).matched_rules + length (r.1) ≡ (r.0).action_count

module _ (x : External) (m : CompiledHookModule x) (ctx : EvalContext x)
    (limits : AgentHookLimits) where
  run_actions-IsFiring :
      (actions : List ActionIr) (p : Progress) (names : List String)
      → IsFiring limits (p, names)
      → Ensures (IsFiring limits) (run_actions x m ctx limits actions p names)
  unfolding run_actions
  run_actions-IsFiring [] p names h = h
  run_actions-IsFiring (a ∷ more) p names h =
      elim (Bool-cases (leb limits.max_actions_per_event p.action_count)) [
        | inl full ↦ rw full h
        | inr room ↦
            let key = dedupe_key x m ctx limits a in
            let counted = record p {
              directives = p.directives ++ lower_action a key;
              action_count = suc p.action_count;
            } in
            rw room (
              Ensures-bind_any (IsFiring limits) (action_name x a) _ (λ n.
                run_actions-IsFiring more counted (names ++ n ∷ []) (record {
                  actions = not_leb→lt _ _ room;
                  rules = h.rules;
                  directives = omega (
                    arith,
                    h.directives,
                    length-append p.directives (lower_action a key),
                    length-lower_action a key,
                  );
                  matched = h.matched;
                  names = omega (arith, h.names, length-append names (n ∷ []));
                })))
      ]

  matched-keeps :
      (c : Option Expr) (p : Progress)
      → let q = (matched x m ctx limits c p).1 in
        (q.action_count ≡ p.action_count)
        × (q.rule_count ≡ p.rule_count)
        × (q.directives ≡ p.directives)
        × (q.matched_rules ≡ p.matched_rules)
  unfolding matched
  matched-keeps none p = (refl, refl, refl, refl)
  matched-keeps (some e) p = (refl, refl, refl, refl)

  -- `p` has room for one more matched rule, as it has when the rule has been counted
  record IsCounted (p : Progress) : Type 0 where
    within : IsWithin limits p
    room : suc (length p.matched_rules) ≤ p.rule_count

  fire-IsWithin :
      (handler : String) (rule : Rule) (p : Progress)
      → IsCounted p
      → Ensures (IsWithin limits) (fire x m ctx limits handler rule p)
  unfolding fire
  fire-IsWithin handler rule p h =
      Ensures-bind (IsFiring limits) (IsWithin limits)
        (run_actions x m ctx limits rule.actions p []) _
        (run_actions-IsFiring rule.actions p [] (record {
          actions = h.within.actions;
          rules = h.within.rules;
          directives = h.within.directives;
          matched = h.room;
          names = omega (arith, h.within.names);
        }))
        (λ r f. record {
          actions = f.actions;
          rules = f.rules;
          directives = f.directives;
          matched = omega (arith, f.matched, length-append ((r.0).matched_rules));
          names = omega (arith, f.names, named-append ((r.0).matched_rules));
        })

  -- the loop's step for a rule that is tested
  tested-IsWithin :
      (handler : String) (rule : Rule) (b : Bool) (p : Progress)
      → IsCounted p
      → Ensures (IsWithin limits) (if b then fire x m ctx limits handler rule p else some p)
  tested-IsWithin handler rule true p h = fire-IsWithin handler rule p h
  tested-IsWithin handler rule false p h = h.within

  count_rule :
      (c : Option Expr) (p : Progress)
      → IsWithin limits p
      → p.rule_count < limits.max_rules
      → IsCounted (matched x m ctx limits c (record p { rule_count = suc p.rule_count })).1
  count_rule c p h lt =
      let q = record p { rule_count = suc p.rule_count } in
      let (ea, er, ed, em) = matched-keeps c q in
      record {
        within = record {
          actions = rw ea h.actions;
          rules = rw er (omega arith);
          directives = rw (ed, ea) h.directives;
          matched = rw (em, er) (omega (arith, h.matched));
          names = rw (em, ea) h.names;
        };
        room = rw (em, er) (omega (arith, h.matched));
      }

  run_rules-IsWithin :
      (handler : String) (rules : List Rule) (p : Progress)
      → IsWithin limits p
      → Ensures (IsWithin limits) (run_rules x m ctx limits handler rules p)
  unfolding run_rules
  run_rules-IsWithin handler [] p h = h
  run_rules-IsWithin handler (rule ∷ rules) p h =
      elim (Bool-cases (leb limits.max_rules p.rule_count)) [
        | inl full ↦ rw full h
        | inr room ↦ rw room (elim (Bool-cases (leb limits.max_actions_per_event p.action_count)) [
          | inl full ↦ rw full (record {
            actions = h.actions;
            rules = not_leb→lt _ _ room;
            directives = h.directives;
            matched = omega (arith, h.matched);
            names = h.names;
          })
          | inr free ↦
              let tested =
                matched x m ctx limits rule.condition
                  (record p { rule_count = suc p.rule_count }) in
              rw free (
                Ensures-bind (IsWithin limits) (IsWithin limits) _ _
                  (tested-IsWithin handler rule tested.0 tested.1
                    (count_rule rule.condition p h (not_leb→lt _ _ room)))
                  (λ q w. run_rules-IsWithin handler rules q w))
        ])
      ]

  run_handlers-IsWithin :
      (handlers : List EventHandler) (p : Progress)
      → IsWithin limits p
      → Ensures (IsWithin limits) (run_handlers x m ctx limits handlers p)
  unfolding run_handlers
  run_handlers-IsWithin [] p h = h
  run_handlers-IsWithin (e ∷ es) p h =
      Ensures-bind (IsWithin limits) (IsWithin limits) _ _
        (elim (Bool-cases (str_eq e.event ctx.event)) [
          | inl same ↦ rw same (run_rules-IsWithin e.name e.rules p h)
          | inr other ↦ rw other h
        ])
        (λ q w. run_handlers-IsWithin es q w)

  -- what the limits allow one evaluation to return
  pub record RespectsLimits (r : EvalResult) : Type 0 where
    pub rules : length r.matched_rules ≤ limits.max_rules
    pub actions : named r.matched_rules ≤ limits.max_actions_per_event
    pub directives : length r.directives ≤ 3 * named r.matched_rules

  start-IsWithin : IsWithin limits start
  start-IsWithin = omega arith

  -- An evaluation that does not panic matches at most `max_rules` rules, runs at most
  -- `max_actions_per_event` actions, and emits at most three directives for each action.
  pub evaluate-RespectsLimits :
      (r : EvalResult) → evaluate x m ctx limits ≡ some r → RespectsLimits r
  unfolding evaluate
  evaluate-RespectsLimits r e =
      let all : Ensures RespectsLimits (evaluate x m ctx limits) =
        Ensures-bind (IsWithin limits) RespectsLimits _ _
          (run_handlers-IsWithin m.handlers start start-IsWithin)
          (λ p w. record {
            rules = omega (arith, w.matched, w.rules);
            actions = omega (arith, w.names, w.actions);
            directives = omega (arith, w.names, w.directives);
          }) in
      subst (Ensures RespectsLimits) e all

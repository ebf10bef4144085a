-- ===== src/Hooks/Eval/Fired.antt =====
-- Which rules fire, with no limits (what di-core/src/hooks/evaluator.rs is for).
use di_rac.Prelude.{
  Bool, true, not, List, [], ◌∷◌, ◌++◌, Option, none, some, ◌≡◌, refl, sym, ap, ◌∙◌, append_assoc,
  if◌then◌else◌,
}
use di_rac.Hooks.Eval.Steps.{meaning}
use di_rac.Hooks.Eval.Value.{EvalContext, is_truthy}
use di_rac.Hooks.External.{External}
use di_rac.Hooks.Ir.{Expr, negation, ActionIr, Rule, CompiledHookModule}

module _ (x : External) (ctx : EvalContext x) (m : CompiledHookModule x) where
  -- whether a condition holds, with no step budget
  unfoldable pub holds : Expr → Bool
  holds e = is_truthy (meaning x ctx m e)

  abbrev pub rule_holds : Option Expr → Bool
  rule_holds none = true
  rule_holds (some e) = holds e

  -- the actions of the rules whose conditions hold
  unfoldable pub fired : List Rule → List ActionIr
  fired [] = []
  fired (r ∷ rs) = (if rule_holds r.condition then r.actions else []) ++ fired rs

  pub holds-negation : (e : Expr) → holds (negation e) ≡ not (holds e)
  unfolding holds meaning is_truthy
  holds-negation e = refl

  pub fired-append : (xs ys : List Rule) → fired (xs ++ ys) ≡ fired xs ++ fired ys
  unfolding fired
  fired-append [] ys = refl
  fired-append (r ∷ rs) ys =
      ap (λ more. (if rule_holds r.condition then r.actions else []) ++ more) (fired-append rs ys)
      ∙ sym (append_assoc _ (fired rs) (fired ys))

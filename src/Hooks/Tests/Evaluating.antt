-- ===== src/Hooks/Tests/Evaluating.antt =====
-- Evaluations (di-core/src/hooks/evaluator.rs) at concrete modules and events.
use di_rac.Prelude.{some, [], none, ◌≡◌, ◌≤◌, refl, arith, All}
use di_rac.Hooks.Ast.{or}
use di_rac.Hooks.Eval.Bounds.{RespectsLimits, evaluate-RespectsLimits}
use di_rac.Hooks.Eval.Panics.{HandlerClips, Returns, evaluate-Returns, evaluate_panics}
use di_rac.Hooks.Eval.Complete.{rules_for, lower_all}
use di_rac.Hooks.Eval.Complete.Rules.{evaluate-fired}
use di_rac.Hooks.Eval.Fired.{fired}
use di_rac.Hooks.Eval.Run.{EvalResult, default_limits, evaluate}
use di_rac.Hooks.Eval.Steps.{meaning, cost, size, eval_condition-meaning}
use di_rac.Hooks.Eval.Value.{eval_condition, is_truthy}
use di_rac.Hooks.Ir.{Expr, binary_op, negation, changed_files, string}
use di_rac.Hooks.Tests.Fixture.{plain, tool_event, small_module, long_module, long_text}

-- `not changed_files or "x"`
abbrev test : Expr
test = binary_op (negation changed_files) or (string "x")

eval_condition-meaning_example :
    (eval_condition plain tool_event small_module 1000 test 0 ≡ (
      is_truthy (meaning plain tool_event small_module test),
      cost plain tool_event small_module test,
    ))
    × (cost plain tool_event small_module test ≤ size test)
unfolding cost size
eval_condition-meaning_example =
    eval_condition-meaning plain tool_event small_module 1000 test 0 (omega arith)

clips : All HandlerClips small_module.handlers
clips = ((((_, refl), (tt, tt)), tt), tt)

evaluate_small : Returns (evaluate plain small_module tool_event default_limits)
evaluate_small = evaluate-Returns plain small_module tool_event default_limits clips

evaluate-RespectsLimits_example :
    RespectsLimits plain small_module tool_event default_limits evaluate_small.0
evaluate-RespectsLimits_example =
    evaluate-RespectsLimits plain small_module tool_event default_limits evaluate_small.0
      evaluate_small.1

evaluate-Returns_example : Returns (evaluate plain small_module tool_event default_limits)
evaluate-Returns_example = evaluate-Returns plain small_module tool_event default_limits clips

evaluate_panics_example : evaluate plain long_module tool_event default_limits ≡ none
evaluate_panics_example =
    evaluate_panics plain long_module tool_event default_limits "post_tool_use" "after_tool"
      long_text [] [] [] refl (omega arith) (omega arith) refl refl

evaluate-fired_example :
    (r : EvalResult) × (evaluate plain small_module tool_event default_limits ≡ some r)
    × (r.directives
        ≡ lower_all plain small_module tool_event default_limits
            (fired plain tool_event small_module (rules_for "post_tool_use" small_module.handlers)))
unfolding size
evaluate-fired_example =
    evaluate-fired plain small_module tool_event default_limits clips (omega arith) (omega arith)
      (omega arith)

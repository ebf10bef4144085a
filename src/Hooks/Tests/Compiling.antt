-- ===== src/Hooks/Tests/Compiling.antt =====
-- Hook files that compile (di-core/src/hooks/compiler.rs), and what their rules do.
use di_rac.Prelude.{
  ◌≤◌, ◌<◌, arith, length, All, true, false, List, [], ◌∷◌, none, some, ◌≡◌, refl, inl, lookup,
}
use di_rac.Hooks.Ast
use di_rac.Hooks.Ast.{
  Span, Expr, bool, Stmts, Stmt, stmt, done, if_stmt, if_only, action_call, ActionArg, Module,
  LetConstructor,
}
use di_rac.Hooks.Compile.Action.{compile_action, get_str, first_text}
use di_rac.Hooks.Compile.Block.{compile_block, compile_stmt, compile_actions}
use di_rac.Hooks.Compile.Expr.{compile_expr, compile_first}
use di_rac.Hooks.EndToEnd.{intended_at, event_runs_intended}
use di_rac.Hooks.Eval.Complete.{rules_for, lower_all, total_actions, total_size}
use di_rac.Hooks.Eval.Panics.{HandlerClips}
use di_rac.Hooks.Eval.Run.{default_limits, EvalResult, evaluate}
use di_rac.Hooks.Eval.Steps.{size}
use di_rac.Hooks.Eval.Value.{EvalContext}
use di_rac.Hooks.Ir.{Rule}
use di_rac.Hooks.Eval.Fired.{holds, fired}
use di_rac.Hooks.Eval.Steps.{meaning}
use di_rac.Hooks.Eval.Value.{is_truthy}
use di_rac.Hooks.Compile.Branches.{
  intended, nested, compile_block-intended, nested_condition_dropped,
}
use di_rac.Hooks.Compile.Module.{
  compile_all, compile_groups, compile_patterns, compile_roles, compile_handlers, let_map,
  is_known_event, compile_with_base, no_imports,
}
use di_rac.Hooks.Compile.WellFormed.{IsWellFormed, compile-IsWellFormed}
use di_rac.Hooks.Ir
use di_rac.Hooks.Ir.{CompiledHookModule}
use di_rac.Hooks.Tests.Fixture.{plain, tool_event, small_module}

abbrev at : Span
at = record { start = 0; end = 0; line = 1; column = 1 }

abbrev text : List ActionArg
text = (record { key = none; value = Ast.string "check" at; span = at }) ∷ []

abbrev body : Stmts
body =
    stmt
      (if_stmt (Ast.ident "changed_files" at) (stmt (action_call "hint" text at) done)
        (stmt (action_call "remember" text at) done) at)
      (stmt (action_call "criterion" text at) done)

abbrev source : Module plain
source = record {
  groups = (record { name = "code"; patterns = "*.rs" ∷ []; span = at }) ∷ [];
  roles =
      (record {
        name = "reviewer";
        kind = "observer";
        system_prompt = none;
        inputs = [];
        output_schema = none;
        budget = some (record { max_tokens = 1000; max_runs = 2 });
        span = at;
      })
      ∷ [];
  handlers = (record { event = "pre_finish"; name = "check"; body = body; span = at }) ∷ [];
  imports = [];
  let_bindings = [];
}

accepted :
    compile_with_base plain source (no_imports plain)
    ≡ inl (compile_all plain source (no_imports plain)).0
unfolding compile_with_base compile_all compile_groups compile_patterns compile_roles
    compile_handlers compile_block compile_stmt compile_actions compile_action let_map
    is_known_event get_str first_text lookup
accepted = refl

hint_compiles : (compile_action [] "hint" text).0 ≡ some (Ir.hint "check")
unfolding compile_action get_str first_text lookup
hint_compiles = refl

compile-IsWellFormed_example :
    IsWellFormed plain source (no_imports plain) (compile_all plain source (no_imports plain)).0
compile-IsWellFormed_example =
    compile-IsWellFormed plain source (no_imports plain)
      (compile_all plain source (no_imports plain)).0 accepted

compile_block-intended_example :
    fired plain tool_event small_module (compile_block [] body).0
    ≡ intended plain tool_event small_module [] body
compile_block-intended_example =
    compile_block-intended plain tool_event small_module [] body (tt, tt, tt)

nested_condition_dropped_example :
    let dropped = nested (Ast.bool true at) (Ast.bool false at) "hint" text at in
    (fired plain tool_event small_module (compile_block [] dropped).0 ≡ Ir.hint "check" ∷ [])
    × (intended plain tool_event small_module [] dropped ≡ [])
unfolding holds compile_expr compile_first meaning is_truthy
nested_condition_dropped_example =
    nested_condition_dropped plain tool_event small_module [] (Ast.bool true at) (Ast.bool false at)
      "hint" text at (Ir.hint "check") refl refl hint_compiles

abbrev compiled : CompiledHookModule plain
compiled = (compile_all plain source (no_imports plain)).0

abbrev before_finish : EvalContext plain
before_finish = record {
  hook_id = "repo";
  event = "pre_finish";
  changed_files = [];
  tool_name = none;
  tool_success = none;
  observer_id = none;
  observer_output = none;
}

compiled_clips : All HandlerClips compiled.handlers
unfolding compile_with_base compile_all compile_groups compile_patterns compile_roles
    compile_handlers compile_block compile_stmt compile_actions compile_action let_map
    is_known_event get_str first_text lookup
compiled_clips = ((((_, refl), tt), (((_, refl), tt), (((_, refl), tt), tt))), tt)

abbrev its_rules : List Rule
its_rules = rules_for "pre_finish" compiled.handlers

few_rules : length its_rules ≤ 50
unfolding compile_with_base compile_all compile_groups compile_patterns compile_roles
    compile_handlers compile_block compile_stmt compile_actions compile_action let_map
    is_known_event get_str first_text lookup
few_rules = omega arith

few_actions : total_actions its_rules < 20
unfolding compile_with_base compile_all compile_groups compile_patterns compile_roles
    compile_handlers compile_block compile_stmt compile_actions compile_action let_map
    is_known_event get_str first_text lookup
few_actions = omega arith

few_steps : total_size its_rules ≤ 1000
unfolding size compile_expr compile_first compile_with_base compile_all compile_groups
    compile_patterns compile_roles compile_handlers compile_block compile_stmt compile_actions
    compile_action let_map is_known_event get_str first_text lookup
few_steps = omega arith

event_runs_intended_example :
    (r : EvalResult) × (evaluate plain compiled before_finish default_limits ≡ some r)
    × (r.directives
        ≡ lower_all plain compiled before_finish default_limits (
            intended_at plain before_finish compiled
              (let_map [] source.let_bindings)
              "pre_finish"
              source.handlers))
event_runs_intended_example =
    event_runs_intended plain source (no_imports plain) compiled before_finish default_limits
      accepted ((tt, tt, tt), tt) compiled_clips few_rules few_actions few_steps

-- ===== src/Hooks/Compile/Block.antt =====
-- `compile_block` and `compile_actions` of di-core/src/hooks/compiler.rs.
use di_rac.Prelude.{List, [], ◌∷◌, ◌++◌, Option, none, some, Dict}
use di_rac.Hooks.Ast.{Stmt, if_stmt, if_only, action_call, Stmts, done, stmt, LetConstructor}
use di_rac.Hooks.Compile.Action.{Errors, compile_action}
use di_rac.Hooks.Compile.Expr.{compile_expr}
use di_rac.Hooks.Ir.{Expr, negation, ActionIr, Rule}

abbrev pub listed : Option ActionIr → List ActionIr
listed none = []
listed (some a) = a ∷ []

abbrev both : List ActionIr × Errors → List ActionIr × Errors → List ActionIr × Errors
both (xs, e) (ys, f) = (xs ++ ys, e ++ f)

abbrev pub rule_when : Option Expr → List ActionIr → Rule
rule_when condition actions = record { condition = condition; actions = actions }

module _ (lets : Dict LetConstructor) where
  unfoldable mutual
    pub compile_actions : Stmts → List ActionIr × Errors
    compile_actions done = ([], [])
    compile_actions (stmt s rest) = both (compile_nested s) (compile_actions rest)

    -- The body of the loop of `compile_actions`: of an `if`, its `then` branch.
    pub compile_nested : Stmt → List ActionIr × Errors
    compile_nested (action_call name args _) =
        let (action, errors) = compile_action lets name args in (listed action, errors)
    compile_nested (if_stmt cond then_branch else_branch _) = compile_actions then_branch
    compile_nested (if_only cond then_branch _) = compile_actions then_branch

  -- the body of the loop of `compile_block`
  unfoldable pub compile_stmt : Stmt → List Rule × Errors
  compile_stmt (action_call name args _) =
      let (action, errors) = compile_action lets name args in
      (elim action [ none ↦ [] | some a ↦ rule_when none (a ∷ []) ∷ [] ], errors)
  compile_stmt (if_only cond then_branch _) =
      let (actions, errors) = compile_actions then_branch in
      (rule_when (some (compile_expr cond)) actions ∷ [], errors)
  compile_stmt (if_stmt cond then_branch else_branch _) =
      let (actions, errors) = compile_actions then_branch in
      let (else_actions, else_errors) = compile_actions else_branch in
      (
        rule_when (some (compile_expr cond)) actions
            ∷ rule_when (some (negation (compile_expr cond))) else_actions
            ∷ [],
        errors ++ else_errors,
      )

  unfoldable pub compile_block : Stmts → List Rule × Errors
  unfolding compile_stmt
  compile_block done = ([], [])
  compile_block (stmt s rest) =
      let (rules, errors) = compile_stmt s in
      let (more, later) = compile_block rest in (rules ++ more, errors ++ later)

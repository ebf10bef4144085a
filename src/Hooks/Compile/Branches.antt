-- ===== src/Hooks/Compile/Branches.antt =====
-- Which actions a compiled block runs, against what its `if` statements say
-- (`compile_block` and `compile_actions` of di-core/src/hooks/compiler.rs).
use di_rac.Prelude.{
  String, true, false, List, [], ◌∷◌, ◌++◌, Option, none, some, ◌≡◌, refl, ap, ◌∙◌, inl, inr,
  Bool-cases, Dict, append-nil, if◌then◌else◌,
}
use di_rac.Hooks.Ast.{
  Expr, Stmt, if_stmt, if_only, action_call, Stmts, done, stmt, LetConstructor, ActionArg, Span,
}
use di_rac.Hooks.Compile.Action.{compile_action}
use di_rac.Hooks.Compile.Block.{listed, rule_when, compile_actions, compile_block}
use di_rac.Hooks.Compile.Expr.{compile_expr}
use di_rac.Hooks.Eval.Fired.{holds, fired, fired-append, holds-negation}
use di_rac.Hooks.Eval.Value.{EvalContext}
use di_rac.Hooks.External.{External}
use di_rac.Hooks.Ir.{negation, ActionIr, CompiledHookModule}

-- only action calls
abbrev pub IsFlat : Stmts → Type 0
IsFlat done = Unit
IsFlat (stmt (action_call name args s) rest) = IsFlat rest
IsFlat (stmt (if_stmt c t e s) rest) = ⊥
IsFlat (stmt (if_only c t s) rest) = ⊥

-- the branches of each `if` hold only action calls
abbrev pub IsFlatBlock : Stmts → Type 0
IsFlatBlock done = Unit
IsFlatBlock (stmt (action_call name args s) rest) = IsFlatBlock rest
IsFlatBlock (stmt (if_stmt c t e s) rest) = IsFlat t × IsFlat e × IsFlatBlock rest
IsFlatBlock (stmt (if_only c t s) rest) = IsFlat t × IsFlatBlock rest

-- `if c:` around `if d:` around one action
abbrev pub nested : Expr → Expr → String → List ActionArg → Span → Stmts
nested c d name args at =
    stmt (if_only c (stmt (if_only d (stmt (action_call name args at) done) at) done) at) done

module _ (x : External) (ctx : EvalContext x) (m : CompiledHookModule x)
    (lets : Dict LetConstructor) where
  abbrev action_of : String → List ActionArg → List ActionIr
  action_of name args = listed (compile_action lets name args).0

  -- the actions that the statements say, an `if` at a time
  unfoldable mutual
    pub intended : Stmts → List ActionIr
    intended done = []
    intended (stmt s rest) = intended_stmt s ++ intended rest

    pub intended_stmt : Stmt → List ActionIr
    intended_stmt (action_call name args _) = action_of name args
    intended_stmt (if_stmt c t e _) =
        let then_actions = intended t in
        let else_actions = intended e in
        if holds x ctx m (compile_expr c) then then_actions else else_actions
    intended_stmt (if_only c t _) =
        let then_actions = intended t in if holds x ctx m (compile_expr c) then then_actions else []

  flat_actions : (body : Stmts) → IsFlat body → (compile_actions lets body).0 ≡ intended body
  unfolding compile_actions intended
  flat_actions done h = refl
  flat_actions (stmt (action_call name args s) rest) h =
      ap (λ more. action_of name args ++ more) (flat_actions rest h)
  flat_actions (stmt (if_stmt c t e s) rest) h = absurd h
  flat_actions (stmt (if_only c t s) rest) h = absurd h

  fired_action :
      (a : Option ActionIr)
      → fired x ctx m (elim a [ none ↦ [] | some b ↦ rule_when none (b ∷ []) ∷ [] ]) ≡ listed a
  unfolding fired
  fired_action none = refl
  fired_action (some b) = refl

  fired_pair :
      (c : Expr) (ts es : List ActionIr)
      → fired x ctx m (
          rule_when (some (compile_expr c)) ts
          ∷ rule_when (some (negation (compile_expr c))) es
          ∷ [])
        ≡ (if holds x ctx m (compile_expr c) then ts else es)
  unfolding fired
  fired_pair c ts es = elim (Bool-cases (holds x ctx m (compile_expr c))) [
    | inl yes_c ↦ rw (holds-negation x ctx m (compile_expr c), yes_c) (append-nil ts)
    | inr no_c ↦ rw (holds-negation x ctx m (compile_expr c), no_c) (append-nil es)
  ]

  fired_single :
      (c : Expr) (ts : List ActionIr)
      → fired x ctx m (rule_when (some (compile_expr c)) ts ∷ [])
        ≡ (if holds x ctx m (compile_expr c) then ts else [])
  unfolding fired
  fired_single c ts = append-nil _

  both_equal : {xs xs' ys ys' : List ActionIr} → xs ≡ xs' → ys ≡ ys' → xs ++ ys ≡ xs' ++ ys'
  both_equal p q = λ i. p i ++ q i

  -- Where no branch of an `if` holds another `if`, the compiled rules whose conditions hold have
  -- exactly the actions that the statements say, in their order.
  pub compile_block-intended :
      (body : Stmts) → IsFlatBlock body → fired x ctx m (compile_block lets body).0 ≡ intended body
  unfolding compile_block intended
  compile_block-intended done h = unfold fired in refl
  compile_block-intended (stmt (action_call name args s) rest) h =
      fired-append x ctx m _ (compile_block lets rest).0
      ∙ both_equal (fired_action (compile_action lets name args).0) (compile_block-intended rest h)
  compile_block-intended (stmt (if_stmt c t e s) rest) (t_flat, e_flat, h) =
      fired-append x ctx m
        (rule_when (some (compile_expr c)) (compile_actions lets t).0
          ∷ rule_when (some (negation (compile_expr c))) (compile_actions lets e).0
          ∷ [])
        (compile_block lets rest).0
      ∙ both_equal
          (fired_pair c _ _ ∙ (λ i.
            if holds x ctx m (compile_expr c)
            then flat_actions t t_flat i
            else flat_actions e e_flat i))
          (compile_block-intended rest h)
  compile_block-intended (stmt (if_only c t s) rest) (t_flat, h) =
      fired-append x ctx m (rule_when (some (compile_expr c)) (compile_actions lets t).0 ∷ [])
        (compile_block lets rest).0
      ∙ both_equal
          (fired_single c _
            ∙ ap (λ ts. if holds x ctx m (compile_expr c) then ts else []) (flat_actions t t_flat))
          (compile_block-intended rest h)

  -- An `if` inside an `if` loses its condition: where the outer condition holds and the inner one
  -- does not, the action under both runs, though the statements say that it does not.
  pub nested_condition_dropped :
      (c d : Expr) (name : String) (args : List ActionArg) (at : Span) (a : ActionIr)
      → holds x ctx m (compile_expr c) ≡ true
      → holds x ctx m (compile_expr d) ≡ false
      → (compile_action lets name args).0 ≡ some a
      → (fired x ctx m (compile_block lets (nested c d name args at)).0 ≡ a ∷ [])
        × (intended (nested c d name args at) ≡ [])
  unfolding compile_block compile_actions intended fired
  nested_condition_dropped c d name args at a yes_c no_d compiled =
      (rw (yes_c, compiled) refl, rw (yes_c, no_d) refl)

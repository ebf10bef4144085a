-- ===== src/Hooks/Eval/Steps.antt =====
-- The step budget of `eval_expr` (di-core/src/hooks/evaluator.rs) against a meaning without one.
use di_rac.Prelude.{
  ℕ, suc, ◌+◌, ◌≤◌, ◌<◌, true, false, not, none, some, str_eq, is_empty, is_some, ◌≡◌, arith,
  if◌then◌else◌,
}
use di_rac.Hooks.External.{External}
use di_rac.Hooks.Ir.{
  Expr, bool, string, int, string_list, ident, changed_files, files_match, observer, binary_op,
  negation, observer_base, CompiledHookModule,
}
use di_rac.Hooks.Eval.Value.{
  EvalValue, of_bool, of_string, of_int, of_list, EvalContext, is_truthy, apply_op, eval_files,
  eval_observer, shortcut, metered, eval_expr, eval_condition,
}

-- the number of nodes
unfoldable pub size : Expr → ℕ
size (binary_op l op r) = suc (size l + size r)
size (negation e) = suc (size e)
size _ = 1

metered_within : (max n : ℕ) (r : EvalValue × ℕ) → n < max → metered max n r ≡ r
metered_within max n r h = ground arith

module _ (x : External) (ctx : EvalContext x) (m : CompiledHookModule x) where
  -- what an expression means, with no budget
  unfoldable pub meaning : Expr → EvalValue
  meaning (bool b) = of_bool b
  meaning (string s) = of_string s
  meaning (int i) = of_int i
  meaning (string_list items) = of_list items
  meaning (ident s) =
      if str_eq s observer_base then of_bool (is_some ctx.observer_id) else of_string s
  meaning changed_files = of_bool (not (is_empty ctx.changed_files))
  meaning (files_match f) = of_bool (eval_files x ctx m f)
  meaning (observer field) = of_bool (eval_observer x ctx field)
  meaning (binary_op l op r) = elim (shortcut x l op r ctx) [
    | some b ↦ of_bool b
    | none ↦ apply_op op (meaning l) (meaning r)
  ]
  meaning (negation e) = of_bool (not (is_truthy (meaning e)))

  -- the steps that an evaluation takes where the budget allows
  unfoldable pub cost : Expr → ℕ
  cost (binary_op l op r) = elim (shortcut x l op r ctx) [
    | some b ↦ 1
    | none ↦ suc (cost l + cost r)
  ]
  cost (negation e) = suc (cost e)
  cost _ = 1

  cost_pos : (e : Expr) → 0 < cost e
  unfolding cost
  cost_pos (binary_op l op r) = ground arith
  cost_pos (negation e) = ground arith
  cost_pos _ = ground arith

  pub cost-le-size : (e : Expr) → cost e ≤ size e
  unfolding cost size
  cost-le-size (binary_op l op r) = ground (arith, cost-le-size l, cost-le-size r)
  cost-le-size (negation e) = ground (arith, cost-le-size e)
  cost-le-size _ = ground arith

  -- Where the budget covers the cost, the metered evaluation gives the meaning and has taken just
  -- that many steps.
  pub eval_expr-meaning :
      (max : ℕ) (e : Expr) (n : ℕ)
      → n + cost e ≤ max
      → eval_expr x ctx m max e n ≡ (meaning e, n + cost e)
  unfolding eval_expr meaning cost
  eval_expr-meaning max (binary_op l op r) n h = ground (
    arith,
    eval_expr-meaning max l (suc n),
    eval_expr-meaning max r (suc n + cost l),
    cost_pos l,
    cost_pos r,
  )
  eval_expr-meaning max (negation e) n h =
      ground (arith, eval_expr-meaning max e (suc n), cost_pos e)
  eval_expr-meaning max _ n h = ground arith

  -- Whatever the budget, an evaluation takes at least one step, and at most one for each node.
  pub eval_expr_steps :
      (max : ℕ) (e : Expr) (n : ℕ)
      → (n < (eval_expr x ctx m max e n).1) × ((eval_expr x ctx m max e n).1 ≤ n + size e)
  unfolding eval_expr size
  eval_expr_steps max (binary_op l op r) n =
      let left = eval_expr x ctx m max l (suc n) in
      ground (arith, eval_expr_steps max l (suc n), eval_expr_steps max r left.1)
  eval_expr_steps max (negation e) n = ground (arith, eval_expr_steps max e (suc n))
  eval_expr_steps max _ n = ground arith

  -- With the budget used up, every expression is false.
  pub eval_expr_spent :
      (max : ℕ) (e : Expr) (n : ℕ) → max ≤ n → eval_expr x ctx m max e n ≡ (of_bool false, suc n)
  unfolding eval_expr
  eval_expr_spent max (binary_op l op r) n h = ground arith
  eval_expr_spent max (negation e) n h = ground arith
  eval_expr_spent max _ n h = ground arith

  -- With one step left, a negation holds, whatever it negates: running out of steps is not always
  -- taken as "the rule does not match".
  pub negation_out_of_steps :
      (max : ℕ) (e : Expr) (n : ℕ)
      → suc n ≡ max
      → eval_condition x ctx m max (negation e) n ≡ (true, suc (suc n))
  unfolding eval_condition eval_expr is_truthy
  negation_out_of_steps max e n h = ground (arith, eval_expr_spent max e (suc n))

  -- A condition with no more nodes than steps are left is decided as it means, and no evaluation of
  -- one takes more steps than it has nodes.
  pub eval_condition-meaning :
      (max : ℕ) (e : Expr) (n : ℕ)
      → n + size e ≤ max
      → (eval_condition x ctx m max e n ≡ (is_truthy (meaning e), n + cost e))
        × (n + cost e ≤ n + size e)
  unfolding eval_condition
  eval_condition-meaning max e n h = ground (arith, eval_expr-meaning max e n, cost-le-size e)

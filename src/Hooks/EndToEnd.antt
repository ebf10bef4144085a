-- ===== src/Hooks/EndToEnd.antt =====
-- From a hook file's handlers to the directives of an event: the compiler and the evaluator
-- (di-core/src/hooks/compiler.rs, di-core/src/hooks/evaluator.rs) together.
use di_rac.Prelude.{
  ◌≤◌, ◌<◌, String, Bool, true, false, List, [], ◌∷◌, ◌++◌, Option, none, some, ◌≡◌, refl, sym, ap,
  ◌∙◌, inl, inr, Bool-cases, All, length, str_eq, lookup, Dict, if◌then◌else◌,
}
use di_rac.Hooks.Ast
use di_rac.Hooks.Ast.{LetConstructor}
use di_rac.Hooks.Compile.Action.{Errors}
use di_rac.Hooks.Compile.Block.{compile_block}
use di_rac.Hooks.Compile.Branches.{IsFlatBlock, intended, compile_block-intended}
use di_rac.Hooks.Compile.Module.{
  is_known_event, let_map, imported, local, compile_groups, compile_roles, next_seen, add_handler,
  compile_handlers, Imports, compile_all, compile_with_base,
}
use di_rac.Hooks.Compile.Names.{append-eq-nil, split_errors, cons-ne-nil}
use di_rac.Hooks.Compile.WellFormed.{accepted}
use di_rac.Hooks.Eval.Complete.{rules_for, lower_all, total_actions, total_size}
use di_rac.Hooks.Eval.Complete.Rules.{evaluate-fired}
use di_rac.Hooks.Eval.Fired.{fired, fired-append}
use di_rac.Hooks.Eval.Panics.{HandlerClips}
use di_rac.Hooks.Eval.Run.{AgentHookLimits, EvalResult, evaluate}
use di_rac.Hooks.Eval.Value.{EvalContext}
use di_rac.Hooks.External.{External}
use di_rac.Hooks.Ir.{ActionIr, Rule, EventHandler, CompiledHookModule}

module _ (lets : Dict LetConstructor) (event : String) where
  -- the rules that the bodies of the event's handlers compile to
  abbrev compiled_rules : List Ast.EventHandler → List Rule
  compiled_rules [] = []
  compiled_rules (h ∷ hs) =
      let rest = compiled_rules hs in
      if str_eq h.event event then (compile_block lets h.body).0 ++ rest else rest

  rules_for-add_handler :
      (known : Bool) (previous : Option String) (h : Ast.EventHandler)
      (compiled : List Rule × Errors) (rest : List EventHandler × Errors)
      → (add_handler known previous h compiled rest).1 ≡ []
      → (rest.1 ≡ [])
        × (rules_for event (add_handler known previous h compiled rest).0 ≡ (
            if str_eq h.event event
            then compiled.0 ++ rules_for event rest.0
            else rules_for event rest.0))
  rules_for-add_handler false previous h compiled rest e = absurd (cons-ne-nil _ _ e)
  rules_for-add_handler true (some other) h compiled rest e = absurd (cons-ne-nil _ _ e)
  rules_for-add_handler true none h compiled rest e = ((append-eq-nil compiled.1 rest.1 e).1, refl)

  rules_for-compile_handlers :
      (seen : Dict String) (hs : List Ast.EventHandler)
      → (compile_handlers lets seen hs).1 ≡ []
      → rules_for event (compile_handlers lets seen hs).0 ≡ compiled_rules hs
  unfolding compile_handlers
  rules_for-compile_handlers seen [] e = refl
  rules_for-compile_handlers seen (h ∷ hs) e =
      let known = is_known_event h.event in
      let previous = lookup h.event seen in
      let later = next_seen known previous h seen in
      let (none_later, same) =
        rules_for-add_handler known previous h (compile_block lets h.body)
          (compile_handlers lets later hs) e in
      same
      ∙ ap (λ rs. if str_eq h.event event then (compile_block lets h.body).0 ++ rs else rs)
          (rules_for-compile_handlers later hs none_later)

module _ (x : External) (ctx : EvalContext x) (c : CompiledHookModule x)
    (lets : Dict LetConstructor) where
  -- the actions that the bodies of the event's handlers say
  abbrev pub intended_at : String → List Ast.EventHandler → List ActionIr
  intended_at event [] = []
  intended_at event (h ∷ hs) =
      let rest = intended_at event hs in
      if str_eq h.event event then intended x ctx c lets h.body ++ rest else rest

  fired-compiled_rules :
      (event : String) (hs : List Ast.EventHandler)
      → All (λ h. IsFlatBlock h.body) hs
      → fired x ctx c (compiled_rules lets event hs) ≡ intended_at event hs
  fired-compiled_rules event [] flat = unfold fired in refl
  fired-compiled_rules event (h ∷ hs) flat = elim (Bool-cases (str_eq h.event event)) [
    | inl same ↦ rw same (
        fired-append x ctx c (compile_block lets h.body).0 (compiled_rules lets event hs) ∙ (λ i.
          compile_block-intended x ctx c lets h.body flat.0 i
          ++ fired-compiled_rules event hs flat.1 i))
    | inr other ↦ rw other (fired-compiled_rules event hs flat.1)
  ]

module _ (x : External) where
  rules_for-compiled :
      (m : Ast.Module x) (i : Imports x) (c : CompiledHookModule x) (event : String)
      → compile_with_base x m i ≡ inl c
      → rules_for event c.handlers ≡ compiled_rules (let_map [] m.let_bindings) event m.handlers
  unfolding compile_all
  rules_for-compiled m i c event e =
      let (no_error, same) = accepted x (compile_all x m i) c (unfold compile_with_base in e) in
      let g₁ = compile_groups x imported [] i.groups in
      let g₂ = compile_groups x local g₁.1 m.groups in
      let r₁ = compile_roles x imported [] i.roles in
      let r₂ = compile_roles x local r₁.1 m.roles in
      let h = compile_handlers (let_map [] m.let_bindings) [] m.handlers in
      let none_in = split_errors i.errors g₁.2 g₂.2 r₁.2 r₂.2 h.1 no_error in
      ap (λ (k : CompiledHookModule x). rules_for event k.handlers) (sym same)
      ∙ rules_for-compile_handlers (let_map [] m.let_bindings) event [] m.handlers none_in.4

  -- For a hook file that the compiler accepts and whose `if` branches hold only action calls, at an
  -- event whose rules the limits allow in full, and where no text is cut inside a character, the
  -- evaluation returns, and its directives are those of the actions that the statements of the
  -- event's handlers say, in their order.
  pub event_runs_intended :
      (m : Ast.Module x) (i : Imports x) (c : CompiledHookModule x) (ctx : EvalContext x)
      (limits : AgentHookLimits)
      → compile_with_base x m i ≡ inl c
      → All (λ h. IsFlatBlock h.body) m.handlers
      → All HandlerClips c.handlers
      → length (rules_for ctx.event c.handlers) ≤ limits.max_rules
      → total_actions (rules_for ctx.event c.handlers) < limits.max_actions_per_event
      → total_size (rules_for ctx.event c.handlers) ≤ limits.max_eval_steps
      → (r : EvalResult) × (evaluate x c ctx limits ≡ some r)
        × (r.directives
            ≡ lower_all x c ctx limits
                (intended_at x ctx c (let_map [] m.let_bindings) ctx.event m.handlers))
  event_runs_intended m i c ctx limits e flat clips rules actions steps =
      let (r, found, given) = evaluate-fired x c ctx limits clips rules actions steps in
      let lets = let_map [] m.let_bindings in
      let same =
        ap (fired x ctx c) (rules_for-compiled m i c ctx.event e)
        ∙ fired-compiled_rules x ctx c lets ctx.event m.handlers flat in
      (r, found, given ∙ ap (lower_all x c ctx limits) same)

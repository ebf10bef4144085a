-- ===== src/Hooks/Eval/Value.antt =====
-- Values, the context of an evaluation, and `eval_expr` of di-core/src/hooks/evaluator.rs.
use di_rac.Prelude.{
  ℕ, suc, ℤ, String, Bool, true, false, not, ◌&&◌, ◌||◌, List, [], ◌∷◌, Option, none, some, inl,
  inr, str_eq, ltb, int_eq, any, all, contains, is_empty, is_some, ◌>>=◌, if◌then◌else◌,
}
use di_rac.Hooks.Ast.{BinOp}
use di_rac.Hooks.External.{External}
use di_rac.Hooks.Ir.{
  Expr, bool, string, int, string_list, ident, changed_files, files_match, observer, binary_op,
  negation, observer_base, FileMatch, any_match, all_match, ObserverField, name, output, PathGroup,
  CompiledHookModule,
}

pub data EvalValue : Type 0 where
  of_bool : Bool → EvalValue
  of_string : String → EvalValue
  of_int : ℤ → EvalValue
  of_list : List String → EvalValue

unfoldable pub is_truthy : EvalValue → Bool
is_truthy (of_bool b) = b
is_truthy (of_string s) = not (str_eq s "")
is_truthy (of_int n) = not (int_eq n (ℤ.pos 0))
is_truthy (of_list l) = not (is_empty l)

unfoldable pub as_str : EvalValue → Option String
as_str (of_string s) = some s
as_str _ = none

-- `Vec<String> == Vec<String>`
unfoldable pub strings_eq : List String → List String → Bool
strings_eq [] [] = true
strings_eq (a ∷ more) (b ∷ bs) = str_eq a b && strings_eq more bs
strings_eq _ _ = false

unfoldable pub eq_value : EvalValue → EvalValue → Bool
unfolding strings_eq
eq_value (of_bool true) (of_bool b) = b
eq_value (of_bool false) (of_bool b) = not b
eq_value (of_string a) (of_string b) = str_eq a b
eq_value (of_int a) (of_int b) = int_eq a b
eq_value (of_list a) (of_list b) = strings_eq a b
eq_value _ _ = false

pub record EvalContext (x : External) : Type 0 where
  pub hook_id : String
  pub event : String
  pub changed_files : List String
  pub tool_name : Option String
  pub tool_success : Option Bool
  pub observer_id : Option String
  pub observer_output : Option x.Json

-- `value.as_deref() == Some(literal)`
abbrev is_literal : Option String → String → Bool
is_literal none literal = false
is_literal (some s) literal = str_eq s literal

abbrev compared : BinOp → Bool → Bool
compared BinOp.eq e = e
compared BinOp.neq e = not e
compared _ e = false

-- the haystack of `x in list`
abbrev haystack : EvalValue → List String
haystack (of_list items) = items
haystack (of_string s) = s ∷ []
haystack _ = []

abbrev pub apply_op : BinOp → EvalValue → EvalValue → EvalValue
apply_op BinOp.and l r = of_bool (is_truthy l && is_truthy r)
apply_op BinOp.or l r = of_bool (is_truthy l || is_truthy r)
apply_op BinOp.eq l r = of_bool (eq_value l r)
apply_op BinOp.neq l r = of_bool (not (eq_value l r))
apply_op BinOp.is_in l r =
    of_bool (elim (as_str l) [ none ↦ false | some n ↦ contains n (haystack r) ])

abbrev pub is_comparison : BinOp → Bool
is_comparison BinOp.eq = true
is_comparison BinOp.neq = true
is_comparison _ = false

-- `*steps += 1; if *steps > max_steps { return Bool(false) }`, with the result of the rest
abbrev pub metered : ℕ → ℕ → EvalValue × ℕ → EvalValue × ℕ
metered max_steps n result = if ltb max_steps (suc n) then (of_bool false, suc n) else result

module _ (x : External) where
  open x use {Json, json_null, json_get, json_as_str, json_is_null, json_to_string, Pattern}

  unfoldable pub match_literal_glob : String → List String → Bool → Bool
  match_literal_glob pattern files every = elim (x.new_pattern pattern) [
    | inr error ↦ false
    | inl p ↦ if every then all (x.matches p) files else any (x.matches p) files
  ]

  unfoldable pub match_any_group : String → List String → List (PathGroup x) → Bool
  match_any_group group files [] = false
  match_any_group group files (g ∷ gs) =
      let rest = match_any_group group files gs in
      if str_eq g.name group then any (λ p. any (x.matches p) files) g.patterns else rest

  unfoldable pub match_all_groups : String → List String → List (PathGroup x) → Bool
  match_all_groups group files [] = false
  match_all_groups group files (g ∷ gs) =
      let rest = match_all_groups group files gs in
      if str_eq g.name group then all (λ p. all (x.matches p) files) g.patterns else rest

  -- the walk of `get_observer_field`: a missing key ends it
  abbrev field_at : Json → List String → Option Json
  field_at current [] = some current
  field_at current (field ∷ path) = json_get current field >>= λ next. field_at next path

  abbrev shown : Json → Option String
  shown j = elim (json_as_str j) [
    | some s ↦ some s
    | none ↦ if json_is_null j then none else some (json_to_string j)
  ]

  unfoldable pub get_observer_field : EvalContext x → List String → Option String
  get_observer_field ctx path = ctx.observer_output >>= λ o. field_at o path >>= shown

  abbrev observer_is : EvalContext x → ObserverField → String → Bool
  observer_is ctx name literal = is_literal ctx.observer_id literal
  observer_is ctx (output path) literal = is_literal (get_observer_field ctx path) literal

  unfoldable pub eval_observer_compare : Expr → Expr → EvalContext x → BinOp → Option Bool
  eval_observer_compare (observer field) (string s) ctx op =
      some (compared op (observer_is ctx field s))
  eval_observer_compare (string s) (observer field) ctx op =
      some (compared op (observer_is ctx field s))
  eval_observer_compare _ _ ctx op = none

  -- the walk of a bare `observer.output.path`: a missing key is `Value::Null`
  abbrev value_at : Json → List String → Json
  value_at current [] = current
  value_at current (field ∷ path) =
      value_at (elim (json_get current field) [ none ↦ json_null | some next ↦ next ]) path

  unfoldable pub eval_observer : EvalContext x → ObserverField → Bool
  eval_observer ctx name = is_some ctx.observer_id
  eval_observer ctx (output []) = is_some ctx.observer_output
  eval_observer ctx (output (field ∷ path)) = elim ctx.observer_output [
    | some o ↦ not (json_is_null (value_at o (field ∷ path)))
    | none ↦ false
  ]

  unfoldable pub eval_files : EvalContext x → CompiledHookModule x → FileMatch → Bool
  eval_files ctx m (any_match pattern) =
      match_any_group pattern ctx.changed_files m.groups
      || match_literal_glob pattern ctx.changed_files false
  eval_files ctx m (all_match pattern) =
      match_all_groups pattern ctx.changed_files m.groups
      || match_literal_glob pattern ctx.changed_files true

  -- `Some(result)` where the operator is `==` or `!=` and one side is an observer field
  abbrev pub shortcut : Expr → BinOp → Expr → EvalContext x → Option Bool
  shortcut l op r ctx = if is_comparison op then eval_observer_compare l r ctx op else none

  module _ (ctx : EvalContext x) (m : CompiledHookModule x) (max_steps : ℕ) where
    -- The value, and the step counter after it.
    unfoldable pub eval_expr : Expr → ℕ → EvalValue × ℕ
    eval_expr (bool b) n = metered max_steps n (of_bool b, suc n)
    eval_expr (string s) n = metered max_steps n (of_string s, suc n)
    eval_expr (int i) n = metered max_steps n (of_int i, suc n)
    eval_expr (string_list items) n = metered max_steps n (of_list items, suc n)
    eval_expr (ident s) n =
        metered max_steps n
          (if str_eq s observer_base then of_bool (is_some ctx.observer_id) else of_string s, suc n)
    eval_expr changed_files n =
        metered max_steps n (of_bool (not (is_empty ctx.changed_files)), suc n)
    eval_expr (files_match f) n = metered max_steps n (of_bool (eval_files ctx m f), suc n)
    eval_expr (observer field) n = metered max_steps n (of_bool (eval_observer ctx field), suc n)
    eval_expr (binary_op l op r) n =
        let left : EvalValue × ℕ = eval_expr l (suc n) in
        let right : EvalValue × ℕ = eval_expr r left.1 in
        let result : EvalValue × ℕ = elim (shortcut l op r ctx) [
          | some b ↦ (of_bool b, suc n)
          | none ↦ (apply_op op left.0 right.0, right.1)
        ] in
        metered max_steps n result
    eval_expr (negation e) n =
        let inner : EvalValue × ℕ = eval_expr e (suc n) in
        metered max_steps n (of_bool (not (is_truthy inner.0)), inner.1)

    -- `eval_condition`
    unfoldable pub eval_condition : Expr → ℕ → Bool × ℕ
    unfolding eval_expr is_truthy
    eval_condition e n = let (v, n₁) = eval_expr e n in (is_truthy v, n₁)

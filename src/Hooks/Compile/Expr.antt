-- ===== src/Hooks/Compile/Expr.antt =====
-- `compile_expr` of di-core/src/hooks/compiler.rs.
use di_rac.Prelude.{
  String, Bool, true, false, ◌&&◌, List, [], ◌∷◌, ◌++◌, Option, none, some, str_eq, concat,
  decimal_int, is_empty, ◌>>=◌, if◌then◌else◌,
}
use di_rac.Hooks.Ast.{
  Expr, bool, string, int, ident, method_call, binary_op, list, dict, member_access, Exprs, nil,
  cons, BinOp,
}
use di_rac.Hooks.Ir
use di_rac.Hooks.Ir.{observer_base, ObserverField, FileMatch}

abbrev debug_bool : Bool → String
debug_bool true = "true"
debug_bool false = "false"

abbrev debug_op : BinOp → String
debug_op BinOp.and = "And"
debug_op BinOp.or = "Or"
debug_op BinOp.eq = "Eq"
debug_op BinOp.neq = "Neq"
debug_op BinOp.is_in = "In"

unfoldable pub expr_to_debug : Expr → String
unfolding decimal_int
expr_to_debug (ident name _) = name
expr_to_debug (string s _) = concat ("\"" ∷ s ∷ "\"" ∷ [])
expr_to_debug (bool b _) = debug_bool b
expr_to_debug (int n _) = decimal_int n
expr_to_debug (method_call object method _ _) =
    concat (expr_to_debug object ∷ "." ∷ method ∷ "()" ∷ [])
expr_to_debug (member_access object member _) = concat (expr_to_debug object ∷ "." ∷ member ∷ [])
expr_to_debug (binary_op l op r _) =
    concat (expr_to_debug l ∷ " " ∷ debug_op op ∷ " " ∷ expr_to_debug r ∷ [])
expr_to_debug (list _ _) = "[...]"
expr_to_debug (dict _ _) = "{...}"

-- `["name"]`, or `["output", …]`, of a chain `observer.x.y`
unfoldable pub extract_observer_path : Expr → Option (List String)
extract_observer_path (member_access (ident name _) member _) =
    if str_eq name observer_base then some (member ∷ []) else none
extract_observer_path (member_access (member_access o n s) member _) =
    extract_observer_path (member_access o n s) >>= λ fields. some (fields ++ member ∷ [])
extract_observer_path _ = none

-- the texts among the items of a list
abbrev pub strings_of : Exprs → List String
strings_of nil = []
strings_of (cons (string s _) items) = s ∷ strings_of items
strings_of (cons _ items) = strings_of items

abbrev observer_access : List String → Ir.Expr
observer_access [] = Ir.Expr.bool false
observer_access (field ∷ path) =
    if str_eq field "name" && is_empty path
    then Ir.Expr.observer ObserverField.name
    else if str_eq field "output"
    then Ir.Expr.observer (ObserverField.output path)
    else Ir.Expr.bool false

-- `changed_files.any_match(p)` and `all_match(p)`, where the first argument is a text
abbrev file_match : String → Option Ir.Expr → Ir.Expr
file_match method (some (Ir.Expr.string p)) =
    if str_eq method "any_match"
    then Ir.Expr.files_match (FileMatch.any_match p)
    else Ir.Expr.files_match (FileMatch.all_match p)
file_match method _ = Ir.Expr.bool false

unfoldable mutual
  unfolding extract_observer_path expr_to_debug

  pub compile_expr : Expr → Ir.Expr
  compile_expr (bool b _) = Ir.Expr.bool b
  compile_expr (string s _) = Ir.Expr.string s
  compile_expr (int n _) = Ir.Expr.int n
  compile_expr (ident name _) =
      if str_eq name "changed_files" then Ir.Expr.changed_files else Ir.Expr.ident name
  compile_expr (method_call object method args _) =
      let matching = file_match method (compile_first args) in
      if str_eq method "any_match"
      then matching
      else if str_eq method "all_match"
      then matching
      else if str_eq method "__call__"
      then Ir.Expr.bool false
      else Ir.Expr.ident (concat (expr_to_debug object ∷ "." ∷ method ∷ []))
  compile_expr (binary_op l op r _) = Ir.Expr.binary_op (compile_expr l) op (compile_expr r)
  compile_expr (list items _) =
      let head = compile_first items in
      if is_empty (strings_of items)
      then elim head [ some e ↦ e | none ↦ Ir.Expr.bool false ]
      else Ir.Expr.string_list (strings_of items)
  compile_expr (member_access object member span) =
      elim (extract_observer_path (member_access object member span)) [
        | some path ↦ observer_access path
        | none ↦ Ir.Expr.bool false
      ]
  compile_expr (dict _ _) = Ir.Expr.bool false

  -- `first().map(compile_expr)`
  pub compile_first : Exprs → Option Ir.Expr
  compile_first nil = none
  compile_first (cons e _) = some (compile_expr e)

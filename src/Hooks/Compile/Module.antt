-- ===== src/Hooks/Compile/Module.antt =====
-- `compile_with_base` of di-core/src/hooks/compiler.rs.
use text.Mathlib.Text.{find?}
use di_rac.Prelude.{
  String, Bool, true, false, ◌||◌, List, [], ◌∷◌, ◌++◌, Option, none, some, inl, inr, concat,
  contains, find, is_empty, is_some, Dict, insert, lookup, ◌⊎◌, if◌then◌else◌,
}
use di_rac.Hooks.Ast
use di_rac.Hooks.Ast.{LetBinding, LetConstructor}
use di_rac.Hooks.Compile.Action.{Errors}
use di_rac.Hooks.Compile.Block.{compile_block}
use di_rac.Hooks.External.{External}
use di_rac.Hooks.Ir.{EventHandler, Rule, PathGroup, RoleDef, CompiledHookModule}

abbrev known_events : List String
known_events =
    "session_start" ∷ "post_tool_use" ∷ "observer_result" ∷ "pre_finish" ∷ "user_prompt"
    ∷ "plan_created" ∷ "validation_result" ∷ "pre_compact" ∷ "task_complete" ∷ "error_occurred" ∷ []

-- `KNOWN_EVENTS.contains`
unfoldable pub is_known_event : String → Bool
is_known_event event = contains event known_events

-- `collect` into a `HashMap`: of two bindings with one name, the later.
unfoldable pub let_map : Dict LetConstructor → List LetBinding → Dict LetConstructor
let_map m [] = m
let_map m (b ∷ bs) = let_map (insert b.name b.constructor m) bs

-- `str::contains`
abbrev has_text : String → String → Bool
has_text s t = is_some (find? s t)

abbrev suggestion : String → String
suggestion event = elim (find (λ e. has_text e event || has_text event e) known_events) [
  | none ↦ ""
  | some e ↦ concat (". Did you mean \"" ∷ e ∷ "\"?" ∷ [])
]

-- the two loops over groups, and over roles, differ in their messages
pub data Origin : Type 0 where
  imported local : Origin

module _ (x : External) where
  open x use {Pattern, new_pattern}

  abbrev in_group : Origin → String
  in_group imported = "\" in imported group \""
  in_group local = "\" in group \""

  -- one round, on what the pattern's text gives
  abbrev pub add_pattern :
      Origin → String → String → Pattern ⊎ String → List Pattern × Errors → List Pattern × Errors
  add_pattern o group p (inl pattern) (patterns, errors) = (pattern ∷ patterns, errors)
  add_pattern o group p (inr e) (patterns, errors) =
      let message = concat ("Invalid glob pattern \"" ∷ p ∷ in_group o ∷ group ∷ "\": " ∷ e ∷ []) in
      (patterns, message ∷ errors)

  unfoldable pub compile_patterns : Origin → String → List String → List Pattern × Errors
  compile_patterns o group [] = ([], [])
  compile_patterns o group (p ∷ ps) =
      add_pattern o group p (new_pattern p) (compile_patterns o group ps)

  abbrev already : Origin → String
  already imported = "\" is already defined (imported)."
  already local = "\" is already defined."

  -- The groups that are kept, the names that have been seen, and the errors.
  unfoldable pub compile_groups :
      Origin → List String → List Ast.PathGroup → List (PathGroup x) × List String × Errors
  unfolding compile_patterns
  compile_groups o seen [] = ([], seen, [])
  compile_groups o seen (g ∷ gs) =
      let again = contains g.name seen in
      let (groups, later, errors) = compile_groups o (if again then seen else g.name ∷ seen) gs in
      let (patterns, bad) = compile_patterns o g.name g.patterns in
      if again
      then (groups, later, concat ("Group \"" ∷ g.name ∷ already o ∷ []) ∷ errors)
      else ((record { name = g.name; patterns = patterns }) ∷ groups, later, bad ++ errors)

  abbrev role_label : Origin → String
  role_label imported = "Imported role \""
  role_label local = "Role \""

  abbrev pub budget_error : Origin → Ast.RoleDef x → Errors
  budget_error o r =
      if is_some r.budget
      then []
      else concat (
          role_label o
          ∷ r.name
          ∷ "\" is missing budget(...) — budgets are required for loop safety."
          ∷ [])
        ∷ []

  unfoldable pub compile_roles :
      Origin → List String → List (Ast.RoleDef x) → List (RoleDef x) × List String × Errors
  compile_roles o seen [] = ([], seen, [])
  compile_roles o seen (r ∷ rs) =
      let again = contains r.name seen in
      let (roles, later, errors) = compile_roles o (if again then seen else r.name ∷ seen) rs in
      let role : RoleDef x = record {
        name = r.name;
        kind = r.kind;
        system_prompt = r.system_prompt;
        inputs = r.inputs;
        output_schema = r.output_schema;
        budget = r.budget;
      } in
      if again
      then (roles, later, concat ("Role \"" ∷ r.name ∷ already o ∷ []) ∷ errors)
      else (role ∷ roles, later, budget_error o r ++ errors)

-- The loop over handlers. `seen` has, for each event that has a handler, the handler's name.
abbrev pub next_seen : Bool → Option String → Ast.EventHandler → Dict String → Dict String
next_seen true none h seen = insert h.event h.name seen
next_seen _ _ h seen = seen

-- One round, on whether the event is known and the handler that it has already.
abbrev pub add_handler :
    Bool
    → Option String
    → Ast.EventHandler
    → List Rule × Errors
    → List EventHandler × Errors
    → List EventHandler × Errors
add_handler false previous h compiled (handlers, errors) =
    (handlers, concat ("Unknown event \"" ∷ h.event ∷ "\"" ∷ suggestion h.event ∷ []) ∷ errors)
add_handler true (some other) h compiled (handlers, errors) = (
  handlers,
  concat
        ("Duplicate handler for event '" ∷ h.event ∷ "': '" ∷ other ∷ "' and '" ∷ h.name ∷ "'" ∷ [])
      ∷ errors,
)
add_handler true none h (rules, bad) (handlers, errors) =
    ((record { event = h.event; name = h.name; rules = rules }) ∷ handlers, bad ++ errors)

unfoldable pub compile_handlers :
    Dict LetConstructor → Dict String → List Ast.EventHandler → List EventHandler × Errors
compile_handlers lets seen [] = ([], [])
compile_handlers lets seen (h ∷ hs) =
    let known = is_known_event h.event in
    let previous = lookup h.event seen in
    add_handler known previous h (compile_block lets h.body)
      (compile_handlers lets (next_seen known previous h seen) hs)

module _ (x : External) where
  -- what `resolve_imports` returns, and the errors that it pushes
  pub record Imports : Type 0 where
    pub groups : List Ast.PathGroup
    pub roles : List (Ast.RoleDef x)
    pub errors : Errors

  abbrev pub no_imports : Imports
  no_imports = record { groups = []; roles = []; errors = [] }

  -- Everything that is compiled, with all errors in the order of the pushes.
  unfoldable pub compile_all : Ast.Module x → Imports → CompiledHookModule x × Errors
  compile_all m i =
      let (groups₁, seen_groups, e₁) = compile_groups x imported [] i.groups in
      let (groups₂, _, e₂) = compile_groups x local seen_groups m.groups in
      let (roles₁, seen_roles, e₃) = compile_roles x imported [] i.roles in
      let (roles₂, _, e₄) = compile_roles x local seen_roles m.roles in
      let (handlers, e₅) = compile_handlers (let_map [] m.let_bindings) [] m.handlers in
      (
        record {
          id = "repo";
          source_hash = "";
          groups = groups₁ ++ groups₂;
          roles = roles₁ ++ roles₂;
          handlers = handlers;
        },
        i.errors ++ (e₁ ++ (e₂ ++ (e₃ ++ (e₄ ++ e₅)))),
      )

  unfoldable pub compile_with_base : Ast.Module x → Imports → CompiledHookModule x ⊎ Errors
  compile_with_base m i =
      let (compiled, errors) = compile_all m i in
      if is_empty errors then inl compiled else inr errors

-- ===== src/Hooks/Compile/Action.antt =====
-- `compile_action` of di-core/src/hooks/compiler.rs.
use di_rac.Prelude.{
  String, Bool, true, false, ◌||◌, List, [], ◌∷◌, Option, none, some, str_eq, concat, join, find,
  first, unwrap_or, or_else, Dict, lookup, ◌>>=◌, if◌then◌else◌,
}
use di_rac.Hooks.Ast.{
  ActionArg, Expr, string, ident, method_call, Exprs, cons, LetConstructor, evidence, validation,
  final_note, require,
}
use di_rac.Hooks.Directive.{
  Severity, low, medium, high, critical, evidence_present, final_note_present,
}
use di_rac.Hooks.Ir.{ActionIr}

abbrev pub Errors : Type 0
Errors = List String

abbrev pub known_actions : List String
known_actions =
    "hint" ∷ "criterion" ∷ "warn" ∷ "approval_note" ∷ "require" ∷ "trigger_observer"
    ∷ "trigger_planner_review" ∷ "remember" ∷ "audit" ∷ "block_finish_until" ∷ []

abbrev pub valid_severities : List String
valid_severities = "low" ∷ "medium" ∷ "high" ∷ "critical" ∷ "info" ∷ []

abbrev text_of : Expr → Option String
text_of (string s _) = some s
text_of _ = none

abbrev has_key : String → ActionArg → Bool
has_key key a = elim a.key [ none ↦ false | some k ↦ str_eq k key ]

-- the closure `get_str`
unfoldable pub get_str : List ActionArg → String → Option String
get_str args key = find (has_key key) args >>= λ a. text_of a.value

-- `args.first()`, where it is a text
unfoldable pub first_text : List ActionArg → Option String
first_text args = first args >>= λ a. text_of a.value

unfoldable pub parse_severity : String → Option Severity × Errors
parse_severity s =
    if str_eq s "info" || str_eq s "low"
    then (some low, [])
    else if str_eq s "medium"
    then (some medium, [])
    else if str_eq s "high"
    then (some high, [])
    else if str_eq s "critical"
    then (some critical, [])
    else (
      none,
      concat
            ("Invalid severity \"" ∷ s ∷ "\". Valid severities: " ∷ join ", " valid_severities ∷ [])
          ∷ [],
    )

-- the closure `get_severity`, followed by `unwrap_or`
unfoldable pub get_severity : List ActionArg → Severity → Severity × Errors
unfolding get_str parse_severity
get_severity args default = elim (get_str args "severity") [
  | none ↦ (default, [])
  | some s ↦ let (v, errors) = parse_severity s in (unwrap_or v default, errors)
]

-- the name that `require(…)` gets, and what a fact of that name stands for
abbrev fact_name : List ActionArg → Option String
fact_name args = first args >>= λ a. elim a.value [ ident n _ ↦ some n | _ ↦ none ]

abbrev require_error : String
require_error = "require() expects a fact name (evidence, validation, or final_note binding)"

abbrev require_fact : String → LetConstructor → Option ActionIr × Errors
require_fact name (evidence text) = (some (ActionIr.require_evidence text), [])
require_fact name (final_note text) = (some (ActionIr.require_final_note text), [])
require_fact name (validation argv) =
    (some (ActionIr.require_validation argv (concat ("required: " ∷ name ∷ []))), [])
require_fact name (require _) = (
  none,
  concat ("require() cannot wrap another require(). Use require(" ∷ name ∷ ") directly." ∷ []) ∷ [],
)

-- what a `block_finish_until` waits for
pub data Fact : Type 0 where
  evidence_fact final_note_fact : String → Fact

abbrev fact_of : LetConstructor → Option Fact
fact_of (evidence t) = some (evidence_fact t)
fact_of (final_note t) = some (final_note_fact t)
fact_of _ = none

abbrev required_name : LetConstructor → Option String
required_name (require name) = some name
required_name _ = none

abbrev first_ident : Exprs → Option String
first_ident (cons (ident n _) _) = some n
first_ident _ = none

module _ (lets : Dict LetConstructor) where
  unfoldable pub compile_require : List ActionArg → Option ActionIr × Errors
  compile_require args = elim (fact_name args) [
    | none ↦ (none, require_error ∷ [])
    | some name ↦ elim (lookup name lets) [
      | none ↦ (none, require_error ∷ [])
      | some fact ↦ require_fact name fact
    ]
  ]

  unfoldable pub resolve_require_expr : Expr → Option Fact
  resolve_require_expr (ident name _) =
      lookup name lets >>= λ c. required_name c >>= λ fact. lookup fact lets >>= fact_of
  resolve_require_expr (method_call (ident callee _) method args _) =
      if str_eq method "__call__"
      then (if str_eq callee "require"
          then (first_ident args >>= λ fact. lookup fact lets >>= fact_of)
          else none)
      else none
  resolve_require_expr _ = none

  abbrev block_on : Fact → ActionIr
  block_on (evidence_fact t) = ActionIr.block_finish_until (evidence_present t) true (some t) none
  block_on (final_note_fact t) = ActionIr.block_finish_until final_note_present true none (some t)

  unfoldable pub compile_block_finish : List ActionArg → ActionIr
  unfolding resolve_require_expr get_str
  compile_block_finish args = elim (first args >>= λ a. resolve_require_expr a.value) [
    | some fact ↦ block_on fact
    | none ↦
        let condition = unwrap_or (or_else (get_str args "condition") (get_str args "text")) "" in
        ActionIr.block_finish_until (evidence_present condition) true none none
  ]

-- the names that are refused with a message of their own
unfoldable pub refusal : String → String
refusal name =
    if str_eq name "print" || str_eq name "println"
    then concat (
        "\"" ∷ name
        ∷ "\" is not available in .dhook. Use hint(), warn(), or audit() to provide feedback to the user or log information."
        ∷ [])
    else if str_eq name "import" || str_eq name "from" || str_eq name "as"
    then concat (
        "\"" ∷ name
        ∷ "\" is not supported in .dhook files. The DSL is self-contained and does not support imports."
        ∷ [])
    else if str_eq name "class" || str_eq name "def"
    then concat (
        "Unexpected \"" ∷ name
        ∷ "\". Function definitions are only allowed after @on(\"...\") or @role(\"...\") decorators."
        ∷ [])
    else if str_eq name "while" || str_eq name "for"
    then concat (
        "\"" ∷ name
        ∷ "\" loops are not supported in .dhook v0.1. Only if/elif/else conditional statements are available."
        ∷ [])
    else if str_eq name "try"
        || str_eq name "except"
        || str_eq name "finally"
        || str_eq name "raise"
    then concat (
        "\"" ∷ name
        ∷ "\" is not supported in .dhook. The DSL does not use exceptions for control flow." ∷ [])
    else concat
        ("Unknown action \"" ∷ name ∷ "\". Supported actions: " ∷ join ", " known_actions ∷ [])

abbrev or_first : List ActionArg → String → Option String
or_first args key = or_else (get_str args key) (first_text args)

abbrev no_errors : Option ActionIr → Option ActionIr × Errors
no_errors a = (a, [])

-- an action with a severity
abbrev with_severity : Severity × Errors → (Severity → ActionIr) → Option ActionIr × Errors
with_severity (s, errors) make = (some (make s), errors)

unfoldable pub compile_action :
    Dict LetConstructor → String → List ActionArg → Option ActionIr × Errors
unfolding get_str first_text get_severity compile_require compile_block_finish refusal
compile_action lets name args =
    if str_eq name "hint"
    then no_errors (or_first args "text" >>= λ t. some (ActionIr.hint t))
    else if str_eq name "criterion"
    then no_errors (or_first args "text" >>= λ t. some (ActionIr.criterion t))
    else if str_eq name "warn"
    then with_severity (get_severity args medium)
        (λ s. ActionIr.warn s (unwrap_or (or_first args "message") ""))
    else if str_eq name "trigger_observer"
    then with_severity (get_severity args medium) (λ s.
      ActionIr.trigger_observer
        (unwrap_or (or_else (get_str args "observer_id") (get_str args "name")) "")
        (unwrap_or (get_str args "reason") "") s)
    else if str_eq name "trigger_planner_review"
    then no_errors (some (ActionIr.trigger_planner_review (unwrap_or (get_str args "reason") "")))
    else if str_eq name "approval_note"
    then with_severity (get_severity args medium)
        (λ s. ActionIr.approval_note s (unwrap_or (get_str args "message") ""))
    else if str_eq name "remember"
    then no_errors (some (ActionIr.remember (unwrap_or (or_first args "fact") "")))
    else if str_eq name "audit"
    then with_severity (get_severity args low)
        (λ s. ActionIr.audit (unwrap_or (get_str args "kind") "") s)
    else if str_eq name "require"
    then compile_require lets args
    else if str_eq name "block_finish_until"
    then no_errors (some (compile_block_finish lets args))
    else (none, refusal name ∷ [])

-- ===== src/Hooks/Eval/Print.antt =====
-- The texts that di-core/src/hooks/evaluator.rs makes of actions and conditions.
use di_rac.Prelude.{
  String, Bool, true, false, List, [], ◌∷◌, map, Option, none, some, concat, join, slice_to,
  decimal_int, ◌>>=◌,
}
use di_rac.Hooks.Ast.{BinOp}
use di_rac.Hooks.Directive.{
  Severity, low, medium, high, critical, FinishCondition, evidence_present, final_note_present,
  observer_cleared,
}
use di_rac.Hooks.External.{External}
use di_rac.Hooks.Ir.{
  Expr, bool, string, int, string_list, ident, changed_files, files_match, observer, binary_op,
  negation, any_match, all_match, name, output, ActionIr, hint, criterion, warn, approval_note,
  require_validation, trigger_observer, trigger_planner_review, require_evidence,
  require_final_note, remember, audit, block_finish_until,
}

unfoldable pub action_kind : ActionIr → String
action_kind (hint t) = "hint"
action_kind (criterion t) = "criterion"
action_kind (warn s t) = "warn"
action_kind (approval_note s t) = "approval_note"
action_kind (require_validation argv reason) = "require_validation"
action_kind (trigger_observer id reason s) = "trigger_observer"
action_kind (trigger_planner_review reason) = "trigger_planner_review"
action_kind (require_evidence n) = "require_evidence"
action_kind (require_final_note t) = "require_final_note"
action_kind (remember f) = "remember"
action_kind (audit kind s) = "audit"
action_kind (block_finish_until _ _ _ _) = "block_finish"

-- `{:?}` of a `Severity`, a `bool` and a `BinOp`
abbrev debug_severity : Severity → String
debug_severity low = "Low"
debug_severity medium = "Medium"
debug_severity high = "High"
debug_severity critical = "Critical"

abbrev debug_bool : Bool → String
debug_bool true = "true"
debug_bool false = "false"

abbrev debug_op : BinOp → String
debug_op BinOp.and = "And"
debug_op BinOp.or = "Or"
debug_op BinOp.eq = "Eq"
debug_op BinOp.neq = "Neq"
debug_op BinOp.is_in = "In"

abbrev suffix : String → Option String → String
suffix label none = ""
suffix label (some s) = concat (label ∷ s ∷ [])

unfoldable pub expr_to_string : Expr → String
unfolding decimal_int
expr_to_string (bool b) = debug_bool b
expr_to_string (string s) = concat ("\"" ∷ s ∷ "\"" ∷ [])
expr_to_string (int n) = decimal_int n
expr_to_string (string_list items) = concat ("[" ∷ join ", " items ∷ "]" ∷ [])
expr_to_string (ident n) = n
expr_to_string changed_files = "changed_files"
expr_to_string (files_match (any_match p)) = concat ("changed_files.any_match(\"" ∷ p ∷ "\")" ∷ [])
expr_to_string (files_match (all_match p)) = concat ("changed_files.all_match(\"" ∷ p ∷ "\")" ∷ [])
expr_to_string (observer name) = "observer.name"
expr_to_string (observer (output path)) = concat ("observer.output." ∷ join "." path ∷ [])
expr_to_string (binary_op l op r) =
    concat (expr_to_string l ∷ " " ∷ debug_op op ∷ " " ∷ expr_to_string r ∷ [])
expr_to_string (negation e) = concat ("not(" ∷ expr_to_string e ∷ ")" ∷ [])

module _ (x : External) where
  open x use {debug_str}

  abbrev debug_strings : List String → String
  debug_strings items = concat ("[" ∷ join ", " (map debug_str items) ∷ "]" ∷ [])

  abbrev pub debug_condition : FinishCondition → String
  debug_condition (evidence_present s) = concat ("EvidencePresent(" ∷ debug_str s ∷ ")" ∷ [])
  debug_condition final_note_present = "FinalNotePresent"
  debug_condition (observer_cleared s) = concat ("ObserverCleared(" ∷ debug_str s ∷ ")" ∷ [])

  -- the text that is hashed for the dedupe key
  unfoldable pub action_name_full : ActionIr → String
  action_name_full (hint t) = concat ("hint(" ∷ t ∷ ")" ∷ [])
  action_name_full (criterion t) = concat ("criterion(" ∷ t ∷ ")" ∷ [])
  action_name_full (warn s t) = concat ("warn(" ∷ debug_severity s ∷ "," ∷ t ∷ ")" ∷ [])
  action_name_full (approval_note s t) =
      concat ("approval_note(" ∷ debug_severity s ∷ "," ∷ t ∷ ")" ∷ [])
  action_name_full (require_validation argv reason) =
      concat ("require_validation(" ∷ debug_strings argv ∷ "," ∷ reason ∷ ")" ∷ [])
  action_name_full (trigger_observer id reason s) =
      concat ("trigger_observer(" ∷ id ∷ "," ∷ reason ∷ "," ∷ debug_severity s ∷ ")" ∷ [])
  action_name_full (trigger_planner_review reason) =
      concat ("trigger_planner_review(" ∷ reason ∷ ")" ∷ [])
  action_name_full (require_evidence n) = concat ("require_evidence(" ∷ n ∷ ")" ∷ [])
  action_name_full (require_final_note t) = concat ("require_final_note(" ∷ t ∷ ")" ∷ [])
  action_name_full (remember f) = concat ("remember(" ∷ f ∷ ")" ∷ [])
  action_name_full (audit kind s) = concat ("audit(" ∷ kind ∷ "," ∷ debug_severity s ∷ ")" ∷ [])
  action_name_full (block_finish_until c w ev text) = concat (
      "block_finish("
      ∷ debug_condition c
      ∷ ","
      ∷ debug_bool w
      ∷ ")"
      ∷ suffix ",ev=" ev
      ∷ suffix ",fn=" text
      ∷ [])

  -- The name for display; `none` where the slice `&t[..t.len().min(40)]` panics.
  abbrev clipped : String → String → Option String
  clipped label t = slice_to t 40 >>= λ s. some (concat (label ∷ "(\"" ∷ s ∷ "\")" ∷ []))

  unfoldable pub action_name : ActionIr → Option String
  action_name (hint t) = clipped "hint" t
  action_name (criterion t) = clipped "criterion" t
  action_name (warn s t) = clipped "warn" t
  action_name (approval_note s t) = clipped "approval_note" t
  action_name (require_validation argv reason) =
      some (concat ("require_validation(" ∷ debug_strings argv ∷ ")" ∷ []))
  action_name (trigger_observer id reason s) =
      some (concat ("trigger_observer(\"" ∷ id ∷ "\")" ∷ []))
  action_name (trigger_planner_review reason) = some "trigger_planner_review"
  action_name (require_evidence n) = some (concat ("require_evidence(\"" ∷ n ∷ "\")" ∷ []))
  action_name (require_final_note t) = clipped "require_final_note" t
  action_name (remember f) = clipped "remember" f
  action_name (audit kind s) = some (concat ("audit(\"" ∷ kind ∷ "\")" ∷ []))
  action_name (block_finish_until c _ _ _) =
      some (concat ("block_finish_until(" ∷ debug_condition c ∷ ")" ∷ []))

-- ===== src/Hooks/Ir.antt =====
-- di-core/src/hooks/ir.rs: the compiled form of a hook file.
use di_rac.Prelude.{ℤ, String, Bool, List, Option}
use di_rac.Hooks.Ast.{BinOp, RoleBudget}
use di_rac.Hooks.Directive.{Severity, FinishCondition}
use di_rac.Hooks.External.{External}

abbrev pub observer_base : String
observer_base = "observer"

pub data FileMatch : Type 0 where
  any_match all_match : String → FileMatch

pub data ObserverField : Type 0 where
  name : ObserverField
  output : List String → ObserverField

-- The operators are those of the syntax tree, constructor by constructor.
pub data Expr : Type 0 where
  bool : Bool → Expr
  string : String → Expr
  int : ℤ → Expr
  string_list : List String → Expr
  ident : String → Expr
  changed_files : Expr
  files_match : FileMatch → Expr
  observer : ObserverField → Expr
  binary_op : Expr → BinOp → Expr → Expr
  negation : Expr → Expr

pub data ActionIr : Type 0 where
  hint criterion : String → ActionIr
  warn approval_note : Severity → String → ActionIr
  require_validation : List String → String → ActionIr
  trigger_observer : String → String → Severity → ActionIr
  trigger_planner_review : String → ActionIr
  require_evidence require_final_note remember : String → ActionIr
  audit : String → Severity → ActionIr
  -- the condition, whether it may be waived, and the evidence and note that come with it
  block_finish_until : FinishCondition → Bool → Option String → Option String → ActionIr

pub record Rule : Type 0 where
  pub condition : Option Expr
  pub actions : List ActionIr

pub record EventHandler : Type 0 where
  pub event : String
  pub name : String
  pub rules : List Rule

pub record PathGroup (x : External) : Type 0 where
  pub name : String
  pub patterns : List x.Pattern

pub record RoleDef (x : External) : Type 0 where
  pub name : String
  pub kind : String
  pub system_prompt : Option String
  pub inputs : List String
  pub output_schema : Option x.Json
  pub budget : Option RoleBudget

pub record CompiledHookModule (x : External) : Type 0 where
  pub id : String
  pub source_hash : String
  pub groups : List (PathGroup x)
  pub roles : List (RoleDef x)
  pub handlers : List EventHandler

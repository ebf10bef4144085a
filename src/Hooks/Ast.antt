-- ===== src/Hooks/Ast.antt =====
-- di-core/src/hooks/parser/ast.rs: the syntax tree of a hook file.
use di_rac.Prelude.{ℕ, ℤ, String, Bool, List, Option}
use di_rac.Hooks.External.{External}

pub record Span : Type 0 where
  pub start : ℕ
  pub end : ℕ
  pub line : ℕ
  pub column : ℕ

pub data BinOp : Type 0 where
  and or eq neq is_in : BinOp

-- `Vec<Expr>` and the entries of a dict are lists of the block.
mutual
  pub data Expr : Type 0 where
    bool : Bool → Span → Expr
    string : String → Span → Expr
    int : ℤ → Span → Expr
    ident : String → Span → Expr
    method_call : Expr → String → Exprs → Span → Expr
    binary_op : Expr → BinOp → Expr → Span → Expr
    list : Exprs → Span → Expr
    dict : Entries → Span → Expr
    member_access : Expr → String → Span → Expr

  pub data Exprs : Type 0 where
    nil : Exprs
    cons : Expr → Exprs → Exprs

  pub data Entries : Type 0 where
    end : Entries
    entry : String → Expr → Entries → Entries

pub record ActionArg : Type 0 where
  pub key : Option String
  pub value : Expr
  pub span : Span

-- `if_stmt` has an `else` branch, `if_only` has none.
mutual
  pub data Stmt : Type 0 where
    if_stmt : Expr → Stmts → Stmts → Span → Stmt
    if_only : Expr → Stmts → Span → Stmt
    action_call : String → List ActionArg → Span → Stmt

  pub data Stmts : Type 0 where
    done : Stmts
    stmt : Stmt → Stmts → Stmts

pub data LetConstructor : Type 0 where
  evidence : String → LetConstructor
  validation : List String → LetConstructor
  final_note : String → LetConstructor
  require : String → LetConstructor

pub record LetBinding : Type 0 where
  pub name : String
  pub constructor : LetConstructor
  pub span : Span

pub data ImportSymbol : Type 0 where
  group role : String → ImportSymbol

pub record ImportStmt : Type 0 where
  pub path : String
  pub symbols : List ImportSymbol
  pub span : Span

pub record PathGroup : Type 0 where
  pub name : String
  pub patterns : List String
  pub span : Span

pub record RoleBudget : Type 0 where
  pub max_tokens : ℕ
  pub max_runs : ℕ

pub record RoleDef (x : External) : Type 0 where
  pub name : String
  pub kind : String
  pub system_prompt : Option String
  pub inputs : List String
  pub output_schema : Option x.Json
  pub budget : Option RoleBudget
  pub span : Span

pub record EventHandler : Type 0 where
  pub event : String
  pub name : String
  pub body : Stmts
  pub span : Span

pub record Module (x : External) : Type 0 where
  pub groups : List PathGroup
  pub roles : List (RoleDef x)
  pub handlers : List EventHandler
  pub imports : List ImportStmt
  pub let_bindings : List LetBinding

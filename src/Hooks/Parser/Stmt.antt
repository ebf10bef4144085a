-- ===== src/Hooks/Parser/Stmt.antt =====
-- Statements and event handlers (di-core/src/hooks/parser/parser.rs). Each function takes the
-- rounds `n` that the loops of what it calls may take.
use di_rac.Prelude.{
  ℕ, zero, suc, Bool, true, false, ◌||◌, List, [], ◌∷◌, Option, none, some, String, concat, text_of,
  if◌then◌else◌,
}
use di_rac.Hooks.Ast.{
  Span, Expr, ActionArg, Stmt, Stmts, if_stmt, if_only, action_call, done, stmt, EventHandler,
}
use di_rac.Hooks.External.{External}
use di_rac.Hooks.Lexer.Next.{CharClasses}
use di_rac.Hooks.Lexer.Token.{
  def_, if_, elif_, else_, l_paren, r_paren, comma, colon, eq, newline, indent, dedent, eof,
}
use di_rac.Hooks.Parser.State.{
  parsed, out_of_fuel, M, ◌>>=◌, ◌>>◌, ret, same_kind, debug_kind, advance, expect, take_ident,
  take_string, peek_next_is_eq, skip_newlines,
}
use di_rac.Hooks.Parser.Expr.{parse_expr}

abbrev make_if : Expr → Stmts → Option Stmts → Span → Stmt
make_if cond yes_branch none at = if_only cond yes_branch at
make_if cond yes_branch (some no_branch) at = if_stmt cond yes_branch no_branch at

module _ (u : CharClasses) (x : External) (n : ℕ) where
  -- after the key, if there is one
  abbrev pub arg_from : Span → Option String → M ActionArg
  arg_from at key = do
    value ← parse_expr u x n
    ret (record { key = key; value = value; span = at })

  abbrev pub keyed_arg : Span → Bool → M ActionArg
  keyed_arg at true = do
    key ← take_ident u "unreachable"
    expect u x eq
    arg_from at (some (text_of key))
  keyed_arg at false = arg_from at none

  unfoldable pub parse_action_arg : M ActionArg
  unfolding peek_next_is_eq advance expect parse_expr
  parse_action_arg p = (do has_key ← peek_next_is_eq u; keyed_arg p.current.span has_key) p

  -- the loop of `parse_action_call`
  unfoldable pub parse_action_args : ℕ → M (List ActionArg)
  unfolding advance parse_action_arg
  parse_action_args zero p = out_of_fuel
  parse_action_args (suc rounds) p =
      let over = (advance u >> ret []) p in
      let next = (advance u >> parse_action_args rounds) p in
      let one = (do arg ← parse_action_arg; more ← parse_action_args rounds; ret (arg ∷ more)) p in
      if same_kind p.current.kind r_paren
      then over
      else if same_kind p.current.kind comma
      then next
      else one

  unfoldable pub parse_action_call : M Stmt
  unfolding advance expect debug_kind skip_newlines parse_action_args
  parse_action_call p =
      (do
        name ←
            take_ident u (concat ("Expected action name, got " ∷ debug_kind x p.current.kind ∷ []))
        expect u x l_paren
        args ← parse_action_args n
        skip_newlines u n
        ret (action_call (text_of name) args p.current.span))
        p

  -- `: NEWLINE INDENT block DEDENT`
  abbrev pub indented_block : M Stmts → M Stmts
  indented_block block = do
    expect u x colon
    skip_newlines u n
    expect u x indent
    body ← block
    expect u x dedent
    ret body

  -- Statements nest to the depth that the fuel allows; a block has at most that many tokens that
  -- start a statement.
  unfoldable mutual
    unfolding advance expect parse_expr skip_newlines parse_action_call

    pub parse_block : ℕ → M Stmts
    parse_block zero p = out_of_fuel
    parse_block (suc fuel) p =
        let blank = (advance u >> parse_block fuel) p in
        let branch = (do s ← parse_if_stmt fuel; more ← parse_block fuel; ret (stmt s more)) p in
        let action = (do s ← parse_action_call; more ← parse_block fuel; ret (stmt s more)) p in
        if same_kind p.current.kind dedent || same_kind p.current.kind eof
        then parsed done p
        else if same_kind p.current.kind newline
        then blank
        else if same_kind p.current.kind if_
        then branch
        else action

    pub parse_if_stmt : ℕ → M Stmt
    parse_if_stmt zero p = out_of_fuel
    parse_if_stmt (suc fuel) p =
        (do
          advance u
          cond ← parse_expr u x n
          then_branch ← indented_block (parse_block fuel)
          else_branch ← parse_else fuel
          ret (make_if cond then_branch else_branch p.current.span))
          p

    pub parse_else : ℕ → M (Option Stmts)
    parse_else zero p = out_of_fuel
    parse_else (suc fuel) p =
        let branch =
          (do
            advance u
            λ q.
                (let again = (do s ← parse_if_stmt fuel; ret (some (stmt s done))) q in
                  let block = (do body ← indented_block (parse_block fuel); ret (some body)) q in
                  if same_kind q.current.kind if_ then again else block))
            p in
        if same_kind p.current.kind elif_ || same_kind p.current.kind else_
        then branch
        else parsed none p

  unfoldable pub parse_event_handler : M EventHandler
  unfolding advance expect skip_newlines
  parse_event_handler p =
      (do
        advance u
        expect u x l_paren
        event ← take_string u "Expected event name string"
        expect u x r_paren
        skip_newlines u n
        expect u x def_
        name ← take_ident u "Expected handler name"
        expect u x l_paren
        expect u x r_paren
        expect u x colon
        skip_newlines u n
        expect u x indent
        body ← parse_block n
        expect u x dedent
        ret (record {
          event = text_of event;
          name = text_of name;
          body = body;
          span = p.current.span;
        }))
        p

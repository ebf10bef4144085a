-- ===== src/Hooks/Parser/Expr.antt =====
-- Expressions: `parse_expr` of di-core/src/hooks/parser/parser.rs and what it calls. Each function
-- takes `pe`, the call of `parse_expr` one level down, and the rounds `n` that its loops may take.
use di_rac.Prelude.{
  ℕ, zero, suc, true, false, [], ◌∷◌, String, concat, text_of, str_eq, Option, none, some,
  if◌then◌else◌,
}
use di_rac.Hooks.Ast.{
  Span, BinOp, Expr, Exprs, Entries, nil, cons, end, entry, bool, method_call, binary_op, list,
  dict, member_access,
}
use di_rac.Hooks.Ast
use di_rac.Hooks.External.{External}
use di_rac.Hooks.Lexer.Next.{CharClasses}
use di_rac.Hooks.Lexer.Token
use di_rac.Hooks.Lexer.Token.{
  Chars, TokenKind, or_, and_, not_, in_, true_, false_, l_paren, r_paren, l_bracket, r_bracket,
  l_brace, r_brace, comma, colon, dot, eq_eq, neq,
}
use di_rac.Hooks.Parser.State.{
  parsed, out_of_fuel, M, ◌>>=◌, ◌>>◌, ret, same_kind, debug_kind, fail, advance, expect,
  take_ident,
}

-- `HashMap::insert`
unfoldable pub insert_entry : String → Expr → Entries → Entries
insert_entry k v end = entry k v end
insert_entry k v (entry j w es) =
    if str_eq j k then entry k v es else entry j w (insert_entry k v es)

abbrev pub comparison_op : TokenKind → Option BinOp
comparison_op eq_eq = some BinOp.eq
comparison_op neq = some BinOp.neq
comparison_op in_ = some BinOp.is_in
comparison_op _ = none

module _ (u : CharClasses) (x : External) (pe : M Expr) where
  -- The arguments of a call or the items of a list, up to the closing token.
  unfoldable pub parse_args : TokenKind → ℕ → M Exprs
  unfolding advance
  parse_args close zero p = out_of_fuel
  parse_args close (suc n) p =
      let over = (advance u >> ret nil) p in
      let next = (advance u >> parse_args close n) p in
      let arg = (do e ← pe; es ← parse_args close n; ret (cons e es)) p in
      if same_kind p.current.kind close
      then over
      else if same_kind p.current.kind comma
      then next
      else arg

  abbrev pub link : Expr → Chars → Option Exprs → M Expr
  link object name none p = parsed (member_access object (text_of name) p.current.span) p
  link object name (some args) p = parsed (method_call object (text_of name) args p.current.span) p

  -- the arguments, where a parenthesis follows
  abbrev pub optional_args : ℕ → M (Option Exprs)
  optional_args n p =
      if same_kind p.current.kind l_paren
      then (do advance u; args ← parse_args r_paren n; ret (some args)) p
      else parsed none p

  unfoldable pub parse_method_chain : ℕ → ℕ → Expr → M Expr
  unfolding advance parse_args
  parse_method_chain n zero object p = out_of_fuel
  parse_method_chain n (suc rounds) object p =
      (do
        advance u
        name ← take_ident u "Expected method name after dot"
        args ← optional_args n
        result ← link object name args
        λ q.
            (let more = parse_method_chain n rounds result q in
              if same_kind q.current.kind dot then more else parsed result q))
        p

  -- one round of the loop over the entries of a dict, by the token that it stands at; `go` is the
  -- loop from there on
  abbrev pub entries_at : (Entries → M Entries) → Entries → TokenKind → M Entries
  unfolding advance expect insert_entry
  entries_at go found r_brace = advance u >> ret found
  entries_at go found comma = advance u >> go found
  entries_at go found (Token.string k) = do
    advance u
    expect u x colon
    value ← pe
    go (insert_entry (text_of k) value found)
  entries_at go found _ = ret found

  unfoldable pub parse_entries : ℕ → Entries → M Entries
  unfolding advance expect insert_entry
  parse_entries zero found p = out_of_fuel
  parse_entries (suc n) found p = entries_at (λ more. parse_entries n more) found p.current.kind p

  -- after an identifier
  abbrev pub parse_named : ℕ → Chars → Span → M Expr
  parse_named n name at p =
      let object = Ast.ident (text_of name) at in
      if same_kind p.current.kind l_paren
      then (do advance u; args ← parse_args r_paren n; ret (method_call object "__call__" args at))
          p
      else if same_kind p.current.kind dot
      then parse_method_chain n n object p
      else parsed object p

  unfoldable pub primary_at : ℕ → TokenKind → Span → M Expr
  unfolding advance parse_args parse_method_chain parse_entries expect debug_kind
  primary_at n true_ at = advance u >> ret (bool true at)
  primary_at n false_ at = advance u >> ret (bool false at)
  primary_at n (Token.int v) at = advance u >> ret (Ast.int v at)
  primary_at n (Token.string s) at = advance u >> ret (Ast.string (text_of s) at)
  primary_at n (Token.ident name) at = advance u >> parse_named n name at
  primary_at n l_bracket at = do advance u; items ← parse_args r_bracket n; ret (list items at)
  primary_at n l_brace at = do advance u; entries ← parse_entries n end; ret (dict entries at)
  primary_at n l_paren at = do advance u; e ← pe; expect u x r_paren; ret e
  primary_at n k at = fail (concat ("Unexpected token in expression: " ∷ debug_kind x k ∷ []))

  abbrev pub parse_primary : ℕ → M Expr
  parse_primary n p = primary_at n p.current.kind p.current.span p

  unfoldable pub parse_not_expr : ℕ → ℕ → M Expr
  unfolding advance primary_at
  parse_not_expr n zero p = out_of_fuel
  parse_not_expr n (suc rounds) p =
      let at = p.current.span in
      let negated =
        (do
          advance u
          inner ← parse_not_expr n rounds
          ret (binary_op (bool false at) BinOp.eq inner at))
          p in
      if same_kind p.current.kind not_ then negated else parse_primary n p

  abbrev pub compare_with : ℕ → Expr → Span → Option BinOp → M Expr
  compare_with n left at none = ret left
  compare_with n left at (some op) = do
    advance u
    right ← parse_not_expr n n
    ret (binary_op left op right at)

  unfoldable pub parse_comparison : ℕ → M Expr
  unfolding advance parse_not_expr
  parse_comparison n = do
    left ← parse_not_expr n n
    λ p. compare_with n left p.current.span (comparison_op p.current.kind) p

  -- the loop of `parse_and_expr`
  unfoldable pub and_rest : ℕ → ℕ → Expr → M Expr
  unfolding advance parse_comparison
  and_rest n zero left p = out_of_fuel
  and_rest n (suc rounds) left p =
      let at = p.current.span in
      let more =
        (do
          advance u
          right ← parse_comparison n
          and_rest n rounds (binary_op left BinOp.and right at))
          p in
      if same_kind p.current.kind and_ then more else parsed left p

  unfoldable pub parse_and_expr : ℕ → M Expr
  unfolding parse_comparison and_rest
  parse_and_expr n = do left ← parse_comparison n; and_rest n n left

  -- the loop of `parse_or_expr`
  unfoldable pub or_rest : ℕ → ℕ → Expr → M Expr
  unfolding advance parse_and_expr
  or_rest n zero left p = out_of_fuel
  or_rest n (suc rounds) left p =
      let at = p.current.span in
      let more =
        (do
          advance u
          right ← parse_and_expr n
          or_rest n rounds (binary_op left BinOp.or right at))
          p in
      if same_kind p.current.kind or_ then more else parsed left p

  unfoldable pub parse_or_expr : ℕ → M Expr
  unfolding parse_and_expr or_rest
  parse_or_expr n = do left ← parse_and_expr n; or_rest n n left

module _ (u : CharClasses) (x : External) where
  unfoldable pub parse_expr : ℕ → M Expr
  unfolding parse_or_expr
  parse_expr zero p = out_of_fuel
  parse_expr (suc n) p = parse_or_expr u x (parse_expr n) n p

-- ===== src/Hooks/Lexer/Indent.antt =====
-- `handle_indent` of di-core/src/hooks/parser/lexer.rs.
use di_rac.Prelude.{
  ℕ, ◌*◌, ◌/◌, ◌%◌, Bool, not, ◌&&◌, List, [], ◌∷◌, Option, none, some, ◌==◌, ltb, if◌then◌else◌,
}
use di_rac.Hooks.Ast.{Span}
use di_rac.Hooks.Lexer.Cursor.{Cursor}
use di_rac.Hooks.Lexer.Token.{Token, TokenKind, indent, dedent}

-- The stacks have their top first.
pub record Lexer : Type 0 where
  pub at : Cursor
  pub indent_stack : List ℕ
  pub pending : List Token
  pub bol : Bool
  pub unterminated_string : Bool
  pub indent_width : ℕ

-- `span`
abbrev pub span_from : ℕ → ℕ → ℕ → Cursor → Span
span_from start line col at = record { start = start; end = at.offset; line = line; column = col }

-- `emit`, of a token that is empty
abbrev pub here : TokenKind → Lexer → Token
here kind lx = record { kind = kind; span = span_from lx.at.offset lx.at.line lx.at.col lx.at }

-- `while let Some(&top) = stack.last() { if top == effective { break; } pop; emit(Dedent) }`
unfoldable pub pop_to : ℕ → Lexer → List ℕ → List Token → List ℕ × List Token
pop_to effective lx [] out = ([], out)
pop_to effective lx (top ∷ below) out =
    let rest = pop_to effective lx below (here dedent lx ∷ out) in
    if top == effective then (top ∷ below, out) else rest

-- the width that counts, of an indentation and the current level
unfoldable pub effective_indent : ℕ → ℕ → ℕ → ℕ
effective_indent base width current =
    let rounded = (width / base) * base in
    if ltb 0 base && (ltb 0 width && not (width % base == 0))
    then (if ltb current rounded then rounded else width)
    else width

abbrev pub widened : ℕ → Lexer → Lexer
widened width lx = record lx {
  indent_width = if lx.indent_width == 0 && ltb 0 width then width else lx.indent_width;
}

-- to the effective level, from the current one at the top of the stack
unfoldable pub change_level : ℕ → ℕ → Lexer → Lexer
unfolding pop_to
change_level effective current lx =
    if ltb current effective
    then record lx {
      indent_stack = effective ∷ lx.indent_stack;
      pending = here indent lx ∷ lx.pending;
    }
    else if ltb effective current
    then (let (stack, out) = pop_to effective lx lx.indent_stack lx.pending in
        record lx { indent_stack = stack; pending = out })
    else lx

-- `none` is the panic of `indent_stack.last().unwrap()`.
unfoldable pub handle_indent : ℕ → Lexer → Option Lexer
unfolding effective_indent change_level
handle_indent width lx =
    let w = widened width lx in
    elim lx.indent_stack [
      | [] ↦ none
      | current ∷ below ↦
          some (change_level (effective_indent w.indent_width width current) current w)
    ]

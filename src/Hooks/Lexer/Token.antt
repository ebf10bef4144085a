-- ===== src/Hooks/Lexer/Token.antt =====
-- The tokens of di-core/src/hooks/parser/lexer.rs.
use di_rac.Prelude.{ℤ, [], ◌∷◌, if◌then◌else◌}
use di_rac.Hooks.Ast.{Span}
unfoldable pub use di_rac.Prelude.{Chars, chars_eq}

pub data TokenKind : Type 0 where
  def_ if_ elif_ else_ in_ and_ or_ not_ true_ false_ for_ return_ : TokenKind
  at_on at_role : TokenKind
  ident string : Chars → TokenKind
  int : ℤ → TokenKind
  l_paren r_paren l_bracket r_bracket l_brace r_brace : TokenKind
  comma colon dot eq eq_eq neq newline indent dedent eof : TokenKind

pub record Token : Type 0 where
  pub kind : TokenKind
  pub span : Span

-- `ident_or_keyword`
unfoldable pub ident_or_keyword : Chars → TokenKind
unfolding chars_eq
ident_or_keyword word =
    if chars_eq word (b'd' ∷ b'e' ∷ b'f' ∷ [])
    then def_
    else if chars_eq word (b'i' ∷ b'f' ∷ [])
    then if_
    else if chars_eq word (b'e' ∷ b'l' ∷ b'i' ∷ b'f' ∷ [])
    then elif_
    else if chars_eq word (b'e' ∷ b'l' ∷ b's' ∷ b'e' ∷ [])
    then else_
    else if chars_eq word (b'i' ∷ b'n' ∷ [])
    then in_
    else if chars_eq word (b'a' ∷ b'n' ∷ b'd' ∷ [])
    then and_
    else if chars_eq word (b'o' ∷ b'r' ∷ [])
    then or_
    else if chars_eq word (b'n' ∷ b'o' ∷ b't' ∷ [])
    then not_
    else if chars_eq word (b'T' ∷ b'r' ∷ b'u' ∷ b'e' ∷ [])
    then true_
    else if chars_eq word (b'F' ∷ b'a' ∷ b'l' ∷ b's' ∷ b'e' ∷ [])
    then false_
    else if chars_eq word (b'f' ∷ b'o' ∷ b'r' ∷ [])
    then for_
    else if chars_eq word (b'r' ∷ b'e' ∷ b't' ∷ b'u' ∷ b'r' ∷ b'n' ∷ [])
    then return_
    else ident word

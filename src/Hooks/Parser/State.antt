-- ===== src/Hooks/Parser/State.antt =====
-- The state of the parser of hook files (di-core/src/hooks/parser/parser.rs), its errors, and the
-- steps on single tokens.
use di_rac.Prelude.{
  ℕ, zero, suc, Bool, true, false, [], ◌∷◌, Option, none, some, ◌==◌, String, concat, text_of,
  decimal_int, if◌then◌else◌,
}
use di_rac.Hooks.Ast.{Span}
use di_rac.Hooks.External.{External}
use di_rac.Hooks.Lexer.All.{is_eof}
use di_rac.Hooks.Lexer.Indent.{Lexer}
use di_rac.Hooks.Lexer.Next.{CharClasses, new_lexer, next_token}
use di_rac.Hooks.Lexer.Token.{
  Chars, Token, TokenKind, def_, if_, elif_, else_, in_, and_, or_, not_, true_, false_, for_,
  return_, at_on, at_role, ident, string, int, l_paren, r_paren, l_bracket, r_bracket, l_brace,
  r_brace, comma, colon, dot, eq, eq_eq, neq, newline, indent, dedent, eof,
}

pub record ParseError : Type 0 where
  pub message : String
  pub span : Span

pub record Parser : Type 0 where
  pub lexer : Lexer
  pub current : Token
  pub eof : Bool

-- An error leaves the parser where it is; the lexer may panic; fuel has no counterpart in the
-- source.
pub data Result {ℓ} (A : Type ℓ) : Type ℓ where
  parsed : A → Parser → Result A
  failed : ParseError → Parser → Result A
  panicked out_of_fuel : Result A

-- a method of the parser
abbrev pub M {ℓ} : Type ℓ → Type ℓ
M A = Parser → Result A

module _ {ℓ κ} {A : Type ℓ} {B : Type κ} where
  abbrev pub and_then : Result A → (A → M B) → Result B
  and_then (parsed a p) f = f a p
  and_then (failed e p) f = failed e p
  and_then panicked f = panicked
  and_then out_of_fuel f = out_of_fuel

  infixl 5 ◌>>=◌
  abbrev pub ◌>>=◌ : M A → (A → M B) → M B
  ◌>>=◌ m f p = and_then (m p) f

infixl 5 ◌>>◌
abbrev pub ◌>>◌ {ℓ} : {B : Type ℓ} → M (Unit {0}) → M B → M B
m >> k = m >>= λ _. k

abbrev pub ret {ℓ} : {A : Type ℓ} → A → M A
ret a p = parsed a p

-- the discriminant of a kind
abbrev pub discriminant : TokenKind → ℕ
discriminant def_ = 0
discriminant if_ = 1
discriminant elif_ = 2
discriminant else_ = 3
discriminant in_ = 4
discriminant and_ = 5
discriminant or_ = 6
discriminant not_ = 7
discriminant true_ = 8
discriminant false_ = 9
discriminant for_ = 10
discriminant return_ = 11
discriminant at_on = 12
discriminant at_role = 13
discriminant (ident s) = 14
discriminant (string s) = 15
discriminant (int n) = 16
discriminant l_paren = 17
discriminant r_paren = 18
discriminant l_bracket = 19
discriminant r_bracket = 20
discriminant l_brace = 21
discriminant r_brace = 22
discriminant comma = 23
discriminant colon = 24
discriminant dot = 25
discriminant eq = 26
discriminant eq_eq = 27
discriminant neq = 28
discriminant newline = 29
discriminant indent = 30
discriminant dedent = 31
discriminant eof = 32

abbrev pub same_kind : TokenKind → TokenKind → Bool
same_kind k l = discriminant k == discriminant l

-- `derive(Debug)`
unfoldable pub debug_kind : External → TokenKind → String
debug_kind x def_ = "Def"
debug_kind x if_ = "If"
debug_kind x elif_ = "Elif"
debug_kind x else_ = "Else"
debug_kind x in_ = "In"
debug_kind x and_ = "And"
debug_kind x or_ = "Or"
debug_kind x not_ = "Not"
debug_kind x true_ = "True"
debug_kind x false_ = "False"
debug_kind x for_ = "For"
debug_kind x return_ = "Return"
debug_kind x at_on = "AtOn"
debug_kind x at_role = "AtRole"
debug_kind x (ident s) = concat ("Ident(" ∷ x.debug_str (text_of s) ∷ ")" ∷ [])
debug_kind x (string s) = concat ("String(" ∷ x.debug_str (text_of s) ∷ ")" ∷ [])
debug_kind x (int n) = concat ("Int(" ∷ decimal_int n ∷ ")" ∷ [])
debug_kind x l_paren = "LParen"
debug_kind x r_paren = "RParen"
debug_kind x l_bracket = "LBracket"
debug_kind x r_bracket = "RBracket"
debug_kind x l_brace = "LBrace"
debug_kind x r_brace = "RBrace"
debug_kind x comma = "Comma"
debug_kind x colon = "Colon"
debug_kind x dot = "Dot"
debug_kind x eq = "Eq"
debug_kind x eq_eq = "EqEq"
debug_kind x neq = "Neq"
debug_kind x newline = "Newline"
debug_kind x indent = "Indent"
debug_kind x dedent = "Dedent"
debug_kind x eof = "Eof"

-- `Err(ParseError { message, span: self.current.span.clone() })`
abbrev pub fail {ℓ} : {A : Type ℓ} → String → M A
fail message p = failed (record { message = message; span = p.current.span }) p

-- `advance`, on what the lexer gives
abbrev pub shifted : Option (Token × Lexer) → Result (Unit {0})
shifted none = panicked
shifted (some (t, lx)) = parsed tt (record { lexer = lx; current = t; eof = is_eof t.kind })

-- where `next_token` stands in front of a token that `current` peeks past
abbrev pub peeked : Option (Token × Lexer) → Parser → Result Bool
peeked none p = panicked
peeked (some (t, lx)) p =
    parsed (same_kind t.kind eq) (record p { lexer = record lx { pending = t ∷ lx.pending } })

abbrev pub is_ident : TokenKind → Bool
is_ident (ident s) = true
is_ident _ = false

module _ (u : CharClasses) where
  unfoldable pub advance : M (Unit {0})
  advance p = if p.eof then parsed tt p else shifted (next_token u p.lexer)

  unfoldable pub peek_next_is_eq : M Bool
  peek_next_is_eq p =
      if is_ident p.current.kind then peeked (next_token u p.lexer) p else parsed false p

  -- `Parser::new`
  unfoldable pub new_parser : Chars → Option Parser
  new_parser source = elim (next_token u (new_lexer source)) [
    | none ↦ none
    | some (t, lx) ↦ some (record { lexer = lx; current = t; eof = false })
  ]

  module _ (x : External) where
    unfoldable pub expect : TokenKind → M (Unit {0})
    unfolding debug_kind
    expect k p =
        if same_kind p.current.kind k
        then advance p
        else fail
            (concat ("Expected " ∷ debug_kind x k ∷ ", got " ∷ debug_kind x p.current.kind ∷ [])) p

  -- `match &self.current.kind { TokenKind::Ident(n) => { n.clone(), advance }, _ => Err(..) }`
  abbrev pub ident_at : String → TokenKind → M Chars
  ident_at message (ident s) = advance >> ret s
  ident_at message _ = fail message

  unfoldable pub take_ident : String → M Chars
  unfolding advance
  take_ident message p = ident_at message p.current.kind p

  abbrev pub string_at : String → TokenKind → M Chars
  string_at message (string s) = advance >> ret s
  string_at message _ = fail message

  unfoldable pub take_string : String → M Chars
  unfolding advance
  take_string message p = string_at message p.current.kind p

  -- `expect_newline_or_eof`
  unfoldable pub skip_newlines : ℕ → M (Unit {0})
  unfolding advance
  skip_newlines zero p = out_of_fuel
  skip_newlines (suc fuel) p =
      let rest = (advance >> skip_newlines fuel) p in
      if same_kind p.current.kind newline then rest else parsed tt p

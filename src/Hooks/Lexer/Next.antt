-- ===== src/Hooks/Lexer/Next.antt =====
-- `next_token` of di-core/src/hooks/parser/lexer.rs.
use di_rac.Prelude.{
  ℕ, ◌-◌, Bool, true, false, ◌||◌, ◌&&◌, List, [], ◌∷◌, Option, none, some, ◌==◌, ◌>>=◌,
  if◌then◌else◌,
}
use di_rac.Hooks.Lexer.Cursor.{
  Cursor, past, read_while, is_blank, is_ascii_digit, read_string, parse_int, skip_ignored,
}
use di_rac.Hooks.Lexer.Indent.{Lexer, span_from, here, handle_indent}
use di_rac.Hooks.Lexer.Token.{
  Chars, Token, TokenKind, at_on, at_role, ident, string, int, l_paren, r_paren, l_bracket,
  r_bracket, l_brace, r_brace, comma, colon, dot, eq, eq_eq, neq, newline, eof, chars_eq,
  ident_or_keyword,
}

-- the Unicode classes of characters
pub record CharClasses : Type 0 where
  pub is_alphabetic : ℕ → Bool
  pub is_alphanumeric : ℕ → Bool

-- `Lexer::new`
abbrev pub new_lexer : Chars → Lexer
new_lexer source = record {
  at = record { chars = source; offset = 0; line = 1; col = 1 };
  indent_stack = 0 ∷ [];
  pending = [];
  bol = true;
  unterminated_string = false;
  indent_width = 0;
}

abbrev peeks : ℕ → Chars → Bool
peeks c [] = false
peeks c (d ∷ ds) = c == d

-- the tokens of one character
abbrev pub punctuation : ℕ → Option TokenKind
punctuation c =
    if c == b'('
    then some l_paren
    else if c == b')'
    then some r_paren
    else if c == b'['
    then some l_bracket
    else if c == b']'
    then some r_bracket
    else if c == b'{'
    then some l_brace
    else if c == b'}'
    then some r_brace
    else if c == b','
    then some comma
    else if c == b':'
    then some colon
    else if c == b'.'
    then some dot
    else none

-- `pending.pop()`, or where nothing waits what follows
abbrev pub pop_or : List Token → Lexer → Option (Token × Lexer) → Option (Token × Lexer)
pop_or [] lx other = other
pop_or (t ∷ ts) lx other = some (t, record lx { pending = ts })

module _ (u : CharClasses) where
  open u use {is_alphabetic, is_alphanumeric}

  abbrev pub in_word : ℕ → Bool
  in_word c = is_alphanumeric c || c == b'_'

  -- a decorator, whose letter has been peeked
  unfoldable pub decorator : ℕ → Chars → TokenKind → Cursor → TokenKind × Cursor
  unfolding read_while chars_eq
  decorator letter name kind at =
      let (rest, end) = read_while in_word at.chars at in
      (if chars_eq rest name then kind else ident (b'@' ∷ letter ∷ rest), end)

  abbrev pub after_next : Cursor → Cursor
  after_next at = elim at.chars [ [] ↦ at | c ∷ cs ↦ past c cs at ]

  -- The token that starts with a character which is neither a line's end, a quote nor punctuation.
  unfoldable pub lex_other : ℕ → Cursor → TokenKind × Bool × Cursor
  unfolding read_while decorator ident_or_keyword
  lex_other c at =
      let next = after_next at in
      if c == b'@' && peeks b'r' at.chars
      then (let (kind, end) = decorator b'r' (b'o' ∷ b'l' ∷ b'e' ∷ []) at_role next in
          (kind, false, end))
      else if c == b'@' && peeks b'o' at.chars
      then (let (kind, end) = decorator b'o' (b'n' ∷ []) at_on next in (kind, false, end))
      else if c == b'=' && peeks b'=' at.chars
      then (eq_eq, false, next)
      else if c == b'!' && peeks b'=' at.chars
      then (neq, false, next)
      else if c == b'='
      then (eq, false, at)
      else if is_ascii_digit c
      then (let (digits, end) = read_while is_ascii_digit at.chars at in
          (int (parse_int (c ∷ digits)), false, end))
      else if is_alphabetic c || c == b'_'
      then (let (rest, end) = read_while in_word at.chars at in
          (ident_or_keyword (c ∷ rest), false, end))
      else (ident (c ∷ []), false, at)

  abbrev pub or_punctuation :
      Option TokenKind → Cursor → TokenKind × Bool × Cursor → TokenKind × Bool × Cursor
  or_punctuation (some kind) at other = (kind, false, at)
  or_punctuation none at other = other

  -- The token that starts with a character, after it: the kind, whether a string is not closed, and
  -- where it ends.
  unfoldable pub lex_char : ℕ → Cursor → TokenKind × Bool × Cursor
  unfolding read_string lex_other
  lex_char c at =
      let quoted = read_string c at.chars at in
      if c == b'\n'
      then (newline, false, at)
      else if c == 34 || c == 39
      then (string quoted.0, (if quoted.1 then false else true), quoted.2)
      else or_punctuation (punctuation c) at (lex_other c at)

  -- the token at a character that is not skipped
  unfoldable pub lex_at : ℕ → Chars → Lexer → Token × Lexer
  unfolding lex_char
  lex_at c rest lx =
      let one = past c rest lx.at in
      let (kind, unclosed, end) = lex_char c one in
      (
        record { kind = kind; span = span_from lx.at.offset one.line (one.col - 1) end },
        record lx {
          at = end;
          bol = c == b'\n';
          unterminated_string = lx.unterminated_string || unclosed;
        },
      )

  -- the end of the source: the dedents that are left, then the end
  unfoldable pub lex_end : Lexer → Option (Token × Lexer)
  unfolding handle_indent
  lex_end lx = handle_indent 0 lx >>= λ m. pop_or m.pending m (some (here eof m, m))

  unfoldable pub lex_from : Chars → Lexer → Option (Token × Lexer)
  unfolding lex_end lex_at
  lex_from [] lx = lex_end lx
  lex_from (c ∷ rest) lx = some (lex_at c rest lx)

  unfoldable pub lex_line : Lexer → Option (Token × Lexer)
  unfolding skip_ignored lex_from
  lex_line lx =
      let found = skip_ignored false lx.at.chars lx.at in
      lex_from found.chars (record lx { at = found })

  -- the start of a line, at its blanks
  unfoldable pub begin_line : Lexer → Option (Token × Lexer)
  unfolding read_while handle_indent lex_line
  begin_line lx =
      let moved = record lx { at = (read_while is_blank lx.at.chars lx.at).1 } in
      handle_indent (moved.at.col - 1) moved >>= λ m.
      pop_or m.pending (record m { bol = false }) (lex_line (record m { bol = false }))

  -- `none` is a panic.
  unfoldable pub next_token : Lexer → Option (Token × Lexer)
  unfolding lex_line begin_line
  next_token lx = pop_or lx.pending lx (if lx.bol then begin_line lx else lex_line lx)

-- ===== src/Hooks/Lexer/Tests.antt =====
-- The lexer (di-core/src/hooks/parser/lexer.rs) at concrete sources.
use di_rac.Prelude.{
  ℕ, pos, ◌+◌, ◌*◌, true, false, ◌&&◌, ◌||◌, List, [], ◌∷◌, none, some, ◌≡◌, ◌≢◌, refl, arith, leb,
  length, first, ltb, map,
}
use di_rac.Hooks.Lexer.All.{Outcome, out_of_fuel, lex_all, source-ends, finished, panicked}
use di_rac.Hooks.Lexer.Indent.{Lexer, handle_indent, effective_indent, change_level, pop_to}
use di_rac.Hooks.Lexer.Cursor.{read_while, read_string, skip_ignored}
use di_rac.Hooks.Lexer.Levels.{
  IsNested, has_level, level_of, handle_indent-IsNested, unknown_level_panics,
}
use di_rac.Hooks.Lexer.Next.{
  CharClasses, new_lexer, next_token, begin_line, lex_line, lex_from, lex_end, lex_at, lex_char,
  lex_other, decorator,
}
use di_rac.Hooks.Lexer.Token.{
  Chars, TokenKind, ident_or_keyword, chars_eq, at_on, l_paren, string, r_paren, colon, newline,
  indent, ident, eq, int, dedent, eof,
}

-- the classes of ASCII
abbrev ascii : CharClasses
ascii = record {
  is_alphabetic = λ c. (leb 65 c && leb c 90) || (leb 97 c && leb c 122);
  is_alphanumeric =
      λ c. (leb 48 c && leb c 57) || ((leb 65 c && leb c 90) || (leb 97 c && leb c 122));
}

-- `a:`, a line indented by four and one by two
abbrev uneven : Chars
uneven = 97 ∷ 58 ∷ 10 ∷ 32 ∷ 32 ∷ 32 ∷ 32 ∷ 98 ∷ 10 ∷ 32 ∷ 32 ∷ 99 ∷ 10 ∷ []

source-ends_example : lex_all ascii (2 * length uneven + 3) (new_lexer uneven) ≢ out_of_fuel
source-ends_example = source-ends ascii uneven

-- in a block that is indented by four
abbrev in_block : Lexer
in_block = record {
  at = record { chars = []; offset = 20; line = 3; col = 1 };
  indent_stack = 4 ∷ 0 ∷ [];
  pending = [];
  bol = true;
  unterminated_string = false;
  indent_width = 4;
}

deeper : (ltb 4 (level_of 8 in_block 4) || has_level (level_of 8 in_block 4) (4 ∷ 0 ∷ [])) ≡ true
unfolding effective_indent
deeper = refl

lower : ltb 4 (level_of 2 in_block 4) ≡ false
unfolding effective_indent
lower = refl

unknown : has_level (level_of 2 in_block 4) (4 ∷ 0 ∷ []) ≡ false
unfolding effective_indent
unknown = refl

handle_indent-IsNested_example :
    (m : Lexer) × (handle_indent 8 in_block ≡ some m)
    × IsNested m.indent_stack
    × (first m.indent_stack ≡ some (level_of 8 in_block 4))
handle_indent-IsNested_example =
    handle_indent-IsNested 8 4 (0 ∷ []) in_block refl (omega arith, refl) deeper

unknown_level_panics_example :
    (m : Lexer) × (handle_indent 2 in_block ≡ some m)
    × (m.indent_stack ≡ [])
    × ((later : ℕ) → handle_indent later m ≡ none)
unknown_level_panics_example = unknown_level_panics 2 4 (0 ∷ []) in_block refl lower unknown

-- The line that is indented by two ends no block, and the lexer panics at the next.
uneven_panics : lex_all ascii 30 (new_lexer uneven) ≡ panicked
unfolding lex_all next_token begin_line lex_line lex_from lex_end lex_at lex_char lex_other
    ident_or_keyword chars_eq read_while read_string skip_ignored handle_indent effective_indent
    change_level pop_to
uneven_panics = refl

abbrev kinds : Outcome → List TokenKind
kinds (finished ts) = map (λ t. t.kind) ts
kinds _ = []

-- `@on("x"):`, a comment, and an indented `n=12`
abbrev even : Chars
even =
    64 ∷ 111 ∷ 110 ∷ 40 ∷ 34 ∷ 120 ∷ 34 ∷ 41 ∷ 58 ∷ 35 ∷ 33 ∷ 10 ∷ 32 ∷ 32 ∷ 110 ∷ 61 ∷ 49 ∷ 50 ∷ []

even_tokens :
    kinds (lex_all ascii 40 (new_lexer even))
    ≡ at_on
      ∷ l_paren
      ∷ string (120 ∷ [])
      ∷ r_paren
      ∷ colon
      ∷ newline
      ∷ indent
      ∷ ident (110 ∷ [])
      ∷ eq
      ∷ int (pos 12)
      ∷ dedent
      ∷ eof
      ∷ []
unfolding lex_all next_token begin_line lex_line lex_from lex_end lex_at lex_char lex_other
    decorator ident_or_keyword chars_eq read_while read_string skip_ignored handle_indent
    effective_indent change_level pop_to
even_tokens = refl

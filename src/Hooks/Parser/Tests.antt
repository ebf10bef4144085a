-- ===== src/Hooks/Parser/Tests.antt =====
-- The parser (di-core/src/hooks/parser/parser.rs) at concrete sources.
use di_rac.Prelude.{
  pos, text_of, true, ◌&&◌, ◌||◌, [], ◌∷◌, none, some, ◌≡◌, refl, arith, leb, String, codes,
}
use di_rac.Hooks.Ast
use di_rac.Hooks.Ast.{Expr, dict, end, entry}
use di_rac.Hooks.Lexer.Cursor.{read_while, read_string, skip_ignored}
use di_rac.Hooks.Lexer.Indent.{handle_indent, effective_indent, change_level, pop_to}
use di_rac.Hooks.Lexer.Next.{
  CharClasses, new_lexer, next_token, begin_line, lex_line, lex_from, lex_end, lex_at, lex_char,
  lex_other, decorator,
}
use di_rac.Hooks.Lexer.Token.{Chars, TokenKind, ident_or_keyword, chars_eq, eof}
use di_rac.Hooks.Parser.Expr.{parse_expr}
use di_rac.Hooks.Parser.Faults.{elif_fails, unclosed_role_hangs}
use di_rac.Hooks.Parser.Module.{parse_module}
use di_rac.Hooks.Parser.RoundTrip.{parse_expr-written}
use di_rac.Hooks.Parser.State.{
  Parser, ParseError, Result, parsed, failed, panicked, out_of_fuel, new_parser, advance,
}
use di_rac.Hooks.Parser.Stmt.{parse_else}
use di_rac.Hooks.Parser.Syntax.{
  Source, number, mapping, field, no_field, nowhere, has_key, with_value, at_end, path, negated,
  any_of, more, no_more, stop, tree, bare, written, size,
}
use di_rac.Hooks.Tests.Fixture.{plain}

-- the classes of ASCII
abbrev ascii : CharClasses
ascii = record {
  is_alphabetic = λ c. (leb 65 c && leb c 90) || (leb 97 c && leb c 122);
  is_alphanumeric =
      λ c. (leb 48 c && leb c 57) || ((leb 65 c && leb c 90) || (leb 97 c && leb c 122));
}

-- where no token can be read
abbrev nothing : Parser
nothing = record {
  lexer = new_lexer [];
  current = record { kind = eof; span = record { start = 0; end = 0; line = 0; column = 0 } };
  eof = true;
}

abbrev start : String → Parser
start source = elim (new_parser ascii (codes source)) [ none ↦ nothing | some p ↦ p ]

abbrev moved : Result (Unit {0}) → Parser
moved (parsed a p) = p
moved (failed e p) = p
moved panicked = nothing
moved out_of_fuel = nothing

abbrev next : Parser → Parser
next p = moved (advance ascii p)

abbrev name_a : Chars
name_a = codes "a"

-- `not a or b`
abbrev written_or : Source
written_or = any_of (negated (path (codes "a") stop)) (more (path (codes "b") stop) no_more)

abbrev or_start : Parser
or_start = start "not a or b\n"

parse_expr-written_example :
    (e : Expr) × (parse_expr ascii plain 20 or_start
      ≡ parsed e (next (next (next (next or_start)))))
    × (bare e ≡ tree written_or)
unfolding new_parser advance next_token begin_line lex_line lex_from lex_end lex_at lex_char
    lex_other decorator read_while read_string skip_ignored handle_indent effective_indent
    change_level pop_to ident_or_keyword chars_eq size written
parse_expr-written_example =
    parse_expr-written ascii plain written_or 20 or_start (next (next (next (next or_start))))
      (omega arith)
      (
        next or_start,
        refl,
        refl,
        (
          next (next or_start),
          refl,
          refl,
          (
            next (next (next or_start)),
            refl,
            refl,
            (next (next (next (next or_start))), refl, refl, refl),
          ),
        ),
      )
      (refl, refl, (refl, (refl, refl)))

abbrev elif_start : Parser
elif_start = start "elif a:\n"

elif_fails_example :
    (e : ParseError) × (parse_else ascii plain 20 5 elif_start ≡ failed e (next elif_start))
unfolding new_parser advance next_token begin_line lex_line lex_from lex_end lex_at lex_char
    lex_other decorator read_while read_string skip_ignored handle_indent effective_indent
    change_level pop_to ident_or_keyword chars_eq written
elif_fails_example =
    elif_fails ascii plain (path name_a stop) 20 4 elif_start (next elif_start)
      (next (next elif_start)) refl refl (next (next elif_start), refl, refl, refl)

abbrev role_start : Parser
role_start = start "@role(\"r\","

unclosed_role_hangs_example : parse_module ascii plain 1000 role_start ≡ out_of_fuel
unfolding new_parser advance next_token begin_line lex_line lex_from lex_end lex_at lex_char
    lex_other decorator read_while read_string skip_ignored handle_indent effective_indent
    change_level pop_to ident_or_keyword chars_eq
unclosed_role_hangs_example =
    unclosed_role_hangs ascii plain (codes "r") (TokenKind.comma ∷ []) 1000 role_start
      (next (next (next (next role_start)))) refl ((refl, refl), tt)
      (
        next role_start,
        refl,
        refl,
        (
          next (next role_start),
          refl,
          refl,
          (
            next (next (next role_start)),
            refl,
            refl,
            (next (next (next (next role_start))), refl, refl, refl),
          ),
        ),
      )
      (record { kind = refl; flag = refl })

-- `{"k": 1, "l": 2, "k": 3}`
three_fields :
    tree (
      mapping (
        field
          (codes "k")
          (number (pos 1))
          (field (codes "l") (number (pos 2)) (field (codes "k") (number (pos 3)) no_field))))
    ≡ dict (entry "k" (Ast.int (pos 3) nowhere) (entry "l" (Ast.int (pos 2) nowhere) end)) nowhere
unfolding tree has_key with_value at_end text_of
three_fields = refl

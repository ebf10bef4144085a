-- ===== src/Hooks/Parser/Items.antt =====
-- The parts of a hook file that stand on one line (di-core/src/hooks/parser/parser.rs): bindings,
-- imports and groups.
use di_rac.Prelude.{
  ℕ, zero, suc, Bool, List, [], ◌∷◌, ◌++◌, String, concat, codes, text_of, if◌then◌else◌,
}
use di_rac.Hooks.Ast.{
  LetConstructor, LetBinding, ImportSymbol, ImportStmt, PathGroup, evidence, validation, final_note,
  require, group, role,
}
use di_rac.Hooks.External.{External}
use di_rac.Hooks.Lexer.Next.{CharClasses}
use di_rac.Hooks.Lexer.Token.{
  Chars, ident, string, l_paren, r_paren, l_bracket, r_bracket, comma, eq, newline, indent, dedent,
  chars_eq,
}
use di_rac.Hooks.Parser.State.{
  parsed, out_of_fuel, M, ◌>>=◌, ◌>>◌, ret, fail, advance, expect, take_ident, take_string,
  skip_newlines,
}

-- whether an identifier is a word
abbrev pub is_word : Chars → String → Bool
is_word name word = chars_eq name (codes word)

module _ (u : CharClasses) (n : ℕ) where
  -- the patterns of `validation(argv=[..])`
  unfoldable pub parse_argv : ℕ → List String → M (List String)
  unfolding advance
  parse_argv zero argv p = out_of_fuel
  parse_argv (suc rounds) argv p = elim p.current.kind [
    | r_bracket ↦ (advance u >> ret argv) p
    | comma ↦ (advance u >> parse_argv rounds argv) p
    | string s ↦ (advance u >> parse_argv rounds (argv ++ text_of s ∷ [])) p
    | _ ↦ parsed argv p
  ]

  -- the patterns of a group
  unfoldable pub parse_patterns : ℕ → List String → M (List String)
  unfolding advance
  parse_patterns zero found p = out_of_fuel
  parse_patterns (suc rounds) found p = elim p.current.kind [
    | string s ↦ (advance u >> parse_patterns rounds (found ++ text_of s ∷ [])) p
    | comma ↦ (advance u >> parse_patterns rounds found) p
    | newline ↦ (advance u >> parse_patterns rounds found) p
    | indent ↦ (advance u >> parse_patterns rounds found) p
    | dedent ↦ (advance u >> parse_patterns rounds found) p
    | r_bracket ↦ (advance u >> ret found) p
    | _ ↦ parsed found p
  ]

  module _ (x : External) where
    abbrev unknown_constructor : Chars → String
    unknown_constructor name = concat (
        "Unknown constructor '"
        ∷ text_of name
        ∷ "'. Expected evidence, validation, final_note, or require."
        ∷ [])

    -- the arguments of a constructor, by its name
    unfoldable pub constructor_args : Chars → M LetConstructor
    unfolding advance expect parse_argv chars_eq
    constructor_args name =
        let message = concat ("Expected string argument for " ∷ text_of name ∷ "()" ∷ []) in
        if is_word name "evidence"
        then (do s ← take_string u message; ret (evidence (text_of s)))
        else if is_word name "final_note"
        then (do s ← take_string u message; ret (final_note (text_of s)))
        else if is_word name "validation"
        then (do expect u x l_bracket; argv ← parse_argv n []; ret (validation argv))
        else if is_word name "require"
        then (do
          fact ← take_ident u "Expected fact name for require()"
          ret (require (text_of fact)))
        else fail (unknown_constructor name)

    unfoldable pub parse_constructor : M LetConstructor
    unfolding advance expect constructor_args
    parse_constructor = do
      name ← take_ident u "Expected constructor name (evidence, validation, final_note, require)"
      expect u x l_paren
      result ← constructor_args name
      expect u x r_paren
      ret result

    unfoldable pub parse_let_binding : M LetBinding
    unfolding advance expect parse_constructor skip_newlines
    parse_let_binding p =
        (do
          advance u
          name ← take_ident u "Expected binding name after 'let'"
          expect u x eq
          constructor ← parse_constructor
          skip_newlines u n
          ret (record { name = text_of name; constructor = constructor; span = p.current.span }))
          p

    -- `("name")` of an imported group or role
    abbrev symbol_name : String → M String
    symbol_name message = do
      expect u x l_paren
      name ← take_string u message
      expect u x r_paren
      ret (text_of name)

    unfoldable pub parse_symbols : ℕ → List ImportSymbol → M (List ImportSymbol)
    unfolding advance expect chars_eq
    parse_symbols zero found p = out_of_fuel
    parse_symbols (suc rounds) found p = elim p.current.kind [
      | ident s ↦
          let a_group =
            (do
              advance u
              name ← symbol_name "Expected group name string"
              parse_symbols rounds (found ++ group name ∷ []))
              p in
          let a_role =
            (do
              advance u
              name ← symbol_name "Expected role name string"
              parse_symbols rounds (found ++ role name ∷ []))
              p in
          if is_word s "group" then a_group else if is_word s "role" then a_role else parsed found p
      | comma ↦ (advance u >> parse_symbols rounds found) p
      | _ ↦ parsed found p
    ]

    abbrev expect_import : M (Unit {0})
    expect_import p =
        let other = fail "Expected 'import' after path string" p in
        elim p.current.kind [
          | ident s ↦ if is_word s "import" then advance u p else other
          | _ ↦ other
        ]

    abbrev require_symbol : List ImportSymbol → M (Unit {0})
    require_symbol [] = fail "Expected at least one import symbol"
    require_symbol (s ∷ more) = ret tt

    unfoldable pub parse_import_stmt : M ImportStmt
    unfolding advance parse_symbols skip_newlines
    parse_import_stmt p =
        (do
          advance u
          path ← take_string u "Expected import path string after 'from'"
          expect_import
          symbols ← parse_symbols n []
          require_symbol symbols
          skip_newlines u n
          ret (record { path = text_of path; symbols = symbols; span = p.current.span }))
          p

    unfoldable pub parse_group : M PathGroup
    unfolding advance expect parse_patterns skip_newlines
    parse_group p =
        (do
          advance u
          expect u x l_paren
          name ← take_string u "Expected group name string"
          expect u x comma
          expect u x l_bracket
          patterns ← parse_patterns n []
          expect u x r_paren
          skip_newlines u n
          ret (record { name = text_of name; patterns = patterns; span = p.current.span }))
          p

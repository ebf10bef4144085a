-- ===== src/Hooks/Parser/Module.antt =====
-- `parse_module` of di-core/src/hooks/parser/parser.rs.
use di_rac.Prelude.{
  ℕ, zero, suc, Bool, true, false, ◌||◌, List, [], ◌∷◌, ◌++◌, String, concat, ◌⊎◌, inl, inr,
  if◌then◌else◌,
}
use di_rac.Hooks.Ast.{Module}
use di_rac.Hooks.External.{External}
use di_rac.Hooks.Lexer.Next.{CharClasses}
use di_rac.Hooks.Lexer.Token.{TokenKind, at_on, at_role, ident, newline, eof, chars_eq}
use di_rac.Hooks.Parser.Items.{is_word, parse_let_binding, parse_import_stmt, parse_group}
use di_rac.Hooks.Parser.Role.{parse_role_def}
use di_rac.Hooks.Parser.State.{
  ParseError, Parser, Result, parsed, failed, panicked, out_of_fuel, M, ◌>>=◌, same_kind,
  debug_kind, advance,
}
use di_rac.Hooks.Parser.Stmt.{parse_event_handler}

-- the variables of the loop
pub record Parts (x : External) : Type 0 where
  pub parts : Module x
  pub errors : List ParseError
  pub scope_open : Bool

module _ (u : CharClasses) (x : External) (n : ℕ) where
  -- After a part, which is added, or an error, which is kept.
  abbrev collect {ℓ} :
      {A : Type ℓ} → Result A → (A → Parts x) → Parts x → (Parts x → M (Parts x)) → Result (Parts x)
  collect (parsed a p) add found go = go (add a) p
  collect (failed e p) add found go = go (record found { errors = found.errors ++ e ∷ [] }) p
  collect panicked add found go = panicked
  collect out_of_fuel add found go = out_of_fuel

  -- an error at a token that is skipped
  abbrev complain : String → Parts x → (Parts x → M (Parts x)) → M (Parts x)
  complain message found go p =
      let e : ParseError = record { message = message; span = p.current.span } in
      collect (advance u p) (λ _. record found { errors = found.errors ++ e ∷ [] }) found go

  module _ (found : Parts x) (go : Parts x → M (Parts x)) where
    abbrev add_import : M (Parts x)
    add_import p =
        collect (parse_import_stmt u n x p)
          (λ i.
            let m = found.parts in
            record found { parts = record m { imports = m.imports ++ i ∷ [] } })
          found go

    abbrev add_let : M (Parts x)
    add_let p =
        if found.scope_open
        then collect (parse_let_binding u n x p)
            (λ b.
              let m = found.parts in
              record found { parts = record m { let_bindings = m.let_bindings ++ b ∷ [] } })
            found go
        else complain "let bindings must precede all handler definitions" found go p

    abbrev add_group : M (Parts x)
    add_group p =
        collect (parse_group u n x p)
          (λ g.
            let m = found.parts in
            record found { parts = record m { groups = m.groups ++ g ∷ [] } })
          found go

    abbrev unexpected : M (Parts x)
    unexpected p =
        complain (concat ("Unexpected token: " ∷ debug_kind x p.current.kind ∷ [])) found go p

    abbrev add_named : List ℕ → M (Parts x)
    add_named word p =
        if is_word word "from"
        then add_import p
        else if is_word word "let"
        then add_let p
        else if is_word word "group"
        then add_group p
        else unexpected p

  abbrev closed : Parts x → Parts x
  closed found = record found { scope_open = false }

  abbrev add_role : Parts x → (Parts x → M (Parts x)) → M (Parts x)
  add_role found go p =
      collect (parse_role_def u x n p)
        (λ r.
          let m = found.parts in record found { parts = record m { roles = m.roles ++ r ∷ [] } })
        found go

  abbrev add_event_handler : Parts x → (Parts x → M (Parts x)) → M (Parts x)
  add_event_handler found go p =
      collect (parse_event_handler u x n p)
        (λ h.
          let m = found.parts in
          record found { parts = record m { handlers = m.handlers ++ h ∷ [] } })
        found go

  -- one round of the loop, where `go` are the others
  abbrev pub part_at : TokenKind → Parts x → (Parts x → M (Parts x)) → M (Parts x)
  part_at (ident word) found go = add_named found go word
  part_at at_role found go = add_role (closed found) go
  part_at at_on found go = add_event_handler (closed found) go
  part_at newline found go = λ p. collect (advance u p) (λ _. found) found go
  part_at _ found go = unexpected found go

  -- the loop
  unfoldable pub parse_parts : ℕ → Parts x → M (Parts x)
  unfolding advance debug_kind chars_eq parse_let_binding parse_import_stmt parse_group
      parse_role_def parse_event_handler
  parse_parts zero found p = out_of_fuel
  parse_parts (suc rounds) found p =
      let part = part_at p.current.kind found (parse_parts rounds) p in
      if p.eof || same_kind p.current.kind eof then parsed found p else part

  abbrev pub no_parts : Module x
  no_parts = record { groups = []; roles = []; handlers = []; imports = []; let_bindings = [] }

  abbrev result : Module x → List ParseError → Module x ⊎ List ParseError
  result m [] = inl m
  result m (e ∷ errors) = inr (e ∷ errors)

  -- what `parse_module` makes of its variables
  abbrev verdict : Parts x → Parser → Module x ⊎ List ParseError
  verdict found p =
      let unclosed : ParseError = record {
        message = "Unterminated string literal";
        span = p.current.span;
      } in
      result found.parts
        (if p.lexer.unterminated_string then found.errors ++ unclosed ∷ [] else found.errors)

  unfoldable pub parse_module : M (Module x ⊎ List ParseError)
  unfolding parse_parts
  parse_module p =
      (do
        found ← parse_parts n (record { parts = no_parts; errors = []; scope_open = true })
        λ q. parsed (verdict found q) q)
        p

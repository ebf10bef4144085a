-- ===== src/Hooks/Parser/Faults.antt =====
-- Where the parser (di-core/src/hooks/parser/parser.rs) does not do what it means to.
use di_rac.Prelude.{
  ℕ, zero, suc, Bool, true, false, ◌||◌, List, [], ◌∷◌, ◌≡◌, refl, sym, ap, ◌∙◌, String, concat,
  subst, All, if◌then◌else◌,
}
use di_rac.Hooks.External.{External}
use di_rac.Hooks.Lexer.Next.{CharClasses}
use di_rac.Hooks.Lexer.Token.{
  Chars, TokenKind, elif_, if_, colon, at_role, ident, string, l_paren, r_paren, eof,
}
use di_rac.Hooks.Parser.Heads.{written-Head}
use di_rac.Hooks.Parser.Module.{Parts, part_at, parse_module, parse_parts}
use di_rac.Hooks.Parser.Operands.{take_string-Reads}
use di_rac.Hooks.Parser.Reads.{Reads, same_kind_of, expect-Reads}
use di_rac.Hooks.Parser.Role.{role_arg, role_args, parse_role_def}
use di_rac.Hooks.Parser.State.{
  Parser, ParseError, M, parsed, failed, out_of_fuel, same_kind, debug_kind, advance, expect,
  is_ident,
}
use di_rac.Hooks.Parser.Stmt.{parse_else}
use di_rac.Hooks.Parser.Syntax.{Source, written}

module _ (u : CharClasses) (x : External) where
  refused :
      (k : TokenKind) (p : Parser)
      → same_kind p.current.kind k ≡ false
      → (e : ParseError) × (expect u x k p ≡ failed e p)
  unfolding expect
  refused k p h =
      let message =
        concat ("Expected " ∷ debug_kind x k ∷ ", got " ∷ debug_kind x p.current.kind ∷ []) in
      (record { message = message; span = p.current.span }, rw h)

  -- An `elif` with a condition is an error, whatever the condition: after `elif` the parser wants
  -- `if` or a colon.
  pub elif_fails :
      (a : Source) (n fuel : ℕ) (p r q : Parser)
      → p.current.kind ≡ elif_
      → advance u p ≡ parsed tt r
      → Reads u r (written a) q
      → (e : ParseError) × (parse_else u x n (suc fuel) p ≡ failed e r)
  unfolding parse_else
  elif_fails a n fuel p r q kind adv reads =
      let head = written-Head a in
      let (s, first, adv', rest) = subst (λ ks. Reads u r ks q) head.splits reads in
      let (e, error) = refused colon r (same_kind_of r head.first colon first (head.starts).4) in
      (
        e,
        rw (
          same_kind_of p elif_ elif_ kind refl,
          adv,
          same_kind_of r head.first if_ first (head.starts).3,
          error,
        ),
      )

  -- no name, and not the parenthesis that closes
  abbrev pub IsSkipped : TokenKind → Type 0
  IsSkipped k = (is_ident k ≡ false) × (same_kind k r_paren ≡ false)

  skipped_arg :
      (k : TokenKind) (kind : String) (go : String → M String) (p r : Parser)
      → IsSkipped k
      → advance u p ≡ parsed tt r
      → role_arg u x k kind go p ≡ go kind r
  skipped_arg r_paren kind go p r s adv = cc (s.1)
  skipped_arg (ident k) kind go p r s adv = cc (s.0)
  skipped_arg _ kind go p r s adv = rw adv refl

  skip_one :
      (rounds : ℕ) (kind : String) (k : TokenKind) (p r : Parser)
      → IsSkipped k
      → p.current.kind ≡ k
      → advance u p ≡ parsed tt r
      → role_args u x (suc rounds) kind p ≡ role_args u x rounds kind r
  unfolding role_args
  skip_one rounds kind k p r s e adv =
      ap (λ (j : TokenKind). role_arg u x j kind (role_args u x rounds) p) e
      ∙ skipped_arg k kind (role_args u x rounds) p r s adv

  -- at the end of the source
  pub record IsOver (p : Parser) : Type 0 where
    pub kind : p.current.kind ≡ eof
    pub flag : p.eof ≡ true

  stays : (p : Parser) → IsOver p → advance u p ≡ parsed tt p
  unfolding advance
  stays p o = rw (o.flag)

  args_never_end :
      (ks : List TokenKind) (rounds : ℕ) (kind : String) (p q : Parser)
      → All IsSkipped ks
      → Reads u p ks q
      → IsOver q
      → role_args u x rounds kind p ≡ out_of_fuel
  unfolding role_args
  args_never_end ks zero kind p q s reads o = refl
  args_never_end [] (suc rounds) kind p q s same o =
      let at_end : IsOver p = subst IsOver (sym same) o in
      skip_one rounds kind eof p p (refl, refl) at_end.kind (stays p at_end)
      ∙ args_never_end [] rounds kind p q tt same o
  args_never_end (k ∷ ks) (suc rounds) kind p q s (r, first, adv, reads) o =
      skip_one rounds kind k p r s.0 first adv ∙ args_never_end ks rounds kind r q s.1 reads o

  role_hangs :
      (name : Chars) (ks : List TokenKind) (n : ℕ) (p q : Parser)
      → All IsSkipped ks
      → Reads u p (at_role ∷ l_paren ∷ string name ∷ ks) q
      → IsOver q
      → parse_role_def u x n p ≡ out_of_fuel
  unfolding parse_role_def
  role_hangs name ks n p q s (r, k₁, a₁, (r₂, k₂, a₂, (r₃, k₃, a₃, reads))) o = rw (
    a₁,
    expect-Reads u x l_paren r r₂ k₂ a₂,
    take_string-Reads u x "Expected role name string" name r₂ r₃ k₃ a₃,
    args_never_end ks n "" r₃ q s reads o,
  )

  parts_hang :
      (n rounds : ℕ) (found : Parts x) (p : Parser)
      → p.eof ≡ false
      → p.current.kind ≡ at_role
      → parse_role_def u x n p ≡ out_of_fuel
      → parse_parts u x n rounds found p ≡ out_of_fuel
  unfolding parse_parts
  parts_hang n zero found p live kind hangs = refl
  parts_hang n (suc rounds) found p live kind hangs =
      let go = parse_parts u x n rounds in
      ap
        (λ (b : Bool).
          if b || same_kind p.current.kind eof
          then parsed found p
          else part_at u x n p.current.kind found go p)
        live
      ∙ rw (same_kind_of p at_role eof kind refl)
          (ap (λ (k : TokenKind). part_at u x n k found go p) kind ∙ rw hangs)

  -- A hook file that begins with `@role("name"` and ends before the parenthesis that closes, with no
  -- name in between, is never parsed to the end, however many rounds the loops may take.
  pub unclosed_role_hangs :
      (name : Chars) (ks : List TokenKind) (n : ℕ) (p q : Parser)
      → p.eof ≡ false
      → All IsSkipped ks
      → Reads u p (at_role ∷ l_paren ∷ string name ∷ ks) q
      → IsOver q
      → parse_module u x n p ≡ out_of_fuel
  unfolding parse_module
  unclosed_role_hangs name ks n p q live s reads o =
      rw (parts_hang n n _ p live reads.1 (role_hangs name ks n p q s reads o))

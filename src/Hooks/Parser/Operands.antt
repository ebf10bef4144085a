-- ===== src/Hooks/Parser/Operands.antt =====
-- Operands, in parentheses or not, and the steps on single tokens of expressions
-- (di-core/src/hooks/parser/parser.rs).
use di_rac.Prelude.{
  ℕ, zero, suc, ◌≤◌, ◌<◌, true, [], ◌∷◌, ◌≡◌, refl, sym, ap, ◌∙◌, arith, leb, inl, inr, Bool-cases,
  String, subst,
}
use di_rac.Hooks.Ast.{Expr}
use di_rac.Hooks.External.{External}
use di_rac.Hooks.Lexer.Next.{CharClasses}
use di_rac.Hooks.Lexer.Token.{Chars, TokenKind, ident, string, l_paren, r_paren}
use di_rac.Hooks.Parser.Expr.{parse_expr, primary_at}
use di_rac.Hooks.Parser.Heads.{written-Head}
use di_rac.Hooks.Parser.Levels.{Ends, Opens, Gives, parse_at, loosened}
use di_rac.Hooks.Parser.Reads.{Reads, Reads-append, expect-Reads}
use di_rac.Hooks.Parser.State.{
  Parser, parsed, M, ◌>>=◌, ◌>>◌, ret, advance, take_ident, ident_at, take_string, string_at,
  expect,
}
use di_rac.Hooks.Parser.Syntax.{
  Source, Level, disjunction, conjunction, comparison, negation, primary, rank, level, fitted,
  enclosed, written, tree, size,
}

-- What ends a looser level ends a tighter one.
Ends-tighter : (m l : Level) (k : TokenKind) → leb (rank l) (rank m) ≡ true → Ends l k → Ends m k
Ends-tighter disjunction disjunction k w e = e
Ends-tighter conjunction disjunction k w e = (e.1, e.2)
Ends-tighter conjunction conjunction k w e = e
Ends-tighter comparison disjunction k w e = e.2
Ends-tighter comparison conjunction k w e = e.1
Ends-tighter comparison comparison k w e = e
Ends-tighter negation disjunction k w e = (e.2).1
Ends-tighter negation conjunction k w e = (e.1).1
Ends-tighter negation comparison k w e = e.1
Ends-tighter negation negation k w e = e
Ends-tighter primary disjunction k w e = (e.2).1
Ends-tighter primary conjunction k w e = (e.1).1
Ends-tighter primary comparison k w e = e.1
Ends-tighter primary negation k w e = e
Ends-tighter primary primary k w e = e
Ends-tighter _ _ k w e = absurd (cc)

loosest : (m : Level) → leb (rank disjunction) (rank m) ≡ true
loosest disjunction = refl
loosest conjunction = refl
loosest _ = refl

tightest : (l : Level) → leb (rank l) (rank primary) ≡ true
tightest disjunction = refl
tightest conjunction = refl
tightest _ = refl

pub two-le-size : (a : Source) → 2 ≤ size a
unfolding size
two-le-size (Source.boolean b) = omega arith
two-le-size (Source.negated a) = omega arith
two-le-size _ = omega arith

module _ (u : CharClasses) (x : External) where
  pub take_ident-Reads :
      (message : String) (s : Chars) (p q : Parser)
      → p.current.kind ≡ ident s
      → advance u p ≡ parsed tt q
      → take_ident u message p ≡ parsed s q
  unfolding take_ident
  take_ident-Reads message s p q kind adv =
      ap (λ (k : TokenKind). ident_at u message k p) kind ∙ rw adv refl

  pub take_string-Reads :
      (message : String) (s : Chars) (p q : Parser)
      → p.current.kind ≡ string s
      → advance u p ≡ parsed tt q
      → take_string u message p ≡ parsed s q
  unfolding take_string
  take_string-Reads message s p q kind adv =
      ap (λ (k : TokenKind). string_at u message k p) kind ∙ rw adv refl

  -- The first token of an expression chooses how it is read.
  pub chosen :
      (n : ℕ) (k : TokenKind) (c : M Expr) (p r : Parser)
      → p.current.kind ≡ k
      → advance u p ≡ parsed tt r
      → primary_at u x (parse_expr u x n) n k p.current.span p ≡ (advance u >> c) p
      → parse_at u x (parse_expr u x n) primary n n p ≡ c r
  chosen n k c p r kind adv step =
      ap (λ (j : TokenKind). primary_at u x (parse_expr u x n) n j p.current.span p) kind
      ∙ (step ∙ rw adv refl)

  -- the source is read as the tree that it means, at its own level
  abbrev pub Read : Source → Type 0
  Read a =
      (n rounds : ℕ) (p q : Parser)
      → size a ≤ n
      → size a ≤ rounds
      → Reads u p (written a) q
      → Ends (level a) q.current.kind
      → Gives (parse_at u x (parse_expr u x n) (level a) n rounds p) (tree a) q

  opens_first :
      (a : Source) (p q : Parser) → Reads u p (written a) q → Opens (level a) p.current.kind
  opens_first a p q h =
      let head = written-Head a in
      let (r, kind, adv, rest) = subst (λ ks. Reads u p ks q) head.splits h in
      subst (Opens (level a)) (sym kind) head.opens

  -- without parentheses, at a looser level
  plain-Read :
      (a : Source)
      → Read a
      → (l : Level) (n rounds : ℕ) (p q : Parser) → size a ≤ n
      → size a ≤ rounds
      → leb (rank l) (rank (level a)) ≡ true
      → Reads u p (written a) q
      → Ends l q.current.kind
      → Gives (parse_at u x (parse_expr u x n) l n rounds p) (tree a) q
  plain-Read a read l n rounds p q h k fits reads ends =
      loosened u x (parse_expr u x n) (tree a) p q n (size a) (omega (arith, two-le-size a)) h
        (level a) l rounds k fits (opens_first a p q reads) ends
        (λ j hj. read n j p q h hj reads (Ends-tighter (level a) l _ fits ends))

  pub whole-Read :
      (a : Source)
      → Read a
      → (n : ℕ) (p q : Parser) → size a < n
      → Reads u p (written a) q
      → Ends disjunction q.current.kind
      → Gives (parse_expr u x n p) (tree a) q
  unfolding parse_expr
  whole-Read a read zero p q h reads ends = absurd (omega arith)
  whole-Read a read (suc n) p q h reads ends =
      plain-Read a read disjunction n n p q (omega (arith, h)) (omega (arith, h))
        (loosest (level a)) reads ends

  enclosed-Read :
      (a : Source)
      → Read a
      → (n : ℕ) (p q : Parser) → size a < n
      → Reads u p (enclosed (written a)) q
      → Gives (parse_at u x (parse_expr u x n) primary n n p) (tree a) q
  unfolding primary_at
  enclosed-Read a read n p q h (r, kind, adv, rest) =
      let (s, inner, (t, close, adv', last)) = Reads-append u (written a) (r_paren ∷ []) r q rest in
      let (e, gives, means) =
        whole-Read a read n r s h inner
          (subst (Ends disjunction) (sym close) (refl, refl, (refl, (refl, refl)))) in
      (
        e,
        chosen n l_paren (do e ← parse_expr u x n; expect u x r_paren; ret e) p r kind adv refl
            ∙ rw (gives, expect-Reads u x r_paren s t close adv', last),
        means,
      )

  -- with parentheses where they are needed
  pub operand-Read :
      (a : Source)
      → Read a
      → (l : Level) (n rounds : ℕ) (p q : Parser) → size a < n
      → size a ≤ rounds
      → Reads u p (fitted l a (written a)) q
      → Ends l q.current.kind
      → Gives (parse_at u x (parse_expr u x n) l n rounds p) (tree a) q
  operand-Read a read l n rounds p q h k reads ends =
      elim (Bool-cases (leb (rank l) (rank (level a)))) [
        | inl fits ↦
            plain-Read a read l n rounds p q (omega (arith, h)) k fits (rw fits at reads) ends
        | inr other ↦
            let reads' : Reads u p (enclosed (written a)) q = rw other at reads in
            loosened u x (parse_expr u x n) (tree a) p q n (size a) (omega (arith, two-le-size a))
              (omega (arith, h)) primary l rounds k (tightest l)
              (subst (Opens primary) (sym (reads'.1)) refl) ends
              (λ j hj. enclosed-Read a read n p q h reads')
      ]

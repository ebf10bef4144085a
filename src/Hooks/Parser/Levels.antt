-- ===== src/Hooks/Parser/Levels.antt =====
-- What the parser (di-core/src/hooks/parser/parser.rs) reads at one level of the grammar of
-- expressions, it reads at the looser levels too.
use di_rac.Prelude.{ℕ, zero, suc, ◌≤◌, ◌<◌, true, false, ◌≡◌, refl, ap, Option, none, arith, leb}
use di_rac.Hooks.Ast.{BinOp, Expr}
use di_rac.Hooks.External.{External}
use di_rac.Hooks.Lexer.Next.{CharClasses}
use di_rac.Hooks.Lexer.Token.{TokenKind, and_, or_, not_, l_paren, dot}
use di_rac.Hooks.Parser.Expr.{
  comparison_op, compare_with, parse_primary, parse_not_expr, parse_comparison, parse_and_expr,
  and_rest, parse_or_expr, or_rest,
}
use di_rac.Hooks.Parser.State.{Parser, Result, parsed, M, same_kind}
use di_rac.Hooks.Parser.Syntax.{
  Level, disjunction, conjunction, comparison, negation, primary, rank, bare,
}

abbrev pub EndsOperand : TokenKind → Type 0
EndsOperand k = (same_kind k l_paren ≡ false) × (same_kind k dot ≡ false)

abbrev pub EndsComparison : TokenKind → Type 0
EndsComparison k = (comparison_op k ≡ none) × EndsOperand k

-- A token after which an expression of a level does not go on.
abbrev pub Ends : Level → TokenKind → Type 0
Ends primary k = EndsOperand k
Ends negation k = EndsOperand k
Ends comparison k = EndsComparison k
Ends conjunction k = (same_kind k and_ ≡ false) × EndsComparison k
Ends disjunction k = (same_kind k or_ ≡ false) × (same_kind k and_ ≡ false) × EndsComparison k

-- `r` is the result that a source means, up to spans, and the parser stands at `q`.
abbrev pub Gives : Result Expr → Expr → Parser → Type 0
Gives r meant q = (e : Expr) × (r ≡ parsed e q) × (bare e ≡ meant)

-- An expression of the level does not start with `not`, if that would be another level.
abbrev pub Opens : Level → TokenKind → Type 0
Opens primary k = same_kind k not_ ≡ false
Opens _ k = Unit

module _ (u : CharClasses) (x : External) (pe : M Expr) where
  -- The function of a level, with the rounds that its loops may take, and that a chain of `not` may
  -- take.
  abbrev pub parse_at : Level → ℕ → ℕ → M Expr
  parse_at primary n rounds = parse_primary u x pe n
  parse_at negation n rounds = parse_not_expr u x pe n rounds
  parse_at comparison n rounds = parse_comparison u x pe n
  parse_at conjunction n rounds = parse_and_expr u x pe n
  parse_at disjunction n rounds = parse_or_expr u x pe n

  module _ (meant : Expr) (p q : Parser) where
    as_negation :
        (n rounds : ℕ)
        → 0 < rounds
        → same_kind p.current.kind not_ ≡ false
        → Gives (parse_at primary n rounds p) meant q
        → Gives (parse_at negation n rounds p) meant q
    unfolding parse_not_expr
    as_negation n zero h plain g = absurd (omega arith)
    as_negation n (suc rounds) h plain (e, r, b) = (e, rw plain r, b)

    as_comparison :
        (n : ℕ)
        → comparison_op q.current.kind ≡ none
        → Gives (parse_at negation n n p) meant q
        → Gives (parse_at comparison n n p) meant q
    unfolding parse_comparison
    as_comparison n ends (e, r, b) =
        (e, rw r (ap (λ (o : Option BinOp). compare_with u x pe n e q.current.span o q) ends), b)

    as_conjunction :
        (n : ℕ)
        → 0 < n
        → same_kind q.current.kind and_ ≡ false
        → Gives (parse_at comparison n n p) meant q
        → Gives (parse_at conjunction n n p) meant q
    unfolding parse_and_expr and_rest
    as_conjunction zero h ends g = absurd (omega arith)
    as_conjunction (suc n) h ends (e, r, b) = (e, rw (r, ends) refl, b)

    as_disjunction :
        (n : ℕ)
        → 0 < n
        → same_kind q.current.kind or_ ≡ false
        → Gives (parse_at conjunction n n p) meant q
        → Gives (parse_at disjunction n n p) meant q
    unfolding parse_or_expr or_rest
    as_disjunction zero h ends g = absurd (omega arith)
    as_disjunction (suc n) h ends (e, r, b) = (e, rw (r, ends) refl, b)

    module _ (n : ℕ) (s : ℕ) (pos : 0 < s) (h : s ≤ n) where
      -- from the level `m`, whatever the rounds for `not`, to a looser one
      pub loosened :
          (m l : Level) (rounds : ℕ)
          → s ≤ rounds
          → leb (rank l) (rank m) ≡ true
          → Opens m p.current.kind
          → Ends l q.current.kind
          → ((k : ℕ) → s ≤ k → Gives (parse_at m n k p) meant q)
          → Gives (parse_at l n rounds p) meant q
      loosened disjunction disjunction rounds k w o ends g = g rounds k
      loosened conjunction disjunction rounds k w o ends g =
          as_disjunction n (omega (arith, pos, h)) ends.0 (g n h)
      loosened conjunction conjunction rounds k w o ends g = g rounds k
      loosened comparison disjunction rounds k w o ends g =
          as_disjunction n (omega (arith, pos, h)) ends.0
            (as_conjunction n (omega (arith, pos, h)) ends.1 (g n h))
      loosened comparison conjunction rounds k w o ends g =
          as_conjunction n (omega (arith, pos, h)) ends.0 (g n h)
      loosened comparison comparison rounds k w o ends g = g rounds k
      loosened negation disjunction rounds k w o ends g =
          as_disjunction n (omega (arith, pos, h)) ends.0
            (as_conjunction n (omega (arith, pos, h)) ends.1 (as_comparison n (ends.2).0 (g n h)))
      loosened negation conjunction rounds k w o ends g =
          as_conjunction n (omega (arith, pos, h)) ends.0 (as_comparison n (ends.1).0 (g n h))
      loosened negation comparison rounds k w o ends g = as_comparison n ends.0 (g n h)
      loosened negation negation rounds k w o ends g = g rounds k
      loosened primary disjunction rounds k w o ends g =
          as_disjunction n (omega (arith, pos, h)) ends.0 (
            as_conjunction n (omega (arith, pos, h)) ends.1
              (as_comparison n (ends.2).0 (as_negation n n (omega (arith, pos, h)) o (g n h))))
      loosened primary conjunction rounds k w o ends g =
          as_conjunction n (omega (arith, pos, h)) ends.0
            (as_comparison n (ends.1).0 (as_negation n n (omega (arith, pos, h)) o (g n h)))
      loosened primary comparison rounds k w o ends g =
          as_comparison n ends.0 (as_negation n n (omega (arith, pos, h)) o (g n h))
      loosened primary negation rounds k w o ends g =
          as_negation n rounds (omega (arith, pos, k)) o (g rounds k)
      loosened primary primary rounds k w o ends g = g rounds k
      loosened _ _ rounds k w o ends g = absurd (cc)

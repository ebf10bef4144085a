-- ===== src/Hooks/Parser/Chains.antt =====
-- Bounds on sizes, what ends the operands of a chain, and one comparison
-- (di-core/src/hooks/parser/parser.rs).
use di_rac.Prelude.{ℕ, ◌≤◌, ◌≡◌, refl, sym, ap, ◌∙◌, arith, subst}
use di_rac.Hooks.Ast.{Expr, binary_op}
use di_rac.Hooks.External.{External}
use di_rac.Hooks.Lexer.Next.{CharClasses}
use di_rac.Hooks.Lexer.Token.{TokenKind, and_, or_}
use di_rac.Hooks.Parser.Expr.{
  parse_expr, parse_not_expr, parse_comparison, compare_with, comparison_op,
}
use di_rac.Hooks.Parser.Levels.{Ends, EndsOperand}
use di_rac.Hooks.Parser.Reads.{Reads}
use di_rac.Hooks.Parser.State.{Parser, parsed, advance}
use di_rac.Hooks.Parser.Syntax.{
  Comparison, equal, different, within, Sources, no_more, more, Fields, no_field, field, Links,
  stop, member, method, disjunction, conjunction, comparison, op_token, op_of, size_fields,
  written_chain, sizes, size_links,
}

pub two-le-sizes : (cs : Sources) → 2 ≤ sizes cs
unfolding sizes
two-le-sizes no_more = omega arith
two-le-sizes (more a cs) = omega arith

pub two-le-fields : (fs : Fields) → 2 ≤ size_fields fs
unfolding size_fields
two-le-fields no_field = omega arith
two-le-fields (field k a fs) = omega arith

pub two-le-links : (links : Links) → 2 ≤ size_links links
unfolding size_links
two-le-links stop = omega arith
two-le-links (member name links) = omega arith
two-le-links (method name args links) = omega arith

module _ (u : CharClasses) (x : External) where
  -- What stands after an operand of a chain of `and`, or of `or`, ends it.
  pub and_chain-Ends :
      (cs : Sources) (p q : Parser)
      → Reads u p (written_chain comparison and_ cs) q
      → Ends conjunction q.current.kind
      → Ends comparison p.current.kind
  unfolding written_chain
  and_chain-Ends no_more p q same ends =
      subst (λ (r : Parser). Ends comparison r.current.kind) (sym same) ends.1
  and_chain-Ends (more a cs) p q h ends = subst (Ends comparison) (sym h.1) (refl, (refl, refl))

  pub or_chain-Ends :
      (cs : Sources) (p q : Parser)
      → Reads u p (written_chain conjunction or_ cs) q
      → Ends disjunction q.current.kind
      → Ends conjunction p.current.kind
  unfolding written_chain
  or_chain-Ends no_more p q same ends =
      subst (λ (r : Parser). Ends conjunction r.current.kind) (sym same) (ends.1, ends.2)
  or_chain-Ends (more a cs) p q h ends =
      subst (Ends conjunction) (sym h.1) (refl, (refl, (refl, refl)))

  -- an operator of comparison, and its operands
  pub compared_lem :
      (n : ℕ) (op : Comparison) (left right : Expr) (p s t q : Parser)
      → parse_not_expr u x (parse_expr u x n) n n p ≡ parsed left s
      → s.current.kind ≡ op_token op
      → advance u s ≡ parsed tt t
      → parse_not_expr u x (parse_expr u x n) n n t ≡ parsed right q
      → parse_comparison u x (parse_expr u x n) n p
        ≡ parsed (binary_op left (op_of op) right s.current.span) q
  unfolding parse_comparison
  compared_lem n op left right p s t q first kind adv second = rw first (
      ap
        (λ (k : TokenKind).
          compare_with u x (parse_expr u x n) n left s.current.span (comparison_op k) s)
        kind
      ∙ by_op op)
    where
      by_op :
          (op : Comparison)
          → compare_with u x
              (parse_expr u x n)
              n
              left
              s.current.span
              (comparison_op (op_token op))
              s
            ≡ parsed (binary_op left (op_of op) right s.current.span) q
      by_op equal = rw (adv, second)
      by_op different = rw (adv, second)
      by_op within = rw (adv, second)

  pub op_ends : (op : Comparison) → EndsOperand (op_token op)
  op_ends equal = (refl, refl)
  op_ends different = (refl, refl)
  op_ends within = (refl, refl)

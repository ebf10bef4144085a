-- ===== src/Hooks/Parser/RoundTrip.antt =====
-- Expressions of hook files that are written down are read back
-- (di-core/src/hooks/parser/parser.rs).
use di_rac.Prelude.{
  ℕ, zero, suc, ◌≤◌, ◌<◌, true, false, [], ◌∷◌, ◌≡◌, refl, sym, ap, ◌∙◌, arith, text_of, subst,
}
use di_rac.Hooks.Ast
use di_rac.Hooks.Ast.{
  BinOp, Expr, Exprs, nil, cons, bool, method_call, binary_op, list, member_access, Entries, end,
  dict,
}
use di_rac.Hooks.External.{External}
use di_rac.Hooks.Lexer.Next.{CharClasses}
use di_rac.Hooks.Lexer.Token
use di_rac.Hooks.Lexer.Token.{
  Chars, TokenKind, ident, true_, false_, and_, or_, not_, l_paren, r_paren, l_bracket, r_bracket,
  l_brace, r_brace, comma,
}
use di_rac.Hooks.Parser.Expr.{
  parse_expr, primary_at, parse_args, parse_entries, insert_entry, parse_named, parse_not_expr,
  and_rest, parse_and_expr, or_rest, parse_or_expr,
}
use di_rac.Hooks.Parser.Chains.{
  two-le-sizes, two-le-links, two-le-fields, and_chain-Ends, or_chain-Ends, compared_lem, op_ends,
}
use di_rac.Hooks.Parser.Fields.{
  GivesEntries, tree_fields-insert, fields_end, fields_over, one_field, field_separated,
}
use di_rac.Hooks.Parser.Levels.{Ends, EndsOperand, Gives}
use di_rac.Hooks.Parser.Operands.{
  Read, chosen, whole-Read, operand-Read, take_ident-Reads, two-le-size,
}
use di_rac.Hooks.Parser.Reads.{Reads, Reads-append, same_kind_of}
use di_rac.Hooks.Parser.State.{Parser, parsed, ◌>>=◌, ret}
use di_rac.Hooks.Parser.Steps.{
  GivesList, follow, links_no_paren, Closes, paren-Closes, bracket-Closes, others_end, over,
  argument, separated, and_more, or_more, member_more, method_more,
}
use di_rac.Hooks.Parser.Syntax.{
  Source, boolean, text, number, path, call, items, mapping, negated, compared, all_of, any_of,
  Sources, no_more, more, Fields, no_field, field, Links, stop, member, method, disjunction,
  conjunction, comparison, negation, op_token, op_of, fitted, written, written_list, written_others,
  written_fields, written_other_fields, size_fields, tree_fields, bare_entries, written_chain,
  written_links, tree, trees, tree_chain, tree_links, nowhere, bare, bare_list, size, sizes,
  size_links,
}

module _ (u : CharClasses) (x : External) where
  mutual
    unfolding written written_list written_others written_fields written_other_fields written_chain
        written_links tree trees tree_fields tree_chain tree_links bare bare_list bare_entries size
        sizes size_fields size_links primary_at parse_not_expr parse_and_expr parse_or_expr and_rest
        or_rest

    source-Read : (a : Source) → Read u x a
    source-Read (boolean true) n k p q h hk (r, kind, adv, same) ends =
        let e = bool true p.current.span in
        (e, chosen u x n true_ (ret e) p r kind adv refl ∙ rw same, refl)
    source-Read (boolean false) n k p q h hk (r, kind, adv, same) ends =
        let e = bool false p.current.span in
        (e, chosen u x n false_ (ret e) p r kind adv refl ∙ rw same, refl)
    source-Read (text s) n k p q h hk (r, kind, adv, same) ends =
        let e = Ast.string (text_of s) p.current.span in
        (e, chosen u x n (Token.string s) (ret e) p r kind adv refl ∙ rw same, refl)
    source-Read (number v) n k p q h hk (r, kind, adv, same) ends =
        let e = Ast.int v p.current.span in
        (e, chosen u x n (Token.int v) (ret e) p r kind adv refl ∙ rw same, refl)
    source-Read (path name links) n k p q h hk (r, kind, adv, rest) ends =
        let object = Ast.ident (text_of name) p.current.span in
        let (e, go, means) =
          links-Read links n n object r q (omega (arith, h)) (omega (arith, h)) rest ends in
        (
          e,
          chosen u x n (ident name) (parse_named u x (parse_expr u x n) n name p.current.span) p r
                kind adv refl
              ∙ rw (links_no_paren u x links r q rest ends) go,
          means,
        )
    source-Read (call name args) n k p q h hk (r, kind, adv, (s, paren, adv', rest)) ends =
        let object = Ast.ident (text_of name) p.current.span in
        let (o, given, shut) = Reads-append u (written_list args) (r_paren ∷ []) s q rest in
        let (es, go, means) =
          list-Read args r_paren (paren-Closes u x) n n s o q (omega (arith, h)) (omega (arith, h))
            given shut in
        (
          method_call object "__call__" es p.current.span,
          chosen u x n (ident name) (parse_named u x (parse_expr u x n) n name p.current.span) p r
                kind adv refl
              ∙ rw (same_kind_of r l_paren l_paren paren refl, adv', go),
          ap (λ (es : Exprs). method_call (bare object) "__call__" es nowhere) means,
        )
    source-Read (items ss) n k p q h hk (r, kind, adv, rest) ends =
        let (o, given, shut) = Reads-append u (written_list ss) (r_bracket ∷ []) r q rest in
        let (es, go, means) =
          list-Read ss r_bracket (bracket-Closes u x) n n r o q (omega (arith, h))
            (omega (arith, h)) given shut in
        (
          list es p.current.span,
          chosen u x n l_bracket
                (do
                  es ← parse_args u x (parse_expr u x n) r_bracket n
                  ret (list es p.current.span))
                p r kind adv refl
              ∙ rw go,
          ap (λ (es : Exprs). list es nowhere) means,
        )
    source-Read (mapping fs) n k p q h hk (r, kind, adv, rest) ends =
        let (o, given, shut) = Reads-append u (written_fields fs) (r_brace ∷ []) r q rest in
        let (es, go, means) =
          fields-Read fs n n end r o q (omega (arith, h)) (omega (arith, h)) given shut in
        (
          dict es p.current.span,
          chosen u x n l_brace
                (do es ← parse_entries u x (parse_expr u x n) n end; ret (dict es p.current.span)) p
                r kind adv refl
              ∙ rw go,
          ap (λ (es : Entries). dict es nowhere) means,
        )
    source-Read (negated a) n zero p q h hk reads ends = absurd (omega (arith, hk))
    source-Read (negated a) n (suc k) p q h hk (r, kind, adv, rest) ends =
        let (e, go, means) =
          operand-Read u x a (source-Read a) negation n k r q (omega (arith, h)) (omega (arith, hk))
            rest ends in
        (
          binary_op (bool false p.current.span) BinOp.eq e p.current.span,
          rw (same_kind_of p not_ not_ kind refl, adv, go),
          ap (λ (e : Expr). binary_op (bool false nowhere) BinOp.eq e nowhere) means,
        )
    source-Read (compared a op b) n k p q h hk reads ends =
        let (s, first, (t, kind, adv, second)) =
          Reads-append u (fitted negation a (written a))
            (op_token op ∷ fitted negation b (written b)) p q reads in
        let (left, go, means) =
          operand-Read u x a (source-Read a) negation n n p s (omega (arith, h)) (omega (arith, h))
            first (subst EndsOperand (sym kind) (op_ends u x op)) in
        let (right, go', means') =
          operand-Read u x b (source-Read b) negation n n t q (omega (arith, h)) (omega (arith, h))
            second ends.1 in
        (
          binary_op left (op_of op) right s.current.span,
          compared_lem u x n op left right p s t q go kind adv go',
          λ i. binary_op (means i) (op_of op) (means' i) nowhere,
        )
    source-Read (all_of a cs) n k p q h hk reads ends =
        let (s, first, others) =
          Reads-append u (fitted comparison a (written a)) (written_chain comparison and_ cs) p q
            reads in
        let (left, go, means) =
          operand-Read u x a (source-Read a) comparison n n p s (omega (arith, h))
            (omega (arith, h)) first (and_chain-Ends u x cs s q others ends) in
        let (e, go', means') =
          and-Read cs n n left s q (omega (arith, h)) (omega (arith, h)) others ends in
        (e, rw (go, go'), means' ∙ ap (λ (l : Expr). tree_chain BinOp.and l cs) means)
    source-Read (any_of a cs) n k p q h hk reads ends =
        let (s, first, others) =
          Reads-append u (fitted conjunction a (written a)) (written_chain conjunction or_ cs) p q
            reads in
        let (left, go, means) =
          operand-Read u x a (source-Read a) conjunction n n p s (omega (arith, h))
            (omega (arith, h)) first (or_chain-Ends u x cs s q others ends) in
        let (e, go', means') =
          or-Read cs n n left s q (omega (arith, h)) (omega (arith, h)) others ends in
        (e, rw (go, go'), means' ∙ ap (λ (l : Expr). tree_chain BinOp.or l cs) means)

    list-Read :
        (ss : Sources) (close : TokenKind)
        → Closes u x close
        → (n rounds : ℕ) (p o q : Parser) → sizes ss ≤ n
        → sizes ss ≤ rounds
        → Reads u p (written_list ss) o
        → Reads u o (close ∷ []) q
        → GivesList (parse_args u x (parse_expr u x n) close rounds p) (trees ss) q
    list-Read ss close c n zero p o q h k reads shut = absurd (omega (arith, k, two-le-sizes ss))
    list-Read no_more close c n (suc rounds) p o q h k reads shut = (
      nil,
      over u x n rounds close p q
          (subst (λ (r : Parser). Reads u r (close ∷ []) q) (sym reads) shut),
      refl,
    )
    list-Read (more a cs) close c n (suc rounds) p o q h k reads shut =
        let (s, first, rest) = Reads-append u (written a) (written_others cs) p o reads in
        let (e, go, means) =
          whole-Read u x a (source-Read a) n p s (omega (arith, h)) first
            (others_end u x cs close c s o rest shut.1) in
        let (es, go', means') =
          others-Read cs close c n rounds s o q (omega (arith, h)) (omega (arith, k)) rest shut in
        (
          cons e es,
          argument u x n rounds close c a p s e es q first go go',
          λ i. cons (means i) (means' i),
        )

    others-Read :
        (ss : Sources) (close : TokenKind)
        → Closes u x close
        → (n rounds : ℕ) (p o q : Parser) → sizes ss ≤ n
        → sizes ss ≤ suc rounds
        → Reads u p (written_others ss) o
        → Reads u o (close ∷ []) q
        → GivesList (parse_args u x (parse_expr u x n) close rounds p) (trees ss) q
    others-Read ss close c n zero p o q h k reads shut = absurd (omega (arith, k, two-le-sizes ss))
    others-Read no_more close c n (suc rounds) p o q h k reads shut = (
      nil,
      over u x n rounds close p q
          (subst (λ (r : Parser). Reads u r (close ∷ []) q) (sym reads) shut),
      refl,
    )
    others-Read (more a cs) close c n (suc zero) p o q h k reads shut =
        absurd (omega (arith, k, two-le-size a))
    others-Read (more a cs) close c n (suc (suc rounds)) p o q h k (r, kind, adv, reads) shut =
        let (s, first, rest) = Reads-append u (written a) (written_others cs) r o reads in
        let (e, go, means) =
          whole-Read u x a (source-Read a) n r s (omega (arith, h)) first
            (others_end u x cs close c s o rest shut.1) in
        let (es, go', means') =
          others-Read cs close c n rounds s o q (omega (arith, h)) (omega (arith, k)) rest shut in
        (
          cons e es,
          separated u x n (suc rounds) close c p r (cons e es) q kind adv
              (argument u x n rounds close c a r s e es q first go go'),
          λ i. cons (means i) (means' i),
        )

    fields-Read :
        (fs : Fields) (n rounds : ℕ) (found : Entries) (p o q : Parser)
        → size_fields fs ≤ n
        → size_fields fs ≤ rounds
        → Reads u p (written_fields fs) o
        → Reads u o (r_brace ∷ []) q
        → GivesEntries
            (parse_entries u x (parse_expr u x n) rounds found p)
            (tree_fields (bare_entries found) fs)
            q
    fields-Read fs n zero found p o q h k reads shut = absurd (omega (arith, k, two-le-fields fs))
    fields-Read no_field n (suc rounds) found p o q h k reads shut = (
      found,
      fields_over u x n rounds found p q
          (subst (λ (r : Parser). Reads u r (r_brace ∷ []) q) (sym reads) shut),
      refl,
    )
    fields-Read (field key a fs) n (suc rounds) found p o q h k
          (r, kind, adv, (s, kind', adv', reads)) shut =
        let (t, value, rest) = Reads-append u (written a) (written_other_fields fs) s o reads in
        let (e, go, means) =
          whole-Read u x a (source-Read a) n s t (omega (arith, h)) value
            (fields_end u x fs t o rest shut.1) in
        let (es, go', means') =
          other_fields-Read fs n rounds (insert_entry (text_of key) e found) t o q
            (omega (arith, h)) (omega (arith, k)) rest shut in
        (
          es,
          one_field u x n rounds found key p r s t e es q kind adv kind' adv' go go',
          means' ∙ tree_fields-insert fs (text_of key) e (tree a) found means,
        )

    other_fields-Read :
        (fs : Fields) (n rounds : ℕ) (found : Entries) (p o q : Parser)
        → size_fields fs ≤ n
        → size_fields fs ≤ suc rounds
        → Reads u p (written_other_fields fs) o
        → Reads u o (r_brace ∷ []) q
        → GivesEntries
            (parse_entries u x (parse_expr u x n) rounds found p)
            (tree_fields (bare_entries found) fs)
            q
    other_fields-Read fs n zero found p o q h k reads shut =
        absurd (omega (arith, k, two-le-fields fs))
    other_fields-Read no_field n (suc rounds) found p o q h k reads shut = (
      found,
      fields_over u x n rounds found p q
          (subst (λ (r : Parser). Reads u r (r_brace ∷ []) q) (sym reads) shut),
      refl,
    )
    other_fields-Read (field key a fs) n (suc zero) found p o q h k reads shut =
        absurd (omega (arith, k, two-le-size a))
    other_fields-Read (field key a fs) n (suc (suc rounds)) found p o q h k
          (v, comma_kind, comma_adv, (r, kind, adv, (s, kind', adv', reads))) shut =
        let (t, value, rest) = Reads-append u (written a) (written_other_fields fs) s o reads in
        let (e, go, means) =
          whole-Read u x a (source-Read a) n s t (omega (arith, h)) value
            (fields_end u x fs t o rest shut.1) in
        let (es, go', means') =
          other_fields-Read fs n rounds (insert_entry (text_of key) e found) t o q
            (omega (arith, h)) (omega (arith, k)) rest shut in
        (
          es,
          field_separated u x n (suc rounds) found p v es q comma_kind comma_adv
              (one_field u x n rounds found key v r s t e es q kind adv kind' adv' go go'),
          means' ∙ tree_fields-insert fs (text_of key) e (tree a) found means,
        )

    and-Read :
        (cs : Sources) (n rounds : ℕ) (left : Expr) (p q : Parser)
        → sizes cs ≤ n
        → sizes cs ≤ rounds
        → Reads u p (written_chain comparison and_ cs) q
        → Ends conjunction q.current.kind
        → Gives
            (and_rest u x (parse_expr u x n) n rounds left p)
            (tree_chain BinOp.and (bare left) cs)
            q
    and-Read cs n zero left p q h k reads ends = absurd (omega (arith, k, two-le-sizes cs))
    and-Read no_more n (suc rounds) left p q h k same ends = (left, rw same (rw (ends.0)), refl)
    and-Read (more a cs) n (suc rounds) left p q h k (r, kind, adv, reads) ends =
        let (s, first, others) =
          Reads-append u (fitted comparison a (written a)) (written_chain comparison and_ cs) r q
            reads in
        let (right, go, means) =
          operand-Read u x a (source-Read a) comparison n n r s (omega (arith, h))
            (omega (arith, h)) first (and_chain-Ends u x cs s q others ends) in
        let (e, go', means') =
          and-Read cs n rounds (binary_op left BinOp.and right p.current.span) s q
            (omega (arith, h)) (omega (arith, k)) others ends in
        (
          e,
          and_more u x n rounds left right e p r s q kind adv go go',
          means'
              ∙ ap
                  (λ (t : Expr).
                    tree_chain BinOp.and (binary_op (bare left) BinOp.and t nowhere) cs)
                  means,
        )

    or-Read :
        (cs : Sources) (n rounds : ℕ) (left : Expr) (p q : Parser)
        → sizes cs ≤ n
        → sizes cs ≤ rounds
        → Reads u p (written_chain conjunction or_ cs) q
        → Ends disjunction q.current.kind
        → Gives
            (or_rest u x (parse_expr u x n) n rounds left p)
            (tree_chain BinOp.or (bare left) cs)
            q
    or-Read cs n zero left p q h k reads ends = absurd (omega (arith, k, two-le-sizes cs))
    or-Read no_more n (suc rounds) left p q h k same ends = (left, rw same (rw (ends.0)), refl)
    or-Read (more a cs) n (suc rounds) left p q h k (r, kind, adv, reads) ends =
        let (s, first, others) =
          Reads-append u (fitted conjunction a (written a)) (written_chain conjunction or_ cs) r q
            reads in
        let (right, go, means) =
          operand-Read u x a (source-Read a) conjunction n n r s (omega (arith, h))
            (omega (arith, h)) first (or_chain-Ends u x cs s q others ends) in
        let (e, go', means') =
          or-Read cs n rounds (binary_op left BinOp.or right p.current.span) s q (omega (arith, h))
            (omega (arith, k)) others ends in
        (
          e,
          or_more u x n rounds left right e p r s q kind adv go go',
          means'
              ∙ ap (λ (t : Expr). tree_chain BinOp.or (binary_op (bare left) BinOp.or t nowhere) cs)
                  means,
        )

    links-Read :
        (links : Links) (n rounds : ℕ) (object : Expr) (p q : Parser)
        → size_links links ≤ n
        → size_links links ≤ rounds
        → Reads u p (written_links links) q
        → EndsOperand q.current.kind
        → Gives (follow u x n rounds object p) (tree_links (bare object) links) q
    links-Read links n zero object p q h k reads ends =
        absurd (omega (arith, k, two-le-links links))
    links-Read stop n (suc rounds) object p q h k same ends = (object, rw same (rw (ends.1)), refl)
    links-Read (member name links) n (suc rounds) object p q h k
          (r, kind, adv, (s, kind', adv', rest)) ends =
        let (e, go, means) =
          links-Read links n rounds (member_access object (text_of name) s.current.span) s q
            (omega (arith, h)) (omega (arith, k)) rest ends in
        (
          e,
          member_more u x n rounds object e name p r s q kind adv
              (take_ident-Reads u x "Expected method name after dot" name r s kind' adv')
              (links_no_paren u x links s q rest ends) go,
          means,
        )
    links-Read (method name args links) n (suc rounds) object p q h k
          (r, kind, adv, (s, kind', adv', (t, paren, adv'', reads))) ends =
        let (o, given, (v, shut, advs, rest)) =
          Reads-append u (written_list args) (r_paren ∷ written_links links) t q reads in
        let (es, go, means) =
          list-Read args r_paren (paren-Closes u x) n n t o v (omega (arith, h)) (omega (arith, h))
            given (v, shut, advs, refl) in
        let (e, go', means') =
          links-Read links n rounds (method_call object (text_of name) es v.current.span) v q
            (omega (arith, h)) (omega (arith, k)) rest ends in
        (
          e,
          method_more u x n rounds object e name es p r s t v q kind adv
              (take_ident-Reads u x "Expected method name after dot" name r s kind' adv') paren
              adv'' go go',
          means'
              ∙ ap
                  (λ (given : Exprs).
                    tree_links (method_call (bare object) (text_of name) given nowhere) links)
                  means,
        )

  -- An expression is read as the tree that it means, up to spans: from a parser at the tokens of any
  -- expression (of the values that a dict has for one key, the last counts), written with parentheses
  -- only where a looser level stands in a tighter one and with one comma between two arguments, items
  -- or entries, and then at a token that does not go on with it, `parse_expr` returns that tree and
  -- stands at that token, whatever the rounds above the expression's size.
  pub parse_expr-written :
      (a : Source) (n : ℕ) (p q : Parser)
      → size a < n
      → Reads u p (written a) q
      → Ends disjunction q.current.kind
      → (e : Expr) × (parse_expr u x n p ≡ parsed e q) × (bare e ≡ tree a)
  parse_expr-written a = whole-Read u x a (source-Read a)

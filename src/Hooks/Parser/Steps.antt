-- ===== src/Hooks/Parser/Steps.antt =====
-- The steps by which expressions are read (di-core/src/hooks/parser/parser.rs).
use di_rac.Prelude.{
  ℕ, suc, false, List, [], ◌∷◌, ◌≡◌, refl, sym, ap, ◌∙◌, text_of, subst, if◌then◌else◌,
}
use di_rac.Hooks.Ast.{BinOp, Expr, Exprs, nil, cons, method_call, binary_op, member_access}
use di_rac.Hooks.External.{External}
use di_rac.Hooks.Lexer.Next.{CharClasses}
use di_rac.Hooks.Lexer.Token.{TokenKind, and_, or_, l_paren, r_paren, r_bracket, comma, dot}
use di_rac.Hooks.Parser.Expr.{parse_expr, parse_args, parse_method_chain, and_rest, or_rest}
use di_rac.Hooks.Parser.Heads.{Starts, written-Head}
use di_rac.Hooks.Parser.Levels.{Ends, EndsOperand, parse_at}
use di_rac.Hooks.Parser.Reads.{Reads, same_kind_of, same_kind_refl}
use di_rac.Hooks.Parser.State.{Parser, Result, parsed, M, same_kind, advance, take_ident}
use di_rac.Hooks.Parser.Syntax.{
  Source, Sources, no_more, more, Links, stop, member, method, disjunction, conjunction, comparison,
  written, written_others, written_links, bare_list,
}

-- a list's result, up to spans
abbrev pub GivesList : Result Exprs → Exprs → Parser → Type 0
GivesList r meant q = (es : Exprs) × (r ≡ parsed es q) × (bare_list es ≡ meant)

module _ (u : CharClasses) (x : External) where
  abbrev pub follow : ℕ → ℕ → Expr → M Expr
  follow n rounds object q =
      let chain = parse_method_chain u x (parse_expr u x n) n rounds object q in
      if same_kind q.current.kind dot then chain else parsed object q

  -- the links do not start with a parenthesis, nor does what follows them
  pub links_no_paren :
      (links : Links) (p q : Parser)
      → Reads u p (written_links links) q
      → EndsOperand q.current.kind
      → same_kind p.current.kind l_paren ≡ false
  unfolding written_links
  links_no_paren stop p q same ends =
      ap (λ (r : Parser). same_kind r.current.kind l_paren) same ∙ ends.0
  links_no_paren (member name links) p q h ends = same_kind_of p dot l_paren h.1 refl
  links_no_paren (method name args links) p q h ends = same_kind_of p dot l_paren h.1 refl

  -- A closing token closes lists and ends expressions, and does not separate.
  pub record Closes (close : TokenKind) : Type 0 where
    pub ends : Ends disjunction close
    pub no_comma : same_kind comma close ≡ false
    pub starts : (k : TokenKind) → Starts k → same_kind k close ≡ false

  pub comma-Ends : Ends disjunction comma
  comma-Ends = (refl, refl, (refl, (refl, refl)))

  pub paren-Closes : Closes r_paren
  paren-Closes = record {
    ends = (refl, refl, (refl, (refl, refl)));
    no_comma = refl;
    starts = λ k s. s.0;
  }

  pub bracket-Closes : Closes r_bracket
  bracket-Closes = record {
    ends = (refl, refl, (refl, (refl, refl)));
    no_comma = refl;
    starts = λ k s. s.1;
  }

  -- the first token of an argument
  pub first-Starts :
      (a : Source) (p q : Parser)
      → Reads u p (written a) q
      → (k : TokenKind) × (p.current.kind ≡ k) × Starts k
  first-Starts a p q h =
      let head = written-Head a in
      let (r, kind, adv, rest) = subst (λ ks. Reads u p ks q) head.splits h in
      (head.first, kind, head.starts)

  -- What comes after an argument ends it.
  pub others_end :
      (cs : Sources) (close : TokenKind)
      → Closes close
      → (p q : Parser) → Reads u p (written_others cs) q
      → q.current.kind ≡ close
      → Ends disjunction p.current.kind
  unfolding written_others
  others_end no_more close c p q same kind =
      subst (λ (r : Parser). Ends disjunction r.current.kind) (sym same)
        (subst (Ends disjunction) (sym kind) c.ends)
  others_end (more a cs) close c p q h kind = subst (Ends disjunction) (sym h.1) comma-Ends

  pub over :
      (n rounds : ℕ) (close : TokenKind) (p q : Parser)
      → Reads u p (close ∷ []) q
      → parse_args u x (parse_expr u x n) close (suc rounds) p ≡ parsed nil q
  unfolding parse_args
  over n rounds close p q (r, kind, adv, same) =
      rw (same_kind_of p close close kind (same_kind_refl close), adv, same)

  -- one argument, and then the others
  pub argument :
      (n rounds : ℕ) (close : TokenKind)
      → Closes close
      → (a : Source) (p r : Parser) (e : Expr) (es : Exprs) (q : Parser) → Reads u p (written a) r
      → parse_expr u x n p ≡ parsed e r
      → parse_args u x (parse_expr u x n) close rounds r ≡ parsed es q
      → parse_args u x (parse_expr u x n) close (suc rounds) p ≡ parsed (cons e es) q
  unfolding parse_args
  argument n rounds close c a p r e es q reads first others =
      let (k, kind, starts) = first-Starts a p r reads in
      rw (
        same_kind_of p k close kind (c.starts k starts),
        same_kind_of p k comma kind (starts.2),
        first,
        others,
      )

  -- a separator, and what follows it
  pub separated :
      (n rounds : ℕ) (close : TokenKind)
      → Closes close
      → (p r : Parser) (es : Exprs) (q : Parser) → p.current.kind ≡ comma
      → advance u p ≡ parsed tt r
      → parse_args u x (parse_expr u x n) close rounds r ≡ parsed es q
      → parse_args u x (parse_expr u x n) close (suc rounds) p ≡ parsed es q
  unfolding parse_args
  separated n rounds close c p r es q kind adv rest =
      rw (
        same_kind_of p comma close kind c.no_comma,
        same_kind_of p comma comma kind refl,
        adv,
        rest,
      )

  -- one operand more of a chain of `and`
  pub and_more :
      (n rounds : ℕ) (left right e : Expr) (p r s q : Parser)
      → p.current.kind ≡ and_
      → advance u p ≡ parsed tt r
      → parse_at u x (parse_expr u x n) comparison n n r ≡ parsed right s
      → and_rest u x (parse_expr u x n) n rounds (binary_op left BinOp.and right p.current.span) s
        ≡ parsed e q
      → and_rest u x (parse_expr u x n) n (suc rounds) left p ≡ parsed e q
  unfolding and_rest
  and_more n rounds left right e p r s q kind adv one rest =
      rw (same_kind_of p and_ and_ kind refl, adv, one, rest)

  pub or_more :
      (n rounds : ℕ) (left right e : Expr) (p r s q : Parser)
      → p.current.kind ≡ or_
      → advance u p ≡ parsed tt r
      → parse_at u x (parse_expr u x n) conjunction n n r ≡ parsed right s
      → or_rest u x (parse_expr u x n) n rounds (binary_op left BinOp.or right p.current.span) s
        ≡ parsed e q
      → or_rest u x (parse_expr u x n) n (suc rounds) left p ≡ parsed e q
  unfolding or_rest
  or_more n rounds left right e p r s q kind adv one rest =
      rw (same_kind_of p or_ or_ kind refl, adv, one, rest)

  -- one member more of a path
  pub member_more :
      (n rounds : ℕ) (object e : Expr) (name : List ℕ) (p r s q : Parser)
      → p.current.kind ≡ dot
      → advance u p ≡ parsed tt r
      → take_ident u "Expected method name after dot" r ≡ parsed name s
      → same_kind s.current.kind l_paren ≡ false
      → follow n rounds (member_access object (text_of name) s.current.span) s ≡ parsed e q
      → follow n (suc rounds) object p ≡ parsed e q
  unfolding parse_method_chain
  member_more n rounds object e name p r s q kind adv took plain rest =
      rw (same_kind_of p dot dot kind refl, adv, took, plain) rest

  -- one method call more
  pub method_more :
      (n rounds : ℕ) (object e : Expr) (name : List ℕ) (args : Exprs) (p r s t v q : Parser)
      → p.current.kind ≡ dot
      → advance u p ≡ parsed tt r
      → take_ident u "Expected method name after dot" r ≡ parsed name s
      → s.current.kind ≡ l_paren
      → advance u s ≡ parsed tt t
      → parse_args u x (parse_expr u x n) r_paren n t ≡ parsed args v
      → follow n rounds (method_call object (text_of name) args v.current.span) v ≡ parsed e q
      → follow n (suc rounds) object p ≡ parsed e q
  unfolding parse_method_chain
  method_more n rounds object e name args p r s t v q kind adv took paren adv' given rest =
      rw
        (
          same_kind_of p dot dot kind refl,
          adv,
          took,
          same_kind_of s l_paren l_paren paren refl,
          adv',
          given,
        )
        rest

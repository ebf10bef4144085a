-- ===== src/Hooks/Parser/Reads.antt =====
-- The tokens that a parser (di-core/src/hooks/parser/parser.rs) goes over.
use di_rac.Prelude.{Bool, true, List, [], ◌∷◌, ◌++◌, ◌≡◌, refl, ap, ◌∙◌, ==_iff}
use di_rac.Hooks.External.{External}
use di_rac.Hooks.Lexer.Next.{CharClasses}
use di_rac.Hooks.Lexer.Token.{TokenKind}
use di_rac.Hooks.Parser.State.{Parser, parsed, advance, expect, same_kind, discriminant}

-- tests on a kind that is known
pub same_kind_of :
    (p : Parser) (k l : TokenKind) {b : Bool}
    → p.current.kind ≡ k
    → same_kind k l ≡ b
    → same_kind p.current.kind l ≡ b
same_kind_of p k l kind e = ap (λ (j : TokenKind). same_kind j l) kind ∙ e

pub same_kind_refl : (k : TokenKind) → same_kind k k ≡ true
same_kind_refl k = (==_iff (discriminant k) (discriminant k)).1 refl

module _ (u : CharClasses) where
  -- `p` stands at the tokens of the list, and after them at what `q` stands at.
  abbrev pub Reads : Parser → List TokenKind → Parser → Type 0
  Reads p [] q = p ≡ q
  Reads p (k ∷ ks) q =
      (r : Parser) × (p.current.kind ≡ k) × (advance u p ≡ parsed tt r) × Reads r ks q

  pub Reads-append :
      (ks ls : List TokenKind) (p q : Parser)
      → Reads p (ks ++ ls) q
      → (r : Parser) × Reads p ks r × Reads r ls q
  Reads-append [] ls p q h = (p, refl, h)
  Reads-append (k ∷ ks) ls p q (r, kind, adv, rest) =
      let (s, left, right) = Reads-append ks ls r q rest in (s, (r, kind, adv, left), right)

  pub expect-Reads :
      (x : External) (k : TokenKind) (p q : Parser)
      → p.current.kind ≡ k
      → advance u p ≡ parsed tt q
      → expect u x k p ≡ parsed tt q
  unfolding expect
  expect-Reads x k p q kind adv = rw (same_kind_of p k k kind (same_kind_refl k)) adv

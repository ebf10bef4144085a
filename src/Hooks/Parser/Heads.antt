-- ===== src/Hooks/Parser/Heads.antt =====
-- The first token of an expression as it is written (for di-core/src/hooks/parser/parser.rs).
use di_rac.Prelude.{true, false, List, [], ◌∷◌, ◌++◌, ◌≡◌, refl, ap, leb, inl, inr, Bool-cases}
use di_rac.Hooks.Lexer.Token
use di_rac.Hooks.Lexer.Token.{
  TokenKind, ident, true_, false_, not_, l_paren, l_bracket, l_brace, r_paren, r_bracket, comma,
  if_, colon,
}
use di_rac.Hooks.Parser.Levels.{Opens}
use di_rac.Hooks.Parser.State.{same_kind}
use di_rac.Hooks.Parser.Syntax.{
  Source, boolean, text, number, path, call, items, mapping, negated, compared, all_of, any_of,
  Level, primary, negation, comparison, conjunction, rank, level, fitted, written,
}

-- `k` neither ends nor separates a list, and begins no statement or block
abbrev pub Starts : TokenKind → Type 0
Starts k =
    (same_kind k r_paren ≡ false)
    × (same_kind k r_bracket ≡ false)
    × (same_kind k comma ≡ false)
    × (same_kind k if_ ≡ false)
    × (same_kind k colon ≡ false)

pub record Head (l : Level) (ks : List TokenKind) : Type 0 where
  pub first : TokenKind
  pub others : List TokenKind
  pub splits : ks ≡ first ∷ others
  pub starts : Starts first
  pub opens : Opens l first

abbrev paren_head : (l : Level) → Opens l l_paren
paren_head primary = refl
paren_head negation = tt
paren_head _ = tt

-- what follows a head
Head-append : (m : Level) (ks ls : List TokenKind) → Opens m l_paren → Head m ks → Head m (ks ++ ls)
Head-append m ks ls o h = record {
  first = h.first;
  others = h.others ++ ls;
  splits = ap (λ (js : List TokenKind). js ++ ls) h.splits;
  starts = h.starts;
  opens = h.opens;
}

-- At a level of its own an operand starts as it does, or with a parenthesis.
operand-Head :
    (l m : Level) (a : Source)
    → ((k : TokenKind) → Opens m k)
    → Head (level a) (written a)
    → Head m (fitted l a (written a))
operand-Head l m a all h = elim (Bool-cases (leb (rank l) (rank (level a)))) [
  | inl fits ↦ rw fits (record {
    first = h.first;
    others = h.others;
    splits = h.splits;
    starts = h.starts;
    opens = all h.first;
  })
  | inr other ↦ rw other (record {
    first = l_paren;
    others = written a ++ r_paren ∷ [];
    splits = refl;
    starts = (refl, refl, refl, refl, refl);
    opens = all l_paren;
  })
]

alone : (l : Level) (k : TokenKind) (ks : List TokenKind) → Starts k → Opens l k → Head l (k ∷ ks)
alone l k ks s o = record { first = k; others = ks; splits = refl; starts = s; opens = o }

pub written-Head : (a : Source) → Head (level a) (written a)
unfolding written
written-Head (boolean true) = alone primary true_ [] (refl, refl, refl, refl, refl) refl
written-Head (boolean false) = alone primary false_ [] (refl, refl, refl, refl, refl) refl
written-Head (text s) = alone primary (Token.string s) [] (refl, refl, refl, refl, refl) refl
written-Head (number n) = alone primary (Token.int n) [] (refl, refl, refl, refl, refl) refl
written-Head (path name links) = alone primary (ident name) _ (refl, refl, refl, refl, refl) refl
written-Head (call name args) = alone primary (ident name) _ (refl, refl, refl, refl, refl) refl
written-Head (items ss) = alone primary l_bracket _ (refl, refl, refl, refl, refl) refl
written-Head (mapping fs) = alone primary l_brace _ (refl, refl, refl, refl, refl) refl
written-Head (negated a) = alone negation not_ _ (refl, refl, refl, refl, refl) tt
written-Head (compared a op b) =
    Head-append comparison _ _ tt (operand-Head negation comparison a (λ k. tt) (written-Head a))
written-Head (all_of a cs) =
    Head-append conjunction _ _ tt
      (operand-Head comparison conjunction a (λ k. tt) (written-Head a))
written-Head (any_of a cs) =
    Head-append Level.disjunction _ _ tt
      (operand-Head conjunction Level.disjunction a (λ k. tt) (written-Head a))

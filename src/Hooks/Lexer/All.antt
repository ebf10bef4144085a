-- ===== src/Hooks/Lexer/All.antt =====
-- All tokens of a source, one call of `next_token` (di-core/src/hooks/parser/lexer.rs) after another,
-- as the parser asks for them.
use di_rac.Prelude.{
  ℕ, zero, suc, ◌+◌, ◌*◌, ◌<◌, Bool, true, false, List, [], ◌∷◌, Option, none, some, ◌≡◌, ◌≢◌, refl,
  sym, ◌∙◌, arith, inl, inr, length,
}
use di_rac.Hooks.Eval.Bounds.{Ensures}
use di_rac.Hooks.Lexer.Ends.{distance, StartsLine, Moves, next_token-Moves}
use di_rac.Hooks.Lexer.Indent.{Lexer}
use di_rac.Hooks.Lexer.Next.{CharClasses, new_lexer, next_token}
use di_rac.Hooks.Lexer.Token.{Chars, Token, TokenKind, eof}

false-ne-true : false ≢ true
false-ne-true e = cc

-- how the calls end
pub data Outcome : Type 0 where
  finished : List Token → Outcome
  panicked out_of_fuel : Outcome

abbrev pub is_eof : TokenKind → Bool
is_eof eof = true
is_eof _ = false

abbrev pub and_then : Token → Outcome → Outcome
and_then t (finished ts) = finished (t ∷ ts)
and_then t panicked = panicked
and_then t out_of_fuel = out_of_fuel

abbrev pub or_end : Bool → Token → Outcome → Outcome
or_end true t rest = finished (t ∷ [])
or_end false t rest = and_then t rest

-- on what a call gave, and what follows
abbrev pub resume : Option (Token × Lexer) → (Lexer → Outcome) → Outcome
resume none follow = panicked
resume (some (t, m)) follow = or_end (is_eof t.kind) t (follow m)

and_then-ne : (t : Token) (o : Outcome) → o ≢ out_of_fuel → and_then t o ≢ out_of_fuel
and_then-ne t (finished ts) h e = cc
and_then-ne t panicked h e = cc
and_then-ne t out_of_fuel h e = h refl

or_end-ne :
    (b : Bool) (t : Token) (o : Outcome)
    → (b ≡ false → o ≢ out_of_fuel)
    → or_end b t o ≢ out_of_fuel
or_end-ne true t o h e = cc
or_end-ne false t o h e = and_then-ne t o (h refl) e

eof-end : (k : TokenKind) → k ≡ eof → is_eof k ≡ true
eof-end k e = rw e refl

resume-ne :
    (lx : Lexer) (r : Option (Token × Lexer)) (follow : Lexer → Outcome)
    → Ensures (Moves lx) r
    → ((m : Lexer) → StartsLine m → distance m < distance lx → follow m ≢ out_of_fuel)
    → resume r follow ≢ out_of_fuel
resume-ne lx none follow h k e = cc
resume-ne lx (some (t, m)) follow h k e =
    or_end-ne (is_eof t.kind) t (follow m)
      (λ more. elim (h.nearer) [
        | inl last ↦ absurd (false-ne-true (sym more ∙ eof-end t.kind last))
        | inr near ↦ k m h.starts near
      ])
      e

module _ (u : CharClasses) where
  unfoldable pub lex_all : ℕ → Lexer → Outcome
  lex_all zero lx = out_of_fuel
  lex_all (suc fuel) lx = resume (next_token u lx) (λ m. lex_all fuel m)

  lex_all-ends :
      (fuel : ℕ) (lx : Lexer) → StartsLine lx → distance lx < fuel → lex_all fuel lx ≢ out_of_fuel
  unfolding lex_all
  lex_all-ends zero lx s h = absurd (omega (arith, h))
  lex_all-ends (suc fuel) lx s h =
      resume-ne lx (next_token u lx) (λ m. lex_all fuel m) (next_token-Moves u lx s)
        (λ m t near. lex_all-ends fuel m t (omega (arith, near, h)))

  -- The calls for the tokens of a source of `n` characters end, at the token for its end or in a
  -- panic, within 2 * n + 3 calls.
  pub source-ends :
      (source : Chars) → lex_all (2 * length source + 3) (new_lexer source) ≢ out_of_fuel
  source-ends source =
      lex_all-ends (2 * length source + 3) (new_lexer source) (λ h. refl) (omega arith)

-- ===== src/Hooks/Lexer/Ends.antt =====
-- The lexer (di-core/src/hooks/parser/lexer.rs) comes to the end of every source, or panics.
use di_rac.Prelude.{
  ℕ, ◌+◌, ◌-◌, ◌*◌, ◌≤◌, ◌<◌, Bool, true, false, List, [], ◌∷◌, Option, none, some, ◌≡◌, ◌≢◌, refl,
  sym, ap, ◌∙◌, ◌⊎◌, inl, inr, arith, ltb, length, ◌==◌, if◌then◌else◌,
}
use di_rac.Hooks.Eval.Bounds.{Ensures, Ensures-bind}
use di_rac.Hooks.Lexer.Cursor.{Cursor, past, read_while, is_blank, is_ascii_digit, skip_ignored}
use di_rac.Hooks.Lexer.Fuel.{
  left, read_while-left, read_string-left, skip_ignored-left, past-left, read_blanks-col, weight,
  change_level-weight, effective_zero,
}
use di_rac.Hooks.Lexer.Indent.{Lexer, effective_indent, widened, change_level, handle_indent}
use di_rac.Hooks.Lexer.Next.{
  CharClasses, in_word, after_next, or_punctuation, punctuation, decorator, lex_other, lex_char,
  lex_at, lex_end, lex_from, lex_line, begin_line, pop_or, next_token,
}
use di_rac.Hooks.Lexer.Token.{Chars, Token, TokenKind, at_role, at_on, eof}

-- how far a lexer is from the end: every token but the last makes it smaller
abbrev pub distance : Lexer → ℕ
distance lx = 2 * left lx.at + weight lx + (if lx.bol then 1 else 0)

-- a line starts in its first column
abbrev pub StartsLine : Lexer → Type 0
StartsLine lx = lx.bol ≡ true → lx.at.col ≡ 1

false-ne-true : false ≢ true
false-ne-true e = cc

record Indented (width : ℕ) (lx m : Lexer) : Type 0 where
  at : m.at ≡ lx.at
  bol : m.bol ≡ lx.bol
  weighs : weight m ≤ weight lx + (if ltb 0 width then 2 else 0)

change_level-at :
    (e current : ℕ) (lx : Lexer)
    → ((change_level e current lx).at ≡ lx.at) × ((change_level e current lx).bol ≡ lx.bol)
unfolding change_level
change_level-at e current lx = ground arith

indent_step :
    (width current e : ℕ)
    → (width ≡ 0 → e ≡ 0)
    → (if ltb current e then 2 else 0) ≤ (if ltb 0 width then 2 else 0)
indent_step width current e h = ground (arith, h)

handle_indent-Indented :
    (width : ℕ) (lx : Lexer) → Ensures (Indented width lx) (handle_indent width lx)
unfolding handle_indent
handle_indent-Indented width lx =
    elim lx.indent_stack
      as (λ s. Ensures (Indented width lx) (elim s [
        | [] ↦ none
        | current ∷ below ↦ some (
            change_level (effective_indent (widened width lx).indent_width width current) current
              (widened width lx))
      ])) [
        | [] ↦ tt
        | current ∷ below ↦
            let w = widened width lx in
            let e = effective_indent w.indent_width width current in
            let (same_at, same_bol) = change_level-at e current w in
            let small = indent_step width current e (effective_zero w.indent_width width current) in
            record {
              at = same_at;
              bol = same_bol;
              weighs = omega (arith, change_level-weight e current w, small);
            }
      ]

module _ (u : CharClasses) where
  after_next-left : (at : Cursor) → left (after_next u at) ≤ left at
  after_next-left at = ground arith

  decorator-left :
      (letter : ℕ) (name : Chars) (kind : TokenKind) (at : Cursor)
      → left (decorator u letter name kind at).1 ≤ left at
  unfolding decorator
  decorator-left letter name kind at = read_while-left (in_word u) at.chars at

  decorator-left_next :
      (letter : ℕ) (name : Chars) (kind : TokenKind) (at : Cursor)
      → left (decorator u letter name kind (after_next u at)).1 ≤ left at
  decorator-left_next letter name kind at =
      omega (arith, decorator-left letter name kind (after_next u at), after_next-left at)

  lex_other-left : (c : ℕ) (at : Cursor) → left (lex_other u c at).2 ≤ left at
  unfolding lex_other
  lex_other-left c at = ground (
    arith,
    decorator-left_next b'r' (b'o' ∷ b'l' ∷ b'e' ∷ []) at_role at,
    decorator-left_next b'o' (b'n' ∷ []) at_on at,
    after_next-left at,
    read_while-left is_ascii_digit at.chars at,
    read_while-left (in_word u) at.chars at,
  )

  or_punctuation-left :
      (o : Option TokenKind) (at : Cursor) (other : TokenKind × Bool × Cursor)
      → left other.2 ≤ left at
      → left (or_punctuation u o at other).2 ≤ left at
  or_punctuation-left none at other h = h
  or_punctuation-left (some kind) at other h = omega arith

  lex_char-left : (c : ℕ) (at : Cursor) → left (lex_char u c at).2 ≤ left at
  unfolding lex_char
  lex_char-left c at = ground (
    arith,
    read_string-left c at.chars at,
    or_punctuation-left (punctuation c) at (lex_other u c at) (lex_other-left c at),
  )

  lex_char-newline : (c : ℕ) (at : Cursor) → (c == b'\n') ≡ true → (lex_char u c at).2 ≡ at
  unfolding lex_char
  lex_char-newline c at h = rw h refl

-- A token and the lexer after it: the end, or nearer to it.
pub record Moves (lx : Lexer) (r : Token × Lexer) : Type 0 where
  pub starts : StartsLine r.1
  pub nearer : (r.0.kind ≡ eof) ⊎ (distance r.1 < distance lx)

Ensures-if :
    (P : Token × Lexer → Type 0) (b : Bool) (x y : Option (Token × Lexer))
    → (b ≡ true → Ensures P x)
    → (b ≡ false → Ensures P y)
    → Ensures P (if b then x else y)
Ensures-if P true x y h k = h refl
Ensures-if P false x y h k = k refl

Ensures-pop_or :
    (P : Token × Lexer → Type 0) (ps : List Token) (lx : Lexer) (other : Option (Token × Lexer))
    → ((ps ≡ []) → Ensures P other)
    → ((t : Token) (ts : List Token) → ps ≡ t ∷ ts → P (t, record lx { pending = ts }))
    → Ensures P (pop_or ps lx other)
Ensures-pop_or P [] lx other h k = h refl
Ensures-pop_or P (t ∷ ts) lx other h k = k t ts refl

module _ (u : CharClasses) where
  popped_nearer :
      (lx m : Lexer) (t : Token) (ts : List Token)
      → m.pending ≡ t ∷ ts
      → weight m ≤ weight lx
      → left m.at ≡ left lx.at
      → m.bol ≡ lx.bol
      → distance (record m { pending = ts }) < distance lx
  popped_nearer lx m t ts e w a b = ground (arith, w, a, b, ap length e)

  lex_at-Moves :
      (c : ℕ) (rest : Chars) (lx : Lexer) → lx.at.chars ≡ c ∷ rest → Moves lx (lex_at u c rest lx)
  unfolding lex_at
  lex_at-Moves c rest lx e = record {
    starts = λ h. ap (λ a. a.col) (lex_char-newline u c (past c rest lx.at) h) ∙ rw h refl;
    nearer = inr (ground (arith, lex_char-left u c (past c rest lx.at), past-left c rest lx.at, e));
  }

  lex_end-Moves : (lx : Lexer) → StartsLine lx → Ensures (Moves lx) (lex_end u lx)
  unfolding lex_end
  lex_end-Moves lx s =
      Ensures-bind (Indented 0 lx) (Moves lx) (handle_indent 0 lx) _ (handle_indent-Indented 0 lx)
        (λ m k.
          Ensures-pop_or (Moves lx) m.pending m _
            (λ e. record {
              starts = λ h. ap (λ a. a.col) k.at ∙ s (sym k.bol ∙ h);
              nearer = inl refl;
            })
            (λ t ts e. record {
              starts = λ h. ap (λ a. a.col) k.at ∙ s (sym k.bol ∙ h);
              nearer =
                  inr (popped_nearer lx m t ts e (omega (arith, k.weighs)) (ap left k.at) k.bol);
            }))

  lex_from-Moves :
      (cs : Chars) (lx : Lexer)
      → lx.at.chars ≡ cs
      → StartsLine lx
      → Ensures (Moves lx) (lex_from u cs lx)
  unfolding lex_from
  lex_from-Moves [] lx e s = lex_end-Moves lx s
  lex_from-Moves (c ∷ rest) lx e s = lex_at-Moves c rest lx e

  Moves-mono : (a b : Lexer) (r : Token × Lexer) → distance a ≤ distance b → Moves a r → Moves b r
  Moves-mono a b r le h = record {
    starts = h.starts;
    nearer = elim (h.nearer) [ inl last ↦ inl last | inr near ↦ inr (omega (arith, near, le)) ];
  }

  Ensures-Moves-mono :
      (a b : Lexer) (o : Option (Token × Lexer))
      → distance a ≤ distance b
      → Ensures (Moves a) o
      → Ensures (Moves b) o
  Ensures-Moves-mono a b none le h = tt
  Ensures-Moves-mono a b (some r) le h = Moves-mono a b r le h

  lex_line-Moves : (lx : Lexer) → lx.bol ≡ false → Ensures (Moves lx) (lex_line u lx)
  unfolding lex_line
  lex_line-Moves lx off =
      let found = skip_ignored false lx.at.chars lx.at in
      Ensures-Moves-mono (record lx { at = found }) lx _
        (omega (arith, skip_ignored-left false lx.at.chars lx.at))
        (lex_from-Moves found.chars (record lx { at = found }) refl
          (λ h. absurd (false-ne-true (sym off ∙ h))))

  begin_line-Moves :
      (lx : Lexer) → lx.bol ≡ true → StartsLine lx → Ensures (Moves lx) (begin_line u lx)
  unfolding begin_line
  begin_line-Moves lx on s =
      let moved = record lx { at = (read_while is_blank lx.at.chars lx.at).1 } in
      let width = moved.at.col - 1 in
      let along = read_blanks-col lx.at.chars lx.at in
      let fewer = read_while-left is_blank lx.at.chars lx.at in
      Ensures-bind (Indented width moved) (Moves lx) (handle_indent width moved) _
        (handle_indent-Indented width moved)
        (λ m k.
          let near : 2 * left m.at + weight m ≤ 2 * left lx.at + weight lx + 1 =
            ground (arith, along, fewer, s on, k.weighs, ap left k.at) in
          Ensures-pop_or (Moves lx) m.pending (record m { bol = false }) _
            (λ e.
              Ensures-Moves-mono (record m { bol = false }) lx _ (ground (arith, near, on))
                (lex_line-Moves (record m { bol = false }) refl))
            (λ t ts e. record {
              starts = λ h. absurd (false-ne-true h);
              nearer = inr (ground (arith, near, on, ap length e));
            }))

  -- Every token but the last brings the lexer nearer to the end.
  pub next_token-Moves : (lx : Lexer) → StartsLine lx → Ensures (Moves lx) (next_token u lx)
  unfolding next_token
  next_token-Moves lx s =
      Ensures-pop_or (Moves lx) lx.pending lx _
        (λ e. Ensures-if (Moves lx) lx.bol _ _ (λ on. begin_line-Moves lx on s) (lex_line-Moves lx))
        (λ t ts e. record {
          starts = s;
          nearer = inr (popped_nearer lx lx t ts e (omega arith) refl refl);
        })

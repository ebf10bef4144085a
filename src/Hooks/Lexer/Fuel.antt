-- ===== src/Hooks/Lexer/Fuel.antt =====
-- The lexer (di-core/src/hooks/parser/lexer.rs) comes to the end of every source, or panics.
use di_rac.Prelude.{
  ℕ, ◌+◌, ◌≤◌, Bool, true, false, List, [], ◌∷◌, ◌≡◌, arith, ltb, length, if◌then◌else◌,
}
use di_rac.Hooks.Lexer.Cursor.{Cursor, past, read_while, is_blank, read_string, skip_ignored}
use di_rac.Hooks.Lexer.Indent.{Lexer, here, pop_to, effective_indent, change_level}
use di_rac.Hooks.Lexer.Token.{Chars, Token, dedent}

-- how many characters are left
abbrev pub left : Cursor → ℕ
left at = length at.chars

pub read_while-left :
    (p : ℕ → Bool) (cs : Chars) (at : Cursor) → left (read_while p cs at).1 ≤ length cs
unfolding read_while
read_while-left p [] at = omega arith
read_while-left p (c ∷ cs) at = ground (arith, read_while-left p cs (past c cs at))

pub read_string-left :
    (quote : ℕ) (cs : Chars) (at : Cursor) → left (read_string quote cs at).2 ≤ length cs
unfolding read_string
read_string-left quote [] at = omega arith
read_string-left quote (c ∷ []) at = ground arith
read_string-left quote (c ∷ d ∷ cs) at =
    let one = past c (d ∷ cs) at in
    ground (arith, read_string-left quote (d ∷ cs) one, read_string-left quote cs (past d cs one))

pub skip_ignored-left :
    (comment : Bool) (cs : Chars) (at : Cursor) → left (skip_ignored comment cs at) ≤ length cs
unfolding skip_ignored
skip_ignored-left comment [] at = ground arith
skip_ignored-left true (c ∷ cs) at = ground (arith, skip_ignored-left true cs (past c cs at))
skip_ignored-left false (c ∷ cs) at =
    ground
      (arith, skip_ignored-left true cs (past c cs at), skip_ignored-left false cs (past c cs at))

pub past-left : (c : ℕ) (cs : Chars) (at : Cursor) → left (past c cs at) ≡ length cs
past-left c cs at = ground arith

-- Blanks are read along the line.
pub read_blanks-col :
    (cs : Chars) (at : Cursor)
    → (read_while is_blank cs at).1.col + left (read_while is_blank cs at).1 ≡ at.col + length cs
unfolding read_while
read_blanks-col [] at = omega arith
read_blanks-col (c ∷ cs) at = ground (arith, read_blanks-col cs (past c cs at))

pop_to-weight :
    (n : ℕ) (lx : Lexer) (stack : List ℕ) (out : List Token)
    → length (pop_to n lx stack out).0 + length (pop_to n lx stack out).1
      ≡ length stack + length out
unfolding pop_to
pop_to-weight n lx [] out = omega arith
pop_to-weight n lx (m ∷ ms) out = ground (arith, pop_to-weight n lx ms (here dedent lx ∷ out))

-- the levels and the tokens that wait
abbrev pub weight : Lexer → ℕ
weight lx = length lx.indent_stack + length lx.pending

pub change_level-weight :
    (e current : ℕ) (lx : Lexer)
    → weight (change_level e current lx) ≤ weight lx + (if ltb current e then 2 else 0)
unfolding change_level
change_level-weight e current lx = ground (arith, pop_to-weight e lx lx.indent_stack lx.pending)

pub effective_zero : (base width current : ℕ) → width ≡ 0 → effective_indent base width current ≡ 0
unfolding effective_indent
effective_zero base width current h = ground arith

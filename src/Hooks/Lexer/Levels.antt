-- ===== src/Hooks/Lexer/Levels.antt =====
-- The stack of indentation levels (di-core/src/hooks/parser/lexer.rs).
use di_rac.Prelude.{
  ℕ, ◌<◌, Bool, true, false, ◌||◌, List, [], ◌∷◌, none, some, ◌≡◌, ◌≢◌, refl, ◌∙◌, inl, inr,
  Bool-cases, arith, ltb, ltb→lt, ◌==◌, ==_iff, if◌then◌else◌, any, first,
}
use di_rac.Hooks.Lexer.Indent.{
  Lexer, here, pop_to, effective_indent, widened, change_level, handle_indent,
}
use di_rac.Hooks.Lexer.Token.{Token, dedent}

false-ne-true : false ≢ true
false-ne-true e = cc

-- the levels fall from the top to 0
abbrev pub IsNested : List ℕ → Type 0
IsNested [] = ⊥
IsNested (n ∷ []) = n ≡ 0
IsNested (n ∷ m ∷ ns) = (m < n) × IsNested (m ∷ ns)

abbrev pub has_level : ℕ → List ℕ → Bool
has_level n ns = any (λ m. m == n) ns

-- the stack from the level down, or nothing where no level is this one
abbrev pub from_level : ℕ → List ℕ → List ℕ
from_level n [] = []
from_level n (m ∷ ms) = if m == n then m ∷ ms else from_level n ms

pop_to-from_level :
    (n : ℕ) (lx : Lexer) (stack : List ℕ) (out : List Token)
    → (pop_to n lx stack out).0 ≡ from_level n stack
unfolding pop_to
pop_to-from_level n lx [] out = refl
pop_to-from_level n lx (m ∷ ms) out =
    ground (arith, pop_to-from_level n lx ms (here dedent lx ∷ out))

first-from_level :
    (n : ℕ) (stack : List ℕ) → has_level n stack ≡ true → first (from_level n stack) ≡ some n
first-from_level n [] h = absurd (false-ne-true h)
first-from_level n (m ∷ ms) h = ground (arith, ==_iff m n, first-from_level n ms)

from_level-IsNested :
    (n : ℕ) (stack : List ℕ)
    → has_level n stack ≡ true
    → IsNested stack
    → IsNested (from_level n stack)
from_level-IsNested n [] h k = k
from_level-IsNested n (m ∷ []) h k = elim (Bool-cases (m == n)) [
  | inl same ↦ rw same k
  | inr other ↦ absurd (false-ne-true (rw other at h))
]
from_level-IsNested n (m ∷ l ∷ ms) h (lt, k) = elim (Bool-cases (m == n)) [
  | inl same ↦ rw same (lt, k)
  | inr other ↦ rw other (from_level-IsNested n (l ∷ ms) (rw other at h) k)
]

from_level_unknown : (n : ℕ) (stack : List ℕ) → has_level n stack ≡ false → from_level n stack ≡ []
from_level_unknown n [] h = refl
from_level_unknown n (m ∷ ms) h = ground (arith, from_level_unknown n ms)

-- the level that the indentation of a line stands for
abbrev pub level_of : ℕ → Lexer → ℕ → ℕ
level_of width lx current = effective_indent (widened width lx).indent_width width current

change_level-stack :
    (e current : ℕ) (below : List ℕ) (lx : Lexer)
    → lx.indent_stack ≡ current ∷ below
    → (change_level e current lx).indent_stack
      ≡ (if ltb current e then e ∷ lx.indent_stack else from_level e lx.indent_stack)
unfolding change_level
change_level-stack e current below lx top =
    ground (arith, pop_to-from_level e lx lx.indent_stack lx.pending, top, ==_iff current e)

handle_indent-cons :
    (width current : ℕ) (below : List ℕ) (lx : Lexer)
    → lx.indent_stack ≡ current ∷ below
    → handle_indent width lx
      ≡ some (change_level (level_of width lx current) current (widened width lx))
unfolding handle_indent
handle_indent-cons width current below lx top = rw top refl

next_levels :
    (e current : ℕ) (below : List ℕ)
    → IsNested (current ∷ below)
    → (ltb current e || has_level e (current ∷ below)) ≡ true
    → let stack = if ltb current e then e ∷ current ∷ below else from_level e (current ∷ below) in
      IsNested stack × (first stack ≡ some e)
next_levels e current below nested known = elim (Bool-cases (ltb current e)) [
  | inl above ↦ rw above ((ltb→lt _ _ above, nested), refl)
  | inr not_above ↦
      let found : has_level e (current ∷ below) ≡ true = rw not_above at known in
      rw not_above (
        from_level-IsNested e (current ∷ below) found nested,
        first-from_level e (current ∷ below) found,
      )
]

handle_indent-nil : (width : ℕ) (lx : Lexer) → lx.indent_stack ≡ [] → handle_indent width lx ≡ none
unfolding handle_indent
handle_indent-nil width lx empty = rw empty refl

-- Where the levels are nested and a line's level is above the current one or is one of them, the
-- levels are nested afterwards, and the line's is the current one.
pub handle_indent-IsNested :
    (width current : ℕ) (below : List ℕ) (lx : Lexer)
    → lx.indent_stack ≡ current ∷ below
    → IsNested (current ∷ below)
    → (ltb current (level_of width lx current)
        || has_level (level_of width lx current) (current ∷ below))
      ≡ true
    → (m : Lexer) × (handle_indent width lx ≡ some m)
      × IsNested m.indent_stack
      × (first m.indent_stack ≡ some (level_of width lx current))
handle_indent-IsNested width current below lx top nested known =
    let e = level_of width lx current in
    let stack = change_level-stack e current below (widened width lx) top in
    let next = next_levels e current below nested known in
    (
      _,
      handle_indent-cons width current below lx top,
      rw (stack, top) next.0,
      rw (stack, top) next.1,
    )

-- A line whose level is below the current one and is none of the levels empties the stack: whatever
-- the next line that is not blank, the lexer panics there.
pub unknown_level_panics :
    (width current : ℕ) (below : List ℕ) (lx : Lexer)
    → lx.indent_stack ≡ current ∷ below
    → ltb current (level_of width lx current) ≡ false
    → has_level (level_of width lx current) (current ∷ below) ≡ false
    → (m : Lexer) × (handle_indent width lx ≡ some m)
      × (m.indent_stack ≡ [])
      × ((later : ℕ) → handle_indent later m ≡ none)
unknown_level_panics width current below lx top lower unknown =
    let e = level_of width lx current in
    let stack = change_level-stack e current below (widened width lx) top in
    let empty : (change_level e current (widened width lx)).indent_stack ≡ [] =
      stack ∙ rw (lower, top) (from_level_unknown e (current ∷ below) unknown) in
    (
      _,
      handle_indent-cons width current below lx top,
      empty,
      (λ later. handle_indent-nil later (change_level e current (widened width lx)) empty),
    )

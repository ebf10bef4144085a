-- ===== src/Prelude/Split.antt =====
-- Texts of character codes: whitespace, splitting and joining, as Rust's `str` does them.
use Prim.Native.Nat.{ℕ}
use mathlib.Core.Bool.{Bool, ◌&&◌, ◌||◌}
use mathlib.Core.List.{List, [], ◌∷◌, ◌++◌}
use mathlib.Core.Option.{Option, none, some}
use di_rac.Prelude.Tests.{◌==◌, leb, if◌then◌else◌}
use di_rac.Prelude.Codes.{Chars}

-- Unicode's `White_Space`
abbrev pub is_whitespace : ℕ → Bool
is_whitespace c =
    (leb 9 c && leb c 13)
    || (c == 32
        || (c == 0x85
            || (c == 0xA0
                || (c == 0x1680
                    || ((leb 0x2000 c && leb c 0x200A)
                        || (c == 0x2028
                            || (c == 0x2029 || (c == 0x202F || (c == 0x205F || c == 0x3000)))))))))

unfoldable pub trim_start : Chars → Chars
trim_start [] = []
trim_start (c ∷ cs) = let rest = trim_start cs in if is_whitespace c then rest else c ∷ cs

-- `trim_end_matches` of characters that satisfy `p`
unfoldable pub trim_end_by : (ℕ → Bool) → Chars → Chars
trim_end_by p [] = []
trim_end_by p (c ∷ cs) = elim (trim_end_by p cs) [
  | [] ↦ if p c then [] else c ∷ []
  | d ∷ ds ↦ c ∷ d ∷ ds
]

-- a character in front of the first piece
abbrev pub prepend : ℕ → List Chars → List Chars
prepend c [] = (c ∷ []) ∷ []
prepend c (piece ∷ pieces) = (c ∷ piece) ∷ pieces

-- `split` on a character
unfoldable pub split_on : ℕ → Chars → List Chars
split_on d [] = [] ∷ []
split_on d (c ∷ cs) = let rest = split_on d cs in if c == d then [] ∷ rest else prepend c rest

-- `join` with a character
unfoldable pub join_with : ℕ → List Chars → Chars
join_with d [] = []
join_with d (piece ∷ []) = piece
join_with d (piece ∷ next ∷ pieces) = piece ++ d ∷ join_with d (next ∷ pieces)

-- what stands before and after the first `d`
unfoldable pub split_once : ℕ → Chars → Option (Chars × Chars)
split_once d [] = none
split_once d (c ∷ cs) =
    let rest : Option (Chars × Chars) = elim (split_once d cs) [
      | none ↦ none
      | some (before, after) ↦ some (c ∷ before, after)
    ] in
    if c == d then some ([], cs) else rest

-- `replace("\r\n", "\n")`
unfoldable pub unix_lines : Chars → Chars
unix_lines [] = []
unix_lines (c ∷ []) = c ∷ []
unix_lines (c ∷ d ∷ cs) =
    let pair = unix_lines cs in
    let single = unix_lines (d ∷ cs) in if c == 13 && d == 10 then 10 ∷ pair else c ∷ single

-- `join` with a text
abbrev pub join_texts : Chars → List Chars → Chars
join_texts sep [] = []
join_texts sep (piece ∷ []) = piece
join_texts sep (piece ∷ next ∷ pieces) = piece ++ (sep ++ join_texts sep (next ∷ pieces))

-- ===== src/Prelude/Text.antt =====
-- Text. The native `String` is a Rust `str`: `len` and slices count bytes of UTF-8.
use Prim.Native.Nat.{ℕ, zero, suc, ◌/◌, ◌%◌, min}
use Prim.Native.String.{String, len, ◌++◌}
use mathlib.Core.List.{List, [], ◌∷◌}
use mathlib.Core.Option.{Option}
use text.Mathlib.Text.{get?}
use di_rac.Prelude.Tests.{leb, unwrap_or, if◌then◌else◌}

-- the concatenation of `format!` arguments
abbrev pub concat : List String → String
concat [] = ""
concat (s ∷ r) = s ++ concat r

-- `[String]::join`
abbrev pub join : String → List String → String
join sep [] = ""
join sep (s ∷ []) = s
join sep (s ∷ t ∷ r) = s ++ (sep ++ join sep (t ∷ r))

-- `&s[..s.len().min(n)]`: `none` where the slice panics, inside a character.
abbrev pub slice_to : String → ℕ → Option String
slice_to s n = get? s 0 (min (len s) n)

-- the digit of a number below ten
digit : ℕ → String
digit d = unwrap_or (get? "0123456789" d (suc d)) ""

-- the digits but the last, then the last; `rounds` bounds the number of digits
digits_of : ℕ → ℕ → String
digits_of zero n = ""
digits_of (suc rounds) n =
    let front = digits_of rounds (n / 10) in (if leb 10 n then front else "") ++ digit (n % 10)

-- `usize::to_string`; a number has no more digits than its value has units, plus one.
unfoldable pub decimal : ℕ → String
unfolding digits_of digit
decimal n = digits_of (suc n) n

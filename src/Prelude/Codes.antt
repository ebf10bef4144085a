-- ===== src/Prelude/Codes.antt =====
-- Texts of character codes, and the native texts that they are.
use Prim.Native.Nat.{ℕ, ◌+◌, ◌/◌, ◌%◌, ◌<◌}
use mathlib.Core.Path.{◌≡◌, refl}
use mathlib.Core.Bool.{Bool, true, false, ◌&&◌}
use di_rac.Prelude.Tests.{◌==◌, ltb, if◌then◌else◌}
use Prim.Native.Char.{Char, char, code, nul, IsScalar}
use Prim.Native.String.{String}
use mathlib.Core.List.{List, [], ◌∷◌, ◌++◌}
use native.Mathlib.Decide.{dec_lt}
use native.Mathlib.Omega.{arith}

-- the characters of a text, by their codes
abbrev pub Chars : Type 0
Chars = List ℕ

below_surrogates : (n : ℕ) → n < 55296 → IsScalar n
below_surrogates n h = ground (arith, h)

above_surrogates : (n : ℕ) → 57343 < n → n < 1114112 → IsScalar n
above_surrogates n h k = ground (arith, h, k)

char_of : ℕ → Char
char_of n = elim (dec_lt n 55296) [
  | yes h ↦ char n (below_surrogates n h)
  | no _ ↦ elim (dec_lt 57343 n) [
    | yes h ↦ elim (dec_lt n 1114112) [ yes k ↦ char n (above_surrogates n h k) | no _ ↦ nul ]
    | no _ ↦ nul
  ]
]

-- the text of characters, which are Unicode scalar values
unfoldable pub text_of : List ℕ → String
unfolding char_of dec_lt below_surrogates above_surrogates
text_of [] = String.[]
text_of (c ∷ cs) = String.◌∷◌ (char_of c) (text_of cs)

-- the codes of a text
abbrev pub codes : String → List ℕ
codes String.[] = []
codes (String.◌∷◌ c s) = code c ∷ codes s

-- `==` of texts
unfoldable pub chars_eq : Chars → Chars → Bool
chars_eq [] [] = true
chars_eq (c ∷ cs) (d ∷ ds) = c == d && chars_eq cs ds
chars_eq _ _ = false

pub chars_eq→eq : (cs ds : Chars) → chars_eq cs ds ≡ true → cs ≡ ds
unfolding chars_eq
chars_eq→eq [] [] h = refl
chars_eq→eq [] (d ∷ ds) h = cc
chars_eq→eq (c ∷ cs) [] h = cc
chars_eq→eq (c ∷ cs) (d ∷ ds) h = ground (arith, h, chars_eq→eq cs ds)

pub chars_eq_refl : (cs : Chars) → chars_eq cs cs ≡ true
unfolding chars_eq
chars_eq_refl [] = refl
chars_eq_refl (c ∷ cs) = ground (arith, chars_eq_refl cs)

-- the UTF-8 of a character
abbrev pub utf8_char : ℕ → List ℕ
utf8_char c =
    if ltb c 0x80
    then c ∷ []
    else if ltb c 0x800
    then (0xC0 + c / 0x40) ∷ (0x80 + c % 0x40) ∷ []
    else if ltb c 0x10000
    then (0xE0 + c / 0x1000) ∷ (0x80 + (c / 0x40) % 0x40) ∷ (0x80 + c % 0x40) ∷ []
    else (0xF0 + c / 0x40000)
      ∷ (0x80 + (c / 0x1000) % 0x40)
      ∷ (0x80 + (c / 0x40) % 0x40)
      ∷ (0x80 + c % 0x40)
      ∷ []

-- `as_bytes`
unfoldable pub as_bytes : Chars → List ℕ
as_bytes [] = []
as_bytes (c ∷ cs) = utf8_char c ++ as_bytes cs

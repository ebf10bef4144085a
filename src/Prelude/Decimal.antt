-- ===== src/Prelude/Decimal.antt =====
-- A number in decimal, as character codes, and back.
use Prim.Native.Nat.{ℕ, zero, suc, ◌+◌, ◌-◌, ◌*◌, ◌/◌, ◌%◌, ◌<◌}
use mathlib.Core.Path.{◌≡◌, refl, ap}
use mathlib.Core.List.{[], ◌∷◌, ◌++◌}
use native.Mathlib.Omega.{arith}
use di_rac.Prelude.Tests.{ltb, if◌then◌else◌, Bool-cases}
use mathlib.Core.Logic.{inl, inr}
use di_rac.Prelude.Codes.{Chars}

-- `rounds` bounds the number of digits
unfoldable pub digits : ℕ → ℕ → Chars
digits zero n = []
digits (suc rounds) n =
    let front = digits rounds (n / 10) in
    if ltb n 10 then (48 + n) ∷ [] else front ++ (48 + n % 10) ∷ []

-- `usize::to_string`
unfoldable pub number : ℕ → Chars
unfolding digits
number n = digits (suc n) n

value : ℕ → Chars → ℕ
value acc [] = acc
value acc (c ∷ cs) = value (10 * acc + (c - 48)) cs

value-append :
    (acc : ℕ) (cs : Chars) (c : ℕ) → value acc (cs ++ c ∷ []) ≡ 10 * value acc cs + (c - 48)
unfolding value
value-append acc [] c = refl
value-append acc (d ∷ cs) c = value-append (10 * acc + (d - 48)) cs c

value-digits : (rounds n : ℕ) → n < rounds → value 0 (digits rounds n) ≡ n
unfolding value digits
value-digits zero n h = absurd (omega (arith, h))
value-digits (suc rounds) n h = elim (Bool-cases (ltb n 10)) [
  | inl small ↦ rw small (omega arith)
  | inr large ↦
      let front = value-digits rounds (n / 10) (ground (arith, h, large)) in
      rw large (omega (arith, value-append 0 (digits rounds (n / 10)) (48 + n % 10), front))
]

-- Different numbers are written differently.
pub number-injective : (m n : ℕ) → number m ≡ number n → m ≡ n
unfolding number
number-injective m n e = omega (
  arith,
  value-digits (suc m) m (omega arith),
  value-digits (suc n) n (omega arith),
  ap (value 0) e,
)

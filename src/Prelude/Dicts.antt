-- ===== src/Prelude/Dicts.antt =====
-- A `HashMap` with text keys as an association list. The program reads entries by key only.
use Prim.Native.String.{String}
use mathlib.Core.Path.{◌≡◌, refl}
use mathlib.Core.Bool.{Bool, false, not, ◌||◌}
use mathlib.Core.List.{List, [], ◌∷◌}
use mathlib.Core.Option.{Option, none, some}
use text.Mathlib.Text.{◌==◌}
use di_rac.Prelude.Tests.{if◌then◌else◌}
use di_rac.Prelude.Lists.{retain}
use native.Mathlib.Omega.{arith}
use text.Mathlib.TextEquality.{eq_iff}

abbrev pub Dict {ℓ} : Type ℓ → Type ℓ
Dict V = List (String × V)

module _ {ℓ} {V : Type ℓ} where
  unfoldable pub lookup : String → Dict V → Option V
  lookup k [] = none
  lookup k ((j, v) ∷ m) = if j == k then some v else lookup k m

  -- The new entry hides an older one with its key.
  unfoldable pub insert : String → V → Dict V → Dict V
  insert k v m = (k, v) ∷ m

  pub lookup-insert :
      (k j : String) (v : V) (m : Dict V)
      → lookup j (insert k v m) ≡ (if k == j then some v else lookup j m)
  unfolding lookup insert
  lookup-insert k j v m = refl

-- `HashSet<String>::contains`
abbrev pub contains : String → List String → Bool
contains k [] = false
contains k (j ∷ m) = j == k || contains k m

module _ {ℓ} {V : Type ℓ} where
  -- `HashMap::remove`
  unfoldable pub remove : String → Dict V → Dict V
  remove k m = retain (λ e. not (e.0 == k)) m

  pub lookup-remove :
      (k j : String) (m : Dict V) → lookup j (remove k m) ≡ (if k == j then none else lookup j m)
  unfolding lookup remove
  lookup-remove k j [] = ground arith
  lookup-remove k j (e ∷ m) =
      ground (arith, lookup-remove k j m, eq_iff k j, eq_iff e.0 k, eq_iff e.0 j)

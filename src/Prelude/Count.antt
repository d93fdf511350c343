-- ===== src/Prelude/Count.antt =====
-- How often a text stands in a list.
use Prim.Native.Nat.{ℕ, ◌+◌, ◌≤◌}
use Prim.Native.String.{String}
use mathlib.Core.Path.{◌≡◌, refl}
use mathlib.Core.Bool.{false}
use mathlib.Core.List.{List, [], ◌∷◌, ◌++◌}
use native.Mathlib.Omega.{arith}
use net_twin.Prelude.Tests.{◌==◌, string_eq, if◌then◌else◌, contains}

unfoldable pub count : String → List String → ℕ
count a [] = 0
count a (x ∷ xs) = (if a == x then 1 else 0) + count a xs

-- No text stands in the list twice.
unfoldable pub Distinct : List String → Type 0
Distinct xs = (a : String) → count a xs ≤ 1

pub count-append : (a : String) (xs ys : List String) → count a (xs ++ ys) ≡ count a xs + count a ys
unfolding count
count-append a [] ys = omega arith
count-append a (x ∷ xs) ys = omega (arith, count-append a xs ys)

-- What is counted is contained.
pub count-contains : (a : String) (xs : List String) → contains xs a ≡ false → count a xs ≡ 0
unfolding count
count-contains a [] h = refl
count-contains a (x ∷ xs) h = ground (arith, count-contains a xs)

-- ===== src/Prelude/Dict.antt =====
-- A `dict` or a directory with text keys: its entries, in the order in which the keys came.
use net_twin.Prelude.Tests.{◌==◌, string_eq, if◌then◌else◌, Bool-cases}
use Prim.Native.String.{String}
use mathlib.Core.Path.{◌≡◌}
use mathlib.Core.Logic.{◌⊎◌, inl, inr}
use mathlib.Core.Bool.{false}
use mathlib.Core.Option.{Option, none, some}
use mathlib.Core.List.{List, [], ◌∷◌}
use native.Mathlib.Omega.{arith}

module _ {ℓ} {A : Type ℓ} where
  unfoldable pub find : String → List (String × A) → Option A
  find k [] = none
  find k ((l, a) ∷ m) = let rest = find k m in if k == l then some a else rest

  unfoldable pub put : String → A → List (String × A) → List (String × A)
  put k a [] = (k, a) ∷ []
  put k a ((l, b) ∷ m) = let rest = put k a m in if k == l then (l, a) ∷ m else (l, b) ∷ rest

  pub find-put_same : (k : String) (a : A) (m : List (String × A)) → find k (put k a m) ≡ some a
  unfolding find put
  find-put_same k a [] = ground arith
  find-put_same k a ((l, b) ∷ m) = ground (arith, find-put_same k a m)

  pub find-put_other :
      (j k : String) (a : A) (m : List (String × A))
      → (j == k) ≡ false
      → find j (put k a m) ≡ find j m
  unfolding find put
  find-put_other j k a [] h = ground arith
  find-put_other j k a ((l, b) ∷ m) h = ground (arith, find-put_other j k a m)

  -- What stands under any key after a `put`.
  pub find-put :
      (j k : String) (a b : A) (m : List (String × A))
      → find j (put k a m) ≡ some b
      → ((j ≡ k) × (a ≡ b)) ⊎ (find j m ≡ some b)
  find-put j k a b m h = elim (Bool-cases (j == k)) [
    | inl same ↦ inl (ground (arith, same), ground (arith, same, find-put_same k a m))
    | inr other ↦ inr (ground (arith, other, find-put_other j k a m other))
  ]

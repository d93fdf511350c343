-- ===== src/Prelude/Sort.antt =====
-- `sorted`: a stable sort, under a test on pairs of elements. Texts are in the order of their code
-- points.
use Prim.Native.Char.{code}
use Prim.Native.String.{String, [], ◌∷◌}
use mathlib.Core.List.{List}
use mathlib.Core.Bool.{Bool, true, false, ◌&&◌, ◌||◌}
use mathlib.Core.Logic.{inl, inr}
use mathlib.Core.Path.{◌≡◌, refl}
use native.Mathlib.Omega.{arith}
use net_twin.Prelude.Tests.{Bool-cases, if◌then◌else◌, ◌==◌, contains, Eq, ltb}

-- `a <= b` on texts.
unfoldable pub le_text : String → String → Bool
le_text [] t = true
le_text (c ∷ s) [] = false
le_text (c ∷ s) (d ∷ t) =
    let rest = le_text s t in
    if ltb (code c) (code d) then true else if ltb (code d) (code c) then false else rest

pub le_text_total : (s t : String) → le_text s t ≡ false → le_text t s ≡ true
unfolding le_text
le_text_total [] t h = ground (arith, h)
le_text_total (c ∷ s) [] h = refl
le_text_total (c ∷ s) (d ∷ t) h = ground (arith, h, le_text_total s t)

pub le_text_refl : (s : String) → le_text s s ≡ true
unfolding le_text
le_text_refl [] = refl
le_text_refl (c ∷ s) = ground (arith, le_text_refl s)

module _ {A : Type 0} (le : A → A → Bool) where
  unfoldable pub insert : A → List A → List A
  insert x List.[] = List.◌∷◌ x List.[]
  insert x (List.◌∷◌ y ys) =
      let rest = insert x ys in if le x y then List.◌∷◌ x (List.◌∷◌ y ys) else List.◌∷◌ y rest

  unfoldable pub sort : List A → List A
  unfolding insert
  sort List.[] = List.[]
  sort (List.◌∷◌ x xs) = insert x (sort xs)

  unfoldable pub is_sorted : List A → Bool
  is_sorted List.[] = true
  is_sorted (List.◌∷◌ x List.[]) = true
  is_sorted (List.◌∷◌ x (List.◌∷◌ y ys)) = le x y && is_sorted (List.◌∷◌ y ys)

  insert-is_sorted :
      ((x y : A) → le x y ≡ false → le y x ≡ true)
      → (x : A) (ys : List A) → is_sorted ys ≡ true
      → is_sorted (insert x ys) ≡ true
  unfolding is_sorted insert
  insert-is_sorted total x List.[] h = refl
  insert-is_sorted total x (List.◌∷◌ y List.[]) h = elim (Bool-cases (le x y)) [
    | inl p ↦ ground (arith, p)
    | inr p ↦ ground (arith, p, total x y p)
  ]
  insert-is_sorted total x (List.◌∷◌ y (List.◌∷◌ z zs)) h = elim (Bool-cases (le x y)) [
    | inl p ↦ ground (arith, p)
    | inr p ↦ elim (Bool-cases (le x z)) [
      | inl q ↦ ground (arith, p, q, total x y p)
      | inr q ↦ ground (arith, p, q, total x y p, insert-is_sorted total x (List.◌∷◌ z zs))
    ]
  ]

  pub sort-is_sorted :
      ((x y : A) → le x y ≡ false → le y x ≡ true) → (xs : List A) → is_sorted (sort xs) ≡ true
  unfolding sort is_sorted
  sort-is_sorted total List.[] = refl
  sort-is_sorted total (List.◌∷◌ x xs) =
      insert-is_sorted total x (sort xs) (sort-is_sorted total xs)

  insert-sorted :
      (x : A) (ys : List A) → is_sorted (List.◌∷◌ x ys) ≡ true → insert x ys ≡ List.◌∷◌ x ys
  unfolding is_sorted insert
  insert-sorted x List.[] h = refl
  insert-sorted x (List.◌∷◌ y ys) h = ground (arith, h)

  tail-is_sorted : (x : A) (ys : List A) → is_sorted (List.◌∷◌ x ys) ≡ true → is_sorted ys ≡ true
  unfolding is_sorted
  tail-is_sorted x List.[] h = refl
  tail-is_sorted x (List.◌∷◌ y ys) h = ground (arith, h)

  -- What is in order stays as it is.
  pub sort_sorted : (xs : List A) → is_sorted xs ≡ true → sort xs ≡ xs
  unfolding sort
  sort_sorted List.[] h = refl
  sort_sorted (List.◌∷◌ x xs) h =
      ground (arith, sort_sorted xs (tail-is_sorted x xs h), insert-sorted x xs h)

module _ {A : Type 0} ⦃e : Eq A⦄ (le : A → A → Bool) where
  contains-insert :
      (x : A) (ys : List A) (a : A) → contains (insert le x ys) a ≡ (a == x || contains ys a)
  unfolding insert
  contains-insert x List.[] a = ground arith
  contains-insert x (List.◌∷◌ y ys) a = ground (arith, contains-insert x ys a)

  -- Sorting keeps what is in the list.
  pub contains-sort : (xs : List A) (a : A) → contains (sort le xs) a ≡ contains xs a
  unfolding sort
  contains-sort List.[] a = refl
  contains-sort (List.◌∷◌ x xs) a =
      ground (arith, contains-insert x (sort le xs) a, contains-sort xs a)

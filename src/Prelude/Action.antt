-- ===== src/Prelude/Action.antt =====
-- Methods that change state and may raise. What was changed before a raise stays changed.
use mathlib.Core.Path.{◌≡◌, refl}
use mathlib.Core.Logic.{◌⊎◌, inl, inr}
use native.Mathlib.Omega.{arith}
use net_twin.Prelude.Result.{Result, ok, err}

abbrev pub Action : Type 0 → Type 0 → Type 0 → Type 0
Action E S A = S → Result E A × S

module _ {E S : Type 0} where
  abbrev pub pure : {A : Type 0} → A → Action E S A
  pure a s = (ok a, s)

  abbrev pub raise : {A : Type 0} → E → Action E S A
  raise e s = (err e, s)

  abbrev pub lift : {A : Type 0} → Result E A → Action E S A
  lift r s = (r, s)

  abbrev continue : {A B : Type 0} → Result E A → (A → Action E S B) → Action E S B
  continue (ok a) f s = f a s
  continue (err e) f s = (err e, s)

  infixl 10 ◌>>=◌ ◌>>◌
  abbrev pub ◌>>=◌ : {A B : Type 0} → Action E S A → (A → Action E S B) → Action E S B
  ◌>>=◌ m f s = let (r, s') = m s in continue r f s'

  abbrev pub ◌>>◌ : {A B : Type 0} → Action E S A → Action E S B → Action E S B
  m >> n = m >>= λ _. n

-- How a method ends.
pub Action-cases :
    {E S A : Type 0} (p : Result E A × S)
    → ((a : A) × (s : S) × (p ≡ (ok a, s))) ⊎ ((e : E) × (s : S) × (p ≡ (err e, s)))
Action-cases (ok a, s) = inl (a, s, refl)
Action-cases (err e, s) = inr (e, s, refl)

module _ {E S : Type 0} where
  -- What a method returns, when it returns, has the property.
  unfoldable pub Gives : {A : Type 0} → (A → Type 0) → Action E S A → Type 0
  Gives {A} Q m = (s t : S) (a : A) → m s ≡ (ok a, t) → Q a

  pub Gives->>= :
      {A B : Type 0} (P : A → Type 0) (Q : B → Type 0) (m : Action E S A) (f : A → Action E S B)
      → Gives P m
      → ((a : A) → P a → Gives Q (f a))
      → Gives Q (m >>= f)
  unfolding Gives
  Gives->>= P Q m f k l s t b h = elim (Action-cases (m s)) [
    | inl (a, u, p) ↦ l a (k s u a p) u t b (rw p at h)
    | inr (e, u, p) ↦ let bad : ⊥ = ground (arith, rw p at h) in elim bad [ ]
  ]

  pub Gives-any : {A : Type 0} (m : Action E S A) → Gives (λ a. Unit {0}) m
  unfolding Gives
  Gives-any m s t a h = tt

pub Gives-pure :
    (E S : Type 0) {A : Type 0} (Q : A → Type 0) (a : A) → Q a → Gives {E = E} {S = S} Q (pure a)
unfolding Gives
Gives-pure E S Q a q s t b h = let same : a ≡ b = ground (arith, h) in rw (← same) q

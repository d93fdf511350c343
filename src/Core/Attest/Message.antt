-- ===== src/Core/Attest/Message.antt =====
-- Signed messages, and the verification of an attestation that is issued.
use Prim.Native.Nat.{◌+◌}
use Prim.Native.Char.{Char, code}
use Prim.Native.String.{[], ◌∷◌}
use text.Mathlib.TextLemmas.{nil-append, cons-append, head-eq_of_cons-eq, tail-eq_of_cons-eq}
use net_twin.Prelude.{
  ℕ, suc, ◌≡◌, refl, String, ◌<>◌, true, ◌==◌, string_eq, nat_eq, if◌then◌else◌, arith, ap,
}
use net_twin.Prelude.Result.{ok}
use net_twin.Core.Attest.{is_ascii, compare_digest, message, sign, issue, verify}

-- How many bars a text has.
unfoldable pub bars : String → ℕ
bars [] = 0
bars (c ∷ s) = let n = bars s in if code c == 124 then suc n else n

bars-append : (s t : String) → bars (s <> t) ≡ bars s + bars t
unfolding bars
bars-append [] t = rw nil-append (ground arith)
bars-append (c ∷ s) t = rw cons-append (ground (arith, bars-append s t))

ruleset append_clauses = (nil-append, cons-append)

abbrev bar : Char
bar = "|"

bar-cons : (x : String) → ("|" <> x) ≡ bar ∷ x
bar-cons x = rw (cons-append, nil-append) refl

bars-bar : (x : String) → bars ("|" <> x) ≡ suc (bars x)
unfolding bars nat_eq
bars-bar x = rw bar-cons refl

bars-message :
    (a b x : String) → bars (a <> ("|" <> (b <> ("|" <> x)))) ≡ 2 + bars a + bars b + bars x
bars-message a b x = grind (
  arith,
  bars-append a ("|" <> (b <> ("|" <> x))),
  bars-append b ("|" <> x),
  bars-bar (b <> ("|" <> x)),
  bars-bar x,
)

no_bar : (c : Char) (s : String) → bars (c ∷ s) ≡ 0 → (Path Char c bar → ⊥) × (bars s ≡ 0)
unfolding bars
no_bar c s h = (λ p. let q : code c ≡ 124 = ap code p in ground (arith, q), ground arith)

cut_bar :
    (a b x y : String)
    → bars a ≡ 0
    → bars b ≡ 0
    → (a <> (bar ∷ x)) ≡ (b <> (bar ∷ y))
    → (a ≡ b) × (x ≡ y)
cut_bar [] [] x y h k e = (refl, tail-eq_of_cons-eq (simp nil-append at e))
cut_bar [] (c ∷ b) x y h k e =
    ground (arith, head-eq_of_cons-eq (simp append_clauses at e), no_bar c b k)
cut_bar (c ∷ a) [] x y h k e =
    ground (arith, head-eq_of_cons-eq (simp append_clauses at e), no_bar c a h)
cut_bar (c ∷ a) (d ∷ b) x y h k e =
    let split = simp append_clauses at e in
    let (p, q) = cut_bar a b x y (no_bar c a h).1 (no_bar d b k).1 (tail-eq_of_cons-eq split) in
    ground (arith, head-eq_of_cons-eq split, p, q)

module _ (isoformat : ℕ → String) (hmac : String → String → String) where
  -- The signed message of a snapshot id and a policy hash without a bar is the message of no other
  -- id, hash or text of a time, whatever those hold, if the texts of times have no bar.
  pub message-injective :
      ((t : ℕ) → bars (isoformat t) ≡ 0)
      → (id id' sha sha' : String) (t t' : ℕ) → bars id ≡ 0
      → bars sha ≡ 0
      → message hmac isoformat id sha t ≡ message hmac isoformat id' sha' t'
      → (id ≡ id') × (sha ≡ sha') × (isoformat t ≡ isoformat t')
  unfolding message
  message-injective plain id id' sha sha' t t' h k e =
      let count = ap bars e in
      let none : (bars id' ≡ 0) × (bars sha' ≡ 0) = grind (
        arith,
        bars-message id sha (isoformat t),
        bars-message id' sha' (isoformat t'),
        plain t,
        plain t',
      ) in
      let (p, rest) = cut_bar id id' _ _ h none.0 (simp bar-cons at e) in
      let (q, r) = cut_bar sha sha' _ _ k none.1 rest in (p, q, r)

  -- An attestation that is issued verifies under the key it was issued with, if the keyed hash
  -- gives ASCII text.
  pub verify-issue :
      (key id sha : String) (now : ℕ)
      → is_ascii (sign hmac isoformat key id sha now) ≡ true
      → verify hmac isoformat key (issue hmac isoformat key id sha now) ≡ ok true
  unfolding verify issue compare_digest
  verify-issue key id sha now h = ground (arith, h)

-- ===== src/Prelude/Decimal/Shown.antt =====
-- The digits that `str(n)` writes, and a number behind a separator.
use Prim.Native.Nat.{ℕ, zero, suc, ◌+◌, ◌-◌, ◌*◌, ◌/◌, ◌%◌, ◌<◌}
use Prim.Native.Char.{Char, code}
use Prim.Native.String.{String, [], ◌∷◌, ◌++◌ as ◌<>◌}
use text.Mathlib.TextLemmas.{nil-append, cons-append, head-eq_of_cons-eq, tail-eq_of_cons-eq}
use mathlib.Core.Path.{◌≡◌, refl, ap, sym, ◌∙◌}
use mathlib.Core.Logic.{inl, inr}
use mathlib.Core.Bool.{true, false}
use native.Mathlib.Omega.{arith}
use net_twin.Prelude.Tests.{ltb, Bool-cases}
use net_twin.Prelude.Text.{all_chars, is_digit, int, digits_from}
use net_twin.Prelude.Chars.{all_chars-append}
use net_twin.Prelude.Decimal.{digit, show_fuel, show}

digits_from-append :
    (k : ℕ) (s t : String) → digits_from k (s <> t) ≡ digits_from (digits_from k s) t
unfolding digits_from
digits_from-append k [] t = rw nil-append refl
digits_from-append k (c ∷ s) t = rw cons-append (digits_from-append (k * 10 + (code c - 48)) s t)

digits_from-digit : (k n : ℕ) → n < 10 → digits_from k (digit n) ≡ k * 10 + n
unfolding digits_from digit
digits_from-digit k zero h = omega arith
digits_from-digit k (suc zero) h = omega arith
digits_from-digit k (suc (suc zero)) h = omega arith
digits_from-digit k (suc (suc (suc zero))) h = omega arith
digits_from-digit k (suc (suc (suc (suc zero)))) h = omega arith
digits_from-digit k (suc (suc (suc (suc (suc zero))))) h = omega arith
digits_from-digit k (suc (suc (suc (suc (suc (suc zero)))))) h = omega arith
digits_from-digit k (suc (suc (suc (suc (suc (suc (suc zero))))))) h = omega arith
digits_from-digit k (suc (suc (suc (suc (suc (suc (suc (suc zero)))))))) h = omega arith
digits_from-digit k (suc (suc (suc (suc (suc (suc (suc (suc (suc n))))))))) h = omega arith

digits_from-show_fuel : (f n : ℕ) → n < f → digits_from 0 (show_fuel f n) ≡ n
unfolding show_fuel
digits_from-show_fuel zero n h = elim h [ ]
digits_from-show_fuel (suc f) n h = elim (Bool-cases (ltb n 10)) [
  | inl small ↦ rw small (omega (arith, digits_from-digit 0 n (ground arith)))
  | inr large ↦ rw large (
      omega (
        arith,
        digits_from-append 0 (show_fuel f (n / 10)) (digit (n % 10)),
        digits_from-digit (digits_from 0 (show_fuel f (n / 10))) (n % 10) (omega arith),
        digits_from-show_fuel f (n / 10) (ground arith),
      ))
]

-- A number reads back from its digits.
pub int-show : (n : ℕ) → int (show n) ≡ n
unfolding int show
int-show n = digits_from-show_fuel (suc n) n (omega arith)

digit-is_digit : (n : ℕ) → all_chars is_digit (digit n) ≡ true
unfolding digit
digit-is_digit zero = refl
digit-is_digit (suc zero) = refl
digit-is_digit (suc (suc zero)) = refl
digit-is_digit (suc (suc (suc zero))) = refl
digit-is_digit (suc (suc (suc (suc zero)))) = refl
digit-is_digit (suc (suc (suc (suc (suc zero))))) = refl
digit-is_digit (suc (suc (suc (suc (suc (suc zero)))))) = refl
digit-is_digit (suc (suc (suc (suc (suc (suc (suc zero))))))) = refl
digit-is_digit (suc (suc (suc (suc (suc (suc (suc (suc zero)))))))) = refl
digit-is_digit (suc (suc (suc (suc (suc (suc (suc (suc (suc n))))))))) = refl

show_fuel-is_digit : (f n : ℕ) → all_chars is_digit (show_fuel f n) ≡ true
unfolding show_fuel
show_fuel-is_digit zero n = refl
show_fuel-is_digit (suc f) n = elim (Bool-cases (ltb n 10)) [
  | inl small ↦ rw small (digit-is_digit n)
  | inr large ↦ rw large (
      all_chars-append is_digit (show_fuel f (n / 10)) (digit (n % 10))
        (show_fuel-is_digit f (n / 10)) (digit-is_digit (n % 10)))
]

pub show-is_digit : (n : ℕ) → all_chars is_digit (show n) ≡ true
unfolding show
show-is_digit n = show_fuel-is_digit (suc n) n

abbrev slash : Char
slash = "/"

slash-cons : (x : String) → ("/" <> x) ≡ slash ∷ x
slash-cons x = rw (cons-append, nil-append) refl

slash-is_digit : (q e : String) → all_chars is_digit (q <> (slash ∷ e)) ≡ false
slash-is_digit [] e = rw nil-append refl
slash-is_digit (c ∷ q) e = rw cons-append (ground (arith, slash-is_digit q e))

cut_slash :
    (p q d e : String)
    → all_chars is_digit d ≡ true
    → all_chars is_digit e ≡ true
    → (p <> (slash ∷ d)) ≡ (q <> (slash ∷ e))
    → (p ≡ q) × (d ≡ e)
cut_slash [] [] d e h k p = (refl, tail-eq_of_cons-eq (rw (nil-append, nil-append) at p))
cut_slash [] (c ∷ q) d e h k p =
    let same : d ≡ q <> (slash ∷ e) = tail-eq_of_cons-eq (rw (nil-append, cons-append) at p) in
    ground (arith, slash-is_digit q e, rw same at h)
cut_slash (c ∷ q) [] d e h k p =
    let same : q <> (slash ∷ d) ≡ e = tail-eq_of_cons-eq (rw (nil-append, cons-append) at p) in
    ground (arith, slash-is_digit q d, rw (← same) at k)
cut_slash (c ∷ p) (b ∷ q) d e h k r =
    let split = rw (cons-append, cons-append) at r in
    let (same, rest) = cut_slash p q d e h k (tail-eq_of_cons-eq split) in
    (ground (arith, head-eq_of_cons-eq split, same), rest)

-- A text with a number behind a slash gives back the text and the number.
pub slash-show-injective :
    (p q : String) (m n : ℕ) → (p <> ("/" <> show m)) ≡ (q <> ("/" <> show n)) → (p ≡ q) × (m ≡ n)
slash-show-injective p q m n h =
    let (same, digits) =
      cut_slash p q (show m) (show n) (show-is_digit m) (show-is_digit n)
        (rw (slash-cons, slash-cons) at h) in
    (same, sym (int-show m) ∙ (ap int digits ∙ int-show n))

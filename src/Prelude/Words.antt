-- ===== src/Prelude/Words.antt =====
-- The words of a text between white characters, as `str.split()` gives them, and their laws. What
-- is white is a parameter.
use Prim.Native.Char.{code}
use Prim.Native.String.{[], ◌∷◌, String, ◌++◌ as ◌<>◌}
use text.Mathlib.TextLemmas.{nil-append, cons-append, append-nil}
use mathlib.Core.List.{List}
use mathlib.Core.Bool.{Bool, true, false, not, ◌&&◌}
use mathlib.Core.Logic.{inl, inr}
use mathlib.Core.Path.{◌≡◌, refl}
use native.Mathlib.Omega.{arith}
use Prim.Native.Nat.{ℕ, ◌+◌, ◌≤◌}
use net_twin.Prelude.Tests.{Bool-cases, if◌then◌else◌}
use net_twin.Prelude.Text.{is_empty, length, all_chars, join}
use net_twin.Prelude.Chars.{all_words, spread, length-join, length-join-le}

unfoldable pub cons_word : String → List String → List String
cons_word [] ws = ws
cons_word (c ∷ w) ws = List.◌∷◌ (c ∷ w) ws

unfoldable pub cut : (ℕ → Bool) → String → String × List String
cut white [] = ("", List.[])
cut white (c ∷ s) =
    let (w, ws) = cut white s in if white (code c) then ("", cons_word w ws) else (c ∷ w, ws)

unfoldable pub words : (ℕ → Bool) → String → List String
unfolding cut
words white s = let (w, ws) = cut white s in cons_word w ws

pub cons_word-eq-cons :
    (w : String) (ws : List String) → is_empty w ≡ false → cons_word w ws ≡ List.◌∷◌ w ws
unfolding cons_word
cons_word-eq-cons [] ws h = cc
cons_word-eq-cons (c ∷ w) ws h = refl

pub cons_word-nil : (ws : List String) → cons_word "" ws ≡ ws
unfolding cons_word
cons_word-nil ws = refl

module _ (white : ℕ → Bool) where
  -- A word has a character, and none that is white.
  abbrev pub is_word : String → Bool
  is_word w = not (is_empty w) && all_chars (λ c. not (white c)) w

  cut-blank : white 32 ≡ true → (s : String) → cut white (" " <> s) ≡ ("", words white s)
  unfolding cut words
  cut-blank b s = rw (cons-append, nil-append, b) refl

  cut-append :
      (w s : String)
      → all_chars (λ c. not (white c)) w ≡ true
      → cut white (w <> s) ≡ (w <> (cut white s).0, (cut white s).1)
  unfolding cut
  cut-append [] s h = rw (nil-append, nil-append)
  cut-append (c ∷ w) s h = rw (cons-append, cons-append) (ground (arith, cut-append w s))

  -- Words joined by blanks are split into the same words.
  pub words-join :
      white 32 ≡ true
      → (ws : List String) → all_words is_word ws ≡ true
      → words white (join " " ws) ≡ ws
  unfolding words join cons_word
  words-join b List.[] h = refl
  words-join b (List.◌∷◌ w List.[]) h =
      ground (arith, append-nil w, cut-append w "", cons_word-eq-cons w List.[])
  words-join b (List.◌∷◌ w (List.◌∷◌ v ws)) h = ground (
    arith,
    append-nil w,
    cut-blank b (join " " (List.◌∷◌ v ws)),
    cut-append w (" " <> join " " (List.◌∷◌ v ws)),
    cons_word-eq-cons w (List.◌∷◌ v ws),
    words-join b (List.◌∷◌ v ws),
  )

  all_words-cons_word :
      (p : String → Bool) (w : String) (ws : List String)
      → (is_empty w ≡ false → p w ≡ true)
      → all_words p ws ≡ true
      → all_words p (cons_word w ws) ≡ true
  unfolding cons_word
  all_words-cons_word p [] ws h hs = hs
  all_words-cons_word p (c ∷ w) ws h hs = ground (arith, h refl)

  all_words-cut :
      (p : ℕ → Bool) (s : String)
      → all_chars p s ≡ true
      → (all_chars p (cut white s).0 ≡ true) × (all_words (all_chars p) (cut white s).1 ≡ true)
  unfolding cut
  all_words-cut p [] h = (refl, refl)
  all_words-cut p (c ∷ s) h = elim (Bool-cases (white (code c))) [
    | inl light ↦ rw light (
      refl,
      all_words-cons_word (all_chars p) _ _ (λ _. (ground (arith, all_words-cut p s)))
          (ground (arith, all_words-cut p s)),
    )
    | inr dark ↦ rw dark (ground (arith, all_words-cut p s), ground (arith, all_words-cut p s))
  ]

  -- What holds of all characters of a text holds of those of its words.
  pub all_words-words :
      (p : ℕ → Bool) (s : String)
      → all_chars p s ≡ true
      → all_words (all_chars p) (words white s) ≡ true
  unfolding words
  all_words-words p s h =
      all_words-cons_word (all_chars p) _ _ (λ _. (all_words-cut p s h).0) (all_words-cut p s h).1

  is_word-cut :
      (s : String)
      → (all_chars (λ c. not (white c)) (cut white s).0 ≡ true)
        × (all_words is_word (cut white s).1 ≡ true)
  unfolding cut
  is_word-cut [] = (refl, refl)
  is_word-cut (c ∷ s) = elim (Bool-cases (white (code c))) [
    | inl light ↦
        rw light
          (refl, all_words-cons_word is_word _ _ (λ e. rw e (is_word-cut s).0) (is_word-cut s).1)
    | inr dark ↦ rw dark (rw (dark, (is_word-cut s).0) refl, (is_word-cut s).1)
  ]

  -- The words have a character each, and none that is white.
  pub words-is_word : (s : String) → all_words is_word (words white s) ≡ true
  unfolding words
  words-is_word s = all_words-cons_word is_word _ _ (λ e. rw e (is_word-cut s).0) (is_word-cut s).1

  spread-cons_word :
      (w : String) (ws : List String) → spread (cons_word w ws) ≤ 1 + length w + spread ws
  unfolding cons_word
  spread-cons_word [] ws = omega arith
  spread-cons_word (c ∷ w) ws = omega arith

  spread-cut : (s : String) → length (cut white s).0 + spread (cut white s).1 ≤ length s
  unfolding cut
  spread-cut [] = omega arith
  spread-cut (c ∷ s) = elim (Bool-cases (white (code c))) [
    | inl light ↦
        rw light (omega (arith, spread-cut s, spread-cons_word (cut white s).0 (cut white s).1))
    | inr dark ↦ rw dark (omega (arith, spread-cut s))
  ]

  -- A text is not shorter than its words joined by blanks.
  pub length-join-words : (s : String) → length (join " " (words white s)) ≤ length s
  unfolding words cons_word
  length-join-words s = join_cut (cut white s).0 (cut white s).1 (spread-cut s)
    where
      join_cut :
          (w : String) (ws : List String)
          → length w + spread ws ≤ length s
          → length (join " " (cons_word w ws)) ≤ length s
      join_cut [] ws h = omega (arith, length-join-le ws)
      join_cut (c ∷ w) ws h = omega (arith, length-join (c ∷ w) ws)

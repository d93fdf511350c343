-- ===== src/Prelude/Chars.antt =====
-- Tests on the characters of texts, of joined texts, and lengths.
use Prim.Native.Char.{code}
use Prim.Native.String.{[], ◌∷◌}
use text.Mathlib.TextLemmas.{nil-append, cons-append}
use mathlib.Core.List.{List}
use mathlib.Core.Bool.{Bool, true, false, not, ◌&&◌}
use mathlib.Core.Path.{◌≡◌, refl}
use native.Mathlib.Omega.{arith}
use Prim.Native.Nat.{ℕ, ◌+◌, ◌≤◌}
use Prim.Native.String.{String, ◌++◌ as ◌<>◌}
use net_twin.Prelude.Text.{length, all_chars, any_char, join}

abbrev pub all_words : (String → Bool) → List String → Bool
all_words p List.[] = true
all_words p (List.◌∷◌ w ws) = p w && all_words p ws

pub all_words_mono :
    (p q : String → Bool)
    → ((w : String) → p w ≡ true → q w ≡ true)
    → (ws : List String) → all_words p ws ≡ true
    → all_words q ws ≡ true
all_words_mono p q h List.[] a = refl
all_words_mono p q h (List.◌∷◌ w ws) a = ground (arith, h w, all_words_mono p q h ws)

module _ (p : ℕ → Bool) where
  pub all_chars-not : (s : String) → any_char p s ≡ false → all_chars (λ c. not (p c)) s ≡ true
  all_chars-not [] h = refl
  all_chars-not (c ∷ s) h = ground (arith, all_chars-not s)

  pub any_char-not : (s : String) → all_chars (λ c. not (p c)) s ≡ true → any_char p s ≡ false
  any_char-not [] h = refl
  any_char-not (c ∷ s) h = ground (arith, any_char-not s)

  pub all_chars-append :
      (s t : String) → all_chars p s ≡ true → all_chars p t ≡ true → all_chars p (s <> t) ≡ true
  all_chars-append [] t h k = rw nil-append k
  all_chars-append (c ∷ s) t h k = rw cons-append (ground (arith, all_chars-append s t))

  pub all_chars-join :
      (sep : String) (ws : List String)
      → all_chars p sep ≡ true
      → all_words (all_chars p) ws ≡ true
      → all_chars p (join sep ws) ≡ true
  unfolding join
  all_chars-join sep List.[] k h = refl
  all_chars-join sep (List.◌∷◌ w List.[]) k h = ground arith
  all_chars-join sep (List.◌∷◌ w (List.◌∷◌ v ws)) k h =
      let rest = join sep (List.◌∷◌ v ws) in
      ground (
        arith,
        all_chars-join sep (List.◌∷◌ v ws),
        all_chars-append sep rest,
        all_chars-append w (sep <> rest),
      )

pub all_chars_mono :
    (p q : ℕ → Bool)
    → ((c : ℕ) → p c ≡ true → q c ≡ true)
    → (s : String) → all_chars p s ≡ true
    → all_chars q s ≡ true
all_chars_mono p q h [] a = refl
all_chars_mono p q h (c ∷ s) a = ground (arith, h (code c), all_chars_mono p q h s)

pub length-append : (s t : String) → length (s <> t) ≡ length s + length t
length-append [] t = rw nil-append (omega arith)
length-append (c ∷ s) t = rw cons-append (omega (arith, length-append s t))

-- The length of the words behind a first one, with a separator before each.
abbrev pub spread : List String → ℕ
spread List.[] = 0
spread (List.◌∷◌ w ws) = 1 + length w + spread ws

pub length-join :
    (w : String) (ws : List String) → length (join " " (List.◌∷◌ w ws)) ≡ length w + spread ws
unfolding join
length-join w List.[] = omega arith
length-join w (List.◌∷◌ v ws) = omega (
  arith,
  length-append w (" " <> join " " (List.◌∷◌ v ws)),
  length-append " " (join " " (List.◌∷◌ v ws)),
  length-join v ws,
)

pub length-join-le : (ws : List String) → length (join " " ws) ≤ spread ws
unfolding join
length-join-le List.[] = omega arith
length-join-le (List.◌∷◌ w ws) = omega (arith, length-join w ws)

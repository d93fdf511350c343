-- ===== src/Allowlist/Shlex/Words.antt =====
-- What `shlex.split` gives on a text without quotes and backslashes.
use Prim.Native.Char.{Char}
use Prim.Native.String.{[], ◌∷◌}
use text.Mathlib.TextLemmas.{nil-append, cons-append, append_assoc, append-nil}
use net_twin.Prelude.{ℕ, ◌≡◌, String, ◌<>◌, Bool, true, false, not, ◌||◌, List, arith}
use net_twin.Prelude.Text.{is_empty, all_chars}
use net_twin.Prelude.Words.{cons_word, cut, words, cons_word-eq-cons, cons_word-nil}
use net_twin.Prelude.Result.{ok}
use net_twin.Allowlist.Shlex.{Lexer, Mode, start, is_white, is_quote, is_escape, scan, shlex_split}

abbrev pub is_plain : ℕ → Bool
is_plain c = not (is_quote c || is_escape c)

abbrev at_word : String → Lexer
at_word t = record { mode = Mode.word; token = t; was_quoted = false }

is_empty-append : (t : String) (c : Char) → is_empty (t <> (c ∷ "")) ≡ false
is_empty-append [] c = rw nil-append
is_empty-append (d ∷ t) c = rw cons-append

push-append : (t : String) (c : Char) (w : String) → (t <> (c ∷ "")) <> w ≡ t <> (c ∷ w)
push-append t c w = rw (append_assoc, cons-append, nil-append)

mutual
  unfolding scan words

  scan-word :
      (s t : String)
      → all_chars is_plain s ≡ true
      → is_empty t ≡ false
      → scan (at_word t) s ≡ ok (cons_word (t <> (cut is_white s).0) (cut is_white s).1)
  scan-word [] t h e = rw append-nil (ground (arith, cons_word-eq-cons t List.[]))
  scan-word (c ∷ s) t h e = ground (
    arith,
    push-append t c (cut is_white s).0,
    is_empty-append t c,
    append-nil t,
    cons_word-eq-cons t (words is_white s),
    scan-word s (t <> (c ∷ "")),
    scan-blank s,
  )

  scan-blank : (s : String) → all_chars is_plain s ≡ true → scan start s ≡ ok (words is_white s)
  scan-blank [] h = rw cons_word-nil
  scan-blank (c ∷ s) h = ground (
    arith,
    nil-append (c ∷ ""),
    cons-append c "" (cut is_white s).0,
    nil-append (cut is_white s).0,
    cons_word-nil (words is_white s),
    scan-word s (c ∷ ""),
    scan-blank s,
  )

-- On a text with no quote and no backslash, shlex.split does not fail and gives the words between
-- white characters.
pub shlex_split-eq-words :
    (s : String) → all_chars is_plain s ≡ true → shlex_split s ≡ ok (words is_white s)
unfolding shlex_split
shlex_split-eq-words s h = scan-blank s h

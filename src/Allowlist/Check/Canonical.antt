-- ===== src/Allowlist/Check/Canonical.antt =====
-- The words of a text that `check` accepts, and the text that joins them.
use Prim.Native.Char.{code}
use Prim.Native.String.{[], ◌∷◌}
use text.Mathlib.TextLemmas.{cons-append, append-nil}
use net_twin.Prelude.{
  ℕ, ◌≤◌, ◌≡◌, refl, ◌∙◌, String, ◌<>◌, Bool, true, false, not, List, leb, string_eq, arith,
}
use net_twin.Prelude.Text.{length, all_chars, is_space, join}
use net_twin.Prelude.Chars.{all_chars-not, any_char-not, all_chars-join, all_chars_mono}
use net_twin.Prelude.Result.{ok}
use net_twin.Allowlist.Shlex.{shlex_split, is_white, is_quote, is_escape}
use net_twin.Allowlist.Shlex.Words.{is_plain, shlex_split-eq-words}
use net_twin.Prelude.Words.{words, words-join, all_words-words, words-is_word, length-join-words}
use net_twin.Allowlist.Check.{
  AllowedCommand, is_token, is_token_char, is_forbidden, check, check_argv, from_split,
}

abbrev pub allowed : ℕ → Bool
allowed c = not (is_forbidden c)

-- No shell metacharacter, quote, backslash or line end.
abbrev pub is_safe : String → Bool
is_safe = all_chars allowed

plain_of_allowed : (c : ℕ) → not (is_forbidden c) ≡ true → is_plain c ≡ true
unfolding is_forbidden is_quote is_escape
plain_of_allowed c h = ground arith

token-not-space : (c : ℕ) → is_token_char c ≡ true → is_space c ≡ false
unfolding is_token_char is_space
token-not-space c h = ground arith

shlex_split-eq-words_of_safe :
    (cmd : String) → is_safe cmd ≡ true → shlex_split cmd ≡ ok (words is_white cmd)
shlex_split-eq-words_of_safe cmd h =
    shlex_split-eq-words cmd (all_chars_mono _ is_plain plain_of_allowed cmd h)

-- A safe text that is short enough and not blank is checked by its words.
check-eq-check_argv :
    (cmd : String)
    → all_chars is_space cmd ≡ false
    → is_safe cmd ≡ true
    → leb (length cmd) 200 ≡ true
    → check cmd ≡ check_argv (words is_white cmd)
check-eq-check_argv cmd blank safe short =
    unfold check from_split in
    rw (blank, any_char-not is_forbidden cmd safe, short, shlex_split-eq-words_of_safe cmd safe)
      refl

-- The tests in front of the split, of a text that `check` accepts.
pub record Front (cmd : String) : Type 0 where
  pub safe : is_safe cmd ≡ true
  short : leb (length cmd) 200 ≡ true
  blank : all_chars is_space cmd ≡ false

pub check-Front : (cmd : String) {a : AllowedCommand} → check cmd ≡ ok a → Front cmd
unfolding check
check-Front cmd h = record {
  safe = ground (arith, all_chars-not is_forbidden cmd);
  short = ground arith;
  blank = ground arith;
}

-- The text is checked as its words are.
pub check_argv-words :
    (cmd : String) {a : AllowedCommand} → check cmd ≡ ok a → check_argv (words is_white cmd) ≡ ok a
check_argv-words cmd h =
    let f = check-Front cmd h in rw (check-eq-check_argv cmd f.blank f.safe f.short) at h

token-append-not-space : (w t : String) → is_token w ≡ true → all_chars is_space (w <> t) ≡ false
token-append-not-space [] t h = cc
token-append-not-space (c ∷ w) t h = rw cons-append (ground (arith, token-not-space (code c)))

join-not-space :
    (ws : List String) {a : AllowedCommand}
    → check_argv ws ≡ ok a
    → all_chars is_space (join " " ws) ≡ false
unfolding check_argv join
join-not-space List.[] h = cc
join-not-space (List.◌∷◌ w List.[]) h =
    rw append-nil at (token-append-not-space w "" (ground arith))
join-not-space (List.◌∷◌ w (List.◌∷◌ v ws)) h = token-append-not-space w _ (ground arith)

leb_trans : (a b n : ℕ) → a ≤ b → leb b n ≡ true → leb a n ≡ true
leb_trans a b n h k = ground arith

white_blank : is_white 32 ≡ true
unfolding is_white
white_blank = refl

pub blank_safe : is_safe " " ≡ true
unfolding is_forbidden
blank_safe = refl

-- A command text that is accepted is accepted alike, with the same argv, family and timeout, when
-- its words are joined by single blanks.
pub check-join-words :
    (cmd : String) {a : AllowedCommand}
    → check cmd ≡ ok a
    → check (join " " (words is_white cmd)) ≡ ok a
check-join-words cmd h =
    let f = check-Front cmd h in
    let parsed = check_argv-words cmd h in
    let text = join " " (words is_white cmd) in
    let safe : is_safe text ≡ true =
      all_chars-join allowed " " (words is_white cmd) blank_safe
        (all_words-words is_white allowed cmd f.safe) in
    check-eq-check_argv text (join-not-space (words is_white cmd) parsed) safe
      (leb_trans _ _ 200 (length-join-words is_white cmd) f.short)
    ∙ rw (words-join is_white white_blank (words is_white cmd) (words-is_word is_white cmd)) parsed

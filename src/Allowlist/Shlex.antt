-- ===== src/Allowlist/Shlex.antt =====
-- `shlex.split` of the standard library in its POSIX mode, as `check` of
-- packages/nettwin_core/src/nettwin_core/allowlist.py calls it.
pub mod Words
use Prim.Native.Char.{Char, code}
use Prim.Native.String.{[], ◌∷◌}
use net_twin.Prelude.{
  ℕ, ◌≡◌, refl, String, ◌<>◌, Bool, true, false, not, ◌&&◌, ◌||◌, List, if◌then◌else◌,
}
use net_twin.Prelude.Text.{between, is_empty}
use net_twin.Prelude.Result.{Result, ok, err, ◌>>=◌}

pub data SplitError : Type 0 where
  no_closing_quotation no_escaped_character : SplitError

-- The lexer's state: between words, in a word, in quotes, or behind a backslash, where it keeps
-- the state that it goes back to.
pub data Mode : Type 0 where
  blank word : Mode
  quoted : ℕ → Mode
  escape_word : Mode
  escape_quoted : ℕ → Mode

pub record Lexer : Type 0 where
  pub mode : Mode
  pub token : String
  pub was_quoted : Bool

abbrev pub start : Lexer
start = record { mode = blank; token = ""; was_quoted = false }

unfoldable pub is_white : ℕ → Bool
is_white c = between b' ' b' ' c || between 9 10 c || between 13 13 c

unfoldable pub is_quote : ℕ → Bool
is_quote c = between 39 39 c || between 34 34 c

unfoldable pub is_escape : ℕ → Bool
is_escape c = between 92 92 c

abbrev pub push : Lexer → Mode → Char → Lexer
push l m c = record l { mode = m; token = l.token <> (c ∷ "") }

-- A word is given out if it has a character or a pair of quotes.
abbrev pub finish : Lexer → List String → List String
finish l ws = if is_empty l.token && not l.was_quoted then ws else List.◌∷◌ l.token ws

-- One character between words or in a word, which is not white.
in_word : Lexer → Char → Lexer
in_word l c =
    if is_escape (code c)
    then record l { mode = escape_word }
    else if is_quote (code c)
    then record l { mode = quoted (code c) }
    else push l word c

-- One character: the next state, and whether the word that was read ends here.
step_in : Mode → Lexer → Char → Lexer × Bool
unfolding in_word
step_in blank l c = if is_white (code c) then (l, false) else (in_word l c, false)
step_in word l c = if is_white (code c) then (start, true) else (in_word l c, false)
step_in (quoted q) l c =
    let l' = record l { was_quoted = true } in
    if between q q (code c)
    then (record l' { mode = word }, false)
    else if is_escape (code c) && between 34 34 q
    then (record l' { mode = escape_quoted q }, false)
    else (push l' (quoted q) c, false)
step_in escape_word l c = (push l word c, false)
step_in (escape_quoted q) l c =
    if not (is_escape (code c)) && not (between q q (code c))
    then (push (record l { token = l.token <> "\\" }) (quoted q) c, false)
    else (push l (quoted q) c, false)

at_end : Mode → Lexer → Result SplitError (List String)
at_end (quoted q) l = err no_closing_quotation
at_end escape_word l = err no_escaped_character
at_end (escape_quoted q) l = err no_escaped_character
at_end _ l = ok (finish l List.[])

pub scan : Lexer → String → Result SplitError (List String)
unfolding step_in at_end
scan l [] = at_end l.mode l
scan l (c ∷ s) = do
  let (l', ends) = step_in l.mode l c
  ws ← scan l' s
  ok (if ends then finish l ws else ws)

unfoldable pub shlex_split : String → Result SplitError (List String)
unfolding scan
shlex_split s = scan start s

quotes_test :
    shlex_split "a 'b c'\"d\\\"\"  e\\ f ''"
    ≡ ok (List.◌∷◌ "a" (List.◌∷◌ "b cd\"" (List.◌∷◌ "e f" (List.◌∷◌ "" List.[]))))
unfolding shlex_split is_white is_quote is_escape
quotes_test = refl

-- ===== src/Prelude/Text.antt =====
-- What the source uses of Python's `str`: characters, `strip`, `isdigit`, `int`, `in`, `join`.
use Prim.Native.Nat.{ℕ, zero, suc, ◌+◌, ◌-◌, ◌*◌}
use Prim.Native.Char.{Char, code}
use Prim.Native.String.{String, [], ◌∷◌, ◌++◌ as ◌<>◌}
use mathlib.Core.Bool.{Bool, true, false, not, ◌&&◌, ◌||◌}
use mathlib.Core.Option.{Option, none, some}
use mathlib.Core.List.{List}
use net_twin.Prelude.Tests.{leb, if◌then◌else◌}

-- `len(s)`, in code points
abbrev pub length : String → ℕ
length [] = 0
length (c ∷ s) = suc (length s)

-- Every character's code passes the test.
abbrev pub all_chars : (ℕ → Bool) → String → Bool
all_chars p [] = true
all_chars p (c ∷ s) = p (code c) && all_chars p s

-- Some character's code passes the test, as `re.search` of a one-character class.
abbrev pub any_char : (ℕ → Bool) → String → Bool
any_char p [] = false
any_char p (c ∷ s) = p (code c) || any_char p s

abbrev pub is_empty : String → Bool
is_empty [] = true
is_empty (c ∷ s) = false

abbrev pub between : ℕ → ℕ → ℕ → Bool
between lo hi c = leb lo c && leb c hi

abbrev pub is_digit : ℕ → Bool
is_digit = between b'0' b'9'

abbrev pub is_lower : ℕ → Bool
is_lower = between b'a' b'z'

abbrev pub is_alpha : ℕ → Bool
is_alpha c = between b'A' b'Z' c || is_lower c

-- `c in "..."` for one character
abbrev pub one_of : String → ℕ → Bool
one_of [] c = false
one_of (d ∷ s) c = between (code d) (code d) c || one_of s c

-- `str.isspace` of one character
unfoldable pub is_space : ℕ → Bool
is_space c =
    between 9 13 c
    || between 28 32 c
    || between 133 133 c
    || between 160 160 c
    || between 0x1680 0x1680 c
    || between 0x2000 0x200a c
    || between 0x2028 0x2029 c
    || between 0x202f 0x202f c
    || between 0x205f 0x205f c
    || between 0x3000 0x3000 c

-- The characters at which `str.splitlines` ends a line. The lines that are not empty are the runs
-- between such characters.
unfoldable pub is_line_end : ℕ → Bool
is_line_end c = between 10 13 c || between 28 30 c || between 133 133 c || between 0x2028 0x2029 c

-- `s.startswith(prefix)`
abbrev pub startswith : String → String → Bool
startswith s [] = true
startswith [] (d ∷ p) = false
startswith (c ∷ s) (d ∷ p) = between (code d) (code d) (code c) && startswith s p

-- `\r\n` ends one line.
drop_cr : String → String
drop_cr [] = []
drop_cr (c ∷ s) = let r = drop_cr s in if between 13 13 (code c) && line_feed s then r else c ∷ r
  where
    line_feed : String → Bool
    line_feed [] = false
    line_feed (d ∷ t) = between 10 10 (code d)

cons_line : Char → List String → List String
cons_line c List.[] = List.◌∷◌ (c ∷ []) List.[]
cons_line c (List.◌∷◌ l ls) = List.◌∷◌ (c ∷ l) ls

unfoldable pub lines_of : String → List String
unfolding cons_line is_line_end
lines_of [] = List.[]
lines_of (c ∷ s) =
    let r = lines_of s in if is_line_end (code c) then List.◌∷◌ "" r else cons_line c r

-- `s.splitlines()`
unfoldable pub splitlines : String → List String
unfolding drop_cr lines_of
splitlines s = lines_of (drop_cr s)

-- `s.endswith(suffix)`, and the text without a last newline
unfoldable pub endswith : String → String → Bool
endswith [] suffix = is_empty suffix
endswith (c ∷ s) suffix =
    let r = endswith s suffix in startswith (c ∷ s) suffix && startswith suffix (c ∷ s) || r

unfoldable pub chomp : String → String
chomp [] = []
chomp (c ∷ s) = let r = chomp s in if between 10 10 (code c) && is_empty s then [] else c ∷ r

-- `s.isdigit()`, for ASCII digits
abbrev pub isdigit : String → Bool
isdigit s = not (is_empty s) && all_chars is_digit s

unfoldable pub digits_from : ℕ → String → ℕ
digits_from n [] = n
digits_from n (c ∷ s) = digits_from (n * 10 + (code c - 48)) s

-- `int(s)`, for a text of ASCII digits
unfoldable pub int : String → ℕ
unfolding digits_from
int s = digits_from 0 s

-- `re.match(r"^[class]+$", s)`: a `$` also stands before a last newline.
abbrev pub many_end : (ℕ → Bool) → String → Bool
many_end p [] = true
many_end p (c ∷ []) = p (code c) || between 10 10 (code c)
many_end p (c ∷ d ∷ s) = p (code c) && many_end p (d ∷ s)

abbrev pub match_class : (ℕ → Bool) → String → Bool
match_class p [] = false
match_class p (c ∷ s) = p (code c) && many_end p s

-- `s[:n]` and `s[n:]`
unfoldable pub first_chars : ℕ → String → String
first_chars zero s = []
first_chars (suc n) [] = []
first_chars (suc n) (c ∷ s) = c ∷ first_chars n s

unfoldable pub drop : ℕ → String → String
drop zero s = s
drop (suc n) [] = []
drop (suc n) (c ∷ s) = drop n s

unfoldable pub drop_while : (ℕ → Bool) → String → String
drop_while p [] = []
drop_while p (c ∷ s) = let r = drop_while p s in if p (code c) then r else c ∷ s

-- What follows a prefix.
unfoldable pub after_prefix : String → String → Option String
after_prefix s [] = some s
after_prefix [] (d ∷ p) = none
after_prefix (c ∷ s) (d ∷ p) =
    let rest = after_prefix s p in if between (code d) (code d) (code c) then rest else none

-- `s.partition(sep)` without the separator: none where there is none.
unfoldable pub partition : String → String → Option (String × String)
unfolding after_prefix
partition sep [] = none
partition sep (c ∷ s) =
    let rest = partition sep s in
    elim (after_prefix (c ∷ s) sep) [
      | some t ↦ some ("", t)
      | none ↦ elim rest [ none ↦ none | some (body, t) ↦ some (c ∷ body, t) ]
    ]

-- `part in s`, for a part that is not empty
unfoldable pub occurs : String → String → Bool
occurs part s = elim (partition part s) [ none ↦ false | some p ↦ true ]

-- `s.rpartition(sep)`, likewise.
unfoldable pub rpartition : String → String → Option (String × String)
unfolding after_prefix
rpartition sep [] = none
rpartition sep (c ∷ s) = elim (rpartition sep s) [
  | some (body, rest) ↦ some (c ∷ body, rest)
  | none ↦ elim (after_prefix (c ∷ s) sep) [ none ↦ none | some rest ↦ some ("", rest) ]
]

-- `sep.join(parts)`
unfoldable pub join : String → List String → String
join sep List.[] = ""
join sep (List.◌∷◌ w List.[]) = w
join sep (List.◌∷◌ w (List.◌∷◌ v ws)) = w <> (sep <> join sep (List.◌∷◌ v ws))

-- `s.split(c)` for a character `c`: the first part, and the others.
split_first : ℕ → String → String × List String
split_first d [] = ("", List.[])
split_first d (c ∷ s) =
    let (p, ps) = split_first d s in
    elim (between d d (code c)) [ true ↦ ("", List.◌∷◌ p ps) | false ↦ (c ∷ p, ps) ]

unfoldable pub split : ℕ → String → List String
unfolding split_first
split d s = let (p, ps) = split_first d s in List.◌∷◌ p ps

-- Lists by native numbers, under the library's names.
module _ {ℓ} {A : Type ℓ} where
  abbrev pub size : List A → ℕ
  size List.[] = 0
  size (List.◌∷◌ x xs) = suc (size xs)

-- `s.rstrip()` and `s.lstrip()`
unfoldable pub rstrip : String → String
rstrip [] = []
rstrip (c ∷ s) = let r = rstrip s in if is_space (code c) && is_empty r then [] else c ∷ r

unfoldable pub lstrip : String → String
lstrip [] = []
lstrip (c ∷ s) = let r = lstrip s in if is_space (code c) then r else c ∷ s

-- `s.strip()`
unfoldable pub strip : String → String
unfolding lstrip rstrip
strip s = lstrip (rstrip s)

split_blank : String → String × List String
split_blank [] = ("", List.[])
split_blank (c ∷ s) =
    let (p, ps) = split_blank s in
    elim (is_space (code c)) [ true ↦ ("", List.◌∷◌ p ps) | false ↦ (c ∷ p, ps) ]

not_empty : List String → List String
not_empty List.[] = List.[]
not_empty (List.◌∷◌ w ws) = let rest = not_empty ws in if is_empty w then rest else List.◌∷◌ w rest

-- `s.split()`
unfoldable pub words : String → List String
unfolding split_blank not_empty
words s = let (p, ps) = split_blank s in not_empty (List.◌∷◌ p ps)

-- `skip` characters of an occurrence are still to be left out.
replace_from : ℕ → String → String → String → String
replace_from skip old new [] = []
replace_from (suc skip) old new (c ∷ s) = replace_from skip old new s
replace_from zero old new (c ∷ s) =
    let inside = replace_from (length old - 1) old new s in
    let after = replace_from zero old new s in
    if startswith (c ∷ s) old then new <> inside else c ∷ after

-- `s.replace(old, new)`, for an `old` that is not empty
unfoldable pub replace : String → String → String → String
unfolding replace_from
replace old new s = replace_from zero old new s

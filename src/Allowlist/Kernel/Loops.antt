-- ===== src/Allowlist/Kernel/Loops.antt =====
-- The argument loops of ping and traceroute in packages/nettwin_core/src/nettwin_core/allowlist.py: a `while`
-- over an index is a loop over the arguments that are left.
use net_twin.Prelude.{
  ℕ, String, Bool, true, false, ◌&&◌, List, [], ◌∷◌, Option, none, some, leb, contains, ◌==◌,
  string_eq, if◌then◌else◌,
}
use net_twin.Prelude.Text.{isdigit, int, startswith}
use net_twin.Prelude.Result.{ok, err, require, ◌>>=◌, ◌>>◌}
use net_twin.Allowlist.Kernel.{
  Check, target, bad_value, flag_not_allowed, second_target, missing_target, count_required,
}

-- `argv[i + 1].isdigit() and lo <= int(argv[i + 1]) <= hi`, of the arguments behind the flag.
unfoldable pub int_arg : ℕ → ℕ → List String → Bool
int_arg lo hi [] = false
int_arg lo hi (v ∷ r) = isdigit v && leb lo (int v) && leb (int v) hi

-- The bounds of a flag that takes an integer.
abbrev pub Limits : Type 0
Limits = List (String × (ℕ × ℕ))

unfoldable pub limit : String → Limits → Option (ℕ × ℕ)
limit t [] = none
limit t ((f, b) ∷ l) = if t == f then some b else limit t l

abbrev pub ping_limits : Limits
ping_limits =
    ("-c", (1, 5)) ∷ ("-W", (1, 3)) ∷ ("-w", (1, 10)) ∷ ("-s", (0, 9000)) ∷ ("-t", (1, 255)) ∷ []

abbrev pub traceroute_limits : Limits
traceroute_limits = ("-w", (1, 5)) ∷ ("-m", (1, 20)) ∷ ("-q", (1, 3)) ∷ []

-- A round of an argument loop: does it take the next argument too, and the target that was found.
abbrev pub Round : Type 0
Round = Bool × Option String

-- The last `else` of the loops of ping and traceroute: the one target.
one_target : String → Option String → Check Round
one_target tok (some t) = err second_target
one_target tok none = do t ← target tok; ok (false, some t)

abbrev pub path_modes : List String
path_modes = "do" ∷ "dont" ∷ "want" ∷ "probe" ∷ []

path_mode : List String → Bool
path_mode [] = false
path_mode (v ∷ r) = contains path_modes v

has_value : List String → Bool
has_value [] = false
has_value (v ∷ r) = true

ping_other : String → List String → Option String → Check Round
unfolding one_target path_mode has_value
ping_other tok rest found =
    if tok == "-M"
    then (do require (path_mode rest) (bad_value tok); ok (true, found))
    else if tok == "-I"
    then (do require (has_value rest) (bad_value tok); ok (true, found))
    else if contains ("-n" ∷ "-q" ∷ "-4" ∷ []) tok
    then ok (false, found)
    else if startswith tok "-"
    then err (flag_not_allowed tok)
    else one_target tok found

traceroute_other : String → List String → Option String → Check Round
unfolding one_target
traceroute_other tok rest found =
    if contains ("-n" ∷ "-I" ∷ "-4" ∷ []) tok
    then ok (false, found)
    else if startswith tok "-"
    then err (flag_not_allowed tok)
    else one_target tok found

abbrev pub Other : Type 0
Other = String → List String → Option String → Check Round

-- One round: first the flags that take an integer.
unfoldable pub round : Limits → Other → String → List String → Option String → Check Round
round limits other tok rest found = elim (limit tok limits) [
  | some (lo, hi) ↦ (do require (int_arg lo hi rest) (bad_value tok); ok (true, found))
  | none ↦ other tok rest found
]

-- The loop; the first argument says whether the next one was taken as a value.
unfoldable pub arg_loop :
    Limits → Other → Bool → Option String → List String → Check (Option String)
arg_loop limits other skip found [] = ok found
arg_loop limits other true found (tok ∷ rest) = arg_loop limits other false found rest
arg_loop limits other false found (tok ∷ rest) = do
  r ← round limits other tok rest found
  arg_loop limits other r.0 r.1 rest

need_target : Option String → Check Unit
need_target none = err missing_target
need_target (some t) = ok tt

unfoldable pub check_ping : List String → Check Unit
unfolding need_target ping_other
check_ping args = do
  found ← arg_loop ping_limits ping_other false none args
  need_target found
  require (contains args "-c") count_required

unfoldable pub check_traceroute : List String → Check Unit
unfolding need_target traceroute_other
check_traceroute args = do
  found ← arg_loop traceroute_limits traceroute_other false none args
  need_target found

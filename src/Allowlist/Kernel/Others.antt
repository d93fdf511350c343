-- ===== src/Allowlist/Kernel/Others.antt =====
-- The checks of sysctl and nc in packages/nettwin_core/src/nettwin_core/allowlist.py.
use mathlib.Core.Option
use net_twin.Prelude.{
  ℕ, String, Bool, true, false, ◌||◌, List, [], ◌∷◌, none, some, contains, ◌==◌, string_eq,
  if◌then◌else◌,
}
use net_twin.Prelude.Text.{is_lower, is_digit, one_of, startswith, match_class, after_prefix}
use net_twin.Prelude.Result.{ok, err, require, ◌>>=◌, ◌>>◌}
use net_twin.Allowlist.Kernel.Loops.{Other, round, int_arg}
use net_twin.Allowlist.Kernel.{Check, target, flag_not_allowed, sysctl_key, nc_form, nc_port}

-- `^net\.ipv4\.[a-z0-9_.]+$`
is_key_char : ℕ → Bool
is_key_char c = is_lower c || is_digit c || one_of "_." c

unfoldable pub is_sysctl_key : String → Bool
unfolding after_prefix is_key_char
is_sysctl_key s = elim (after_prefix s "net.ipv4.") [
  | none ↦ false
  | some r ↦ match_class is_key_char r
]

without : String → List String → List String
without x [] = []
without x (t ∷ r) = let rest = without x r in if t == x then rest else t ∷ rest

one_key : List String → Check Unit
one_key (k ∷ []) = require (is_sysctl_key k) sysctl_key
one_key _ = err sysctl_key

unfoldable pub check_sysctl : List String → Check Unit
unfolding one_key without
check_sysctl args = one_key (without "-n" args)

-- `_check_nc`: the loop gathers the positional arguments.
nc_loop : Bool → List String → Check (List String)
nc_loop skip [] = ok []
nc_loop true (tok ∷ rest) = nc_loop false rest
nc_loop false (tok ∷ rest) = do
  r ← round (("-w", (1, 5)) ∷ []) nc_other tok rest none
  more ← nc_loop r.0 rest
  ok (Option.get_or (Option.map (λ p. p ∷ more) r.1) more)
  where
    nc_other : Other
    nc_other tok rest found =
        if contains ("-z" ∷ "-v" ∷ "-4" ∷ []) tok
        then ok (false, none)
        else if startswith tok "-"
        then err (flag_not_allowed tok)
        else ok (false, some tok)

nc_positional : List String → Check Unit
nc_positional (host ∷ port ∷ []) = do _ ← target host; require (int_arg 1 65535 (port ∷ [])) nc_port
nc_positional _ = err nc_form

unfoldable pub check_nc : List String → Check Unit
unfolding nc_loop nc_positional
check_nc args = do
  positional ← nc_loop false args
  require (contains args "-z") nc_form
  nc_positional positional

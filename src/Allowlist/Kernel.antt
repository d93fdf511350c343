-- ===== src/Allowlist/Kernel.antt =====
-- The checks of kernel programs in packages/nettwin_core/src/nettwin_core/allowlist.py: `_target`
-- and `_check_ip` to `_check_nc`. A `while` loop over an index is a loop over the arguments that
-- are left, and an argument that takes a value makes the loop skip the next one.
pub mod Verbs
pub mod Loops
pub mod Others
use mathlib.Core.Option
use net_twin.Prelude.{
  ℕ, String, Bool, true, false, not, ◌&&◌, ◌||◌, List, [], ◌∷◌, Option, none, some, leb, contains,
  ◌==◌, string_eq, if◌then◌else◌,
}
use net_twin.Prelude.Text.{
  size, is_lower, is_digit, isdigit, int, one_of, startswith, match_class, after_prefix,
}
use net_twin.Prelude.Result.{Result, ok, err, require, ◌>>=◌, ◌>>◌}
use net_twin.Allowlist.Ip.{is_ip}
use net_twin.Allowlist.Shlex.{SplitError}

-- The reasons of `_deny`, one for each message.
pub data Denial : Type 0 where
  empty_command metacharacters too_long : Denial
  unparsable : SplitError → Denial
  bad_token not_frr not_a_program bad_target : String → Denial
  ip_object ip_form bridge_object bridge_form nft_list nft_object nft_arguments : Denial
  bad_value flag_not_allowed : String → Denial
  second_target missing_target count_required sysctl_key nc_form nc_port : Denial

abbrev pub Check : Type 0 → Type 0
Check A = Result Denial A

unfoldable pub target : String → Check String
unfolding is_ip
target token = if is_ip token then ok token else err (bad_target token)

abbrev pub ip_flags : List String
ip_flags =
    "-j" ∷ "-json" ∷ "-br" ∷ "-brief" ∷ "-d" ∷ "-details" ∷ "-4" ∷ "-s" ∷ "-stats" ∷ "-o" ∷ []

abbrev pub ip_objects : List String
ip_objects =
    "addr" ∷ "address" ∷ "a" ∷ "link" ∷ "l" ∷ "route" ∷ "r" ∷ "neigh" ∷ "neighbour" ∷ "neighbor"
    ∷ "n" ∷ []

abbrev pub ip_verbs_denied : List String
ip_verbs_denied =
    "add" ∷ "del" ∷ "delete" ∷ "set" ∷ "change" ∷ "replace" ∷ "flush" ∷ "append" ∷ "prepend" ∷ "up"
    ∷ "down" ∷ "monitor" ∷ []

abbrev pub bridge_objects : List String
bridge_objects = "vlan" ∷ "fdb" ∷ "link" ∷ []

abbrev pub nft_flags : List String
nft_flags = "-a" ∷ "-s" ∷ "-j" ∷ "-n" ∷ "-nn" ∷ []

-- `while i < len(argv) and argv[i] in flags: i += 1`
unfoldable pub skip_flags : List String → List String → List String
skip_flags flags [] = []
skip_flags flags (t ∷ r) = let rest = skip_flags flags r in if contains flags t then rest else t ∷ r

-- A first word such as `show` is optional.
unfoldable pub skip_verb : List String → List String → List String
skip_verb verbs [] = []
skip_verb verbs (t ∷ r) = if contains verbs t then r else t ∷ r

unfoldable pub any_in : List String → List String → Bool
any_in names [] = false
any_in names (t ∷ r) = contains names t || any_in names r

-- The common shape of `_check_ip` and `_check_bridge`, behind the program's name.
check_object : List String → List String → Denial → Denial → List String → Check Unit
check_object objects verbs no_object not_read [] = err no_object
check_object objects verbs no_object not_read (o ∷ r) = do
  require (contains objects o) no_object
  let rest = skip_verb verbs r
  require (leb (size rest) 4 && not (any_in ip_verbs_denied rest)) not_read

unfoldable pub check_ip : List String → Check Unit
unfolding check_object
check_ip args =
    check_object ip_objects ("show" ∷ "list" ∷ "ls" ∷ "get" ∷ []) ip_object ip_form
      (skip_flags ip_flags args)

unfoldable pub check_bridge : List String → Check Unit
unfolding check_object
check_bridge args =
    check_object bridge_objects ("show" ∷ "list" ∷ []) bridge_object bridge_form
      (skip_flags ip_flags args)

abbrev pub nft_lists : List String
nft_lists = "ruleset" ∷ "tables" ∷ "table" ∷ "chain" ∷ "chains" ∷ []

nft_rest : List String → Check Unit
nft_rest [] = err nft_list
nft_rest (l ∷ []) = do require (l == "list") nft_list; err nft_object
nft_rest (l ∷ o ∷ r) = do
  require (l == "list") nft_list
  require (contains nft_lists o) nft_object
  require (leb (size (l ∷ o ∷ r)) 5) nft_arguments

unfoldable pub check_nft : List String → Check Unit
unfolding nft_rest
check_nft args = nft_rest (skip_flags nft_flags args)

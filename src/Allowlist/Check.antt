-- ===== src/Allowlist/Check.antt =====
-- `check` of packages/nettwin_core/src/nettwin_core/allowlist.py: from a command text to the argv
-- that runs inside a container, or the reason why it is refused. Times are in seconds.
pub mod Canonical
pub mod Runs
use net_twin.Prelude.{
  ℕ, String, Bool, false, not, ◌&&◌, ◌||◌, List, [], ◌∷◌, Option, none, some, leb, ◌==◌, string_eq,
  if◌then◌else◌,
}
use net_twin.Prelude.Text.{
  length, size, all_chars, any_char, is_alpha, is_digit, is_space, one_of, match_class, join,
}
use net_twin.Prelude.Result.{Result, ok, err, require, ◌>>=◌, ◌>>◌}
use net_twin.Allowlist.Shlex.{SplitError, shlex_split}
use net_twin.Allowlist.Kernel.{
  Check, empty_command, metacharacters, too_long, unparsable, bad_token, not_frr, not_a_program,
  check_ip, check_bridge, check_nft,
}
use net_twin.Allowlist.Kernel.Loops.{check_ping, check_traceroute}
use net_twin.Allowlist.Kernel.Others.{check_nc, check_sysctl}

unfoldable pub is_token_char : ℕ → Bool
is_token_char c = is_alpha c || is_digit c || one_of "./:_,+-" c

unfoldable pub is_forbidden : ℕ → Bool
is_forbidden c = one_of ";|&<>`$'\"\\\r\n" c

-- `_TOKEN_RE`
abbrev pub is_token : String → Bool
is_token = match_class is_token_char

-- A pattern of FRR_FAMILIES over the words of a command: its fixed words, and how many may follow.
-- A text of words with one blank between them matches `w1 w2(?: \S+){0,n}` as a whole just where
-- its words are `w1`, `w2` and at most `n` more.
abbrev pub Family : Type 0
Family = List String × ℕ

unfoldable pub frr_families : List Family
frr_families =
    ("show" ∷ "version" ∷ [], 0)
    ∷ ("show" ∷ "running-config" ∷ [], 1)
    ∷ ("show" ∷ "interface" ∷ [], 2)
    ∷ ("show" ∷ "ip" ∷ "route" ∷ [], 4)
    ∷ ("show" ∷ "ip" ∷ "ospf" ∷ [], 5)
    ∷ ("show" ∷ "ip" ∷ "bgp" ∷ [], 7)
    ∷ ("show" ∷ "bgp" ∷ [], 7)
    ∷ ("show" ∷ "ip" ∷ "prefix-list" ∷ [], 3)
    ∷ ("show" ∷ "route-map" ∷ [], 1)
    ∷ ("show" ∷ "ip" ∷ "protocol" ∷ [], 0)
    ∷ ("show" ∷ "ip" ∷ "protocols" ∷ [], 0)
    ∷ ("show" ∷ "ip" ∷ "forwarding" ∷ [], 0)
    ∷ ("show" ∷ "zebra" ∷ [], 2)
    ∷ ("show" ∷ "ip" ∷ "nht" ∷ [], 0)
    ∷ []

unfoldable pub in_family : List String → ℕ → List String → Bool
in_family [] more argv = leb (size argv) more
in_family (w ∷ ws) more [] = false
in_family (w ∷ ws) more (t ∷ argv) = w == t && in_family ws more argv

unfoldable pub in_families : List Family → List String → Bool
unfolding in_family
in_families [] argv = false
in_families (f ∷ fs) argv = in_family f.0 f.1 argv || in_families fs argv

pub data Program : Type 0 where
  frr kernel : Program

pub record AllowedCommand : Type 0 where
  pub argv : List String
  pub family : Program
  pub timeout : ℕ

abbrev pub frr_timeout : ℕ
frr_timeout = 10

abbrev pub kernel_timeout : ℕ
kernel_timeout = 10

abbrev pub probe_timeout : ℕ
probe_timeout = 20

-- `_KERNEL_CHECKS`
abbrev pub Checker : Type 0
Checker = (List String → Check Unit) × ℕ

unfoldable pub kernel_checks : String → Option Checker
kernel_checks program =
    if program == "ip"
    then some (check_ip, kernel_timeout)
    else if program == "bridge"
    then some (check_bridge, kernel_timeout)
    else if program == "nft"
    then some (check_nft, kernel_timeout)
    else if program == "ping"
    then some (check_ping, probe_timeout)
    else if program == "traceroute"
    then some (check_traceroute, probe_timeout)
    else if program == "nc"
    then some (check_nc, probe_timeout)
    else if program == "sysctl"
    then some (check_sysctl, kernel_timeout)
    else none

unfoldable pub check_tokens : List String → Check Unit
check_tokens [] = ok tt
check_tokens (t ∷ r) = do require (is_token t) (bad_token t); check_tokens r

from_split : Result SplitError (List String) → Check (List String)
from_split (ok argv) = ok argv
from_split (err e) = err (unparsable e)

check_frr : List String → Check AllowedCommand
unfolding in_families frr_families join
check_frr argv = do
  require (in_families frr_families argv) (not_frr (join " " argv))
  ok (record { argv = "vtysh" ∷ "-c" ∷ join " " argv ∷ []; family = frr; timeout = frr_timeout })

check_kernel : String → List String → Check AllowedCommand
unfolding kernel_checks
check_kernel program args = elim (kernel_checks program) [
  | none ↦ err (not_a_program program)
  | some (fn, timeout) ↦ do
    fn args
    ok (record { argv = program ∷ args; family = kernel; timeout = timeout })
]

-- The tests behind `shlex.split`.
unfoldable pub check_argv : List String → Check AllowedCommand
unfolding check_tokens check_frr check_kernel
check_argv [] = err empty_command
check_argv (program ∷ args) = do
  check_tokens (program ∷ args)
  if program == "show" then check_frr (program ∷ args) else check_kernel program args

unfoldable pub check : String → Check AllowedCommand
unfolding shlex_split from_split check_argv is_forbidden
check cmd = do
  require (not (all_chars is_space cmd)) empty_command
  require (not (any_char is_forbidden cmd)) metacharacters
  require (leb (length cmd) 200) too_long
  argv ← from_split (shlex_split cmd)
  check_argv argv

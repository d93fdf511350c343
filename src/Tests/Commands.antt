-- ===== src/Tests/Commands.antt =====
-- Commands of packages/nettwin_core/tests/test_allowlist.py, and netverify's executor on them.
use net_twin.Prelude.{
  inl, ℕ, suc, ◌≡◌, refl, ◌⊎◌, String, Bool, true, false, List, [], ◌∷◌, none, string_eq, nat_eq,
  list_eq,
}
use net_twin.Prelude.Text.{join, is_space, int}
use net_twin.Allowlist.Ip.{is_ip}
use net_twin.Prelude.Words.{words}
use net_twin.Prelude.Chars.{all_words}
use net_twin.Prelude.Result.{ok, err}
use net_twin.Prelude.Int.{pos}
use net_twin.Core.Executor.{Executor, Fault}
use net_twin.Allowlist.Shlex.{is_white, is_quote, is_escape}
use net_twin.Allowlist.Kernel.{
  check_ip, check_bridge, any_in, ip_verbs_denied, skip_flags, skip_verb, check_nft, target,
}
use net_twin.Allowlist.Kernel.Loops.{check_ping, check_traceroute, round, arg_loop, limit, int_arg}
use net_twin.Allowlist.Kernel.Others.{check_nc, check_sysctl, is_sysctl_key}
use net_twin.Allowlist.Kernel.Verbs.{check-any_in}
use net_twin.Allowlist.Check.{AllowedCommand, check, frr, kernel, is_token_char}
use net_twin.Allowlist.Check.Canonical.{check-join-words, is_safe}
use net_twin.Allowlist.Check.Runs.{RunsKernel, RunsFrr, check-runs, check-safe}
use net_twin.NetVerify.ReadOnly.{command_text, read_only}
use net_twin.NetVerify.ReadOnly.Gate.{check-command_text, exec-allowed, exec-cases, IsAllowed}

abbrev addr_words : List String
addr_words = "ip" ∷ "-j" ∷ "-4" ∷ "addr" ∷ []

abbrev addr : AllowedCommand
addr = record { argv = addr_words; family = kernel; timeout = 10 }

addr_accepted : check "ip  -j -4 addr" ≡ ok addr
unfolding check string_eq is_space is_white is_escape is_quote is_token_char check_ip skip_flags
    skip_verb any_in
addr_accepted = refl

abbrev route : AllowedCommand
route = record { argv = "vtysh" ∷ "-c" ∷ "show ip route" ∷ []; family = frr; timeout = 10 }

route_accepted : check "show  ip route " ≡ ok route
unfolding check string_eq is_space is_white is_escape is_quote is_token_char
route_accepted = refl

-- `-c` behind `-I` counts as the limit that the code asks for, and is the interface's name.
ping_without_count :
    check "ping -I -c 10.0.40.10"
    ≡ ok (record { argv = "ping" ∷ "-I" ∷ "-c" ∷ "10.0.40.10" ∷ []; family = kernel; timeout = 20 })
unfolding check string_eq is_space is_white is_escape is_quote is_token_char check_ip check_bridge
    skip_flags skip_verb any_in check_nft check_ping check_traceroute check_nc check_sysctl round
    arg_loop limit int_arg is_ip is_sysctl_key int nat_eq target
ping_without_count = refl

check-join-words_example : check (join " " (words is_white "ip  -j -4 addr")) ≡ ok addr
check-join-words_example = check-join-words "ip  -j -4 addr" {a = addr} addr_accepted

check-runs_example :
    RunsKernel (words is_white "ip  -j -4 addr") addr
    ⊎ RunsFrr (words is_white "ip  -j -4 addr") addr
check-runs_example = check-runs "ip  -j -4 addr" {a = addr} addr_accepted

check-safe_example : all_words is_safe route.argv ≡ true
check-safe_example = check-safe "show  ip route " {a = route} route_accepted

check-command_text_example : check (command_text route.argv) ≡ ok route
check-command_text_example = check-command_text "show  ip route " {a = route} route_accepted

check-any_in_example : any_in ip_verbs_denied ("-j" ∷ "addr" ∷ "show" ∷ "eth1" ∷ []) ≡ false
unfolding check_ip skip_flags skip_verb any_in string_eq
check-any_in_example = check-any_in ("-j" ∷ "addr" ∷ "show" ∷ "eth1" ∷ []) (inl refl)

-- Counts the calls, and answers with the node's name.
abbrev counting : Executor ℕ
counting = record {
  exec = λ node argv timeout stdin n. (
    ok (record {
      node = node;
      argv = argv;
      returncode = pos 0;
      stdout = node;
      stderr = "";
      truncated = false;
      timed_out = false;
    }),
    suc n,
  );
}

exec-allowed_example :
    (read_only counting).exec "r1" addr_words 10 none 0 ≡ counting.exec "r1" addr_words 10 none 0
exec-allowed_example = exec-allowed counting "ip  -j -4 addr" "r1" addr 10 0 addr_accepted

exec-cases_example :
    ((e : Fault) × ((read_only counting).exec "r1" ("ip" ∷ "link" ∷ "del" ∷ "eth1" ∷ []) 10 none 0
        ≡ (err e, 0)))
    ⊎ (IsAllowed ("ip" ∷ "link" ∷ "del" ∷ "eth1" ∷ []) none
        × ((read_only counting).exec "r1" ("ip" ∷ "link" ∷ "del" ∷ "eth1" ∷ []) 10 none 0
            ≡ counting.exec "r1" ("ip" ∷ "link" ∷ "del" ∷ "eth1" ∷ []) 10 none 0))
exec-cases_example = exec-cases counting "r1" ("ip" ∷ "link" ∷ "del" ∷ "eth1" ∷ []) 10 none 0

abbrev all_accepted : List String → Bool
all_accepted [] = true
all_accepted (cmd ∷ r) = elim (check cmd) [ ok a ↦ all_accepted r | err e ↦ false ]

-- EXAMPLES of allowlist.py
examples_test :
    all_accepted (
      "show ip route" ∷ "show ip route 10.0.40.0/24" ∷ "show ip ospf neighbor"
      ∷ "show ip ospf interface eth1" ∷ "show bgp summary"
      ∷ "show bgp ipv4 unicast neighbors 203.0.113.2 advertised-routes" ∷ "show running-config"
      ∷ "ip -j -4 addr" ∷ "ip -j -d link show eth3.10" ∷ "ip route get 10.0.40.10"
      ∷ "bridge -j vlan show" ∷ "nft -a list ruleset" ∷ "ping -c 2 -W 1 -M do -s 1472 10.0.40.10"
      ∷ "traceroute -n -w 1 -m 8 10.0.40.10" ∷ "nc -z -w 2 10.0.40.10 80"
      ∷ "sysctl net.ipv4.ip_forward" ∷ [])
    ≡ true
unfolding check string_eq is_space is_white is_escape is_quote is_token_char check_ip check_bridge
    skip_flags skip_verb any_in check_nft check_ping check_traceroute check_nc check_sysctl round
    arg_loop limit int_arg is_ip is_sysctl_key int nat_eq target
examples_test = refl

-- The list of denied verbs has no abbreviations, which iproute2 takes: `se` for `set`.
abbreviated_test :
    all_accepted ("ip link se eth1 mtu 9000" ∷ "ip addr fl dev eth1" ∷ "bridge vlan ad dev" ∷ [])
    ≡ true
unfolding check string_eq is_space is_white is_escape is_quote is_token_char check_ip check_bridge
    skip_flags skip_verb any_in
abbreviated_test = refl

-- The probe of a `path_mtu` rule with `min_mtu` 9216, which a policy may ask for.
large_probe_test : all_accepted ("ping -c 2 -W 1 -M do -s 9188 10.0.40.10" ∷ []) ≡ false
unfolding check string_eq is_space is_white is_escape is_quote is_token_char check_ping round
    arg_loop limit int_arg int nat_eq
large_probe_test = refl

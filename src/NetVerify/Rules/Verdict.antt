-- ===== src/NetVerify/Rules/Verdict.antt =====
-- The results of the rules, each from what was found, in packages/netverify/src/netverify/rules.py.
use net_twin.Prelude.{
  ℕ, String, ◌<>◌, Bool, true, false, not, List, [], ◌∷◌, map, if◌then◌else◌, string_eq,
}
use net_twin.Prelude.Text.{join}
use net_twin.Prelude.Decimal.{show}
use net_twin.Core.Topology.{Link, label}
use net_twin.Core.Policy.{Expect, allow, deny}
use net_twin.Core.Models.{RuleResult}
use net_twin.NetVerify.Probes.{ProbeResult}

unfoldable pub expected : Expect → String
expected allow = "allow"
expected deny = "deny"

unfoldable pub wanted : Expect → Bool → Bool
wanted allow b = b
wanted deny b = not b

unfoldable pub verdict : String → String → Bool → String → RuleResult
verdict i kind passed detail = record { rule_id = i; kind = kind; passed = passed; detail = detail }

-- The result of a `ReachRule` and of a `PathMtuRule` by its probe.
unfoldable pub reach_result : String → String → String → Expect → ProbeResult → RuleResult
unfolding verdict wanted expected
reach_result i src dst expect p = verdict i "reach" (wanted expect p.is_ok) (
    src
    <> (" -> "
        <> (dst
            <> (" ("
                <> (p.kind
                    <> (") "
                        <> ((if p.is_ok then "reachable" else "unreachable")
                            <> (", expected " <> expected expect))))))))

unfoldable pub mtu_result : String → String → String → ℕ → ProbeResult → RuleResult
unfolding verdict
mtu_result i src dst min_mtu p = verdict i "path_mtu" p.is_ok (
    src
    <> (" -> "
        <> (dst
            <> (" "
                <> (show min_mtu
                    <> ("-byte DF probe " <> (if p.is_ok then "passed" else "dropped")))))))

unfoldable pub ospf_result : String → String → String → Bool → RuleResult
unfolding verdict
ospf_result i node iface passed =
    verdict i "ospf_full" passed
      (node <> (" " <> (iface <> (" OSPF neighbour " <> (if passed then "Full" else "not Full")))))

unfoldable pub bgp_result : String → String → String → Bool → RuleResult
unfolding verdict
bgp_result i node peer passed = verdict i "bgp_established" passed (
    node
    <> (" BGP session to "
        <> (peer <> (" " <> (if passed then "Established" else "not Established")))))

unfoldable pub leak_result : String → String → List String → List String → RuleResult
unfolding verdict
leak_result i node prefixes [] =
    verdict i "no_route_leak" true (node <> (" has no route inside " <> join ", " prefixes))
leak_result i node prefixes (l ∷ leaked) =
    verdict i "no_route_leak" false (node <> (" routes " <> join ", " (l ∷ leaked)))

unfoldable pub spof_result : String → List String → List (ℕ × Link) → RuleResult
unfolding verdict
spof_result i nodes [] =
    verdict i "no_spof" true ("no single link failure partitions " <> join ", " nodes)
spof_result i nodes (l ∷ ls) = verdict i "no_spof" false (
    "single link failure partitions the set: "
    <> join "; " (map (λ (p : ℕ × Link). label p.1) (l ∷ ls)))

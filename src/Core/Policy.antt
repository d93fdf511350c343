-- ===== src/Core/Policy.antt =====
-- packages/nettwin_core/src/nettwin_core/policy.py: the rules of an intent policy and the checks on
-- them. `str(ipaddress.ip_address(s))` and `str(ipaddress.ip_network(s, strict=True))` are
-- parameters, none where they raise. Literals that the types of the fields rule out are not
-- modelled, nor is the decoding of YAML.
pub mod References
use net_twin.Prelude.{
  ℕ, String, Bool, true, false, not, ◌&&◌, List, [], ◌∷◌, Option, none, some, leb, ◌==◌, string_eq,
  contains, if◌then◌else◌,
}
use net_twin.Prelude.Text.{between, size}
use net_twin.Prelude.Dict.{find}
use net_twin.Prelude.Result.{Result, ok, err, require, ◌>>=◌, ◌>>◌}

pub data Protocol : Type 0 where
  icmp tcp : Protocol

pub data Expect : Type 0 where
  allow deny : Expect

pub record Target : Type 0 where
  pub node : String
  pub ip : String

-- The union `Rule`. The first field of each is its id.
pub data Rule : Type 0 where
  reach : String → (src dst : String) → Protocol → Option ℕ → Expect → Rule
  path_mtu : String → (src dst : String) (min_mtu : ℕ) → Rule
  ospf_full : String → (node iface : String) → Rule
  bgp_established : String → (node peer : String) → Rule
  no_route_leak : String → (node : String) (prefixes : List String) → Rule
  no_spof : String → (nodes : List String) → Rule

unfoldable pub rule_id : Rule → String
rule_id (reach i s d p port e) = i
rule_id (path_mtu i s d m) = i
rule_id (ospf_full i n f) = i
rule_id (bgp_established i n p) = i
rule_id (no_route_leak i n ps) = i
rule_id (no_spof i ns) = i

-- The names of targets that a rule refers to.
unfoldable pub references : Rule → List String
references (reach i s d p port e) = s ∷ d ∷ []
references (path_mtu i s d m) = s ∷ d ∷ []
references rule = []

pub record Policy : Type 0 where
  pub version : ℕ
  pub targets : List (String × Target)
  pub rules : List Rule

-- What the validators raise.
pub data PolicyError : Type 0 where
  bad_ip bad_network port_missing out_of_range too_few : PolicyError
  duplicate : String → PolicyError
  unknown_target : String → String → PolicyError

unfoldable pub known : Option Target → Bool
known none = false
known (some t) = true

unfoldable pub check_names :
    List (String × Target) → String → List String → Result PolicyError (Unit {0})
unfolding known
check_names targets id [] = ok tt
check_names targets id (name ∷ names) = do
  require (known (find name targets)) (unknown_target id name)
  check_names targets id names

-- The loop of `Policy._check_references`, with what it has seen.
unfoldable pub check_from :
    List (String × Target) → List String → List Rule → Result PolicyError (Unit {0})
unfolding check_names references rule_id
check_from targets seen [] = ok tt
check_from targets seen (r ∷ rs) = do
  require (not (contains seen (rule_id r))) (duplicate (rule_id r))
  check_names targets (rule_id r) (references r)
  check_from targets (rule_id r ∷ seen) rs

unfoldable pub check_references : Policy → Result PolicyError Policy
unfolding check_from
check_references p = do check_from p.targets [] p.rules; ok p

-- `Policy.rule`
unfoldable pub find_rule : String → List Rule → Option Rule
find_rule id [] = none
find_rule id (r ∷ rs) = let rest = find_rule id rs in if rule_id r == id then some r else rest

-- `ReachRule._port_for_tcp` and the bounds of the port.
valid_port : Protocol → Option ℕ → Result PolicyError (Unit {0})
valid_port tcp none = err port_missing
valid_port icmp none = ok tt
valid_port proto (some port) = require (between 1 65535 port) out_of_range

module _ (ip_address ip_network : String → Option String) where
  address : String → Result PolicyError String
  address s = elim (ip_address s) [ none ↦ err bad_ip | some t ↦ ok t ]

  networks : List String → Result PolicyError (List String)
  networks [] = ok []
  networks (s ∷ ss) = elim (ip_network s) [
    | none ↦ err bad_network
    | some t ↦ do ts ← networks ss; ok (t ∷ ts)
  ]

  -- `Target._validate_ip`
  unfoldable pub valid_target : Target → Result PolicyError Target
  unfolding address
  valid_target t = do ip ← address t.ip; ok (record t { ip = ip })

  -- The validators of one rule.
  unfoldable pub valid_rule : Rule → Result PolicyError Rule
  unfolding address networks valid_port
  valid_rule (reach i s d proto port e) = do valid_port proto port; ok (reach i s d proto port e)
  valid_rule (path_mtu i s d m) = do
    require (between 576 9216 m) out_of_range
    ok (path_mtu i s d m)
  valid_rule (ospf_full i n f) = ok (ospf_full i n f)
  valid_rule (bgp_established i n p) = do peer ← address p; ok (bgp_established i n peer)
  valid_rule (no_route_leak i n ps) = do
    require (leb 1 (size ps)) too_few
    prefixes ← networks ps
    ok (no_route_leak i n prefixes)
  valid_rule (no_spof i ns) = do require (leb 2 (size ns)) too_few; ok (no_spof i ns)

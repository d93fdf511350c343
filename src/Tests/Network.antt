-- ===== src/Tests/Network.antt =====
-- A lab of three nodes in a row, and operations on them.
use net_twin.Prelude.{
  ◌≡◌, refl, ◌↔◌, String, true, List, [], ◌∷◌, Option, none, some, string_eq, nat_eq, option_eq,
  list_eq, ◌==◌, if◌then◌else◌, arith, Bool-cases, inl, inr,
}
use mathlib.Core.Path.{subst}
use mathlib.Core.Option.{some-injective}
use net_twin.Prelude.Result.{ok}
use net_twin.Core.Topology.{
  Topology, Link, Node, is_connected, single_link_partitions, neighbors_from, other, add, offer,
  offer_all, search,
}
use net_twin.Core.Topology.Connected.{AllJoined, is_connected_iff}
use net_twin.Core.Topology.Partitions.{at_index, single_link_partitions_iff}
use net_twin.Core.Ops.{Op, set_addr, validate, is_control, is_iface, is_iface_char}
use net_twin.Core.Ops.Safe.{is_clean}
use net_twin.Core.Ops.Render.{Argv, render}
use net_twin.Core.Ops.Render.Rendered.{all_argv, validate-render-clean}

abbrev link : String → String → Link
link a b = record { a_node = a; a_iface = "eth1"; b_node = b; b_iface = "eth2" }

abbrev router : String → Node
router name = record { name = name; kind = "linux"; image = none; role = "core" }

abbrev row : Topology
row = record {
  name = "row";
  nodes = ("r1", router "r1") ∷ ("r2", router "r2") ∷ ("r3", router "r3") ∷ [];
  links = link "r1" "r2" ∷ link "r2" "r3" ∷ link "r3" "r2" ∷ [];
}

abbrev ends : List String
ends = "r1" ∷ "r3" ∷ []

-- Only the link of r1 is a single point of failure.
partitions_test : single_link_partitions row ends ≡ (0, link "r1" "r2") ∷ []
unfolding single_link_partitions is_connected search neighbors_from other add offer offer_all
    string_eq nat_eq option_eq
partitions_test = refl

is_connected_iff_example : (is_connected row ends (some 1) ≡ true) ↔ AllJoined row (some 1) ends
is_connected_iff_example = is_connected_iff row (some 1) ends

single_link_partitions_iff_example :
    (at_index 0 (single_link_partitions row ends) ≡ some (link "r1" "r2"))
    ↔ (¬ AllJoined row (some 0) ends)
single_link_partitions_iff_example = single_link_partitions_iff row ends 0 (link "r1" "r2") refl

abbrev address : String
address = "10.0.1.1/24"

abbrev one_address : String → Option String
one_address s = if s == address then some address else none

address_clean : is_clean address ≡ true
unfolding is_control
address_clean = refl

one_address-clean : (s t : String) → one_address s ≡ some t → is_clean t ≡ true
one_address-clean s t h = elim (Bool-cases (s == address)) [
  | inl same ↦
      subst (λ x. is_clean x ≡ true) (some-injective address t (rw same at h)) address_clean
  | inr other' ↦ ground (arith, other')
]

abbrev readdress : Op
readdress = set_addr "eth1" address true

abbrev readdress_argv : List Argv
readdress_argv =
    ("ip" ∷ "addr" ∷ "flush" ∷ "dev" ∷ "eth1" ∷ [])
    ∷ ("ip" ∷ "addr" ∷ "add" ∷ address ∷ "dev" ∷ "eth1" ∷ [])
    ∷ []

readdress_valid : validate one_address readdress ≡ ok readdress
unfolding validate is_iface is_iface_char string_eq
readdress_valid = refl

readdress_rendered : render readdress ≡ ok readdress_argv
unfolding render
readdress_rendered = refl

validate-render-clean_example : all_argv is_clean readdress_argv ≡ true
validate-render-clean_example =
    validate-render-clean one_address one_address-clean readdress readdress readdress_argv
      readdress_valid readdress_rendered

-- ===== src/TwinLab/Restore/Ports.antt =====
-- The commands of a restore for the VLANs of bridge ports, and for nftables, in
-- packages/twinlab/src/twinlab/snapshot.py.
use net_twin.Prelude.{
  String, ◌<>◌, Bool, true, false, List, [], ◌∷◌, ◌++◌, Option, none, some, ◌==◌, string_eq, nat_eq,
  list_eq, if◌then◌else◌,
}
use net_twin.Prelude.Dict.{find}
use net_twin.Prelude.Decimal.{show}
use net_twin.Prelude.Sort.{sort}
use net_twin.Core.Snapshot.Vlans.{Vlan, without_vlans, le_vlan}
use net_twin.TwinLab.Restore.{Command, run}

abbrev pub self_flag : Bool → List String
self_flag true = "self" ∷ []
self_flag false = []

option_word : Bool → String → List String
option_word true w = w ∷ []
option_word false w = []

del_vids : String → List String → List Vlan → List Command
del_vids port self [] = []
del_vids port self (v ∷ vs) =
    run ("bridge" ∷ "vlan" ∷ "del" ∷ "dev" ∷ port ∷ "vid" ∷ show v.vid ∷ self)
    ∷ del_vids port self vs

add_vids : String → List String → List Vlan → List Command
unfolding option_word
add_vids port self [] = []
add_vids port self (v ∷ vs) =
    run (
      "bridge"
      ∷ "vlan"
      ∷ "add"
      ∷ "dev"
      ∷ port
      ∷ "vid"
      ∷ show v.vid
      ∷ (option_word v.pvid "pvid" ++ (option_word v.untagged "untagged" ++ self)))
    ∷ add_vids port self vs

unfoldable pub vlan_set_of : Option (List Vlan) → List Vlan
vlan_set_of none = []
vlan_set_of (some vs) = vs

is_member : Option (Unit {0}) → Bool
is_member none = false
is_member (some u) = true

unfoldable pub port_commands :
    List (String × Unit {0})
    → List (String × List Vlan)
    → List (String × List Vlan)
    → String
    → List Command
unfolding del_vids add_vids vlan_set_of is_member
port_commands bridges cur tgt port =
    let self = self_flag (is_member (find port bridges)) in
    let have = vlan_set_of (find port cur) in
    let want = vlan_set_of (find port tgt) in
    del_vids port self (sort le_vlan (without_vlans have want))
    ++ add_vids port self (sort le_vlan (without_vlans want have))

unfoldable pub nft_commands : String → String → List Command
nft_commands current target =
    if current == target
    then []
    else record {
      argv = "nft" ∷ "-f" ∷ "-" ∷ [];
      stdin = some ("flush ruleset\n" <> (target <> "\n"));
    }
      ∷ []

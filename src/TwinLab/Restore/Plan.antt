-- ===== src/TwinLab/Restore/Plan.antt =====
-- `plan_kernel_restore` and `plan_restore` of packages/twinlab/src/twinlab/snapshot.py.
use net_twin.Prelude.{ℕ, String, List, [], ◌++◌, Option, none, some, ◌==◌, string_eq, if◌then◌else◌}
use net_twin.Prelude.Json.{Fields}
use net_twin.Prelude.Result.{ok, ◌>>=◌}
use net_twin.Core.Topology.{Node}
use net_twin.Core.Snapshot.Normal.{mgmt_ifaces}
use net_twin.Core.Snapshot.State.{NodeState, Reads, vlan_links, mtus, addresses, bridge_devices}
use net_twin.Core.Snapshot.Vlans.{Vlan, bridge_vlans}
use net_twin.TwinLab.Restore.{
  Command, RestorePlan, plan_frr_restore, VlanLinks, names, all_names, for_names, del_vlan_link,
  add_vlan_link, is_recreated, mtu_commands, addr_commands,
}
use net_twin.TwinLab.Restore.Ports.{port_commands, nft_commands}

-- What is read in a state: its VLAN links, MTUs and addresses by name.
pub record Ifaces : Type 0 where
  pub vlans : VlanLinks
  pub mtus : List (String × ℕ)
  pub addrs : List (String × List String)

-- The bridges of the target, and the VLANs by port of both states.
pub record Ports : Type 0 where
  pub bridges : List (String × Unit {0})
  pub cur : List (String × List Vlan)
  pub tgt : List (String × List Vlan)

unfoldable pub vlan_plan : VlanLinks → VlanLinks → List Command
unfolding for_names names del_vlan_link add_vlan_link
vlan_plan cur tgt =
    for_names (del_vlan_link cur tgt) (names cur) ++ for_names (add_vlan_link cur tgt) (names tgt)

unfoldable pub iface_plan : List String → Ifaces → Ifaces → List Command
unfolding vlan_plan mtu_commands addr_commands is_recreated all_names
iface_plan protect cur tgt =
    let recreated = is_recreated cur.vlans tgt.vlans in
    vlan_plan cur.vlans tgt.vlans
    ++ (for_names (mtu_commands protect recreated cur.mtus tgt.mtus) (names tgt.mtus)
        ++ for_names (addr_commands protect recreated cur.addrs tgt.addrs)
            (all_names cur.addrs tgt.addrs))

unfoldable pub port_plan : Option Ports → List Command
unfolding for_names port_commands all_names
port_plan none = []
port_plan (some p) = for_names (port_commands p.bridges p.cur p.tgt) (all_names p.cur p.tgt)

module _ (repr : String → String) where
  unfoldable pub ifaces_of : NodeState → Reads Ifaces
  ifaces_of s = do
    vlans ← vlan_links repr s
    mtu ← mtus repr s
    addrs ← addresses repr s
    ok (record { vlans = vlans; mtus = mtu; addrs = addrs })

  unfoldable pub ports_of : Option (List Fields) → NodeState → NodeState → Reads (Option Ports)
  ports_of none current target = ok none
  ports_of (some raw) current target = do
    cur ← bridge_vlans repr current
    tgt ← bridge_vlans repr target
    bridges ← bridge_devices repr target
    ok (some (record { bridges = bridges; cur = cur; tgt = tgt }))

  unfoldable pub plan_kernel_restore : List String → NodeState → NodeState → Reads (List Command)
  unfolding iface_plan port_plan nft_commands ifaces_of ports_of
  plan_kernel_restore protect current target = do
    cur ← ifaces_of current
    tgt ← ifaces_of target
    ports ← ports_of target.bridge_vlans current target
    ok (iface_plan protect cur tgt ++ (port_plan ports ++ nft_commands current.nft target.nft))

  unfoldable pub plan_restore : NodeState → NodeState → Node → Reads RestorePlan
  unfolding plan_frr_restore plan_kernel_restore
  plan_restore current target node = do
    kernel ← plan_kernel_restore mgmt_ifaces current target
    ok (record {
      frr = if node.role == "router" then plan_frr_restore current target else [];
      kernel = kernel;
    })

-- ===== src/TwinLab/Restore/Same.antt =====
-- The plan for a node whose configured fields are those of the target.
use net_twin.Prelude.{
  ℕ, ◌≡◌, refl, sym, ap, ◌∙◌, String, Bool, true, false, List, [], ◌∷◌, ◌++◌, Option, none, some,
  ◌==◌, string_eq, nat_eq, list_eq, if◌then◌else◌, arith, inl, inr, Bool-cases, ==_iff,
}
use net_twin.Prelude.Dict.{find}
use net_twin.Prelude.Sort.{sort}
use net_twin.Prelude.Json.{Fields}
use net_twin.Prelude.Result.{ok, Result-cases}
use net_twin.Core.Topology.{Node}
use net_twin.Core.Snapshot.Normal.{mgmt_ifaces}
use net_twin.Core.Snapshot.State.{NodeState, vlan_links, mtus, addresses, bridge_devices}
use net_twin.Core.Snapshot.Vlans.{Vlan, same_vlan, has_vlan, without_vlans, bridge_vlans}
use net_twin.Core.Snapshot.Read.{Configured, configured}
use net_twin.TwinLab.Restore.{Command, RestorePlan, all_names, same_spec, or_none, plan_frr_restore}
use net_twin.TwinLab.Restore.Ports.{port_commands, vlan_set_of, nft_commands}
use net_twin.TwinLab.Restore.Plan.{
  Ifaces, Ports, iface_plan, port_plan, ifaces_of, ports_of, plan_kernel_restore, plan_restore,
}
use net_twin.TwinLab.Restore.Idle.{for_names-all, mtu_agrees}
use net_twin.TwinLab.Restore.Agree.{agrees, iface_plan_iff}

==_refl_text : (s : String) → (s == s) ≡ true
==_refl_text s = (==_iff s s).1 refl

same_spec_refl : (o : Option (String × ℕ)) → same_spec o o ≡ true
unfolding same_spec
same_spec_refl none = refl
same_spec_refl (some a) = ground arith

mtu_agrees_refl : (o : Option ℕ) → mtu_agrees o o ≡ true
unfolding mtu_agrees
mtu_agrees_refl none = refl
mtu_agrees_refl (some n) = ground arith

agrees_refl : (protect : List String) (i : Ifaces) (n : String) → agrees protect i i n ≡ true
unfolding agrees
agrees_refl protect i n = ground (
  arith,
  same_spec_refl (find n i.vlans),
  mtu_agrees_refl (find n i.mtus),
  (==_iff (or_none (find n i.addrs)) (or_none (find n i.addrs))).1 refl,
)

same_vlan_refl : (v : Vlan) → same_vlan v v ≡ true
unfolding same_vlan
same_vlan_refl v = ground (arith, Bool-cases v.pvid, Bool-cases v.untagged)

has_vlan_self : (vs : List Vlan) (v : Vlan) → has_vlan (v ∷ vs) v ≡ true
unfolding has_vlan
has_vlan_self vs v = ground (arith, same_vlan_refl v)

-- Every element of `a` is in `b`.
without_vlans-nil :
    (a b : List Vlan)
    → ((v : Vlan) → has_vlan a v ≡ true → has_vlan b v ≡ true)
    → without_vlans a b ≡ []
unfolding without_vlans has_vlan
without_vlans-nil [] b k = refl
without_vlans-nil (v ∷ a) b k =
    ground (arith, k v (has_vlan_self a v), without_vlans-nil a b (λ w h. k w (ground (arith, h))))

without_vlans_self : (a : List Vlan) → without_vlans a a ≡ []
without_vlans_self a = without_vlans-nil a a λ v h. h

port_commands-nil :
    (bridges : List (String × Unit {0})) (m : List (String × List Vlan)) (n : String)
    → port_commands bridges m m n ≡ []
unfolding port_commands sort
port_commands-nil bridges m n = rw (without_vlans_self (vlan_set_of (find n m))) refl

port_plan-nil :
    (bridges : List (String × Unit {0})) (m : List (String × List Vlan))
    → port_plan (some (record { bridges = bridges; cur = m; tgt = m })) ≡ []
unfolding port_plan
port_plan-nil bridges m =
    for_names-all (port_commands bridges m m) (all_names m m) (port_commands-nil bridges m)

iface_plan-nil_self : (protect : List String) (i : Ifaces) → iface_plan protect i i ≡ []
iface_plan-nil_self protect i = (iface_plan_iff protect i i).1 (agrees_refl protect i)

module _ (repr : String → String) (a b : NodeState) (same : configured a ≡ configured b) where
  same_config : a.running_config ≡ b.running_config
  unfolding configured
  same_config = ap (λ (c : Configured). c.running_config) same

  same_addrs : a.addrs ≡ b.addrs
  unfolding configured
  same_addrs = ap (λ (c : Configured). c.addrs) same

  same_links : a.links ≡ b.links
  unfolding configured
  same_links = ap (λ (c : Configured). c.links) same

  same_bridge_vlans : a.bridge_vlans ≡ b.bridge_vlans
  unfolding configured
  same_bridge_vlans = ap (λ (c : Configured). c.bridge_vlans) same

  same_nft : a.nft ≡ b.nft
  unfolding configured
  same_nft = ap (λ (c : Configured). c.nft) same

  ifaces_of-same : ifaces_of repr a ≡ ifaces_of repr b
  unfolding ifaces_of vlan_links mtus addresses
  ifaces_of-same = rw (same_links, same_addrs) refl

  bridge_vlans-same : bridge_vlans repr a ≡ bridge_vlans repr b
  unfolding bridge_vlans
  bridge_vlans-same = rw same_bridge_vlans refl

  ports_of-nil :
      (raw : Option (List Fields)) (p : Option Ports)
      → ports_of repr raw a b ≡ ok p
      → port_plan p ≡ []
  unfolding ports_of port_plan
  ports_of-nil none p h = let e : none ≡ p = ground (arith, h) in rw (← e) refl
  ports_of-nil (some raw) p h = elim (Result-cases (bridge_vlans repr b)) [
    | inr (e, q) ↦ let bad : ⊥ = ground (arith, rw (bridge_vlans-same, q) at h) in elim bad [ ]
    | inl (m, q) ↦ elim (Result-cases (bridge_devices repr b)) [
      | inr (e, r) ↦ let bad : ⊥ = ground (arith, rw (bridge_vlans-same, q, r) at h) in elim bad [ ]
      | inl (bs, r) ↦
          let e : some (record { bridges = bs; cur = m; tgt = m }) ≡ p =
            ground (arith, rw (bridge_vlans-same, q, r) at h) in
          rw (← e) (port_plan-nil bs m)
    ]
  ]

  nft_commands-nil : nft_commands a.nft b.nft ≡ []
  unfolding nft_commands
  nft_commands-nil = rw (same_nft, ==_refl_text b.nft) refl

  plan_frr_restore-nil : plan_frr_restore a b ≡ []
  unfolding plan_frr_restore
  plan_frr_restore-nil = rw (same_config, ==_refl_text b.running_config) refl

  plan_kernel_restore-nil :
      (protect : List String) (cmds : List Command)
      → plan_kernel_restore repr protect a b ≡ ok cmds
      → cmds ≡ []
  unfolding plan_kernel_restore
  plan_kernel_restore-nil protect cmds h = elim (Result-cases (ifaces_of repr b)) [
    | inr (e, q) ↦ let bad : ⊥ = ground (arith, rw (ifaces_of-same, q) at h) in elim bad [ ]
    | inl (i, q) ↦ elim (Result-cases (ports_of repr b.bridge_vlans a b)) [
      | inr (e, r) ↦ let bad : ⊥ = ground (arith, rw (ifaces_of-same, q, r) at h) in elim bad [ ]
      | inl (p, r) ↦
          let e : iface_plan protect i i ++ (port_plan p ++ nft_commands a.nft b.nft) ≡ cmds =
            ground (arith, rw (ifaces_of-same, q, r) at h) in
          sym e
          ∙ rw (iface_plan-nil_self protect i, ports_of-nil b.bridge_vlans p r, nft_commands-nil)
              refl
    ]
  ]

  router_nil : (is_router : Bool) → (if is_router then plan_frr_restore a b else []) ≡ []
  router_nil true = plan_frr_restore-nil
  router_nil false = refl

  -- For a node whose configured fields, those that a snapshot's id is made of, are the ones of the
  -- target, the plan to restore it has no command, whatever the derived routes are.
  pub plan_restore-nil :
      (node : Node) (plan : RestorePlan)
      → plan_restore repr a b node ≡ ok plan
      → plan ≡ record { frr = []; kernel = [] }
  unfolding plan_restore
  plan_restore-nil node plan h = elim (Result-cases (plan_kernel_restore repr mgmt_ifaces a b)) [
    | inr (e, q) ↦ let bad : ⊥ = ground (arith, rw q at h) in elim bad [ ]
    | inl (cmds, q) ↦
        let e : record {
          frr = if node.role == "router" then plan_frr_restore a b else [];
          kernel = cmds;
        }
            ≡ plan =
          ground (arith, rw q at h) in
        sym e
        ∙ rw (router_nil (node.role == "router"), plan_kernel_restore-nil mgmt_ifaces cmds q) refl
  ]

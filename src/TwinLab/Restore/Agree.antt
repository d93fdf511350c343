-- ===== src/TwinLab/Restore/Agree.antt =====
-- The plan for the interfaces of a node and what the two states say of them.
use net_twin.Prelude.{
  ◌≡◌, ◌↔◌, refl, String, Bool, true, false, ◌&&◌, ◌||◌, List, [], ◌==◌, string_eq, nat_eq, list_eq,
  contains, arith,
}
use net_twin.Prelude.Dict.{find}
use net_twin.TwinLab.Restore.{
  names, all_names, for_names, same_spec, is_recreated, mtu_commands, or_none, addr_commands,
}
use net_twin.TwinLab.Restore.Plan.{Ifaces, vlan_plan, iface_plan}
use net_twin.TwinLab.Restore.Idle.{
  append-nil_left, for_names-all, vlan_plan-nil, vlan_plan-all, mtu_agrees, mtu-nil, mtu-all,
  addr-nil, addr-all,
}

-- Both states have the same VLAN link of a name or none; and for a name that is not protected, the MTU
-- that the target gives, if any, is the one that is set, and the addresses are the same.
unfoldable pub agrees : List String → Ifaces → Ifaces → String → Bool
unfolding mtu_agrees or_none same_spec
agrees protect cur tgt n =
    same_spec (find n cur.vlans) (find n tgt.vlans)
    && ((contains protect n || mtu_agrees (find n cur.mtus) (find n tgt.mtus))
        && (contains protect n || or_none (find n tgt.addrs) == or_none (find n cur.addrs)))

module _ (protect : List String) (cur tgt : Ifaces) where
  abbrev recreated : String → Bool
  recreated = is_recreated cur.vlans tgt.vlans

  kept : (n : String) → same_spec (find n cur.vlans) (find n tgt.vlans) ≡ true → recreated n ≡ false
  unfolding is_recreated
  kept n h = ground (arith, h)

  iface_plan-nil : (n : String) → iface_plan protect cur tgt ≡ [] → agrees protect cur tgt n ≡ true
  unfolding iface_plan agrees
  iface_plan-nil n h =
      let (p, rest) = append-nil_left (vlan_plan cur.vlans tgt.vlans) _ h in
      let (q, r) =
        append-nil_left
          (for_names (mtu_commands protect recreated cur.mtus tgt.mtus) (names tgt.mtus)) _ rest in
      let same = vlan_plan-nil cur.vlans tgt.vlans n p in
      let k = kept n same in
      ground (
        arith,
        same,
        mtu-nil protect recreated cur.mtus tgt.mtus n k q,
        addr-nil protect recreated cur.addrs tgt.addrs n k r,
      )

  iface_plan-all :
      ((n : String) → agrees protect cur tgt n ≡ true) → iface_plan protect cur tgt ≡ []
  unfolding iface_plan agrees
  iface_plan-all h =
      let same : (n : String) → same_spec (find n cur.vlans) (find n tgt.vlans) ≡ true =
        λ n. ground (arith, h n) in
      let p = vlan_plan-all cur.vlans tgt.vlans same in
      let q =
        for_names-all (mtu_commands protect recreated cur.mtus tgt.mtus) (names tgt.mtus) (λ n.
          mtu-all protect recreated cur.mtus tgt.mtus n (kept n (same n)) (ground (arith, h n))) in
      let r =
        for_names-all (addr_commands protect recreated cur.addrs tgt.addrs)
          (all_names cur.addrs tgt.addrs)
          (λ n.
            addr-all protect recreated cur.addrs tgt.addrs n (kept n (same n))
              (ground (arith, h n))) in
      rw (p, q, r) refl

  -- The part of a restore plan that is about interfaces is empty exactly if, for every name, both
  -- states have the same VLAN link or none, and, for a name that is not protected, the MTU that
  -- the target gives is the one that is set and the addresses are the same.
  pub iface_plan_iff :
      (iface_plan protect cur tgt ≡ []) ↔ ((n : String) → agrees protect cur tgt n ≡ true)
  iface_plan_iff = (λ h n. iface_plan-nil n h, iface_plan-all)

-- ===== src/Core/Snapshot/Vlans.antt =====
-- The VLANs of bridge ports, in snapshot.py of packages/nettwin_core/src/nettwin_core: their normal
-- form, and the sets that are compared. Flags are texts.
use net_twin.Prelude.{
  ℕ, String, Bool, true, false, ◌&&◌, ◌||◌, List, [], ◌∷◌, Option, none, some, map, ◌==◌, nat_eq,
  string_eq, contains, if◌then◌else◌, leb,
}
use net_twin.Prelude.Sort.{le_text, sort}
use net_twin.Prelude.Result.{ok, err, ◌>>=◌}
use net_twin.Prelude.Json.{
  Json, Fields, null, text, list, dict, end, field, not_text, get, as_list, as_dict, int_of, truthy,
  of_list,
}
use net_twin.Core.Snapshot.Normal.{ifname, by_name, list_at, each}
use net_twin.Core.Snapshot.State.{NodeState, or_empty, Reads, at, fill}

texts_of : List Json → Reads (List String)
texts_of [] = ok []
texts_of (text s ∷ js) = do rest ← texts_of js; ok (s ∷ rest)
texts_of (j ∷ js) = err not_text

-- `v.get("vlan")`
vlan_value : Fields → Json
vlan_value v = elim (get "vlan" v) [ none ↦ null | some j ↦ j ]

-- `int(v["vlan"] or 0)`
vlan_key : Json → Reads ℕ
vlan_key j = if truthy j then int_of j else ok 0

by_key : ℕ × Json → ℕ × Json → Bool
by_key a b = leb a.0 b.0

-- A pair of an integer and two flags, and `a <= b` on such.
pub record Vlan : Type 0 where
  pub vid : ℕ
  pub pvid : Bool
  pub untagged : Bool

le_flag : Bool → Bool → Bool
le_flag true false = false
le_flag _ _ = true

same_flag : Bool → Bool → Bool
same_flag true true = true
same_flag false false = true
same_flag _ _ = false

unfoldable pub same_vlan : Vlan → Vlan → Bool
unfolding same_flag
same_vlan a b = a.vid == b.vid && same_flag a.pvid b.pvid && same_flag a.untagged b.untagged

unfoldable pub le_vlan : Vlan → Vlan → Bool
unfolding le_flag same_flag
le_vlan a b =
    if a.vid == b.vid
    then (if same_flag a.pvid b.pvid then le_flag a.untagged b.untagged else le_flag a.pvid b.pvid)
    else leb a.vid b.vid

-- `v in s`
unfoldable pub has_vlan : List Vlan → Vlan → Bool
unfolding same_vlan
has_vlan [] v = false
has_vlan (w ∷ ws) v = same_vlan v w || has_vlan ws v

unfoldable pub add_vlan_to : Vlan → List Vlan → List Vlan
unfolding has_vlan
add_vlan_to v s = if has_vlan s v then s else v ∷ s

-- `a - b`
unfoldable pub without_vlans : List Vlan → List Vlan → List Vlan
unfolding has_vlan
without_vlans [] b = []
without_vlans (v ∷ a) b = let rest = without_vlans a b in if has_vlan b v then rest else v ∷ rest

module _ (repr : String → String) where
  normal_vlan : Fields → Reads (ℕ × Json)
  unfolding texts_of vlan_value vlan_key list_at
  normal_vlan v = do
    raw ← list_at repr "flags" v
    flags ← texts_of raw
    key ← vlan_key (vlan_value v)
    ok (
      key,
      dict (
          field "vlan" (vlan_value v)
            (field "flags" (list (of_list (map text (sort le_text flags)))) end)),
    )

  normal_vlans : List Json → Reads (List (ℕ × Json))
  unfolding normal_vlan
  normal_vlans [] = ok []
  normal_vlans (j ∷ js) = do
    v ← as_dict j
    first ← normal_vlan v
    rest ← normal_vlans js
    ok (first ∷ rest)

  second : ℕ × Json → Json
  second p = p.1

  port_vlans : Fields → Reads Fields
  unfolding normal_vlans by_key second list_at
  port_vlans e = do
    raw ← list_at repr "vlans" e
    vlans ← normal_vlans raw
    ok (
        field "ifname" (text (ifname repr e))
          (field "vlans" (list (of_list (map second (sort by_key vlans)))) end))

  unfoldable pub normalise_bridge_vlans : List Fields → Reads (List Fields)
  unfolding port_vlans each by_name
  normalise_bridge_vlans raw = do out ← each repr port_vlans raw; ok (sort (by_name repr) out)

  vlan_set : List Json → Reads (List Vlan)
  unfolding texts_of add_vlan_to
  vlan_set [] = ok []
  vlan_set (j ∷ js) = do
    v ← as_dict j
    vlan ← at "vlan" v
    vid ← int_of vlan
    raw ← at "flags" v
    items ← as_list raw
    flags ← texts_of items
    rest ← vlan_set js
    ok (
        add_vlan_to
          (record {
            vid = vid;
            pvid = contains flags "PVID";
            untagged = contains flags "Egress Untagged";
          })
          rest)

  set_of : Fields → Reads (Option (List Vlan))
  unfolding vlan_set list_at
  set_of e = do raw ← list_at repr "vlans" e; found ← vlan_set raw; ok (some found)

  unfoldable pub bridge_vlans : NodeState → Reads (List (String × List Vlan))
  unfolding fill set_of
  bridge_vlans s = fill repr set_of [] (or_empty s.bridge_vlans)

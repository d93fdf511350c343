-- ===== src/TwinLab/Apply/Diff.antt =====
-- The texts of packages/twinlab/src/twinlab/apply.py that describe a change. `difflib.unified_diff` is a
-- parameter: it gives the lines for a context of so many lines, two lists of lines and two names.
use net_twin.Prelude.{
  ℕ, String, ◌<>◌, Bool, true, false, ◌&&◌, List, [], ◌∷◌, ◌++◌, Option, none, some, map, ◌==◌,
  string_eq, nat_eq, list_eq, if◌then◌else◌,
}
use net_twin.Prelude.Text.{join, splitlines, is_empty}
use net_twin.Prelude.Dict.{find}
use net_twin.Prelude.Decimal.{show}
use net_twin.Prelude.Sort.{sort}
use net_twin.Prelude.Result.{ok, ◌>>=◌}
use net_twin.Core.Snapshot.State.{NodeState, Reads, vlan_links, mtus, addresses}
use net_twin.Core.Snapshot.Vlans.{Vlan, bridge_vlans, without_vlans, le_vlan}
use net_twin.TwinLab.Restore.{all_names, same_spec}

show_flag : Bool → String
show_flag true = "True"
show_flag false = "False"

show_mtu : Option ℕ → String
show_mtu none = "None"
show_mtu (some m) = show m

same_number : Option ℕ → Option ℕ → Bool
same_number none none = true
same_number (some m) (some n) = m == n
same_number _ _ = false

same_list : Option (List String) → Option (List String) → Bool
same_list none none = true
same_list (some a) (some b) = a == b
same_list _ _ = false

vlans_at : Option (List Vlan) → List Vlan
vlans_at none = []
vlans_at (some vs) = vs

-- `==` on what a dict of sets gives for a port
same_set : Option (List Vlan) → Option (List Vlan) → Bool
same_set none none = true
same_set (some a) (some b) = is_nil (without_vlans a b) && is_nil (without_vlans b a)
  where
    is_nil : List Vlan → Bool
    is_nil [] = true
    is_nil (v ∷ vs) = false
same_set _ _ = false

-- A loop over names that adds a line where two values differ.
unfoldable pub lines_for : (String → Bool) → (String → String) → List String → List String
lines_for same line [] = []
lines_for same line (n ∷ ns) =
    let rest = lines_for same line ns in if same n then rest else line n ∷ rest

module _ (repr : String → String)
    (unified_diff : ℕ → List String → List String → String → String → List String) where
  show_addrs : Option (List String) → String
  show_addrs none = "None"
  show_addrs (some ss) = "[" <> (join ", " (map repr ss) <> "]")

  show_spec : Option (String × ℕ) → String
  show_spec none = "None"
  show_spec (some (parent, vid)) = "(" <> (repr parent <> (", " <> (show vid <> ")")))

  show_vlan : Vlan → String
  unfolding show_flag
  show_vlan v =
      "(" <> (show v.vid <> (", " <> (show_flag v.pvid <> (", " <> (show_flag v.untagged <> ")")))))

  show_vlans : List Vlan → String
  unfolding show_vlan
  show_vlans vs = join ", " (map show_vlan vs)

  arrow : String → String → String → String → String
  arrow name what before after = name <> (": " <> (what <> (" " <> (before <> (" -> " <> after)))))

  unfoldable pub config_diff : NodeState → NodeState → String → List String
  config_diff before after node =
      unified_diff 2 (splitlines before.running_config) (splitlines after.running_config)
        (node <> "/frr.conf@before") (node <> "/frr.conf@after")

  nft_diff : String → String → List String
  nft_diff b a =
      if b == a then [] else unified_diff 1 (splitlines b) (splitlines a) "nft@before" "nft@after"

  unfoldable pub kernel_diff : NodeState → NodeState → Reads (List String)
  unfolding lines_for arrow show_mtu show_addrs show_spec show_vlans same_number same_list same_set
      vlans_at nft_diff
  kernel_diff before after = do
    b_mtu ← mtus repr before
    a_mtu ← mtus repr after
    b_addr ← addresses repr before
    a_addr ← addresses repr after
    b_vlan ← vlan_links repr before
    a_vlan ← vlan_links repr after
    b_bv ← bridge_vlans repr before
    a_bv ← bridge_vlans repr after
    ok (
        lines_for (λ n. same_number (find n b_mtu) (find n a_mtu))
          (λ n. arrow n "mtu" (show_mtu (find n b_mtu)) (show_mtu (find n a_mtu)))
          (all_names b_mtu a_mtu)
        ++ (lines_for (λ n. same_list (find n b_addr) (find n a_addr))
              (λ n. arrow n "addr" (show_addrs (find n b_addr)) (show_addrs (find n a_addr)))
              (all_names b_addr a_addr)
            ++ (lines_for (λ n. same_spec (find n b_vlan) (find n a_vlan))
                  (λ n. arrow n "vlan" (show_spec (find n b_vlan)) (show_spec (find n a_vlan)))
                  (all_names b_vlan a_vlan)
                ++ (lines_for (λ n. same_set (find n b_bv) (find n a_bv))
                      (λ n.
                        arrow n "bridge vlans"
                          ("[" <> (show_vlans (sort le_vlan (vlans_at (find n b_bv))) <> "]"))
                          ("[" <> (show_vlans (sort le_vlan (vlans_at (find n a_bv))) <> "]")))
                      (all_names b_bv a_bv)
                    ++ nft_diff before.nft after.nft))))

  parts : String → String → List String
  parts a b =
      if is_empty a
      then (if is_empty b then [] else b ∷ [])
      else if is_empty b
      then a ∷ []
      else a ∷ b ∷ []

  text_of : List String → String
  text_of [] = "(no change detected)"
  text_of (p ∷ ps) = join "\n" (p ∷ ps)

  unfoldable pub describe_change : NodeState → NodeState → String → Reads String
  unfolding config_diff kernel_diff parts text_of
  describe_change before after node = do
    kernel ← kernel_diff before after
    ok (text_of (parts (join "\n" (config_diff before after node)) (join "\n" kernel)))

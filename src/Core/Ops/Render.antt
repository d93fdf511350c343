-- ===== src/Core/Ops/Render.antt =====
-- `render` and `render_node_ops` of packages/nettwin_core/src/nettwin_core/ops.py: an operation as
-- the argv that run inside a node's container, in order.
pub mod Rendered
use net_twin.Prelude.{
  ℕ, String, ◌<>◌, Bool, true, false, List, [], ◌∷◌, ◌++◌, Option, none, some, if◌then◌else◌,
}
use net_twin.Prelude.Text.{is_empty, is_space}
use net_twin.Prelude.Words.{words}
use net_twin.Prelude.Decimal.{show}
use net_twin.Prelude.Result.{Result, ok, err, ◌>>=◌}
use net_twin.Core.Ops.{
  Op, frr_lines, set_mtu, set_addr, add_vlan, del_vlan, bridge_vlan, nft_rule, NftRule, NftAction,
  NftFamily, Direction, add_vid, del_vid, add, insert, delete, flush_chain, inet, ip, ip6,
}

abbrev pub Argv : Type 0
Argv = List String

-- The `ValueError` of a delete whose handle was not looked up.
pub data RenderError : Type 0 where
  unresolved_handle : RenderError

unfoldable pub flag_lines : List String → Argv
flag_lines [] = []
flag_lines (l ∷ ls) = "-c" ∷ l ∷ flag_lines ls

-- `AddVlan.link_name`: an empty name counts as none.
unfoldable pub link_name : String → ℕ → Option String → String
link_name parent vlan_id none = parent <> ("." <> show vlan_id)
link_name parent vlan_id (some name) =
    if is_empty name then parent <> ("." <> show vlan_id) else name

direction : Direction → String
direction add_vid = "add"
direction del_vid = "del"

family_name : NftFamily → String
family_name inet = "inet"
family_name ip = "ip"
family_name ip6 = "ip6"

optional : Bool → String → Argv
optional true word = word ∷ []
optional false word = []

index_args : Option ℕ → Argv
index_args none = []
index_args (some n) = "index" ∷ show n ∷ []

-- `(op.rule or "").split()`
rule_tokens : Option String → Argv
rule_tokens none = []
rule_tokens (some text) = words is_space text

location : NftRule → Argv
unfolding family_name
location r = family_name r.family ∷ r.table ∷ r.chain ∷ []

with_rule : String → NftRule → List Argv
unfolding location index_args rule_tokens
with_rule action r =
    ("nft" ∷ action ∷ "rule" ∷ (location r ++ (index_args r.index ++ rule_tokens r.rule))) ∷ []

delete_rule : NftRule → Option ℕ → Result RenderError (List Argv)
unfolding location
delete_rule r none = err unresolved_handle
delete_rule r (some h) =
    ok (("nft" ∷ "delete" ∷ "rule" ∷ (location r ++ "handle" ∷ show h ∷ [])) ∷ [])

render_nft : NftAction → NftRule → Result RenderError (List Argv)
unfolding with_rule delete_rule
render_nft flush_chain r = ok (("nft" ∷ "flush" ∷ "chain" ∷ location r) ∷ [])
render_nft delete r = delete_rule r r.handle
render_nft add r = ok (with_rule "add" r)
render_nft insert r = ok (with_rule "insert" r)

unfoldable pub render : Op → Result RenderError (List Argv)
unfolding flag_lines link_name direction optional render_nft
render (frr_lines lines) = ok (("vtysh" ∷ "-c" ∷ "configure terminal" ∷ flag_lines lines) ∷ [])
render (set_mtu dev mtu) = ok (("ip" ∷ "link" ∷ "set" ∷ "dev" ∷ dev ∷ "mtu" ∷ show mtu ∷ []) ∷ [])
render (set_addr dev address replace) =
    let assign = "ip" ∷ "addr" ∷ "add" ∷ address ∷ "dev" ∷ dev ∷ [] in
    ok (if replace then ("ip" ∷ "addr" ∷ "flush" ∷ "dev" ∷ dev ∷ []) ∷ assign ∷ [] else assign ∷ [])
render (add_vlan parent vlan_id name) =
    let link = link_name parent vlan_id name in
    ok (
      ("ip"
        ∷ "link"
        ∷ "add"
        ∷ "link"
        ∷ parent
        ∷ "name"
        ∷ link
        ∷ "type"
        ∷ "vlan"
        ∷ "id"
        ∷ show vlan_id
        ∷ [])
      ∷ ("ip" ∷ "link" ∷ "set" ∷ "dev" ∷ link ∷ "up" ∷ [])
      ∷ [])
render (del_vlan name) = ok (("ip" ∷ "link" ∷ "del" ∷ "dev" ∷ name ∷ []) ∷ [])
render (bridge_vlan action dev vlan_id pvid untagged) = ok (
    ("bridge"
      ∷ "vlan"
      ∷ direction action
      ∷ "dev"
      ∷ dev
      ∷ "vid"
      ∷ show vlan_id
      ∷ (optional pvid "pvid" ++ optional untagged "untagged"))
    ∷ [])
render (nft_rule r) = render_nft r.action r

unfoldable pub render_all : List Op → Result RenderError (List Argv)
render_all [] = ok []
render_all (op ∷ ops) = do first ← render op; rest ← render_all ops; ok (first ++ rest)

-- `render_node_ops`
unfoldable pub render_node_ops :
    List (String × List Op) → Result RenderError (List (String × List Argv))
render_node_ops [] = ok []
render_node_ops ((node, ops) ∷ more) = do
  argvs ← render_all ops
  rest ← render_node_ops more
  ok ((node, argvs) ∷ rest)

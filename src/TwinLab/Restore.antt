-- ===== src/TwinLab/Restore.antt =====
-- The plans of packages/twinlab/src/twinlab/snapshot.py: the commands that bring a node from one state
-- to another. The input of a command is a text.
pub mod Ports
pub mod Plan
pub mod Idle
pub mod Agree
pub mod Same
pub mod Run
use net_twin.Prelude.{
  ℕ, String, ◌<>◌, Bool, true, false, not, ◌&&◌, ◌||◌, List, [], ◌∷◌, ◌++◌, Option, none, some,
  ◌==◌, string_eq, nat_eq, list_eq, contains, if◌then◌else◌,
}
use net_twin.Prelude.Dict.{find}
use net_twin.Prelude.Decimal.{show}
use net_twin.Prelude.Sort.{le_text, sort}
use net_twin.Prelude.Result.{Result, ok, err, ◌>>=◌}
use net_twin.Core.Topology.{Node}
use net_twin.Core.Snapshot.Normal.{mgmt_ifaces}
use net_twin.Core.Snapshot.State.{NodeState, Reads, vlan_links, mtus, addresses, bridge_devices}
use net_twin.Core.Snapshot.Vlans.{Vlan, bridge_vlans, without_vlans, le_vlan}

pub record Command : Type 0 where
  pub argv : List String
  pub stdin : Option String

pub record RestorePlan : Type 0 where
  pub frr : List Command
  pub kernel : List Command

abbrev pub restore_path : String
restore_path = "/tmp/nettwin-restore.conf"

abbrev pub frr_reload : String
frr_reload = "/usr/lib/frr/frr-reload.py"

unfoldable pub plan_frr_restore : NodeState → NodeState → List Command
plan_frr_restore current target =
    if current.running_config == target.running_config
    then []
    else record { argv = "tee" ∷ restore_path ∷ []; stdin = some (target.running_config <> "\n") }
      ∷ record { argv = frr_reload ∷ "--reload" ∷ restore_path ∷ []; stdin = none }
      ∷ []

-- A command without input.
abbrev pub run : List String → Command
run argv = record { argv = argv; stdin = none }

keys : {A : Type 0} → List (String × A) → List String
keys [] = []
keys ((k, a) ∷ m) = k ∷ keys m

-- `set(a) | set(b)`
union : List String → List String → List String
union a [] = a
union a (k ∷ b) = let rest = union a b in if contains rest k then rest else k ∷ rest

-- The keys of a dict, and of two, in order.
unfoldable pub names : {A : Type 0} → List (String × A) → List String
unfolding keys
names m = sort le_text (keys m)

unfoldable pub all_names : {A : Type 0} → List (String × A) → List (String × A) → List String
unfolding keys union
all_names m n = sort le_text (union (keys m) (keys n))

-- A loop over names whose body adds commands.
unfoldable pub for_names : (String → List Command) → List String → List Command
for_names body [] = []
for_names body (n ∷ ns) = body n ++ for_names body ns

abbrev pub VlanLinks : Type 0
VlanLinks = List (String × (String × ℕ))

-- `==` on what a dict gives for a name
unfoldable pub same_spec : Option (String × ℕ) → Option (String × ℕ) → Bool
same_spec none none = true
same_spec (some a) (some b) = a.0 == b.0 && a.1 == b.1
same_spec _ _ = false

unfoldable pub del_vlan_link : VlanLinks → VlanLinks → String → List Command
unfolding same_spec
del_vlan_link cur tgt name =
    if same_spec (find name tgt) (find name cur)
    then []
    else run ("ip" ∷ "link" ∷ "del" ∷ "dev" ∷ name ∷ []) ∷ []

add_link : String → Option (String × ℕ) → List Command
add_link name none = []
add_link name (some (parent, vid)) =
    run (
      "ip"
      ∷ "link"
      ∷ "add"
      ∷ "link"
      ∷ parent
      ∷ "name"
      ∷ name
      ∷ "type"
      ∷ "vlan"
      ∷ "id"
      ∷ show vid
      ∷ [])
    ∷ run ("ip" ∷ "link" ∷ "set" ∷ "dev" ∷ name ∷ "up" ∷ [])
    ∷ []

unfoldable pub add_vlan_link : VlanLinks → VlanLinks → String → List Command
unfolding same_spec add_link
add_vlan_link cur tgt name =
    if same_spec (find name cur) (find name tgt) then [] else add_link name (find name tgt)

is_there : Option (String × ℕ) → Bool
is_there none = false
is_there (some spec) = true

-- `name in recreated`
unfoldable pub is_recreated : VlanLinks → VlanLinks → String → Bool
unfolding is_there
is_recreated cur tgt name =
    is_there (find name tgt) && not (same_spec (find name cur) (find name tgt))

same_mtu : Option ℕ → Option ℕ → Bool
same_mtu none none = true
same_mtu (some m) (some n) = m == n
same_mtu _ _ = false

set_mtu_of : String → Option ℕ → List Command
set_mtu_of name none = []
set_mtu_of name (some mtu) = run ("ip" ∷ "link" ∷ "set" ∷ "dev" ∷ name ∷ "mtu" ∷ show mtu ∷ []) ∷ []

add_addresses : String → List String → List Command
add_addresses name [] = []
add_addresses name (a ∷ as') =
    run ("ip" ∷ "addr" ∷ "add" ∷ a ∷ "dev" ∷ name ∷ []) ∷ add_addresses name as'

flush_addresses : String → List String → List Command
flush_addresses name [] = []
flush_addresses name (a ∷ as') =
    run (
      "ip"
      ∷ "-4"
      ∷ "addr"
      ∷ "flush"
      ∷ "dev"
      ∷ name
      ∷ (if name == "lo" then "scope" ∷ "global" ∷ [] else []))
    ∷ []

unfoldable pub or_none : Option (List String) → List String
or_none none = []
or_none (some as') = as'

module _ (protect : List String) (recreated : String → Bool) where
  unfoldable pub mtu_commands : List (String × ℕ) → List (String × ℕ) → String → List Command
  unfolding same_mtu set_mtu_of
  mtu_commands cur tgt name =
      if contains protect name
      then []
      else if recreated name || not (same_mtu (find name cur) (find name tgt))
      then set_mtu_of name (find name tgt)
      else []

  unfoldable pub addr_commands :
      List (String × List String) → List (String × List String) → String → List Command
  unfolding add_addresses flush_addresses or_none
  addr_commands cur tgt name =
      let want = or_none (find name tgt) in
      let have = if recreated name then [] else or_none (find name cur) in
      if contains protect name
      then []
      else if want == have
      then []
      else flush_addresses name have ++ add_addresses name want

-- ===== src/Tests/Twins.antt =====
-- A stored snapshot, a node to restore, and a twin whose executor answers everything with an empty output.
use net_twin.Prelude.{
  some, ℕ, ◌≡◌, refl, ◌↔◌, String, true, false, List, [], ◌∷◌, Option, none, string_eq, nat_eq,
}
use net_twin.Prelude.Result.{ok, err}
use net_twin.Prelude.Dict.{find, put}
use net_twin.Prelude.Int.{pos}
use net_twin.Prelude.Json.{Json, dict_or_empty, str, text, number, Fields, end, field, get, int_of}
use net_twin.Core.Executor.{Executor}
use net_twin.Core.Topology.{Topology, Node}
use net_twin.Core.Ops.{set_mtu}
use net_twin.Core.Snapshot.Read.{Snapshot, Configured, configured}
use net_twin.Core.Snapshot.Store.{
  SnapshotFiles, save, with_prefix, resolve, load, load_unique, load-save,
}
use net_twin.TwinLab.Restore.Plan.{
  Ifaces, iface_plan, port_plan, ifaces_of, ports_of, plan_kernel_restore, plan_restore,
}
use net_twin.TwinLab.Restore.Agree.{agrees, iface_plan_iff}
use net_twin.Prelude.Sort.{sort}
use net_twin.Core.Snapshot.State.{
  NodeState, or_empty, is_text, vlan_links, mtus, addresses, bridge_devices,
}
use net_twin.Core.Snapshot.Vlans.{bridge_vlans}
use net_twin.TwinLab.Restore.{
  RestorePlan, plan_frr_restore, mtu_commands, addr_commands, for_names, names, all_names,
}
use net_twin.TwinLab.Restore.Ports.{nft_commands}
use net_twin.TwinLab.Restore.Same.{plan_restore-nil}
use net_twin.TwinLab.App.{Twin, apply, unknown_node, no_ops}
use net_twin.TwinLab.App.Kept.{Records, IsAsked, apply-Records}

abbrev stored : String → Snapshot
stored name = record { id = name; lab = "lab"; created_at = 0; nodes = [] }

abbrev files : SnapshotFiles
files = ("aabbccdd11", stored "aabbccdd11") ∷ ("aabbccdd22", stored "aabbccdd22") ∷ []

load_test : load "aabbccdd1" files ≡ ok (stored "aabbccdd11")
unfolding load resolve with_prefix find string_eq
load_test = refl

load_unique_example : stored "aabbccdd11" ≡ stored "aabbccdd11"
unfolding find string_eq
load_unique_example =
    load_unique "aabbccdd1" "aabbccdd11" files (stored "aabbccdd11") (stored "aabbccdd11") load_test
      refl refl

load-save_example : load "99887766aa" (save (stored "99887766aa") files) ≡ ok (stored "99887766aa")
unfolding with_prefix
load-save_example = load-save (stored "99887766aa") files refl refl

abbrev before : Ifaces
before = record {
  vlans = ("eth1.10", ("eth1", 10)) ∷ [];
  mtus = ("eth1", 1400) ∷ [];
  addrs = ("eth1", "10.0.0.1/24" ∷ []) ∷ [];
}

abbrev golden : Ifaces
golden = record {
  vlans = ("eth1.10", ("eth1", 10)) ∷ [];
  mtus = ("eth1", 1500) ∷ [];
  addrs = ("eth1", "10.0.0.1/24" ∷ []) ∷ [];
}

iface_plan_iff_example :
    (iface_plan ("eth0" ∷ []) before golden ≡ [])
    ↔ ((n : String) → agrees ("eth0" ∷ []) before golden n ≡ true)
iface_plan_iff_example = iface_plan_iff ("eth0" ∷ []) before golden

abbrev silent : Executor (Unit {0})
silent = record {
  exec = λ node argv timeout stdin w. (
    ok (record {
      node = node;
      argv = argv;
      returncode = pos 0;
      stdout = "";
      stderr = "";
      truncated = false;
      timed_out = false;
    }),
    w,
  );
}

abbrev small : Topology
small = record {
  name = "small";
  nodes = ("h1", record { name = "h1"; kind = "linux"; image = none; role = "host" }) ∷ [];
  links = [];
}

abbrev fresh : Twin (Unit {0})
fresh = record { world = tt; snapshots = []; changes = [] }

abbrev no_json : String → Option Json
no_json s = none

abbrev one_digest : List (String × Configured) → String
one_digest nodes = "aabbccdd33"

abbrev no_diff : ℕ → List String → List String → String → String → List String
no_diff n a b from to = []

apply-Records_example : Records (Unit {0}) (IsAsked "c1" "h1" (set_mtu "eth1" 1400 ∷ [])) fresh (
    apply silent small "lab"
      (λ s. s)
      no_json
      one_digest
      no_diff
      0
      "c1"
      "h1"
      (set_mtu "eth1" 1400 ∷ [])
      "why"
      fresh)
apply-Records_example =
    apply-Records silent small "lab" (λ s. s) no_json one_digest no_diff 0 "c1" "h1"
      (set_mtu "eth1" 1400 ∷ []) "why" fresh

-- A node that is not in the topology, and no operation at all, are refused.
refused_test :
    ((apply silent small "lab" (λ s. s) no_json one_digest no_diff 0 "c1" "h2" [] "why" fresh).0
      ≡ err (unknown_node "h2"))
    × ((apply silent small "lab" (λ s. s) no_json one_digest no_diff 0 "c1" "h1" [] "why" fresh).0
        ≡ err no_ops)
unfolding apply find string_eq
refused_test = (refl, refl)

abbrev eth1_link : Fields
eth1_link = field "ifname" (text "eth1") (field "mtu" (number 1500) end)

abbrev state_with : Option (List Fields) → NodeState
state_with routes = record {
  running_config = "hostname r1";
  addrs = some [];
  links = some (eth1_link ∷ []);
  routes = routes;
  bridge_vlans = some [];
  nft = "";
}

abbrev r1 : Node
r1 = record { name = "r1"; kind = "linux"; image = none; role = "router" }

abbrev nothing : RestorePlan
nothing = record { frr = []; kernel = [] }

idle_test : plan_restore (λ s. s) (state_with none) (state_with (some [])) r1 ≡ ok nothing
unfolding plan_restore plan_frr_restore plan_kernel_restore ifaces_of ports_of vlan_links mtus
    addresses bridge_vlans bridge_devices iface_plan port_plan mtu_commands addr_commands
    nft_commands find get string_eq sort int_of for_names names all_names or_empty dict_or_empty
    is_text put str nat_eq
idle_test = refl

plan_restore-nil_example : nothing ≡ nothing
unfolding configured
plan_restore-nil_example =
    plan_restore-nil (λ s. s) (state_with none) (state_with (some [])) refl r1 nothing idle_test

-- ===== src/Core/Snapshot/Read.antt =====
-- `Snapshot` of packages/nettwin_core/src/nettwin_core/models.py, and what `capture_node` of snapshot.py
-- of the same package runs and makes of the results. The hash of the state that is configured and
-- `json.loads` are parameters.
use net_twin.Prelude.{
  ℕ, String, Bool, List, [], ◌∷◌, ◌++◌, Option, none, some, ◌==◌, string_eq, if◌then◌else◌,
}
use net_twin.Prelude.Text.{strip, is_empty}
use net_twin.Prelude.Dict.{find}
use net_twin.Prelude.Sort.{le_text, sort}
use net_twin.Prelude.Result.{Result, ok, err, ◌>>=◌}
use net_twin.Prelude.Json.{Json, Fields, JsonFault, as_list, as_dict}
use net_twin.Core.Executor.{ExecResult, Fault, succeeded, take}
use net_twin.Core.Topology.{Node}
use net_twin.Core.Snapshot.Normal.{
  normalise_addrs, normalise_links, normalise_routes, normalise_running_config,
}
use net_twin.Core.Snapshot.State.{NodeState, Reads}
use net_twin.Core.Snapshot.Vlans.{normalise_bridge_vlans}

pub record Snapshot : Type 0 where
  pub id : String
  pub lab : String
  pub created_at : ℕ
  pub nodes : List (String × NodeState)

-- The fields of a state that are not derived.
pub record Configured : Type 0 where
  pub running_config : String
  pub addrs : Option (List Fields)
  pub links : Option (List Fields)
  pub bridge_vlans : Option (List Fields)
  pub nft : String

unfoldable pub configured : NodeState → Configured
configured s = record {
  running_config = s.running_config;
  addrs = s.addrs;
  links = s.links;
  bridge_vlans = s.bridge_vlans;
  nft = s.nft;
}

by_first : String × Configured → String × Configured → Bool
by_first a b = le_text a.0 b.0

unfoldable pub payload : List (String × NodeState) → List (String × Configured)
unfolding configured
payload [] = []
payload ((name, s) ∷ nodes) = (name, configured s) ∷ payload nodes

-- `Snapshot.compute_id`
unfoldable pub compute_id :
    (List (String × Configured) → String) → List (String × NodeState) → String
unfolding payload by_first
compute_id digest nodes = digest (sort by_first (payload nodes))

-- `Snapshot.build`, with the time as an argument
unfoldable pub build :
    (List (String × Configured) → String) → ℕ → String → List (String × NodeState) → Snapshot
unfolding compute_id
build digest now lab nodes = record {
  id = compute_id digest nodes;
  lab = lab;
  created_at = now;
  nodes = nodes;
}

abbrev pub short_id : Snapshot → String
short_id s = take 12 s.id

-- `SnapshotError`, and what the executor, the decoder and the normal forms raise.
pub data SnapshotFault : Type 0 where
  snapshot_error : String → List String → String → SnapshotFault
  exec_failed : Fault → SnapshotFault
  bad_json : SnapshotFault
  bad_shape : JsonFault → SnapshotFault

unfoldable pub shaped : {A : Type 0} → Reads A → Result SnapshotFault A
shaped (ok a) = ok a
shaped (err e) = err (bad_shape e)

entries : List Json → Reads (List Fields)
entries [] = ok []
entries (j ∷ js) = elim (as_dict j) [
  | err e ↦ err e
  | ok fs ↦ elim (entries js) [ err e ↦ err e | ok rest ↦ ok (fs ∷ rest) ]
]

unfoldable pub list_entries : Json → Reads (List Fields)
unfolding entries
list_entries j = elim (as_list j) [ err e ↦ err e | ok js ↦ entries js ]

unfoldable pub is_router : Node → Bool
is_router n = n.role == "router"

is_switch : Node → Bool
is_switch n = n.role == "switch"

-- The commands of a node, under the names of what they capture.
unfoldable pub plan : Node → List (String × List String)
unfolding is_router is_switch
plan n =
    ("addrs", "ip" ∷ "-j" ∷ "-4" ∷ "addr" ∷ [])
    ∷ ("links", "ip" ∷ "-j" ∷ "-d" ∷ "link" ∷ [])
    ∷ ("routes", "ip" ∷ "-j" ∷ "-4" ∷ "route" ∷ [])
    ∷ ((if is_router n
          then ("running_config", "vtysh" ∷ "-c" ∷ "show running-config" ∷ [])
            ∷ ("nft", "nft" ∷ "-s" ∷ "list" ∷ "ruleset" ∷ [])
            ∷ []
          else [])
        ++ (if is_switch n
            then ("bridge_vlans", "bridge" ∷ "-j" ∷ "vlan" ∷ "show" ∷ []) ∷ []
            else []))

-- The output of a command that failed: `res.stderr or res.stdout`.
unfoldable pub error_output : ExecResult → String
error_output r = if is_empty r.stderr then r.stdout else r.stderr

-- The first result that is not ok raises.
unfoldable pub check_results :
    String
    → List (String × List String)
    → List (String × ExecResult)
    → Result SnapshotFault (Unit {0})
unfolding error_output
check_results node commands [] = ok tt
check_results node commands ((key, r) ∷ rs) =
    if succeeded r
    then check_results node commands rs
    else err (
        snapshot_error node (elim (find key commands) [ none ↦ [] | some argv ↦ argv ])
          (error_output r))

-- The text that a command printed, none where it did not run.
printed : String → List (String × ExecResult) → Option String
printed key rs = elim (find key rs) [ none ↦ none | some r ↦ some r.stdout ]

or_blank : Option String → String
or_blank none = ""
or_blank (some s) = s

strip_nft : Option String → String
strip_nft none = ""
strip_nft (some s) = strip s

config_of : Option String → String
config_of none = ""
config_of (some s) = normalise_running_config s

module _ (repr : String → String) (loads : String → Option Json) where
  -- `_json_or_empty`, of which the entries are read
  json_entries : String → Result SnapshotFault (List Fields)
  unfolding list_entries shaped
  json_entries out =
      if is_empty (strip out)
      then ok []
      else elim (loads (strip out)) [ none ↦ err bad_json | some j ↦ shaped (list_entries j) ]

  vlans_of : Option String → Result SnapshotFault (Option (List Fields))
  unfolding json_entries shaped
  vlans_of none = ok none
  vlans_of (some out) = do
    raw ← json_entries out
    vlans ← shaped (normalise_bridge_vlans repr raw)
    ok (some vlans)

  -- From the results to the state.
  unfoldable pub state_of : List (String × ExecResult) → Result SnapshotFault NodeState
  unfolding json_entries printed or_blank strip_nft config_of vlans_of shaped
  state_of rs = do
    raw_addrs ← json_entries (or_blank (printed "addrs" rs))
    addrs ← shaped (normalise_addrs repr raw_addrs)
    raw_links ← json_entries (or_blank (printed "links" rs))
    raw_routes ← json_entries (or_blank (printed "routes" rs))
    vlans ← vlans_of (printed "bridge_vlans" rs)
    ok (record {
      running_config = config_of (printed "running_config" rs);
      addrs = some addrs;
      links = some (normalise_links repr raw_links);
      routes = some (normalise_routes repr raw_routes);
      bridge_vlans = vlans;
      nft = strip_nft (printed "nft" rs);
    })

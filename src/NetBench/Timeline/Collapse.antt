-- ===== src/NetBench/Timeline/Collapse.antt =====
-- `_collapse` of packages/netbench/src/netbench/timeline.py: a row is joined by the show commands of its actor
-- that follow.
use net_twin.Prelude.{
  ◌+◌, String, Bool, not, ◌&&◌, List, [], ◌∷◌, ◌++◌, if◌then◌else◌, ◌==◌, string_eq, contains,
}
use net_twin.Prelude.Result.{Result, ok, err, ◌>>=◌}
use net_twin.Prelude.Json.{Json, dict, JsonFault, truthy, as_dict, str}
use net_twin.NetBench.Calls.{field_of}
use net_twin.NetBench.Timeline.{Step, plumbing}

unfoldable pub is_show : Step → Bool
is_show s = s.tool == "run_show_command"

unfoldable pub joins : Step → Step → Bool
unfolding is_show
joins row s = is_show s && (is_show row && row.actor == s.actor)

module _ (repr : String → String) where
  -- `step.args.get("node")`
  unfoldable pub node_of : Step → Result JsonFault Json
  node_of s = do d ← as_dict s.args; ok (field_of "node" (dict d))

  unfoldable pub named : Json → Step → Step
  named node s =
      if truthy node && not (contains s.nodes (str repr node))
      then record s { nodes = s.nodes ++ (str repr node ∷ []) }
      else s

  unfoldable pub opened : Json → Step → Step
  unfolding is_show
  opened node s = if is_show s && truthy node then record s { nodes = str repr node ∷ [] } else s

  unfoldable pub joined : Json → Step → Step
  unfolding named
  joined node row = named node (record row { count = row.count + 1 })

  unfoldable pub with_row : Step → Result JsonFault (List Step) → Result JsonFault (List Step)
  with_row row (ok rows) = ok (row ∷ rows)
  with_row row (err e) = err e

  -- The rows from one that is open.
  unfoldable pub rows_from : Step → List Step → Result JsonFault (List Step)
  unfolding node_of joined opened with_row
  rows_from row [] = ok (row ∷ [])
  rows_from row (s ∷ ss) =
      let skip = rows_from row ss in
      if contains plumbing s.tool then skip else elim (node_of s) [
        | err e ↦ err e
        | ok node ↦
            let join_it = rows_from (joined node row) ss in
            let open_it = rows_from (opened node s) ss in
            if joins row s then join_it else with_row row open_it
      ]

  unfoldable pub collapse : List Step → Result JsonFault (List Step)
  unfolding node_of opened rows_from
  collapse [] = ok []
  collapse (s ∷ ss) =
      let skip = collapse ss in
      if contains plumbing s.tool
      then skip
      else elim (node_of s) [ err e ↦ err e | ok node ↦ rows_from (opened node s) ss ]

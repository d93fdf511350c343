-- ===== src/Core/Snapshot/Capture.antt =====
-- `capture` of packages/nettwin_core/src/nettwin_core/snapshot.py. The commands run one after another
-- here; the source runs them at once, up to four nodes at a time.
use net_twin.Prelude.{ℕ, String, List, [], ◌∷◌, Option, none, string_eq}
use net_twin.Prelude.Dict.{put}
use net_twin.Prelude.Result.{Result, ok, err}
use net_twin.Prelude.Action.{Action, pure, lift, ◌>>=◌, ◌>>◌}
use net_twin.Prelude.Json.{Json}
use net_twin.Core.Executor.{ExecResult, Executor, Fault}
use net_twin.Core.Topology.{Node, Topology}
use net_twin.Core.Snapshot.State.{NodeState}
use net_twin.Core.Snapshot.Read.{
  Snapshot, Configured, build, SnapshotFault, exec_failed, plan, check_results, state_of,
}

module _ {W : Type 0} (executor : Executor W) (repr : String → String)
    (loads : String → Option Json) where
  call : String → List String → Action SnapshotFault W ExecResult
  call node argv w = let (r, w') = executor.exec node argv 10 none w in (failing r, w')
    where
      failing : Result Fault ExecResult → Result SnapshotFault ExecResult
      failing (ok r) = ok r
      failing (err e) = err (exec_failed e)

  unfoldable pub run_plan :
      String → List (String × List String) → Action SnapshotFault W (List (String × ExecResult))
  unfolding call
  run_plan node [] = pure []
  run_plan node ((key, argv) ∷ more) = do
    r ← call node argv
    rs ← run_plan node more
    pure ((key, r) ∷ rs)

  unfoldable pub capture_node : Node → Action SnapshotFault W NodeState
  unfolding run_plan check_results state_of plan
  capture_node n = do
    rs ← run_plan n.name (plan n)
    lift (check_results n.name (plan n) rs)
    lift (state_of repr loads rs)

  unfoldable pub capture_nodes :
      List (String × Node)
      → List (String × NodeState)
      → Action SnapshotFault W (List (String × NodeState))
  unfolding capture_node
  capture_nodes [] found = pure found
  capture_nodes ((k, n) ∷ ns) found = do s ← capture_node n; capture_nodes ns (put n.name s found)

  unfoldable pub capture :
      (List (String × Configured) → String)
      → ℕ
      → Topology
      → String
      → Action SnapshotFault W Snapshot
  unfolding capture_nodes build
  capture digest now topology lab = do
    nodes ← capture_nodes topology.nodes []
    pure (build digest now lab nodes)

-- ===== src/TwinLab/Restore/Run.antt =====
-- `restore` and `flush_route_caches` of packages/twinlab/src/twinlab/snapshot.py. The nodes run one after
-- another here; the source runs them at once.
use net_twin.Prelude.{String, List, [], ◌∷◌, ◌++◌, Option, none, some, if◌then◌else◌}
use net_twin.Prelude.Dict.{find, put}
use net_twin.Prelude.Result.{Result, ok, err}
use net_twin.Prelude.Action.{Action, pure, lift, ◌>>=◌, ◌>>◌}
use net_twin.Core.Executor.{ExecResult, Executor, Fault, succeeded}
use net_twin.Core.Topology.{Node, Topology}
use net_twin.Core.Snapshot.State.{NodeState, empty_state}
use net_twin.Core.Snapshot.Read.{
  Snapshot, SnapshotFault, snapshot_error, exec_failed, shaped, error_output,
}
use net_twin.TwinLab.Restore.{Command, RestorePlan}
use net_twin.TwinLab.Restore.Plan.{plan_restore}

unfoldable pub argvs : List Command → List (List String)
argvs [] = []
argvs (c ∷ cs) = c.argv ∷ argvs cs

state_at : String → Snapshot → NodeState
state_at name s = elim (find name s.nodes) [ none ↦ empty_state | some st ↦ st ]

-- `{name: cmds for name, cmds in results if cmds}`
keep_some :
    String
    → List (List String)
    → List (String × List (List String))
    → List (String × List (List String))
keep_some name [] rest = rest
keep_some name (c ∷ cs) rest = put name (c ∷ cs) rest

module _ {W : Type 0} (executor : Executor W) (repr : String → String) where
  step_result : String → Command → Result Fault ExecResult → Result SnapshotFault (Unit {0})
  unfolding error_output
  step_result node c (err e) = err (exec_failed e)
  step_result node c (ok r) =
      if succeeded r then ok tt else err (snapshot_error node c.argv (error_output r))

  unfoldable pub run_command : String → Command → Action SnapshotFault W (Unit {0})
  unfolding step_result
  run_command node c w =
      let (r, w') = executor.exec node c.argv 60 c.stdin w in (step_result node c r, w')

  -- The loop over the commands of a plan, which the first failure ends.
  unfoldable pub run_commands : String → List Command → Action SnapshotFault W (Unit {0})
  unfolding run_command
  run_commands node [] = pure tt
  run_commands node (c ∷ cs) = do run_command node c; run_commands node cs

  run_plan_of : String → RestorePlan → Action SnapshotFault W (List (List String))
  unfolding run_commands argvs
  run_plan_of node plan = do
    run_commands node (plan.frr ++ plan.kernel)
    pure (argvs (plan.frr ++ plan.kernel))

  toward : Node → NodeState → Option NodeState → Action SnapshotFault W (List (List String))
  unfolding run_plan_of shaped
  toward node cur none = pure []
  toward node cur (some tgt) = do
    plan ← lift (shaped (plan_restore repr cur tgt node))
    run_plan_of node.name plan

  -- `one` of `restore`: a node that the target does not have is left as it is.
  unfoldable pub restore_node :
      Snapshot → Snapshot → Node → Action SnapshotFault W (List (List String))
  unfolding toward state_at
  restore_node target current node =
      toward node (state_at node.name current) (find node.name target.nodes)

  restore_nodes :
      Snapshot
      → Snapshot
      → List (String × Node)
      → List (String × List (List String))
      → Action SnapshotFault W (List (String × List (List String)))
  unfolding restore_node keep_some
  restore_nodes target current [] done' = pure done'
  restore_nodes target current ((k, n) ∷ ns) done' = do
    cmds ← restore_node target current n
    restore_nodes target current ns (keep_some n.name cmds done')

  -- Whatever the executor does, nothing is raised.
  unfoldable pub flush_route_caches : List (String × Node) → Action SnapshotFault W (Unit {0})
  flush_route_caches [] w = (ok tt, w)
  flush_route_caches ((k, n) ∷ ns) w =
      flush_route_caches ns (executor.exec k ("ip" ∷ "route" ∷ "flush" ∷ "cache" ∷ []) 10 none w).1

  unfoldable pub restore :
      Topology → Snapshot → Snapshot → Action SnapshotFault W (List (String × List (List String)))
  unfolding restore_nodes flush_route_caches
  restore topology target current = do
    changed ← restore_nodes target current topology.nodes []
    flush_route_caches topology.nodes
    pure changed

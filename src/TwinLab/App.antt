-- ===== src/TwinLab/App.antt =====
-- The operations of packages/twinlab/src/twinlab/app.py that change the twin. The state is that of what
-- the executor acts on, with the stores of snapshots and changes. Each operation runs alone, which
-- is what the source's lock is for. What a decoder, a hash or a difference gives is a parameter, as in
-- the modules that use it; fresh ids and times are arguments, with one time for a whole operation.
pub mod Kept
use net_twin.Prelude.{
  ℕ, String, ◌<>◌, Bool, true, false, List, [], ◌∷◌, ◌++◌, Option, none, some, if◌then◌else◌, ◌==◌,
  string_eq, contains,
}
use net_twin.Prelude.Text.{startswith, size}
use net_twin.Prelude.Dict.{find, put}
use net_twin.Prelude.Result.{Result, ok, err}
use net_twin.Prelude.Action.{Action, pure, raise, lift, ◌>>=◌, ◌>>◌}
use net_twin.Prelude.Json.{Json, JsonFault}
use net_twin.Core.Executor.{ExecResult, Executor, Fault}
use net_twin.Core.Topology.{Node, Topology}
use net_twin.Core.Ops.{Op}
use net_twin.Core.Models.{ChangeResult}
use net_twin.Core.Snapshot.State.{NodeState, empty_state}
use net_twin.Core.Snapshot.Read.{Snapshot, Configured, SnapshotFault, shaped, short_id}
use net_twin.Core.Snapshot.Capture.{capture}
use net_twin.Core.Snapshot.Store.{SnapshotFiles, LookupFault, save, load}
use net_twin.Allowlist.Kernel.{Denial}
use net_twin.Allowlist.Check.{AllowedCommand, check}
use net_twin.TwinLab.Apply.{ApplyFault, apply_error, apply_ops}
use net_twin.TwinLab.Apply.Diff.{describe_change}
use net_twin.TwinLab.Restore.Run.{restore, flush_route_caches}

pub record Twin (W : Type 0) : Type 0 where
  pub world : W
  pub snapshots : SnapshotFiles
  pub changes : List (String × ChangeResult)

pub data TwinFault : Type 0 where
  unknown_node : String → TwinFault
  no_ops : TwinFault
  no_snapshot : LookupFault → TwinFault
  not_captured : SnapshotFault → TwinFault
  not_applied : ApplyFault → TwinFault
  unreadable : JsonFault → TwinFault
  denied : Denial → TwinFault
  not_run : Fault → TwinFault
  no_state : String → TwinFault

-- What `rollback` returns.
pub record Rollback : Type 0 where
  pub restored : String
  pub before : String
  pub after : String
  pub matches_target : Bool
  pub changed_nodes : List (String × List (List String))

-- `TwinLab.require_node`
unfoldable pub require_node : Topology → String → Result TwinFault String
require_node t node = elim (find node t.nodes) [ none ↦ err (unknown_node node) | some n ↦ ok node ]

wrapped : {A E : Type 0} → (E → TwinFault) → Result E A → Result TwinFault A
wrapped wrap (ok a) = ok a
wrapped wrap (err e) = err (wrap e)

-- An action on what the executor acts on, as one of the twin.
unfoldable pub on_world :
    {W A E : Type 0} → (E → TwinFault) → Action E W A → Action TwinFault (Twin W) A
unfolding wrapped
on_world wrap m s = let (r, w) = m s.world in (wrapped wrap r, record s { world = w })

-- The message of the failure, with the rollback.
rolled_back : Snapshot → ApplyFault → ApplyFault
rolled_back before (apply_error node argv detail) =
    apply_error node argv (detail <> (" (rolled back to snapshot " <> (short_id before <> ")")))
rolled_back before e = e

-- `snapshot.nodes[node]`
state_in : String → Snapshot → Result TwinFault NodeState
state_in node s = elim (find node s.nodes) [ none ↦ err (no_state node) | some st ↦ ok st ]

read_diff : Result JsonFault String → Result TwinFault String
read_diff (ok d) = ok d
read_diff (err e) = err (unreadable e)

found : Result LookupFault Snapshot → Result TwinFault Snapshot
found (ok s) = ok s
found (err e) = err (no_snapshot e)

allowed : Result Denial AllowedCommand → Result TwinFault AllowedCommand
allowed (ok a) = ok a
allowed (err e) = err (denied e)

unfoldable pub change_of :
    String → ℕ → String → List Op → String → Snapshot → Snapshot → String → ChangeResult
change_of change_id now node ops rationale before after diff = record {
  change_id = change_id;
  node = node;
  before_snapshot_id = before.id;
  after_snapshot_id = after.id;
  diff = diff;
  ops = ops;
  rationale = rationale;
  applied_at = some now;
}

module _ {W : Type 0} (executor : Executor W) (topology : Topology) (lab : String)
    (repr : String → String) (loads : String → Option Json)
    (digest : List (String × Configured) → String)
    (unified_diff : ℕ → List String → List String → String → String → List String) where
  -- `TwinLab.show`
  unfoldable pub show_command : String → String → Action TwinFault (Twin W) ExecResult
  unfolding allowed require_node on_world
  show_command node cmd = do
    name ← lift (require_node topology node)
    a ← lift (allowed (check cmd))
    on_world not_run (executor.exec name a.argv a.timeout none)

  keep : Snapshot → Action TwinFault (Twin W) Snapshot
  keep s t = (ok s, record t { snapshots = save s t.snapshots })

  -- `TwinLab.snapshot`
  unfoldable pub snapshot : ℕ → Action TwinFault (Twin W) Snapshot
  unfolding on_world keep
  snapshot now = do
    s ← on_world not_captured (capture executor repr loads digest now topology lab)
    keep s

  load_target : String → Action TwinFault (Twin W) Snapshot
  unfolding found
  load_target id t = (found (load id t.snapshots), t)

  -- `TwinLab.rollback`
  unfoldable pub rollback : ℕ → String → Action TwinFault (Twin W) Rollback
  unfolding load_target on_world
  rollback now snapshot_id = do
    target ← load_target snapshot_id
    current ← snapshot now
    changed ← on_world not_captured (restore executor repr topology target current)
    after ← snapshot now
    pure (record {
      restored = target.id;
      before = current.id;
      after = after.id;
      matches_target = after.id == target.id;
      changed_nodes = changed;
    })

  -- The handler of an `ApplyError`; any other exception goes on as it is.
  recover : ℕ → Snapshot → ApplyFault → Action TwinFault (Twin W) (List ExecResult)
  unfolding on_world rolled_back
  recover now before (apply_error node argv detail) = do
    current ← snapshot now
    on_world not_captured (restore executor repr topology before current)
    raise (not_applied (rolled_back before (apply_error node argv detail)))
  recover now before e = raise (not_applied e)

  handled :
      ℕ
      → Snapshot
      → Result ApplyFault (List ExecResult)
      → Action TwinFault (Twin W) (List ExecResult)
  unfolding recover
  handled now before (ok rs) = pure rs
  handled now before (err e) = recover now before e

  unfoldable pub try_apply :
      ℕ → Snapshot → String → List Op → Action TwinFault (Twin W) (List ExecResult)
  unfolding handled
  try_apply now before node ops t =
      let (r, w) = apply_ops executor node ops t.world in
      handled now before r (record t { world = w })

  record_change : ChangeResult → Action TwinFault (Twin W) ChangeResult
  record_change c t = (ok c, record t { changes = put c.change_id c t.changes })

  -- What `apply` does under the lock, and after it.
  unfoldable pub apply_checked :
      ℕ → String → String → List Op → String → Action TwinFault (Twin W) ChangeResult
  unfolding try_apply on_world read_diff state_in record_change change_of
  apply_checked now change_id node ops rationale = do
    before ← snapshot now
    try_apply now before node ops
    on_world not_captured (flush_route_caches executor repr topology.nodes)
    after ← snapshot now
    old ← lift (state_in node before)
    new ← lift (state_in node after)
    diff ← lift (read_diff (describe_change repr unified_diff old new node))
    record_change (change_of change_id now node ops rationale before after diff)

  -- `TwinLab.apply`
  unfoldable pub apply :
      ℕ → String → String → List Op → String → Action TwinFault (Twin W) ChangeResult
  unfolding require_node apply_checked
  apply now change_id node [] rationale = do name ← lift (require_node topology node); raise no_ops
  apply now change_id node (op ∷ ops) rationale = do
    name ← lift (require_node topology node)
    apply_checked now change_id node (op ∷ ops) rationale

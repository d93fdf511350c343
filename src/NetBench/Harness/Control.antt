-- ===== src/NetBench/Harness/Control.antt =====
-- The control of the twin in packages/netbench/src/netbench/harness.py: the baseline, the reset, and the calls
-- after a run.
use net_twin.Prelude.{ℕ, String, Bool, true, false, not, List, Option, none, some, string_eq}
use net_twin.Prelude.Result.{Result, ok, err}
use net_twin.Prelude.Action.{Action, pure, raise, lift, ◌>>=◌, ◌>>◌}
use net_twin.Prelude.Json.{text, number, Fields, end, field}
use net_twin.NetBench.Clients.{
  twin, verify, CallResult, Fault, Bench, Sessions, outside, call, require,
}
use net_twin.NetBench.Harness.{
  HarnessFault, raised, no_golden, not_converged, not_golden, reset_missed, RunRecord, Harness,
  golden_ids, is_foreign,
}
use net_twin.NetBench.Harness.Answers.{bool_at, id_at, probes_at}

wrapped : {A : Type 0} → Result Fault A → Result HarnessFault A
wrapped (ok a) = ok a
wrapped (err e) = err (raised e)

unfoldable pub on_bench :
    {W A : Type 0} → Action Fault (Bench W) A → Action HarnessFault (Harness W) A
unfolding wrapped
on_bench m h = let (r, s) = m h.bench in (wrapped r, record h { bench = s })

abbrev pub waiting : ℕ → Fields
waiting seconds = field "timeout" (number seconds) end

module _ {W : Type 0} where
  set_golden : String → Action HarnessFault (Harness W) (Unit {0})
  set_golden id h = (ok tt, record h { golden_snapshot = some id })

  set_probes : List (String × Bool) → Action HarnessFault (Harness W) (Unit {0})
  set_probes ps h = (ok tt, record h { golden_probes = ps })

  unfoldable pub demand : Bool → HarnessFault → Action HarnessFault (Harness W) (Unit {0})
  demand true e = pure tt
  demand false e = raise e

module _ {W : Type 0} (sessions : Sessions W) where
  read : {A : Type 0} → (Fields → Result Fault A) → CallResult → Result Fault A
  read f c = elim (require c) [ err e ↦ err e | ok d ↦ f d ]

  -- `Harness.baseline`, with what the results file holds
  unfoldable pub baseline : List RunRecord → Action HarnessFault (Harness W) (Unit {0})
  unfolding on_bench set_golden set_probes demand is_foreign golden_ids bool_at id_at probes_at read
  baseline recorded = do
    waited ← on_bench (call sessions verify "wait_converged" (waiting 90) 180)
    is_converged ← on_bench (lift (read (bool_at "converged") waited))
    demand is_converged not_converged
    snap ← on_bench (call sessions twin "snapshot" end 180)
    golden ← on_bench (lift (read (id_at "id") snap))
    set_golden golden
    demand (not (is_foreign golden (golden_ids recorded))) not_golden
    matrix ← on_bench (call sessions verify "reachability_matrix" end 180)
    probes ← on_bench (lift (read (probes_at) matrix))
    set_probes probes

  reconnected : Bench W → Bench W
  unfolding outside
  reconnected s = (outside (sessions.reopen verify) s).1

  answered : Result Fault CallResult × Bench W → Option CallResult × Bench W
  answered (ok c, s) = (some c, s)
  answered (err e, s) = (none, s)

  retry : String → Fields → ℕ → Result Fault CallResult × Bench W → Option CallResult × Bench W
  unfolding answered reconnected
  retry tool args timeout (ok c, s) = (some c, s)
  retry tool args timeout (err e, s) =
      answered (call sessions verify tool args timeout (reconnected s))

  -- `Harness.post_run_call`, which raises nothing
  unfoldable pub post_run_call : String → Fields → Bench W → Option CallResult × Bench W
  unfolding retry
  post_run_call tool args s = retry tool args 300 (call sessions verify tool args 300 s)

  unfoldable pub judged : String → Fields → Action HarnessFault (Harness W) (Option CallResult)
  unfolding post_run_call
  judged tool args h =
      let (c, s) = post_run_call tool args h.bench in (ok c, record h { bench = s })

  roll_back : String → Action HarnessFault (Harness W) (Unit {0})
  unfolding on_bench demand judged bool_at read
  roll_back golden = do
    rolled ← on_bench (call sessions twin "rollback" (field "snapshot_id" (text golden) end) 300)
    is_matching ← on_bench (lift (read (bool_at "matches_target") rolled))
    demand is_matching reset_missed
    judged "wait_converged" (waiting 90)
    pure tt

  -- `Harness.reset`
  unfoldable pub reset : Action HarnessFault (Harness W) (Unit {0})
  unfolding roll_back
  reset h = elim h.golden_snapshot [ none ↦ (err no_golden, h) | some golden ↦ roll_back golden h ]

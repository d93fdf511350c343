-- ===== src/NetBench/Fake.antt =====
-- `FakeAgentRunner` of packages/netbench/src/netbench/runner.py. What pydantic
-- writes of a model, and reads as one, is a parameter.
use net_twin.Prelude.{
  String, ◌<>◌, Bool, true, false, ◌&&◌, List, [], ◌∷◌, map, Option, none, some, if◌then◌else◌,
  string_eq,
}
use net_twin.Prelude.Dict.{find}
use net_twin.Prelude.Result.{Result, ok, err}
use net_twin.Prelude.Action.{Action, pure, raise, lift, ◌>>=◌, ◌>>◌}
use net_twin.Prelude.Json.{
  Json, null, number, text, list, Fields, end, field, missing, not_text, get, of_list,
}
use net_twin.Core.Ops.{Op}
use net_twin.Core.Models.{RootCause, VerificationReport}
use net_twin.NetBench.Clients.{
  twin, verify, CallResult, Fault, bad_shape, Bench, Sessions, call, read_resource, require,
  collect_calls,
}
use net_twin.NetBench.Runner.{RunContext, RunOutput, no_output}
use net_twin.NetBench.Scoring.{GroundTruth, Probe, Scenario}

-- `model_dump` and `model_validate`
pub record Dumps : Type 0 where
  pub op : Op → Json
  pub report : VerificationReport → Json
  pub cause : RootCause → Json
  pub report_of : Fields → Result Fault VerificationReport

unfoldable pub cause_of : GroundTruth → RootCause
cause_of g = record { node = g.node; layer = g.layer; component = g.component; summary = g.summary }

option_map : {A B : Type 0} → (A → B) → Option A → Option B
option_map f none = none
option_map f (some a) = some (f a)

fixed : Option GroundTruth → String
fixed none = "nothing"
fixed (some g) = g.component

-- `d["change_id"]`
change_id_in : Fields → Result Fault String
change_id_in d = elim (get "change_id" d) [
  | none ↦ err (bad_shape (missing "change_id"))
  | some j ↦ text_of j
]
  where
    text_of : Json → Result Fault String
    text_of (text s) = ok s
    text_of j = err (bad_shape not_text)

change_id_of : CallResult → Result Fault String
unfolding change_id_in
change_id_of c = elim (require c) [ err e ↦ err e | ok d ↦ change_id_in d ]

has_some : {A : Type 0} → List A → Bool
has_some [] = false
has_some (x ∷ xs) = true

export_data : CallResult → Option Fields
export_data c = if c.ok then c.value else some (field "error" (text c.text) end)

module _ {W : Type 0} (sessions : Sessions W) (dumps : Dumps) where
  dump_cause : Option RootCause → Json
  dump_cause none = null
  dump_cause (some rc) = dumps.cause rc

  probe : Option Probe → Action Fault (Bench W) (Unit {0})
  probe none = pure tt
  probe (some p) = do
    call sessions twin "run_show_command"
        (field "node" (text p.node) (field "cmd" (text p.cmd) end)) 180
    pure tt

  fix_args : Option GroundTruth → String → List Op → Fields
  unfolding fixed
  fix_args gt node ops = field "node" (text node) (
      field "ops" (list (of_list (map dumps.op ops)))
        (field "rationale" (text ("fix " <> (fixed gt <> (" on " <> node)))) end))

  -- The expected fix, node by node.
  unfoldable pub apply_fix :
      Option GroundTruth → List (String × List Op) → Action Fault (Bench W) (List String)
  unfolding fix_args change_id_of
  apply_fix gt [] = pure []
  apply_fix gt ((node, ops) ∷ fix) = do
    applied ← call sessions twin "apply_config" (fix_args gt node ops) 180
    id ← lift (change_id_of applied)
    ids ← apply_fix gt fix
    pure (id ∷ ids)

  export_args : Scenario → Option RootCause → List String → VerificationReport → Fields
  unfolding dump_cause
  export_args scenario rc ids v = field "change_ids" (list (of_list (map text ids))) (
      field "verification" (dumps.report v)
        (field "root_cause" (dump_cause rc) (field "summary" (text scenario.title) end)))

  export_fix :
      Scenario
      → Option RootCause
      → List String
      → VerificationReport
      → Action Fault (Bench W) (Option Fields)
  unfolding export_args export_data
  export_fix scenario rc ids v = do
    exported ← call sessions twin "export_change" (export_args scenario rc ids v) 180
    pure (export_data exported)

  unfoldable pub export_if :
      Bool
      → Scenario
      → Option RootCause
      → List String
      → VerificationReport
      → Action Fault (Bench W) (Option Fields)
  unfolding export_fix
  export_if true scenario rc ids v = export_fix scenario rc ids v
  export_if false scenario rc ids v = pure none

  report_in : CallResult → Result Fault VerificationReport
  report_in c = elim (require c) [ err e ↦ err e | ok d ↦ dumps.report_of d ]

  -- The verification of the fix, and its export if it passed.
  unfoldable pub check_fix :
      Bool
      → Scenario
      → Option RootCause
      → List String
      → Action Fault (Bench W) (Option VerificationReport × Option Fields)
  unfolding report_in export_if has_some
  check_fix false scenario rc ids = pure (none, none)
  check_fix true scenario rc ids = do
    call sessions verify "wait_converged" (field "timeout" (number 60) end) 180
    answer ← call sessions verify "intent_check" end 300
    v ← lift (report_in answer)
    exported ← export_if (v.passed && has_some ids) scenario rc ids v
    pure (some v, exported)

  replayed :
      Option RootCause
      → List String
      → Option VerificationReport × Option Fields
      → Action Fault (Bench W) RunOutput
  unfolding no_output collect_calls
  replayed rc ids (verification, exported) s = (
    ok (record (no_output "fake agent replayed expected_fix") {
      root_cause = rc;
      change_ids = ids;
      verification = verification;
      export = exported;
      tool_calls = collect_calls s;
    }),
    s,
  )

  -- The run of a scenario of the catalog.
  unfoldable pub replay : Scenario → RunContext → Action Fault (Bench W) RunOutput
  unfolding probe apply_fix check_fix replayed option_map cause_of
  replay scenario ctx = do
    let rc = option_map cause_of scenario.ground_truth
    read_resource sessions twin "lab://topology"
    probe scenario.probe
    call sessions twin "snapshot" end 180
    ids ← apply_fix scenario.ground_truth scenario.expected_fix
    checked ← check_fix ctx.use_verifier scenario rc ids
    replayed rc ids checked

  -- `FakeAgentRunner.run`, over its catalog
  unfoldable pub run_fake : List (String × Scenario) → RunContext → Action Fault (Bench W) RunOutput
  unfolding replay
  run_fake catalog ctx = elim (find ctx.scenario_id catalog) [
    | none ↦ raise (bad_shape (missing ctx.scenario_id))
    | some scenario ↦ replay scenario ctx
  ]

-- ===== src/NetBench/Harness.antt =====
-- The harness of packages/netbench/src/netbench/harness.py: its records and the results file. The file is the list of its records; a record's times are left out, and so are the pauses before
-- a retry. What a tool answers is read where it is received; the models that pydantic reads from it are
-- parameters.
pub mod Answers
pub mod Control
pub mod Run
pub mod Matrix
use net_twin.Prelude.{
  ℕ, String, ◌<>◌, Bool, true, false, not, List, [], ◌∷◌, ◌++◌, map, Option, none, some,
  if◌then◌else◌, contains, string_eq,
}
use net_twin.Prelude.Text.{is_empty}
use net_twin.Prelude.Decimal.{show}
use net_twin.Prelude.Result.{Result, ok, err}
use net_twin.Prelude.Action.{Action, pure, raise, lift, ◌>>=◌, ◌>>◌}
use net_twin.Prelude.Json.{
  Json, text, number, Fields, end, field, JsonFault, not_text, missing, get, truthy, as_dict,
  as_list,
}
use net_twin.Core.Models.{ChangeResult, VerificationReport}
use net_twin.NetBench.Clients.{
  twin, verify, CallResult, Fault, bad_shape, Bench, Sessions, outside, call, require,
}
use net_twin.NetBench.Runner.{RunOutput}
use net_twin.NetBench.Scoring.{Score}

-- What the harness raises: what a call raised, its own refusals, and `HarnessStepFailed`.
pub data HarnessFault : Type 0 where
  raised : Fault → HarnessFault
  no_golden not_converged not_golden reset_missed : HarnessFault
  step_failed : String → HarnessFault → HarnessFault

pub record RunConfig : Type 0 where
  pub name : String
  pub runner : String
  pub model : Option String
  pub verifier : Bool
  pub multi_agent : Option Bool

pub record RunRecord : Type 0 where
  pub run_id : String
  pub matrix : String
  pub scenario_id : String
  pub config : RunConfig
  pub trial : ℕ
  pub output : RunOutput
  pub score : Score
  pub error : Option String

unfoldable pub run_id_of : String → RunConfig → ℕ → String
run_id_of scenario_id config trial = (scenario_id <> ("/" <> config.name)) <> ("/" <> show trial)

-- `AdminClient`
pub record Admin (W : Type 0) : Type 0 where
  pub inject : String → Action Fault W (Unit {0})
  pub exports : Action Fault W (List Fields)
  pub export : String → Action Fault W Fields

-- `model_validate` of the models that the harness reads.
pub record Models : Type 0 where
  pub change : Fields → Result Fault ChangeResult
  pub report : Fields → Result Fault VerificationReport

pub record Harness (W : Type 0) : Type 0 where
  pub bench : Bench W
  pub golden_snapshot : Option String
  pub golden_probes : List (String × Bool)

-- The harness with its results file.
pub record Batch (W : Type 0) : Type 0 where
  pub harness : Harness W
  pub runs : List RunRecord

unfoldable pub existing_run_ids : List RunRecord → List String
existing_run_ids rs = map (λ (r : RunRecord). r.run_id) rs

unfoldable pub golden_ids : List RunRecord → List String
golden_ids [] = []
golden_ids (r ∷ rs) =
    let rest = golden_ids rs in
    elim r.score.golden_snapshot_id [ none ↦ rest | some g ↦ if is_empty g then rest else g ∷ rest ]

-- `known and golden_snapshot not in known`
unfoldable pub is_foreign : String → List String → Bool
is_foreign golden [] = false
is_foreign golden (g ∷ gs) = not (contains (g ∷ gs) golden)

-- ===== src/NetBench/Harness/Matrix.antt =====
-- `run_matrix` of packages/netbench/src/netbench/harness.py.
pub mod Results
pub mod Unique
use net_twin.Prelude.{
  ℕ, zero, suc, String, ◌<>◌, Bool, true, false, List, [], ◌∷◌, ◌++◌, map, Option, none, some,
  if◌then◌else◌, contains, leb, string_eq,
}
use net_twin.Prelude.Text.{size, is_empty}
use net_twin.Prelude.Result.{Result, ok, err}
use net_twin.Prelude.Action.{Action, pure, raise, lift, ◌>>=◌, ◌>>◌}
use net_twin.Prelude.Json.{text, Fields, end, field}
use net_twin.Core.Models.{ChangeResult, VerificationReport}
use net_twin.NetBench.Clients.{
  twin, verify, CallResult, Fault, unavailable, Bench, Sessions, outside, call,
}
use net_twin.NetBench.Runner.{RunContext, RunOutput, Runs, no_output}
use net_twin.NetBench.Scoring.{Scenario, Score, score_run}
use net_twin.NetBench.Harness.{
  HarnessFault, raised, step_failed, RunConfig, RunRecord, run_id_of, Admin, Models, Harness, Batch,
  existing_run_ids,
}
use net_twin.NetBench.Harness.Answers.{probes_at}
use net_twin.NetBench.Harness.Control.{on_bench, waiting, baseline, judged, reset}
use net_twin.NetBench.Harness.Run.{run_one}

-- The plan of a matrix: every trial of every scenario.
trials_of : List Scenario → ℕ → List (ℕ × Scenario)
trials_of scenarios trial = map (λ s. (trial, s)) scenarios

unfoldable pub plan_from : List Scenario → ℕ → ℕ → List (ℕ × Scenario)
unfolding trials_of
plan_from scenarios trial zero = []
plan_from scenarios trial (suc left) =
    trials_of scenarios trial ++ plan_from scenarios (suc trial) left

is_full : Option ℕ → List RunRecord → Bool
is_full none rs = false
is_full (some n) rs = leb n (size rs)

module _ {W : Type 0} (sessions : Sessions W) (admin : Admin W) (models : Models)
    (lower : String → String) (shown : HarnessFault → String) (matrix : String) where
  module _ (config : RunConfig) (runner : Runs W) (max_runs : Option ℕ) where
    -- What follows a run: a step that failed is left for the next invocation.
    unfoldable pub go_on :
        (List RunRecord → Action HarnessFault (Batch W) (List RunRecord))
        → List RunRecord
        → Result HarnessFault RunRecord
        → Action HarnessFault (Batch W) (List RunRecord)
    go_on rest rs (ok r) = rest (rs ++ (r ∷ []))
    go_on rest rs (err (step_failed rid e)) = rest rs
    go_on rest rs (err e) = raise e

    attempt :
        (List RunRecord → Action HarnessFault (Batch W) (List RunRecord))
        → List RunRecord
        → ℕ × Scenario
        → Action HarnessFault (Batch W) (List RunRecord)
    unfolding run_one go_on
    attempt rest rs (trial, scenario) b =
        let (r, t) =
          run_one sessions admin models lower shown matrix scenario config trial runner b in
        go_on rest rs r t

    unfoldable pub run_plan :
        List String
        → List (ℕ × Scenario)
        → List RunRecord
        → Action HarnessFault (Batch W) (List RunRecord)
    unfolding is_full attempt
    run_plan done [] rs = pure rs
    run_plan done ((trial, scenario) ∷ plan) rs =
        let rest = run_plan done plan in
        if is_full max_runs rs
        then pure rs
        else if contains done (run_id_of scenario.id config trial)
        then rest rs
        else attempt rest rs (trial, scenario)

    -- `Harness.run_matrix`
    unfoldable pub run_matrix : List Scenario → ℕ → Action HarnessFault (Batch W) (List RunRecord)
    unfolding run_plan
    run_matrix scenarios trials b =
        run_plan (existing_run_ids b.runs) (plan_from scenarios 1 trials) [] b

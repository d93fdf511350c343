-- ===== src/NetBench/Harness/Run.antt =====
-- `run_one` of packages/netbench/src/netbench/harness.py. The text of an exception with the
-- name of its class is a parameter.
use net_twin.Prelude.{
  ℕ, String, ◌<>◌, Bool, true, false, List, [], ◌∷◌, ◌++◌, Option, none, some, if◌then◌else◌,
  string_eq,
}
use net_twin.Prelude.Text.{is_empty}
use net_twin.Prelude.Result.{Result, ok, err}
use net_twin.Prelude.Action.{Action, pure, raise, lift, ◌>>=◌, ◌>>◌}
use net_twin.Prelude.Json.{text, Fields, end, field}
use net_twin.Core.Models.{ChangeResult, VerificationReport}
use net_twin.NetBench.Clients.{
  twin, verify, CallResult, Fault, unavailable, Sessions, outside, call,
}
use net_twin.NetBench.Runner.{RunContext, RunOutput, Runs, no_output}
use net_twin.NetBench.Scoring.{Scenario, Score, score_run}
use net_twin.NetBench.Harness.{
  HarnessFault, raised, step_failed, RunConfig, RunRecord, run_id_of, Admin, Models, Harness, Batch,
}
use net_twin.NetBench.Harness.Answers.{probes_at}
use net_twin.NetBench.Harness.Control.{on_bench, waiting, baseline, judged, reset}

-- The data of an answer, where there is one that is not empty: `got.ok and got.data`.
answer_of : CallResult → Option Fields
answer_of c =
    if c.ok
    then elim c.value [ none ↦ none | some end ↦ none | some (field k j d) ↦ some (field k j d) ]
    else none

unfoldable pub answer : Option CallResult → Option Fields
unfolding answer_of
answer none = none
answer (some c) = answer_of c

no_answer : Option CallResult → Option CallResult → Bool
no_answer (some a) (some b) = false
no_answer a b = true

check_failed : String
check_failed = "HarnessCheckFailed: netverify did not answer"

with_check : Option String → String
unfolding check_failed
with_check none = check_failed
with_check (some e) = if is_empty e then check_failed else e <> ("; " <> check_failed)

-- The error of a run, with that of the harness's own check.
unfoldable pub error_of : Option String → Option CallResult → Option CallResult → Option String
unfolding no_answer with_check
error_of error after check = if no_answer after check then some (with_check error) else error

unfoldable pub context_of : Scenario → RunConfig → ℕ → RunContext
context_of scenario config trial = record {
  scenario_id = scenario.id;
  symptom = scenario.symptom;
  use_verifier = config.verifier;
  config_name = config.name;
  trial = trial;
}

probes_after : Option Fields → Result Fault (List (String × Bool))
probes_after none = ok []
probes_after (some d) = probes_at d

clear_calls : {W : Type 0} → Action HarnessFault (Harness W) (Unit {0})
clear_calls h = (ok tt, record h { bench = record h.bench { twin_calls = []; verify_calls = [] } })

-- What a run comes to.
pub record Judged : Type 0 where
  pub output : RunOutput
  pub score : Score
  pub error : Option String

unfoldable pub record_of : String → Scenario → RunConfig → ℕ → Judged → RunRecord
record_of matrix scenario config trial j = record {
  run_id = run_id_of scenario.id config trial;
  matrix = matrix;
  scenario_id = scenario.id;
  config = config;
  trial = trial;
  output = j.output;
  score = j.score;
  error = j.error;
}

-- `Harness.append`
unfoldable pub append_record : {W : Type 0} → RunRecord → Batch W → Batch W
append_record r b = record b { runs = b.runs ++ (r ∷ []) }

module _ {W : Type 0} (sessions : Sessions W) (admin : Admin W) (models : Models)
    (lower : String → String) (shown : HarnessFault → String) (matrix : String) where
  report_in : Option Fields → Result Fault (Option VerificationReport)
  report_in none = ok none
  report_in (some d) = elim (models.report d) [ err e ↦ err e | ok r ↦ ok (some r) ]

  change_in : Option Fields → Result Fault (List ChangeResult)
  change_in none = ok []
  change_in (some d) = elim (models.change d) [ err e ↦ err e | ok c ↦ ok (c ∷ []) ]

  -- `Harness.changes_for`
  unfoldable pub changes_for : List String → Action HarnessFault (Harness W) (List ChangeResult)
  unfolding on_bench change_in answer
  changes_for [] = pure []
  changes_for (id ∷ ids) = do
    got ← on_bench (call sessions twin "get_change" (field "change_id" (text id) end) 180)
    c ← on_bench (lift (change_in (answer (some got))))
    cs ← changes_for ids
    pure (c ++ cs)

  inject_and_wait : String → Action HarnessFault (Harness W) (Unit {0})
  unfolding on_bench reset outside
  inject_and_wait scenario_id = do
    reset sessions
    on_bench (outside (admin.inject scenario_id))
    on_bench (call sessions verify "wait_converged" (waiting 30) 180)
    pure tt

  not_prepared : String → HarnessFault → HarnessFault
  not_prepared rid (raised (unavailable m)) = raised (unavailable m)
  not_prepared rid e = step_failed rid e

  prepared : String → Result HarnessFault (Unit {0}) → Result HarnessFault (Unit {0})
  unfolding not_prepared
  prepared rid (ok u) = ok u
  prepared rid (err e) = err (not_prepared rid e)

  -- Reset, inject and wait: what goes wrong is the harness's.
  unfoldable pub prepare : Scenario → String → Action HarnessFault (Harness W) (Unit {0})
  unfolding inject_and_wait prepared
  prepare scenario rid h = let (r, t) = inject_and_wait scenario.id h in (prepared rid r, t)

  give_up : String → Action HarnessFault (Harness W) (RunOutput × Option String)
  unfolding reset
  give_up m = do reset sessions; raise (raised (unavailable m))

  crashed : Fault → Action HarnessFault (Harness W) (RunOutput × Option String)
  unfolding give_up no_output
  crashed (unavailable m) = give_up m
  crashed e = pure (no_output "runner crashed", some (shown (raised e)))

  finished : Result Fault RunOutput → Action HarnessFault (Harness W) (RunOutput × Option String)
  unfolding crashed
  finished (ok o) = pure (o, none)
  finished (err e) = crashed e

  -- The runner's output, or what stands for that of one that crashed.
  unfoldable pub try_runner :
      Runs W → RunContext → Action HarnessFault (Harness W) (RunOutput × Option String)
  unfolding finished
  try_runner runner ctx h = let (r, s) = runner ctx h.bench in finished r (record h { bench = s })

  score_in :
      Scenario
      → RunOutput
      → List ChangeResult
      → List (String × Bool)
      → Option VerificationReport
      → Action HarnessFault (Harness W) Score
  unfolding score_run
  score_in scenario output changes after_probes after_report h = (
    ok (
        score_run lower scenario output changes h.golden_probes after_probes after_report
          h.golden_snapshot),
    h,
  )

  -- What follows the runner, up to the record.
  judge_run : Scenario → RunOutput × Option String → Action HarnessFault (Harness W) Judged
  unfolding on_bench judged probes_after report_in answer changes_for score_in error_of
  judge_run scenario (output, error) = do
    after ← judged sessions "reachability_matrix" end
    after_probes ← on_bench (lift (probes_after (answer after)))
    check ← judged sessions "intent_check" end
    after_report ← on_bench (lift (report_in (answer check)))
    changes ← changes_for output.change_ids
    score ← score_in scenario output changes after_probes after_report
    pure (record { output = output; score = score; error = error_of error after check })

  ensure_baseline : List RunRecord → Action HarnessFault (Harness W) (Unit {0})
  unfolding baseline
  ensure_baseline recorded h = elim h.golden_snapshot [
    | none ↦ baseline sessions recorded h
    | some g ↦ (ok tt, h)
  ]

  -- `run_one` up to its record, with what the results file holds
  unfoldable pub run_unrecorded :
      Scenario → RunConfig → ℕ → Runs W → List RunRecord → Action HarnessFault (Harness W) Judged
  unfolding ensure_baseline prepare clear_calls try_runner judge_run
  run_unrecorded scenario config trial runner recorded = do
    ensure_baseline recorded
    prepare scenario (run_id_of scenario.id config trial)
    clear_calls
    o ← try_runner runner (context_of scenario config trial)
    judge_run scenario o

  -- The reset after a run, whose failure is only logged.
  unfoldable pub reset_quietly : Batch W → Batch W
  unfolding reset
  reset_quietly b = record b { harness = (reset sessions b.harness).1 }

  unfoldable pub recorded_run :
      Scenario
      → RunConfig
      → ℕ
      → Result HarnessFault Judged
      → Action HarnessFault (Batch W) RunRecord
  unfolding append_record reset_quietly record_of
  recorded_run scenario config trial (ok j) b = (
    ok (record_of matrix scenario config trial j),
    reset_quietly (append_record (record_of matrix scenario config trial j) b),
  )
  recorded_run scenario config trial (err e) b = (err e, b)

  -- `Harness.run_one`
  unfoldable pub run_one :
      Scenario → RunConfig → ℕ → Runs W → Action HarnessFault (Batch W) RunRecord
  unfolding run_unrecorded recorded_run
  run_one scenario config trial runner b =
      let (r, h) = run_unrecorded scenario config trial runner b.runs b.harness in
      recorded_run scenario config trial r (record b { harness = h })

-- ===== src/Tests/Runs.antt =====
-- A matrix of two scenarios over servers that answer every call alike, and the rows of a timeline.
use net_twin.Prelude.{
  ℕ, ◌≡◌, refl, String, true, false, List, [], ◌∷◌, none, some, string_eq, arith, ◌==◌, Bool-cases,
  inl, inr,
}
use net_twin.Prelude.Count.{count, Distinct}
use net_twin.Prelude.Result.{ok, err}
use net_twin.Prelude.Json.{flag, text, list, dict, end, field, nil, get, truthy, as_dict, str}
use net_twin.NetBench.Clients.{Bench, Sessions, Reply, call_failed}
use net_twin.NetBench.Runner.{no_output, Runs}
use net_twin.NetBench.Scoring.{Scenario}
use net_twin.NetBench.Harness.{RunConfig, Admin, Models, Batch, existing_run_ids}
use net_twin.NetBench.Harness.Matrix.{run_matrix, plan_from}
use net_twin.NetBench.Harness.Matrix.Results.{pending, Added, run_matrix-Added}
use net_twin.NetBench.Harness.Matrix.Unique.{run_matrix-Distinct, scenario_ids}
use net_twin.Prelude.Int.{pos}
use net_twin.NetBench.Timeline.{Step}
use net_twin.NetBench.Timeline.Collapse.{joins, collapse}
use net_twin.NetBench.Calls.{field_of}
use net_twin.NetBench.Timeline.Rows.{Single, calls_in, kept, Apart, collapse-calls_in}

abbrev answer : Reply
answer = record {
  is_error = false;
  structured = some (
      field "converged" (flag true) (
        field "matches_target" (flag true)
          (field "id" (text "s0") (field "probes" (list nil) end))));
  content = "";
  duration = 1;
}

abbrev servers : Sessions ℕ
servers = record {
  call_tool = λ c tool args timeout n. (ok answer, n);
  read = λ c uri n. (ok "{}", n);
  listed = λ c n. (ok [], n);
  reopen = λ c n. (ok tt, n);
}

abbrev admin : Admin ℕ
admin = record {
  inject = λ id n. (ok tt, n);
  exports = λ n. (ok [], n);
  export = λ id n. (err (call_failed "unknown"), n);
}

abbrev models : Models
models = record {
  change = λ d. err (call_failed "no change");
  report = λ d. ok (record {
    passed = true;
    snapshot_id = "s0";
    policy_sha256 = "";
    rules = [];
    attestation = none;
  });
}

abbrev bench : Bench ℕ
bench = record {
  world = 0;
  twin_calls = [];
  verify_calls = [];
  prompt_tokens = 0;
  completion_tokens = 0;
  requests = 0;
  thinks = none;
  launches = [];
}

abbrev fresh : Batch ℕ
fresh = record {
  harness = record { bench = bench; golden_snapshot = none; golden_probes = [] };
  runs = [];
}

abbrev scenario : String → Scenario
scenario id = record {
  id = id;
  title = "";
  symptom = "";
  probe = none;
  ground_truth = none;
  extra_causes = [];
  expected_fix = [];
}

abbrev scenarios : List Scenario
scenarios = scenario "001-ospf" ∷ scenario "002-bgp" ∷ []

abbrev config : RunConfig
config = record {
  name = "fake";
  runner = "fake";
  model = none;
  verifier = true;
  multi_agent = none;
}

abbrev runner : Runs ℕ
runner ctx s = (ok (no_output ""), s)

scenarios-Distinct : Distinct (scenario_ids scenarios)
unfolding Distinct count string_eq
scenarios-Distinct a = elim (Bool-cases (a == "001-ospf")) [
  | inl first ↦ let same : a ≡ "001-ospf" = ground (arith, first) in rw same (omega arith)
  | inr other ↦ ground (arith, other)
]

fresh-Distinct : Distinct (existing_run_ids (Batch.runs fresh))
unfolding Distinct count existing_run_ids
fresh-Distinct a = omega arith

run_matrix-Distinct_example : Distinct (
    existing_run_ids
      (run_matrix servers admin models
        (λ s. s)
        (λ e. "")
        "m"
        config
        runner
        (some 2)
        scenarios
        1
        fresh).1.runs)
run_matrix-Distinct_example =
    run_matrix-Distinct servers admin models (λ s. s) (λ e. "") "m" config runner (some 2) scenarios
      1 fresh scenarios-Distinct fresh-Distinct

run_matrix-Added_example :
    Added
      (some 2)
      (pending (existing_run_ids (Batch.runs fresh)) config (plan_from scenarios 1 1))
      []
      fresh
      (run_matrix servers admin models
        (λ s. s)
        (λ e. "")
        "m"
        config
        runner
        (some 2)
        scenarios
        1
        fresh)
run_matrix-Added_example =
    run_matrix-Added servers admin models (λ s. s) (λ e. "") "m" config runner (some 2) scenarios 1
      fresh

abbrev step : String → String → Step
step tool node = record {
  at = pos 0;
  actor = "commander";
  tool = tool;
  args = dict (field "node" (text node) end);
  succeeded = none;
  result = list nil;
  nodes = [];
  count = 1;
}

abbrev steps : List Step
steps =
    step "run_show_command" "r1"
    ∷ step "ToolSearch" ""
    ∷ step "run_show_command" "r2"
    ∷ step "snapshot" ""
    ∷ []

abbrev rows : List Step
rows =
    record (step "run_show_command" "r1") { nodes = "r1" ∷ "r2" ∷ []; count = 2 }
    ∷ step "snapshot" ""
    ∷ []

steps_collapsed : collapse (λ s. s) steps ≡ ok rows
unfolding collapse string_eq get truthy as_dict str joins field_of
steps_collapsed = refl

collapse-calls_in_example : (calls_in rows ≡ kept steps) × Apart rows
unfolding Single
collapse-calls_in_example =
    collapse-calls_in (λ s. s) steps rows (refl, (refl, (refl, (refl, tt)))) steps_collapsed

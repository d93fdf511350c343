-- ===== src/Tests/Scores.antt =====
-- A run that names the cause in prose and breaks a probe.
use net_twin.Prelude.{◌≡◌, refl, true, false, [], ◌∷◌, some, none, string_eq}
use net_twin.Prelude.Text.{strip, lstrip, rstrip, is_space}
use net_twin.Prelude.Dict.{put, find}
use net_twin.Prelude.Sort.{sort}
use net_twin.Core.Models.{l3}
use net_twin.NetBench.Scoring.{Scenario, causes, probe_map, node_token, found_cause, score_run}
use net_twin.NetBench.Runner.{RunOutput, no_output}

abbrev scenario : Scenario
scenario = record {
  id = "001-ospf";
  title = "an MTU of 1400 on r2";
  symptom = "h1 is down";
  probe = none;
  ground_truth = some (record { node = "r2"; layer = l3; component = "ospf.mtu"; summary = "" });
  extra_causes = [];
  expected_fix = ("r2", []) ∷ [];
}

abbrev blamed : RunOutput
blamed = record (no_output "") {
  root_cause =
      some (record { node = "r2 (also r4)"; layer = l3; component = "ospf.mtu"; summary = "" });
}

score_test :
    ((score_run
        (λ s. s)
        scenario
        blamed
        []
        (("p1", true) ∷ [])
        (("p1", false) ∷ [])
        none
        none).root_cause
      ≡ true)
    × ((score_run
          (λ s. s)
          scenario
          blamed
          []
          (("p1", true) ∷ [])
          (("p1", false) ∷ [])
          none
          none).collateral
        ≡ "p1" ∷ [])
unfolding no_output score_run found_cause causes node_token strip lstrip rstrip is_space probe_map
    put find sort string_eq
score_test = (refl, refl)

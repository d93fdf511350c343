-- ===== src/Tests/Verdicts.antt =====
-- A policy of one rule on a clock that counts, with an executor whose every output says "Full".
use net_twin.Prelude.{
  ℕ, ◌+◌, ◌≢◌, ◌≡◌, refl, String, true, false, List, [], ◌∷◌, Option, none, string_eq, nat_eq,
  option_eq, arith,
}
use net_twin.Prelude.Int.{pos}
use net_twin.Prelude.Text.{occurs, partition}
use net_twin.Prelude.Result.{ok, err}
use net_twin.Prelude.Json.{Json, Fields}
use net_twin.Core.Executor.{Executor, succeeded}
use net_twin.Core.Topology.{Topology}
use net_twin.Core.Policy.{Policy, ospf_full}
use net_twin.NetVerify.Intent.{ConvergeResult}
use net_twin.NetVerify.Converge.{
  Clock, out_of_polls, ask, is_full, not_holding, ospf_rules, bgp_rules, routers, routes_of,
  rib_fingerprint, poll, judge, polls_from, wait_converged,
}
use net_twin.NetVerify.Converge.Polls.{wait_converged-Ends}
use net_twin.Prelude.Dict.{find, put}
use net_twin.Prelude.Sort.{sort}
use net_twin.Core.Models.{RuleResult, VerificationReport}
use net_twin.Core.Snapshot.Read.{Snapshot, Configured, build, compute_id, payload}
use net_twin.Core.Snapshot.Capture.{capture, capture_nodes}
use net_twin.Core.Snapshot.Store.{save}
use net_twin.NetVerify.Intent.{report_of}
use net_twin.NetVerify.Probes.{reachability_matrix, run_probes, probe_rules}
use net_twin.NetVerify.Rules.{
  Checks, intent_check, evaluate, judge_rules, judge_rule, by_id, within,
}
use net_twin.NetVerify.Rules.Judged.{IsComplete, intent_check-IsComplete}

abbrev full : Executor ℕ
full = record {
  exec = λ node argv timeout stdin w. (
    ok (record {
      node = node;
      argv = argv;
      returncode = pos 0;
      stdout = "Full/DR";
      stderr = "";
      truncated = false;
      timed_out = false;
    }),
    w + 1,
  );
}

abbrev counter : Clock ℕ
counter = record { monotonic = λ w. w; sleep = λ n w. w + n }

abbrev empty_lab : Topology
empty_lab = record { name = "lab"; nodes = []; links = [] }

abbrev one_rule : Policy
one_rule = record { version = 1; targets = []; rules = ospf_full "ospf-r1" "r1" "eth1" ∷ [] }

abbrev no_json : String → Option Json
no_json s = none

abbrev one_digest : List (String × List Fields) → String
one_digest tables = "d"

wait_converged-Ends_example :
    (wait_converged full no_json
      (λ s. s)
      one_digest
      empty_lab
      one_rule
      counter
      (λ n. n)
      45
      2
      24
      0).0
    ≢ err out_of_polls
wait_converged-Ends_example =
    wait_converged-Ends counter full (λ node argv timeout stdin w. omega arith) no_json (λ s. s)
      one_digest empty_lab one_rule (λ n. n) 45 2 (λ n w. omega arith) 23 0 (omega arith)

abbrev settled : ConvergeResult
settled = record {
  converged = true;
  seconds = 4;
  polls = 2;
  ospf_missing = [];
  bgp_down = [];
  rib_stable = true;
}

abbrev first_bytes : String → String → String
first_bytes key message = "ab12"

abbrev a_time : ℕ → String
a_time t = "2026-01-01T00:00:00+00:00"

abbrev no_list : List String → String
no_list xs = "[]"

abbrev sid : List (String × Configured) → String
sid nodes = "aabbccdd33"

abbrev taken : Snapshot
taken = record { id = "aabbccdd33"; lab = "lab"; created_at = 7; nodes = [] }

abbrev full_result : RuleResult
full_result = record {
  rule_id = "ospf-r1";
  kind = "ospf_full";
  passed = true;
  detail = "r1 eth1 OSPF neighbour Full";
}

abbrev passing : VerificationReport
passing = report_of first_bytes a_time no_list "key" settled "aabbccdd33" "sha" (full_result ∷ []) 8

abbrev checks : Checks ℕ
checks = record { world = 0; snapshots = [] }

abbrev checked_after : Checks ℕ
checked_after = record { world = 5; snapshots = ("aabbccdd33", taken) ∷ [] }

intent_test :
    intent_check full no_json
      (λ s. s)
      no_list
      first_bytes
      a_time
      one_digest
      sid
      counter
      (λ n. n)
      24
      45
      2
      7
      8
      empty_lab
      "lab"
      "key"
      one_rule
      "sha"
      checks
    ≡ (ok passing, checked_after)
unfolding intent_check evaluate judge_rules judge_rule by_id within wait_converged polls_from judge
    poll not_holding ospf_rules bgp_rules routers routes_of rib_fingerprint is_full ask succeeded
    occurs partition option_eq string_eq capture capture_nodes build compute_id payload save find
    put reachability_matrix run_probes probe_rules sort
intent_test = refl

intent_check-IsComplete_example : IsComplete one_rule passing
intent_check-IsComplete_example =
    intent_check-IsComplete full no_json (λ s. s) no_list first_bytes a_time one_digest sid counter
      (λ n. n) 24 45 2 7 8 empty_lab "lab" "key" one_rule "sha" checks checked_after passing
      intent_test

-- ===== src/Tests/Intents.antt =====
-- A policy, its probes, the report on it, and operations applied to a node.
use net_twin.Prelude.{
  ℕ, suc, Bool, ◌≡◌, ◌↔◌, refl, ◌⊎◌, String, true, false, List, [], ◌∷◌, Option, none, some, map,
  string_eq, nat_eq, ◌==◌, if◌then◌else◌,
}
use net_twin.Prelude.Dict.{find}
use net_twin.Prelude.Int.{pos}
use net_twin.Prelude.Decimal.{show}
use net_twin.Prelude.Result.{ok, err}
use net_twin.Core.Executor.{
  ExecResult, Executor, Fault, Finished, Docker, exited, docker_exec, command, container,
  validate_node, command_refused, not_started, is_node_name,
}
use net_twin.Core.Executor.Bounds.{Ran, docker_exec-cases}
use net_twin.Core.Models.{ChangeResult, RuleResult}
use net_twin.Core.Attest.{is_ascii, sign}
use net_twin.Core.Policy.{
  Policy, Target, Rule, reach, path_mtu, ospf_full, tcp, allow, check_references, check_from,
  check_names, rule_id, references, find_rule,
}
use net_twin.Core.Policy.References.{check_references-find_rule, check_references_iff, Refers}
use net_twin.Prelude.Count.{Distinct}
use net_twin.Prelude.Action.{Action}
use net_twin.NetVerify.Intent.{ConvergeResult, report_of, all_passed}
use net_twin.NetVerify.Intent.Accepted.{report_of-passed_iff, validate-report_of}
use net_twin.Core.Ops.{Op, set_mtu, set_addr}
use net_twin.Core.Ops.Render.{Argv, render, render_all}
use net_twin.TwinLab.Apply.{ApplyFault, apply_ops}
use net_twin.TwinLab.Apply.Stops.{Runs, Stops, apply_ops-cases}
use net_twin.TwinLab.Export.{validate, last_change}

abbrev host : String → String → String × Target
host name ip = (name, record { node = name; ip = ip })

abbrev core : Rule
core = ospf_full "core" "r1" "eth1"

abbrev web : Rule
web = reach "web" "h1" "h2" tcp (some 80) allow

abbrev policy : Policy
policy = record {
  version = 1;
  targets = host "h1" "10.0.1.10" ∷ host "h2" "10.0.2.10" ∷ [];
  rules = core ∷ web ∷ path_mtu "mtu" "h2" "h1" 1500 ∷ [];
}

policy_checked : check_references policy ≡ ok policy
unfolding check_references check_from check_names rule_id references find string_eq
policy_checked = refl

check_references-find_rule_example : find_rule (rule_id core) policy.rules ≡ some core
check_references-find_rule_example = check_references-find_rule policy 0 core policy_checked refl

check_references_iff_example :
    (check_references policy ≡ ok policy)
    ↔ (Distinct (map rule_id policy.rules) × Refers policy.targets policy.rules)
check_references_iff_example = check_references_iff policy

-- Answers every call, and counts the calls.
abbrev answering : Executor ℕ
answering = record {
  exec = λ node argv timeout stdin n. (
    ok (record {
      node = node;
      argv = argv;
      returncode = pos 0;
      stdout = "up";
      stderr = "";
      truncated = false;
      timed_out = false;
    }),
    suc n,
  );
}

-- Refuses the second call.
abbrev refusing : Executor ℕ
refusing = record {
  exec = λ node argv timeout stdin n.
      if n == 1 then (err (command_refused argv), n) else answering.exec node argv timeout stdin n;
}

abbrev hmac : String → String → String
hmac key message = if key == "secret" then "ab12" else "cd34"

abbrev isoformat : ℕ → String
isoformat t = "2026-01-01T00:00:00+00:00"

abbrev show_list : List String → String
show_list ids = "[]"

abbrev steady : ConvergeResult
steady = record {
  converged = true;
  seconds = 41;
  polls = 3;
  ospf_missing = [];
  bgp_down = [];
  rib_stable = true;
}

abbrev results : List RuleResult
results = record { rule_id = "web"; kind = "reach"; passed = true; detail = "" } ∷ []

results_pass : all_passed results ≡ true
unfolding all_passed
results_pass = refl

report_of-passed_iff_example :
    ((report_of hmac isoformat show_list "secret" steady "s1" "p1" results 0).passed ≡ true)
    ↔ ((steady.converged ≡ true) × (all_passed results ≡ true))
report_of-passed_iff_example =
    report_of-passed_iff hmac isoformat show_list "secret" steady "s1" "p1" results 0

abbrev change : ChangeResult
change = record {
  change_id = "c1";
  node = "r1";
  before_snapshot_id = "s0";
  after_snapshot_id = "s1";
  diff = "";
  ops = [];
  rationale = "";
  applied_at = none;
}

signed_ascii :
    is_ascii (sign hmac isoformat "secret" (last_change change []).after_snapshot_id "p1" 0) ≡ true
unfolding is_ascii sign string_eq last_change
signed_ascii = refl

validate-report_of_example :
    validate hmac isoformat
      (change ∷ [])
      (report_of hmac isoformat show_list "secret" steady
        (last_change change []).after_snapshot_id
        "p1"
        results
        0)
      "secret"
      "p1"
    ≡ ok tt
validate-report_of_example =
    validate-report_of hmac isoformat show_list "secret" steady "p1" results 0 change []
      signed_ascii refl results_pass

abbrev lab : Docker
lab = record { lab = "twin"; prefix = "clab"; docker = "docker"; output_cap = 4 }

-- A subprocess that prints its name, where docker is there.
abbrev echo : List String → Option String → ℕ → Action String Bool Finished
echo cmd stdin seconds true = (ok (exited (some (pos 0)) "docker exec" ""), true)
echo cmd stdin seconds false = (err "No such file or directory: 'docker'", false)

abbrev seconds_text : ℕ → String
seconds_text n = "10.0"

abbrev show_addr : List String
show_addr = "ip" ∷ "addr" ∷ []

docker_exec-cases_example :
    ((e : Fault) × (docker_exec echo seconds_text lab "r1" show_addr 10 none false ≡ (err e, false))
      × ((is_node_name "r1" ≡ false) ⊎ (show_addr ≡ [])))
    ⊎ ((is_node_name "r1" ≡ true) × Ran echo seconds_text lab "r1" show_addr 10 none false)
docker_exec-cases_example = docker_exec-cases echo seconds_text lab "r1" show_addr 10 none false

docker_missing_test :
    docker_exec echo seconds_text lab "r1" show_addr 10 none false
    ≡ (err (not_started "No such file or directory: 'docker'"), false)
unfolding docker_exec command container validate_node is_node_name
docker_missing_test = refl

abbrev repair : List Op
repair = set_mtu "eth1" 1500 ∷ set_addr "eth1" "10.0.1.1/24" false ∷ []

abbrev repair_argvs : List Argv
repair_argvs =
    ("ip" ∷ "link" ∷ "set" ∷ "dev" ∷ "eth1" ∷ "mtu" ∷ "1500" ∷ [])
    ∷ ("ip" ∷ "addr" ∷ "add" ∷ "10.0.1.1/24" ∷ "dev" ∷ "eth1" ∷ [])
    ∷ []

repair_rendered : render_all repair ≡ ok repair_argvs
unfolding render_all render show
repair_rendered = refl

apply_ops-cases_example :
    ((rs : List ExecResult) × (w' : ℕ) × (apply_ops refusing "r1" repair 0 ≡ (ok rs, w'))
      × Runs refusing "r1" repair_argvs 0 rs w')
    ⊎ ((e : ApplyFault) × (w' : ℕ) × (apply_ops refusing "r1" repair 0 ≡ (err e, w'))
        × Stops refusing "r1" repair_argvs 0 e w')
apply_ops-cases_example = apply_ops-cases refusing "r1" repair repair_argvs 0 repair_rendered

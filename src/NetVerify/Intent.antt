-- ===== src/NetVerify/Intent.antt =====
-- The end of `intent_check` of packages/netverify/src/netverify/app.py: from the outcome of the wait
-- for convergence, the snapshot and the results of the rules to a report. The text that an f-string
-- gives to a list of texts is a parameter.
pub mod Accepted
use Prim.Native.Nat.{◌/◌, ◌%◌}
use net_twin.Prelude.{
  ℕ, String, ◌<>◌, Bool, true, false, ◌&&◌, List, [], ◌∷◌, Option, none, some, if◌then◌else◌,
}
use net_twin.Prelude.Decimal.{show}
use net_twin.Core.Models.{RuleResult, VerificationReport}
use net_twin.Core.Attest.{issue}

-- `seconds`, rounded to one place, is in tenths.
pub record ConvergeResult : Type 0 where
  pub converged : Bool
  pub seconds : ℕ
  pub polls : ℕ
  pub ospf_missing : List String
  pub bgp_down : List String
  pub rib_stable : Bool

-- `all(r.passed for r in rules)`
unfoldable pub all_passed : List RuleResult → Bool
all_passed [] = true
all_passed (r ∷ rs) = r.passed && all_passed rs

show_tenths : ℕ → String
show_tenths n = show (n / 10) <> ("." <> show (n % 10))

show_bool : Bool → String
show_bool true = "True"
show_bool false = "False"

module _ (hmac : String → String → String) (isoformat : ℕ → String)
    (show_list : List String → String) where
  not_converged : ConvergeResult → RuleResult
  unfolding show_tenths show_bool
  not_converged c = record {
    rule_id = "converged";
    kind = "converge";
    passed = false;
    detail =
        "not converged after "
        <> (show_tenths c.seconds
            <> ("s: ospf missing "
                <> (show_list c.ospf_missing
                    <> (", bgp down "
                        <> (show_list c.bgp_down
                            <> (", rib stable " <> show_bool c.rib_stable))))));
  }

  -- `rules.insert(0, ...)` if the network did not converge.
  unfoldable pub with_convergence : ConvergeResult → List RuleResult → List RuleResult
  unfolding not_converged
  with_convergence c rules = if c.converged then rules else not_converged c ∷ rules

  -- With the time `datetime.now(UTC)` returns.
  unfoldable pub report_of :
      String → ConvergeResult → String → String → List RuleResult → ℕ → VerificationReport
  unfolding with_convergence all_passed
  report_of key c snapshot_id sha evaluated now =
      let rules = with_convergence c evaluated in
      let passed = all_passed rules in
      record {
        passed = passed;
        snapshot_id = snapshot_id;
        policy_sha256 = sha;
        rules = rules;
        attestation = if passed then some (issue hmac isoformat key snapshot_id sha now) else none;
      }

-- ===== src/NetVerify/Intent/Accepted.antt =====
-- When a report passes, and twinlab's check of it.
use net_twin.Prelude.{
  ℕ, ◌≡◌, ◌↔◌, refl, String, true, List, ◌∷◌, none, some, if◌then◌else◌, arith, string_eq,
}
use net_twin.Prelude.Result.{ok}
use net_twin.Core.Models.{RuleResult, ChangeResult}
use net_twin.Core.Attest.{issue, sign, is_ascii}
use net_twin.Core.Attest.Message.{verify-issue}
use net_twin.TwinLab.Export.{validate, last_change}
use net_twin.TwinLab.Export.Valid.{validate_iff, IsCovered}
use net_twin.NetVerify.Intent.{
  ConvergeResult, all_passed, not_converged, with_convergence, report_of,
}

module _ (hmac : String → String → String) (isoformat : ℕ → String)
    (show_list : List String → String) (key : String) where
  -- A report passes exactly if the network converged and every rule that was evaluated passed.
  pub report_of-passed_iff :
      (c : ConvergeResult) (snapshot_id sha : String) (rules : List RuleResult) (now : ℕ)
      → ((report_of hmac isoformat show_list key c snapshot_id sha rules now).passed ≡ true)
        ↔ ((c.converged ≡ true) × (all_passed rules ≡ true))
  unfolding report_of with_convergence all_passed not_converged
  report_of-passed_iff c snapshot_id sha rules now =
      (λ h. (ground (arith, h), ground (arith, h)), λ (p, q). ground (arith, p, q))

  report_of-attestation :
      (c : ConvergeResult) (snapshot_id sha : String) (rules : List RuleResult) (now : ℕ)
      → (report_of hmac isoformat show_list key c snapshot_id sha rules now).attestation ≡ (
          if (report_of hmac isoformat show_list key c snapshot_id sha rules now).passed
          then some (issue hmac isoformat key snapshot_id sha now)
          else none)
  unfolding report_of
  report_of-attestation c snapshot_id sha rules now = refl

  -- Where the network converged and every rule passed, twinlab's check in front of an export
  -- accepts netverify's report on the snapshot after the last of the changes, with the key and the
  -- policy hash they share, if the keyed hash gives ASCII text.
  pub validate-report_of :
      (c : ConvergeResult) (sha : String) (rules : List RuleResult) (now : ℕ)
      (change : ChangeResult) (changes : List ChangeResult)
      → is_ascii (sign hmac isoformat key (last_change change changes).after_snapshot_id sha now)
        ≡ true
      → c.converged ≡ true
      → all_passed rules ≡ true
      → validate hmac isoformat
          (change ∷ changes)
          (report_of hmac isoformat show_list key c
            (last_change change changes).after_snapshot_id
            sha
            rules
            now)
          key
          sha
        ≡ ok tt
  unfolding IsCovered issue report_of
  validate-report_of c sha rules now change changes ascii p q =
      let id = (last_change change changes).after_snapshot_id in
      let passed = (report_of-passed_iff c id sha rules now).1 (p, q) in
      (validate_iff hmac isoformat (change ∷ changes) _ key sha).1 (
        change,
        changes,
        refl,
        passed,
        (
          issue hmac isoformat key id sha now,
          rw passed refl,
          verify-issue isoformat hmac key id sha now ascii,
          refl,
          refl,
          refl,
        ),
      )

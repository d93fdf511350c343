-- ===== src/TwinLab/Export.antt =====
-- packages/twinlab/src/twinlab/export.py: export bundles, the check in front of one, and the texts
-- written for an approved one.
pub mod Valid
pub mod Preview
use net_twin.Prelude.{
  ℕ, String, ◌<>◌, Bool, true, false, List, [], ◌∷◌, ◌++◌, Option, none, some, ◌==◌, string_eq,
  if◌then◌else◌,
}
use net_twin.Prelude.Text.{join, is_empty, rstrip}
use net_twin.Prelude.Result.{Result, ok, err, ◌>>=◌, ◌>>◌, require}
use net_twin.Core.Executor.{take}
use net_twin.Core.Models.{
  ChangeResult, RootCause, RuleResult, VerificationReport, Attestation, failed_rules, Layer, l2, l3,
  policy, host,
}
use net_twin.Core.Attest.{DigestFault, verify}

pub data Status : Type 0 where
  pending approved declined : Status

-- `ExportError`, one constructor per message, and the `TypeError` of `compare_digest`.
pub data ExportError : Type 0 where
  no_changes no_attestation bad_signature wrong_snapshot wrong_policy mac_not_ascii : ExportError
  not_passed : List String → ExportError
  stale : String → String → String → ExportError

pub record ExportBundle : Type 0 where
  pub export_id : String
  pub created_at : ℕ
  pub status : Status
  pub decided_at : Option ℕ
  pub decided_by : Option String
  pub note : String
  pub changes : List ChangeResult
  pub verification : VerificationReport
  pub root_cause : RootCause
  pub summary : String

-- `changes[-1]`
unfoldable pub last_change : ChangeResult → List ChangeResult → ChangeResult
last_change c [] = c
last_change c (d ∷ cs) = last_change d cs

signature : Result DigestFault Bool → Result ExportError (Unit {0})
signature (ok good) = require good bad_signature
signature (err e) = err mac_not_ascii

covers : Attestation → String → String → ChangeResult → Result ExportError (Unit {0})
covers a snapshot_id policy_sha256 last = do
  require (a.snapshot_id == snapshot_id) wrong_snapshot
  require (a.policy_sha256 == policy_sha256) wrong_policy
  require (a.snapshot_id == last.after_snapshot_id)
      (stale (take 12 a.snapshot_id) last.change_id (take 12 last.after_snapshot_id))

module _ (hmac : String → String → String) (isoformat : ℕ → String) where
  attested :
      Option Attestation → String → String → String → ChangeResult → Result ExportError (Unit {0})
  unfolding signature covers
  attested none snapshot_id key policy_sha256 last = err no_attestation
  attested (some a) snapshot_id key policy_sha256 last = do
    signature (verify hmac isoformat key a)
    covers a snapshot_id policy_sha256 last

  unfoldable pub validate :
      List ChangeResult → VerificationReport → String → String → Result ExportError (Unit {0})
  unfolding last_change attested
  validate [] v key policy_sha256 = err no_changes
  validate (c ∷ cs) v key policy_sha256 = do
    require v.passed (not_passed (failed_rules v.rules))
    attested v.attestation v.snapshot_id key policy_sha256 (last_change c cs)

-- With the time and the random id of the source as arguments.
unfoldable pub new_bundle :
    ℕ → String → List ChangeResult → VerificationReport → RootCause → String → ExportBundle
new_bundle now export_id changes verification root_cause summary = record {
  export_id = export_id;
  created_at = now;
  status = pending;
  decided_at = none;
  decided_by = none;
  note = "";
  changes = changes;
  verification = verification;
  root_cause = root_cause;
  summary = summary;
}

patch_parts : List ChangeResult → List String
patch_parts [] = []
patch_parts (c ∷ cs) =
    rstrip ("# change " <> (c.change_id <> (" on " <> (c.node <> (": " <> c.rationale)))))
    ∷ rstrip c.diff
    ∷ ""
    ∷ patch_parts cs

unfoldable pub render_patch : ExportBundle → String
unfolding patch_parts
render_patch bundle = join "\n" (patch_parts bundle.changes)

pub layer_name : Layer → String
layer_name l2 = "L2"
layer_name l3 = "L3"
layer_name policy = "policy"
layer_name host = "host"

status_name : Status → String
status_name pending = "pending"
status_name approved = "approved"
status_name declined = "declined"

change_lines : List ChangeResult → List String
change_lines [] = []
change_lines (c ∷ cs) =
    ("- `"
      <> (c.change_id
          <> ("` on **"
              <> (c.node
                  <> ("**: "
                      <> (if is_empty c.rationale then "(no rationale)" else c.rationale))))))
    ∷ change_lines cs

rule_lines : List RuleResult → List String
rule_lines [] = []
rule_lines (r ∷ rs) =
    ("| "
      <> (r.rule_id
          <> (" | "
              <> (r.kind
                  <> (" | "
                      <> ((if r.passed then "pass" else "FAIL")
                          <> (" | " <> (r.detail <> " |"))))))))
    ∷ rule_lines rs

summary_lines : String → List String
summary_lines summary = if is_empty summary then [] else "## Summary" ∷ "" ∷ summary ∷ "" ∷ []

decider : Option String → String
decider none = "-"
decider (some name) = if is_empty name then "-" else name

decision_line : ExportBundle → String
unfolding status_name decider
decision_line b = rstrip (
    "Decision: " <> (status_name b.status <> (" by " <> (decider b.decided_by <> (" " <> b.note)))))

verified_line : VerificationReport → String
verified_line v =
    "Snapshot `"
    <> (take 12 v.snapshot_id
        <> ("`, policy `"
            <> (take 12 v.policy_sha256
                <> ("`, passed: " <> (if v.passed then "True" else "False")))))

unfoldable pub render_root_cause : ExportBundle → String
unfolding layer_name change_lines rule_lines summary_lines decision_line verified_line
render_root_cause b =
    let rc = b.root_cause in
    join "\n" (
      ("# Root cause: " <> (rc.component <> (" on " <> rc.node)))
      ∷ ""
      ∷ ("Layer: " <> layer_name rc.layer)
      ∷ ""
      ∷ rc.summary
      ∷ ""
      ∷ (summary_lines b.summary
          ++ "## Changes"
            ∷ ""
            ∷ (change_lines b.changes
                ++ ""
                  ∷ "## Verification"
                  ∷ ""
                  ∷ verified_line b.verification
                  ∷ ""
                  ∷ "| Rule | Kind | Result | Evidence |"
                  ∷ "|---|---|---|---|"
                  ∷ (rule_lines b.verification.rules ++ "" ∷ decision_line b ∷ "" ∷ []))))

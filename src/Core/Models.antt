-- ===== src/Core/Models.antt =====
-- packages/nettwin_core/src/nettwin_core/models.py: what the agents and the servers exchange.
use net_twin.Prelude.{ℕ, String, Bool, List, [], ◌∷◌, Option, if◌then◌else◌}
use net_twin.Core.Ops.{Op}

pub data Layer : Type 0 where
  l2 l3 policy host : Layer

pub record RootCause : Type 0 where
  pub node : String
  pub layer : Layer
  pub component : String
  pub summary : String

-- Times are microseconds since the epoch.
pub record ChangeResult : Type 0 where
  pub change_id : String
  pub node : String
  pub before_snapshot_id : String
  pub after_snapshot_id : String
  pub diff : String
  pub ops : List Op
  pub rationale : String
  pub applied_at : Option ℕ

pub record RuleResult : Type 0 where
  pub rule_id : String
  pub kind : String
  pub passed : Bool
  pub detail : String

pub record Attestation : Type 0 where
  pub snapshot_id : String
  pub policy_sha256 : String
  pub issued_at : ℕ
  pub mac : String

pub record VerificationReport : Type 0 where
  pub passed : Bool
  pub snapshot_id : String
  pub policy_sha256 : String
  pub rules : List RuleResult
  pub attestation : Option Attestation

unfoldable pub failed_rules : List RuleResult → List String
failed_rules [] = []
failed_rules (r ∷ rs) = let rest = failed_rules rs in if r.passed then rest else r.rule_id ∷ rest

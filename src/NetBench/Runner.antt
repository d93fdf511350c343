-- ===== src/NetBench/Runner.antt =====
-- The contract of packages/netbench/src/netbench/runner.py: what a runner is told, and what it gives back.
use net_twin.Prelude.{ℕ, String, Bool, List, [], Option, none}
use net_twin.Prelude.Action.{Action}
use net_twin.Prelude.Json.{Json, Fields}
use net_twin.Core.Models.{RootCause, VerificationReport}
use net_twin.NetBench.Clients.{ToolCall, Fault, Bench}

pub record RunContext : Type 0 where
  pub scenario_id : String
  pub symptom : String
  pub use_verifier : Bool
  pub config_name : String
  pub trial : ℕ

-- The cost is kept as the value that was read.
pub record RunOutput : Type 0 where
  pub root_cause : Option RootCause
  pub change_ids : List String
  pub verification : Option VerificationReport
  pub export : Option Fields
  pub tool_calls : List ToolCall
  pub input_tokens : Option ℕ
  pub output_tokens : Option ℕ
  pub cache_read_tokens : Option ℕ
  pub cache_creation_tokens : Option ℕ
  pub cost_usd : Option Json
  pub notes : String

-- `RunOutput(notes=...)`
unfoldable pub no_output : String → RunOutput
no_output notes = record {
  root_cause = none;
  change_ids = [];
  verification = none;
  export = none;
  tool_calls = [];
  input_tokens = none;
  output_tokens = none;
  cache_read_tokens = none;
  cache_creation_tokens = none;
  cost_usd = none;
  notes = notes;
}

-- `Runner.run`
abbrev pub Runs : Type 0 → Type 0
Runs W = RunContext → Action Fault (Bench W) RunOutput

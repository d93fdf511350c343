-- ===== src/NetBench/Cli.antt =====
-- `ClaudeCliRunner` of packages/netbench/src/netbench/claude_cli.py. The command that is run is a parameter, with
-- what finds it; the seconds that the run took are an argument, and transcripts are not written. A text is
-- compared without regard to case by its lower-case form.
pub mod Output
pub mod Run
use net_twin.Prelude.{
  ℕ, zero, suc, String, ◌<>◌, Bool, true, false, not, ◌&&◌, ◌||◌, List, [], ◌∷◌, ◌++◌, map, Option,
  none, some, if◌then◌else◌, ◌==◌, string_eq, contains,
}
use Prim.Native.Char.{code}
use net_twin.Prelude.Text.{
  is_empty, words, strip, join, occurs, startswith, after_prefix, first_chars, size, between,
}
use net_twin.Prelude.Lists.{any, last, filter}
use net_twin.Prelude.Decimal.{show}
use net_twin.Prelude.Int.{ℤ, pos, negsuc, is_zero}
use net_twin.Prelude.Result.{Result, ok, err, ◌>>=◌}
use net_twin.Prelude.Action.{Action, raise, lift}
use net_twin.Prelude.Json.{
  Json, null, text, list, dict, Fields, end, field, JsonFault, not_dict, not_list, missing, get,
  truthy, as_dict, as_list, or_else, int_of, str,
}
use net_twin.Core.Models.{VerificationReport}
use net_twin.NetBench.Clients.{Fault, bad_shape, unavailable, run_timeout, Bench, outside}
use net_twin.NetBench.Calls.{Runtime, field_of}
use net_twin.NetBench.Runner.{RunContext, RunOutput}
use net_twin.NetBench.Harness.{Admin}
use net_twin.NetBench.Reported.{extract_report, root_cause_from}
use net_twin.NetBench.Stream.{StreamSummary, tool_calls}
use net_twin.NetBench.Stream.Parse.{parse_stream}

pub record CliRunner : Type 0 where
  pub model : String
  pub skill : String
  pub max_turns : ℕ
  pub timeout : ℕ
  pub cli : String
  pub allowed_tools : List String

-- `ClaudeCliRunner.prompt`
unfoldable pub prompt : CliRunner → String → Bool → String
prompt r symptom use_verifier =
    let said = "/" <> (r.skill <> (" " <> join " " (words symptom))) in
    if use_verifier then said else said <> " --no-verifier"

-- `ClaudeCliRunner.argv`, with the command that `find_claude` finds
unfoldable pub argv : CliRunner → List String
argv r =
    r.cli
    ∷ "-p"
    ∷ "--output-format"
    ∷ "stream-json"
    ∷ "--verbose"
    ∷ "--model"
    ∷ r.model
    ∷ "--mcp-config"
    ∷ ".mcp.json"
    ∷ "--strict-mcp-config"
    ∷ "--allowedTools"
    ∷ join "," r.allowed_tools
    ∷ "--max-turns"
    ∷ show r.max_turns
    ∷ []

-- The exit status, the lines of the output and what went to stderr.
pub record Spawned : Type 0 where
  pub status : ℤ
  pub lines : List String
  pub stderr : String

abbrev pub Spawn : Type 0 → Type 0
Spawn W = List String → String → ℕ → Action Fault W Spawned

-- `limit`, with one character that is no newline before it or none
limit_here : String → Bool
limit_here String.[] = false
limit_here (String.◌∷◌ c s) =
    startswith (String.◌∷◌ c s) "limit" || (not (between 10 10 (code c)) && startswith s "limit")

-- `rate.?limit`
rate_limit : String → Bool
unfolding limit_here
rate_limit String.[] = false
rate_limit (String.◌∷◌ c s) =
    let rest = rate_limit s in
    elim (after_prefix (String.◌∷◌ c s) "rate") [
      | none ↦ rest
      | some tail ↦ limit_here tail || rest
    ]

abbrev causes_of_failure : List String
causes_of_failure =
    "authentication" ∷ "not logged in" ∷ "log in" ∷ "usage limit" ∷ "hit your limit"
    ∷ "limit reached" ∷ "overloaded" ∷ "quota" ∷ []

-- `_UNAVAILABLE_RE.search` of a text in lower case
unfoldable pub is_unavailable : String → Bool
unfolding rate_limit
is_unavailable s = rate_limit s || any (λ part. occurs part s) causes_of_failure

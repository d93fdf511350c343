-- ===== src/NetBench/Stream.antt =====
-- `parse_stream` of packages/netbench/src/netbench/claude_cli.py: what the harness keeps of the events that the
-- Claude Code command prints, a JSON text on each line. A value that the source keeps as it is read stays
-- JSON, where `null` is None; reading a value of another shape raises.
pub mod Events
pub mod Parse
use net_twin.Prelude.{
  ℕ, ◌+◌, String, Bool, true, false, not, ◌&&◌, ◌||◌, List, [], ◌∷◌, ◌++◌, map, Option, none, some,
  if◌then◌else◌, ◌==◌, string_eq, nat_eq,
}
use net_twin.Prelude.Text.{is_empty, strip}
use net_twin.Prelude.Dict.{find, put}
use net_twin.Prelude.Result.{Result, ok, err, ◌>>=◌}
use net_twin.Prelude.Json.{
  Json, null, number, text, list, dict, Fields, end, JsonFault, not_text, elements, get, truthy,
  dict_or_empty, int_of, iterated, or_else, as_dict, str,
}
use net_twin.NetBench.Roles.Names.{split_tool_name}
use net_twin.NetBench.Clients.{ToolCall}
use net_twin.NetBench.Calls.{Runtime, field_of}

pub record ToolUse : Type 0 where
  pub id : String
  pub name : String
  pub parent_tool_use_id : Option String
  pub input : Fields

pub record StreamSummary : Type 0 where
  pub session_id : Json
  pub model : Json
  pub subtype : Json
  pub is_error : Bool
  pub error : Option String
  pub num_turns : ℕ
  pub elapsed_ms : ℕ
  pub total_cost_usd : Json
  pub input_tokens : Json
  pub output_tokens : Json
  pub cache_read_tokens : Json
  pub cache_creation_tokens : Json
  pub final_text : String
  pub tool_uses : List ToolUse
  pub tool_results : List (String × Bool)
  pub agents_launched : List String
  pub events : ℕ
  pub skipped_lines : ℕ
  pub results_seen : ℕ
  pub saw_main_text : Bool

unfoldable pub empty_summary : StreamSummary
empty_summary = record {
  session_id = null;
  model = null;
  subtype = null;
  is_error = false;
  error = none;
  num_turns = 0;
  elapsed_ms = 0;
  total_cost_usd = null;
  input_tokens = null;
  output_tokens = null;
  cache_read_tokens = null;
  cache_creation_tokens = null;
  final_text = "";
  tool_uses = [];
  tool_results = [];
  agents_launched = [];
  events = 0;
  skipped_lines = 0;
  results_seen = 0;
  saw_main_text = false;
}

succeeded : StreamSummary → ToolUse → Bool
succeeded s u = elim (find u.id s.tool_results) [ none ↦ true | some b ↦ b ]

call_of : StreamSummary → ToolUse → ToolCall
unfolding succeeded split_tool_name
call_of s u = record {
  server = (split_tool_name u.name).0;
  tool = (split_tool_name u.name).1;
  ok = succeeded s u;
  duration_ms = 0;
}

-- `StreamSummary.tool_calls`
unfoldable pub tool_calls : StreamSummary → List ToolCall
unfolding call_of
tool_calls s = map (call_of s) s.tool_uses

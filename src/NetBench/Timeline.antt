-- ===== src/NetBench/Timeline.antt =====
-- packages/netbench/src/netbench/timeline.py: the steps of an incident, from the events that Claude Code
-- printed. Times are whole microseconds.
pub mod Blocks
pub mod Collapse
pub mod Rows
pub mod Read
pub mod Describe
pub mod Markdown
use net_twin.Prelude.{
  ℕ, zero, suc, ◌+◌, ◌-◌, String, ◌<>◌, Bool, true, false, not, ◌&&◌, List, [], ◌∷◌, ◌++◌, Option,
  none, some, if◌then◌else◌, ◌==◌, string_eq, contains, leb,
}
use net_twin.Prelude.Text.{startswith, join, replace, size}
use net_twin.Prelude.Int.{ℤ, pos, negsuc}
use net_twin.Prelude.Dict.{find, put}
use net_twin.Prelude.Result.{Result, ok, err, ◌>>=◌}
use net_twin.Prelude.Json.{
  Json, null, text, list, dict, Fields, end, field, JsonFault, not_text, missing, elements, get,
  truthy, as_dict, or_else, str,
}
use net_twin.NetBench.Calls.{Runtime, field_of}
use net_twin.NetBench.Reported.{extract_report}

-- Calls that are plumbing.
abbrev pub plumbing : List String
plumbing = "ToolSearch" ∷ "ListMcpResourcesTool" ∷ []

pub record Step : Type 0 where
  pub at : ℤ
  pub actor : String
  pub tool : String
  pub args : Json
  pub succeeded : Option Bool
  pub result : Json
  pub nodes : List String
  pub count : ℕ

pub record Timeline : Type 0 where
  pub steps : List Step
  pub report : Option Fields
  pub duration : ℤ

-- ===== src/NetBench/Toolset.antt =====
-- `Toolset` and the tools it holds, of packages/netbench/src/netbench/local_agent.py.
pub mod Kept
pub mod Offered
use net_twin.Prelude.{
  ℕ, zero, suc, String, ◌<>◌, Bool, true, false, not, ◌&&◌, List, [], ◌∷◌, ◌++◌, map, Option, none,
  some, if◌then◌else◌, ◌==◌, string_eq, nat_eq, contains,
}
use net_twin.Prelude.Text.{startswith, join}
use net_twin.Prelude.Lists.{filter}
use net_twin.Prelude.Dict.{find, put}
use net_twin.Prelude.Action.{Action, pure, ◌>>=◌}
use net_twin.Prelude.Json.{Json, text, dict, Fields, end, field}
use net_twin.NetBench.Roles.{Role, mcp_prefix}
use net_twin.NetBench.Roles.Names.{tool_name}
use net_twin.NetBench.Clients.{
  Client, twin, verify, name_of, Fault, Bench, Sessions, ToolInfo, call, read_resource, list_tools,
}
use net_twin.NetBench.Calls.{Runtime, truncate, format_result}

pub record BoundTool (W : Type 0) : Type 0 where
  pub name : String
  pub description : String
  pub parameters : Fields
  pub handler : Fields → Action Fault (Bench W) String
  pub cap : Option ℕ

pub record Toolset (W : Type 0) : Type 0 where
  pub tools : List (String × BoundTool W)
  pub result_cap : ℕ

abbrev pub read_topology : String
read_topology = "read_topology"

abbrev pub launch_agent : String
launch_agent = "launch_agent"

abbrev pub export_tool : String
export_tool = "mcp__twinlab__export_change"

abbrev pub netverify_prefix : String
netverify_prefix = "mcp__netverify__"

abbrev pub commander_tools : List String
commander_tools =
    read_topology ∷ "mcp__twinlab__snapshot" ∷ "mcp__twinlab__rollback" ∷ export_tool ∷ []

timeout_of : String → ℕ
timeout_of tool = if tool == "intent_check" then 300 else if tool == "rollback" then 300 else 180

capped : ℕ → String → String
capped zero s = s
capped (suc n) s = truncate s (suc n)

cap_of : ℕ → Option ℕ → ℕ
cap_of result_cap none = result_cap
cap_of result_cap (some n) = n

module _ {W : Type 0} where
  unfoldable pub definition : BoundTool W → Json
  definition t = dict (
      field "type" (text "function") (
        field "function"
          (dict (
            field "name" (text t.name) (
              field "description" (text t.description)
                (field "parameters" (dict t.parameters) end))))
          end))

  by_name : List (BoundTool W) → List (String × BoundTool W) → List (String × BoundTool W)
  by_name [] d = d
  by_name (t ∷ ts) d = by_name ts (put t.name t d)

  -- `Toolset.__init__`
  unfoldable pub toolset : List (BoundTool W) → ℕ → Toolset W
  unfolding by_name
  toolset tools result_cap = record { tools = by_name tools []; result_cap = result_cap }

  unfoldable pub names : Toolset W → List String
  names ts = map (λ (p : String × BoundTool W). p.0) ts.tools

  unfoldable pub definitions : Toolset W → List Json
  unfolding definition
  definitions ts = map (λ (p : String × BoundTool W). definition p.1) ts.tools

  refused : Runtime → Toolset W → String → String
  unfolding names
  refused python ts name =
      "error: "
      <> (python.repr name
          <> (" is not a tool this agent may call; available: " <> join ", " (names ts)))

  run_tool : ℕ → BoundTool W → String → Json → Action Fault (Bench W) String
  unfolding capped cap_of
  run_tool result_cap tool name (dict args) = do
    s ← tool.handler args
    pure (capped (cap_of result_cap tool.cap) s)
  run_tool result_cap tool name j =
      pure ("error: arguments for " <> (name <> " must be a JSON object"))

  -- `Toolset.dispatch`
  unfoldable pub dispatch : Runtime → Toolset W → String → Json → Action Fault (Bench W) String
  unfolding refused run_tool
  dispatch python ts name args = elim (find name ts.tools) [
    | none ↦ pure (refused python ts name)
    | some tool ↦ run_tool ts.result_cap tool name args
  ]

  unfoldable pub role_tools : Role → List (BoundTool W) → List (BoundTool W)
  role_tools role available =
      filter
        (λ (t : BoundTool W).
          contains role.tools t.name && not (contains role.disallowed_tools t.name))
        available

  unfoldable pub without_verifier : List (BoundTool W) → List (BoundTool W)
  without_verifier tools =
      filter
        (λ (t : BoundTool W).
          not (t.name == export_tool) && not (startswith t.name netverify_prefix))
        tools

  module _ (python : Runtime) (sessions : Sessions W) where
    -- `_mcp_handler`
    unfoldable pub mcp_handler : Client → String → Fields → Action Fault (Bench W) String
    unfolding timeout_of
    mcp_handler client tool args = do
      c ← call sessions client tool args (timeout_of tool)
      pure (format_result python c)

    or_nothing : Option String → String
    or_nothing none = ""
    or_nothing (some s) = s

    unfoldable pub bound : Client → ToolInfo → BoundTool W
    unfolding mcp_handler or_nothing
    bound client tool = record {
      name = tool_name (name_of client) tool.name;
      description = or_nothing tool.description;
      parameters = tool.input_schema;
      handler = mcp_handler client tool.name;
      cap = none;
    }

    unfoldable pub mcp_tools : Client → Action Fault (Bench W) (List (BoundTool W))
    unfolding bound
    mcp_tools client = do infos ← list_tools sessions client; pure (map (bound client) infos)

    unfoldable pub topology_tool : BoundTool W
    topology_tool = record {
      name = read_topology;
      description =
          "Return the twinlab resource lab://topology: nodes with roles, links with both interface names, subnets and recent snapshot ids. Use it wherever the instructions mention ReadMcpResourceTool.";
      parameters = field "type" (text "object") (field "properties" (dict end) end);
      handler = λ args. read_resource sessions twin "lab://topology";
      cap = some 0;
    }

-- ===== src/NetBench/Clients.antt =====
-- The tool clients of packages/netbench/src/netbench/clients.py, over what the sessions do: what
-- `call_tool`, `read_resource`, `list_tools` and a new session give is a parameter. A session's answer
-- comes with the time that the call took. The second shape of an answer, which the source does not use, is
-- left out.
pub mod Keeps
use net_twin.Prelude.{
  ℕ, ◌+◌, String, ◌<>◌, Bool, true, false, not, List, [], ◌∷◌, ◌++◌, Option, none, some, map,
  if◌then◌else◌,
}
use net_twin.Prelude.Text.{is_empty}
use net_twin.Prelude.Lists.{filter}
use net_twin.Prelude.Result.{Result, ok, err}
use net_twin.Prelude.Action.{Action, pure, raise, lift, ◌>>=◌, ◌>>◌}
use net_twin.Prelude.Json.{Json, Fields, JsonFault}
use net_twin.NetBench.Roles.{RoleFault}

-- The two clients of a run, in `cli.py` with the names "twinlab" and "netverify".
pub data Client : Type 0 where
  twin verify : Client

unfoldable pub name_of : Client → String
name_of twin = "twinlab"
name_of verify = "netverify"

pub record CallResult : Type 0 where
  pub tool : String
  pub args : Fields
  pub ok : Bool
  pub value : Option Fields
  pub text : String
  pub duration_ms : ℕ

-- A `CallToolResult`.
pub record Reply : Type 0 where
  pub is_error : Bool
  pub structured : Option Fields
  pub content : String
  pub duration : ℕ

pub record ToolInfo : Type 0 where
  pub name : String
  pub description : Option String
  pub input_schema : Fields

-- What a session raises, what the model's server raises, and what the harness raises itself.
pub data Fault : Type 0 where
  call_timeout mcp_error : Fault
  tool_call_failed : String → Fault
  unavailable model_timeout run_timeout call_failed : String → Fault
  bad_shape : JsonFault → Fault
  out_of_fuel : Fault
  bad_role : RoleFault → Fault

-- What the servers do, to a world of their own.
pub record Sessions (W : Type 0) : Type 0 where
  pub call_tool : Client → String → Fields → ℕ → Action Fault W Reply
  pub read : Client → String → Action Fault W String
  pub listed : Client → Action Fault W (List ToolInfo)
  pub reopen : Client → Action Fault W (Unit {0})

-- What is kept of a subagent that ran.
pub record Launch : Type 0 where
  pub subagent_type : String
  pub prompt : String
  pub turns : ℕ
  pub hit_max_turns : Bool
  pub messages : List Json

-- The world, the calls that each client has recorded, what the chat has counted, and the subagents that ran.
pub record Bench (W : Type 0) : Type 0 where
  pub world : W
  pub twin_calls : List CallResult
  pub verify_calls : List CallResult
  pub prompt_tokens : ℕ
  pub completion_tokens : ℕ
  pub requests : ℕ
  pub thinks : Option Bool
  pub launches : List Launch

unfoldable pub calls_of : {W : Type 0} → Client → Bench W → List CallResult
calls_of twin s = s.twin_calls
calls_of verify s = s.verify_calls

unfoldable pub recorded : {W : Type 0} → Client → CallResult → Bench W → Bench W
recorded twin c s = record s { twin_calls = s.twin_calls ++ (c ∷ []) }
recorded verify c s = record s { verify_calls = s.verify_calls ++ (c ∷ []) }

or_no_output : String → String
or_no_output s = if is_empty s then "no output" else s

-- `CallResult.require`
unfoldable pub require : CallResult → Result Fault Fields
unfolding or_no_output
require c =
    if c.ok
    then elim c.value [
      | some d ↦ ok d
      | none ↦ err (tool_call_failed (c.tool <> (" failed: " <> or_no_output c.text)))
    ]
    else err (tool_call_failed (c.tool <> (" failed: " <> or_no_output c.text)))

unfoldable pub call_result : String → Fields → Reply → CallResult
call_result tool args r = record {
  tool = tool;
  args = args;
  ok = not r.is_error;
  value = r.structured;
  text = r.content;
  duration_ms = r.duration;
}

-- What is done to the world.
unfoldable pub outside : {W A : Type 0} → Action Fault W A → Action Fault (Bench W) A
outside m s = let (r, w) = m s.world in (r, record s { world = w })

record_call : {W : Type 0} → Client → CallResult → Action Fault (Bench W) CallResult
unfolding recorded
record_call client c s = (ok c, recorded client c s)

module _ {W : Type 0} (sessions : Sessions W) where
  -- `ToolClient.call`
  unfoldable pub call_once : Client → String → Fields → ℕ → Action Fault (Bench W) CallResult
  unfolding outside record_call call_result
  call_once client tool args timeout = do
    reply ← outside (sessions.call_tool client tool args timeout)
    record_call client (call_result tool args reply)

  again : Client → String → Fields → ℕ → Fault → Action Fault (Bench W) CallResult
  unfolding outside call_once
  again client tool args timeout call_timeout = do
    outside (sessions.reopen client)
    call_once client tool args timeout
  again client tool args timeout mcp_error = do
    outside (sessions.reopen client)
    call_once client tool args timeout
  again client tool args timeout e = raise e

  retried :
      Client → String → Fields → ℕ → Result Fault CallResult → Action Fault (Bench W) CallResult
  unfolding again
  retried client tool args timeout (ok c) = pure c
  retried client tool args timeout (err e) = again client tool args timeout e

  -- `HttpToolClient.call`
  unfoldable pub call : Client → String → Fields → ℕ → Action Fault (Bench W) CallResult
  unfolding call_once retried
  call client tool args timeout s =
      let (r, t) = call_once client tool args timeout s in retried client tool args timeout r t

  unfoldable pub read_resource : Client → String → Action Fault (Bench W) String
  unfolding outside
  read_resource client uri = outside (sessions.read client uri)

  unfoldable pub list_tools : Client → Action Fault (Bench W) (List ToolInfo)
  unfolding outside
  list_tools client = outside (sessions.listed client)

-- `ToolCall` of packages/netbench/src/netbench/runner.py, and what `collect_calls` gives for one client
pub record ToolCall : Type 0 where
  pub server : String
  pub tool : String
  pub ok : Bool
  pub duration_ms : ℕ

unfoldable pub tool_calls_of : String → List CallResult → List ToolCall
tool_calls_of server cs =
    map (λ c. record { server = server; tool = c.tool; ok = c.ok; duration_ms = c.duration_ms }) cs

-- `collect_calls(ctx.twin, ctx.verify)`
unfoldable pub collect_calls : {W : Type 0} → Bench W → List ToolCall
unfolding tool_calls_of
collect_calls s =
    tool_calls_of (name_of twin) s.twin_calls ++ tool_calls_of (name_of verify) s.verify_calls

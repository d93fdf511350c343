-- ===== src/NetBench/Local.antt =====
-- `LocalRunner` of packages/netbench/src/netbench/local_agent.py: the tools of a run, and its subagents.
-- Transcripts are not written.
pub mod Ablation
pub mod Output
use net_twin.Prelude.{
  ℕ, zero, suc, ◌+◌, ◌-◌, String, ◌<>◌, Bool, true, false, not, ◌&&◌, List, [], ◌∷◌, ◌++◌, map,
  Option, none, some, if◌then◌else◌, ◌==◌, string_eq, contains,
}
use net_twin.Prelude.Text.{is_empty, is_space, length, startswith, join, words, replace}
use net_twin.Prelude.Lists.{filter}
use net_twin.Prelude.Sort.{le_text, sort}
use net_twin.Prelude.Decimal.{show}
use net_twin.Prelude.Dict.{find}
use net_twin.Prelude.Result.{Result, ok, err}
use net_twin.Prelude.Action.{Action, pure, lift, ◌>>=◌, ◌>>◌}
use net_twin.Prelude.Json.{Json, text, list, dict, Fields, end, field, get, or_else, of_list, str}
use net_twin.NetBench.Runner.{RunContext}
use net_twin.NetBench.Roles.{Role, SkillInfo, RoleFault, servers}
use net_twin.NetBench.Clients.{Client, twin, verify, Fault, bad_role, Launch, Bench, Sessions}
use net_twin.NetBench.Calls.{Runtime}
use net_twin.NetBench.Chat.{Ollama}
use net_twin.NetBench.Toolset.{
  BoundTool, toolset, launch_agent, commander_tools, mcp_tools, topology_tool, role_tools,
  without_verifier,
}
use net_twin.NetBench.Loop
use net_twin.NetBench.Loop.{LoopResult}

-- What a runner is made with.
pub record Runner : Type 0 where
  pub roles : List (String × Role)
  pub skill : SkillInfo
  pub max_turns : ℕ
  pub result_cap : ℕ

abbrev solo_preamble : String
solo_preamble =
    "You work inside the NetTwin digital twin through function calls. The twinlab and netverify\nMCP tools are the functions named mcp__twinlab__<tool> and mcp__netverify__<tool>;\n`read_topology` returns the lab://topology resource (use it wherever the instructions mention\nReadMcpResourceTool). Call functions instead of describing commands, and read every result\nbefore the next call. Your final message must end with the JSON line the instructions ask\nfor, on its own line.\n"

abbrev team_preamble : String
team_preamble =
    solo_preamble
    <> "\nSubagents are launched with the `launch_agent(subagent_type, prompt)` function instead of\nthe Agent tool; it runs that agent to completion and returns its final report as text.\nSeveral launches in one message run one after another.\n"

abbrev role_preamble : String
role_preamble =
    "You are a subagent inside the NetTwin digital twin. The MCP tools you may use are the\nfunctions named mcp__<server>__<tool>; call them instead of describing commands. When you\nare done, answer with exactly the output your instructions ask for.\n"

unfoldable pub team : Runner → Bool
team r = r.skill.name == "diagnose"

unfoldable pub arguments : RunContext → String
arguments ctx =
    let symptom = join " " (words ctx.symptom) in
    if ctx.use_verifier then symptom else symptom <> " --no-verifier"

unfoldable pub system_prompt : Runner → RunContext → String
unfolding team arguments
system_prompt r ctx =
    (if team r then team_preamble else solo_preamble)
    <> ("\n" <> replace "$ARGUMENTS" (arguments ctx) r.skill.body)

unfoldable pub user_prompt : Runner → RunContext → String
unfolding arguments
user_prompt r ctx = "/" <> (r.skill.name <> (" " <> arguments ctx))

role_names : Runner → List String
role_names r = sort le_text (map (λ (p : String × Role). p.0) r.roles)

launch_parameters : Runner → Fields
unfolding role_names
launch_parameters r = field "type" (text "object") (
    field "properties"
      (dict (
        field "subagent_type"
          (dict (
            field "type" (text "string") (
              field "enum" (list (of_list (map text (role_names r))))
                (field "description" (text "The role to launch") end))))
          (field "prompt"
            (dict (
              field "type" (text "string") (
                field "description" (text "Everything the subagent needs; it sees nothing else")
                  end)))
            end)))
      (field "required" (list (of_list (text "subagent_type" ∷ text "prompt" ∷ []))) end))

turns_for : Option ℕ → ℕ → ℕ
turns_for none default = default
turns_for (some zero) default = default
turns_for (some (suc n)) default = suc n

-- Whether a role is switched off: its servers are looked at only without the verifier.
unfoldable pub disabled : Bool → Role → Result Fault Bool
disabled true role = ok false
disabled false role = elim (servers role) [
  | ok names ↦ ok (contains names "netverify")
  | err e ↦ err (bad_role e)
]

spoken_report : String → LoopResult → String
spoken_report name r =
    let said = if is_empty r.final_text then "(the subagent returned no text)" else r.final_text in
    if r.hit_max_turns
    then said
      <> ("\n["
          <> (name <> (" stopped after " <> (show r.turns <> " turns without a final answer]"))))
    else said

launch_of : String → String → LoopResult → Launch
launch_of name prompt r = record {
  subagent_type = name;
  prompt = prompt;
  turns = r.turns;
  hit_max_turns = r.hit_max_turns;
  messages = r.messages;
}

launched : {W : Type 0} → Launch → Action Fault (Bench W) (Unit {0})
launched l s = (ok tt, record s { launches = s.launches ++ (l ∷ []) })

no_launches : {W : Type 0} → Action Fault (Bench W) (Unit {0})
no_launches s = (ok tt, record s { launches = [] })

module _ {W : Type 0} (python : Runtime) (ollama : Ollama W) (sessions : Sessions W)
    (runner : Runner) where
  launch_role : List (BoundTool W) → String → String → Role → Bool → Action Fault (Bench W) String
  unfolding turns_for launched spoken_report launch_of
  launch_role available name prompt role true = pure (
      "error: "
      <> (name
          <> " is disabled in this configuration (--no-verifier); report the change unverified and do not export"))
  launch_role available name prompt role false = do
    r ←
        Loop.run python ollama (toolset (role_tools role available) runner.result_cap)
          (turns_for role.max_turns runner.max_turns) false (role_preamble <> ("\n" <> role.body))
          prompt
    launched (launch_of name prompt r)
    pure (spoken_report name r)

  unknown_role : String → String
  unfolding role_names
  unknown_role name =
      "error: unknown subagent_type "
      <> (python.repr name <> ("; available: " <> join ", " (role_names runner)))

  -- The handler of `launch_agent`
  unfoldable pub launch : RunContext → List (BoundTool W) → Fields → Action Fault (Bench W) String
  unfolding launch_role unknown_role
  launch ctx available args =
      let name = str python.repr (or_else (text "") (get "subagent_type" args)) in
      let prompt = str python.repr (or_else (text "") (get "prompt" args)) in
      elim (find name runner.roles) [
        | none ↦ pure (unknown_role name)
        | some role ↦
            lift (disabled ctx.use_verifier role) >>= launch_role available name prompt role
      ]

  unfoldable pub launch_tool : RunContext → List (BoundTool W) → BoundTool W
  unfolding launch_parameters
  launch_tool ctx available = record {
    name = launch_agent;
    description =
        "Launch one subagent from .claude/agents with the given prompt and return its final report. Stands in for the Agent tool.";
    parameters = launch_parameters runner;
    handler = launch ctx available;
    cap = none;
  }

  -- The tools that a run offers, of those that the servers list.
  unfoldable pub offered : RunContext → List (BoundTool W) → List (BoundTool W)
  offered ctx tools = if ctx.use_verifier then tools else without_verifier tools

  unfoldable pub tools_of : RunContext → List (BoundTool W) → List (BoundTool W)
  tools_of ctx available =
      if team runner
      then filter (λ (t : BoundTool W). contains commander_tools t.name) available
        ++ (launch_tool ctx available ∷ [])
      else available

  -- The loop of a run, over the tools that the two servers list.
  start : RunContext → List (BoundTool W) → List (BoundTool W) → Action Fault (Bench W) LoopResult
  start ctx twin_tools verify_tools =
      Loop.run python ollama
        (toolset
          (tools_of ctx
            (offered ctx (topology_tool python sessions ∷ (twin_tools ++ verify_tools))))
          runner.result_cap)
        runner.max_turns true (system_prompt runner ctx) (user_prompt runner ctx)

  -- `LocalRunner.run` up to its output
  unfoldable pub run : RunContext → Action Fault (Bench W) LoopResult
  unfolding no_launches start
  run ctx = do
    no_launches
    twin_tools ← mcp_tools python sessions twin
    verify_tools ← mcp_tools python sessions verify
    start ctx twin_tools verify_tools

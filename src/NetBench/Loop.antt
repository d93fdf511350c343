-- ===== src/NetBench/Loop.antt =====
-- `ToolLoop` of packages/netbench/src/netbench/local_agent.py: the model is asked, its calls are run, their
-- results are appended, until it answers in text or the turns are used up. A loop that raises
-- is modelled without what it keeps for the transcript.
pub mod Kept
pub mod Turns
use net_twin.Prelude.{
  ℕ, zero, suc, ◌+◌, String, Bool, true, false, not, ◌&&◌, List, [], ◌∷◌, ◌++◌, Option, none, some,
  if◌then◌else◌, ltb,
}
use net_twin.Prelude.Text.{occurs, is_empty, strip}
use net_twin.Prelude.Result.{Result, ok, err}
use net_twin.Prelude.Action.{Action, pure, lift, ◌>>=◌}
use net_twin.Prelude.Json.{
  Json, null, text, dict, Fields, end, field, JsonFault, get, truthy, or_else, iterated, str,
}
use net_twin.NetBench.Clients.{Fault, bad_shape, Bench}
use net_twin.NetBench.Calls.{Runtime, field_of, parse_call, text_tool_calls}
use net_twin.NetBench.Chat.{Ollama, chat}
use net_twin.NetBench.Toolset.{Toolset, definitions, dispatch}

pub record LoopResult : Type 0 where
  pub final_text : String
  pub turns : ℕ
  pub hit_max_turns : Bool
  pub messages : List Json
  pub text_calls : ℕ
  pub nudges : ℕ

-- What a loop has so far.
pub record Progress : Type 0 where
  pub text : String
  pub messages : List Json
  pub text_calls : ℕ
  pub nudges : ℕ

abbrev pub max_nudges : ℕ
max_nudges = 2

abbrev nudge : String
nudge =
    "Continue. Either call a tool now or finish with the incident report, ending with the JSON line the instructions require. Do not answer with an empty message."

unfoldable pub spoken : String → String → Json
spoken role content = dict (field "role" (text role) (field "content" (text content) end))

tool_message : String → String → Json
tool_message name content = dict (
    field "role" (text "tool") (field "tool_name" (text name) (field "content" (text content) end)))

unfoldable pub unfinished : Bool → String → Bool
unfinished expect_report s =
    if is_empty (strip s) then true else expect_report && not (occurs "\"root_cause\"" s)

unfoldable pub result_of : Progress → ℕ → Bool → LoopResult
result_of p turns hit = record {
  final_text = p.text;
  turns = turns;
  hit_max_turns = hit;
  messages = p.messages;
  text_calls = p.text_calls;
  nudges = p.nudges;
}

calls_given : Result JsonFault (List Json) → Result Fault (List Json)
calls_given (ok js) = ok js
calls_given (err e) = err (bad_shape e)

unfoldable pub content_of : Runtime → Fields → String
content_of python m = str python.repr (or_else (text "") (get "content" m))

-- `message.get("tool_calls") or text_tool_calls(text)`
unfoldable pub calls_in : Runtime → Fields → Result Fault (List Json)
unfolding calls_given field_of
calls_in python m =
    let given = field_of "tool_calls" (dict m) in
    if truthy given
    then calls_given (iterated given)
    else ok (text_tool_calls python (content_of python m))

-- The answer, with its text.
heard : Runtime → Fields → Progress → Progress
heard python m p = record p { text = content_of python m; messages = p.messages ++ (dict m ∷ []) }

from_text : Fields → Progress → Progress
unfolding field_of
from_text m p =
    if truthy (field_of "tool_calls" (dict m))
    then p
    else record p { text_calls = p.text_calls + 1 }

nudged : Progress → Progress
nudged p = record p { messages = p.messages ++ (spoken "user" nudge ∷ []); nudges = p.nudges + 1 }

replied : String → String → Progress → Progress
replied name content p = record p { messages = p.messages ++ (tool_message name content ∷ []) }

module _ {W : Type 0} (python : Runtime) (ollama : Ollama W) (tools : Toolset W) where
  unfoldable pub run_calls : List Json → Progress → Action Fault (Bench W) Progress
  unfolding replied tool_message
  run_calls [] p = pure p
  run_calls (c ∷ cs) p = do
    content ← dispatch python tools (parse_call python c).0 (parse_call python c).1
    run_calls cs (replied (parse_call python c).0 content p)

  module _ (max_turns : ℕ) (expect_report : Bool) where
    -- What follows an answer on one turn: `rest` is the loop from the next turn.
    after_answer :
        (Progress → Action Fault (Bench W) LoopResult)
        → ℕ
        → Fields
        → Progress
        → List Json
        → Action Fault (Bench W) LoopResult
    unfolding nudged from_text
    after_answer rest turn m p [] =
        if ltb p.nudges max_nudges && unfinished expect_report p.text
        then rest (nudged p)
        else pure (result_of p turn false)
    after_answer rest turn m p (c ∷ cs) = do q ← run_calls (c ∷ cs) (from_text m p); rest q

    -- The turns that are left, the turn that comes, and what there is so far.
    unfoldable pub turns_from : ℕ → ℕ → Progress → Action Fault (Bench W) LoopResult
    unfolding after_answer heard
    turns_from zero turn p = pure (result_of p max_turns true)
    turns_from (suc left) turn p = do
      m ← chat python ollama p.messages (definitions tools)
      calls ← lift (calls_in python m)
      after_answer (turns_from left (turn + 1)) turn m (heard python m p) calls

    -- `ToolLoop.run`
    unfoldable pub run : String → String → Action Fault (Bench W) LoopResult
    run system user = turns_from max_turns 1 (record {
      text = "";
      messages = spoken "system" system ∷ spoken "user" user ∷ [];
      text_calls = 0;
      nudges = 0;
    })

-- ===== src/NetBench/Stream/Events.antt =====
-- The messages of a stream, of the assistant and of the user, as `parse_stream` of
-- packages/netbench/src/netbench/claude_cli.py reads them.
use net_twin.Prelude.{
  ℕ, String, Bool, true, false, not, ◌&&◌, List, [], ◌∷◌, ◌++◌, Option, none, some, if◌then◌else◌,
  ◌==◌, string_eq, nat_eq,
}
use net_twin.Prelude.Text.{is_empty}
use net_twin.Prelude.Dict.{put}
use net_twin.Prelude.Result.{Result, ok, err, ◌>>=◌}
use net_twin.Prelude.Json.{
  Json, null, number, text, list, dict, Fields, end, JsonFault, not_text, elements, get, truthy,
  dict_or_empty, int_of, iterated, or_else, as_dict, str,
}
use net_twin.NetBench.Calls.{Runtime, field_of}
use net_twin.NetBench.Stream.{ToolUse, StreamSummary}

unfoldable pub is_text_at : String → String → Fields → Bool
is_text_at key value d = elim (get key d) [ none ↦ false | some j ↦ is_text j ]
  where
    is_text : Json → Bool
    is_text (text s) = s == value
    is_text j = false

unfoldable pub is_type : String → Fields → Bool
unfolding is_text_at
is_type kind d = is_text_at "type" kind d

is_null : Json → Bool
is_null null = true
is_null j = false

unfoldable pub value_at : String → Fields → Json
value_at key d = field_of key (dict d)

unfoldable pub holds : String → Fields → Bool
unfolding value_at
holds key d = truthy (value_at key d)

-- `parent_tool_use_id` of a `ToolUse`
parent_of : Json → Result JsonFault (Option String)
parent_of null = ok none
parent_of (text s) = ok (some s)
parent_of j = err not_text

-- `int(event.get(key) or 0)`
unfoldable pub int_at : String → Fields → Result JsonFault ℕ
int_at key d = int_of (or_else (number 0) (get key d))

unfoldable pub has_error : Option String → Bool
has_error none = false
has_error (some e) = not (is_empty e)

module _ (python : Runtime) where
  -- `str(block.get(key, ""))`
  unfoldable pub text_at : String → Fields → String
  text_at key d = elim (get key d) [ none ↦ "" | some j ↦ str python.repr j ]

  launched : ToolUse → StreamSummary → StreamSummary
  unfolding holds
  launched u s =
      if u.name == "Agent" && holds "subagent_type" u.input
      then record s {
        agents_launched = s.agents_launched ++ (text_at "subagent_type" u.input ∷ []);
      }
      else s

  tool_use : Fields → Json → StreamSummary → Result JsonFault StreamSummary
  unfolding text_at parent_of launched
  tool_use block parent s = do
    parent_id ← parent_of parent
    input ← as_dict (or_else (dict end) (get "input" block))
    let u : ToolUse = record {
      id = text_at "id" block;
      name = text_at "name" block;
      parent_tool_use_id = parent_id;
      input = input;
    }
    ok (launched u (record s { tool_uses = s.tool_uses ++ (u ∷ []) }))

  main_text : Fields → Json → StreamSummary → StreamSummary
  unfolding is_type is_null holds text_at
  main_text block parent s =
      if is_type "text" block && (is_null parent && holds "text" block)
      then record s { final_text = text_at "text" block; saw_main_text = true }
      else s

  assistant_block : Json → Json → StreamSummary → Result JsonFault StreamSummary
  unfolding is_type tool_use main_text
  assistant_block parent (dict block) s =
      if is_type "tool_use" block then tool_use block parent s else ok (main_text block parent s)
  assistant_block parent j s = ok s

  assistant_blocks : Json → List Json → StreamSummary → Result JsonFault StreamSummary
  unfolding assistant_block
  assistant_blocks parent [] s = ok s
  assistant_blocks parent (j ∷ js) s = do
    t ← assistant_block parent j s
    assistant_blocks parent js t

  failed_with : Fields → StreamSummary → StreamSummary
  unfolding holds text_at
  failed_with event s =
      if holds "error" event
      then record s { is_error = true; error = some (text_at "error" event) }
      else s

  content_in : Json → Result JsonFault (List Json)
  content_in j = if truthy j then iterated j else ok []

  unfoldable pub assistant : Fields → StreamSummary → Result JsonFault StreamSummary
  unfolding failed_with content_in assistant_blocks value_at
  assistant event s = do
    message ← dict_or_empty (get "message" event)
    blocks ← content_in (value_at "content" message)
    assistant_blocks (value_at "parent_tool_use_id" event) blocks (failed_with event s)

  tool_result : Json → StreamSummary → StreamSummary
  unfolding is_type text_at holds
  tool_result (dict block) s =
      if is_type "tool_result" block
      then record s {
        tool_results =
            put (text_at "tool_use_id" block) (not (holds "is_error" block)) s.tool_results;
      }
      else s
  tool_result j s = s

  tool_results_in : List Json → StreamSummary → StreamSummary
  unfolding tool_result
  tool_results_in [] s = s
  tool_results_in (j ∷ js) s = tool_results_in js (tool_result j s)

  from_content : Json → StreamSummary → StreamSummary
  unfolding tool_results_in
  from_content (list js) s = tool_results_in (elements js) s
  from_content j s = s

  unfoldable pub user : Fields → StreamSummary → Result JsonFault StreamSummary
  unfolding from_content value_at
  user event s = do
    message ← dict_or_empty (get "message" event)
    ok (from_content (value_at "content" message) s)

-- ===== src/NetBench/Stream/Parse.antt =====
-- `parse_stream` of packages/netbench/src/netbench/claude_cli.py, an event on each line.
use net_twin.Prelude.{
  ◌+◌, String, Bool, not, ◌&&◌, ◌||◌, List, [], ◌∷◌, Option, none, some, if◌then◌else◌, ◌==◌,
  string_eq, nat_eq,
}
use net_twin.Prelude.Text.{is_empty, strip}
use net_twin.Prelude.Result.{Result, ok, ◌>>=◌}
use net_twin.Prelude.Json.{Json, text, dict, Fields, JsonFault, get, dict_or_empty, or_else, str}
use net_twin.NetBench.Calls.{Runtime}
use net_twin.NetBench.Stream.{StreamSummary, empty_summary}
use net_twin.NetBench.Stream.Events.{
  is_text_at, is_type, value_at, holds, int_at, has_error, assistant, user,
}

module _ (python : Runtime) where
  -- The text of a result, where the main thread has written none.
  result_text : Json → StreamSummary → StreamSummary
  result_text (text t) s =
      if not s.saw_main_text && not (is_empty (strip t)) then record s { final_text = t } else s
  result_text j s = s

  reason_of : Fields → String
  unfolding value_at
  reason_of event =
      str python.repr (or_else (or_else (text "error") (get "subtype" event)) (get "result" event))

  result_error : Fields → StreamSummary → StreamSummary
  unfolding holds has_error reason_of
  result_error event s =
      if holds "is_error" event && not (has_error s.error)
      then record s { error = some (reason_of event) }
      else s

  main_result : Fields → StreamSummary → Result JsonFault StreamSummary
  unfolding value_at holds int_at result_text result_error
  main_result event s = do
    turns ← int_at "num_turns" event
    elapsed ← int_at "duration_ms" event
    usage ← dict_or_empty (get "usage" event)
    ok (
        result_error event (
          result_text (value_at "result" event) (record s {
            results_seen = s.results_seen + 1;
            subtype = value_at "subtype" event;
            is_error = s.is_error || holds "is_error" event;
            num_turns = turns;
            elapsed_ms = elapsed;
            total_cost_usd = value_at "total_cost_usd" event;
            input_tokens = value_at "input_tokens" usage;
            output_tokens = value_at "output_tokens" usage;
            cache_read_tokens = value_at "cache_read_input_tokens" usage;
            cache_creation_tokens = value_at "cache_creation_input_tokens" usage;
          })))

  -- The result of a subagent's task is counted, and that is all.
  result : Fields → StreamSummary → Result JsonFault StreamSummary
  unfolding int_at main_result
  result event s = if s.results_seen == 0 then main_result event s else do
    index ← int_at "result_index" event
    if index == 0 then main_result event s else ok (record s { results_seen = s.results_seen + 1 })

  system : Fields → StreamSummary → StreamSummary
  unfolding value_at
  system event s = record s {
    session_id = value_at "session_id" event;
    model = value_at "model" event;
  }

  is_init : Fields → Bool
  unfolding is_type is_text_at
  is_init event = is_type "system" event && is_text_at "subtype" "init" event

  unfoldable pub event_in : Fields → StreamSummary → Result JsonFault StreamSummary
  unfolding is_init is_type system assistant user result
  event_in event s =
      if is_init event
      then ok (system event s)
      else if is_type "assistant" event
      then assistant python event s
      else if is_type "user" event
      then user python event s
      else if is_type "result" event
      then result event s
      else ok s

  skipped : StreamSummary → StreamSummary
  skipped s = record s { skipped_lines = s.skipped_lines + 1 }

  counted : StreamSummary → StreamSummary
  counted s = record s { events = s.events + 1 }

  value_in : Option Json → StreamSummary → Result JsonFault StreamSummary
  unfolding skipped counted event_in
  value_in (some (dict event)) s = event_in event (counted s)
  value_in (some j) s = ok (skipped s)
  value_in none s = ok (skipped s)

  line_in : String → StreamSummary → Result JsonFault StreamSummary
  unfolding value_in
  line_in line s = if is_empty line then ok s else value_in (python.loads line) s

  unfoldable pub lines_in : List String → StreamSummary → Result JsonFault StreamSummary
  unfolding line_in
  lines_in [] s = ok s
  lines_in (raw ∷ rest) s = do t ← line_in (strip raw) s; lines_in rest t

  -- `parse_stream`
  unfoldable pub parse_stream : List String → Result JsonFault StreamSummary
  unfolding lines_in empty_summary
  parse_stream lines = lines_in lines empty_summary

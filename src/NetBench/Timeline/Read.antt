-- ===== src/NetBench/Timeline/Read.antt =====
-- `build_timeline` of packages/netbench/src/netbench/timeline.py, over the lines of a transcript.
use net_twin.Prelude.{ℕ, String, List, [], ◌∷◌, Option, none, some, if◌then◌else◌, string_eq}
use net_twin.Prelude.Int.{pos}
use net_twin.Prelude.Dict.{find}
use net_twin.Prelude.Result.{Result, ok, err, ◌>>=◌}
use net_twin.Prelude.Json.{
  Json, null, text, list, dict, Fields, end, field, JsonFault, elements, truthy, as_dict, or_else,
  str,
}
use net_twin.NetBench.Calls.{Runtime, field_of}
use net_twin.NetBench.Reported.{extract_report}
use net_twin.NetBench.Timeline.{Timeline}
use net_twin.NetBench.Timeline.Blocks.{Building, minus, time_of, type_is, blocks_in}
use net_twin.NetBench.Timeline.Collapse.{collapse}

module _ (python : Runtime) (timestamp : String → Result JsonFault ℕ) where
  agent_of : Json → Building → String
  agent_of (text id) b = elim (find id b.agents) [ none ↦ "subagent" | some a ↦ a ]
  agent_of j b = "subagent"

  unfoldable pub actor_of : Json → Building → String
  unfolding agent_of
  actor_of parent b = if truthy parent then agent_of parent b else "commander"

  timed : Option ℕ → Building → Building
  unfolding minus
  timed none b = b
  timed (some t) b = elim b.start [
    | none ↦ record b { start = some t; last = minus t t }
    | some s ↦ record b { last = minus t s }
  ]

  or_report : Option Fields → Option Fields → Option Fields
  or_report none old = old
  or_report (some end) old = old
  or_report (some (field k j d)) old = some (field k j d)

  reported : Json → Building → Building
  unfolding or_report extract_report
  reported event b = record b {
    report =
        or_report
          (extract_report python
            (str python.repr (or_else (text "") (some (field_of "result" event)))))
          b.report;
  }

  message_blocks : Json → Building → Result JsonFault Building
  unfolding blocks_in actor_of
  message_blocks event b = elim (field_of "content" (field_of "message" event)) [
    | list js ↦
        blocks_in python timestamp event (actor_of (field_of "parent_tool_use_id" event) b)
          (elements js) b
    | null ↦ ok b
    | text s ↦ ok b
    | Json.flag f ↦ ok b
    | Json.number n ↦ ok b
    | dict d ↦ ok b
  ]

  event_in : Fields → Building → Result JsonFault Building
  unfolding time_of timed type_is reported message_blocks
  event_in d b = do
    t ← time_of python timestamp (field_of "timestamp" (dict d))
    if type_is "result" (dict d)
        then ok (reported (dict d) (timed t b))
        else message_blocks (dict d) (timed t b)

  line_in : String → Building → Result JsonFault Building
  unfolding event_in
  line_in line b = elim (python.loads line) [
    | none ↦ ok b
    | some j ↦ elim (as_dict j) [ err e ↦ err e | ok d ↦ event_in d b ]
  ]

  unfoldable pub lines_in : List String → Building → Result JsonFault Building
  unfolding line_in
  lines_in [] b = ok b
  lines_in (line ∷ lines) b = do c ← line_in line b; lines_in lines c

unfoldable pub nothing_yet : Building
nothing_yet = record {
  agents = [];
  pending = [];
  steps = [];
  start = none;
  last = pos 0;
  report = none;
}

-- `build_timeline`
unfoldable pub build_timeline :
    Runtime → (String → Result JsonFault ℕ) → List String → Result JsonFault Timeline
unfolding lines_in collapse nothing_yet
build_timeline python timestamp lines = do
  b ← lines_in python timestamp lines nothing_yet
  rows ← collapse python.repr b.steps
  ok (record { steps = rows; report = b.report; duration = b.last })

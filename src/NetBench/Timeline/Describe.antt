-- ===== src/NetBench/Timeline/Describe.antt =====
-- `describe` of packages/netbench/src/netbench/timeline.py.
use net_twin.Prelude.{
  ℕ, ◌+◌, ◌-◌, String, ◌<>◌, Bool, true, false, ◌&&◌, List, [], ◌∷◌, map, Option, none, some,
  if◌then◌else◌, ◌==◌, string_eq, nat_eq, leb, ltb,
}
use net_twin.Prelude.Text.{length, join, words, strip, first_chars, is_empty, size}
use net_twin.Prelude.Decimal.{show}
use net_twin.Prelude.Result.{Result, ok, err, ◌>>=◌}
use net_twin.Prelude.Json.{
  Json, null, text, number, list, dict, Fields, end, field, JsonFault, nil, get, truthy, as_dict,
  as_list, dict_or_empty, iterated, or_else, str,
}
use net_twin.NetBench.Calls.{Runtime, field_of}
use net_twin.NetBench.Timeline.{Step}

is_dict : Json → Bool
is_dict (dict d) = true
is_dict j = false

-- `_clip` of a text
unfoldable pub clip : String → ℕ → String
clip s width =
    let flat = join " " (words s) in
    if leb (length flat) width then flat else first_chars (width - 3) flat <> "..."

-- `len(j)` of a list
length_of : Json → Result JsonFault ℕ
length_of j = do js ← as_list j; ok (size js)

-- `d.get(key, [])`
list_at : String → Fields → Json
list_at key d = elim (get key d) [ none ↦ list nil | some j ↦ j ]

or_pending : Json → Json
or_pending j = or_else (text "pending") (some j)

values_of : Fields → List Json
values_of end = []
values_of (field k j d) = j ∷ values_of d

-- The lengths under a key of the values that are dicts, added up.
sum_of : String → List Json → Result JsonFault ℕ
unfolding length_of list_at
sum_of key [] = ok 0
sum_of key (dict d ∷ js) = do n ← length_of (list_at key d); rest ← sum_of key js; ok (n + rest)
sum_of key (j ∷ js) = sum_of key js

op_keys : List String
op_keys = "kind" ∷ "action" ∷ "iface" ∷ "mtu" ∷ "family" ∷ "table" ∷ "chain" ∷ "rule" ∷ []

is_blank : Option Json → Bool
is_blank none = true
is_blank (some null) = true
is_blank (some (text s)) = is_empty s
is_blank (some j) = false

module _ (python : Runtime) where
  shown : Json → String
  shown j = str python.repr j

  arg : String → Step → String
  unfolding shown
  arg key s = shown (field_of key s.args)

  -- `str(d.get(key, ""))`
  unfoldable pub text_at : String → Json → String
  unfolding shown
  text_at key (dict d) = elim (get key d) [ none ↦ "" | some j ↦ shown j ]
  text_at key j = ""

  parts_of : List String → Fields → List String
  unfolding is_blank shown
  parts_of [] d = []
  parts_of (k ∷ ks) d =
      let rest = parts_of ks d in
      if is_blank (get k d) then rest else shown (field_of k (dict d)) ∷ rest

  -- `_op_text`
  unfoldable pub op_text : Fields → Result JsonFault String
  unfolding parts_of op_keys shown
  op_text d =
      if truthy (field_of "lines" (dict d))
      then elim (iterated (field_of "lines" (dict d))) [
        | err e ↦ err e
        | ok js ↦ ok (join " / " (map (λ j. strip (shown j)) js))
      ]
      else ok (join " " (parts_of op_keys d))

  op_texts : List Json → Result JsonFault (List String)
  unfolding op_text
  op_texts [] = ok []
  op_texts (dict d ∷ js) = do t ← op_text d; rest ← op_texts js; ok (t ∷ rest)
  op_texts (j ∷ js) = op_texts js

  outcome_of : Json → String
  unfolding shown is_dict clip
  outcome_of res =
      if is_dict res && truthy (field_of "change_id" res)
      then "change `" <> (shown (field_of "change_id" res) <> "`")
      else "refused: " <> clip (shown res) 60

  show_row : Step → String
  unfolding text_at clip
  show_row s =
      if ltb 1 s.count
      then show s.count <> (" show commands on " <> join ", " s.nodes)
      else "show on " <> (join ", " s.nodes <> (": `" <> (clip (text_at "cmd" s.args) 50 <> "`")))

  apply_row : Step → Result JsonFault String
  unfolding op_texts list_at outcome_of arg clip
  apply_row s = do
    d ← as_dict s.args
    js ← iterated (list_at "ops" d)
    ops ← op_texts js
    ok (
        "apply_config on "
        <> (arg "node" s
            <> (": `" <> (clip (join "; " ops) 80 <> ("` -> " <> outcome_of s.result)))))

  failed_rules : List Json → Result JsonFault (List String)
  unfolding shown
  failed_rules [] = ok []
  failed_rules (j ∷ js) = do
    d ← as_dict j
    rest ← failed_rules js
    ok (
        if truthy (field_of "passed" (dict d))
        then rest
        else shown (field_of "rule_id" (dict d)) ∷ rest)

  check_row : Fields → Result JsonFault String
  unfolding failed_rules list_at
  check_row res = do
    rules ← as_list (list_at "rules" res)
    failed ← failed_rules rules
    ok (
        if truthy (field_of "passed" (dict res))
        then "intent_check: **passed** "
          <> (show (size rules) <> ("/" <> (show (size rules) <> " rules")))
        else "intent_check: **failed** " <> join ", " failed)

  export_row : Json → String
  unfolding shown or_pending is_dict clip
  export_row res =
      if is_dict res
      then "export_change -> "
        <> (shown (field_of "status" res)
            <> (" (" <> (shown (or_pending (field_of "decided_by" res)) <> ")")))
      else "export_change -> " <> clip (shown res) 60

  diff_row : Fields → Result JsonFault String
  unfolding values_of sum_of text_at shown
  diff_row res = do
    nodes ← dict_or_empty (get "nodes" res)
    added ← sum_of "added" (values_of nodes)
    removed ← sum_of "removed" (values_of nodes)
    ok (
        if added == 0 && removed == 0
        then "route_diff S0 to S1: no route changes"
        else "route_diff S0 to S1: +"
          <> (show added
              <> (" / -"
                  <> (show removed
                      <> (" routes on "
                          <> (shown
                                (elim (get "changed_nodes" res) [ none ↦ number 0 | some j ↦ j ])
                              <> " nodes"))))))

  other_row : Step → String
  unfolding clip
  other_row s = s.tool <> (" " <> clip (python.dumps s.args) 60)

  agent_row : Step → String
  unfolding arg text_at clip
  agent_row s =
      "launches **" <> (arg "subagent_type" s <> ("**: " <> clip (text_at "description" s.args) 70))

  converged_row : Fields → String
  converged_row res =
      "wait_converged: "
      <> (if truthy (field_of "converged" (dict res)) then "converged" else "not converged")

  -- The tools whose rows read a dict.
  by_result : Step → Json → Result JsonFault String
  unfolding check_row converged_row diff_row other_row
  by_result s (dict res) =
      if s.tool == "intent_check"
      then check_row res
      else if s.tool == "wait_converged"
      then ok (converged_row res)
      else if s.tool == "route_diff"
      then diff_row res
      else ok (other_row s)
  by_result s res = ok (other_row s)

  -- `describe`
  unfoldable pub describe : Step → Result JsonFault String
  unfolding agent_row show_row arg text_at apply_row export_row by_result
  describe s =
      if s.tool == "Agent"
      then ok (agent_row s)
      else if s.tool == "run_show_command"
      then ok (show_row s)
      else if s.tool == "ReadMcpResourceTool"
      then ok ("reads `" <> (arg "uri" s <> "`"))
      else if s.tool == "snapshot"
      then ok ("snapshot `" <> (first_chars 12 (text_at "id" s.result) <> "`"))
      else if s.tool == "apply_config"
      then apply_row s
      else if s.tool == "export_change"
      then ok (export_row s.result)
      else if s.tool == "rollback"
      then ok ("rollback to `" <> (first_chars 12 (text_at "snapshot_id" s.args) <> "`"))
      else by_result s s.result

-- ===== src/NetBench/Cli/Output.antt =====
-- The output of a run of `ClaudeCliRunner` in packages/netbench/src/netbench/claude_cli.py: the export bundle,
-- or else the report, and the counts of the stream.
use net_twin.Prelude.{
  ℕ, zero, suc, String, ◌<>◌, Bool, true, false, ◌||◌, List, [], ◌∷◌, map, Option, none, some,
  if◌then◌else◌, string_eq,
}
use net_twin.Prelude.Text.{join, is_empty, strip, first_chars, size}
use net_twin.Prelude.Decimal.{show}
use net_twin.Prelude.Int.{ℤ, pos, negsuc, is_zero}
use net_twin.Prelude.Result.{Result, ok, err, ◌>>=◌}
use net_twin.Prelude.Json.{
  Json, null, text, dict, Fields, end, field, JsonFault, not_text, missing, iterated, get, truthy,
  as_dict, as_list, or_else, int_of, str,
}
use net_twin.Core.Models.{VerificationReport}
use net_twin.NetBench.Clients.{Fault, bad_shape}
use net_twin.NetBench.Calls.{Runtime, field_of}
use net_twin.NetBench.Runner.{RunOutput}
use net_twin.NetBench.Reported.{extract_report, root_cause_from}
use net_twin.NetBench.Stream.{StreamSummary, tool_calls}
use net_twin.NetBench.Cli.{CliRunner, Spawned}

unfoldable pub is_killed : ℤ → Bool
is_killed (negsuc zero) = true
is_killed (negsuc (suc n)) = false
is_killed (pos n) = false

show_status : ℤ → String
show_status (pos n) = show n
show_status (negsuc n) = "-" <> show (suc n)

unfoldable pub or_empty : Option String → String
or_empty none = ""
or_empty (some s) = s

unfoldable pub is_nil : {A : Type 0} → List A → Bool
is_nil [] = true
is_nil (x ∷ xs) = false

unfoldable pub read : {A : Type 0} → Result JsonFault A → Result Fault A
read (ok a) = ok a
read (err e) = err (bad_shape e)

-- `d[key]`
unfoldable pub at : String → Fields → Result JsonFault Json
at key d = elim (get key d) [ none ↦ err (missing key) | some j ↦ ok j ]

-- A count that may be None.
count_in : Json → Result JsonFault (Option ℕ)
count_in null = ok none
count_in j = do n ← int_of j; ok (some n)

cost_in : Json → Option Json
cost_in null = none
cost_in j = some j

module _ (python : Runtime) where
  shown : Json → String
  shown j = str python.repr j

  id_in : Fields → Result JsonFault String
  unfolding at
  id_in d = elim (at "change_id" d) [ err e ↦ err e | ok j ↦ text_of j ]
    where
      text_of : Json → Result JsonFault String
      text_of (text s) = ok s
      text_of j = err not_text

  change_ids_in : List Json → Result JsonFault (List String)
  unfolding id_in
  change_ids_in [] = ok []
  change_ids_in (j ∷ js) = do c ← as_dict j; id ← id_in c; rest ← change_ids_in js; ok (id ∷ rest)

  bundle_changes : Fields → Result JsonFault (List String)
  unfolding at change_ids_in
  bundle_changes bundle = do j ← at "changes" bundle; js ← as_list j; change_ids_in js

  -- `(report or {}).get("change_ids") or []`
  reported_changes : Option Fields → Result JsonFault (List String)
  unfolding shown
  reported_changes none = ok []
  reported_changes (some d) =
      if truthy (field_of "change_ids" (dict d))
      then elim (iterated (field_of "change_ids" (dict d))) [
        | err e ↦ err e
        | ok js ↦ ok (map shown js)
      ]
      else ok []

  export_of : Fields → Result JsonFault Fields
  unfolding at
  export_of bundle = do
    id ← at "export_id" bundle
    status ← at "status" bundle
    ok (
        field "export_id" id
          (field "status" status (field "decided_by" (field_of "decided_by" (dict bundle)) end)))

  notes_of : CliRunner → StreamSummary → Spawned → ℕ → String
  unfolding shown show_status is_nil
  notes_of r s p wall = join "" (
      "claude -p /"
      ∷ r.skill
      ∷ " model="
      ∷ shown (or_else (text r.model) (some s.model))
      ∷ " turns="
      ∷ show s.num_turns
      ∷ " agents="
      ∷ show (size s.agents_launched)
      ∷ " rc="
      ∷ show_status p.status
      ∷ " subtype="
      ∷ shown s.subtype
      ∷ " wall="
      ∷ show wall
      ∷ "s"
      ∷ error_note s.error
      ∷ stderr_note p
      ∷ [])
    where
      error_note : Option String → String
      error_note none = ""
      error_note (some e) = if is_empty e then "" else " error=" <> e

      stderr_note : Spawned → String
      stderr_note q =
          if is_killed q.status
          then " timed_out"
          else if is_zero q.status || is_empty (strip q.stderr)
          then ""
          else " stderr=" <> first_chars 300 (strip q.stderr)

  module _ (report_of : Fields → Result Fault VerificationReport) where
    -- The change ids, the report and the export of a run.
    outcome :
        Option Fields
        → Option Fields
        → Result Fault (List String × Option VerificationReport × Option Fields)
    unfolding read bundle_changes export_of reported_changes
    outcome (some bundle) report = do
      ids ← read (bundle_changes bundle)
      v ← read (elim (at "verification" bundle) [ err e ↦ err e | ok j ↦ as_dict j ])
      verification ← report_of v
      export ← read (export_of bundle)
      ok (ids, some verification, some export)
    outcome none report = do ids ← read (reported_changes report); ok (ids, none, none)

    unfoldable pub output :
        CliRunner → StreamSummary → Spawned → ℕ → Option Fields → Result Fault RunOutput
    unfolding outcome read count_in cost_in notes_of
    output r s p wall bundle = do
      let report = extract_report python s.final_text
      found ← outcome bundle report
      input ← read (count_in s.input_tokens)
      output_count ← read (count_in s.output_tokens)
      cache_read ← read (count_in s.cache_read_tokens)
      cache_creation ← read (count_in s.cache_creation_tokens)
      ok (record {
        root_cause = root_cause_from python bundle report;
        change_ids = found.0;
        verification = found.1;
        export = found.2;
        tool_calls = tool_calls s;
        input_tokens = input;
        output_tokens = output_count;
        cache_read_tokens = cache_read;
        cache_creation_tokens = cache_creation;
        cost_usd = cost_in s.total_cost_usd;
        notes = notes_of r s p wall;
      })

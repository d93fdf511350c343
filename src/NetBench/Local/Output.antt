-- ===== src/NetBench/Local/Output.antt =====
-- `LocalRunner.output` of packages/netbench/src/netbench/local_agent.py, and the whole of a run with it. The
-- seconds that the run took are an argument.
use net_twin.Prelude.{
  ℕ, ◌-◌, String, ◌<>◌, Bool, true, false, List, [], ◌∷◌, ◌++◌, map, Option, none, some,
  if◌then◌else◌, ◌==◌, string_eq, nat_eq,
}
use net_twin.Prelude.Text.{join, size}
use net_twin.Prelude.Lists.{filter, last}
use net_twin.Prelude.Decimal.{show}
use net_twin.Prelude.Result.{Result, ok, err, ◌>>=◌}
use net_twin.Prelude.Action.{Action}
use net_twin.Prelude.Json.{Json, null, text, Fields, end, field, missing, get, str}
use net_twin.Core.Models.{RootCause, VerificationReport}
use net_twin.NetBench.Clients.{Fault, bad_shape, CallResult, Launch, Bench, Sessions, collect_calls}
use net_twin.NetBench.Calls.{Runtime}
use net_twin.NetBench.Chat.{Ollama}
use net_twin.NetBench.Reported.{extract_report, coerce_root_cause}
use net_twin.NetBench.Runner.{RunContext, RunOutput}
use net_twin.NetBench.Loop.{LoopResult}
use net_twin.NetBench.Local.{Runner, run}

-- The data of the calls of a tool that succeeded and gave some.
data_of : CallResult → List Fields
data_of c =
    if c.ok
    then elim c.value [ none ↦ [] | some end ↦ [] | some (field k j d) ↦ field k j d ∷ [] ]
    else []

unfoldable pub given_by : String → List CallResult → List Fields
unfolding data_of
given_by tool [] = []
given_by tool (c ∷ cs) =
    let rest = given_by tool cs in if c.tool == tool then data_of c ++ rest else rest

unfoldable pub calls_to : String → List CallResult → List CallResult
calls_to tool cs = filter (λ (c : CallResult). c.tool == tool) cs

-- What the last export came to.
export_of : Option CallResult → Option Fields
export_of none = none
export_of (some c) = if c.ok then c.value else some (field "error" (text c.text) end)

note_if : Bool → String → String
note_if true s = s
note_if false s = ""

cause_in : Option Fields → Json
cause_in none = null
cause_in (some d) = elim (get "root_cause" d) [ none ↦ null | some j ↦ j ]

args_of : Option CallResult → Option Fields
args_of none = none
args_of (some c) = some c.args

has_none : {A : Type 0} → Option A → Bool
has_none none = true
has_none (some a) = false

is_nil : {A : Type 0} → List A → Bool
is_nil [] = true
is_nil (x ∷ xs) = false

module _ (python : Runtime) (report_of : Fields → Result Fault VerificationReport) where
  -- `str(c.data["change_id"])`
  change_ids : List Fields → Result Fault (List String)
  change_ids [] = ok []
  change_ids (d ∷ ds) = do
    id ← elim (get "change_id" d) [ none ↦ err (bad_shape (missing "change_id")) | some j ↦ ok j ]
    rest ← change_ids ds
    ok (str python.repr id ∷ rest)

  last_check : Option Fields → Result Fault (Option VerificationReport)
  last_check none = ok none
  last_check (some d) = elim (report_of d) [ err e ↦ err e | ok r ↦ ok (some r) ]

  -- The cause of the report, or else that of the last export.
  cause_of : Option Fields → Option CallResult → Option RootCause
  unfolding cause_in args_of
  cause_of report export = elim (coerce_root_cause python (cause_in report)) [
    | some rc ↦ some rc
    | none ↦ coerce_root_cause python (cause_in (args_of export))
  ]

  notes_of : String → Runner → LoopResult → List Launch → ℕ → Option Fields → String
  unfolding note_if has_none is_nil
  notes_of model runner result launches wall report = join "" (
      "ollama "
      ∷ model
      ∷ " /"
      ∷ runner.skill.name
      ∷ " turns="
      ∷ show result.turns
      ∷ " agents="
      ∷ show (size launches)
      ∷ " wall="
      ∷ show wall
      ∷ "s"
      ∷ note_if (not_nil launches)
          (" launched=" <> join "," (map (λ (l : Launch). l.subagent_type) launches))
      ∷ note_if (positive result.text_calls) (" text_calls=" <> show result.text_calls)
      ∷ note_if (positive result.nudges) (" nudges=" <> show result.nudges)
      ∷ note_if result.hit_max_turns " max_turns_hit"
      ∷ note_if (has_none report) " no_final_json"
      ∷ [])
    where
      positive : ℕ → Bool
      positive n = if n == 0 then false else true

      not_nil : List Launch → Bool
      not_nil ls = if is_nil ls then false else true

  -- `LocalRunner.output`, after a run that began with the counts of tokens given
  unfoldable pub output :
      {W : Type 0} → String → Runner → LoopResult → ℕ × ℕ → ℕ → Bench W → Result Fault RunOutput
  unfolding given_by calls_to change_ids last_check export_of cause_of notes_of extract_report
      collect_calls
  output model runner result before wall s = do
    ids ← change_ids (given_by "apply_config" s.twin_calls)
    verification ← last_check (last (given_by "intent_check" s.verify_calls))
    let report = extract_report python result.final_text
    let exported = last (calls_to "export_change" s.twin_calls)
    ok (record {
      root_cause = cause_of report exported;
      change_ids = ids;
      verification = verification;
      export = export_of exported;
      tool_calls = collect_calls s;
      input_tokens = some (s.prompt_tokens - before.0);
      output_tokens = some (s.completion_tokens - before.1);
      cache_read_tokens = none;
      cache_creation_tokens = none;
      cost_usd = none;
      notes = notes_of model runner result s.launches wall report;
    })

  module _ {W : Type 0} (ollama : Ollama W) (sessions : Sessions W) (runner : Runner) where
    finish : ℕ → ℕ × ℕ → Result Fault LoopResult → Action Fault (Bench W) RunOutput
    unfolding output
    finish wall before (ok r) s = (output ollama.model runner r before wall s, s)
    finish wall before (err e) s = (err e, s)

    -- `LocalRunner.run`
    unfoldable pub run_scored : ℕ → RunContext → Action Fault (Bench W) RunOutput
    unfolding finish
    run_scored wall ctx s =
        let (r, t) = run python ollama sessions runner ctx s in
        finish wall (s.prompt_tokens, s.completion_tokens) r t

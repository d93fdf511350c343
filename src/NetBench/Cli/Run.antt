-- ===== src/NetBench/Cli/Run.antt =====
-- `ClaudeCliRunner.run` of packages/netbench/src/netbench/claude_cli.py.
use net_twin.Prelude.{
  ℕ, String, ◌<>◌, Bool, false, not, ◌&&◌, ◌||◌, List, [], ◌∷◌, Option, none, some, if◌then◌else◌,
  ◌==◌, string_eq,
}
use net_twin.Prelude.Text.{is_empty, strip, first_chars, size}
use net_twin.Prelude.Lists.{any, last, filter}
use net_twin.Prelude.Decimal.{show}
use net_twin.Prelude.Result.{Result, ok, err}
use net_twin.Prelude.Action.{Action, pure, raise, lift, ◌>>=◌}
use net_twin.Prelude.Json.{Json, text, Fields, JsonFault, truthy, str}
use net_twin.Core.Models.{VerificationReport}
use net_twin.NetBench.Clients.{Fault, unavailable, run_timeout, Bench, outside}
use net_twin.NetBench.Calls.{Runtime, field_of}
use net_twin.NetBench.Runner.{RunContext, RunOutput}
use net_twin.NetBench.Harness.{Admin}
use net_twin.NetBench.Stream.{StreamSummary}
use net_twin.NetBench.Stream.Parse.{parse_stream}
use net_twin.NetBench.Cli.{CliRunner, Spawned, Spawn, prompt, argv, is_unavailable}
use net_twin.NetBench.Cli.Output.{is_killed, read, at, is_nil, or_empty, output}

-- `e["export_id"]` of each
export_ids : List Fields → Result JsonFault (List Json)
unfolding at
export_ids [] = ok []
export_ids (d ∷ ds) = elim (at "export_id" d) [
  | err e ↦ err e
  | ok id ↦ elim (export_ids ds) [ err e ↦ err e | ok ids ↦ ok (id ∷ ids) ]
]

same_text : Json → Json → Bool
same_text (text s) (text t) = s == t
same_text i j = false

-- The last of the ids that were not seen before.
last_new : List Json → List Json → Option Json
unfolding same_text
last_new seen ids = last (filter (λ id. not (any (same_text id) seen)) ids)

module _ (python : Runtime) where
  shown : Json → String
  shown j = str python.repr j

  -- The time of the last event that has one: `_last_timestamp`.
  time_in : Option Json → Option String
  unfolding shown
  time_in none = none
  time_in (some j) = let t = field_of "timestamp" j in if truthy t then some (shown t) else none

  unfoldable pub last_timestamp : List String → Option String
  unfolding time_in
  last_timestamp [] = none
  last_timestamp (l ∷ ls) = elim (last_timestamp ls) [
    | some t ↦ some t
    | none ↦ time_in (python.loads l)
  ]

  failure_of : StreamSummary → String
  unfolding or_empty
  failure_of s = strip (or_empty s.error <> (" " <> s.final_text))

  -- The command failed, and not the agent.
  unfoldable pub cli_failed : StreamSummary → String → Bool
  unfolding is_nil failure_of
  cli_failed s stderr =
      (s.is_error && is_nil s.tool_uses)
      && (is_unavailable (python.lower (failure_of s)) || is_unavailable (python.lower stderr))

  module _ (report_of : Fields → Result Fault VerificationReport) where
    module _ {W : Type 0} (admin : Admin W) (spawn : Spawn W) (r : CliRunner) where
      fetched : Option Json → Action Fault (Bench W) (Option Fields)
      unfolding outside shown
      fetched none = pure none
      fetched (some id) = do b ← outside (admin.export (shown id)); pure (some b)

      timed_out : StreamSummary → Spawned → Fault
      unfolding last_timestamp
      timed_out s p = run_timeout (
          "claude -p killed after "
          <> (show r.timeout
              <> ("s with "
                  <> (show (size s.tool_uses)
                      <> (" tool calls and "
                          <> (show (size s.agents_launched)
                              <> (" agents launched; last event "
                                  <> or_unknown (last_timestamp p.lines))))))))
        where
          or_unknown : Option String → String
          or_unknown none = "unknown"
          or_unknown (some t) = if is_empty t then "unknown" else t

      scored : ℕ → List Json → Spawned → StreamSummary → Action Fault (Bench W) RunOutput
      unfolding export_ids last_new fetched output read
      scored wall seen p s = do
        now ← outside admin.exports
        ids ← lift (read (export_ids now))
        bundle ← fetched (last_new seen ids)
        lift (output python report_of r s p wall bundle)

      -- What follows the command.
      unfoldable pub settle :
          ℕ → List Json → Spawned → StreamSummary → Action Fault (Bench W) RunOutput
      unfolding cli_failed is_killed timed_out scored failure_of
      settle wall seen p s =
          if cli_failed s p.stderr
          then raise (unavailable ("claude CLI unavailable: " <> first_chars 200 (failure_of s)))
          else if is_killed p.status
          then raise (timed_out s p)
          else scored wall seen p s

      -- `ClaudeCliRunner.run`
      unfoldable pub run : ℕ → RunContext → Action Fault (Bench W) RunOutput
      unfolding settle export_ids prompt argv read
      run wall ctx = do
        before ← outside admin.exports
        seen ← lift (read (export_ids before))
        p ← outside (spawn (argv r) (prompt r ctx.symptom ctx.use_verifier) r.timeout)
        s ← lift (read (parse_stream python p.lines))
        settle wall seen p s

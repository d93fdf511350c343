-- ===== src/Lib.antt =====
-- NetTwin lets agents diagnose and repair a network lab that runs in containers. twinlab owns the
-- twin: it captures snapshots, applies typed operations and keeps export bundles that a human
-- approves. netverify judges the twin without a way to change it, and signs an attestation for a
-- snapshot that satisfies the intent policy. Both run commands in containers through an executor,
-- and an agent's commands pass an allowlist first. packages/nettwin_core holds what they share.
--
-- The files:
--   Prelude: Python's texts, lists, dicts and exceptions, with the lemmas on them.
--   Core/Executor: packages/nettwin_core/src/nettwin_core/executor.py. `Executor W` is the protocol
--     over a state W of what is outside the program; `docker_exec` is `DockerExecutor.exec`.
--   Core/Topology: topology.py of the same package. A link is known by its index.
--   Core/Ops: ops.py, the operations as one data type, `validate` the validators of all of them,
--     `render` (Core/Ops/Render) the argv lists.
--   Core/Models, Core/Attest: the records of models.py that the parts exchange, and attest.py.
--   Allowlist: allowlist.py. Allowlist/Shlex is `shlex.split` of Python's standard library, which
--     `check` calls, Allowlist/Ip what `ipaddress.ip_address` accepts, Allowlist/Kernel the checks
--     of the programs, Allowlist/Check the function `check`.
--   Core/Policy: policy.py, the rules and the check of references.
--   NetVerify/ReadOnly: packages/netverify/src/netverify/executor.py.
--   NetVerify/Probes, Converge, Rules, Intent: probes.py, converge.py and rules.py of the same package.
--     Rules has the whole of `intent_check` of its app.py, Intent its end, from the results to the report.
--   Core/Snapshot: snapshot.py of nettwin_core, with NodeState and Snapshot of models.py. Normal has the
--     normal forms, State and Vlans the accessors, Read the plan of commands and the state that is read
--     from their output, Capture the capture of nodes, Store the directory of snapshots.
--   TwinLab/Restore: packages/twinlab/src/twinlab/snapshot.py. Plan has the plans, Run runs them.
--   TwinLab/App: `show`, `snapshot`, `rollback` and `apply` of app.py, over the executor and the stores.
--   NetBench/Roles, NetBench/Clients: roles.py and clients.py of packages/netbench/src/netbench.
--   NetBench/Chat, Calls, Toolset, Loop, Local: local_agent.py there: `OllamaChat`, the calls that a model
--     writes, the tools, `ToolLoop`, and `LocalRunner` with its subagents.
--   NetBench/Reported, Stream, Cli: claude_cli.py there: the report of an agent, `parse_stream`, and
--     `ClaudeCliRunner`. NetBench/Runner, Fake: the contract of a runner and the fake agent, of runner.py.
--   NetBench/Harness: harness.py there. Control has the control of the twin, Run `run_one`, Matrix
--     `run_matrix` over the results file.
--   NetBench/Timeline: timeline.py there: Read has `build_timeline`, Collapse `_collapse`, Describe and
--     Markdown the texts.
--   NetBench/Scoring: scoring.py there, with the causes of a scenario from scenario.py of nettwin_core.
--   TwinLab/Export, TwinLab/Gate: packages/twinlab/src/twinlab/export.py and changes.py, and
--     `prepare_export` and `decide_export` of app.py over the two stores.
--   TwinLab/Server: the tool `export_change` of server.py there, and the admin routes on exports of admin.py.
--     The stores of Agent are those that an agent brings about. TwinLab/Export/Preview is what the
--     operator is shown.
--   TwinLab/Apply: apply.py of the same package, from an operation to the commands on its node; in
--     Diff the text that describes a change.
--   Tests: the operations on concrete values.
--
-- How the code is represented: a text is a String of code points; a method that raises returns a
-- Result, with an exceptions' type whose constructors stand for the messages; a method that also
-- changes state is an Action, and what was changed before a raise stays changed. A dict or a
-- directory is the list of its entries in the order in which they came.
--
-- Bounds: the search of Core/Topology runs on fuel of two steps for each link and two more, which
-- is enough since every node that joins the queue is the end of a link, or the start. `_post` of the
-- local agent calls itself once at most, since it drops the field that it tests; its fuel is 2. The
-- wait for convergence takes its fuel as an argument, one step for a poll: a clock on which a sleep
-- takes its interval makes the intervals of the timeout and one poll more enough. All other recursion
-- is structural, the tool loop's on the turns that are left.
--
-- Parameters: what runs a subprocess, or raises where it does not start, the keyed hash (HMAC with
-- SHA-256), `datetime.isoformat` and the texts that ipaddress gives for interfaces, addresses and
-- networks, and that an f-string gives for a list; `repr`, `json.loads` and `json.dumps`,
-- `str.lower`, `difflib.unified_diff`, `yaml.safe_load` and the hash of a snapshot; the HTTP
-- client, the MCP sessions, the Claude Code command, the admin client and the clock, over a state
-- of their own; the elicitation, over the stores; fresh ids, the time and the hash of the policy
-- file are arguments.
--
-- Not modelled: the transport (MCP, HTTP), decoding by pydantic other than of a root cause, the
-- clock of a result, the times of a run's record, reading of the policy file, the writing of
-- transcripts, the launch of the Claude Code command, the manual runner, the tables of report.py,
-- and the command lines. What the source runs at the same time by `asyncio.gather` is run one
-- after another, in order, and stops at the first that raises; numbers in JSON are natural.
pub mod Prelude
pub mod Core
pub mod Allowlist
pub mod NetVerify
pub mod TwinLab
pub mod NetBench
pub mod Tests

-- ===== src/NetVerify/Rules.antt =====
-- packages/netverify/src/netverify/rules.py: every rule of the policy on the live twin, and the whole of
-- `intent_check` of app.py, over a policy that was read.
pub mod Verdict
pub mod Judged
use net_twin.NetVerify.Rules.Verdict.{
  expected, wanted, verdict, reach_result, mtu_result, ospf_result, bgp_result, leak_result,
  spof_result,
}
use net_twin.Prelude.{
  ℕ, String, ◌<>◌, Bool, true, false, not, ◌&&◌, List, [], ◌∷◌, ◌++◌, map, Option, none, some,
  if◌then◌else◌, ◌==◌, string_eq,
}
use net_twin.Prelude.Text.{strip, startswith, join}
use net_twin.Prelude.Sort.{le_text, sort}
use net_twin.Prelude.Decimal.{show}
use net_twin.Prelude.Dict.{find, put}
use net_twin.Prelude.Result.{Result, ok, err}
use net_twin.Prelude.Action.{Action, pure, lift, ◌>>=◌, ◌>>◌}
use net_twin.Prelude.Json.{Json, dict, Fields, end, field}
use net_twin.Core.Executor.{ExecResult, Executor, succeeded}
use net_twin.Core.Topology.{Topology, Link, label, single_link_partitions}
use net_twin.Core.Policy.{
  Rule, reach, path_mtu, ospf_full, bgp_established, no_route_leak, no_spof, Policy, Expect, allow,
  deny,
}
use net_twin.Core.Models.{RuleResult, VerificationReport}
use net_twin.Core.Snapshot.Read.{Snapshot, Configured, SnapshotFault}
use net_twin.Core.Snapshot.Capture.{capture}
use net_twin.Core.Snapshot.Store.{SnapshotFiles, save}
use net_twin.NetVerify.Probes.{ProbeResult, ProbeFault, reachability_matrix}
use net_twin.NetVerify.Converge.{Clock, WaitFault, ask, is_full, is_established, wait_converged}
use net_twin.NetVerify.Intent.{report_of}

pub data CheckFault : Type 0 where
  not_waited : WaitFault → CheckFault
  not_probed : ProbeFault → CheckFault
  not_captured : SnapshotFault → CheckFault
  no_probe : String → CheckFault

-- The world, and the directory of snapshots.
pub record Checks (W : Type 0) : Type 0 where
  pub world : W
  pub snapshots : SnapshotFiles

names_of : Fields → List String
names_of end = []
names_of (field k j fs) = k ∷ names_of fs

unfoldable pub by_id : List ProbeResult → List (String × ProbeResult) → List (String × ProbeResult)
by_id [] d = d
by_id (p ∷ ps) d = by_id ps (put p.rule_id p d)

probe_of : List (String × ProbeResult) → String → Result CheckFault ProbeResult
probe_of probes id = elim (find id probes) [ none ↦ err (no_probe id) | some p ↦ ok p ]

waited : {A : Type 0} → Result WaitFault A → Result CheckFault A
waited (ok a) = ok a
waited (err e) = err (not_waited e)

probed : {A : Type 0} → Result ProbeFault A → Result CheckFault A
probed (ok a) = ok a
probed (err e) = err (not_probed e)

captured : {A : Type 0} → Result SnapshotFault A → Result CheckFault A
captured (ok a) = ok a
captured (err e) = err (not_captured e)

-- An action of another part, on the world.
unfoldable pub within :
    {W A E : Type 0}
    → (Result E A → Result CheckFault A)
    → Action E W A
    → Action CheckFault (Checks W) A
within wrap m s = let (r, w) = m s.world in (wrap r, record s { world = w })

store : {W : Type 0} → Snapshot → Action CheckFault (Checks W) Snapshot
store snap s = (ok snap, record s { snapshots = save snap s.snapshots })

module _ {W : Type 0} (executor : Executor W) (loads : String → Option Json) where
  leaked_in : ExecResult → List String
  unfolding names_of
  leaked_in res =
      let out = strip res.stdout in
      if not (succeeded res)
      then []
      else if not (startswith out "{")
      then []
      else elim (loads out) [
        | none ↦ []
        | some j ↦ elim j [
          | dict fs ↦ sort le_text (names_of fs)
          | Json.null ↦ []
          | Json.flag b ↦ []
          | Json.number n ↦ []
          | Json.text t ↦ []
          | Json.list js ↦ []
        ]
      ]

  unfoldable pub leaked_prefixes : String → String → Action CheckFault (Checks W) (List String)
  unfolding leaked_in within waited
  leaked_prefixes node prefix = do
    res ← within waited (
        ask executor node
          ("vtysh" ∷ "-c" ∷ ("show ip route " <> (prefix <> " longer-prefixes json")) ∷ []))
    pure (leaked_in res)

  unfoldable pub leaked_all : String → List String → Action CheckFault (Checks W) (List String)
  unfolding leaked_prefixes
  leaked_all node [] = pure []
  leaked_all node (p ∷ ps) = do
    some_leaked ← leaked_prefixes node p
    rest ← leaked_all node ps
    pure (some_leaked ++ rest)

  module _ (topology : Topology) (probes : List (String × ProbeResult)) where
    unfoldable pub judge_rule : Rule → Action CheckFault (Checks W) RuleResult
    unfolding probe_of reach_result mtu_result ospf_result bgp_result leak_result spof_result
        leaked_all within waited
    judge_rule (reach i src dst protocol port expect) = do
      p ← lift (probe_of probes i)
      pure (reach_result i src dst expect p)
    judge_rule (path_mtu i src dst min_mtu) = do
      p ← lift (probe_of probes i)
      pure (mtu_result i src dst min_mtu p)
    judge_rule (ospf_full i node iface) = do
      passed ← within waited (is_full executor node iface)
      pure (ospf_result i node iface passed)
    judge_rule (bgp_established i node peer) = do
      passed ← within waited (is_established executor node peer)
      pure (bgp_result i node peer passed)
    judge_rule (no_route_leak i node prefixes) = do
      leaked ← leaked_all node prefixes
      pure (leak_result i node prefixes leaked)
    judge_rule (no_spof i nodes) =
        pure (spof_result i nodes (single_link_partitions topology nodes))

    unfoldable pub judge_rules : List Rule → Action CheckFault (Checks W) (List RuleResult)
    unfolding judge_rule
    judge_rules [] = pure []
    judge_rules (r ∷ rs) = do first ← judge_rule r; rest ← judge_rules rs; pure (first ∷ rest)

  -- `evaluate`
  unfoldable pub evaluate :
      Topology → Policy → List ProbeResult → Action CheckFault (Checks W) (List RuleResult)
  evaluate topology policy probes = judge_rules topology (by_id probes []) policy.rules

  -- `intent_check`, with the time of the capture and that of the attestation
  module _ (repr : String → String) (show_list : List String → String)
      (hmac : String → String → String) (isoformat : ℕ → String)
      (route_digest : List (String × List Fields) → String)
      (digest : List (String × Configured) → String) (clock : Clock W) (tenths : ℕ → ℕ) where
    unfoldable pub intent_check :
        ℕ
        → ℕ
        → ℕ
        → ℕ
        → ℕ
        → Topology
        → String
        → String
        → Policy
        → String
        → Action CheckFault (Checks W) VerificationReport
    unfolding within waited probed captured store
    intent_check fuel timeout interval captured_at now topology lab key policy sha = do
      convergence ← within waited (
          wait_converged executor loads repr route_digest topology policy clock tenths timeout
            interval fuel)
      snapshot ← within captured (capture executor repr loads digest captured_at topology lab)
      store snapshot
      probes ← within probed (reachability_matrix executor policy)
      rules ← evaluate topology policy probes
      pure (report_of hmac isoformat show_list key convergence snapshot.id sha rules now)

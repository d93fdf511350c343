-- ===== src/NetVerify/Probes.antt =====
-- packages/netverify/src/netverify/probes.py: one probe for each rule on what reaches what. The
-- probes run one after another here; the source runs up to eight of them at once.
pub mod Matrix
use net_twin.Prelude.{
  ℕ, ◌-◌, ◌+◌, String, ◌<>◌, Bool, true, false, not, ◌||◌, List, [], ◌∷◌, Option, none, some, leb,
  ltb, if◌then◌else◌,
}
use net_twin.Prelude.Text.{is_line_end, all_chars, between, is_space}
use net_twin.Prelude.Words.{words}
use net_twin.Prelude.Dict.{find}
use net_twin.Prelude.Decimal.{show}
use net_twin.Prelude.Result.{Result, ok, err}
use net_twin.Prelude.Action.{Action, pure, lift, ◌>>=◌}
use net_twin.Core.Executor.{ExecResult, Executor, Fault, succeeded}
use net_twin.Core.Policy.{Rule, reach, path_mtu, Protocol, icmp, tcp, Expect, Policy, Target}

pub record ProbeResult : Type 0 where
  pub rule_id : String
  pub src : String
  pub dst : String
  pub kind : String
  pub argv : List String
  pub is_ok : Bool
  pub detail : String

-- A `ReachRule` or a `PathMtuRule`.
pub data ProbeRule : Type 0 where
  of_reach : String → (src dst : String) → Protocol → Option ℕ → Expect → ProbeRule
  of_path_mtu : String → (src dst : String) (min_mtu : ℕ) → ProbeRule

-- A `KeyError` of `policy.targets`, or what the executor raises.
pub data ProbeFault : Type 0 where
  no_target : String → ProbeFault
  failed : Fault → ProbeFault

unfoldable pub probe_id : ProbeRule → String
probe_id (of_reach i s d p port e) = i
probe_id (of_path_mtu i s d m) = i

unfoldable pub source : ProbeRule → String
source (of_reach i s d p port e) = s
source (of_path_mtu i s d m) = s

unfoldable pub destination : ProbeRule → String
destination (of_reach i s d p port e) = d
destination (of_path_mtu i s d m) = d

-- `isinstance(r, ReachRule | PathMtuRule)`
unfoldable pub probe_rules : List Rule → List ProbeRule
probe_rules [] = []
probe_rules (reach i s d p port e ∷ rs) = of_reach i s d p port e ∷ probe_rules rs
probe_rules (path_mtu i s d m ∷ rs) = of_path_mtu i s d m ∷ probe_rules rs
probe_rules (r ∷ rs) = probe_rules rs

-- `str(rule.port)`
port_text : Option ℕ → String
port_text none = "None"
port_text (some port) = show port

-- `min_mtu` is 576 at least, so the size is not negative.
argv_to : String → ProbeRule → List String
unfolding port_text
argv_to ip (of_path_mtu i s d m) =
    "ping" ∷ "-c" ∷ "2" ∷ "-W" ∷ "1" ∷ "-M" ∷ "do" ∷ "-s" ∷ show (m - 28) ∷ ip ∷ []
argv_to ip (of_reach i s d tcp port e) = "nc" ∷ "-z" ∷ "-w" ∷ "2" ∷ ip ∷ port_text port ∷ []
argv_to ip (of_reach i s d icmp port e) = "ping" ∷ "-c" ∷ "2" ∷ "-W" ∷ "1" ∷ ip ∷ []

target_of : Policy → String → Result ProbeFault Target
target_of policy name = elim (find name policy.targets) [
  | none ↦ err (no_target name)
  | some t ↦ ok t
]

unfoldable pub probe_argv : ProbeRule → Policy → Result ProbeFault (List String)
unfolding argv_to target_of
probe_argv rule policy = elim (target_of policy (destination rule)) [
  | err e ↦ err e
  | ok t ↦ ok (argv_to t.ip rule)
]

unfoldable pub probe_kind : ProbeRule → String
probe_kind (of_path_mtu i s d m) = "path_mtu"
probe_kind (of_reach i s d tcp port e) = "tcp"
probe_kind (of_reach i s d icmp port e) = "icmp"

last_line : String → List String → String
last_line last [] = last
last_line last (l ∷ ls) = last_line (if all_chars is_space l then last else l) ls

-- The last line that is not blank, or an empty text.
unfoldable pub detail_of : String → String
unfolding last_line
detail_of text = last_line "" (words is_line_end text)

abbrev pub probe_timeout : ℕ
probe_timeout = 20

raised : {A : Type 0} → Result Fault A → Result ProbeFault A
raised (ok a) = ok a
raised (err e) = err (failed e)

unfoldable pub result_of : ProbeRule → List String → ExecResult → ProbeResult
unfolding probe_id source destination probe_kind detail_of
result_of rule argv res = record {
  rule_id = probe_id rule;
  src = source rule;
  dst = destination rule;
  kind = probe_kind rule;
  argv = argv;
  is_ok = succeeded res;
  detail = detail_of (res.stdout <> res.stderr);
}

module _ {W : Type 0} (executor : Executor W) (policy : Policy) where
  call : String → List String → Action ProbeFault W ExecResult
  unfolding raised
  call node argv w = let (r, w') = executor.exec node argv probe_timeout none w in (raised r, w')

  unfoldable pub run_probe : ProbeRule → Action ProbeFault W ProbeResult
  unfolding call target_of
  run_probe rule = do
    src ← lift (target_of policy (source rule))
    argv ← lift (probe_argv rule policy)
    res ← call src.node argv
    pure (result_of rule argv res)

  unfoldable pub run_probes : List ProbeRule → Action ProbeFault W (List ProbeResult)
  run_probes [] = pure []
  run_probes (r ∷ rs) = do p ← run_probe r; ps ← run_probes rs; pure (p ∷ ps)

  unfoldable pub reachability_matrix : Action ProbeFault W (List ProbeResult)
  reachability_matrix = run_probes (probe_rules policy.rules)

-- ===== src/NetVerify/Converge.antt =====
-- packages/netverify/src/netverify/converge.py. The clock and the hash of the routing tables are parameters;
-- times are in milliseconds. What the source asks at the same time is asked one after another. The
-- loop runs on fuel, one step for a poll.
pub mod Polls
pub mod Results
use net_twin.Prelude.{
  ℕ, zero, suc, ◌+◌, ◌-◌, String, ◌<>◌, Bool, true, false, ◌&&◌, List, [], ◌∷◌, Option, none, some,
  if◌then◌else◌, leb, ◌==◌, option_eq, string_eq,
}
use net_twin.Prelude.Text.{occurs, after_prefix, startswith, lstrip, strip, is_empty}
use net_twin.Prelude.Result.{Result, ok, err}
use net_twin.Prelude.Action.{Action, pure, raise, lift, ◌>>=◌}
use net_twin.Prelude.Json.{Json, Fields}
use net_twin.Core.Executor.{ExecResult, Executor, Fault, succeeded}
use net_twin.Core.Topology.{Node, Topology}
use net_twin.Core.Policy.{
  Rule, reach, path_mtu, ospf_full, bgp_established, no_route_leak, no_spof, Policy,
}
use net_twin.Core.Snapshot.Normal.{normalise_routes}
use net_twin.Core.Snapshot.Read.{
  SnapshotFault, exec_failed, bad_json, shaped, list_entries, is_router,
}
use net_twin.NetVerify.Intent.{ConvergeResult}

pub record Clock (W : Type 0) : Type 0 where
  pub monotonic : W → ℕ
  pub sleep : ℕ → W → W

pub data WaitFault : Type 0 where
  failed : SnapshotFault → WaitFault
  out_of_polls : WaitFault

-- What one poll finds.
pub record Poll : Type 0 where
  pub missing : List String
  pub down : List String
  pub fingerprint : String

-- `_ESTABLISHED_RE` at the start of a text, and anywhere in it
established_here : String → Bool
established_here s = elim (after_prefix s "\"bgpState\"") [
  | none ↦ false
  | some r ↦ elim (after_prefix (lstrip r) ":") [
    | none ↦ false
    | some t ↦ startswith (lstrip t) "\"Established\""
  ]
]

unfoldable pub established : String → Bool
unfolding established_here
established String.[] = false
established (String.◌∷◌ c s) =
    let rest = established s in if established_here (String.◌∷◌ c s) then true else rest

unfoldable pub ospf_rules : List Rule → List (String × (String × String))
ospf_rules [] = []
ospf_rules (ospf_full i node iface ∷ rs) = (i, (node, iface)) ∷ ospf_rules rs
ospf_rules (r ∷ rs) = ospf_rules rs

unfoldable pub bgp_rules : List Rule → List (String × (String × String))
bgp_rules [] = []
bgp_rules (bgp_established i node peer ∷ rs) = (i, (node, peer)) ∷ bgp_rules rs
bgp_rules (r ∷ rs) = bgp_rules rs

unfoldable pub routers : List (String × Node) → List String
routers [] = []
routers ((name, n) ∷ ns) = let rest = routers ns in if is_router n then name ∷ rest else rest

read_wait : {A : Type 0} → Result SnapshotFault A → Result WaitFault A
read_wait (ok a) = ok a
read_wait (err e) = err (failed e)

asked : {A : Type 0} → Result Fault A → Result WaitFault A
asked (ok a) = ok a
asked (err e) = err (failed (exec_failed e))

module _ {W : Type 0} (executor : Executor W) where
  unfoldable pub ask : String → List String → Action WaitFault W ExecResult
  unfolding asked
  ask node argv w = let (r, w') = executor.exec node argv 10 none w in (asked r, w')

  -- `ospf_full`
  unfoldable pub is_full : String → String → Action WaitFault W Bool
  unfolding ask
  is_full node iface = do
    res ← ask node ("vtysh" ∷ "-c" ∷ ("show ip ospf neighbor " <> iface) ∷ [])
    pure (succeeded res && occurs "Full" res.stdout)

  -- `bgp_established`
  unfoldable pub is_established : String → String → Action WaitFault W Bool
  unfolding ask
  is_established node peer = do
    res ← ask node ("vtysh" ∷ "-c" ∷ ("show bgp neighbors " <> (peer <> " json")) ∷ [])
    pure (succeeded res && established res.stdout)

  -- The ids of the rules that the test finds not to hold.
  unfoldable pub not_holding :
      (String → String → Action WaitFault W Bool)
      → List (String × (String × String))
      → Action WaitFault W (List String)
  not_holding test [] = pure []
  not_holding test ((i, (node, other)) ∷ rules) = do
    holds ← test node other
    rest ← not_holding test rules
    pure (if holds then rest else i ∷ rest)

  module _ (loads : String → Option Json) (repr : String → String)
      (digest : List (String × List Fields) → String) where
    routes_in : String → Result WaitFault (List Fields)
    unfolding read_wait
    routes_in out = if is_empty (strip out) then ok [] else elim (loads out) [
      | none ↦ err (failed bad_json)
      | some j ↦ read_wait (shaped (list_entries j))
    ]

    unfoldable pub routes_of : List String → Action WaitFault W (List (String × List Fields))
    unfolding ask routes_in
    routes_of [] = pure []
    routes_of (n ∷ ns) = do
      res ← ask n ("ip" ∷ "-j" ∷ "-4" ∷ "route" ∷ [])
      raw ← lift (routes_in res.stdout)
      rest ← routes_of ns
      pure ((n, normalise_routes repr raw) ∷ rest)

    unfoldable pub rib_fingerprint : List String → Action WaitFault W String
    unfolding routes_of
    rib_fingerprint ns = do tables ← routes_of ns; pure (digest tables)

    module _ (topology : Topology) (policy : Policy) where
      unfoldable pub poll : Action WaitFault W Poll
      unfolding is_full is_established not_holding rib_fingerprint
      poll = do
        missing ← not_holding is_full (ospf_rules policy.rules)
        down ← not_holding is_established (bgp_rules policy.rules)
        fingerprint ← rib_fingerprint (routers topology.nodes)
        pure (record { missing = missing; down = down; fingerprint = fingerprint })

      module _ (clock : Clock W) (tenths : ℕ → ℕ) (timeout interval : ℕ) where
        is_nil : List String → Bool
        is_nil [] = true
        is_nil (x ∷ xs) = false

        result : Bool → ℕ → ℕ → Poll → Bool → ConvergeResult
        result true elapsed polls p stable = record {
          converged = true;
          seconds = tenths elapsed;
          polls = polls;
          ospf_missing = [];
          bgp_down = [];
          rib_stable = true;
        }
        result false elapsed polls p stable = record {
          converged = false;
          seconds = tenths elapsed;
          polls = polls;
          ospf_missing = p.missing;
          bgp_down = p.down;
          rib_stable = stable;
        }

        -- The world after a poll is given; `rest` goes on after the sleep.
        unfoldable pub judge :
            Action WaitFault W ConvergeResult
            → ℕ
            → ℕ
            → Option String
            → Poll
            → Action WaitFault W ConvergeResult
        unfolding is_nil result
        judge rest start polls previous p w =
            let stable = previous == some p.fingerprint in
            let elapsed = clock.monotonic w - start in
            if is_nil p.missing && (is_nil p.down && stable)
            then (ok (result true elapsed polls p stable), w)
            else if leb timeout elapsed
            then (ok (result false elapsed polls p stable), w)
            else rest (clock.sleep interval w)

        -- The polls that are allowed, those that were made, and the last fingerprint.
        unfoldable pub polls_from : ℕ → ℕ → ℕ → Option String → Action WaitFault W ConvergeResult
        unfolding judge poll
        polls_from zero start polls previous = raise out_of_polls
        polls_from (suc fuel) start polls previous = do
          p ← poll
          judge (polls_from fuel start (polls + 1) (some p.fingerprint)) start (polls + 1) previous
              p

        -- `wait_converged`
        unfoldable pub wait_converged : ℕ → Action WaitFault W ConvergeResult
        wait_converged fuel w = polls_from fuel (clock.monotonic w) 0 none w

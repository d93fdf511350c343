-- ===== src/NetVerify/Rules/Judged.antt =====
-- What `evaluate` and `intent_check` return.
use net_twin.Prelude.{
  ℕ, ◌≡◌, ◌⊎◌, refl, String, true, false, List, [], ◌∷◌, map, Option, arith, Bool-cases, inl, inr,
}
use net_twin.Prelude.Result.{ok}
use net_twin.Prelude.Action.{lift, Gives, Gives->>=, Gives-pure, Gives-any}
use net_twin.Prelude.Json.{Json, Fields}
use net_twin.Core.Executor.{Executor}
use net_twin.Core.Topology.{Topology, single_link_partitions}
use net_twin.Core.Models.{RuleResult, VerificationReport}
use net_twin.Core.Policy.{
  Rule, reach, path_mtu, ospf_full, bgp_established, no_route_leak, no_spof, Policy, rule_id,
}
use net_twin.Core.Snapshot.Read.{Configured}
use net_twin.Core.Snapshot.Capture.{capture}
use net_twin.NetVerify.Probes.{ProbeResult, reachability_matrix}
use net_twin.NetVerify.Intent.{ConvergeResult, report_of, with_convergence, all_passed}
use net_twin.NetVerify.Converge.{Clock, is_full, is_established, wait_converged}
use net_twin.NetVerify.Rules.{
  Checks, within, waited, probed, captured, store, probe_of, by_id, leaked_all, judge_rule,
  judge_rules, evaluate, intent_check,
}
use net_twin.NetVerify.Rules.Verdict.{
  verdict, reach_result, mtu_result, ospf_result, bgp_result, leak_result, spof_result,
}

-- One result for each rule, under its id, in the order of the rules.
unfoldable pub IsOf : List Rule → List RuleResult → Type 0
IsOf rules results = map RuleResult.rule_id results ≡ map rule_id rules

module _ {W : Type 0} (executor : Executor W) (loads : String → Option Json) where
  module _ (topology : Topology) (probes : List (String × ProbeResult)) where
    HasId : String → RuleResult → Type 0
    HasId i r = r.rule_id ≡ i

    leak_result-HasId :
        (i node : String) (prefixes leaked : List String)
        → HasId i (leak_result i node prefixes leaked)
    unfolding HasId leak_result verdict
    leak_result-HasId i node prefixes [] = refl
    leak_result-HasId i node prefixes (l ∷ ls) = refl

    spof_result-HasId :
        (i : String) (nodes : List String) (ls : List _) → HasId i (spof_result i nodes ls)
    unfolding HasId spof_result verdict
    spof_result-HasId i nodes [] = refl
    spof_result-HasId i nodes (l ∷ ls) = refl

    judge_rule-HasId :
        (r : Rule) → Gives (HasId (rule_id r)) (judge_rule executor loads topology probes r)
    unfolding judge_rule HasId reach_result mtu_result ospf_result bgp_result verdict rule_id
    judge_rule-HasId (reach i src dst protocol port expect) =
        Gives->>= (λ p. Unit {0}) (HasId i) (lift (probe_of probes i)) _ (Gives-any _)
          λ p u. Gives-pure _ _ (HasId i) (reach_result i src dst expect p) refl
    judge_rule-HasId (path_mtu i src dst min_mtu) =
        Gives->>= (λ p. Unit {0}) (HasId i) (lift (probe_of probes i)) _ (Gives-any _)
          λ p u. Gives-pure _ _ (HasId i) (mtu_result i src dst min_mtu p) refl
    judge_rule-HasId (ospf_full i node iface) =
        Gives->>= (λ p. Unit {0}) (HasId i) (within waited (is_full executor node iface)) _
          (Gives-any _) λ p u. Gives-pure _ _ (HasId i) (ospf_result i node iface p) refl
    judge_rule-HasId (bgp_established i node peer) =
        Gives->>= (λ p. Unit {0}) (HasId i) (within waited (is_established executor node peer)) _
          (Gives-any _) λ p u. Gives-pure _ _ (HasId i) (bgp_result i node peer p) refl
    judge_rule-HasId (no_route_leak i node prefixes) =
        Gives->>= (λ p. Unit {0}) (HasId i) (leaked_all executor loads node prefixes) _
          (Gives-any _)
          λ leaked u.
            Gives-pure _ _ (HasId i) (leak_result i node prefixes leaked)
              (leak_result-HasId i node prefixes leaked)
    judge_rule-HasId (no_spof i nodes) =
        Gives-pure _ _ (HasId i) (spof_result i nodes (single_link_partitions topology nodes))
          (spof_result-HasId i nodes _)

    judge_rules-IsOf :
        (rs : List Rule) → Gives (IsOf rs) (judge_rules executor loads topology probes rs)
    unfolding judge_rules IsOf HasId
    judge_rules-IsOf [] = Gives-pure _ _ (IsOf []) [] refl
    judge_rules-IsOf (r ∷ rs) =
        Gives->>= (HasId (rule_id r)) (IsOf (r ∷ rs)) (judge_rule executor loads topology probes r)
          _ (judge_rule-HasId r)
          λ x k.
            Gives->>= (IsOf rs) (IsOf (r ∷ rs)) (judge_rules executor loads topology probes rs) _
              (judge_rules-IsOf rs)
              λ xs l. Gives-pure _ _ (IsOf (r ∷ rs)) (x ∷ xs) (ground (arith, k, l))

-- A report that passes has one result for each rule, and each of them passed.
unfoldable pub IsComplete : Policy → VerificationReport → Type 0
IsComplete policy r =
    (r.passed ≡ false)
    ⊎ ((map RuleResult.rule_id r.rules ≡ map rule_id policy.rules) × (all_passed r.rules ≡ true))

module _ {W : Type 0} (executor : Executor W) (loads : String → Option Json)
    (repr : String → String) (show_list : List String → String) (hmac : String → String → String)
    (isoformat : ℕ → String) (route_digest : List (String × List Fields) → String)
    (digest : List (String × Configured) → String) (clock : Clock W) (tenths : ℕ → ℕ) where
  report_of-IsComplete :
      (policy : Policy) (key : String) (c : ConvergeResult) (id sha : String)
      (rules : List RuleResult) (now : ℕ)
      → IsOf policy.rules rules
      → IsComplete policy (report_of hmac isoformat show_list key c id sha rules now)
  unfolding IsComplete IsOf report_of with_convergence all_passed
  report_of-IsComplete policy key c id sha rules now k = elim (Bool-cases c.converged) [
    | inr unsettled ↦ inl (rw unsettled refl)
    | inl settled ↦ elim (Bool-cases (all_passed rules)) [
      | inl pass ↦ inr (rw settled k, rw (settled, pass) refl)
      | inr fail ↦ inl (rw (settled, fail) refl)
    ]
  ]

  module _ (fuel timeout interval captured_at now : ℕ) (topology : Topology) (lab key : String)
      (policy : Policy) (sha : String) where
    checked : Gives (IsComplete policy) (
        intent_check executor loads repr show_list hmac isoformat route_digest digest clock tenths
          fuel timeout interval captured_at now topology lab key policy sha)
    unfolding intent_check evaluate
    checked =
        Gives->>= (λ c. Unit {0}) (IsComplete policy)
          (within waited (
            wait_converged executor loads repr route_digest topology policy clock tenths timeout
              interval fuel))
          _ (Gives-any _)
          λ c u.
            Gives->>= (λ s. Unit {0}) (IsComplete policy)
              (within captured (capture executor repr loads digest captured_at topology lab)) _
              (Gives-any _)
              λ snap v.
                Gives->>= (λ s. Unit {0}) (IsComplete policy) (store snap) _ (Gives-any _)
                  λ stored x.
                    Gives->>= (λ ps. Unit {0}) (IsComplete policy)
                      (within probed (reachability_matrix executor policy)) _ (Gives-any _)
                      λ probes y.
                        Gives->>= (IsOf policy.rules) (IsComplete policy)
                          (judge_rules executor loads topology (by_id probes []) policy.rules) _
                          (judge_rules-IsOf executor loads topology (by_id probes []) policy.rules)
                          λ rules k.
                            Gives-pure _ _ (IsComplete policy)
                              (report_of hmac isoformat show_list key c snap.id sha rules now)
                              (report_of-IsComplete policy key c snap.id sha rules now k)

    -- A report that an intent check returns either does not pass, or it has one result for each
    -- rule of the policy, under the rule's id and in the order of the policy, and each of them
    -- passed.
    pub intent_check-IsComplete :
        (s t : Checks W) (r : VerificationReport)
        → intent_check executor loads repr show_list hmac isoformat route_digest digest clock tenths
            fuel timeout interval captured_at now topology lab key policy sha s
          ≡ (ok r, t)
        → IsComplete policy r
    unfolding Gives
    intent_check-IsComplete = checked

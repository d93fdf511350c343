-- ===== src/NetVerify/Converge/Polls.antt =====
-- How the wait for convergence ends.
use net_twin.Prelude.{
  ℕ, zero, suc, ◌+◌, ◌-◌, ◌*◌, ◌≤◌, ◌≡◌, ◌≢◌, inl, inr, String, Bool, false, ◌&&◌, List, [], ◌∷◌,
  Option, none, some, arith, if◌then◌else◌, leb, ◌==◌, option_eq, string_eq, Bool-cases,
}
use net_twin.Prelude.Result.{Result, ok, err}
use net_twin.Prelude.Action.{Action, pure, lift, ◌>>=◌, Action-cases}
use net_twin.Prelude.Json.{Json, Fields}
use net_twin.Core.Executor.{ExecResult, Executor, Fault}
use net_twin.Core.Topology.{Topology}
use net_twin.Core.Policy.{Policy}
use net_twin.NetVerify.Intent.{ConvergeResult}
use net_twin.NetVerify.Converge.{
  Clock, WaitFault, out_of_polls, Poll, ask, asked, is_full, is_established, not_holding, routes_of,
  routes_in, rib_fingerprint, ospf_rules, bgp_rules, routers, poll, is_nil, judge, polls_from,
  wait_converged,
}

module _ {W : Type 0} (clock : Clock W) where
  -- The fuel is not what is raised, and the clock does not go back.
  Calm : {A : Type 0} → Action WaitFault W A → Type 0
  Calm m = (w : W) → ((m w).0 ≢ err out_of_polls) × (clock.monotonic w ≤ clock.monotonic (m w).1)

  Calm->>= :
      {A B : Type 0} (m : Action WaitFault W A) (f : A → Action WaitFault W B)
      → Calm m
      → ((a : A) → Calm (f a))
      → Calm (m >>= f)
  unfolding Calm
  Calm->>= m f k l w = elim (Action-cases (m w)) [
    | inl (a, v, p) ↦ rw p (
      (l a v).0,
      (let before : clock.monotonic w ≤ clock.monotonic v = rw p at (k w).1 in
          let after = (l a v).1 in omega arith),
    )
    | inr (e, v, p) ↦ rw p ((λ h. (k w).0 (rw p (ground (arith, h)))), rw p at (k w).1)
  ]

  Calm-pure : {A : Type 0} (a : A) → Calm (pure a)
  unfolding Calm
  Calm-pure a w = (λ h. ground (arith, h), omega arith)

  module _ (executor : Executor W)
      (exec_forward : (node : String) (argv : List String) (timeout : ℕ) (stdin : Option String)
          (w : W)
        → clock.monotonic w ≤ clock.monotonic (executor.exec node argv timeout stdin w).1) where
    asked-calm : (r : Result Fault ExecResult) → asked r ≢ err out_of_polls
    unfolding asked
    asked-calm (ok r) h = ground (arith, h)
    asked-calm (err e) h = ground (arith, h)

    Calm-ask : (node : String) (argv : List String) → Calm (ask executor node argv)
    unfolding Calm ask
    Calm-ask node argv w = (asked-calm _, exec_forward node argv 10 none w)

    Calm-is_full : (node iface : String) → Calm (is_full executor node iface)
    unfolding is_full
    Calm-is_full node iface = Calm->>= (ask executor node _) _ (Calm-ask node _) λ r. Calm-pure _

    Calm-is_established : (node peer : String) → Calm (is_established executor node peer)
    unfolding is_established
    Calm-is_established node peer =
        Calm->>= (ask executor node _) _ (Calm-ask node _) λ r. Calm-pure _

    Calm-not_holding :
        (test : String → String → Action WaitFault W Bool)
        (rules : List (String × (String × String)))
        → ((node other : String) → Calm (test node other))
        → Calm (not_holding executor test rules)
    unfolding not_holding
    Calm-not_holding test [] k = Calm-pure []
    Calm-not_holding test ((i, (node, other)) ∷ rules) k =
        Calm->>= (test node other) _ (k node other) λ holds.
          Calm->>= (not_holding executor test rules) _ (Calm-not_holding test rules k)
            λ rest. Calm-pure (if holds then rest else i ∷ rest)

    module _ (loads : String → Option Json) (repr : String → String)
        (digest : List (String × List Fields) → String) where
      routes_in-calm : (out : String) → routes_in executor loads repr digest out ≢ err out_of_polls
      unfolding routes_in
      routes_in-calm out h = ground (arith, h)

      Calm-lift : {A : Type 0} (r : Result WaitFault A) → r ≢ err out_of_polls → Calm (lift r)
      unfolding Calm
      Calm-lift r k w = (k, omega arith)

      Calm-routes_of : (ns : List String) → Calm (routes_of executor loads repr digest ns)
      unfolding routes_of
      Calm-routes_of [] = Calm-pure []
      Calm-routes_of (n ∷ ns) = Calm->>= (ask executor n _) _ (Calm-ask n _) λ res.
          Calm->>= (lift (routes_in executor loads repr digest res.stdout)) _
            (Calm-lift _ (routes_in-calm res.stdout))
            λ raw.
              Calm->>= (routes_of executor loads repr digest ns) _ (Calm-routes_of ns)
                λ rest. Calm-pure _

      Calm-rib_fingerprint :
          (ns : List String) → Calm (rib_fingerprint executor loads repr digest ns)
      unfolding rib_fingerprint
      Calm-rib_fingerprint ns =
          Calm->>= (routes_of executor loads repr digest ns) _ (Calm-routes_of ns)
            λ tables. Calm-pure _

      module _ (topology : Topology) (policy : Policy) where
        Calm-poll : Calm (poll executor loads repr digest topology policy)
        unfolding poll
        Calm-poll =
            Calm->>= (not_holding executor (is_full executor) (ospf_rules policy.rules)) _
              (Calm-not_holding (is_full executor) _ Calm-is_full)
              λ missing.
                Calm->>= (not_holding executor (is_established executor) (bgp_rules policy.rules)) _
                  (Calm-not_holding (is_established executor) _ Calm-is_established)
                  λ down.
                    Calm->>= (rib_fingerprint executor loads repr digest (routers topology.nodes)) _
                      (Calm-rib_fingerprint _) λ f. Calm-pure _

        module _ (tenths : ℕ → ℕ) (timeout interval : ℕ)
            (sleep_forward : (n : ℕ) (w : W)
              → clock.monotonic w + n ≤ clock.monotonic (clock.sleep n w)) where
          abbrev go_on : ℕ → ℕ → ℕ → Option String → Action WaitFault W ConvergeResult
          go_on =
              polls_from executor loads repr digest topology policy clock tenths timeout interval

          judge-ends :
              (rest : Action WaitFault W ConvergeResult) (start polls : ℕ)
              (previous : Option String) (p : Poll) (v : W)
              → (leb timeout (clock.monotonic v - start) ≡ false
                  → (rest (clock.sleep interval v)).0 ≢ err out_of_polls)
              → (judge executor loads repr digest topology policy clock tenths timeout interval rest
                  start polls previous p v).0
                ≢ err out_of_polls
          unfolding judge
          judge-ends rest start polls previous p v k =
              elim (Bool-cases (
                is_nil executor loads repr digest topology policy clock tenths timeout interval
                  p.missing
                && (is_nil executor loads repr digest topology policy clock tenths timeout interval
                      p.down
                    && previous == some p.fingerprint))) [
                      | inl good ↦ rw good (λ h. ground (arith, h))
                      | inr bad ↦
                          rw bad (elim (Bool-cases (leb timeout (clock.monotonic v - start))) [
                            | inl late ↦ rw late (λ h. ground (arith, h))
                            | inr early ↦ rw early (k early)
                          ])
                    ]

          polls_from-ends :
              (fuel start polls : ℕ) (previous : Option String) (w : W)
              → start + timeout ≤ clock.monotonic w + fuel * interval
              → start ≤ clock.monotonic w
              → (polls_from executor loads repr digest topology policy clock tenths timeout interval
                  (suc fuel)
                  start
                  polls
                  previous
                  w).0
                ≢ err out_of_polls
          unfolding polls_from Calm
          polls_from-ends zero start polls previous w enough since =
              elim (Action-cases (poll executor loads repr digest topology policy w)) [
                | inl (p, v, e) ↦
                    let on : clock.monotonic w ≤ clock.monotonic v = rw e at (Calm-poll w).1 in
                    rw e (
                      judge-ends (go_on zero start (polls + 1) (some p.fingerprint)) start
                        (polls + 1) previous p v
                        λ early. let bad : ⊥ = ground (arith, early) in elim bad [ ])
                | inr (f, v, e) ↦ rw e (λ h. (Calm-poll w).0 (rw e (ground (arith, h))))
              ]
          polls_from-ends (suc fuel) start polls previous w enough since =
              elim (Action-cases (poll executor loads repr digest topology policy w)) [
                | inl (p, v, e) ↦
                    let on : clock.monotonic w ≤ clock.monotonic v = rw e at (Calm-poll w).1 in
                    let slept = sleep_forward interval v in
                    rw e (
                      judge-ends (go_on (suc fuel) start (polls + 1) (some p.fingerprint)) start
                        (polls + 1) previous p v
                        λ early.
                          polls_from-ends fuel start (polls + 1) (some p.fingerprint)
                            (clock.sleep interval v) (omega arith) (omega arith))
                | inr (f, v, e) ↦ rw e (λ h. (Calm-poll w).0 (rw e (ground (arith, h))))
              ]

          -- The wait for convergence ends before its fuel does: if a sleep takes at least its
          -- interval on the clock and the executor does not set the clock back, then one poll more
          -- than the intervals that fill the timeout are enough.
          pub wait_converged-Ends :
              (fuel : ℕ) (w : W)
              → timeout ≤ fuel * interval
              → (wait_converged executor loads repr digest topology policy clock tenths timeout
                  interval
                  (suc fuel)
                  w).0
                ≢ err out_of_polls
          unfolding wait_converged
          wait_converged-Ends fuel w enough =
              polls_from-ends fuel (clock.monotonic w) 0 none w (omega arith) (omega arith)

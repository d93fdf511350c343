-- ===== src/NetVerify/Converge/Results.antt =====
-- What the wait for convergence returns.
use net_twin.Prelude.{ℕ, ◌≤◌, ◌≡◌, ◌≢◌, ◌⊎◌, String, Bool, true, false, List, [], Option, string_eq}
use net_twin.Prelude.Result.{ok}
use net_twin.Prelude.Action.{Action}
use net_twin.Prelude.Json.{Json, Fields}
use net_twin.Core.Executor.{Executor}
use net_twin.Core.Topology.{Topology}
use net_twin.Core.Policy.{Policy}
use net_twin.NetVerify.Intent.{ConvergeResult}
use net_twin.NetVerify.Converge.{Clock, WaitFault, is_nil, polls_from}

-- A result of convergence comes from the second poll on and has nothing missing; another one has.
unfoldable pub Settled : ConvergeResult → Type 0
Settled c =
    ((c.converged ≡ true)
      × (2 ≤ c.polls)
      × (c.ospf_missing ≡ [])
      × (c.bgp_down ≡ [])
      × (c.rib_stable ≡ true))
    ⊎ ((c.converged ≡ false)
        × ((c.ospf_missing ≢ []) ⊎ ((c.bgp_down ≢ []) ⊎ (c.rib_stable ≡ false))))

module _ {W : Type 0} (executor : Executor W) (loads : String → Option Json)
    (repr : String → String) (digest : List (String × List Fields) → String) (topology : Topology)
    (policy : Policy) (clock : Clock W) (tenths : ℕ → ℕ) (timeout interval : ℕ) where
  abbrev nil : List String → Bool
  nil = is_nil executor loads repr digest topology policy clock tenths timeout interval

  abbrev go_on : ℕ → ℕ → ℕ → Option String → Action WaitFault W ConvergeResult
  go_on = polls_from executor loads repr digest topology policy clock tenths timeout interval

  Settles : Action WaitFault W ConvergeResult → Type 0
  Settles m = (w v : W) (c : ConvergeResult) → m w ≡ (ok c, v) → Settled c

-- ===== src/NetVerify/Probes/Matrix.antt =====
-- The results of the matrix of probes and the rules of the policy.
use net_twin.Prelude.{◌≡◌, String, List, [], ◌∷◌, none, some, string_eq}
use net_twin.Prelude.Dict.{find}
use net_twin.Prelude.Result.{Result, ok, err}
use net_twin.Core.Executor.{ExecResult, Executor, Fault}
use net_twin.Core.Policy.{Policy, Target}
use net_twin.NetVerify.Probes.{
  ProbeRule, ProbeResult, source, destination, probe_argv, result_of, probe_timeout,
}

-- The target of a name.
abbrev pub IsKnown : List (String × Target) → String → Type 0
IsKnown targets name = (t : Target) × (find name targets ≡ some t)

unfoldable AllKnown : List (String × Target) → List ProbeRule → Type 0
AllKnown targets [] = Unit {0}
AllKnown targets (r ∷ rs) =
    IsKnown targets (source r) × IsKnown targets (destination r) × AllKnown targets rs

module _ {W : Type 0} (executor : Executor W) (policy : Policy) where
  -- A call of the probe of a rule: on the node of its source, to its destination.
  unfoldable pub Calls : ProbeRule → List String → W → Result Fault ExecResult → W → Type 0
  Calls r argv w res w' =
      (s : Target) × (find (source r) policy.targets ≡ some s)
      × (probe_argv r policy ≡ ok argv)
      × (executor.exec s.node argv probe_timeout none w ≡ (res, w'))

  -- The rules are probed one after another, each from the state that the one before it left, and
  -- each result is made of what the executor gives.
  pub data Probed : List ProbeRule → W → List ProbeResult → W → Type 0 where
    done : (w : W) → Probed [] w [] w
    next :
        (r : ProbeRule) (rs : List ProbeRule) (argv : List String) (res : ExecResult)
        (ps : List ProbeResult) (w w1 w2 : W)
        → Calls r argv w (ok res) w1
        → Probed rs w1 ps w2
        → Probed (r ∷ rs) w (result_of r argv res ∷ ps) w2

  -- The rules are probed up to one at whose call the executor raises.
  pub data Cut : List ProbeRule → W → Fault → W → Type 0 where
    raises :
        (r : ProbeRule) (rs : List ProbeRule) (argv : List String) (e : Fault) (w w1 : W)
        → Calls r argv w (err e) w1
        → Cut (r ∷ rs) w e w1
    later :
        (r : ProbeRule) (rs : List ProbeRule) (argv : List String) (res : ExecResult) (e : Fault)
        (w w1 w2 : W)
        → Calls r argv w (ok res) w1
        → Cut rs w1 e w2
        → Cut (r ∷ rs) w e w2

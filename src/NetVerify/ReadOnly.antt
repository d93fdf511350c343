-- ===== src/NetVerify/ReadOnly.antt =====
-- packages/netverify/src/netverify/executor.py: the executor that netverify is given.
pub mod Gate
use net_twin.Prelude.{
  ℕ, ◌≡◌, refl, ◌⊎◌, inl, inr, String, Bool, true, false, not, ◌&&◌, List, [], ◌∷◌, Option, none,
  some, ◌==◌, string_eq, list_eq, Bool-cases, if◌then◌else◌, arith,
}
use net_twin.Prelude.Text.{join}
use net_twin.Prelude.Result.{Result, ok, err}
use net_twin.Prelude.Action.{Action}
use net_twin.Core.Executor.{
  ExecResult, Executor, Fault, input_refused, command_refused, not_canonical,
}
use net_twin.Allowlist.Check.{AllowedCommand, check}

-- `command_text`: what stands behind `vtysh -c`, or all words.
unfoldable pub command_text : List String → String
command_text (p ∷ c ∷ text ∷ []) =
    if p == "vtysh" && c == "-c" then text else join " " (p ∷ c ∷ text ∷ [])
command_text argv = join " " argv

-- The tests in front of the call of the inner executor.
admit : List String → Option String → Result Fault (Unit {0})
admit argv (some input) = err input_refused
admit argv none = elim (check (command_text argv)) [
  | err e ↦ err (command_refused argv)
  | ok a ↦ if a.argv == argv then ok tt else err (not_canonical argv)
]

pub read_only : {W : Type 0} → Executor W → Executor W
read_only inner = record {
  exec = λ node argv timeout stdin w. elim (admit argv stdin) [
    | err e ↦ (err e, w)
    | ok _ ↦ inner.exec node argv timeout none w
  ];
}

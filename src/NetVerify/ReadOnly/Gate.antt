-- ===== src/NetVerify/ReadOnly/Gate.antt =====
-- What passes netverify's executor, and what the allowlist gives out.
use net_twin.Prelude.{
  ℕ, ◌≡◌, refl, ◌⊎◌, inl, inr, String, true, false, ◌&&◌, List, [], ◌∷◌, Option, none, some, ◌==◌,
  string_eq, list_eq, Bool-cases, arith,
}
use net_twin.Prelude.Text.{join}
use net_twin.Prelude.Result.{Result-cases, ok, err}
use net_twin.Core.Executor.{Executor, Fault, input_refused, command_refused, not_canonical}
use net_twin.Allowlist.Shlex.{is_white}
use net_twin.Prelude.Words.{words}
use net_twin.Allowlist.Check.{AllowedCommand, check, kernel_checks}
use net_twin.Allowlist.Check.Canonical.{check-join-words}
use net_twin.Allowlist.Check.Runs.{RunsKernel, RunsFrr, check-runs}
use net_twin.NetVerify.ReadOnly.{command_text, admit, read_only}

vtysh_unknown : kernel_checks "vtysh" ≡ none
unfolding kernel_checks string_eq
vtysh_unknown = refl

vtysh_self : (◌==◌ {A = String} "vtysh" "vtysh" && ◌==◌ {A = String} "-c" "-c") ≡ true
vtysh_self = ground arith

command_text_kernel :
    (p : String) (args : List String)
    → (p == "vtysh") ≡ false
    → command_text (p ∷ args) ≡ join " " (p ∷ args)
unfolding command_text
command_text_kernel p [] h = refl
command_text_kernel p (c ∷ []) h = refl
command_text_kernel p (c ∷ t ∷ []) h = ground arith
command_text_kernel p (c ∷ t ∷ u ∷ r) h = refl

kernel-ne-vtysh :
    (ws : List String) (a : AllowedCommand) (k : RunsKernel ws a) → (k.program == "vtysh") ≡ false
kernel-ne-vtysh ws a k = elim (Bool-cases (k.program == "vtysh")) [
  | inl same ↦ ground (arith, k.known, vtysh_unknown)
  | inr other ↦ other
]

command_text-runs :
    (ws : List String) (a : AllowedCommand)
    → RunsKernel ws a ⊎ RunsFrr ws a
    → command_text a.argv ≡ join " " ws
command_text-runs ws a (inl k) =
    rw (k.argv, k.of_words) (command_text_kernel k.program k.args (kernel-ne-vtysh ws a k))
command_text-runs ws a (inr f) = rw f.argv (unfold command_text in rw vtysh_self refl)

-- The argv of an accepted command reads back, through netverify's executor, as a text that is
-- accepted with the same argv, family and timeout.
pub check-command_text :
    (cmd : String) {a : AllowedCommand} → check cmd ≡ ok a → check (command_text a.argv) ≡ ok a
check-command_text cmd {a} h =
    rw (command_text-runs (words is_white cmd) a (check-runs cmd h)) (check-join-words cmd h)

admit_allowed : (cmd : String) {a : AllowedCommand} → check cmd ≡ ok a → admit a.argv none ≡ ok tt
unfolding admit
admit_allowed cmd {a} h = ground (arith, check-command_text cmd h)

-- Without input, and with the argv that the allowlist gives out for the text of the call.
pub record IsAllowed (argv : List String) (stdin : Option String) : Type 0 where
  pub command : AllowedCommand
  pub accepted : check (command_text argv) ≡ ok command
  pub same : command.argv ≡ argv
  pub silent : stdin ≡ none

admit-cases :
    (argv : List String) (stdin : Option String)
    → ((e : Fault) × (admit argv stdin ≡ err e))
      ⊎ (IsAllowed argv stdin × (admit argv stdin ≡ ok tt))
unfolding admit
admit-cases argv (some input) = inl (input_refused, refl)
admit-cases argv none = elim (Result-cases (check (command_text argv))) [
  | inr (e, h) ↦ inl (command_refused argv, ground arith)
  | inl (a, h) ↦ elim (Bool-cases (a.argv == argv)) [
    | inl same ↦
        inr (record { command = a; accepted = h; same = ground arith; silent = refl }, ground arith)
    | inr differ ↦ inl (not_canonical argv, ground arith)
  ]
]

module _ {W : Type 0} (inner : Executor W) where
  -- Whatever command the allowlist accepts, netverify's executor runs the accepted argv without
  -- input just as the inner executor does.
  pub exec-allowed :
      (cmd node : String) (a : AllowedCommand) (timeout : ℕ) (w : W)
      → check cmd ≡ ok a
      → (read_only inner).exec node a.argv timeout none w ≡ inner.exec node a.argv timeout none w
  unfolding read_only
  exec-allowed cmd node a timeout w h = ground (arith, admit_allowed cmd h)

  -- Each call of netverify's executor either raises with the state of the inner executor as it
  -- was, or has no input and an argv that the allowlist gives out for the call's text, and then is
  -- the call of the inner executor.
  pub exec-cases :
      (node : String) (argv : List String) (timeout : ℕ) (stdin : Option String) (w : W)
      → ((e : Fault) × ((read_only inner).exec node argv timeout stdin w ≡ (err e, w)))
        ⊎ (IsAllowed argv stdin
            × ((read_only inner).exec node argv timeout stdin w
                ≡ inner.exec node argv timeout none w))
  unfolding read_only
  exec-cases node argv timeout stdin w = elim (admit-cases argv stdin) [
    | inl (e, h) ↦ inl (e, ground arith)
    | inr (a, h) ↦ inr (a, ground arith)
  ]

-- ===== src/Allowlist/Check/Runs.antt =====
-- What runs for an accepted command.
use net_twin.Prelude.{
  ◌≡◌, refl, ◌⊎◌, inl, inr, String, true, List, [], ◌∷◌, some, ◌==◌, string_eq, Bool-cases,
  Option-cases, arith,
}
use net_twin.Prelude.Text.{join}
use net_twin.Prelude.Chars.{all_words, all_chars-join}
use net_twin.Prelude.Result.{ok}
use net_twin.Allowlist.Shlex.{is_white}
use net_twin.Prelude.Words.{words, all_words-words}
use net_twin.Allowlist.Check.{
  AllowedCommand, Checker, check, check_argv, check_frr, check_kernel, kernel_checks, in_families,
  frr_families, is_forbidden,
}
use net_twin.Allowlist.Check.Canonical.{allowed, is_safe, check-Front, check_argv-words, blank_safe}

-- A kernel program runs with the words as they are, after its own check of the arguments.
pub record RunsKernel (ws : List String) (a : AllowedCommand) : Type 0 where
  pub program : String
  pub args : List String
  pub checker : Checker
  pub of_words : ws ≡ program ∷ args
  pub argv : a.argv ≡ ws
  pub known : kernel_checks program ≡ some checker
  pub checked : checker.0 args ≡ ok tt
  pub timeout : a.timeout ≡ checker.1

-- FRR's shell gets the words as one argument, if a family lists them.
pub record RunsFrr (ws : List String) (a : AllowedCommand) : Type 0 where
  pub argv : a.argv ≡ "vtysh" ∷ "-c" ∷ join " " ws ∷ []
  pub listed : in_families frr_families ws ≡ true

check_frr-RunsFrr : (ws : List String) {a : AllowedCommand} → check_frr ws ≡ ok a → RunsFrr ws a
unfolding check_frr
check_frr-RunsFrr ws h = record { argv = ground arith; listed = ground arith }

check_kernel-RunsKernel :
    (p : String) (args : List String) {a : AllowedCommand}
    → check_kernel p args ≡ ok a
    → RunsKernel (p ∷ args) a
unfolding check_kernel
check_kernel-RunsKernel p args {a} h = elim (Option-cases (kernel_checks p)) [
  | inl gone ↦ cc
  | inr (c, found) ↦ record {
    program = p;
    args = args;
    checker = c;
    of_words = refl;
    argv = ground arith;
    known = found;
    checked = ground arith;
    timeout = ground arith;
  }
]

check_argv-runs :
    (ws : List String) {a : AllowedCommand} → check_argv ws ≡ ok a → RunsKernel ws a ⊎ RunsFrr ws a
unfolding check_argv
check_argv-runs [] h = cc
check_argv-runs (p ∷ args) h = elim (Bool-cases (p == "show")) [
  | inl show ↦ inr (check_frr-RunsFrr (p ∷ args) (ground arith))
  | inr other ↦ inl (check_kernel-RunsKernel p args (ground arith))
]

-- An accepted command is either its words as they are, with a known program whose own check passed
-- and whose timeout it has, or vtysh with -c and the words joined to one argument, which one of
-- the listed families has.
pub check-runs :
    (cmd : String) {a : AllowedCommand}
    → check cmd ≡ ok a
    → RunsKernel (words is_white cmd) a ⊎ RunsFrr (words is_white cmd) a
check-runs cmd h = check_argv-runs (words is_white cmd) (check_argv-words cmd h)

vtysh_safe : (is_safe "vtysh" ≡ true) × (is_safe "-c" ≡ true)
unfolding is_forbidden
vtysh_safe = (refl, refl)

-- No argument of the argv of an accepted command has a shell metacharacter, a quote, a backslash
-- or a line end.
pub check-safe :
    (cmd : String) {a : AllowedCommand} → check cmd ≡ ok a → all_words is_safe a.argv ≡ true
check-safe cmd h =
    let safe = all_words-words is_white allowed cmd (check-Front cmd h).safe in
    elim (check-runs cmd h) [
      | inl k ↦ rw k.argv safe
      | inr f ↦ rw f.argv (
          ground (
            arith,
            vtysh_safe.0,
            vtysh_safe.1,
            all_chars-join allowed " " (words is_white cmd) blank_safe safe,
          ))
    ]

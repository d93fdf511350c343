-- ===== src/Core/Executor/Bounds.antt =====
-- What a call of `DockerExecutor.exec` gives, and the length of its output.
use Prim.Native.String.{[], ◌∷◌}
use net_twin.Prelude.{
  ◌<◌, ℕ, zero, suc, ◌+◌, ◌≤◌, ◌≡◌, refl, ◌⊎◌, inl, inr, String, Bool, true, false, List, Option,
  none, some, leb, arith, Bool-cases, ◌<>◌, ◌++◌, if◌then◌else◌,
}
use net_twin.Prelude.Text.{length}
use net_twin.Prelude.Chars.{length-append}
use net_twin.Prelude.Int.{negsuc}
use net_twin.Prelude.Result.{ok, err}
use net_twin.Prelude.Action.{Action, Action-cases}
use net_twin.Core.Executor.{
  succeeded, ExecResult, Fault, Finished, timeout, exited, Docker, take, cap_output,
  truncation_marker, container, command, validate_node, is_node_name, result_of, docker_exec,
  communicate, started, not_started, invalid_node, empty_argv,
}

length-take : (n : ℕ) (s : String) → length (take n s) ≤ n
unfolding take
length-take zero s = ground arith
length-take (suc n) [] = ground arith
length-take (suc n) (c ∷ s) = ground (arith, length-take n s)

abbrev pub marker_length : ℕ
marker_length = length truncation_marker

length-cap_output : (text : String) (cap : ℕ) → length (cap_output text cap).0 ≤ cap + marker_length
unfolding cap_output
length-cap_output text cap = elim (Bool-cases (leb (length text) cap)) [
  | inl fits ↦ ground (arith, fits)
  | inr long ↦ rw long (rw length-append (ground (arith, length-take cap text)))
]

-- The command that a call on a node comes to.
unfoldable pub docker_command : Docker → String → List String → Bool → List String
docker_command d node argv with_stdin =
    let name = d.prefix <> ("-" <> (d.lab <> ("-" <> node))) in
    let flags = if with_stdin then List.◌∷◌ "-i" List.[] else List.[] in
    List.◌∷◌ d.docker (List.◌∷◌ "exec" (flags ++ List.◌∷◌ name argv))

command-cases :
    (d : Docker) (node : String) (argv : List String) (with_stdin : Bool)
    → ((e : Fault) × (command d node argv with_stdin ≡ err e)
        × ((is_node_name node ≡ false) ⊎ (argv ≡ List.[])))
      ⊎ ((is_node_name node ≡ true)
          × (command d node argv with_stdin ≡ ok (docker_command d node argv with_stdin)))
unfolding command container validate_node docker_command
command-cases d node List.[] with_stdin = inl (empty_argv, refl, inr refl)
command-cases d node (List.◌∷◌ p args) with_stdin = elim (Bool-cases (is_node_name node)) [
  | inl good ↦ inr (good, rw (good, command, container, validate_node) refl)
  | inr bad ↦ inl (invalid_node node, rw (bad, command, container, validate_node) refl, inl bad)
]

module _ {W : Type 0} (run : List String → Option String → ℕ → Action String W Finished)
    (show_seconds : ℕ → String) (d : Docker) where
  -- A result of a call: the call's node and argv, a standard output within the cap and the marker,
  -- and so the standard error, unless the call timed out.
  unfoldable pub IsCapped : String → List String → ExecResult → Type 0
  IsCapped node argv r =
      (r.node ≡ node)
      × (r.argv ≡ argv)
      × (length r.stdout ≤ d.output_cap + marker_length)
      × ((r.timed_out ≡ true) ⊎ (length r.stderr ≤ d.output_cap + marker_length))

  result_of-IsCapped :
      (node : String) (argv : List String) (seconds : ℕ) (f : Finished)
      → IsCapped node argv (result_of run show_seconds d node argv seconds f)
  unfolding result_of IsCapped
  result_of-IsCapped node argv seconds timeout = (refl, refl, omega arith, inl refl)
  result_of-IsCapped node argv seconds (exited status out errors) =
      (refl, refl, length-cap_output out d.output_cap, inr (length-cap_output errors d.output_cap))

  -- A result that tells how the subprocess ended: a timeout is a failure; else it has the exit
  -- status, or -1, and the whole output, unless that is longer than the cap.
  unfoldable pub Tells : Finished → ExecResult → Type 0
  Tells timeout r = (r.timed_out ≡ true) × (succeeded r ≡ false)
  Tells (exited status out errors) r =
      (r.timed_out ≡ false)
      × (r.returncode ≡ elim status [ none ↦ negsuc 0 | some rc ↦ rc ])
      × (((r.truncated ≡ false) × (r.stdout ≡ out))
          ⊎ ((r.truncated ≡ true) × (d.output_cap < length out)))

  result_of-Tells :
      (node : String) (argv : List String) (seconds : ℕ) (f : Finished)
      → Tells f (result_of run show_seconds d node argv seconds f)
  unfolding result_of Tells succeeded cap_output
  result_of-Tells node argv seconds timeout = (refl, refl)
  result_of-Tells node argv seconds (exited status out errors) =
      elim (Bool-cases (leb (length out) d.output_cap)) [
        | inl fits ↦ (refl, refl, inl (rw fits refl, rw fits refl))
        | inr long ↦ (refl, refl, inr (rw long refl, ground (arith, long)))
      ]

  -- What a call comes to once its command runs as a subprocess.
  unfoldable pub Ran : String → List String → ℕ → Option String → W → Type 0
  Ran node argv seconds stdin w =
      let cmd = docker_command d node argv (elim stdin [ none ↦ false | some _ ↦ true ]) in
      ((message : String) × (w' : W) × (run cmd stdin seconds w ≡ (err message, w'))
        × (docker_exec run show_seconds d node argv seconds stdin w
            ≡ (err (not_started message), w')))
      ⊎ ((f : Finished) × (w' : W) × (run cmd stdin seconds w ≡ (ok f, w'))
          × ((r : ExecResult) × (docker_exec run show_seconds d node argv seconds stdin w
                ≡ (ok r, w'))
              × IsCapped node argv r
              × Tells f r))

  ran :
      (node : String) (argv : List String) (seconds : ℕ) (stdin : Option String) (w : W)
      → command d node argv (elim stdin [ none ↦ false | some _ ↦ true ])
        ≡ ok (docker_command d node argv (elim stdin [ none ↦ false | some _ ↦ true ]))
      → Ran node argv seconds stdin w
  unfolding Ran docker_exec communicate started
  ran node argv seconds stdin w h =
      let cmd = docker_command d node argv (elim stdin [ none ↦ false | some _ ↦ true ]) in
      elim (Action-cases (run cmd stdin seconds w)) [
        | inl (f, w', p) ↦ inr (
          f,
          w',
          p,
          (
            result_of run show_seconds d node argv seconds f,
            rw (h, p, docker_exec, communicate) refl,
            result_of-IsCapped node argv seconds f,
            result_of-Tells node argv seconds f,
          ),
        )
        | inr (message, w', p) ↦ inl (message, w', p, rw (h, p, docker_exec, communicate) refl)
      ]

  -- A call of the executor over docker either raises, with the world as it was, and then the node
  -- is no node name or the argv is empty; or the node is a node name and docker exec is run for
  -- its container, with -i exactly if there is input. Where that raises, the call raises it, with
  -- the world that the start left. Else the result is of the call's node and argv, with a standard
  -- output no longer than the cap and the truncation marker, and so the standard error, unless the
  -- call timed out. It tells how the subprocess ended: a timeout is a failure; else it has the
  -- exit status, or -1, and the whole output, or is marked as truncated where the output is longer
  -- than the cap.
  pub docker_exec-cases :
      (node : String) (argv : List String) (seconds : ℕ) (stdin : Option String) (w : W)
      → ((e : Fault) × (docker_exec run show_seconds d node argv seconds stdin w ≡ (err e, w))
          × ((is_node_name node ≡ false) ⊎ (argv ≡ List.[])))
        ⊎ ((is_node_name node ≡ true) × Ran node argv seconds stdin w)
  unfolding docker_exec
  docker_exec-cases node argv seconds stdin w =
      elim (command-cases d node argv (elim stdin [ none ↦ false | some _ ↦ true ])) [
        | inl (e, h, why) ↦ inl (e, rw (h, docker_exec) refl, why)
        | inr (good, h) ↦ inr (good, ran node argv seconds stdin w h)
      ]

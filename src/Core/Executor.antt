-- ===== src/Core/Executor.antt =====
-- packages/nettwin_core/src/nettwin_core/executor.py: argv in, text out. The clock is not
-- modelled: a result has no `duration_ms`.
pub mod Bounds
use Prim.Native.Char.{code}
use Prim.Native.String.{[], ◌∷◌}
use net_twin.Prelude.{
  ℕ, zero, suc, String, ◌<>◌, Bool, true, false, not, ◌&&◌, ◌||◌, List, ◌++◌, Option, none, some,
  leb, if◌then◌else◌,
}
use net_twin.Prelude.Text.{length, all_chars, is_lower, is_digit, one_of}
use net_twin.Prelude.Int.{ℤ, pos, negsuc, is_zero}
use net_twin.Prelude.Result.{Result, ok, err}
use net_twin.Prelude.Action.{Action, pure, lift, ◌>>=◌}

pub record ExecResult : Type 0 where
  pub node : String
  pub argv : List String
  pub returncode : ℤ
  pub stdout : String
  pub stderr : String
  pub truncated : Bool
  pub timed_out : Bool

-- `ExecResult.ok`
unfoldable pub succeeded : ExecResult → Bool
succeeded r = is_zero r.returncode && not r.timed_out

-- What an executor may raise: `ValueError` of a bad call, what the start of a subprocess raises
-- (`OSError`, or `ValueError` of a NUL in an argument), or the refusals of netverify's.
pub data Fault : Type 0 where
  invalid_node : String → Fault
  empty_argv : Fault
  not_started : String → Fault
  input_refused : Fault
  command_refused not_canonical : List String → Fault

-- The protocol `Executor`, over the state of what is outside the program.
pub record Executor (W : Type 0) : Type 0 where
  pub exec : String → List String → ℕ → Option String → Action Fault W ExecResult

abbrev pub truncation_marker : String
truncation_marker = "\n...[output truncated by nettwin]..."

-- `text[:n]`
unfoldable pub take : ℕ → String → String
take zero s = ""
take (suc n) [] = []
take (suc n) (c ∷ s) = c ∷ take n s

unfoldable pub cap_output : String → ℕ → String × Bool
cap_output text cap =
    if leb (length text) cap then (text, false) else (take cap text <> truncation_marker, true)

-- `NODE_RE.fullmatch`: a lower-case letter, then at most 31 of letters, digits and `-`.
unfoldable pub is_node_name : String → Bool
is_node_name [] = false
is_node_name (c ∷ s) =
    is_lower (code c)
    && all_chars (λ d. is_lower d || is_digit d || one_of "-" d) s
    && leb (length s) 31

unfoldable pub validate_node : String → Result Fault String
validate_node node = if is_node_name node then ok node else err (invalid_node node)

-- What a subprocess comes to: killed at the timeout, or its status and its decoded output.
pub data Finished : Type 0 where
  timeout : Finished
  exited : Option ℤ → String → String → Finished

pub record Docker : Type 0 where
  pub lab : String
  pub prefix : String
  pub docker : String
  pub output_cap : ℕ

-- `DockerExecutor.container` and `command`
unfoldable pub container : Docker → String → Result Fault String
container d node = elim (validate_node node) [
  | ok n ↦ ok (d.prefix <> ("-" <> (d.lab <> ("-" <> n))))
  | err e ↦ err e
]

unfoldable pub command : Docker → String → List String → Bool → Result Fault (List String)
command d node List.[] with_stdin = err empty_argv
command d node (List.◌∷◌ p args) with_stdin = elim (container d node) [
  | ok name ↦
      let flags = if with_stdin then List.◌∷◌ "-i" List.[] else List.[] in
      ok (List.◌∷◌ d.docker (List.◌∷◌ "exec" (flags ++ List.◌∷◌ name (List.◌∷◌ p args))))
  | err e ↦ err e
]

started : Result String Finished → Result Fault Finished
started (ok finished) = ok finished
started (err message) = err (not_started message)

-- `run` runs a subprocess, or raises with the message of the exception.
module _ {W : Type 0} (run : List String → Option String → ℕ → Action String W Finished)
    (show_seconds : ℕ → String) where
  unfoldable pub result_of : Docker → String → List String → ℕ → Finished → ExecResult
  result_of d node argv seconds timeout = record {
    node = node;
    argv = argv;
    returncode = pos 124;
    stdout = "";
    stderr = "timed out after " <> (show_seconds seconds <> "s");
    truncated = false;
    timed_out = true;
  }
  result_of d node argv seconds (exited status out errors) =
      let (stdout, truncated) = cap_output out d.output_cap in
      let (stderr, _) = cap_output errors d.output_cap in
      record {
        node = node;
        argv = argv;
        returncode = elim status [ none ↦ negsuc 0 | some rc ↦ rc ];
        stdout = stdout;
        stderr = stderr;
        truncated = truncated;
        timed_out = false;
      }

  communicate : List String → ℕ → Option String → Action Fault W Finished
  unfolding started
  communicate cmd seconds stdin w = let (r, w') = run cmd stdin seconds w in (started r, w')

  -- `DockerExecutor.exec`, over what runs a subprocess.
  unfoldable pub docker_exec :
      Docker → String → List String → ℕ → Option String → Action Fault W ExecResult
  unfolding result_of communicate
  docker_exec d node argv seconds stdin = do
    cmd ← lift (command d node argv (elim stdin [ none ↦ false | some _ ↦ true ]))
    finished ← communicate cmd seconds stdin
    pure (result_of d node argv seconds finished)

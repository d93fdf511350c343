-- ===== src/TwinLab/Apply.antt =====
-- packages/twinlab/src/twinlab/apply.py: running typed operations on one node. Digits are ASCII.
pub mod Stops
pub mod Handles
pub mod Diff
use Prim.Native.Char.{code}
use Prim.Native.String.{[], ◌∷◌}
use mathlib.Core.List
use net_twin.Prelude.{
  ℕ, String, ◌<>◌, Bool, true, false, not, ◌&&◌, List, ◌++◌, Option, none, some, ◌==◌, string_eq,
  if◌then◌else◌,
}
use net_twin.Prelude.Text.{
  is_empty, is_space, between, startswith, strip, isdigit, int, join, split, is_line_end,
  rpartition,
}
use net_twin.Prelude.Words.{words}
use net_twin.Prelude.Result.{Result, ok, err}
use net_twin.Prelude.Action.{Action, pure, raise, lift, ◌>>=◌}
use net_twin.Core.Executor.{ExecResult, Executor, Fault, succeeded}
use net_twin.Core.Ops.{Op, nft_rule, NftRule, NftAction, NftFamily, delete, inet, ip, ip6}
use net_twin.Core.Ops.Render.{Argv, RenderError, render}

-- `ApplyError`, or what the executor or rendering raises.
pub data ApplyFault : Type 0 where
  apply_error : String → List String → String → ApplyFault
  failed : Fault → ApplyFault
  not_rendered : RenderError → ApplyFault

with_percent : List String → List String
with_percent List.[] = List.[]
with_percent (List.◌∷◌ l ls) =
    let rest = with_percent ls in if startswith (strip l) "%" then List.◌∷◌ (strip l) rest else rest

unfoldable pub frr_errors : String → List String
unfolding with_percent
frr_errors output = with_percent (words is_line_end output)

-- `t.strip('"')`
lstrip_quotes : String → String
lstrip_quotes [] = []
lstrip_quotes (c ∷ s) = let r = lstrip_quotes s in if between 34 34 (code c) then r else c ∷ s

rstrip_quotes : String → String
rstrip_quotes [] = []
rstrip_quotes (c ∷ s) =
    let r = rstrip_quotes s in if between 34 34 (code c) && is_empty r then [] else c ∷ r

-- `_PROTO_ALIASES.get(t, t)`
alias : String → String
alias t =
    if t == "icmp"
    then "1"
    else if t == "tcp"
    then "6"
    else if t == "udp"
    then "17"
    else if t == "ospf"
    then "89"
    else t

tokens_of : List String → List String
unfolding alias lstrip_quotes rstrip_quotes
tokens_of List.[] = List.[]
tokens_of (List.◌∷◌ t ts) = List.◌∷◌ (alias (lstrip_quotes (rstrip_quotes t))) (tokens_of ts)

unfoldable pub first_part : List String → String
first_part List.[] = ""
first_part (List.◌∷◌ p ps) = p

unfoldable pub normalise_nft_rule : String → String
unfolding tokens_of first_part
normalise_nft_rule text = join " " (tokens_of (words is_space (first_part (split b'#' text))))

-- The handle of a line of `nft -a list chain`, if its rule is the wanted one.
unfoldable pub handle_in : String → String → Option ℕ
unfolding rpartition normalise_nft_rule
handle_in wanted line = elim (rpartition "# handle" line) [
  | none ↦ none
  | some (body, handle) ↦
      if normalise_nft_rule body == wanted && isdigit (strip handle)
      then some (int (strip handle))
      else none
]

unfoldable pub find_handle : String → List String → Option ℕ
unfolding handle_in
find_handle wanted List.[] = none
find_handle wanted (List.◌∷◌ l ls) =
    let rest = find_handle wanted ls in elim (handle_in wanted l) [ none ↦ rest | some h ↦ some h ]

-- `res.stderr.strip() or res.stdout.strip() or "exit"`
unfoldable pub failure_text : ExecResult → String
failure_text res =
    if is_empty (strip res.stderr)
    then (if is_empty (strip res.stdout) then "exit" else strip res.stdout)
    else strip res.stderr

unfoldable pub text_of : Option String → String
text_of none = ""
text_of (some rule) = rule

family_text : NftFamily → String
family_text inet = "inet"
family_text ip = "ip"
family_text ip6 = "ip6"

raised : {A : Type 0} → Result Fault A → Result ApplyFault A
raised (ok a) = ok a
raised (err e) = err (failed e)

unfoldable pub list_chain : NftRule → List String
unfolding family_text
list_chain r = List.◌∷◌ "nft" (
    List.◌∷◌ "-a" (
      List.◌∷◌ "list" (
        List.◌∷◌ "chain"
          (List.◌∷◌ (family_text r.family) (List.◌∷◌ r.table (List.◌∷◌ r.chain List.[]))))))

-- The detail of the error leaves out the rule and the chain.
found : String → NftRule → Option ℕ → Result ApplyFault ℕ
unfolding list_chain
found node r none = err (apply_error node (list_chain r) "no rule matching")
found node r (some h) = ok h

module _ {W : Type 0} (executor : Executor W) (node : String) where
  unfoldable pub call : List String → ℕ → Action ApplyFault W ExecResult
  unfolding raised
  call argv timeout w = let (r, w') = executor.exec node argv timeout none w in (raised r, w')

  listed : NftRule → ExecResult → Result ApplyFault ℕ
  unfolding failure_text found text_of
  listed r res =
      if not (succeeded res)
      then err (apply_error node (list_chain r) (failure_text res))
      else found node r
          (find_handle (normalise_nft_rule (text_of r.rule)) (words is_line_end res.stdout))

  unfoldable pub resolve_nft_handle : NftRule → Action ApplyFault W ℕ
  unfolding call listed
  resolve_nft_handle r = do res ← call (list_chain r) 10; lift (listed r res)

  -- The tests on the result of one command.
  unfoldable pub judge : List String → ExecResult → Result ApplyFault ExecResult
  unfolding failure_text frr_errors first_part
  judge argv res =
      if not (succeeded res)
      then err (apply_error node argv (failure_text res))
      else if first_part argv == "vtysh"
      then elim (frr_errors (res.stdout <> ("\n" <> res.stderr))) [
        | List.[] ↦ ok res
        | List.◌∷◌ e es ↦ err (apply_error node argv (join "; " (List.◌∷◌ e es)))
      ]
      else ok res

  unfoldable pub run_argv : List String → Action ApplyFault W ExecResult
  unfolding call judge
  run_argv argv = do res ← call argv 30; lift (judge argv res)

  -- The inner loop over the commands of one operation.
  unfoldable pub run_all : List Argv → Action ApplyFault W (List ExecResult)
  run_all List.[] = pure List.[]
  run_all (List.◌∷◌ a as') = do r ← run_argv a; rs ← run_all as'; pure (List.◌∷◌ r rs)

  -- `op.model_copy(update={"handle": ...})`, if the operation deletes a rule by its text.
  resolve : NftAction → Option ℕ → NftRule → Action ApplyFault W Op
  unfolding resolve_nft_handle
  resolve delete none r = do
    handle ← resolve_nft_handle r
    pure (nft_rule (record r { handle = some handle }))
  resolve action handle r = pure (nft_rule r)

  unfoldable pub resolved : Op → Action ApplyFault W Op
  unfolding resolve
  resolved (nft_rule r) = resolve r.action r.handle r
  resolved op = pure op

  rendered : Op → Result ApplyFault (List Argv)
  rendered op = elim (render op) [ ok argvs ↦ ok argvs | err e ↦ err (not_rendered e) ]

  unfoldable pub apply_op : Op → Action ApplyFault W (List ExecResult)
  unfolding resolved rendered run_all
  apply_op op = do op' ← resolved op; argvs ← lift (rendered op'); run_all argvs

  unfoldable pub apply_ops : List Op → Action ApplyFault W (List ExecResult)
  unfolding apply_op
  apply_ops List.[] = pure List.[]
  apply_ops (List.◌∷◌ op ops) = do rs ← apply_op op; more ← apply_ops ops; pure (rs ++ more)

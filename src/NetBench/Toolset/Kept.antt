-- ===== src/NetBench/Toolset/Kept.antt =====
-- What running a tool changes: only what its handler changes.
use net_twin.Prelude.{ℕ, ◌≡◌, inl, inr, String, List, [], ◌∷◌, some, arith, Option-cases}
use net_twin.Prelude.Dict.{find, put, find-put}
use net_twin.Prelude.Result.{ok}
use net_twin.Prelude.Json.{Json, null, flag, number, text, list, dict, Fields}
use net_twin.NetBench.Clients.Keeps.{Keeps, Keeps->>=, Keeps-pure, All}
use net_twin.NetBench.Calls.{Runtime}
use net_twin.NetBench.Toolset.{BoundTool, Toolset, toolset, by_name, run_tool, dispatch}

module _ {W V : Type 0} (view : W → V) where
  unfoldable pub HandlerKeeps : BoundTool W → Type 0
  HandlerKeeps t = (args : Fields) → Keeps view (t.handler args)

  unfoldable pub FoundKeeps : List (String × BoundTool W) → Type 0
  unfolding HandlerKeeps
  FoundKeeps d = (name : String) (t : BoundTool W) → find name d ≡ some t → HandlerKeeps t

  FoundKeeps-put :
      (t : BoundTool W) (d : List (String × BoundTool W))
      → HandlerKeeps t
      → FoundKeeps d
      → FoundKeeps (put t.name t d)
  unfolding FoundKeeps
  FoundKeeps-put t d k l name u h = elim (find-put name t.name t u d h) [
    | inl (same, eq) ↦ rw (← eq) k
    | inr old ↦ l name u old
  ]

  FoundKeeps-by_name :
      (ts : List (BoundTool W)) (d : List (String × BoundTool W))
      → All HandlerKeeps ts
      → FoundKeeps d
      → FoundKeeps (by_name ts d)
  unfolding All by_name
  FoundKeeps-by_name [] d k l = l
  FoundKeeps-by_name (t ∷ ts) d k l =
      FoundKeeps-by_name ts (put t.name t d) k.1 (FoundKeeps-put t d k.0 l)

  pub FoundKeeps-toolset :
      (ts : List (BoundTool W)) (n : ℕ) → All HandlerKeeps ts → FoundKeeps (toolset ts n).tools
  unfolding toolset FoundKeeps find
  FoundKeeps-toolset ts n k =
      FoundKeeps-by_name ts [] k λ name t h. let bad : ⊥ = ground arith in elim bad [ ]

  module _ (python : Runtime) (tools : Toolset W) (tools_keep : FoundKeeps tools.tools) where
    Keeps-run_tool :
        (cap : ℕ) (t : BoundTool W) (name : String) (args : Json)
        → HandlerKeeps t
        → Keeps view (run_tool cap t name args)
    unfolding run_tool HandlerKeeps
    Keeps-run_tool cap t name (dict args) k =
        Keeps->>= view (t.handler args) _ (k args) λ s. Keeps-pure view (ok _)
    Keeps-run_tool cap t name null k = Keeps-pure view (ok _)
    Keeps-run_tool cap t name (flag b) k = Keeps-pure view (ok _)
    Keeps-run_tool cap t name (number n) k = Keeps-pure view (ok _)
    Keeps-run_tool cap t name (text s) k = Keeps-pure view (ok _)
    Keeps-run_tool cap t name (list js) k = Keeps-pure view (ok _)

    pub Keeps-dispatch :
        (name : String) (args : Json) → Keeps view (dispatch python tools name args)
    unfolding dispatch FoundKeeps
    Keeps-dispatch name args = elim (Option-cases (find name tools.tools)) [
      | inl gone ↦ rw (dispatch, gone) (Keeps-pure view (ok _))
      | inr (t, e) ↦
          rw (dispatch, e) (Keeps-run_tool tools.result_cap t name args (tools_keep name t e))
    ]

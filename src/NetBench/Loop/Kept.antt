-- ===== src/NetBench/Loop/Kept.antt =====
-- What the tool loop changes: only what its model and its tools change.
use net_twin.Prelude.{ℕ, zero, suc, ◌+◌, ◌≡◌, String, Bool, List, [], ◌∷◌}
use net_twin.Prelude.Result.{ok}
use net_twin.Prelude.Action.{Action, lift}
use net_twin.Prelude.Json.{Json, Fields}
use net_twin.NetBench.Clients.{Bench, Fault}
use net_twin.NetBench.Clients.Keeps.{Keeps, Keeps->>=, Keeps-if, Keeps-pure, All}
use net_twin.NetBench.Calls.{Runtime, parse_call}
use net_twin.NetBench.Chat.{Ollama, chat}
use net_twin.NetBench.Chat.Kept.{Keeps-chat}
use net_twin.NetBench.Toolset.{BoundTool, Toolset, toolset, dispatch, definitions}
use net_twin.NetBench.Toolset.Kept.{HandlerKeeps, FoundKeeps, FoundKeeps-toolset, Keeps-dispatch}
use net_twin.NetBench.Loop
use net_twin.NetBench.Loop.{
  Progress, LoopResult, run_calls, after_answer, turns_from, from_text, heard, calls_in,
}

module _ {W V : Type 0} (view : W → V) (python : Runtime) (ollama : Ollama W)
    (http_keeps : (p : Fields) (w : W) → view (ollama.http p w).1 ≡ view w) where
  module _ (tools : Toolset W) (tools_keep : FoundKeeps view tools.tools) where
    Keeps-run_calls :
        (cs : List Json) (p : Progress) → Keeps view (run_calls python ollama tools cs p)
    unfolding run_calls
    Keeps-run_calls [] p = Keeps-pure view (ok p)
    Keeps-run_calls (c ∷ cs) p =
        Keeps->>= view (dispatch python tools (parse_call python c).0 (parse_call python c).1) _
          (Keeps-dispatch view python tools tools_keep _ _) λ s. Keeps-run_calls cs _

    module _ (max_turns : ℕ) (expect_report : Bool) where
      Keeps-after_answer :
          (rest : Progress → Action Fault (Bench W) LoopResult) (turn : ℕ) (m : Fields)
          (p : Progress) (cs : List Json)
          → ((q : Progress) → Keeps view (rest q))
          → Keeps view (after_answer python ollama tools max_turns expect_report rest turn m p cs)
      unfolding after_answer
      Keeps-after_answer rest turn m p [] k = Keeps-if view _ _ _ (k _) (Keeps-pure view (ok _))
      Keeps-after_answer rest turn m p (c ∷ cs) k =
          Keeps->>= view (run_calls python ollama tools (c ∷ cs) (from_text m p)) _
            (Keeps-run_calls (c ∷ cs) _) k

      Keeps-turns_from :
          (left turn : ℕ) (p : Progress)
          → Keeps view (turns_from python ollama tools max_turns expect_report left turn p)
      unfolding turns_from
      Keeps-turns_from zero turn p = Keeps-pure view (ok _)
      Keeps-turns_from (suc left) turn p =
          Keeps->>= view (chat python ollama p.messages (definitions tools)) _
            (Keeps-chat view python ollama http_keeps _ _)
            λ m. Keeps->>= view (lift (calls_in python m)) _ (Keeps-pure view _) λ calls.
              Keeps-after_answer _ turn m (heard python m p) calls
                (Keeps-turns_from left (turn + 1))

  -- A tool loop changes only what its model and its tools change: a view of the world that the
  -- model's server and the handler of each tool keep is kept by the loop, whatever the model
  -- calls.
  pub run-Keeps :
      (tools : List (BoundTool W)) (n : ℕ)
      → All (HandlerKeeps view) tools
      → (max_turns : ℕ) (expect_report : Bool) (system user : String)
      → Keeps view (Loop.run python ollama (toolset tools n) max_turns expect_report system user)
  unfolding Loop.run
  run-Keeps tools n k max_turns expect_report system user =
      Keeps-turns_from (toolset tools n) (FoundKeeps-toolset view tools n k) max_turns expect_report
        max_turns 1 _

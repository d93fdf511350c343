-- ===== src/NetBench/Loop/Turns.antt =====
-- How a tool loop ends: how many turns and nudges it takes, and what its last answer is.
use net_twin.Prelude.{
  ℕ, zero, suc, ◌+◌, ◌≤◌, ◌≡◌, refl, ◌⊎◌, inl, inr, String, Bool, true, false, ◌&&◌, List, [], ◌∷◌,
  arith, ltb, Bool-cases,
}
use net_twin.Prelude.Result.{ok}
use net_twin.Prelude.Action.{Gives, Gives->>=, Gives-pure, Gives-any, Action, lift}
use net_twin.Prelude.Json.{Json, Fields}
use net_twin.NetBench.Clients.{Bench, Fault}
use net_twin.NetBench.Calls.{Runtime, parse_call}
use net_twin.NetBench.Chat.{Ollama, chat}
use net_twin.NetBench.Toolset.{Toolset, dispatch, definitions}
use net_twin.NetBench.Loop
use net_twin.NetBench.Loop.{
  Progress, LoopResult, max_nudges, run_calls, after_answer, turns_from, from_text, heard, calls_in,
  unfinished, result_of, nudged, replied,
}

-- The turns are used up, or the loop stopped before with an answer that is finished or with no nudge left.
unfoldable pub Ended : ℕ → Bool → LoopResult → Type 0
Ended max_turns expect_report r =
    (r.nudges ≤ 2)
    × (((r.hit_max_turns ≡ true) × (r.turns ≡ max_turns))
        ⊎ ((r.hit_max_turns ≡ false)
            × (r.turns ≤ max_turns)
            × ((unfinished expect_report r.final_text ≡ false) ⊎ (r.nudges ≡ 2))))

from_text-nudges : (m : Fields) (p : Progress) → (from_text m p).nudges ≡ p.nudges
unfolding from_text
from_text-nudges m p = ground arith

module _ {W : Type 0} (python : Runtime) (ollama : Ollama W) (tools : Toolset W) where
  run_calls-nudges :
      (cs : List Json) (p : Progress)
      → Gives (λ (q : Progress). q.nudges ≡ p.nudges) (run_calls python ollama tools cs p)
  unfolding run_calls replied
  run_calls-nudges [] p = Gives-pure _ _ (λ (q : Progress). q.nudges ≡ p.nudges) p refl
  run_calls-nudges (c ∷ cs) p =
      Gives->>= (λ s. Unit {0}) (λ (q : Progress). q.nudges ≡ p.nudges)
        (dispatch python tools (parse_call python c).0 (parse_call python c).1) _ (Gives-any _)
        λ s u. run_calls-nudges cs (replied (parse_call python c).0 s p)

  module _ (max_turns : ℕ) (expect_report : Bool) where
    stopped :
        (turn : ℕ) (p : Progress)
        → turn ≤ max_turns
        → p.nudges ≤ 2
        → (ltb p.nudges max_nudges && unfinished expect_report p.text) ≡ false
        → Ended max_turns expect_report (result_of p turn false)
    unfolding Ended result_of
    stopped turn p low few stop = elim (Bool-cases (unfinished expect_report p.text)) [
      | inl talking ↦ (few, inr (refl, low, inr (ground (arith, talking, stop))))
      | inr done ↦ (few, inr (refl, low, inl done))
    ]

    after_answer-Ended :
        (rest : Progress → Action Fault (Bench W) LoopResult) (turn : ℕ) (m : Fields) (p : Progress)
        (cs : List Json)
        → turn ≤ max_turns
        → p.nudges ≤ 2
        → ((q : Progress) → q.nudges ≤ 2 → Gives (Ended max_turns expect_report) (rest q))
        → Gives
            (Ended max_turns expect_report)
            (after_answer python ollama tools max_turns expect_report rest turn m p cs)
    unfolding after_answer nudged
    after_answer-Ended rest turn m p [] low few k =
        elim (Bool-cases (ltb p.nudges max_nudges && unfinished expect_report p.text)) [
          | inl push ↦ rw push (k (nudged p) (ground (arith, push)))
          | inr stop ↦ rw stop (
              Gives-pure _ _ (Ended max_turns expect_report) (result_of p turn false)
                (stopped turn p low few stop))
        ]
    after_answer-Ended rest turn m p (c ∷ cs) low few k =
        Gives->>= (λ (q : Progress). q.nudges ≡ (from_text m p).nudges)
          (Ended max_turns expect_report) (run_calls python ollama tools (c ∷ cs) (from_text m p))
          rest (run_calls-nudges (c ∷ cs) (from_text m p))
          λ q same. k q (
            let text_same : (from_text m p).nudges ≡ p.nudges = from_text-nudges m p in omega arith)

    turns_from-Ended :
        (left turn : ℕ) (p : Progress)
        → turn + left ≡ suc max_turns
        → p.nudges ≤ 2
        → Gives
            (Ended max_turns expect_report)
            (turns_from python ollama tools max_turns expect_report left turn p)
    unfolding turns_from heard Ended result_of
    turns_from-Ended zero turn p e few =
        Gives-pure _ _ (Ended max_turns expect_report) (result_of p max_turns true)
          (few, inl (refl, refl))
    turns_from-Ended (suc left) turn p e few =
        Gives->>= (λ m. Unit {0}) (Ended max_turns expect_report)
          (chat python ollama p.messages (definitions tools)) _ (Gives-any _)
          λ m u.
            Gives->>= (λ cs. Unit {0}) (Ended max_turns expect_report) (lift (calls_in python m)) _
              (Gives-any _)
              λ cs v.
                after_answer-Ended
                  (turns_from python ollama tools max_turns expect_report left (turn + 1)) turn m
                  (heard python m p) cs (omega arith) few
                  λ q low. turns_from-Ended left (turn + 1) q (omega arith) low

    -- When a tool loop returns, it has pushed back at most twice, and either the turns are used
    -- up, or it stopped within them at an answer that is finished or, with two nudges given, at
    -- any.
    pub run-Ended :
        (system user : String) (s t : Bench W) (r : LoopResult)
        → Loop.run python ollama tools max_turns expect_report system user s ≡ (ok r, t)
        → Ended max_turns expect_report r
    unfolding Loop.run Gives
    run-Ended system user = turns_from-Ended max_turns 1 _ (omega arith) (omega arith)

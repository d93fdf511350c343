-- ===== src/NetBench/Chat/Kept.antt =====
-- What asking the model changes: only what its server does to the world.
use net_twin.Prelude.{ℕ, zero, suc, ◌≡◌, refl, List, ◌==◌, nat_eq, leb, inl, inr, Option-cases}
use net_twin.Prelude.Result.{ok, err}
use net_twin.Prelude.Action.{Action, lift}
use net_twin.Prelude.Json.{Json, Fields}
use net_twin.NetBench.Clients.{Bench, Fault}
use net_twin.NetBench.Clients.Keeps.{Keeps, Keeps->>=, Keeps-if, Keeps-pure}
use net_twin.NetBench.Calls.{Runtime, field_of}
use net_twin.NetBench.Chat.{
  Ollama, Response, payload, post, chat, fetch, forget_think, settled, read_body, counted,
  current_think, message_of, count_of, with_meta,
}

module _ {W V : Type 0} (view : W → V) (python : Runtime) (ollama : Ollama W)
    (http_keeps : (p : Fields) (w : W) → view (ollama.http p w).1 ≡ view w) where
  Keeps-fetch : (p : Fields) → Keeps view (fetch python ollama p)
  unfolding Keeps fetch
  Keeps-fetch p s = http_keeps p s.world

  Keeps-forget_think : Keeps view (forget_think python ollama)
  unfolding Keeps forget_think
  Keeps-forget_think s = refl

  Keeps-counted : (n p c : ℕ) → Keeps view (counted python ollama n p c)
  unfolding Keeps counted
  Keeps-counted n p c s = refl

  Keeps-current_think : Keeps view (current_think python ollama)
  unfolding Keeps current_think
  Keeps-current_think s = refl

  Keeps-settled :
      (retry : Action Fault (Bench W) Json) (p : Fields) (status : ℕ) (body : Json)
      → Keeps view retry
      → Keeps view (settled python ollama retry p status body)
  unfolding settled
  Keeps-settled retry p status body k =
      Keeps-if view (status == 404) _ _ (Keeps-pure view (err _)) (
        Keeps-if view (leb 400 status) _ _
          (Keeps-if view _ _ _
            (Keeps->>= view (forget_think python ollama) _ Keeps-forget_think λ u. k)
            (Keeps-pure view (err _)))
          (Keeps-pure view (ok body)))

  Keeps-read_body :
      (retry : Action Fault (Bench W) Json) (p : Fields) (r : Response)
      → Keeps view retry
      → Keeps view (read_body python ollama retry p r)
  unfolding read_body
  Keeps-read_body retry p r k = elim (Option-cases r.body) [
    | inl gone ↦ rw gone (Keeps-pure view (err _))
    | inr (j, e) ↦ rw e (Keeps-settled retry p r.status j k)
  ]

  Keeps-post : (fuel : ℕ) (p : Fields) → Keeps view (post python ollama fuel p)
  unfolding post
  Keeps-post zero p = Keeps-pure view (err _)
  Keeps-post (suc fuel) p =
      Keeps->>= view (fetch python ollama p) _ (Keeps-fetch p)
        λ r. Keeps-read_body _ p r (Keeps-post fuel _)

  pub Keeps-chat : (messages tools : List Json) → Keeps view (chat python ollama messages tools)
  unfolding chat
  Keeps-chat messages tools =
      Keeps->>= view (current_think python ollama) _ Keeps-current_think λ think.
        Keeps->>= view (post python ollama 2 (payload python ollama think messages tools)) _
          (Keeps-post 2 _)
          λ body.
            Keeps->>= view (lift (message_of python ollama body (field_of "message" body))) _
              (Keeps-pure view _)
              λ m. Keeps->>= view (counted python ollama 1 0 0) _ (Keeps-counted 1 0 0) λ u.
                Keeps->>= view (lift (count_of python ollama "prompt_eval_count" body)) _
                  (Keeps-pure view _)
                  λ p. Keeps->>= view (counted python ollama 0 p 0) _ (Keeps-counted 0 p 0) λ v.
                    Keeps->>= view (lift (count_of python ollama "eval_count" body)) _
                      (Keeps-pure view _)
                      λ c.
                        Keeps->>= view (counted python ollama 0 0 c) _ (Keeps-counted 0 0 c)
                          λ w. Keeps-pure view (ok (with_meta python ollama body m))

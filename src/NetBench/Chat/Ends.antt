-- ===== src/NetBench/Chat/Ends.antt =====
-- How many requests one message takes.
use net_twin.Prelude.{
  ℕ, suc, ◌≡◌, ◌≢◌, refl, inl, inr, Bool, true, false, arith, if◌then◌else◌, ◌==◌, string_eq,
  nat_eq, leb, Option-cases,
}
use net_twin.Prelude.Result.{Result, ok, err}
use net_twin.Prelude.Action.{Action, ◌>>=◌, Action-cases}
use net_twin.Prelude.Json.{Json, Fields, end, field, get, keep_unless}
use net_twin.NetBench.Clients.{Bench, Fault, out_of_fuel}
use net_twin.NetBench.Calls.{Runtime}
use net_twin.NetBench.Chat.{
  Ollama, HttpFault, timed_out, connect_error, http_error, Response, has, fetch, fetched,
  http_fault, forget_think, settled, read_body, rejects_think, without_think, no_model, post,
}

has-without_think : (p : Fields) → has "think" (keep_unless (λ k. k == "think") p) ≡ false
unfolding has keep_unless get
has-without_think end = refl
has-without_think (field k j fs) = ground (arith, has-without_think fs)

module _ {W : Type 0} (python : Runtime) (ollama : Ollama W) where
  has-rejects_think :
      (p : Fields) (body : Json)
      → has "think" p ≡ false
      → rejects_think python ollama p body ≡ false
  unfolding rejects_think
  has-rejects_think p body h = ground (arith, h)

  -- Two ways to try again that are not told apart.
  Same : {A : Type 0} → Action Fault (Bench W) A → Action Fault (Bench W) A → Type 0
  Same m n = (s : Bench W) → m s ≡ n s

  Same-if :
      {A : Type 0} (b : Bool) (m m' n n' : Action Fault (Bench W) A)
      → (b ≡ true → Same m m')
      → Same n n'
      → Same (if b then m else n) (if b then m' else n')
  Same-if true m m' n n' k l = k refl
  Same-if false m m' n n' k l = l

  Same-settled :
      (r r' : Action Fault (Bench W) Json) (p : Fields) (status : ℕ) (body : Json)
      → (has "think" p ≡ true → Same r r')
      → Same (settled python ollama r p status body) (settled python ollama r' p status body)
  unfolding settled Same forget_think rejects_think
  Same-settled r r' p status body k =
      Same-if (status == 404) _ _ _ _ (λ e s. refl)
        (Same-if (leb 400 status) _ _ _ _
          (λ e.
            Same-if (rejects_think python ollama p body) _ _ _ _ (λ f s. k (ground (arith, f)) _)
              (λ s. refl))
          (λ s. refl))

  Fuelled : {A : Type 0} → Action Fault (Bench W) A → Type 0
  Fuelled m = (s : Bench W) → (m s).0 ≢ err out_of_fuel

  Fuelled-if :
      {A : Type 0} (b : Bool) (m n : Action Fault (Bench W) A)
      → (b ≡ true → Fuelled m)
      → Fuelled n
      → Fuelled (if b then m else n)
  Fuelled-if true m n k l = k refl
  Fuelled-if false m n k l = l

  Fuelled-settled :
      (r : Action Fault (Bench W) Json) (p : Fields) (status : ℕ) (body : Json)
      → (has "think" p ≡ true → Fuelled r)
      → Fuelled (settled python ollama r p status body)
  unfolding settled Fuelled forget_think no_model rejects_think
  Fuelled-settled r p status body k =
      Fuelled-if (status == 404) _ _ (λ e s h. ground (arith, h))
        (Fuelled-if (leb 400 status) _ _
          (λ e.
            Fuelled-if (rejects_think python ollama p body) _ _ (λ f s h. k (ground (arith, f)) _ h)
              (λ s h. ground (arith, h)))
          (λ s h. ground (arith, h)))

  Same-read_body :
      (r r' : Action Fault (Bench W) Json) (p : Fields) (a : Response)
      → (has "think" p ≡ true → Same r r')
      → Same (read_body python ollama r p a) (read_body python ollama r' p a)
  unfolding Same read_body
  Same-read_body r r' p a k s = elim (Option-cases a.body) [
    | inl gone ↦ rw gone refl
    | inr (body, e) ↦ rw e (Same-settled r r' p a.status body k s)
  ]

  Fuelled-read_body :
      (r : Action Fault (Bench W) Json) (p : Fields) (a : Response)
      → (has "think" p ≡ true → Fuelled r)
      → Fuelled (read_body python ollama r p a)
  unfolding Fuelled read_body
  Fuelled-read_body r p a k s = elim (Option-cases a.body) [
    | inl gone ↦ rw gone (λ h. ground (arith, h))
    | inr (body, e) ↦ rw e (Fuelled-settled r p a.status body k s)
  ]

  Same->>= :
      {A B : Type 0} (m : Action Fault (Bench W) A) (f g : A → Action Fault (Bench W) B)
      → ((a : A) → Same (f a) (g a))
      → Same (m >>= f) (m >>= g)
  unfolding Same
  Same->>= m f g k s = elim (Action-cases (m s)) [
    | inl (a, t, p) ↦ rw p (k a t)
    | inr (e, t, p) ↦ rw p refl
  ]

  fetched-Fuelled : (r : Result HttpFault Response) → fetched python ollama r ≢ err out_of_fuel
  unfolding fetched http_fault
  fetched-Fuelled (ok r) h = ground (arith, h)
  fetched-Fuelled (err timed_out) h = ground (arith, h)
  fetched-Fuelled (err (connect_error e)) h = ground (arith, h)
  fetched-Fuelled (err (http_error e)) h = ground (arith, h)

  Fuelled->>= :
      {A B : Type 0} (m : Action Fault (Bench W) A) (f : A → Action Fault (Bench W) B)
      → Fuelled m
      → ((a : A) → Fuelled (f a))
      → Fuelled (m >>= f)
  unfolding Fuelled
  Fuelled->>= m f k l s = elim (Action-cases (m s)) [
    | inl (a, t, p) ↦ rw p (l a t)
    | inr (e, t, p) ↦ rw p λ h. k s (rw p (ground (arith, h)))
  ]

  Fuelled-fetch : (p : Fields) → Fuelled (fetch python ollama p)
  unfolding Fuelled fetch
  Fuelled-fetch p s = fetched-Fuelled _

  Same-asked :
      (r r' : Action Fault (Bench W) Json) (p : Fields)
      → (has "think" p ≡ true → Same r r')
      → Same
          (fetch python ollama p >>= read_body python ollama r p)
          (fetch python ollama p >>= read_body python ollama r' p)
  Same-asked r r' p k =
      Same->>= (fetch python ollama p) (read_body python ollama r p) (read_body python ollama r' p)
        λ a. Same-read_body r r' p a k

  Fuelled-asked :
      (r : Action Fault (Bench W) Json) (p : Fields)
      → (has "think" p ≡ true → Fuelled r)
      → Fuelled (fetch python ollama p >>= read_body python ollama r p)
  Fuelled-asked r p k =
      Fuelled->>= (fetch python ollama p) (read_body python ollama r p) (Fuelled-fetch p)
        λ a. Fuelled-read_body r p a k

  post-Same :
      (n : ℕ) (p : Fields)
      → has "think" p ≡ false
      → Same (post python ollama (suc n) p) (post python ollama 1 p)
  unfolding post
  post-Same n p h =
      Same-asked (post python ollama n (without_think python ollama p))
        (post python ollama 0 (without_think python ollama p)) p
        λ e. let bad : ⊥ = ground (arith, e, h) in elim bad [ ]

  post-Same_two :
      (n : ℕ) (p : Fields) → Same (post python ollama (suc (suc n)) p) (post python ollama 2 p)
  unfolding post without_think
  post-Same_two n p =
      Same-asked (post python ollama (suc n) (without_think python ollama p))
        (post python ollama 1 (without_think python ollama p)) p
        λ e. post-Same n _ (has-without_think p)

  post-Fuelled : (p : Fields) → Fuelled (post python ollama 2 p)
  unfolding post without_think
  post-Fuelled p = Fuelled-asked (post python ollama 1 (without_think python ollama p)) p λ e.
      Fuelled-asked
        (post python ollama 0 (without_think python ollama (without_think python ollama p)))
        (without_think python ollama p)
        λ f. let bad : ⊥ = ground (arith, f, has-without_think p) in elim bad [ ]

  -- Posting a request to the model's server takes at most two requests: with two or more on fuel
  -- the outcome is the same, and it is never that the fuel ran out.
  pub post-Ends :
      (n : ℕ) (p : Fields) (s : Bench W)
      → (post python ollama (suc (suc n)) p s ≡ post python ollama 2 p s)
        × ((post python ollama 2 p s).0 ≢ err out_of_fuel)
  unfolding Same Fuelled
  post-Ends n p s = (post-Same_two n p s, post-Fuelled p s)

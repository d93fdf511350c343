-- ===== src/NetBench/Clients/Keeps.antt =====
-- Methods that leave a view of the servers' world as it was.
use net_twin.Prelude.{
  ℕ, ◌≡◌, refl, ◌∙◌, inl, inr, String, Bool, true, false, List, [], ◌∷◌, ◌++◌, if◌then◌else◌,
  string_eq,
}
use net_twin.Prelude.Lists.{filter}
use net_twin.Prelude.Result.{Result, ok, err}
use net_twin.Prelude.Action.{Action, lift, ◌>>=◌, ◌>>◌, Action-cases}
use net_twin.Prelude.Json.{Fields}
use net_twin.NetBench.Clients.{
  Client, CallResult, Bench, Sessions, Fault, call_timeout, mcp_error, tool_call_failed,
  unavailable, model_timeout, run_timeout, call_failed, bad_shape, out_of_fuel, bad_role, outside,
  record_call, recorded, call_once, again, retried, call, call_result, twin, verify,
}

-- Every element of a list.
unfoldable pub All : {A : Type 0} → (A → Type 0) → List A → Type 0
All P [] = Unit {0}
All P (x ∷ xs) = P x × All P xs

pub All-filter :
    {A : Type 0} (P : A → Type 0) (p : A → Bool) (xs : List A) → All P xs → All P (filter p xs)
unfolding All filter
All-filter P p [] h = tt
All-filter P p (x ∷ xs) h = if_lem (p x) _ _ (h.0, All-filter P p xs h.1) (All-filter P p xs h.1)
  where
    if_lem : (b : Bool) (ys zs : List _) → All P ys → All P zs → All P (if b then ys else zs)
    if_lem true ys zs k l = k
    if_lem false ys zs k l = l

pub All-append :
    {A : Type 0} (P : A → Type 0) (xs ys : List A) → All P xs → All P ys → All P (xs ++ ys)
unfolding All
All-append P [] ys h k = k
All-append P (x ∷ xs) ys h k = (h.0, All-append P xs ys h.1 k)

module _ {W V : Type 0} (view : W → V) where
  unfoldable pub Keeps : {A : Type 0} → Action Fault (Bench W) A → Type 0
  Keeps m = (s : Bench W) → view (m s).1.world ≡ view s.world

  pub Keeps->>= :
      {A B : Type 0} (m : Action Fault (Bench W) A) (f : A → Action Fault (Bench W) B)
      → Keeps m
      → ((a : A) → Keeps (f a))
      → Keeps (m >>= f)
  unfolding Keeps
  Keeps->>= m f k l s = elim (Action-cases (m s)) [
    | inl (a, t, p) ↦ rw p (l a t ∙ rw p at (k s))
    | inr (e, t, p) ↦ rw p (rw p at (k s))
  ]

  -- The same, where the first method returns only what has the property `P`.
  pub Keeps->>=_where :
      {A B : Type 0} (P : A → Type 0) (m : Action Fault (Bench W) A)
      (f : A → Action Fault (Bench W) B)
      → Keeps m
      → ((s t : Bench W) (a : A) → m s ≡ (ok a, t) → P a)
      → ((a : A) → P a → Keeps (f a))
      → Keeps (m >>= f)
  unfolding Keeps
  Keeps->>=_where P m f k post l s = elim (Action-cases (m s)) [
    | inl (a, t, p) ↦ rw p (l a (post s t a p) t ∙ rw p at (k s))
    | inr (e, t, p) ↦ rw p (rw p at (k s))
  ]

  pub Keeps-if :
      {A : Type 0} (b : Bool) (m n : Action Fault (Bench W) A)
      → Keeps m
      → Keeps n
      → Keeps (if b then m else n)
  Keeps-if true m n k l = k
  Keeps-if false m n k l = l

  pub Keeps-pure : {A : Type 0} (r : Result Fault A) → Keeps (lift r)
  unfolding Keeps
  Keeps-pure r s = refl

  pub Keeps-outside :
      {A : Type 0} (m : Action Fault W A) → ((w : W) → view (m w).1 ≡ view w) → Keeps (outside m)
  unfolding Keeps outside
  Keeps-outside m k s = k s.world

  Keeps-record_call : (c : Client) (r : CallResult) → Keeps (record_call c r)
  unfolding Keeps record_call recorded
  Keeps-record_call twin r s = refl
  Keeps-record_call verify r s = refl

  module _ (sessions : Sessions W) (c : Client) (tool : String) (args : Fields) (timeout : ℕ)
      (reopen_keeps : (w : W) → view (sessions.reopen c w).1 ≡ view w)
      (call_keeps : (w : W) → view (sessions.call_tool c tool args timeout w).1 ≡ view w) where
    Keeps-call_once : Keeps (call_once sessions c tool args timeout)
    unfolding call_once
    Keeps-call_once =
        Keeps->>= (outside (sessions.call_tool c tool args timeout)) _ (Keeps-outside _ call_keeps)
          λ r. Keeps-record_call c (call_result tool args r)

    reopened : Keeps (outside (sessions.reopen c) >> call_once sessions c tool args timeout)
    reopened =
        Keeps->>= (outside (sessions.reopen c)) _ (Keeps-outside _ reopen_keeps)
          λ u. Keeps-call_once

    Keeps-again : (e : Fault) → Keeps (again sessions c tool args timeout e)
    unfolding again
    Keeps-again call_timeout = reopened
    Keeps-again mcp_error = reopened
    Keeps-again (tool_call_failed d) = Keeps-pure (err _)
    Keeps-again (unavailable d) = Keeps-pure (err _)
    Keeps-again (model_timeout d) = Keeps-pure (err _)
    Keeps-again (run_timeout d) = Keeps-pure (err _)
    Keeps-again (call_failed d) = Keeps-pure (err _)
    Keeps-again (bad_shape d) = Keeps-pure (err _)
    Keeps-again out_of_fuel = Keeps-pure (err _)
    Keeps-again (bad_role d) = Keeps-pure (err _)

    Keeps-retried : (r : Result Fault CallResult) → Keeps (retried sessions c tool args timeout r)
    unfolding retried
    Keeps-retried (ok r) = Keeps-pure (ok r)
    Keeps-retried (err e) = Keeps-again e

    pub Keeps-call : Keeps (call sessions c tool args timeout)
    unfolding call Keeps
    Keeps-call s = Keeps-retried (call_once sessions c tool args timeout s).0 _ ∙ Keeps-call_once s

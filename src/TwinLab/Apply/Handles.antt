-- ===== src/TwinLab/Apply/Handles.antt =====
-- The look-up of the handle of an nft rule, `resolve_nft_handle` of TwinLab/Apply.
use net_twin.Prelude.{
  ℕ, ◌≡◌, refl, ◌⊎◌, inl, inr, String, true, false, List, [], ◌∷◌, Option, none, some, string_eq,
  ◌==◌, ◌&&◌, arith, Bool-cases, Option-cases,
}
use net_twin.Prelude.Text.{strip, isdigit, int, rpartition, is_line_end}
use net_twin.Prelude.Words.{words}
use net_twin.Prelude.Result.{ok, err}
use net_twin.Prelude.Action.{Action-cases}
use net_twin.Core.Executor.{ExecResult, Executor, Fault, succeeded}
use net_twin.Core.Ops.{NftRule}
use net_twin.TwinLab.Apply.{
  apply_error, failed, normalise_nft_rule, handle_in, find_handle, list_chain, found, listed, call,
  raised, failure_text, text_of, resolve_nft_handle,
}

-- A line of the chain that has the rule, in its normal form, under the handle.
unfoldable pub HasRule : String → ℕ → String → Type 0
HasRule wanted h line =
    (body : String) × (handle : String) × (rpartition "# handle" line ≡ some (body, handle))
    × (normalise_nft_rule body ≡ wanted)
    × (isdigit (strip handle) ≡ true)
    × (h ≡ int (strip handle))

-- The first of the lines that has the rule has it under the handle.
unfoldable pub FirstHas : String → ℕ → List String → Type 0
FirstHas wanted h [] = ⊥
FirstHas wanted h (l ∷ ls) =
    HasRule wanted h l ⊎ (((k : ℕ) → ¬ HasRule wanted k l) × FirstHas wanted h ls)

-- No line has the rule.
unfoldable pub NoneHas : String → List String → Type 0
NoneHas wanted [] = Unit {0}
NoneHas wanted (l ∷ ls) = ((h : ℕ) → ¬ HasRule wanted h l) × NoneHas wanted ls

same-eq : (a : String) → (a == a) ≡ true
same-eq a = ground arith

handle_in-HasRule :
    (wanted : String) (h : ℕ) (line : String)
    → HasRule wanted h line
    → handle_in wanted line ≡ some h
unfolding handle_in HasRule
handle_in-HasRule wanted h line (body, handle, p, same, digits, is) =
    rw (p, same, same-eq wanted, digits, is, handle_in) refl

none-ne-some : {A : Type 0} (o : Option A) (a : A) → o ≡ none → o ≡ some a → ⊥
none-ne-some o a p q = cc

handle_in-cases :
    (wanted line : String)
    → ((h : ℕ) × (handle_in wanted line ≡ some h) × HasRule wanted h line)
      ⊎ ((handle_in wanted line ≡ none) × ((h : ℕ) → ¬ HasRule wanted h line))
unfolding handle_in HasRule
handle_in-cases wanted line = elim (Option-cases (rpartition "# handle" line)) [
  | inl p ↦ lacking (rw (p, handle_in) refl)
  | inr ((body, handle), p) ↦
      elim (Bool-cases (normalise_nft_rule body == wanted && isdigit (strip handle))) [
        | inl good ↦ inl (
          int (strip handle),
          rw (p, good, handle_in) refl,
          (body, handle, p, ground (arith, good), ground (arith, good), refl),
        )
        | inr bad ↦ lacking (rw (p, bad, handle_in) refl)
      ]
]
  where
    lacking :
        handle_in wanted line ≡ none
        → ((h : ℕ) × (handle_in wanted line ≡ some h) × HasRule wanted h line)
          ⊎ ((handle_in wanted line ≡ none) × ((h : ℕ) → ¬ HasRule wanted h line))
    lacking q =
        inr (q, λ h m. none-ne-some (handle_in wanted line) h q (handle_in-HasRule wanted h line m))

find_handle-cases :
    (wanted : String) (lines : List String)
    → ((h : ℕ) × (find_handle wanted lines ≡ some h) × FirstHas wanted h lines)
      ⊎ ((find_handle wanted lines ≡ none) × NoneHas wanted lines)
unfolding find_handle FirstHas NoneHas
find_handle-cases wanted [] = inr (refl, tt)
find_handle-cases wanted (l ∷ ls) = elim (handle_in-cases wanted l) [
  | inl (h, p, has) ↦ inl (h, rw (p, find_handle) refl, inl has)
  | inr (p, lacks) ↦ elim (find_handle-cases wanted ls) [
    | inl (h, q, has) ↦ inl (h, rw (p, q, find_handle) refl, inr (lacks, has))
    | inr (q, none_has) ↦ inr (rw (p, q, find_handle) refl, (lacks, none_has))
  ]
]

module _ {W : Type 0} (executor : Executor W) (node : String) (r : NftRule) where
  -- What the lines of a listing say of the rule.
  unfoldable pub Looked : List String → W → W → Type 0
  Looked lines w w' =
      ((h : ℕ) × (resolve_nft_handle executor node r w ≡ (ok h, w'))
        × FirstHas (normalise_nft_rule (text_of r.rule)) h lines)
      ⊎ ((resolve_nft_handle executor node r w
            ≡ (err (apply_error node (list_chain r) "no rule matching"), w'))
          × NoneHas (normalise_nft_rule (text_of r.rule)) lines)

  looked :
      (res : ExecResult) (w w' : W)
      → executor.exec node (list_chain r) 10 none w ≡ (ok res, w')
      → succeeded res ≡ true
      → Looked (words is_line_end res.stdout) w w'
  unfolding Looked resolve_nft_handle call raised listed found
  looked res w w' p good =
      elim (find_handle-cases (normalise_nft_rule (text_of r.rule))
        (words is_line_end res.stdout)) [
          | inl (h, q, has) ↦ inl (h, rw (p, good, q, resolve_nft_handle, call, listed) refl, has)
          | inr (q, none_has) ↦
              inr (rw (p, good, q, resolve_nft_handle, call, listed) refl, none_has)
        ]

  -- The look-up of the handle of an nft rule lists the rule's chain on the node, and leaves the
  -- state that this leaves, on every executor. What the executor raises is raised; a listing that
  -- fails is an ApplyError with its text. Else the handle is the number on the first line of the
  -- listing that has a number as its handle and whose rule has the normal form of the wanted one;
  -- and if no line has, it is an ApplyError.
  pub resolve_nft_handle-cases :
      (w : W)
      → ((e : Fault) × (w' : W) × (executor.exec node (list_chain r) 10 none w ≡ (err e, w'))
          × (resolve_nft_handle executor node r w ≡ (err (failed e), w')))
        ⊎ ((res : ExecResult) × (w' : W) × (executor.exec node (list_chain r) 10 none w
              ≡ (ok res, w'))
            × (((succeeded res ≡ false)
                  × (resolve_nft_handle executor node r w
                      ≡ (err (apply_error node (list_chain r) (failure_text res)), w')))
                ⊎ Looked (words is_line_end res.stdout) w w'))
  unfolding resolve_nft_handle call raised listed
  resolve_nft_handle-cases w = elim (Action-cases (executor.exec node (list_chain r) 10 none w)) [
    | inr (e, w', p) ↦ inl (e, w', p, rw (p, resolve_nft_handle, call) refl)
    | inl (res, w', p) ↦ inr (
      res,
      w',
      p,
      elim (Bool-cases (succeeded res)) [
        | inl good ↦ inr (looked res w w' p good)
        | inr bad ↦ inl (bad, rw (p, bad, resolve_nft_handle, call, listed) refl)
      ],
    )
  ]

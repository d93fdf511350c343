-- ===== src/TwinLab/Apply/Stops.antt =====
-- Operations of TwinLab/Apply and the commands they render to, run up to the first that fails.
use net_twin.Prelude.{
  ℕ, ◌≡◌, refl, String, List, ◌++◌, Option, none, some, string_eq, arith, inl, inr, ◌⊎◌, ◌≢◌, ◌<>◌,
  ◌==◌, true, false, Bool-cases,
}
use net_twin.Prelude.Result.{Result, ok, err, Result-cases}
use net_twin.Prelude.Action.{pure, ◌>>=◌, Action-cases}
use net_twin.Prelude.Text.{join}
use net_twin.Core.Executor.{ExecResult, Executor, Fault, succeeded}
use net_twin.Core.Ops.{
  Op, frr_lines, set_mtu, set_addr, add_vlan, del_vlan, bridge_vlan, nft_rule, NftRule, NftAction,
  add, insert, delete, flush_chain,
}
use net_twin.Core.Ops.Render.{Argv, render, render_all}
use net_twin.TwinLab.Apply.{
  call, judge, raised, failure_text, frr_errors, first_part, ApplyFault, apply_error, failed,
  run_argv, run_all, resolve, resolved, rendered, apply_op, apply_ops,
}

List-cases :
    {A : Type 0} (xs : List A) → (xs ≡ List.[]) ⊎ ((a : A) × (as' : List A) × (xs ≡ List.◌∷◌ a as'))
List-cases List.[] = inl refl
List-cases (List.◌∷◌ a as') = inr (a, as', refl)

cons-ne-nil : {A : Type 0} (a : A) (as' : List A) → List.◌∷◌ a as' ≢ List.[]
cons-ne-nil a as' h = cc

err-ne-ok : {E A : Type 0} {e : E} {a : A} → Path (Result E A) (err e) (ok a) → ⊥
err-ne-ok h = cc

module _ {W : Type 0} (executor : Executor W) (node : String) where
  resolve-known :
      (a : NftAction) (handle : Option ℕ) (r : NftRule) (argvs : List Argv) (w : W)
      → render (nft_rule (record r { action = a; handle = handle })) ≡ ok argvs
      → resolve executor node a handle r w ≡ (ok (nft_rule r), w)
  unfolding resolve render
  resolve-known add handle r argvs w h = refl
  resolve-known insert handle r argvs w h = refl
  resolve-known flush_chain handle r argvs w h = refl
  resolve-known delete (some n) r argvs w h = refl
  resolve-known delete none r argvs w h = ground (arith, h)

  resolved-known :
      (op : Op) (argvs : List Argv) (w : W)
      → render op ≡ ok argvs
      → resolved executor node op w ≡ (ok op, w)
  unfolding resolved
  resolved-known (frr_lines ls) argvs w h = refl
  resolved-known (set_mtu d m) argvs w h = refl
  resolved-known (set_addr d a r) argvs w h = refl
  resolved-known (add_vlan p v n) argvs w h = refl
  resolved-known (del_vlan n) argvs w h = refl
  resolved-known (bridge_vlan a d v p u) argvs w h = refl
  resolved-known (nft_rule r) argvs w h = resolve-known r.action r.handle r argvs w h

  apply_op-run_all :
      (op : Op) (argvs : List Argv) (w : W)
      → render op ≡ ok argvs
      → apply_op executor node op w ≡ run_all executor node argvs w
  unfolding apply_op rendered
  apply_op-run_all op argvs w h = rw (apply_op, resolved-known op argvs w h, rendered, h) refl

  run_all-append :
      (xs ys : List Argv) (w : W)
      → run_all executor node (xs ++ ys) w
        ≡ (run_all executor node xs >>= λ rs.
              run_all executor node ys >>= λ more. pure (rs ++ more))
            w
  unfolding run_all
  run_all-append List.[] ys w = elim (Action-cases (run_all executor node ys w)) [
    | inl (more, w1, p) ↦ rw p refl
    | inr (e, w1, p) ↦ rw p refl
  ]
  run_all-append (List.◌∷◌ x xs) ys w = elim (Action-cases (run_argv executor node x w)) [
    | inr (e, w1, p) ↦ rw p refl
    | inl (r, w1, p) ↦ elim (Action-cases (run_all executor node xs w1)) [
      | inr (e, w2, q) ↦ rw (p, run_all-append xs ys w1, q) refl
      | inl (rs, w2, q) ↦ elim (Action-cases (run_all executor node ys w2)) [
        | inl (more, w3, q1) ↦ rw (p, run_all-append xs ys w1, q, q1) refl
        | inr (e, w3, q1) ↦ rw (p, run_all-append xs ys w1, q, q1) refl
      ]
    ]
  ]

  empty_run :
      (argvs : List Argv) (w : W)
      → render_all List.[] ≡ ok argvs
      → apply_ops executor node List.[] w ≡ run_all executor node argvs w
  unfolding render_all apply_ops run_all
  empty_run List.[] w h = refl
  empty_run (List.◌∷◌ a as') w h = ground (arith, h)

  render_all-cons :
      (op : Op) (ops : List Op) (argvs : List Argv)
      → render_all (List.◌∷◌ op ops) ≡ ok argvs
      → (first : List Argv) × (rest : List Argv) × (render op ≡ ok first)
        × (render_all ops ≡ ok rest)
        × (argvs ≡ first ++ rest)
  unfolding render_all
  render_all-cons op ops argvs h = elim (Result-cases (render op)) [
    | inr (e, p) ↦ elim (err-ne-ok (rw p at h)) [ ]
    | inl (first, p) ↦ elim (Result-cases (render_all ops)) [
      | inr (e, q) ↦ elim (err-ne-ok (rw (p, q) at h)) [ ]
      | inl (rest, q) ↦ (first, rest, p, q, ground (arith, rw (p, q) at h))
    ]
  ]

  apply_ops-cons :
      (op : Op) (ops : List Op) (w : W)
      → apply_ops executor node (List.◌∷◌ op ops) w
        ≡ (apply_op executor node op >>= λ rs.
              apply_ops executor node ops >>= λ more. pure (rs ++ more))
            w
  unfolding apply_ops
  apply_ops-cons op ops w = refl

  apply_ops-run_all :
      (ops : List Op) (argvs : List Argv) (w : W)
      → render_all ops ≡ ok argvs
      → apply_ops executor node ops w ≡ run_all executor node argvs w
  unfolding run_all
  apply_ops-run_all List.[] argvs w h = empty_run argvs w h
  apply_ops-run_all (List.◌∷◌ op ops) argvs w h =
      let (first, rest, p, q, e) = render_all-cons op ops argvs h in
      rw (e, apply_ops-cons op ops w, run_all-append first rest w, apply_op-run_all op first w p)
        (elim (Action-cases (run_all executor node first w)) [
          | inr (e', w1, r) ↦ rw r refl
          | inl (rs, w1, r) ↦ rw (r, apply_ops-run_all ops rest w1 q) refl
        ])

-- A command that worked: its result is of success, and vtysh printed no error.
unfoldable pub IsClean : List String → ExecResult → Type 0
IsClean argv r =
    (succeeded r ≡ true)
    × (((first_part argv == "vtysh") ≡ false)
        ⊎ (frr_errors (r.stdout <> ("\n" <> r.stderr)) ≡ List.[]))

-- A command that failed.
unfoldable pub IsFailed : List String → ExecResult → Type 0
IsFailed argv r =
    (succeeded r ≡ false)
    ⊎ (((first_part argv == "vtysh") ≡ true)
        × (frr_errors (r.stdout <> ("\n" <> r.stderr)) ≢ List.[]))

judge-cases :
    (W : Type 0) (executor : Executor W) (node : String) (argv : List String) (r : ExecResult)
    → ((judge executor node argv r ≡ ok r) × IsClean argv r)
      ⊎ ((detail : String) × (judge executor node argv r ≡ err (apply_error node argv detail))
          × IsFailed argv r)
unfolding judge IsClean IsFailed
judge-cases W executor node argv r = elim (Bool-cases (succeeded r)) [
  | inr bad ↦ inr (failure_text r, rw (judge, bad) refl, inl bad)
  | inl good ↦ elim (Bool-cases (first_part argv == "vtysh")) [
    | inr other ↦ inl (rw (judge, good, other) refl, (good, inl other))
    | inl vtysh ↦ elim (List-cases (frr_errors (r.stdout <> ("\n" <> r.stderr)))) [
      | inl none_left ↦ inl (rw (judge, good, vtysh, none_left) refl, (good, inr none_left))
      | inr (e, es, some_left) ↦ inr (
        join "; " (List.◌∷◌ e es),
        rw (judge, good, vtysh, some_left) refl,
        inr (vtysh, λ h. cons-ne-nil e es (rw some_left at h)),
      )
    ]
  ]
]

module _ {W : Type 0} (executor : Executor W) (node : String) where
  -- The commands run in turn on the node, each from the state that the one before it left, and all
  -- work.
  pub data Runs : List Argv → W → List ExecResult → W → Type 0 where
    done : (w : W) → Runs List.[] w List.[] w
    next :
        (a : Argv) (as' : List Argv) (r : ExecResult) (rs : List ExecResult) (w w1 w2 : W)
        → executor.exec node a 30 none w ≡ (ok r, w1)
        → IsClean a r
        → Runs as' w1 rs w2
        → Runs (List.◌∷◌ a as') w (List.◌∷◌ r rs) w2

  -- The commands run in turn up to the first that the executor raises at or that fails.
  pub data Stops : List Argv → W → ApplyFault → W → Type 0 where
    raises :
        (a : Argv) (as' : List Argv) (e : Fault) (w w1 : W)
        → executor.exec node a 30 none w ≡ (err e, w1)
        → Stops (List.◌∷◌ a as') w (failed e) w1
    fails :
        (a : Argv) (as' : List Argv) (r : ExecResult) (detail : String) (w w1 : W)
        → executor.exec node a 30 none w ≡ (ok r, w1)
        → IsFailed a r
        → Stops (List.◌∷◌ a as') w (apply_error node a detail) w1
    later :
        (a : Argv) (as' : List Argv) (r : ExecResult) (e : ApplyFault) (w w1 w2 : W)
        → executor.exec node a 30 none w ≡ (ok r, w1)
        → IsClean a r
        → Stops as' w1 e w2
        → Stops (List.◌∷◌ a as') w e w2

  run_argv-cases :
      (a : Argv) (w : W)
      → ((e : Fault) × (w1 : W) × (executor.exec node a 30 none w ≡ (err e, w1))
          × (run_argv executor node a w ≡ (err (failed e), w1)))
        ⊎ ((r : ExecResult) × (w1 : W) × (executor.exec node a 30 none w ≡ (ok r, w1))
            × (run_argv executor node a w ≡ (judge executor node a r, w1)))
  unfolding run_argv call raised
  run_argv-cases a w = elim (Action-cases (executor.exec node a 30 none w)) [
    | inl (r, w1, p) ↦ inr (r, w1, p, rw (p, run_argv, call) refl)
    | inr (e, w1, p) ↦ inl (e, w1, p, rw (p, run_argv, call) refl)
  ]

  -- How running commands ends.
  unfoldable Ends : List Argv → W → Result ApplyFault (List ExecResult) × W → Type 0
  Ends argvs w p =
      ((rs : List ExecResult) × (w' : W) × (p ≡ (ok rs, w')) × Runs argvs w rs w')
      ⊎ ((e : ApplyFault) × (w' : W) × (p ≡ (err e, w')) × Stops argvs w e w')

  run_all-Ends : (argvs : List Argv) (w : W) → Ends argvs w (run_all executor node argvs w)
  unfolding Ends run_all
  run_all-Ends List.[] w = inl (List.[], w, refl, done w)
  run_all-Ends (List.◌∷◌ a as') w = elim (run_argv-cases a w) [
    | inl (e, w1, p, q) ↦ inr (failed e, w1, rw q refl, raises a as' e w w1 p)
    | inr (r, w1, p, q) ↦ elim (judge-cases W executor node a r) [
      | inr (detail, j, bad) ↦
          inr (apply_error node a detail, w1, rw (q, j) refl, fails a as' r detail w w1 p bad)
      | inl (j, clean) ↦ elim (run_all-Ends as' w1) [
        | inl (rs, w2, h, runs) ↦
            inl (List.◌∷◌ r rs, w2, rw (q, j, h) refl, next a as' r rs w w1 w2 p clean runs)
        | inr (e, w2, h, stops) ↦
            inr (e, w2, rw (q, j, h) refl, later a as' r e w w1 w2 p clean stops)
      ]
    ]
  ]

  -- Applying operations that all render, so that no handle of an nft rule is to be looked up, runs
  -- the rendered commands in turn on the node, each from the state that the one before it left, on
  -- every executor. Either each command succeeds, with no error in what vtysh printed, and the
  -- results are returned; or the first that the executor raises at, or that fails or has such an
  -- error, ends it: what the executor raises is raised, or an ApplyError of that command's argv,
  -- with the state that this command left.
  pub apply_ops-cases :
      (ops : List Op) (argvs : List Argv) (w : W)
      → render_all ops ≡ ok argvs
      → ((rs : List ExecResult) × (w' : W) × (apply_ops executor node ops w ≡ (ok rs, w'))
          × Runs argvs w rs w')
        ⊎ ((e : ApplyFault) × (w' : W) × (apply_ops executor node ops w ≡ (err e, w'))
            × Stops argvs w e w')
  unfolding Ends
  apply_ops-cases ops argvs w h =
      rw (apply_ops-run_all executor node ops argvs w h) (run_all-Ends argvs w)

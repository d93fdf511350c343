-- ===== src/TwinLab/App/Kept.antt =====
-- What `apply` does to the record of changes.
use net_twin.Prelude.{ℕ, ◌≡◌, refl, ◌∙◌, ◌⊎◌, inl, inr, String, List, [], ◌∷◌, Option}
use net_twin.Prelude.Dict.{put}
use net_twin.Prelude.Result.{Result, ok, err}
use net_twin.Prelude.Action.{Action, raise, lift, ◌>>=◌, Action-cases}
use net_twin.Prelude.Json.{Json}
use net_twin.Core.Executor.{ExecResult, Executor}
use net_twin.Core.Topology.{Topology}
use net_twin.Core.Ops.{Op}
use net_twin.Core.Models.{ChangeResult}
use net_twin.Core.Snapshot.Read.{Snapshot, Configured}
use net_twin.Core.Snapshot.Capture.{capture}
use net_twin.TwinLab.Apply.{ApplyFault, apply_error, failed, not_rendered}
use net_twin.TwinLab.Restore.Run.{restore, flush_route_caches}
use net_twin.TwinLab.App.{
  Twin, TwinFault, not_captured, on_world, snapshot, keep, recover, handled, try_apply,
  record_change, change_of, apply_checked, apply, require_node, read_diff, state_in, no_ops,
}

abbrev Method : Type 0 → Type 0 → Type 0
Method W A = Action TwinFault (Twin W) A

-- The changes are what they were.
Keeps : (W A : Type 0) → Method W A → Type 0
Keeps W A m = (t : Twin W) → (m t).1.changes ≡ t.changes

-- A change that was asked for is recorded and returned, or something is raised and the changes are
-- what they were.
unfoldable pub Records :
    (W : Type 0)
    → (ChangeResult → Type 0)
    → Twin W
    → Result TwinFault ChangeResult × Twin W
    → Type 0
Records W IsAsked t p =
    ((c : ChangeResult) × (t' : Twin W) × (p ≡ (ok c, t'))
      × (t'.changes ≡ put c.change_id c t.changes)
      × IsAsked c)
    ⊎ ((e : TwinFault) × (t' : Twin W) × (p ≡ (err e, t')) × (t'.changes ≡ t.changes))

-- What `apply` was asked for.
unfoldable pub IsAsked : String → String → List Op → ChangeResult → Type 0
IsAsked change_id node ops c = (c.change_id ≡ change_id) × (c.node ≡ node) × (c.ops ≡ ops)

module _ {W A B : Type 0} (m : Method W A) (f : A → Method W B) where
  Keeps->>= : Keeps W A m → ((a : A) → Keeps W B (f a)) → Keeps W B (m >>= f)
  unfolding Keeps
  Keeps->>= k l t = elim (Action-cases (m t)) [
    | inl (a, t', p) ↦ rw p (l a t' ∙ rw p at (k t))
    | inr (e, t', p) ↦ rw p (rw p at (k t))
  ]

module _ {W A : Type 0} (IsAsked : ChangeResult → Type 0) (m : Method W A)
    (f : A → Method W ChangeResult) where
  Records->>= :
      Keeps W A m
      → ((a : A) (t : Twin W) → Records W IsAsked t (f a t))
      → (t : Twin W) → Records W IsAsked t ((m >>= f) t)
  unfolding Keeps Records
  Records->>= k l t = elim (Action-cases (m t)) [
    | inr (e, t', p) ↦ inr (e, t', rw p refl, rw p at (k t))
    | inl (a, t', p) ↦
        let same : t'.changes ≡ t.changes = rw p at (k t) in
        elim (l a t') [
          | inl (c, u, q, r, asked) ↦ inl (c, u, rw (p, q) refl, rw same at r, asked)
          | inr (e, u, q, r) ↦ inr (e, u, rw (p, q) refl, r ∙ same)
        ]
  ]

Keeps-on_world :
    {W A E : Type 0} (wrap : E → TwinFault) (m : Action E W A) → Keeps W A (on_world wrap m)
unfolding Keeps on_world
Keeps-on_world wrap m t = refl

Keeps-raise : (W A : Type 0) (e : TwinFault) → Keeps W A (raise e)
unfolding Keeps
Keeps-raise W A e t = refl

Keeps-lift : (W : Type 0) {A : Type 0} (r : Result TwinFault A) → Keeps W A (lift r)
unfolding Keeps
Keeps-lift W r t = refl

module _ {W : Type 0} (executor : Executor W) (topology : Topology) (lab : String)
    (repr : String → String) (loads : String → Option Json)
    (digest : List (String × Configured) → String)
    (unified_diff : ℕ → List String → List String → String → String → List String) where
  Keeps-keep :
      (s : Snapshot)
      → Keeps W Snapshot (keep executor topology lab repr loads digest unified_diff s)
  unfolding Keeps keep
  Keeps-keep s t = refl

  Keeps-snapshot :
      (now : ℕ)
      → Keeps W Snapshot (snapshot executor topology lab repr loads digest unified_diff now)
  unfolding snapshot
  Keeps-snapshot now =
      Keeps->>= (on_world not_captured (capture executor repr loads digest now topology lab)) _
        (Keeps-on_world not_captured _) Keeps-keep

  Keeps-recover :
      (now : ℕ) (before : Snapshot) (e : ApplyFault)
      → Keeps W
          (List ExecResult)
          (recover executor topology lab repr loads digest unified_diff now before e)
  unfolding recover
  Keeps-recover now before (apply_error node argv detail) =
      Keeps->>= (snapshot executor topology lab repr loads digest unified_diff now) _
        (Keeps-snapshot now)
        λ current.
          Keeps->>= (on_world not_captured (restore executor repr topology before current)) _
            (Keeps-on_world not_captured _) λ changed. Keeps-raise _ _ _
  Keeps-recover now before (failed e) = Keeps-raise _ _ _
  Keeps-recover now before (not_rendered e) = Keeps-raise _ _ _

  Keeps-handled :
      (now : ℕ) (before : Snapshot) (r : Result ApplyFault (List ExecResult))
      → Keeps W
          (List ExecResult)
          (handled executor topology lab repr loads digest unified_diff now before r)
  unfolding handled Keeps
  Keeps-handled now before (ok rs) t = refl
  Keeps-handled now before (err e) t = Keeps-recover now before e t

  Keeps-try_apply :
      (now : ℕ) (before : Snapshot) (node : String) (ops : List Op)
      → Keeps W
          (List ExecResult)
          (try_apply executor topology lab repr loads digest unified_diff now before node ops)
  unfolding try_apply Keeps
  Keeps-try_apply now before node ops t = Keeps-handled now before _ _

  recorded :
      (now : ℕ) (change_id node : String) (ops : List Op) (rationale : String)
      (before after : Snapshot) (diff : String) (t : Twin W)
      → Records W (IsAsked change_id node ops) t (
          record_change executor topology lab repr loads digest unified_diff
            (change_of change_id now node ops rationale before after diff)
            t)
  unfolding Records record_change IsAsked change_of
  recorded now change_id node ops rationale before after diff t =
      inl (_, _, refl, refl, (refl, refl, refl))

  apply_checked-Records :
      (now : ℕ) (change_id node : String) (ops : List Op) (rationale : String) (t : Twin W)
      → Records W (IsAsked change_id node ops) t (
          apply_checked executor topology lab repr loads digest unified_diff now change_id node ops
            rationale t)
  unfolding apply_checked
  apply_checked-Records now change_id node ops rationale =
      Records->>= _ (snapshot executor topology lab repr loads digest unified_diff now) _
        (Keeps-snapshot now)
        λ before.
          Records->>= _
            (try_apply executor topology lab repr loads digest unified_diff now before node ops) _
            (Keeps-try_apply now before node ops)
            λ results.
              Records->>= _
                (on_world not_captured (flush_route_caches executor repr topology.nodes)) _
                (Keeps-on_world not_captured _)
                λ flushed.
                  Records->>= _ (snapshot executor topology lab repr loads digest unified_diff now)
                    _ (Keeps-snapshot now)
                    λ after. Records->>= _ (lift (state_in node before)) _ (Keeps-lift _ _) λ old.
                      Records->>= _ (lift (state_in node after)) _ (Keeps-lift _ _) λ new.
                        Records->>= _ (lift (read_diff _)) _ (Keeps-lift _ _)
                          λ diff. recorded now change_id node ops rationale before after diff

  -- An apply either returns a change with the id, the node and the operations that were asked for,
  -- and that change is what was recorded; or it raises, and the record of changes is what it was.
  pub apply-Records :
      (now : ℕ) (change_id node : String) (ops : List Op) (rationale : String) (t : Twin W)
      → Records W (IsAsked change_id node ops) t (
          apply executor topology lab repr loads digest unified_diff now change_id node ops
            rationale t)
  unfolding apply Records
  apply-Records now change_id node [] rationale =
      Records->>= _ (lift (require_node topology node)) _ (Keeps-lift _ _)
        λ name t. inr (no_ops, t, refl, refl)
  apply-Records now change_id node (op ∷ ops) rationale =
      Records->>= _ (lift (require_node topology node)) _ (Keeps-lift _ _)
        λ name. apply_checked-Records now change_id node (op ∷ ops) rationale

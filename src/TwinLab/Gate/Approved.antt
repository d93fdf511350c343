-- ===== src/TwinLab/Gate/Approved.antt =====
-- What stands in the exports directory, and the steps that lead to it.
use net_twin.Prelude.{
  ℕ, ◌≡◌, refl, sym, String, Bool, true, false, List, [], Option, none, some, string_eq,
  Option-cases, inl, inr, if◌then◌else◌, arith,
}
use net_twin.Prelude.Dict.{find, put, find-put}
use net_twin.Prelude.Result.{Result, ok, err, Result-cases}
use net_twin.Core.Models.{ChangeResult, VerificationReport, RootCause}
use net_twin.TwinLab.Export.{
  ExportBundle, Status, pending, approved, declined, validate, new_bundle,
}
use net_twin.TwinLab.Gate.{
  Artifacts, Folder, Stores, GateError, save_change, artifacts_of, written, save_bundle,
  load_bundle, checked, save, decided, decide, prepare, prepare_export, decide_export,
}

-- The files that a bundle's status calls for.
unfoldable pub expected : Status → ExportBundle → Option Artifacts
expected approved b = some (artifacts_of b)
expected pending b = none
expected declined b = none

module _ (hmac : String → String → String) (isoformat : ℕ → String) (key : String) where
  -- A folder holds a bundle of its own id that was checked under some policy, and the files that
  -- its status calls for.
  unfoldable pub IsSound : String → Folder → Type 0
  IsSound id f =
      (f.bundle.export_id ≡ id)
      × (f.artifacts ≡ expected f.bundle.status f.bundle)
      × ((sha : String) × (validate hmac isoformat f.bundle.changes f.bundle.verification key sha
            ≡ ok tt))

  unfoldable pub AreSound : List (String × Folder) → Type 0
  unfolding IsSound
  AreSound m = (id : String) (f : Folder) → find id m ≡ some f → IsSound id f

  -- What can happen to the stores: a change is recorded, an export prepared under an id that no
  -- folder has, or one decided.
  pub data Step : Stores → Stores → Type 0 where
    recorded : (c : ChangeResult) (s : Stores) → Step s (save_change c s)
    prepared :
        (sha : String) (now : ℕ) (fresh : String) (ids : List String) (v : VerificationReport)
        (rc : RootCause) (summary : String) (s : Stores)
        → find fresh s.exports ≡ none
        → Step s (prepare_export hmac isoformat key sha now fresh ids v rc summary s).1
    judged :
        (now : ℕ) (id : String) (yes' : Bool) (by note : String) (s : Stores)
        → Step s (decide_export now id yes' by note s).1

  pub data Reachable : Stores → Type 0 where
    start :
        (changes : List (String × ChangeResult))
        → Reachable (record { changes = changes; exports = [] })
    after : {s s' : Stores} → Reachable s → Step s s' → Reachable s'

  put-AreSound :
      (m : List (String × Folder)) (k : String) (g : Folder)
      → AreSound m
      → IsSound k g
      → AreSound (put k g m)
  unfolding AreSound
  put-AreSound m k g h good id f e = elim (find-put id k g f m e) [
    | inr old ↦ h id f old
    | inl (p, q) ↦ rw (p, sym q) good
  ]

  save_bundle-AreSound :
      (b : ExportBundle) (sha : String) (m : List (String × Folder))
      → validate hmac isoformat b.changes b.verification key sha ≡ ok tt
      → written b.status b (find b.export_id m) ≡ expected b.status b
      → AreSound m
      → AreSound (save_bundle b m)
  unfolding save_bundle IsSound
  save_bundle-AreSound b sha m valid files h =
      put-AreSound m b.export_id
        (record { bundle = b; artifacts = written b.status b (find b.export_id m) }) h
        (refl, files, (sha, valid))

  prepare-AreSound :
      (sha : String) (now : ℕ) (fresh : String) (loaded : Result GateError (List ChangeResult))
      (v : VerificationReport) (rc : RootCause) (summary : String) (s : Stores)
      → find fresh s.exports ≡ none
      → AreSound s.exports
      → AreSound (prepare hmac isoformat key sha now fresh loaded v rc summary s).1.exports
  unfolding prepare checked save new_bundle written expected
  prepare-AreSound sha now fresh (err e) v rc summary s new h = h
  prepare-AreSound sha now fresh (ok cs) v rc summary s new h =
      elim (Result-cases (validate hmac isoformat cs v key sha)) [
        | inr (e, p) ↦ rw p h
        | inl (tt, p) ↦ rw p (
            save_bundle-AreSound (new_bundle now fresh cs v rc summary) sha s.exports p
              (rw new refl) h)
      ]

  decided_files :
      (b : ExportBundle) (old : Option Artifacts) (yes' : Bool) (now : ℕ) (by note : String)
      → old ≡ none
      → written
          (if yes' then approved else declined)
          (decided b yes' now by note)
          (some (record { bundle = b; artifacts = old }))
        ≡ expected (if yes' then approved else declined) (decided b yes' now by note)
  unfolding written expected
  decided_files b old true now by note h = refl
  decided_files b old false now by note h = h

  decide-AreSound :
      (id : String) (st : Status) (b : ExportBundle) (old : Option Artifacts) (yes' : Bool)
      (now : ℕ) (by note : String) (s : Stores)
      → b.status ≡ st
      → find id s.exports ≡ some (record { bundle = b; artifacts = old })
      → AreSound s.exports
      → AreSound (decide id st b yes' now by note s).1.exports
  unfolding decide decided save IsSound AreSound expected
  decide-AreSound id approved b old yes' now by note s eq e h = h
  decide-AreSound id declined b old yes' now by note s eq e h = h
  decide-AreSound id pending b old yes' now by note s eq e h =
      let (same, files, (sha, valid)) = h id _ e in
      save_bundle-AreSound (decided b yes' now by note) sha s.exports valid
        (rw (rw (sym same) at e) (decided_files b old yes' now by note (rw eq at files))) h

  Step-AreSound : {s s' : Stores} → Step s s' → AreSound s.exports → AreSound s'.exports
  unfolding save_change prepare_export decide_export load_bundle
  Step-AreSound (recorded c s) h = h
  Step-AreSound (prepared sha now fresh ids v rc summary s new) h =
      prepare-AreSound sha now fresh _ v rc summary s new h
  Step-AreSound (judged now id yes' by note s) h = elim (Option-cases (find id s.exports)) [
    | inl gone ↦ rw (gone, decide_export) h
    | inr (f, p) ↦
        rw (p, decide_export)
          (decide-AreSound id f.bundle.status f.bundle f.artifacts yes' now by note s refl p h)
  ]

  nothing_found : (id : String) (f : Folder) → find id [] ≡ some f → ⊥
  unfolding find
  nothing_found id f e = ground (arith, e)

  pub Reachable-AreSound : {s : Stores} → Reachable s → AreSound s.exports
  unfolding AreSound find
  Reachable-AreSound (start changes) = λ id f e. elim (nothing_found id f e) [ ]
  Reachable-AreSound (after r step) = Step-AreSound step (Reachable-AreSound r)

  -- In every state that the operations reach from an empty exports directory, each folder of the
  -- directory holds a bundle of its name that the check in front of an export accepted under some
  -- policy hash, and holds the files to apply exactly if the bundle is approved, as rendered from
  -- it. A new export's id is one that no folder has.
  pub exports-IsSound :
      {s : Stores}
      → Reachable s
      → (id : String) (f : Folder) → find id s.exports ≡ some f
      → IsSound id f
  unfolding AreSound
  exports-IsSound r id f e = Reachable-AreSound r id f e

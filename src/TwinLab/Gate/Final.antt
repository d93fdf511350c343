-- ===== src/TwinLab/Gate/Final.antt =====
-- Decisions on an export that is decided.
use net_twin.Prelude.{
  ℕ, ◌≡◌, ◌≢◌, refl, sym, String, Bool, true, false, List, some, string_eq, Option-cases, inl, inr,
  arith,
}
use net_twin.Prelude.Dict.{find, find-put_same}
use net_twin.Prelude.Result.{ok, err}
use net_twin.TwinLab.Export.{ExportBundle, Status, pending, approved, declined}
use net_twin.TwinLab.Gate.{
  Folder, Stores, save_bundle, load_bundle, decided, decide, decide_export, already, save, written,
}
use net_twin.TwinLab.Gate.Approved.{AreSound, IsSound, Reachable, Reachable-AreSound}

decide-eq-ok :
    (id : String) (st : Status) (b b' : ExportBundle) (yes' : Bool) (now : ℕ) (by note : String)
    (s s' : Stores)
    → decide id st b yes' now by note s ≡ (ok b', s')
    → (b' ≡ decided b yes' now by note) × (s'.exports ≡ save_bundle b' s.exports)
unfolding decide save
decide-eq-ok id approved b b' yes' now by note s s' h = ground (arith, h)
decide-eq-ok id declined b b' yes' now by note s s' h = ground (arith, h)
decide-eq-ok id pending b b' yes' now by note s s' h = ground (arith, h)

-- Where a decision was taken, the folder of the id is that of its bundle, and the bundle is no
-- longer pending.
decide_export-eq-ok :
    (now : ℕ) (id : String) (yes' : Bool) (by note : String) (s s' : Stores) (b : ExportBundle)
    → decide_export now id yes' by note s ≡ (ok b, s')
    → (f : Folder) × (find id s.exports ≡ some f)
      × (b ≡ decided f.bundle yes' now by note)
      × (s'.exports ≡ save_bundle b s.exports)
unfolding decide_export load_bundle
decide_export-eq-ok now id yes' by note s s' b h = elim (Option-cases (find id s.exports)) [
  | inl gone ↦
      let impossible : ⊥ = ground (arith, rw (gone, decide_export) at h) in elim impossible [ ]
  | inr (f, p) ↦
      let (q, r) =
        decide-eq-ok id f.bundle.status f.bundle b yes' now by note s s'
          (rw (p, decide_export) at h) in
      (f, p, q, r)
]

decided-not-pending :
    (b : ExportBundle) (yes' : Bool) (now : ℕ) (by note : String)
    → (decided b yes' now by note).status ≢ pending
unfolding decided
decided-not-pending b true now by note h = ground (arith, h)
decided-not-pending b false now by note h = ground (arith, h)

refuse :
    (id : String) (st : Status) (b : ExportBundle) (yes' : Bool) (now : ℕ) (by note : String)
    (s : Stores)
    → st ≢ pending
    → decide id st b yes' now by note s ≡ (err (already id st), s)
unfolding decide
refuse id approved b yes' now by note s h = refl
refuse id declined b yes' now by note s h = refl
refuse id pending b yes' now by note s h = elim (h refl) [ ]

find-save_bundle :
    (b : ExportBundle) (m : List (String × Folder))
    → find b.export_id (save_bundle b m)
      ≡ some (record { bundle = b; artifacts = written b.status b (find b.export_id m) })
unfolding save_bundle
find-save_bundle b m = find-put_same b.export_id _ m

module _ (hmac : String → String → String) (isoformat : ℕ → String) (key : String) where
  -- Where a decision on an export is taken in a state that the operations reach, a further
  -- decision on it in the state after it is refused with the status that the export has, and
  -- changes nothing.
  pub decide_export-final :
      (s s' : Stores) (now now' : ℕ) (id : String) (yes' yes'' : Bool) (by note by' note' : String)
      (b : ExportBundle)
      → Reachable hmac isoformat key s
      → decide_export now id yes' by note s ≡ (ok b, s')
      → decide_export now' id yes'' by' note' s' ≡ (err (already id b.status), s')
  unfolding decide_export load_bundle IsSound AreSound save_bundle
  decide_export-final s s' now now' id yes' yes'' by note by' note' b r h =
      let (f, found, is_decided, stored) = decide_export-eq-ok now id yes' by note s s' b h in
      let same : b.export_id ≡ id =
        rw is_decided (Reachable-AreSound hmac isoformat key r id f found).0 in
      let there = rw (sym stored, same) at (find-save_bundle b s.exports) in
      rw (there, decide_export)
        (refuse id b.status (record b { export_id = id }) yes'' now' by' note' s'
          (rw is_decided (decided-not-pending f.bundle yes' now by note)))

-- ===== src/TwinLab/Server/Agent.antt =====
-- What an agent can bring about in the stores without the operator and without the admin token.
use net_twin.Prelude.{
  ℕ, ◌≡◌, ◌≢◌, refl, sym, String, Bool, true, false, List, [], some, inl, inr, arith, Option-cases,
}
use net_twin.Prelude.Dict.{find, find-put}
use net_twin.Prelude.Result.{Result, ok, err, Result-cases}
use net_twin.Prelude.Action.{Action, Action-cases}
use net_twin.Core.Attest.{DigestFault}
use net_twin.Core.Models.{ChangeResult, VerificationReport, RootCause}
use net_twin.TwinLab.Export.{
  ExportBundle, Status, pending, approved, declined, validate, new_bundle,
}
use net_twin.TwinLab.Export.Preview.{preview}
use net_twin.TwinLab.Gate.{
  Folder, Stores, GateError, save_change, save_bundle, load_bundle, load_changes, prepare_export,
  prepare, checked, decide_export, decide, decided, save,
}
use net_twin.TwinLab.Server.{
  Answer, Asks, ElicitFault, says_yes, note_of, export_change, seek_approval, heard, decide_as,
  authorized, approve_route, guard, guarded,
}

-- No folder holds an approved bundle.
unfoldable pub Unapproved : Stores → Type 0
Unapproved s = (id : String) (f : Folder) → find id s.exports ≡ some f → f.bundle.status ≢ approved

put-Unapproved :
    (changes : List (String × ChangeResult)) (s : Stores) (b : ExportBundle)
    → b.status ≢ approved
    → Unapproved s
    → Unapproved (record { changes = changes; exports = save_bundle b s.exports })
unfolding Unapproved save_bundle
put-Unapproved changes s b n h id f e = elim (find-put id b.export_id _ f s.exports e) [
  | inl (p, q) ↦ rw (sym q) n
  | inr old ↦ h id f old
]

decided-not-approved :
    (b : ExportBundle) (now : ℕ) (by note : String)
    → (decided b false now by note).status ≢ approved
unfolding decided
decided-not-approved b now by note h = ground (arith, h)

start_lem :
    (changes : List (String × ChangeResult))
    → Unapproved (record { changes = changes; exports = [] })
unfolding Unapproved find
start_lem changes id f e = ground (arith, e)

save_change_lem : (c : ChangeResult) (s : Stores) → Unapproved s → Unapproved (save_change c s)
unfolding Unapproved save_change
save_change_lem c s h = h

-- A decision against an export approves none.
decide_export-Unapproved :
    (now : ℕ) (id by note : String) (s : Stores)
    → Unapproved s
    → Unapproved (decide_export now id false by note s).1
unfolding decide_export load_bundle decide save
decide_export-Unapproved now id by note s h = elim (Option-cases (find id s.exports)) [
  | inl gone ↦ rw (gone, decide_export) h
  | inr (f, p) ↦ rw (p, decide_export) (cases f.bundle f.bundle.status)
]
  where
    cases : (b : ExportBundle) (st : Status) → Unapproved (decide id st b false now by note s).1
    cases b pending =
        put-Unapproved s.changes s (decided b false now by note)
          (decided-not-approved b now by note) h
    cases b approved = h
    cases b declined = h

module _ (hmac : String → String → String) (isoformat : ℕ → String) (key token : String)
    (path : String → String) where
  prepare_export-Unapproved :
      (sha : String) (now : ℕ) (fresh : String) (ids : List String) (v : VerificationReport)
      (rc : RootCause) (summary : String) (s : Stores)
      → Unapproved s
      → Unapproved (prepare_export hmac isoformat key sha now fresh ids v rc summary s).1
  unfolding prepare_export prepare checked save new_bundle
  prepare_export-Unapproved sha now fresh ids v rc summary s h =
      elim (Result-cases (load_changes ids s.changes)) [
        | inr (e, p) ↦ rw p h
        | inl (cs, p) ↦ elim (Result-cases (validate hmac isoformat cs v key sha)) [
          | inr (e, q) ↦ rw (p, q) h
          | inl (tt, q) ↦
              rw (p, q)
                (put-Unapproved s.changes s (new_bundle now fresh cs v rc summary)
                  (λ x. ground (arith, x)) h)
        ]
      ]

  -- The stores that an agent brings about: changes are recorded; exports are prepared, and asked for outside
  -- the benchmark, while others act, where no answer to the question is a yes; the approve route is asked
  -- for without the token.
  pub data Reachable : Stores → Type 0 where
    start :
        (changes : List (String × ChangeResult))
        → Reachable (record { changes = changes; exports = [] })
    changed : (c : ChangeResult) (s : Stores) → Reachable s → Reachable (save_change c s)
    prepared :
        (sha : String) (now : ℕ) (fresh : String) (ids : List String) (v : VerificationReport)
        (rc : RootCause) (summary : String) (s : Stores)
        → Reachable s
        → Reachable (prepare_export hmac isoformat key sha now fresh ids v rc summary s).1
    exported :
        (elicit : Asks) (sha : String) (now decided_at : ℕ) (fresh : String) (ids : List String)
        (v : VerificationReport) (rc : RootCause) (summary : String) (s : Stores)
        → Reachable s
        → ((b : ExportBundle) (t : Stores)
            → prepare_export hmac isoformat key sha now fresh ids v rc summary s ≡ (ok b, t)
            → Reachable (elicit (preview b) t).1)
        → ((b : ExportBundle) (t : Stores) (a : Answer)
            → prepare_export hmac isoformat key sha now fresh ids v rc summary s ≡ (ok b, t)
            → (elicit (preview b) t).0 ≡ ok a
            → says_yes a ≡ false)
        → Reachable
            (export_change path hmac isoformat key false elicit sha now decided_at fresh ids v rc
              summary s).1
    requested :
        (header : String) (now : ℕ) (id : String) (s : Stores)
        → authorized header token ≢ ok true
        → Reachable s
        → Reachable (approve_route header token now id s).1

  heard-Unapproved :
      (now : ℕ) (id : String) (r : Result ElicitFault Answer) (t : Stores)
      → ((a : Answer) → r ≡ ok a → says_yes a ≡ false)
      → Unapproved t
      → Unapproved (heard path now id r t).1
  unfolding heard decide_as
  heard-Unapproved now id (err e) t n h = h
  heard-Unapproved now id (ok a) t n h =
      elim (Action-cases (decide_export now id false "operator" (note_of a) t)) [
        | inl (b, u, p) ↦
            rw (n a refl, p) (rw p at (decide_export-Unapproved now id "operator" (note_of a) t h))
        | inr (e, u, p) ↦
            rw (n a refl, p) (rw p at (decide_export-Unapproved now id "operator" (note_of a) t h))
      ]

  guarded-Unapproved :
      (r : Result DigestFault Bool) (handler : Action GateError Stores ExportBundle) (s : Stores)
      → r ≢ ok true
      → Unapproved s
      → Unapproved (guarded r handler s).1
  unfolding guarded
  guarded-Unapproved (err e) handler s n h = h
  guarded-Unapproved (ok false) handler s n h = h
  guarded-Unapproved (ok true) handler s n h = elim (n refl) [ ]

  export_change-Unapproved :
      (elicit : Asks) (sha : String) (now decided_at : ℕ) (fresh : String) (ids : List String)
      (v : VerificationReport) (rc : RootCause) (summary : String) (s : Stores)
      → Unapproved s
      → ((b : ExportBundle) (t : Stores)
          → prepare_export hmac isoformat key sha now fresh ids v rc summary s ≡ (ok b, t)
          → Unapproved (elicit (preview b) t).1)
      → ((b : ExportBundle) (t : Stores) (a : Answer)
          → prepare_export hmac isoformat key sha now fresh ids v rc summary s ≡ (ok b, t)
          → (elicit (preview b) t).0 ≡ ok a
          → says_yes a ≡ false)
      → Unapproved
          (export_change path hmac isoformat key false elicit sha now decided_at fresh ids v rc
            summary s).1
  unfolding export_change seek_approval
  export_change-Unapproved elicit sha now decided_at fresh ids v rc summary s h w n =
      elim (Action-cases (prepare_export hmac isoformat key sha now fresh ids v rc summary s)) [
        | inl (b, t, p) ↦ rw p (
            heard-Unapproved decided_at b.export_id (elicit (preview b) t).0
              (elicit (preview b) t).1 (λ a e. n b t a p e) (w b t p))
        | inr (e, t, p) ↦
            rw p (rw p at (prepare_export-Unapproved sha now fresh ids v rc summary s h))
      ]

  -- In a state that an agent brings about from an empty exports directory, outside the benchmark,
  -- by recording changes and asking for exports, where no answer of the operator is a yes and no
  -- request of the approve route is authorized by the token, no export is approved.
  pub Reachable-Unapproved : {s : Stores} → Reachable s → Unapproved s
  unfolding approve_route guard
  Reachable-Unapproved (start changes) = start_lem changes
  Reachable-Unapproved (changed c s r) = save_change_lem c s (Reachable-Unapproved r)
  Reachable-Unapproved (prepared sha now fresh ids v rc summary s r) =
      prepare_export-Unapproved sha now fresh ids v rc summary s (Reachable-Unapproved r)
  Reachable-Unapproved (exported elicit sha now decided_at fresh ids v rc summary s r w n) =
      export_change-Unapproved elicit sha now decided_at fresh ids v rc summary s
        (Reachable-Unapproved r) (λ b t p. Reachable-Unapproved (w b t p)) n
  Reachable-Unapproved (requested header now id s n r) =
      guarded-Unapproved (authorized header token) (decide_export now id true "cli" "") s n
        (Reachable-Unapproved r)

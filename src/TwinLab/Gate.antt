-- ===== src/TwinLab/Gate.antt =====
-- The stores of packages/twinlab/src/twinlab/changes.py and export.py, and `prepare_export` and
-- `decide_export` of packages/twinlab/src/twinlab/app.py. A directory holds its entries by name; a
-- JSON file is the value that is written to it. Fresh ids, the time and the hash of the policy
-- file are arguments.
pub mod Approved
pub mod Final
use net_twin.Prelude.{
  ℕ, ◌≡◌, String, Bool, true, false, List, [], ◌∷◌, Option, none, some, ◌==◌, string_eq,
  if◌then◌else◌,
}
use net_twin.Prelude.Dict.{find, put}
use net_twin.Prelude.Result.{Result, ok, err}
use net_twin.Prelude.Action.{Action, pure, raise, lift, ◌>>=◌, ◌>>◌}
use net_twin.Core.Models.{ChangeResult, VerificationReport, RootCause}
use net_twin.TwinLab.Export.{
  ExportError, ExportBundle, Status, pending, approved, declined, validate, new_bundle,
  render_patch, render_root_cause,
}

-- The files written beside `bundle.json` for an approved bundle.
pub record Artifacts : Type 0 where
  pub diff_patch : String
  pub root_cause_md : String
  pub verification_json : VerificationReport

pub record Folder : Type 0 where
  pub bundle : ExportBundle
  pub artifacts : Option Artifacts

pub record Stores : Type 0 where
  pub changes : List (String × ChangeResult)
  pub exports : List (String × Folder)

pub data GateError : Type 0 where
  unknown_change : String → GateError
  refused : ExportError → GateError
  unknown_export : String → GateError
  already : String → Status → GateError

-- `ChangeStore.save`
unfoldable pub save_change : ChangeResult → Stores → Stores
save_change c s = record s { changes = put c.change_id c s.changes }

-- `ChangeStore.load`
load_change : String → List (String × ChangeResult) → Result GateError ChangeResult
load_change change_id m = elim (find change_id m) [
  | none ↦ err (unknown_change change_id)
  | some c ↦ ok c
]

with_first :
    ChangeResult → Result GateError (List ChangeResult) → Result GateError (List ChangeResult)
with_first c (ok cs) = ok (c ∷ cs)
with_first c (err e) = err e

unfoldable pub load_changes :
    List String → List (String × ChangeResult) → Result GateError (List ChangeResult)
unfolding load_change with_first
load_changes [] m = ok []
load_changes (k ∷ ks) m = elim (load_change k m) [
  | err e ↦ err e
  | ok c ↦ with_first c (load_changes ks m)
]

unfoldable pub artifacts_of : ExportBundle → Artifacts
artifacts_of b = record {
  diff_patch = render_patch b;
  root_cause_md = render_root_cause b;
  verification_json = b.verification;
}

-- What the files beside `bundle.json` are after a save: written anew for an approved bundle, and
-- otherwise left as they were.
unfoldable pub written : Status → ExportBundle → Option Folder → Option Artifacts
unfolding artifacts_of
written approved b old = some (artifacts_of b)
written status b none = none
written status b (some folder) = folder.artifacts

-- `ExportStore.save`
unfoldable pub save_bundle : ExportBundle → List (String × Folder) → List (String × Folder)
unfolding written
save_bundle b m =
    put b.export_id (record { bundle = b; artifacts = written b.status b (find b.export_id m) }) m

-- `ExportStore.load`
unfoldable pub load_bundle : String → Stores → Result GateError ExportBundle
load_bundle id s = elim (find id s.exports) [
  | none ↦ err (unknown_export id)
  | some folder ↦ ok folder.bundle
]

unfoldable pub save : ExportBundle → Action GateError Stores (Unit {0})
unfolding save_bundle
save b s = (ok tt, record s { exports = save_bundle b s.exports })

unfoldable pub checked : Result ExportError (Unit {0}) → Result GateError (Unit {0})
checked (ok u) = ok u
checked (err e) = err (refused e)

module _ (hmac : String → String → String) (isoformat : ℕ → String) (key : String) where
  -- What follows once the changes are loaded.
  unfoldable pub prepare :
      String
      → ℕ
      → String
      → Result GateError (List ChangeResult)
      → VerificationReport
      → RootCause
      → String
      → Action GateError Stores ExportBundle
  unfolding checked save
  prepare policy_sha256 now fresh loaded verification root_cause summary = do
    changes ← lift loaded
    lift (checked (validate hmac isoformat changes verification key policy_sha256))
    save (new_bundle now fresh changes verification root_cause summary)
    pure (new_bundle now fresh changes verification root_cause summary)

  unfoldable pub prepare_export :
      String
      → ℕ
      → String
      → List String
      → VerificationReport
      → RootCause
      → String
      → Action GateError Stores ExportBundle
  unfolding load_changes prepare
  prepare_export policy_sha256 now fresh change_ids verification root_cause summary s =
      prepare policy_sha256 now fresh (load_changes change_ids s.changes) verification root_cause
        summary s

unfoldable pub decided : ExportBundle → Bool → ℕ → String → String → ExportBundle
decided b is_approved now decided_by note = record b {
  status = if is_approved then approved else declined;
  decided_at = some now;
  decided_by = some decided_by;
  note = note;
}

unfoldable pub decide :
    String
    → Status
    → ExportBundle
    → Bool
    → ℕ
    → String
    → String
    → Action GateError Stores ExportBundle
unfolding decided save
decide export_id pending b is_approved now decided_by note = do
  save (decided b is_approved now decided_by note)
  pure (decided b is_approved now decided_by note)
decide export_id status b is_approved now decided_by note = raise (already export_id status)

-- With the time as an argument.
unfoldable pub decide_export :
    ℕ → String → Bool → String → String → Action GateError Stores ExportBundle
unfolding load_bundle decide
decide_export now export_id is_approved decided_by note s = elim (load_bundle export_id s) [
  | err e ↦ (err e, s)
  | ok b ↦ decide export_id b.status b is_approved now decided_by note s
]

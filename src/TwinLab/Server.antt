-- ===== src/TwinLab/Server.antt =====
-- The tool `export_change` of packages/twinlab/src/twinlab/server.py, and the admin routes on exports of
-- packages/twinlab/src/twinlab/admin.py. The elicitation, by which the client asks the operator, is a
-- parameter that acts on the stores: the server serves others while it waits. The times, the fresh id
-- and the hash of the policy file are arguments, and a store's path is a parameter.
pub mod Agent
use net_twin.Prelude.{ℕ, String, ◌<>◌, Bool, true, false, List, Option, none, some, if◌then◌else◌}
use net_twin.Prelude.Text.{startswith, strip, drop}
use net_twin.Prelude.Result.{Result, ok, err}
use net_twin.Prelude.Action.{Action, pure, raise, lift, ◌>>=◌, ◌>>◌}
use net_twin.Core.Attest.{DigestFault, compare_digest}
use net_twin.Core.Models.{VerificationReport, RootCause}
use net_twin.TwinLab.Export.{ExportBundle, Status, pending, approved}
use net_twin.TwinLab.Export.Preview.{preview}
use net_twin.TwinLab.Gate.{
  Stores, GateError, unknown_change, unknown_export, refused, already, prepare_export,
  decide_export, load_bundle,
}

pub record ExportResult : Type 0 where
  pub export_id : String
  pub status : Status
  pub path : String
  pub decided_by : Option String
  pub message : String

pub record Approval : Type 0 where
  pub approve : Bool
  pub note : String

-- What an elicitation comes back with: the action, and the data of one that was accepted.
pub data Answer : Type 0 where
  accept : Option Approval → Answer
  decline cancel : Answer

-- Why a client could not be asked.
pub data ElicitFault : Type 0 where
  unavailable : ElicitFault

unfoldable pub says_yes : Answer → Bool
says_yes (accept (some a)) = a.approve
says_yes (accept none) = false
says_yes decline = false
says_yes cancel = false

unfoldable pub note_of : Answer → String
note_of (accept (some a)) = if a.approve then a.note else ""
note_of (accept none) = ""
note_of decline = ""
note_of cancel = ""

action_name : Answer → String
action_name (accept data_given) = "accept"
action_name decline = "decline"
action_name cancel = "cancel"

abbrev pub Asks : Type 0
Asks = String → Action ElicitFault Stores Answer

module _ (path : String → String) where
  auto_approved : String → ExportResult
  auto_approved export_id = record {
    export_id = export_id;
    status = approved;
    path = path export_id;
    decided_by = some "bench-auto";
    message = "benchmark mode: auto-approved without elicitation";
  }

  left_pending : String → ExportResult
  left_pending export_id = record {
    export_id = export_id;
    status = pending;
    path = path export_id;
    decided_by = none;
    message =
        "the client could not present an approval prompt; the export is pending. An operator can approve it with: nettwin approve "
        <> export_id;
  }

  answered : String → Answer → ExportBundle → ExportResult
  unfolding says_yes action_name
  answered export_id answer b = record {
    export_id = export_id;
    status = b.status;
    path = path export_id;
    decided_by = b.decided_by;
    message =
        if says_yes answer
        then "operator approved; bundle written"
        else "operator " <> (action_name answer <> "ed the export; nothing was written");
  }

  auto_approve : ℕ → String → Action GateError Stores ExportResult
  unfolding decide_export auto_approved
  auto_approve now export_id = do
    decide_export now export_id true "bench-auto" ""
    pure (auto_approved export_id)

  unfoldable pub decide_as : ℕ → String → Answer → Action GateError Stores ExportResult
  unfolding decide_export answered note_of says_yes
  decide_as now export_id answer = do
    b ← decide_export now export_id (says_yes answer) "operator" (note_of answer)
    pure (answered export_id answer b)

  unfoldable pub heard :
      ℕ → String → Result ElicitFault Answer → Action GateError Stores ExportResult
  unfolding decide_as left_pending
  heard now export_id (err e) = pure (left_pending export_id)
  heard now export_id (ok answer) = decide_as now export_id answer

  -- What follows a bundle that is prepared.
  unfoldable pub seek_approval :
      Bool → Asks → ℕ → ExportBundle → Action GateError Stores ExportResult
  unfolding auto_approve heard preview
  seek_approval true elicit now b s = auto_approve now b.export_id s
  seek_approval false elicit now b s =
      let (answer, t) = elicit (preview b) s in heard now b.export_id answer t

  -- `export_change`, with the time of the preparation and that of the decision
  unfoldable pub export_change :
      (hmac : String → String → String)
      → (isoformat : ℕ → String) → (key : String) → Bool
      → Asks
      → String
      → ℕ
      → ℕ
      → String
      → List String
      → VerificationReport
      → RootCause
      → String
      → Action GateError Stores ExportResult
  unfolding prepare_export seek_approval
  export_change hmac isoformat key bench elicit policy_sha256 now decided_at fresh change_ids
        verification root_cause summary =
      do
        b ←
            prepare_export hmac isoformat key policy_sha256 now fresh change_ids verification
              root_cause summary
        seek_approval bench elicit decided_at b

-- What a route answers: the JSON of a value, or an error with its status.
pub data Response (A : Type 0) : Type 0 where
  json : A → Response A
  failed : ℕ → Response A

-- `authorized`
unfoldable pub authorized : String → String → Result DigestFault Bool
unfolding compare_digest
authorized header token =
    if startswith header "Bearer " then compare_digest (strip (drop 7 header)) token else ok false

-- The statuses of the exceptions that `guard` catches.
unfoldable pub status_code : GateError → ℕ
status_code (unknown_change id) = 404
status_code (unknown_export id) = 404
status_code (refused e) = 409
status_code (already id status) = 409

served : {A : Type 0} → Result GateError A × Stores → Result DigestFault (Response A) × Stores
unfolding status_code
served (ok a, s) = (ok (json a), s)
served (err e, s) = (ok (failed (status_code e)), s)

unfoldable pub guarded :
    {A : Type 0}
    → Result DigestFault Bool
    → Action GateError Stores A
    → Action DigestFault Stores (Response A)
unfolding served
guarded (err e) handler s = (err e, s)
guarded (ok false) handler s = (ok (failed 401), s)
guarded (ok true) handler s = served (handler s)

-- `guard`
unfoldable pub guard :
    {A : Type 0}
    → String
    → String
    → Action GateError Stores A
    → Action DigestFault Stores (Response A)
unfolding authorized guarded
guard header token handler = guarded (authorized header token) handler

-- `approve`
unfoldable pub approve_route :
    String → String → ℕ → String → Action DigestFault Stores (Response ExportBundle)
unfolding guard decide_export
approve_route header token now export_id =
    guard header token (decide_export now export_id true "cli" "")

-- `export_detail`
unfoldable pub export_detail :
    String → String → String → Action DigestFault Stores (Response ExportBundle)
unfolding guard load_bundle
export_detail header token export_id = guard header token (λ s. (load_bundle export_id s, s))

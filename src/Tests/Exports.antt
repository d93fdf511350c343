-- ===== src/Tests/Exports.antt =====
-- An export that is prepared and approved.
use net_twin.Prelude.{
  ℕ, ◌≡◌, refl, sym, ◌↔◌, arith, String, true, false, List, [], ◌∷◌, none, some, string_eq, nat_eq,
  ◌==◌, if◌then◌else◌, Bool-cases, inl, inr,
}
use net_twin.Prelude.Dict.{find, put}
use net_twin.Prelude.Result.{ok, err}
use net_twin.Core.Models.{ChangeResult, VerificationReport, RootCause, l3}
use net_twin.Core.Attest.{issue, sign, verify, message, is_ascii}
use net_twin.Core.Attest.Message.{bars, message-injective, verify-issue}
use net_twin.TwinLab.Export.{ExportBundle, validate, new_bundle, approved, last_change}
use net_twin.TwinLab.Export.Valid.{validate_iff, IsCovered}
use net_twin.TwinLab.Gate.{Stores, prepare_export, decide_export, already}
use net_twin.TwinLab.Gate.Approved.{Reachable, start, after, prepared, IsSound, exports-IsSound}
use net_twin.TwinLab.Export.Preview.{preview}
use net_twin.TwinLab.Server.{Answer, Asks, decline, says_yes, export_change}
use net_twin.TwinLab.Server.Agent
use net_twin.TwinLab.Server.Agent.{Unapproved, Reachable-Unapproved}
use net_twin.TwinLab.Gate.Final.{decide_export-final}

abbrev hmac : String → String → String
hmac key message = if key == "secret" then "ab12" else "cd34"

abbrev isoformat : ℕ → String
isoformat t = if t == 0 then "2026-01-01T00:00:00+00:00" else "2026-01-02T00:00:00+00:00"

first_bars : (bars "2026-01-01T00:00:00+00:00" ≡ 0) × (bars "2026-01-02T00:00:00+00:00" ≡ 0)
unfolding bars nat_eq
first_bars = (refl, refl)

isoformat-bars : (t : ℕ) → bars (isoformat t) ≡ 0
isoformat-bars t = elim (Bool-cases (t == 0)) [
  | inl zero' ↦ rw zero' first_bars.0
  | inr later ↦ rw later first_bars.1
]

no_bars : (bars "s1" ≡ 0) × (bars "p1" ≡ 0)
unfolding bars nat_eq
no_bars = (refl, refl)

abbrev snapshot_id : String
snapshot_id = "s1"

abbrev policy_sha256 : String
policy_sha256 = "p1"

message-injective_example :
    (snapshot_id ≡ snapshot_id) × (policy_sha256 ≡ policy_sha256) × (isoformat 0 ≡ isoformat 0)
message-injective_example =
    message-injective isoformat hmac isoformat-bars snapshot_id snapshot_id policy_sha256
      policy_sha256 0 0 no_bars.0 no_bars.1 refl

signed_ascii : is_ascii (sign hmac isoformat "secret" "s1" "p1" 0) ≡ true
unfolding is_ascii sign string_eq
signed_ascii = refl

verify-issue_example :
    verify hmac isoformat "secret" (issue hmac isoformat "secret" "s1" "p1" 0) ≡ ok true
verify-issue_example = verify-issue isoformat hmac "secret" "s1" "p1" 0 signed_ascii

abbrev change : ChangeResult
change = record {
  change_id = "c1";
  node = "r1";
  before_snapshot_id = "s0";
  after_snapshot_id = "s1";
  diff = "-mtu 1400\n+mtu 1500";
  ops = [];
  rationale = "";
  applied_at = none;
}

abbrev report : VerificationReport
report = record {
  passed = true;
  snapshot_id = "s1";
  policy_sha256 = "p1";
  rules = [];
  attestation =
      some (record { snapshot_id = "s1"; policy_sha256 = "p1"; issued_at = 0; mac = "ab12" });
}

abbrev cause : RootCause
cause = record { node = "r1"; layer = l3; component = "link.mtu"; summary = "mtu too small" }

validate_test : validate hmac isoformat (change ∷ []) report "secret" "p1" ≡ ok tt
unfolding validate verify last_change string_eq
validate_test = refl

validate_iff_example : (validate hmac isoformat (change ∷ []) report "secret" "p1" ≡ ok tt) ↔ (
    (c : ChangeResult) × (cs : List ChangeResult) × (change ∷ [] ≡ c ∷ cs)
    × (report.passed ≡ true)
    × IsCovered hmac isoformat "secret" "p1" (last_change c cs) report)
validate_iff_example = validate_iff hmac isoformat (change ∷ []) report "secret" "p1"

abbrev before : Stores
before = record { changes = ("c1", change) ∷ []; exports = [] }

abbrev pending_bundle : ExportBundle
pending_bundle = new_bundle 1 "e1" (change ∷ []) report cause ""

abbrev requested : Stores
requested = record before {
  exports = ("e1", record { bundle = pending_bundle; artifacts = none }) ∷ [];
}

prepared_test :
    prepare_export hmac isoformat "secret" "p1" 1 "e1" ("c1" ∷ []) report cause "" before
    ≡ (ok pending_bundle, requested)
unfolding prepare_export validate verify last_change string_eq find put new_bundle
prepared_test = refl

abbrev approved_bundle : ExportBundle
approved_bundle = record pending_bundle {
  status = approved;
  decided_at = some 2;
  decided_by = some "operator";
  note = "";
}

abbrev exported : Stores
exported = (decide_export 2 "e1" true "operator" "" requested).1

decided_test : decide_export 2 "e1" true "operator" "" requested ≡ (ok approved_bundle, exported)
unfolding decide_export string_eq find new_bundle
decided_test = refl

prepared_reachable : Reachable hmac isoformat "secret" requested
unfolding prepare_export validate verify last_change string_eq find put new_bundle
prepared_reachable =
    after (start (("c1", change) ∷ []))
      (prepared "p1" 1 "e1" ("c1" ∷ []) report cause "" before refl)

exports-IsSound_example :
    IsSound hmac isoformat "secret" "e1" (record { bundle = pending_bundle; artifacts = none })
unfolding find string_eq
exports-IsSound_example =
    exports-IsSound hmac isoformat "secret" prepared_reachable "e1"
      (record { bundle = pending_bundle; artifacts = none }) refl

decide_export-final_example :
    decide_export 3 "e1" false "operator" "" exported ≡ (err (already "e1" approved), exported)
decide_export-final_example =
    decide_export-final hmac isoformat "secret" requested exported 2 3 "e1" true false "operator" ""
      "operator" "" approved_bundle prepared_reachable decided_test

-- The operator turns the export down.
abbrev declining : Asks
declining shown s = (ok decline, s)

abbrev turned_down : Stores
turned_down =
    (export_change (λ id. id) hmac isoformat "secret" false declining "p1" 1 2 "e1" ("c1" ∷ [])
      report cause "" before).1

prepared_by_agent : Agent.Reachable hmac isoformat "secret" "token" (λ id. id) requested
unfolding prepare_export validate verify last_change string_eq find put new_bundle
prepared_by_agent =
    Agent.prepared "p1" 1 "e1" ("c1" ∷ []) report cause "" before
      (Agent.start (("c1", change) ∷ []))

left_waiting :
    (b : ExportBundle) (t : Stores)
    → prepare_export hmac isoformat "secret" "p1" 1 "e1" ("c1" ∷ []) report cause "" before
      ≡ (ok b, t)
    → Agent.Reachable hmac isoformat "secret" "token" (λ id. id) t
left_waiting b t h =
    let same : requested ≡ t = ground (arith, sym prepared_test, h) in
    rw (sym same) prepared_by_agent

declined_answer :
    (b : ExportBundle) (t : Stores) (a : Answer)
    → (declining (preview b) t).0 ≡ ok a
    → says_yes a ≡ false
unfolding says_yes
declined_answer b t a h = let same : decline ≡ a = ground (arith, h) in rw (sym same) refl

turned_down_reachable : Agent.Reachable hmac isoformat "secret" "token" (λ id. id) turned_down
turned_down_reachable =
    Agent.exported declining "p1" 1 2 "e1" ("c1" ∷ []) report cause "" before
      (Agent.start (("c1", change) ∷ [])) left_waiting (λ b t a p h. declined_answer b t a h)

Reachable-Unapproved_example : Unapproved turned_down
Reachable-Unapproved_example =
    Reachable-Unapproved hmac isoformat "secret" "token" (λ id. id) turned_down_reachable

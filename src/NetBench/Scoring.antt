-- ===== src/NetBench/Scoring.antt =====
-- packages/netbench/src/netbench/scoring.py, with the causes of a scenario from packages/nettwin_core's
-- scenario.py. A probe is its rule's id and whether it was ok; `str.lower` is a parameter.
pub mod Causes
use net_twin.Prelude.{
  ℕ, zero, suc, ◌+◌, String, Bool, true, false, not, ◌&&◌, ◌||◌, List, [], ◌∷◌, ◌++◌, map, Option,
  none, some, if◌then◌else◌, leb, ◌==◌, string_eq, contains,
}
use net_twin.Prelude.Text.{strip, is_lower, is_digit, one_of, size, is_empty}
use net_twin.Prelude.Lists.{any, all}
use net_twin.Prelude.Sort.{le_text, sort}
use net_twin.Prelude.Dict.{find, put}
use Prim.Native.Char.{code}
use net_twin.Prelude.Json.{Json, text, Fields, get}
use net_twin.NetBench.Runner.{RunOutput}
use net_twin.Core.Ops.{Op}
use net_twin.Core.Models.{Layer, RootCause, ChangeResult, VerificationReport}

pub record GroundTruth : Type 0 where
  pub node : String
  pub layer : Layer
  pub component : String
  pub summary : String

-- The quickest way to see the symptom.
pub record Probe : Type 0 where
  pub node : String
  pub cmd : String

-- What the benchmark reads of a scenario.
pub record Scenario : Type 0 where
  pub id : String
  pub title : String
  pub symptom : String
  pub probe : Option Probe
  pub ground_truth : Option GroundTruth
  pub extra_causes : List GroundTruth
  pub expected_fix : List (String × List Op)

unfoldable pub causes : Scenario → List GroundTruth
causes s = elim s.ground_truth [ none ↦ s.extra_causes | some g ↦ g ∷ s.extra_causes ]

pub record Score : Type 0 where
  pub root_cause_node : Bool
  pub root_cause_component : Bool
  pub root_cause : Bool
  pub fix_correct : Option Bool
  pub verified : Bool
  pub collateral : List String
  pub collateral_free : Bool
  pub nodes_touched : List String
  pub ops_applied : ℕ
  pub ops_expected : ℕ
  pub minimal : Bool
  pub restored_golden : Option Bool
  pub golden_snapshot_id : Option String
  pub after_snapshot_id : Option String
  pub exported : Bool

into_map : List (String × Bool) → List (String × Bool) → List (String × Bool)
into_map [] d = d
into_map ((rule, ok) ∷ ps) d = into_map ps (put rule ok d)

unfoldable pub probe_map : List (String × Bool) → List (String × Bool)
unfolding into_map
probe_map probes = into_map probes []

token_char : ℕ → Bool
token_char c = is_lower c || (is_digit c || one_of "-" c)

token_from : String → String
unfolding token_char
token_from String.[] = ""
token_from (String.◌∷◌ c s) =
    let rest = token_from s in if token_char (code c) then String.◌∷◌ c rest else ""

-- `_NODE_TOKEN.search`
first_token : String → Option String
unfolding token_from
first_token String.[] = none
first_token (String.◌∷◌ c s) =
    let rest = first_token s in
    if is_lower (code c) then some (String.◌∷◌ c (token_from s)) else rest

differs : Bool → Option Bool → Bool
differs ok none = false
differs true (some b) = not b
differs false (some b) = b

changed_probes : List (String × Bool) → List (String × Bool) → List String
unfolding differs
changed_probes [] after = []
changed_probes ((rule, ok) ∷ golden) after =
    let rest = changed_probes golden after in
    if differs ok (find rule after) then rule ∷ rest else rest

once : List String → List String
once [] = []
once (x ∷ xs) = let rest = once xs in if contains rest x then rest else x ∷ rest

sum : List ℕ → ℕ
sum [] = 0
sum (n ∷ ns) = n + sum ns

has_none : {A : Type 0} → List A → Bool
has_none [] = true
has_none (x ∷ xs) = false

node_ok : String → List GroundTruth → Bool
node_ok node cs = any (λ (c : GroundTruth). node == c.node) cs

component_ok : String → String → List GroundTruth → Bool
component_ok node component cs =
    any (λ (c : GroundTruth). node == c.node && component == c.component) cs

-- The expected nodes are those of the fix; with none, any change is too much.
unfoldable pub is_minimal : List (String × List Op) → List ChangeResult → Bool
unfolding sum has_none
is_minimal [] changes = has_none changes
is_minimal (f ∷ fix) changes =
    not (has_none changes)
    && (all (λ (c : ChangeResult). contains (map (λ (p : String × List Op). p.0) (f ∷ fix)) c.node)
          changes
        && leb (sum (map (λ (c : ChangeResult). size c.ops) changes))
            (sum (map (λ (p : String × List Op). size p.1) (f ∷ fix))))

-- None where one of the ids is missing or empty.
same_id : Option String → Option String → Option Bool
same_id (some a) (some g) = if is_empty a then none else if is_empty g then none else some (a == g)
same_id a g = none

status_in : Option Json → Bool
status_in (some (text s)) = s == "approved" || s == "pending"
status_in j = false

is_exported : Option Fields → Bool
unfolding status_in
is_exported none = false
is_exported (some d) = status_in (get "status" d)

is_verified : Option VerificationReport → Bool
is_verified none = false
is_verified (some r) = r.passed

passed_of : Option VerificationReport → Option Bool
passed_of none = none
passed_of (some r) = some r.passed

snapshot_of : Option VerificationReport → Option String
snapshot_of none = none
snapshot_of (some r) = some r.snapshot_id

module _ (lower : String → String) where
  unfoldable pub node_token : String → String
  unfolding first_token
  node_token s = elim (first_token (lower (strip s))) [ none ↦ strip s | some t ↦ t ]

  -- Whether the node is right, and the node with the component.
  unfoldable pub found_cause : List GroundTruth → Option RootCause → Bool × Bool
  unfolding node_ok component_ok
  found_cause [] none = (true, true)
  found_cause [] (some rc) = (false, false)
  found_cause (c ∷ cs) none = (false, false)
  found_cause (c ∷ cs) (some rc) =
      let node = node_token rc.node in
      (node_ok node (c ∷ cs), component_ok node rc.component (c ∷ cs))

  unfoldable pub score_run :
      Scenario
      → RunOutput
      → List ChangeResult
      → List (String × Bool)
      → List (String × Bool)
      → Option VerificationReport
      → Option String
      → Score
  unfolding changed_probes once sum has_none is_verified passed_of snapshot_of same_id is_exported
  score_run scenario output changes golden_probes after_probes after_verification
        golden_snapshot_id =
      let found = found_cause (causes scenario) output.root_cause in
      let collateral =
        sort le_text (changed_probes (probe_map golden_probes) (probe_map after_probes)) in
      record {
        root_cause_node = found.0;
        root_cause_component = found.1;
        root_cause = found.0 && found.1;
        fix_correct = passed_of after_verification;
        verified = is_verified output.verification;
        collateral = collateral;
        collateral_free = has_none collateral;
        nodes_touched = sort le_text (once (map (λ (c : ChangeResult). c.node) changes));
        ops_applied = sum (map (λ (c : ChangeResult). size c.ops) changes);
        ops_expected = sum (map (λ (p : String × List Op). size p.1) scenario.expected_fix);
        minimal = is_minimal scenario.expected_fix changes;
        restored_golden = same_id (snapshot_of after_verification) golden_snapshot_id;
        golden_snapshot_id = golden_snapshot_id;
        after_snapshot_id = snapshot_of after_verification;
        exported = is_exported output.export;
      }

-- ===== src/NetBench/Reported.antt =====
-- What an agent reports at the end of a run: `extract_report`, `coerce_root_cause` and `_root_cause_from` of
-- packages/netbench/src/netbench/claude_cli.py, with the validation of `RootCause` in
-- packages/nettwin_core/src/nettwin_core/models.py.
use net_twin.Prelude.{
  ℕ, String, ◌<>◌, Bool, not, ◌&&◌, ◌||◌, List, [], ◌∷◌, ◌++◌, Option, none, some, if◌then◌else◌,
}
use Prim.Native.Char.{code}
use net_twin.Prelude.Text.{
  is_empty, is_lower, is_digit, one_of, all_chars, split, splitlines, strip, lstrip, occurs,
  after_prefix, rpartition, drop_while,
}
use net_twin.Prelude.Lists.{all}
use net_twin.Prelude.Dict.{find}
use net_twin.Prelude.Json.{Json, null, text, dict, Fields, get, set, str}
use net_twin.Core.Models.{RootCause, Layer, l2, l3, policy, host}
use net_twin.NetBench.Calls.{Runtime}

-- `_REPORT_RE` at the start of a text: what follows the colon.
report_here : String → Option String
report_here s = elim (after_prefix s "{") [
  | none ↦ none
  | some body ↦ elim (after_prefix (lstrip body) "\"root_cause\"") [
    | none ↦ none
    | some rest ↦ after_prefix (lstrip rest) ":"
  ]
]

-- The text up to its last brace.
to_brace : String → Option String
to_brace s = elim (rpartition "}" s) [ none ↦ none | some (before, after) ↦ some (before <> "}") ]

matched : Option String → String → Option String → Option String
unfolding to_brace
matched none s rest = rest
matched (some tail) s rest = elim (rpartition "}" tail) [ none ↦ rest | some p ↦ to_brace s ]

-- `_REPORT_RE.search`, whose match ends with the last brace
unfoldable pub search_report : String → Option String
unfolding report_here matched
search_report String.[] = none
search_report (String.◌∷◌ c s) =
    matched (report_here (String.◌∷◌ c s)) (String.◌∷◌ c s) (search_report s)

drop_ticks : String → String
drop_ticks String.[] = ""
drop_ticks (String.◌∷◌ c s) =
    let rest = drop_ticks s in
    if one_of "`" (code c) && is_empty rest then "" else String.◌∷◌ c rest

-- `line.strip().strip("`")`
candidate_of : String → String
unfolding drop_ticks
candidate_of line = drop_while (one_of "`") (drop_ticks (strip line))

is_component_char : ℕ → Bool
is_component_char c = is_lower c || is_digit c || one_of "_" c

-- `COMPONENT_PATTERN`
unfoldable pub is_component : String → Bool
unfolding is_component_char
is_component s =
    all (λ part. not (is_empty part) && all_chars is_component_char part) (split b'.' s)

unfoldable pub layer_of : String → Option Layer
layer_of s = find s (("L2", l2) ∷ ("L3", l3) ∷ ("policy", policy) ∷ ("host", host) ∷ [])

text_in : String → Fields → Option String
text_in key d = elim (get key d) [ none ↦ none | some j ↦ text_of j ]
  where
    text_of : Json → Option String
    text_of (text s) = some s
    text_of j = none

layer_in : Option String → Option Layer
layer_in none = none
layer_in (some s) = layer_of s

with_summary : Option String → Option Layer → Option String → Option String → Option RootCause
with_summary (some node) (some layer) (some component) (some summary) =
    if is_component component
    then some (record { node = node; layer = layer; component = component; summary = summary })
    else none
with_summary n l c s = none

-- `RootCause.model_validate`
unfoldable pub root_cause_of : Fields → Option RootCause
unfolding text_in layer_in with_summary
root_cause_of d =
    with_summary (text_in "node" d) (layer_in (text_in "layer" d)) (text_in "component" d)
      (text_in "summary" d)

-- `_LAYER_ALIASES`
abbrev layer_aliases : List (String × String)
layer_aliases =
    ("l2", "L2")
    ∷ ("link", "L2")
    ∷ ("vlan", "L2")
    ∷ ("physical", "L2")
    ∷ ("l3", "L3")
    ∷ ("routing", "L3")
    ∷ ("ospf", "L3")
    ∷ ("bgp", "L3")
    ∷ ("ip", "L3")
    ∷ ("policy", "policy")
    ∷ ("nft", "policy")
    ∷ ("acl", "policy")
    ∷ ("nat", "policy")
    ∷ ("firewall", "policy")
    ∷ ("host", "host")
    ∷ []

unfoldable pub alias_of : String → String
alias_of name = elim (find name layer_aliases) [ none ↦ "host" | some l ↦ l ]

module _ (python : Runtime) where
  read_dict : String → Option Fields
  read_dict s = elim (python.loads s) [ none ↦ none | some j ↦ fields_of j ]
    where
      fields_of : Json → Option Fields
      fields_of (dict d) = some d
      fields_of j = none

  -- What one line reports.
  unfoldable pub report_in : String → Option Fields
  unfolding candidate_of search_report read_dict
  report_in line =
      if occurs "\"root_cause\"" (candidate_of line)
      then elim (search_report (candidate_of line)) [ none ↦ none | some s ↦ read_dict s ]
      else none

  last_report : List String → Option Fields → Option Fields
  unfolding report_in
  last_report [] best = best
  last_report (line ∷ lines) best =
      last_report lines (elim (report_in line) [ none ↦ best | some d ↦ some d ])

  -- `extract_report`
  unfoldable pub extract_report : String → Option Fields
  unfolding last_report
  extract_report s = last_report (splitlines s) none

  -- `str(candidate.get("layer", "")).strip().lower()`
  named_layer : Fields → String
  named_layer d =
      python.lower (strip (elim (get "layer" d) [ none ↦ "" | some j ↦ str python.repr j ]))

  -- `coerce_root_cause`
  unfoldable pub coerce_root_cause : Json → Option RootCause
  unfolding root_cause_of alias_of named_layer
  coerce_root_cause (dict d) = elim (root_cause_of d) [
    | some rc ↦ some rc
    | none ↦ root_cause_of (set "layer" (text (alias_of (named_layer d))) d)
  ]
  coerce_root_cause j = none

  first_cause : List Json → Option RootCause
  unfolding coerce_root_cause
  first_cause [] = none
  first_cause (j ∷ js) = elim (coerce_root_cause j) [ some rc ↦ some rc | none ↦ first_cause js ]

  candidate_in : Option Fields → List Json
  candidate_in none = []
  candidate_in (some d) = elim (get "root_cause" d) [ none ↦ null ∷ [] | some j ↦ j ∷ [] ]

  -- `_root_cause_from`
  unfoldable pub root_cause_from : Option Fields → Option Fields → Option RootCause
  unfolding first_cause candidate_in
  root_cause_from bundle report = first_cause (candidate_in bundle ++ candidate_in report)

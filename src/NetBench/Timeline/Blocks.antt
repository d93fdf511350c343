-- ===== src/NetBench/Timeline/Blocks.antt =====
-- The blocks of a message, as `build_timeline` of packages/netbench/src/netbench/timeline.py reads them. The
-- reading of a time is a parameter. The id of a call is a text: another is refused, and as the id of a
-- result it is that of no call.
use net_twin.Prelude.{
  ℕ, zero, suc, ◌-◌, String, ◌<>◌, Bool, false, not, ◌&&◌, List, [], ◌∷◌, ◌++◌, Option, none, some,
  if◌then◌else◌, ◌==◌, string_eq, leb,
}
use net_twin.Prelude.Text.{startswith, join, replace, size}
use net_twin.Prelude.Int.{ℤ, pos, negsuc}
use net_twin.Prelude.Dict.{find, put}
use net_twin.Prelude.Result.{Result, ok, err, ◌>>=◌}
use net_twin.Prelude.Json.{
  Json, null, text, list, dict, Fields, end, JsonFault, not_text, missing, elements, get, truthy,
  as_dict, or_else, str,
}
use net_twin.NetBench.Calls.{Runtime, field_of}
use net_twin.NetBench.Timeline.{Step}

-- What is known after the events read so far. A pending call is the place of its step.
pub record Building : Type 0 where
  pub agents : List (String × String)
  pub pending : List (String × ℕ)
  pub steps : List Step
  pub start : Option ℕ
  pub last : ℤ
  pub report : Option Fields

unfoldable pub minus : ℕ → ℕ → ℤ
minus a b = if leb b a then pos (a - b) else negsuc (b - a - 1)

-- `name.split("__")[-1]`: what stands behind the last separator, of which `skip` characters are left.
last_part_from : ℕ → String → String → String
last_part_from skip current String.[] = current
last_part_from (suc skip) current (String.◌∷◌ c s) = last_part_from skip current s
last_part_from zero current (String.◌∷◌ c s) =
    let behind = last_part_from 1 "" s in
    let on = last_part_from zero (current <> String.◌∷◌ c "") s in
    if startswith (String.◌∷◌ c s) "__" then behind else on

unfoldable pub last_part : String → String
unfolding last_part_from
last_part name = last_part_from zero "" name

-- The entry of a key is taken out.
without : String → List (String × ℕ) → List (String × ℕ)
without k [] = []
without k ((l, n) ∷ m) = let rest = without k m in if k == l then rest else (l, n) ∷ rest

change_at : ℕ → (Step → Step) → List Step → List Step
change_at n f [] = []
change_at zero f (s ∷ ss) = f s ∷ ss
change_at (suc n) f (s ∷ ss) = s ∷ change_at n f ss

unfoldable pub type_is : String → Json → Bool
type_is kind j = elim (field_of "type" j) [
  | text s ↦ s == kind
  | null ↦ false
  | Json.flag b ↦ false
  | Json.number n ↦ false
  | list js ↦ false
  | dict d ↦ false
]

-- `block["id"]`
id_of : Fields → Result JsonFault String
id_of block = elim (get "id" block) [ none ↦ err (missing "id") | some j ↦ text_of j ]
  where
    text_of : Json → Result JsonFault String
    text_of (text s) = ok s
    text_of j = err not_text

-- The texts of a content's blocks.
texts_in : List Json → Result JsonFault (List String)
texts_in [] = ok []
texts_in (dict d ∷ js) = do
  t ← elim (get "text" d) [ none ↦ ok "" | some j ↦ text_of j ]
  rest ← texts_in js
  ok (t ∷ rest)
  where
    text_of : Json → Result JsonFault String
    text_of (text s) = ok s
    text_of j = err not_text
texts_in (j ∷ js) = texts_in js

module _ (python : Runtime) (timestamp : String → Result JsonFault ℕ) where
  -- `_ts`
  unfoldable pub time_of : Json → Result JsonFault (Option ℕ)
  time_of (text s) =
      if s == ""
      then ok none
      else elim (timestamp (replace "Z" "+00:00" s)) [ err e ↦ err e | ok n ↦ ok (some n) ]
  time_of j = if truthy j then err not_text else ok none

  loaded : String → Json
  loaded s = elim (python.loads s) [ none ↦ text s | some j ↦ j ]

  -- `_result_value`
  unfoldable pub result_value : Fields → Result JsonFault Json
  unfolding texts_in loaded
  result_value block = elim (field_of "content" (dict block)) [
    | list js ↦ elim (texts_in (elements js)) [ err e ↦ err e | ok ts ↦ ok (loaded (join "" ts)) ]
    | text s ↦ ok (loaded s)
    | null ↦ ok null
    | Json.flag b ↦ ok (Json.flag b)
    | Json.number n ↦ ok (Json.number n)
    | dict d ↦ ok (dict d)
  ]

  named_agent : Json → Result JsonFault String
  named_agent args = do
    d ← as_dict args
    ok (elim (get "subagent_type" d) [ none ↦ "subagent" | some j ↦ str python.repr j ])

  launch : Fields → Json → Building → Result JsonFault Building
  unfolding id_of named_agent
  launch block args b = do
    id ← id_of block
    agent ← named_agent args
    ok (record b { agents = put id agent b.agents })

  launching : String → Fields → Json → Building → Result JsonFault Building
  unfolding launch
  launching name block args b = if name == "Agent" then launch block args b else ok b

  step_of : Building → String → String → Json → Step
  unfolding last_part
  step_of b actor name args = record {
    at = b.last;
    actor = actor;
    tool = last_part name;
    args = args;
    succeeded = none;
    result = null;
    nodes = [];
    count = 1;
  }

  unfoldable pub tool_use : String → Fields → Building → Result JsonFault Building
  unfolding launching step_of id_of
  tool_use actor block b = do
    let name : String = elim (get "name" block) [ none ↦ "" | some j ↦ str python.repr j ]
    let args = or_else (dict end) (get "input" block)
    c ← launching name block args b
    id ← id_of block
    ok (record c {
      pending = put id (size c.steps) c.pending;
      steps = c.steps ++ (step_of c actor name args ∷ []);
    })

  place_of : Json → Building → Option ℕ
  place_of (text id) b = find id b.pending
  place_of j b = none

  forget : Json → Building → Building
  unfolding without
  forget (text id) b = record b { pending = without id b.pending }
  forget j b = b

  settled : Fields → Json → Building → ℕ → Building
  unfolding change_at
  settled block value b n = record b {
    steps =
        change_at n
          (λ (s : Step). record s {
            succeeded = some (not (truthy (field_of "is_error" (dict block))));
            result = value;
          })
          b.steps;
  }

  unfoldable pub tool_result : Fields → Building → Result JsonFault Building
  unfolding place_of forget settled result_value
  tool_result block b =
      let id = field_of "tool_use_id" (dict block) in
      elim (place_of id b) [
        | none ↦ ok b
        | some n ↦ elim (result_value block) [
          | err e ↦ err e
          | ok value ↦ ok (settled block value (forget id b) n)
        ]
      ]

  unfoldable pub block_in : Json → String → Json → Building → Result JsonFault Building
  unfolding type_is tool_use tool_result
  block_in event actor (dict block) b =
      if type_is "assistant" event && type_is "tool_use" (dict block)
      then tool_use actor block b
      else if type_is "user" event && type_is "tool_result" (dict block)
      then tool_result block b
      else ok b
  block_in event actor j b = ok b

  unfoldable pub blocks_in : Json → String → List Json → Building → Result JsonFault Building
  unfolding block_in
  blocks_in event actor [] b = ok b
  blocks_in event actor (j ∷ js) b = do c ← block_in event actor j b; blocks_in event actor js c

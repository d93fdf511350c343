-- ===== src/NetBench/Calls.antt =====
-- The calls that a model writes, and the results that it reads: `truncate`, `format_result`,
-- `parse_call` and `text_tool_calls` of packages/netbench/src/netbench/local_agent.py.
use net_twin.Prelude.{
  ℕ, ◌-◌, String, ◌<>◌, Bool, true, false, List, [], ◌∷◌, Option, none, some, if◌then◌else◌, leb,
}
use net_twin.Prelude.Text.{
  length, is_empty, is_alpha, after_prefix, rpartition, lstrip, rstrip, strip, first_chars,
  drop_while,
}
use net_twin.Prelude.Decimal.{show}
use net_twin.Prelude.Json.{
  Json, null, text, list, dict, Fields, end, field, get, elements, or_else, str,
}
use net_twin.NetBench.Clients.{CallResult}

-- What the source uses of Python's own library.
pub record Runtime : Type 0 where
  pub repr : String → String
  pub loads : String → Option Json
  pub dumps : Json → String
  pub lower : String → String

unfoldable pub truncate : String → ℕ → String
truncate s cap =
    if leb (length s) cap
    then s
    else first_chars cap s <> ("\n... [truncated " <> (show (length s - cap) <> " chars]"))

or_text : String → String → String
or_text s default = if is_empty s then default else s

unfoldable pub is_dict : Json → Bool
is_dict (dict fs) = true
is_dict j = false

-- `call.get(key)` of a value that may be no dict
unfoldable pub field_of : String → Json → Json
field_of key (dict fs) = elim (get key fs) [ none ↦ null | some j ↦ j ]
field_of key j = null

-- The body of a fenced block: `re.sub(r"^```[a-zA-Z]*\s*|\s*```$", "", body)` of a stripped text that starts with a fence.
unfence : String → String
unfence rest =
    let body = lstrip (drop_while is_alpha rest) in
    elim (rpartition "```" body) [
      | none ↦ body
      | some (before, after) ↦ if is_empty after then rstrip before else body
    ]

unfenced : String → String
unfolding unfence
unfenced body = elim (after_prefix body "```") [ none ↦ body | some rest ↦ unfence rest ]

or_dict : Json → Json
or_dict null = dict end
or_dict j = j

-- `function.get("arguments", function.get("parameters", {}))`
arguments_of : Fields → Json
arguments_of fs = elim (get "arguments" fs) [
  | some j ↦ j
  | none ↦ elim (get "parameters" fs) [ some j ↦ j | none ↦ dict end ]
]

unfoldable pub call_of : String → Json → Json
call_of name args =
    dict (field "function" (dict (field "name" (text name) (field "arguments" args end))) end)

named_call : Fields → Option Json → Option Json
unfolding or_dict arguments_of call_of
named_call function (some (text name)) =
    if is_empty name then none else some (call_of name (or_dict (arguments_of function)))
named_call function j = none

function_in : Fields → Option Json → Fields
function_in item (some (dict fs)) = fs
function_in item j = item

-- One item as a call: none where the source gives up.
item_call : Json → Option Json
unfolding named_call function_in
item_call (dict item) =
    let function = function_in item (get "function" item) in
    named_call function (get "name" function)
item_call j = none

item_calls : List Json → Option (List Json)
unfolding item_call
item_calls [] = some []
item_calls (j ∷ js) = elim (item_call j) [
  | none ↦ none
  | some c ↦ elim (item_calls js) [ none ↦ none | some cs ↦ some (c ∷ cs) ]
]

items_of : Json → List Json
items_of (list js) = elements js
items_of j = j ∷ []

module _ (python : Runtime) where
  text_of : Option Fields → String
  text_of none = ""
  text_of (some d) = python.dumps (dict d)

  unfoldable pub format_result : CallResult → String
  unfolding text_of or_text
  format_result c =
      let s = or_text c.text (text_of c.value) in
      if c.ok then or_text s "(no output)" else "error: " <> or_text s "tool call failed"

  parsed : String → Json
  parsed s = elim (python.loads s) [ none ↦ text s | some j ↦ j ]

  read_arguments : Json → Json
  unfolding or_dict parsed
  read_arguments (text s) = if is_empty (strip s) then dict end else or_dict (parsed s)
  read_arguments j = or_dict j

  -- The name, empty for what is no call, and the arguments.
  unfoldable pub parse_call : Json → String × Json
  unfolding field_of read_arguments
  parse_call call = elim (field_of "function" call) [
    | dict function ↦ (
      str python.repr (or_else (text "") (get "name" function)),
      read_arguments (field_of "arguments" (dict function)),
    )
    | null ↦ ("", null)
    | Json.flag b ↦ ("", null)
    | Json.number n ↦ ("", null)
    | text s ↦ ("", null)
    | list js ↦ ("", null)
  ]

  calls_read : Option Json → List Json
  unfolding item_calls items_of
  calls_read none = []
  calls_read (some j) = elim (item_calls (items_of j)) [ none ↦ [] | some cs ↦ cs ]

  unfoldable pub text_tool_calls : String → List Json
  unfolding unfenced calls_read
  text_tool_calls s = calls_read (python.loads (unfenced (strip s)))

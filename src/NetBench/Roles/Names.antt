-- ===== src/NetBench/Roles/Names.antt =====
-- The names under which the servers' tools are offered, read back.
use net_twin.Prelude.{◌≡◌, refl, String, ◌<>◌, none, some, arith}
use text.Mathlib.TextLemmas.{nil-append, cons-append}
use net_twin.Prelude.Text.{after_prefix, partition}
use net_twin.Prelude.Result.{ok}
use net_twin.NetBench.Roles.{mcp_prefix, server_of}

-- `f"{MCP_PREFIX}{client.name}__{tool.name}"`
unfoldable pub tool_name : String → String → String
tool_name server tool = mcp_prefix <> (server <> ("__" <> tool))

pub after_prefix-append : (p s : String) → after_prefix (p <> s) p ≡ some s
unfolding after_prefix
after_prefix-append String.[] s = rw nil-append refl
after_prefix-append (String.◌∷◌ c p) s = rw cons-append (ground (arith, after_prefix-append p s))

partition-append :
    (s t : String)
    → partition "__" (s <> "_") ≡ none
    → partition "__" (s <> ("__" <> t)) ≡ some (s, t)
unfolding partition after_prefix
partition-append String.[] t h = rw (nil-append, cons-append, cons-append, nil-append) refl
partition-append (String.◌∷◌ c String.[]) t h =
    rw (cons-append, nil-append, cons-append, cons-append, nil-append)
      (let h' : partition "__" (String.◌∷◌ c "_") ≡ none = rw (cons-append, nil-append) at h in
        ground arith)
partition-append (String.◌∷◌ c (String.◌∷◌ d s)) t h =
    let h' : partition "__" (String.◌∷◌ c (String.◌∷◌ d (s <> "_"))) ≡ none =
      rw (cons-append, cons-append) at h in
    let rest : partition "__" (String.◌∷◌ d (s <> "_")) ≡ none = ground (arith, h') in
    let step : partition "__" (String.◌∷◌ d (s <> ("__" <> t))) ≡ some (String.◌∷◌ d s, t) =
      rw cons-append at (partition-append (String.◌∷◌ d s) t (rw cons-append rest)) in
    rw (cons-append, cons-append) (ground (arith, step, h'))

-- `split_tool_name` of packages/netbench/src/netbench/claude_cli.py
unfoldable pub split_tool_name : String → String × String
split_tool_name name = elim (after_prefix name mcp_prefix) [
  | none ↦ ("claude", name)
  | some rest ↦ elim (partition "__" rest) [ none ↦ ("claude", name) | some p ↦ p ]
]

-- The name under which a server's tool is offered reads back as that server, and as that server
-- and tool, if the server's name followed by an underscore has no two underscores in a row.
pub server_of-tool_name :
    (server tool : String)
    → partition "__" (server <> "_") ≡ none
    → (server_of (tool_name server tool) ≡ ok server)
      × (split_tool_name (tool_name server tool) ≡ (server, tool))
unfolding tool_name server_of split_tool_name
server_of-tool_name server tool h =
    let prefix : after_prefix (tool_name server tool) "mcp__" ≡ some (server <> ("__" <> tool)) =
      after_prefix-append "mcp__" (server <> ("__" <> tool)) in
    let body : partition "__" (server <> ("__" <> tool)) ≡ some (server, tool) =
      partition-append server tool h in
    (ground (arith, prefix, body), ground (arith, prefix, body))

-- ===== src/NetBench/Roles.antt =====
-- The role files of packages/netbench/src/netbench/roles.py. A file is its stem and its text, and
-- what `yaml.safe_load` gives is a parameter.
pub mod Names
use net_twin.Prelude.{
  ℕ, String, ◌<>◌, Bool, true, false, not, List, [], ◌∷◌, map, Option, none, some, if◌then◌else◌,
  ◌==◌, string_eq,
}
use net_twin.Prelude.Text.{startswith, after_prefix, partition, lstrip, strip, split, is_empty}
use net_twin.Prelude.Dict.{put}
use net_twin.Prelude.Lists.{filter}
use net_twin.Prelude.Result.{Result, ok, err, ◌>>=◌}
use net_twin.Prelude.Json.{
  Json, null, text, dict, Fields, end, JsonFault, get, or_else, iterated, int_of, str,
}

abbrev pub mcp_prefix : String
mcp_prefix = "mcp__"

pub record Role : Type 0 where
  pub name : String
  pub description : String
  pub model : String
  pub tools : List String
  pub disallowed_tools : List String
  pub mcp_servers : List String
  pub max_turns : Option ℕ
  pub body : String

pub record SkillInfo : Type 0 where
  pub name : String
  pub description : String
  pub body : String

pub data RoleFault : Type 0 where
  not_mcp no_tool_part : String → RoleFault
  no_frontmatter unclosed not_mapping : RoleFault
  bad_yaml : String → RoleFault
  bad_shape : JsonFault → RoleFault

unfoldable pub mcp_tools : Role → List String
mcp_tools r = filter (λ t. startswith t mcp_prefix) r.tools

unfoldable pub builtin_tools : Role → List String
builtin_tools r = filter (λ t. not (startswith t mcp_prefix)) r.tools

server_part : String → Option (String × String) → Result RoleFault String
server_part tool none = err (no_tool_part tool)
server_part tool (some (server, rest)) = ok server

unfoldable pub server_of : String → Result RoleFault String
unfolding server_part
server_of tool = elim (after_prefix tool mcp_prefix) [
  | none ↦ err (not_mcp tool)
  | some rest ↦ server_part tool (partition "__" rest)
]

all_ok : {A : Type 0} → List (Result RoleFault A) → Result RoleFault (List A)
all_ok [] = ok []
all_ok (r ∷ rs) = do a ← r; rest ← all_ok rs; ok (a ∷ rest)

-- `Role.servers`, a set that is only asked for its members
unfoldable pub servers : Role → Result RoleFault (List String)
unfolding all_ok mcp_tools
servers r = all_ok (map server_of (mcp_tools r))

shaped : {A : Type 0} → Result JsonFault A → Result RoleFault A
shaped (ok a) = ok a
shaped (err e) = err (bad_shape e)

kept : List String → List String
kept ws = filter (λ w. not (is_empty w)) (map strip ws)

module _ (repr : String → String) (yaml_load : String → Result String Json) where
  mapping : String → Result String Json → Result RoleFault (Fields × String)
  mapping body (err e) = err (bad_yaml e)
  mapping body (ok j) = elim (or_else (dict end) (some j)) [
    | dict fs ↦ ok (fs, lstrip body)
    | null ↦ err not_mapping
    | Json.flag b ↦ err not_mapping
    | Json.number n ↦ err not_mapping
    | text s ↦ err not_mapping
    | Json.list js ↦ err not_mapping
  ]

  parts : Option (String × String) → Result RoleFault (Fields × String)
  unfolding mapping
  parts none = err unclosed
  parts (some (meta, body)) = mapping body (yaml_load meta)

  unfoldable pub split_frontmatter : String → Result RoleFault (Fields × String)
  unfolding parts
  split_frontmatter content = elim (after_prefix content "---") [
    | none ↦ err no_frontmatter
    | some rest ↦ parts (partition "---" rest)
  ]

  unfoldable pub as_list : Option Json → Result JsonFault (List String)
  unfolding kept
  as_list none = ok []
  as_list (some null) = ok []
  as_list (some (text s)) = ok (kept (split b',' s))
  as_list (some j) = do js ← iterated j; ok (kept (map (str repr) js))

  -- `str(meta.get(key, default))`
  text_at : String → String → Fields → String
  text_at key default fs = elim (get key fs) [ none ↦ default | some j ↦ str repr j ]

  turns_of : Option Json → Result JsonFault (Option ℕ)
  turns_of none = ok none
  turns_of (some null) = ok none
  turns_of (some j) = do n ← int_of j; ok (some n)

  role_of : String → Fields × String → Result RoleFault Role
  unfolding shaped text_at turns_of as_list
  role_of stem (meta, body) = do
    tools ← shaped (as_list (get "tools" meta))
    disallowed ← shaped (as_list (get "disallowedTools" meta))
    servers_named ← shaped (as_list (get "mcpServers" meta))
    turns ← shaped (turns_of (get "maxTurns" meta))
    ok (record {
      name = str repr (or_else (text stem) (get "name" meta));
      description = text_at "description" "" meta;
      model = text_at "model" "inherit" meta;
      tools = tools;
      disallowed_tools = disallowed;
      mcp_servers = servers_named;
      max_turns = turns;
      body = body;
    })

  -- The stem and the text of one file.
  unfoldable pub parse_role : String × String → Result RoleFault Role
  unfolding split_frontmatter role_of
  parse_role (stem, content) = do p ← split_frontmatter content; role_of stem p

  by_name : List Role → List (String × Role) → List (String × Role)
  by_name [] d = d
  by_name (r ∷ rs) d = by_name rs (put r.name r d)

  -- The files of the directory, in order.
  unfoldable pub load_roles : List (String × String) → Result RoleFault (List (String × Role))
  unfolding all_ok parse_role by_name
  load_roles files = do roles ← all_ok (map parse_role files); ok (by_name roles [])

  skill_of : String → Fields × String → SkillInfo
  unfolding text_at
  skill_of folder (meta, body) = record {
    name = str repr (or_else (text folder) (get "name" meta));
    description = text_at "description" "" meta;
    body = body;
  }

  unfoldable pub parse_skill : String × String → Result RoleFault SkillInfo
  unfolding split_frontmatter skill_of
  parse_skill (folder, content) = do p ← split_frontmatter content; ok (skill_of folder p)

-- ===== src/Core/Snapshot/State.antt =====
-- `NodeState` of packages/nettwin_core/src/nettwin_core/models.py, and what snapshot.py of the same
-- package reads in it. A set is a list without repetition.
use net_twin.Prelude.{
  ℕ, String, ◌<>◌, Bool, true, false, List, [], ◌∷◌, Option, none, some, ◌==◌, string_eq,
  if◌then◌else◌,
}
use net_twin.Prelude.Dict.{put}
use net_twin.Prelude.Sort.{le_text, sort}
use net_twin.Prelude.Result.{Result, ok, err, ◌>>=◌}
use net_twin.Prelude.Json.{
  Json, Fields, text, JsonFault, missing, get, as_dict, int_of, str, dict_or_empty,
}
use net_twin.Core.Snapshot.Normal.{ifname, str_get, list_at}

pub record NodeState : Type 0 where
  pub running_config : String
  pub addrs : Option (List Fields)
  pub links : Option (List Fields)
  pub routes : Option (List Fields)
  pub bridge_vlans : Option (List Fields)
  pub nft : String

abbrev pub empty_state : NodeState
empty_state = record {
  running_config = "";
  addrs = none;
  links = none;
  routes = none;
  bridge_vlans = none;
  nft = "";
}

-- `xs or []`
unfoldable pub or_empty : Option (List Fields) → List Fields
or_empty none = []
or_empty (some es) = es

abbrev pub Reads : Type 0 → Type 0
Reads A = Result JsonFault A

-- `d[key]`
unfoldable pub at : String → Fields → Reads Json
at key fs = elim (get key fs) [ none ↦ err (missing key) | some j ↦ ok j ]

-- Whether the text under a key is the given one.
unfoldable pub is_text : String → Option Json → Bool
is_text s (some (text t)) = s == t
is_text s _ = false

module _ (repr : String → String) where
  -- A loop that fills a dict: each entry puts under its name what a function gives for it, if that
  -- gives anything.
  unfoldable pub fill :
      {A : Type 0}
      → (Fields → Reads (Option A))
      → List (String × A)
      → List Fields
      → Reads (List (String × A))
  unfolding ifname
  fill f m [] = ok m
  fill f m (e ∷ es) = do
    found ← f e
    fill f (elim found [ none ↦ m | some a ↦ put (ifname repr e) a m ]) es

  -- `int(data.get("id", 0))`
  id_of : Fields → Reads ℕ
  id_of data' = elim (get "id" data') [ none ↦ ok 0 | some j ↦ int_of j ]

  vlan_of : Fields → Reads (Option (String × ℕ))
  unfolding id_of
  vlan_of e = do
    info ← dict_or_empty (get "linkinfo" e)
    elim (is_text "vlan" (get "info_kind" info)) [
      | false ↦ ok none
      | true ↦ do
        data' ← dict_or_empty (get "info_data" info)
        id ← id_of data'
        ok (some (str_get repr "link" "" e, id))
    ]

  unfoldable pub vlan_links : NodeState → Reads (List (String × (String × ℕ)))
  unfolding fill vlan_of
  vlan_links s = fill vlan_of [] (or_empty s.links)

  bridge_of : Fields → Reads (Option (Unit {0}))
  bridge_of e = do
    info ← dict_or_empty (get "linkinfo" e)
    ok (if is_text "bridge" (get "info_kind" info) then some tt else none)

  -- A set, as the keys of a dict.
  unfoldable pub bridge_devices : NodeState → Reads (List (String × Unit {0}))
  unfolding fill bridge_of
  bridge_devices s = fill bridge_of [] (or_empty s.links)

  mtu_of : Fields → Reads (Option ℕ)
  mtu_of e = elim (get "mtu" e) [ none ↦ ok none | some j ↦ do mtu ← int_of j; ok (some mtu) ]

  unfoldable pub mtus : NodeState → Reads (List (String × ℕ))
  unfolding fill mtu_of
  mtus s = fill mtu_of [] (or_empty s.links)

  -- The `local/prefixlen` of the dicts whose scope is global.
  globals : List Json → Reads (List String)
  globals [] = ok []
  globals (j ∷ js) = do
    i ← as_dict j
    elim (is_text "global" (get "scope" i)) [
      | false ↦ globals js
      | true ↦ do
        local' ← at "local" i
        prefixlen ← at "prefixlen" i
        rest ← globals js
        ok ((str repr local' <> ("/" <> str repr prefixlen)) ∷ rest)
    ]

  addresses_of : Fields → Reads (Option (List String))
  unfolding globals list_at
  addresses_of e = do
    raw ← list_at repr "addr_info" e
    found ← globals raw
    ok (some (sort le_text found))

  unfoldable pub addresses : NodeState → Reads (List (String × List String))
  unfolding fill addresses_of
  addresses s = fill addresses_of [] (or_empty s.addrs)

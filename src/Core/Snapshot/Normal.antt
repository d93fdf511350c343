-- ===== src/Core/Snapshot/Normal.antt =====
-- The normal forms of packages/nettwin_core/src/nettwin_core/snapshot.py. What a loop runs over is a
-- list of dicts, as the types of the source say.
use net_twin.Prelude.{
  String, Bool, true, false, not, ◌&&◌, ◌||◌, List, [], ◌∷◌, Option, none, some, map, ◌==◌,
  string_eq, contains, if◌then◌else◌,
}
use net_twin.Prelude.Text.{
  splitlines, startswith, after_prefix, endswith, chomp, rstrip, join, is_empty, match_class,
  is_digit, any_char, between,
}
use net_twin.Prelude.Sort.{le_text, sort}
use net_twin.Prelude.Result.{Result, ok, ◌>>=◌}
use net_twin.Prelude.Json.{
  Json, Items, Fields, null, flag, number, text, list, dict, nil, cons, end, field, JsonFault, get,
  keep_unless, as_list, as_dict, str, repr_of, of_list,
}

-- `MGMT_IFACES`, `_LINK_DROP` and `_ADDR_INFO_DROP`
abbrev pub mgmt_ifaces : List String
mgmt_ifaces = "eth0" ∷ []

abbrev pub link_drop : List String
link_drop =
    "ifindex" ∷ "link_index" ∷ "link_netnsid" ∷ "txqlen" ∷ "qdisc" ∷ "address" ∷ "broadcast"
    ∷ "group" ∷ "promiscuity" ∷ "allmulti" ∷ "min_mtu" ∷ "max_mtu" ∷ "gso_max_size" ∷ "gso_max_segs"
    ∷ "tso_max_size" ∷ "tso_max_segs" ∷ "gro_max_size" ∷ "gso_ipv4_max_size" ∷ "gro_ipv4_max_size"
    ∷ "num_tx_queues" ∷ "num_rx_queues" ∷ "inet6_addr_gen_mode" ∷ "parentbus" ∷ "parentdev" ∷ []

abbrev pub addr_info_drop : List String
addr_info_drop = "valid_life_time" ∷ "preferred_life_time" ∷ "dynamic" ∷ "temporary" ∷ []

-- `_CONFIG_HEADER_RE.match`
unfoldable pub is_config_header : String → Bool
is_config_header l =
    startswith l "Building configuration"
    || startswith l "Current configuration"
    || startswith l "frr version"

config_lines : List String → List String
config_lines [] = []
config_lines (l ∷ ls) =
    let rest = config_lines ls in if is_config_header l then rest else rstrip l ∷ rest

-- The two `while` loops that pop empty lines.
pop_first : List String → List String
pop_first [] = []
pop_first (l ∷ ls) = let rest = pop_first ls in if is_empty l then rest else l ∷ ls

is_nil : List String → Bool
is_nil [] = true
is_nil (l ∷ ls) = false

pop_last : List String → List String
unfolding is_nil
pop_last [] = []
pop_last (l ∷ ls) = let rest = pop_last ls in if is_empty l && is_nil rest then [] else l ∷ rest

unfoldable pub normalise_running_config : String → String
unfolding config_lines pop_first pop_last is_config_header
normalise_running_config s = join "\n" (pop_last (pop_first (config_lines (splitlines s))))

-- `_VOLATILE_LINKINFO_RE.match`: a `.` is no newline, and a `$` also stands before a last one.
unfoldable pub is_volatile : String → Bool
is_volatile key =
    let k = chomp key in
    not (any_char (between 10 10) k)
    && (endswith k "_timer"
        || startswith k "topology_change"
        || startswith k "designated_"
        || startswith k "mcast_"
        || startswith k "multicast_"
        || contains
            ("root_id" ∷ "bridge_id" ∷ "root_port" ∷ "root_path_cost" ∷ "state" ∷ "no" ∷ "port_no"
              ∷ "port_id" ∷ "config_pending" ∷ [])
            k)

-- `_scrub_linkinfo`
unfoldable mutual
  unfolding is_volatile

  pub scrub_linkinfo : Json → Json
  scrub_linkinfo (dict fs) = dict (scrub_fields fs)
  scrub_linkinfo (list js) = list (scrub_items js)
  scrub_linkinfo null = null
  scrub_linkinfo (flag b) = flag b
  scrub_linkinfo (number n) = number n
  scrub_linkinfo (text s) = text s

  pub scrub_fields : Fields → Fields
  scrub_fields end = end
  scrub_fields (field k j fs) =
      let v = scrub_linkinfo j in
      let rest = scrub_fields fs in if is_volatile k then rest else field k v rest

  pub scrub_items : Items → Items
  scrub_items nil = nil
  scrub_items (cons j js) = cons (scrub_linkinfo j) (scrub_items js)

-- `_PEER_LINK_RE.match`
unfoldable pub is_peer_link : String → Bool
is_peer_link s = elim (after_prefix s "if") [ none ↦ false | some rest ↦ match_class is_digit rest ]

module _ (repr : String → String) where
  -- `str(d.get(key, default))`
  unfoldable pub str_get : String → String → Fields → String
  str_get key default fs = elim (get key fs) [ none ↦ default | some j ↦ str repr j ]

  -- `_ifname`
  unfoldable pub ifname : Fields → String
  unfolding str_get
  ifname = str_get "ifname" ""

  unfoldable pub by_name : Fields → Fields → Bool
  unfolding ifname
  by_name a b = le_text (ifname a) (ifname b)

  -- `del cleaned["link"]`, if it is the name of a peer
  without_peer : Fields → Fields
  unfolding is_peer_link
  without_peer fs = elim (get "link" fs) [
    | some (text s) ↦ if is_peer_link s then keep_unless (λ k. k == "link") fs else fs
    | some _ ↦ fs
    | none ↦ fs
  ]

  -- `cleaned["linkinfo"] = _scrub_linkinfo(cleaned["linkinfo"])`, in its place
  scrub_link : Fields → Fields
  unfolding scrub_linkinfo
  scrub_link end = end
  scrub_link (field k j fs) =
      let v = scrub_linkinfo j in
      let rest = scrub_link fs in if k == "linkinfo" then field k v fs else field k j rest

  unfoldable pub clean_link : Fields → Fields
  unfolding without_peer scrub_link
  clean_link fs = scrub_link (without_peer (keep_unless (contains link_drop) fs))

  -- The entries that are not of the management interface.
  unfoldable pub managed : List Fields → List Fields
  unfolding ifname
  managed [] = []
  managed (e ∷ es) =
      let rest = managed es in if contains mgmt_ifaces (ifname e) then rest else e ∷ rest

  unfoldable pub normalise_links : List Fields → List Fields
  unfolding clean_link managed by_name
  normalise_links raw = sort by_name (map clean_link (managed raw))

  -- The dicts of the family `inet` under `addr_info`, without what is dropped.
  infos : List Json → Result JsonFault (List Fields)
  infos [] = ok []
  infos (j ∷ js) = do
    info ← as_dict j
    rest ← infos js
    ok (
        if is_inet (get "family" info)
        then keep_unless (contains addr_info_drop) info ∷ rest
        else rest)
    where
      is_inet : Option Json → Bool
      is_inet (some (text s)) = s == "inet"
      is_inet _ = false

  -- `entry.get(key, [])`, over which a loop runs
  unfoldable pub list_at : String → Fields → Result JsonFault (List Json)
  list_at key fs = elim (get key fs) [ none ↦ ok [] | some j ↦ as_list j ]

  unfoldable pub by_repr : Fields → Fields → Bool
  by_repr a b = le_text (repr_of repr (dict a)) (repr_of repr (dict b))

  unfoldable pub clean_addr : Fields → Result JsonFault Fields
  unfolding list_at infos by_repr ifname
  clean_addr e = do
    raw ← list_at "addr_info" e
    inet ← infos raw
    ok (
        field "ifname" (text (ifname e))
          (field "addr_info" (list (of_list (map dict (sort by_repr inet)))) end))

  -- A loop that stops at the first that raises.
  unfoldable pub each :
      (Fields → Result JsonFault Fields) → List Fields → Result JsonFault (List Fields)
  each f [] = ok []
  each f (e ∷ es) = do a ← f e; rest ← each f es; ok (a ∷ rest)

  unfoldable pub normalise_addrs : List Fields → Result JsonFault (List Fields)
  unfolding clean_addr each managed by_name
  normalise_addrs raw = do out ← each clean_addr (managed raw); ok (sort by_name out)

  on_mgmt : Fields → Bool
  on_mgmt fs = elim (get "dev" fs) [
    | some (text s) ↦ contains mgmt_ifaces s
    | some _ ↦ false
    | none ↦ false
  ]

  -- The routes that do not leave by the management interface.
  unfoldable pub routed : List Fields → List Fields
  unfolding on_mgmt
  routed [] = []
  routed (e ∷ es) = let rest = routed es in if on_mgmt e then rest else e ∷ rest

  -- `a <= b` on tuples of texts
  le_texts : List String → List String → Bool
  le_texts [] bs = true
  le_texts (a ∷ as') [] = false
  le_texts (a ∷ as') (b ∷ bs) = let rest = le_texts as' bs in if a == b then rest else le_text a b

  route_order : Fields → List String
  unfolding str_get
  route_order r = str_get "dst" "None" r ∷ str_get "gateway" "" r ∷ str_get "dev" "" r ∷ []

  unfoldable pub by_route : Fields → Fields → Bool
  unfolding le_texts route_order
  by_route a b = le_texts (route_order a) (route_order b)

  unfoldable pub normalise_routes : List Fields → List Fields
  unfolding routed by_route
  normalise_routes raw = sort by_route (map (keep_unless (λ k. k == "nhid")) (routed raw))

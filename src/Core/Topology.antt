-- ===== src/Core/Topology.antt =====
-- packages/nettwin_core/src/nettwin_core/topology.py: the graph of the lab and its static checks.
-- A dict is a list of pairs in insertion order, a set a list without repetition. A link is known
-- by its index where the source compares it by `is`.
pub mod Graph
pub mod Offer
pub mod Connected
pub mod Partitions
use net_twin.Prelude.{
  ℕ, zero, suc, ◌+◌, String, ◌<>◌, Bool, true, false, not, ◌&&◌, ◌||◌, List, [], ◌∷◌, ◌++◌, Option,
  none, some, map, ◌==◌, contains, string_eq, nat_eq, option_eq, if◌then◌else◌,
}
use net_twin.Prelude.Text.{size, join}

pub record Node : Type 0 where
  pub name : String
  pub kind : String
  pub image : Option String
  pub role : String

pub record Link : Type 0 where
  pub a_node : String
  pub a_iface : String
  pub b_node : String
  pub b_iface : String

unfoldable pub touches : Link → String → Bool
touches l node = contains (l.a_node ∷ l.b_node ∷ []) node

unfoldable pub other : Link → String → Option String
other l node =
    if node == l.a_node then some l.b_node else if node == l.b_node then some l.a_node else none

unfoldable pub label : Link → String
label l = l.a_node <> (":" <> (l.a_iface <> ("<->" <> (l.b_node <> (":" <> l.b_iface)))))

pub record Topology : Type 0 where
  pub name : String
  pub nodes : List (String × Node)
  pub links : List Link

-- `s.add(x)`, and where there is something to add
unfoldable pub add : String → List String → List String
add x s = if contains s x then s else x ∷ s

abbrev pub add? : Option String → List String → List String
add? none s = s
add? (some x) s = add x s

-- The neighbours over the links from index `i` on.
unfoldable pub neighbors_from : ℕ → List Link → String → Option ℕ → List String
neighbors_from i [] node without = []
neighbors_from i (l ∷ links) node without =
    let rest = neighbors_from (suc i) links node without in
    if without == some i then rest else add? (other l node) rest

abbrev pub neighbors : Topology → String → Option ℕ → List String
neighbors t node without = neighbors_from 0 t.links node without

-- `seen` and `queue` of the search.
pub record Search : Type 0 where
  pub seen : List String
  pub queue : List String

-- The body of the loop over the neighbours: what is new goes to the end of the queue.
unfoldable pub offer : Search → String → Search
offer s nxt =
    if contains s.seen nxt then s else record { seen = nxt ∷ s.seen; queue = s.queue ++ nxt ∷ [] }

unfoldable pub offer_all : Search → List String → Search
offer_all s [] = s
offer_all s (x ∷ xs) = offer_all (offer s x) xs

module _ (t : Topology) (without : Option ℕ) where
  -- The `while queue` loop, with fuel.
  unfoldable pub search : ℕ → Search → Search
  search zero s = s
  search (suc fuel) s = elim s.queue [
    | [] ↦ s
    | current ∷ rest ↦
        search fuel (offer_all (record s { queue = rest }) (neighbors t current without))
  ]

-- Each end of a link joins the queue once at most.
abbrev pub enough : Topology → ℕ
enough t = size t.links + size t.links + 2

unfoldable pub subset : List String → List String → Bool
subset [] s = true
subset (x ∷ xs) s = contains s x && subset xs s

-- The start is the first wanted node: which one a set gives first is not determined.
unfoldable pub is_connected : Topology → List String → Option ℕ → Bool
unfolding subset
is_connected t [] without = true
is_connected t (start ∷ nodes) without =
    let found = search t without (enough t) (record { seen = start ∷ []; queue = start ∷ [] }) in
    subset (start ∷ nodes) found.seen

-- The links from index `i` on whose failure disconnects the nodes, with their indices.
unfoldable pub partitions_from : Topology → List String → ℕ → List Link → List (ℕ × Link)
partitions_from t nodes i [] = []
partitions_from t nodes i (l ∷ links) =
    let rest = partitions_from t nodes (suc i) links in
    if is_connected t nodes (some i) then rest else (i, l) ∷ rest

unfoldable pub single_link_partitions : Topology → List String → List (ℕ × Link)
unfolding partitions_from
single_link_partitions t nodes = partitions_from t nodes 0 t.links

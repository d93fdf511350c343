-- ===== src/Core/Topology/Partitions.antt =====
-- Which links `single_link_partitions` returns.
use net_twin.Prelude.{
  ℕ, zero, suc, ◌+◌, ◌<◌, ◌≡◌, ◌↔◌, refl, inl, inr, String, List, [], ◌∷◌, Option, none, some, ◌==◌,
  nat_eq, if◌then◌else◌, arith, Bool-cases,
}
use native.Mathlib.Nat.{add-zero}
use net_twin.Prelude.Lists.{get_elem?}
use net_twin.Core.Topology.{Topology, Link, is_connected, partitions_from, single_link_partitions}
use net_twin.Core.Topology.Connected.{AllJoined, is_connected_iff}

-- The link that is returned under an index.
abbrev pub at_index : ℕ → List (ℕ × Link) → Option Link
at_index k [] = none
at_index k ((j, l) ∷ r) = if k == j then some l else at_index k r

module _ (t : Topology) (nodes : List String) where
  at_index_below :
      (i k : ℕ) (links : List Link) → k < i → at_index k (partitions_from t nodes i links) ≡ none
  unfolding partitions_from
  at_index_below i k [] h = refl
  at_index_below i k (l ∷ links) h = ground (arith, at_index_below (suc i) k links)

  at_index-partitions_from :
      (i k : ℕ) (links : List Link)
      → at_index (i + k) (partitions_from t nodes i links)
        ≡ (if is_connected t nodes (some (i + k)) then none else get_elem? links k)
  unfolding partitions_from
  at_index-partitions_from i k [] = ground arith
  at_index-partitions_from i zero (l ∷ links) =
      rw add-zero (ground (arith, at_index_below (suc i) i links))
  at_index-partitions_from i (suc k) (l ∷ links) =
      let e : suc i + k ≡ i + suc k = omega arith in
      ground (arith, e, (rw e at (at_index-partitions_from (suc i) k links)))

  -- A link of the topology is among those returned exactly if without it some two of the nodes are
  -- joined by no walk.
  pub single_link_partitions_iff :
      (k : ℕ) (l : Link)
      → get_elem? t.links k ≡ some l
      → (at_index k (single_link_partitions t nodes) ≡ some l) ↔ (¬ AllJoined t (some k) nodes)
  unfolding single_link_partitions
  single_link_partitions_iff k l at =
      let e : 0 + k ≡ k = omega arith in
      let p = rw e at (at_index-partitions_from 0 k t.links) in
      (
        λ h joined. ground (arith, p, (is_connected_iff t (some k) nodes).1 joined),
        λ apart. elim (Bool-cases (is_connected t nodes (some k))) [
          | inl c ↦ absurd (apart ((is_connected_iff t (some k) nodes).0 c))
          | inr c ↦ ground (arith, p)
        ],
      )

-- ===== src/Core/Topology/Connected.antt =====
-- `is_connected` and walks over the links that are left.
use net_twin.Prelude.{
  ℕ, zero, suc, ◌<◌, ◌≡◌, ◌↔◌, refl, inl, inr, String, true, false, List, [], ◌∷◌, Option, some,
  contains, string_eq, arith, Bool-cases,
}
use net_twin.Core.Topology.{
  Topology, Link, Search, other, offer_all, neighbors, search, enough, subset, is_connected,
}
use net_twin.Core.Topology.Graph.{Joins, neighbors-Joins, neighbors_of_joins}
use net_twin.Core.Topology.Offer.{
  offer_all-seen, offer_all-queue, unseen-le, work, offer_all-work, neighbors-end,
}

-- A walk over links other than the one that fails.
pub data Walk (t : Topology) (without : Option ℕ) (u : String) : String → Type 0 where
  here : Walk t without u u
  step : {v w : String} → Walk t without u v → Joins t.links 0 without v w → Walk t without u w

module _ (t : Topology) (without : Option ℕ) where
  abbrev Near : String → String → Type 0
  Near u v = contains (neighbors t u without) v ≡ true

  -- What holds of the search from `start` at every round.
  record Invariant (start : String) (s : Search) : Type 0 where
    first : contains s.seen start ≡ true
    reached : (x : String) → contains s.seen x ≡ true → Walk t without start x
    queued : (x : String) → contains s.queue x ≡ true → contains s.seen x ≡ true
    closed :
        (x y : String)
        → contains s.seen x ≡ true
        → contains s.queue x ≡ false
        → Near x y
        → contains s.seen y ≡ true

  Invariant-offer_all :
      (start current : String) (seen rest : List String)
      → Invariant start (record { seen = seen; queue = current ∷ rest })
      → Invariant start
          (offer_all (record { seen = seen; queue = rest }) (neighbors t current without))
  Invariant-offer_all start current seen rest i =
      let xs = neighbors t current without in
      let s : Search = record { seen = seen; queue = rest } in
      let seen_at = offer_all-seen s xs in
      let queue_at = offer_all-queue s xs in
      record {
        first = ground (arith, seen_at start, i.first);
        reached = λ x h. elim (Bool-cases (contains seen x)) [
          | inl old ↦ i.reached x old
          | inr new ↦
              step (i.reached current (i.queued current (ground arith)))
                (neighbors-Joins without current t.links 0 x (ground (arith, seen_at x)))
        ];
        queued = λ x h. ground (arith, seen_at x, queue_at x, i.queued x);
        closed = λ x y h k n. ground (arith, seen_at x, seen_at y, queue_at x, i.closed x y);
      }

  -- With enough fuel the queue runs empty, and the invariant holds of what was found.
  search-Invariant :
      (fuel : ℕ) (start : String) (seen queue : List String)
      → work t.links (record { seen = seen; queue = queue }) < fuel
      → Invariant start (record { seen = seen; queue = queue })
      → let r = search t without fuel (record { seen = seen; queue = queue }) in
        Invariant start r × (r.queue ≡ [])
  unfolding search
  search-Invariant zero start seen queue h i = absurd (omega arith)
  search-Invariant (suc fuel) start seen [] h i = (i, refl)
  search-Invariant (suc fuel) start seen (current ∷ rest) h i =
      let s : Search = record { seen = seen; queue = rest } in
      let s' = offer_all s (neighbors t current without) in
      search-Invariant fuel start s'.seen s'.queue
        (omega (
          arith,
          offer_all-work t.links s (neighbors t current without) (neighbors-end t without current),
        ))
        (Invariant-offer_all start current seen rest i)

  Invariant-start :
      (start : String) → Invariant start (record { seen = start ∷ []; queue = start ∷ [] })
  Invariant-start start = record {
    first = ground arith;
    reached = λ x h. let e : x ≡ start = ground arith in rw e here;
    queued = λ x h. ground arith;
    closed = λ x y h k n. ground arith;
  }

  found : String → Search
  found start = search t without (enough t) (record { seen = start ∷ []; queue = start ∷ [] })

  found-Invariant : (start : String) → Invariant start (found start) × ((found start).queue ≡ [])
  unfolding found
  found-Invariant start =
      search-Invariant (enough t) start _ _ (omega (arith, unseen-le t.links (start ∷ [])))
        (Invariant-start start)

  found_complete :
      (start : String) {x : String} → Walk t without start x → contains (found start).seen x ≡ true
  found_complete start here = (found-Invariant start).0.first
  found_complete start (step {v} {w} walk j) =
      let (i, done) = found-Invariant start in
      i.closed v w (found_complete start walk) (rw done refl)
        (neighbors_of_joins without v t.links 0 j.index j.link w j.at j.works j.ends)

  other_sym : (l : Link) (u v : String) → other l u ≡ some v → other l v ≡ some u
  unfolding other
  other_sym l u v h = ground arith

  Joins-sym : {u v : String} → Joins t.links 0 without u v → Joins t.links 0 without v u
  Joins-sym {u} {v} j = record {
    index = j.index;
    link = j.link;
    at = j.at;
    works = j.works;
    ends = other_sym j.link u v j.ends;
  }

  Walk-trans : {u v w : String} → Walk t without u v → Walk t without v w → Walk t without u w
  Walk-trans p here = p
  Walk-trans p (step q j) = step (Walk-trans p q) j

  Walk-sym : {u v : String} → Walk t without u v → Walk t without v u
  Walk-sym here = here
  Walk-sym (step q j) = Walk-trans (step here (Joins-sym j)) (Walk-sym q)

  -- Each two of the nodes are joined by a walk.
  abbrev pub AllJoined : List String → Type 0
  AllJoined nodes =
      (x y : String) → contains nodes x ≡ true → contains nodes y ≡ true → Walk t without x y

  subset_iff :
      (xs s : List String)
      → (subset xs s ≡ true) ↔ ((x : String) → contains xs x ≡ true → contains s x ≡ true)
  unfolding subset
  subset_iff [] s = (λ h x m. cc, λ h. refl)
  subset_iff (x ∷ xs) s = (
    λ h y m. ground (arith, (subset_iff xs s).0 (ground arith) y),
    λ h. ground (arith, h x (ground arith), (subset_iff xs s).1 (λ y m. h y (ground arith))),
  )

  is_connected-cons :
      (start : String) (nodes : List String)
      → is_connected t (start ∷ nodes) without ≡ subset (start ∷ nodes) (found start).seen
  unfolding is_connected found
  is_connected-cons start nodes = refl

  -- The search returns true exactly if each two of the given nodes are joined by a walk over the
  -- links other than the one left out, on every topology.
  pub is_connected_iff :
      (nodes : List String) → (is_connected t nodes without ≡ true) ↔ AllJoined nodes
  unfolding is_connected
  is_connected_iff [] = (λ h x y m. cc, λ h. refl)
  is_connected_iff (start ∷ nodes) = (
    λ h x y mx my.
        let seen = (subset_iff (start ∷ nodes) (found start).seen).0 (rw is_connected-cons at h) in
        let i = (found-Invariant start).0 in
        Walk-trans (Walk-sym (i.reached x (seen x mx))) (i.reached y (seen y my)),
    λ h. rw is_connected-cons (
        (subset_iff (start ∷ nodes) (found start).seen).1
          (λ x m. found_complete start (h start x (ground arith) m))),
  )

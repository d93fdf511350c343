-- ===== src/Core/Topology/Offer.antt =====
-- One round of the search: what the loop over the neighbours adds, and how the work left shrinks.
use net_twin.Prelude.{
  ℕ, zero, suc, ◌+◌, ◌≤◌, ◌<◌, ◌≡◌, refl, String, true, false, not, ◌&&◌, ◌||◌, List, [], ◌∷◌, ◌++◌,
  Option, some, ◌==◌, contains, string_eq, if◌then◌else◌, arith,
}
use net_twin.Prelude.Lists.{get_elem?}
use net_twin.Prelude.Text.{size}
use net_twin.Core.Topology.{Topology, Link, Search, other, offer, offer_all, neighbors}
use net_twin.Core.Topology.Graph.{neighbors-Joins}

pub contains-concat :
    (xs : List String) (x y : String) → contains (xs ++ x ∷ []) y ≡ (contains xs y || y == x)
contains-concat [] x y = ground arith
contains-concat (z ∷ xs) x y = ground (arith, contains-concat xs x y)

size-concat : (xs : List String) (x : String) → size (xs ++ x ∷ []) ≡ size xs + 1
size-concat [] x = refl
size-concat (z ∷ xs) x = omega (arith, size-concat xs x)

offer-seen :
    (s : Search) (x y : String) → contains (offer s x).seen y ≡ (contains s.seen y || y == x)
unfolding offer
offer-seen s x y = ground arith

offer-queue :
    (s : Search) (x y : String)
    → contains (offer s x).queue y ≡ (contains s.queue y || (y == x && not (contains s.seen x)))
unfolding offer
offer-queue s x y = ground (arith, contains-concat s.queue x y)

pub offer_all-seen :
    (s : Search) (xs : List String) (y : String)
    → contains (offer_all s xs).seen y ≡ (contains s.seen y || contains xs y)
unfolding offer_all
offer_all-seen s [] y = ground arith
offer_all-seen s (x ∷ xs) y = ground (arith, offer_all-seen (offer s x) xs y, offer-seen s x y)

-- The queue keeps what it held, and gets just the neighbours that were not seen.
pub offer_all-queue :
    (s : Search) (xs : List String) (y : String)
    → contains (offer_all s xs).queue y
      ≡ (contains s.queue y || (contains xs y && not (contains s.seen y)))
unfolding offer_all
offer_all-queue s [] y = ground arith
offer_all-queue s (x ∷ xs) y =
    ground (arith, offer_all-queue (offer s x) xs y, offer-seen s x y, offer-queue s x y)

-- The ends of the links, and how many of them were not seen.
pub ends : List Link → List String
ends [] = []
ends (l ∷ ls) = l.a_node ∷ l.b_node ∷ ends ls

abbrev unseen_one : List String → String → ℕ
unseen_one seen e = if contains seen e then 0 else 1

pub unseen : List String → List String → ℕ
unseen [] seen = 0
unseen (e ∷ es) seen = unseen_one seen e + unseen es seen

unseen-cons : (es seen : List String) (x : String) → unseen es (x ∷ seen) ≤ unseen es seen
unfolding unseen
unseen-cons [] seen x = omega arith
unseen-cons (e ∷ es) seen x = ground (arith, unseen-cons es seen x)

unseen-cons_lt :
    (es seen : List String) (x : String)
    → contains es x ≡ true
    → contains seen x ≡ false
    → unseen es (x ∷ seen) < unseen es seen
unfolding unseen
unseen-cons_lt [] seen x h k = cc
unseen-cons_lt (e ∷ es) seen x h k = ground (arith, unseen-cons_lt es seen x, unseen-cons es seen x)

pub unseen-le : (ls : List Link) (seen : List String) → unseen (ends ls) seen ≤ size ls + size ls
unfolding unseen ends
unseen-le [] seen = omega arith
unseen-le (l ∷ ls) seen = ground (arith, unseen-le ls seen)

-- What is left to do: ends that were not seen, and nodes in the queue.
abbrev pub work : List Link → Search → ℕ
work ls s = unseen (ends ls) s.seen + size s.queue

offer-work :
    (ls : List Link) (s : Search) (x : String)
    → contains (ends ls) x ≡ true
    → work ls (offer s x) ≤ work ls s
unfolding offer
offer-work ls s x h = ground (arith, unseen-cons_lt (ends ls) s.seen x h, size-concat s.queue x)

pub offer_all-work :
    (ls : List Link) (s : Search) (xs : List String)
    → ((x : String) → contains xs x ≡ true → contains (ends ls) x ≡ true)
    → work ls (offer_all s xs) ≤ work ls s
unfolding offer_all
offer_all-work ls s [] h = omega arith
offer_all-work ls s (x ∷ xs) h = omega (
  arith,
  offer_all-work ls (offer s x) xs (λ y m. h y (ground arith)),
  offer-work ls s x (h x (ground arith)),
)

end_of_link :
    (ls : List Link) (k : ℕ) (l : Link) (u v : String)
    → get_elem? ls k ≡ some l
    → other l u ≡ some v
    → contains (ends ls) v ≡ true
unfolding ends other
end_of_link [] k l u v at e = cc
end_of_link (m ∷ ls) zero l u v at e = ground arith
end_of_link (m ∷ ls) (suc k) l u v at e = ground (arith, end_of_link ls k l u v at e)

pub neighbors-end :
    (t : Topology) (without : Option ℕ) (u v : String)
    → contains (neighbors t u without) v ≡ true
    → contains (ends t.links) v ≡ true
neighbors-end t without u v h =
    let j = neighbors-Joins without u t.links 0 v h in
    end_of_link t.links j.index j.link u v j.at j.ends

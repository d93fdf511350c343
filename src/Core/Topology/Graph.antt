-- ===== src/Core/Topology/Graph.antt =====
-- What `neighbors` computes: the other ends of the links that are left.
use net_twin.Prelude.{
  ℕ, zero, suc, ◌+◌, ◌≡◌, refl, ◌≢◌, ◌⊎◌, inl, inr, String, true, List, [], ◌∷◌, Option, none, some,
  ◌==◌, contains, string_eq, nat_eq, option_eq, arith, ap, sym, ◌∙◌, Bool-cases,
}
use net_twin.Prelude.Lists.{get_elem?}
use net_twin.Core.Topology.{Link, other, add, add?, neighbors_from}

-- Link number `k` joins `u` and `v`, and it is not the one that fails.
pub record Joins (links : List Link) (i : ℕ) (without : Option ℕ) (u v : String) : Type 0 where
  pub index : ℕ
  pub link : Link
  pub at : get_elem? links index ≡ some link
  pub works : without ≢ some (i + index)
  pub ends : other link u ≡ some v

contains-add? :
    (o : Option String) (v : String) (s : List String)
    → contains (add? o s) v ≡ true
    → (o ≡ some v) ⊎ (contains s v ≡ true)
unfolding add
contains-add? none v s h = inr h
contains-add? (some x) v s h = ground arith

contains-add?_old :
    (o : Option String) (v : String) (s : List String)
    → contains s v ≡ true
    → contains (add? o s) v ≡ true
unfolding add
contains-add?_old none v s h = h
contains-add?_old (some x) v s h = ground arith

contains-add?_new : (v : String) (s : List String) → contains (add? (some v) s) v ≡ true
unfolding add
contains-add?_new v s = ground arith

shift : (i k : ℕ) → ◌≡◌ {A = Option ℕ} (some (suc i + k)) (some (i + suc k))
shift i k = ap some (omega arith)

origin : (i : ℕ) → ◌≡◌ {A = Option ℕ} (some (i + 0)) (some i)
origin i = ap some (omega arith)

module _ (without : Option ℕ) (u : String) where
  Joins-cons :
      (l : Link) (links : List Link) (i : ℕ) {v : String}
      → Joins links (suc i) without u v
      → Joins (l ∷ links) i without u v
  Joins-cons l links i j = record {
    index = suc j.index;
    link = j.link;
    at = j.at;
    works = λ e. j.works (e ∙ sym (shift i j.index));
    ends = j.ends;
  }

  Joins-here :
      (l : Link) (links : List Link) (i : ℕ) {v : String}
      → without ≢ some i
      → other l u ≡ some v
      → Joins (l ∷ links) i without u v
  Joins-here l links i h e = record {
    index = 0;
    link = l;
    at = refl;
    works = λ e'. h (e' ∙ origin i);
    ends = e;
  }

  -- Every neighbour is joined by a link that works.
  pub neighbors-Joins :
      (links : List Link) (i : ℕ) (v : String)
      → contains (neighbors_from i links u without) v ≡ true
      → Joins links i without u v
  unfolding neighbors_from
  neighbors-Joins [] i v h = cc
  neighbors-Joins (l ∷ links) i v h = elim (Bool-cases (without == some i)) [
    | inl failed ↦ Joins-cons l links i (neighbors-Joins links (suc i) v (rw failed at h))
    | inr works ↦ elim (contains-add? (other l u) v _ (rw works at h)) [
      | inl found ↦ Joins-here l links i (ground arith) found
      | inr old ↦ Joins-cons l links i (neighbors-Joins links (suc i) v old)
    ]
  ]

  -- A link that works makes its other end a neighbour.
  pub neighbors_of_joins :
      (links : List Link) (i k : ℕ) (l : Link) (v : String)
      → get_elem? links k ≡ some l
      → without ≢ some (i + k)
      → other l u ≡ some v
      → contains (neighbors_from i links u without) v ≡ true
  unfolding neighbors_from
  neighbors_of_joins [] i k l v at works e = cc
  neighbors_of_joins (l' ∷ links) i zero l v at works e =
      let works' : without ≢ some i = λ p. works (p ∙ sym (origin i)) in
      let here : other l' u ≡ some v = ground arith in
      ground (arith, here, contains-add?_new v (neighbors_from (suc i) links u without))
  neighbors_of_joins (l' ∷ links) i (suc k) l v at works e =
      let old = neighbors_of_joins links (suc i) k l v at (λ p. works (p ∙ shift i k)) e in
      ground
        (arith, old, contains-add?_old (other l' u) v (neighbors_from (suc i) links u without) old)

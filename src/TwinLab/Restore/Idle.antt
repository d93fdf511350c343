-- ===== src/TwinLab/Restore/Idle.antt =====
-- When the plan for the kernel has no command.
use net_twin.Prelude.{
  ℕ, ◌≡◌, ◌↔◌, refl, ◌∙◌, String, Bool, true, false, ◌||◌, List, [], ◌∷◌, ◌++◌, Option, none, some,
  ◌==◌, string_eq, nat_eq, list_eq, contains, arith, inl, inr, Bool-cases, Option-cases,
}
use net_twin.Prelude.Dict.{find}
use net_twin.Prelude.Sort.{le_text, contains-sort}
use net_twin.TwinLab.Restore.{
  Command, VlanLinks, keys, union, names, all_names, for_names, same_spec, del_vlan_link,
  add_vlan_link, add_link, mtu_commands, same_mtu, set_mtu_of, add_addresses, flush_addresses,
  or_none, addr_commands,
}
use net_twin.TwinLab.Restore.Plan.{vlan_plan}

pub append-nil_left : {A : Type 0} (xs ys : List A) → xs ++ ys ≡ [] → (xs ≡ []) × (ys ≡ [])
append-nil_left [] ys h = (refl, h)
append-nil_left (x ∷ xs) ys h = ground (arith, h)

for_names-nil :
    (body : String → List Command) (ns : List String) (n : String)
    → for_names body ns ≡ []
    → contains ns n ≡ true
    → body n ≡ []
unfolding for_names
for_names-nil body [] n h m = ground (arith, m)
for_names-nil body (k ∷ ns) n h m =
    let (p, q) = append-nil_left (body k) (for_names body ns) h in
    ground (arith, m, p, q, for_names-nil body ns n)

pub for_names-all :
    (body : String → List Command) (ns : List String)
    → ((n : String) → body n ≡ [])
    → for_names body ns ≡ []
unfolding for_names
for_names-all body [] h = refl
for_names-all body (n ∷ ns) h = rw (h n) (for_names-all body ns h)

contains-keys :
    {A : Type 0} (m : List (String × A)) (k : String) (a : A)
    → find k m ≡ some a
    → contains (keys m) k ≡ true
unfolding keys find
contains-keys [] k a h = ground (arith, h)
contains-keys ((l, b) ∷ m) k a h = ground (arith, h, contains-keys m k a)

contains-names :
    {A : Type 0} (m : List (String × A)) (k : String) (a : A)
    → find k m ≡ some a
    → contains (names m) k ≡ true
unfolding names
contains-names m k a h = contains-sort le_text (keys m) k ∙ contains-keys m k a h

contains-union :
    (a b : List String) (k : String) → contains (union a b) k ≡ (contains a k || contains b k)
unfolding union
contains-union a [] k = ground arith
contains-union a (l ∷ b) k = ground (arith, contains-union a b k, contains-union a b l)

same_spec_iff : (a b : Option (String × ℕ)) → (same_spec a b ≡ true) ↔ (a ≡ b)
unfolding same_spec
same_spec_iff none none = (λ h. refl, λ h. refl)
same_spec_iff none (some b) = (λ h. ground (arith, h), λ h. ground (arith, h))
same_spec_iff (some a) none = (λ h. ground (arith, h), λ h. ground (arith, h))
same_spec_iff (some (a, m)) (some (b, n)) = (λ h. ground (arith, h), λ h. ground (arith, h))

same_spec-sym : (a b : Option (String × ℕ)) → same_spec a b ≡ same_spec b a
unfolding same_spec
same_spec-sym none none = refl
same_spec-sym none (some b) = refl
same_spec-sym (some a) none = refl
same_spec-sym (some (a, m)) (some (b, n)) = ground arith

pub vlan_plan-nil :
    (cur tgt : VlanLinks) (n : String)
    → vlan_plan cur tgt ≡ []
    → same_spec (find n cur) (find n tgt) ≡ true
unfolding vlan_plan del_vlan_link add_vlan_link add_link same_spec
vlan_plan-nil cur tgt n h =
    let (p, q) =
      append-nil_left (for_names (del_vlan_link cur tgt) (names cur))
        (for_names (add_vlan_link cur tgt) (names tgt)) h in
    elim (Option-cases (find n cur)) [
      | inr (a, e) ↦
          let none_of =
            for_names-nil (del_vlan_link cur tgt) (names cur) n p (contains-names cur n a e) in
          ground (arith, none_of, same_spec-sym (find n cur) (find n tgt))
      | inl gone ↦ elim (Option-cases (find n tgt)) [
        | inl gone' ↦ ground (arith, gone, gone')
        | inr (b, e) ↦
            let none_of =
              for_names-nil (add_vlan_link cur tgt) (names tgt) n q (contains-names tgt n b e) in
            ground (arith, gone, e, none_of)
      ]
    ]

pub vlan_plan-all :
    (cur tgt : VlanLinks)
    → ((n : String) → same_spec (find n cur) (find n tgt) ≡ true)
    → vlan_plan cur tgt ≡ []
unfolding vlan_plan del_vlan_link add_vlan_link
vlan_plan-all cur tgt h =
    let p =
      for_names-all (del_vlan_link cur tgt) (names cur)
        (λ n. ground (arith, h n, same_spec-sym (find n cur) (find n tgt))) in
    let q = for_names-all (add_vlan_link cur tgt) (names tgt) (λ n. ground (arith, h n)) in
    rw (p, q) refl

-- The MTU that the target gives, if any, is the one that is set.
unfoldable pub mtu_agrees : Option ℕ → Option ℕ → Bool
unfolding same_mtu
mtu_agrees cur none = true
mtu_agrees cur (some m) = same_mtu cur (some m)

module _ (protect : List String) (recreated : String → Bool) where
  pub mtu-nil :
      (cur tgt : List (String × ℕ)) (n : String)
      → recreated n ≡ false
      → for_names (mtu_commands protect recreated cur tgt) (names tgt) ≡ []
      → (contains protect n || mtu_agrees (find n cur) (find n tgt)) ≡ true
  unfolding mtu_commands mtu_agrees set_mtu_of
  mtu-nil cur tgt n r h = elim (Option-cases (find n tgt)) [
    | inl gone ↦ ground (arith, gone)
    | inr (m, e) ↦
        let none_of =
          for_names-nil (mtu_commands protect recreated cur tgt) (names tgt) n h
            (contains-names tgt n m e) in
        ground (arith, e, r, none_of)
  ]

  pub mtu-all :
      (cur tgt : List (String × ℕ)) (n : String)
      → recreated n ≡ false
      → (contains protect n || mtu_agrees (find n cur) (find n tgt)) ≡ true
      → mtu_commands protect recreated cur tgt n ≡ []
  unfolding mtu_commands mtu_agrees set_mtu_of
  mtu-all cur tgt n r h = elim (Option-cases (find n tgt)) [
    | inl gone ↦ ground (arith, gone, h, r)
    | inr (m, e) ↦ ground (arith, e, h, r)
  ]

  addresses-nil :
      (n : String) (have want : List String)
      → flush_addresses n have ++ add_addresses n want ≡ []
      → (want == have) ≡ true
  unfolding flush_addresses add_addresses
  addresses-nil n [] [] h = ground arith
  addresses-nil n [] (a ∷ as') h = ground (arith, h)
  addresses-nil n (b ∷ bs) want h = ground (arith, h)

  unlisted :
      (m : List (String × List String)) (n : String) → contains (keys m) n ≡ false → find n m ≡ none
  unlisted m n h = elim (Option-cases (find n m)) [
    | inl gone ↦ gone
    | inr (a, e) ↦ ground (arith, h, contains-keys m n a e)
  ]

  pub addr-nil :
      (cur tgt : List (String × List String)) (n : String)
      → recreated n ≡ false
      → for_names (addr_commands protect recreated cur tgt) (all_names cur tgt) ≡ []
      → (contains protect n || or_none (find n tgt) == or_none (find n cur)) ≡ true
  unfolding addr_commands all_names
  addr-nil cur tgt n r h = elim (Bool-cases (contains (all_names cur tgt) n)) [
    | inl there ↦
        let none_of =
          for_names-nil (addr_commands protect recreated cur tgt) (all_names cur tgt) n h there in
        ground (arith, r, none_of, addresses-nil n (or_none (find n cur)) (or_none (find n tgt)))
    | inr absent ↦
        let split = contains-sort le_text (union (keys cur) (keys tgt)) n in
        ground (
          arith,
          absent,
          split,
          contains-union (keys cur) (keys tgt) n,
          unlisted cur n,
          unlisted tgt n,
        )
  ]

  pub addr-all :
      (cur tgt : List (String × List String)) (n : String)
      → recreated n ≡ false
      → (contains protect n || or_none (find n tgt) == or_none (find n cur)) ≡ true
      → addr_commands protect recreated cur tgt n ≡ []
  unfolding addr_commands
  addr-all cur tgt n r h = ground (arith, r, h)

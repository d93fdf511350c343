-- ===== src/Core/Policy/References.antt =====
-- What the check of references accepts.
use net_twin.Prelude.{
  ℕ, zero, suc, ◌≡◌, refl, String, true, false, List, [], ◌∷◌, Option, none, some, string_eq,
  contains, arith, inl, inr, ◌↔◌, map, Option-cases, Bool-cases, ◌==◌,
}
use net_twin.Prelude.Count.{count, Distinct}
use net_twin.Prelude.Dict.{find}
use net_twin.Prelude.Lists.{get_elem?}
use net_twin.Prelude.Result.{ok, Result-cases}
use net_twin.Core.Policy.{
  Rule, Policy, Target, rule_id, references, known, check_names, check_from, check_references,
  find_rule,
}

pub known-some : (o : Option Target) → known o ≡ true → (t : Target) × (o ≡ some t)
unfolding known
known-some none h = elim (impossible h) [ ]
  where
    impossible : false ≡ true → ⊥
    impossible h = ground (arith, h)
known-some (some t) h = (t, refl)

module _ (targets : List (String × Target)) where
  pub check_names-known :
      (id : String) (names : List String) (name : String)
      → check_names targets id names ≡ ok tt
      → contains names name ≡ true
      → known (find name targets) ≡ true
  unfolding check_names
  check_names-known id [] name h m = ground (arith, m)
  check_names-known id (n ∷ names) name h m = ground (arith, check_names-known id names name)

  pub check_from-cons :
      (seen : List String) (r : Rule) (rs : List Rule)
      → check_from targets seen (r ∷ rs) ≡ ok tt
      → (contains seen (rule_id r) ≡ false)
        × (check_names targets (rule_id r) (references r) ≡ ok tt)
        × (check_from targets (rule_id r ∷ seen) rs ≡ ok tt)
  unfolding check_from
  check_from-cons seen r rs h =
      elim (Result-cases (check_names targets (rule_id r) (references r))) [
        | inl (tt, p) ↦ (ground (arith, p), ground (arith, p), ground (arith, p))
        | inr (e, p) ↦ ground (arith, p)
      ]

  check_from-fresh :
      (seen : List String) (rs : List Rule) (k : ℕ) (r : Rule)
      → check_from targets seen rs ≡ ok tt
      → get_elem? rs k ≡ some r
      → contains seen (rule_id r) ≡ false
  check_from-fresh seen [] k r h at = ground (arith, at)
  check_from-fresh seen (r' ∷ rs) zero r h at = ground (arith, at, (check_from-cons seen r' rs h).0)
  check_from-fresh seen (r' ∷ rs) (suc k) r h at =
      ground
        (arith, check_from-fresh (rule_id r' ∷ seen) rs k r (check_from-cons seen r' rs h).2 at)

  find_rule-at :
      (seen : List String) (rs : List Rule) (k : ℕ) (r : Rule)
      → check_from targets seen rs ≡ ok tt
      → get_elem? rs k ≡ some r
      → find_rule (rule_id r) rs ≡ some r
  unfolding find_rule
  find_rule-at seen [] k r h at = ground (arith, at)
  find_rule-at seen (r' ∷ rs) zero r h at = ground (arith, at)
  find_rule-at seen (r' ∷ rs) (suc k) r h at =
      let rest = (check_from-cons seen r' rs h).2 in
      ground (
        arith,
        check_from-fresh (rule_id r' ∷ seen) rs k r rest at,
        find_rule-at (rule_id r' ∷ seen) rs k r rest at,
      )

  names-at :
      (seen : List String) (rs : List Rule) (k : ℕ) (r : Rule)
      → check_from targets seen rs ≡ ok tt
      → get_elem? rs k ≡ some r
      → check_names targets (rule_id r) (references r) ≡ ok tt
  names-at seen [] k r h at = ground (arith, at)
  names-at seen (r' ∷ rs) zero r h at = ground (arith, at, (check_from-cons seen r' rs h).1)
  names-at seen (r' ∷ rs) (suc k) r h at =
      names-at (rule_id r' ∷ seen) rs k r (check_from-cons seen r' rs h).2 at

pub check_references-from :
    (p : Policy) → check_references p ≡ ok p → check_from p.targets [] p.rules ≡ ok tt
unfolding check_references
check_references-from p h = ground (arith, h)

-- In a policy whose references were checked, each rule, of whatever kind, is the one that is found
-- under its id.
pub check_references-find_rule :
    (p : Policy) (k : ℕ) (r : Rule)
    → check_references p ≡ ok p
    → get_elem? p.rules k ≡ some r
    → find_rule (rule_id r) p.rules ≡ some r
check_references-find_rule p k r h at =
    find_rule-at p.targets [] p.rules k r (check_references-from p h) at

-- Each name is a target's.
unfoldable AreKnown : List (String × Target) → List String → Type 0
AreKnown targets [] = Unit {0}
AreKnown targets (name ∷ names) =
    ((t : Target) × (find name targets ≡ some t)) × AreKnown targets names

-- Each name that a rule refers to is a target's.
unfoldable pub Refers : List (String × Target) → List Rule → Type 0
unfolding AreKnown
Refers targets [] = Unit {0}
Refers targets (r ∷ rs) = AreKnown targets (references r) × Refers targets rs

-- No id is one of those seen, or of two rules.
unfoldable Fresh : List String → List Rule → Type 0
Fresh seen [] = Unit {0}
Fresh seen (r ∷ rs) = (contains seen (rule_id r) ≡ false) × Fresh (rule_id r ∷ seen) rs

module _ (targets : List (String × Target)) where
  check_names_iff :
      (id : String) (names : List String)
      → (check_names targets id names ≡ ok tt) ↔ AreKnown targets names
  unfolding check_names AreKnown known
  check_names_iff id [] = (λ h. tt, λ h. refl)
  check_names_iff id (n ∷ ns) = elim (Option-cases (find n targets)) [
    | inr (t, p) ↦ (
      λ h. ((t, p), (check_names_iff id ns).0 (rw (p, known) at h)),
      λ h. rw (p, known) ((check_names_iff id ns).1 h.1),
    )
    | inl p ↦ (λ h. ground (arith, p, h), λ h. ground (arith, p, h.0.1))
  ]

  check_from_iff :
      (seen : List String) (rs : List Rule)
      → (check_from targets seen rs ≡ ok tt) ↔ (Fresh seen rs × Refers targets rs)
  unfolding check_from Fresh Refers
  check_from_iff seen [] = (λ h. (tt, tt), λ h. refl)
  check_from_iff seen (r ∷ rs) = (
    λ h.
        let (new, names, rest) = check_from-cons targets seen r rs h in
        let (fresh, refers) = (check_from_iff (rule_id r ∷ seen) rs).0 rest in
        ((new, fresh), ((check_names_iff (rule_id r) (references r)).0 names, refers)),
    λ h.
        rw
          (
            h.0.0,
            (check_names_iff (rule_id r) (references r)).1 h.1.0,
            (check_from_iff (rule_id r ∷ seen) rs).1 (h.0.1, h.1.1),
          )
          refl,
  )

-- No id of the rules is among those seen.
abbrev Apart : List String → List Rule → Type 0
Apart seen rs = (a : String) → contains seen a ≡ true → count a (map rule_id rs) ≡ 0

module _ (seen : List String) (r : Rule) (rs : List Rule) where
  Distinct-cons :
      Distinct (map rule_id rs) → Apart (rule_id r ∷ seen) rs → Distinct (map rule_id (r ∷ rs))
  unfolding Distinct count
  Distinct-cons d apart a = elim (Bool-cases (a == rule_id r)) [
    | inl same ↦ rw same (ground (arith, apart a (rw same refl)))
    | inr other ↦ rw other (ground (arith, d a))
  ]

  Apart-cons : contains seen (rule_id r) ≡ false → Apart (rule_id r ∷ seen) rs → Apart seen (r ∷ rs)
  unfolding count
  Apart-cons new apart a h = ground (arith, new, h, apart a)

  Fresh-new : Apart seen (r ∷ rs) → contains seen (rule_id r) ≡ false
  unfolding count
  Fresh-new apart = ground (arith, apart (rule_id r))

  Apart-tail : Distinct (map rule_id (r ∷ rs)) → Apart seen (r ∷ rs) → Apart (rule_id r ∷ seen) rs
  unfolding Distinct count
  Apart-tail d apart a h = ground (arith, h, d a, apart a)

  Distinct-tail : Distinct (map rule_id (r ∷ rs)) → Distinct (map rule_id rs)
  unfolding Distinct count
  Distinct-tail d a = ground (arith, d a)

Fresh-Distinct :
    (seen : List String) (rs : List Rule)
    → Fresh seen rs
    → Distinct (map rule_id rs) × Apart seen rs
unfolding Fresh Distinct count
Fresh-Distinct seen [] h = (λ a. ground arith, λ a m. refl)
Fresh-Distinct seen (r ∷ rs) (new, h) =
    let (d, apart) = Fresh-Distinct (rule_id r ∷ seen) rs h in
    (Distinct-cons seen r rs d apart, Apart-cons seen r rs new apart)

Distinct-Fresh :
    (seen : List String) (rs : List Rule)
    → Distinct (map rule_id rs)
    → Apart seen rs
    → Fresh seen rs
unfolding Fresh
Distinct-Fresh seen [] d apart = tt
Distinct-Fresh seen (r ∷ rs) d apart = (
  Fresh-new seen r rs apart,
  Distinct-Fresh (rule_id r ∷ seen) rs (Distinct-tail seen r rs d) (Apart-tail seen r rs d apart),
)

check_references-from_iff :
    (p : Policy) → (check_references p ≡ ok p) ↔ (check_from p.targets [] p.rules ≡ ok tt)
unfolding check_references
check_references-from_iff p = (check_references-from p, λ h. rw h refl)

-- The check of a policy's references accepts it exactly if no two of its rules, of whatever kind,
-- have one id, and each name that a rule refers to is a target.
pub check_references_iff :
    (p : Policy)
    → (check_references p ≡ ok p) ↔ (Distinct (map rule_id p.rules) × Refers p.targets p.rules)
check_references_iff p = (
  λ h.
      let (fresh, refers) = (check_from_iff p.targets [] p.rules).0 (check_references-from p h) in
      ((Fresh-Distinct [] p.rules fresh).0, refers),
  λ h. (check_references-from_iff p).1 (
      (check_from_iff p.targets [] p.rules).1
        (Distinct-Fresh [] p.rules h.0 (λ a m. ground (arith, m)), h.1)),
)

-- ===== src/NetBench/Timeline/Rows.antt =====
-- The rows that `_collapse` of packages/netbench/src/netbench/timeline.py makes of the steps.
use net_twin.Prelude.{
  ℕ, ◌+◌, ◌≡◌, refl, ◌∙◌, inl, inr, String, false, List, [], ◌∷◌, arith, if◌then◌else◌, contains,
  string_eq, Bool-cases,
}
use net_twin.Prelude.Result.{Result, ok, err, Result-cases}
use net_twin.Prelude.Json.{Json, JsonFault}
use net_twin.NetBench.Timeline.{Step, plumbing}
use net_twin.NetBench.Timeline.Collapse.{
  is_show, joins, joined, named, opened, node_of, rows_from, with_row, collapse,
}

-- How many calls the rows stand for.
unfoldable pub calls_in : List Step → ℕ
calls_in [] = 0
calls_in (s ∷ ss) = s.count + calls_in ss

-- How many steps are no plumbing.
unfoldable pub kept : List Step → ℕ
kept [] = 0
kept (s ∷ ss) = let rest = kept ss in if contains plumbing s.tool then rest else 1 + rest

-- Each step stands for one call.
unfoldable pub Single : List Step → Type 0
Single [] = Unit {0}
Single (s ∷ ss) = (s.count ≡ 1) × Single ss

-- No row could have been joined by the one behind it.
unfoldable pub Apart : List Step → Type 0
Apart [] = Unit {0}
Apart (a ∷ []) = Unit {0}
Apart (a ∷ b ∷ ss) = (joins a b ≡ false) × Apart (b ∷ ss)

-- The first row stands where the open one did.
Begins : Step → List Step → Type 0
Begins row [] = ⊥
Begins row (a ∷ ss) = (a.tool ≡ row.tool) × (a.actor ≡ row.actor)

module _ (repr : String → String) where
  joined-fields :
      (node : Json) (row : Step)
      → ((joined repr node row).count ≡ row.count + 1)
        × ((joined repr node row).tool ≡ row.tool)
        × ((joined repr node row).actor ≡ row.actor)
  unfolding joined named
  joined-fields node row = ground arith

  opened-fields :
      (node : Json) (s : Step)
      → ((opened repr node s).count ≡ s.count)
        × ((opened repr node s).tool ≡ s.tool)
        × ((opened repr node s).actor ≡ s.actor)
  unfolding opened
  opened-fields node s = ground arith

  -- What the rows from an open row are.
  abbrev Rows : Step → List Step → List Step → Type 0
  Rows row ss out = (calls_in out ≡ row.count + kept ss) × Begins row out × Apart out

  Apart-cons :
      (row s : Step) (out : List Step)
      → joins row s ≡ false
      → Begins s out
      → Apart out
      → Apart (row ∷ out)
  unfolding joins is_show Begins Apart
  Apart-cons row s [] h b k = elim b [ ]
  Apart-cons row s (a ∷ out) h b k = (rw (b.0, b.1) h, k)

  Begins-trans :
      (row s : Step) (out : List Step)
      → s.tool ≡ row.tool
      → s.actor ≡ row.actor
      → Begins s out
      → Begins row out
  unfolding Begins
  Begins-trans row s [] h k b = b
  Begins-trans row s (a ∷ out) h k b = (b.0 ∙ h, b.1 ∙ k)

  with_row-eq-ok :
      (row : Step) (r : Result JsonFault (List Step)) (out : List Step)
      → with_row repr row r ≡ ok out
      → (rest : List Step) × (r ≡ ok rest) × (row ∷ rest ≡ out)
  unfolding with_row
  with_row-eq-ok row (ok rest) out h = (rest, refl, ground (arith, h))
  with_row-eq-ok row (err e) out h = ground (arith, h)

  rows_from-Rows :
      (row : Step) (ss out : List Step)
      → Single ss
      → rows_from repr row ss ≡ ok out
      → Rows row ss out
  unfolding rows_from kept calls_in Single Begins Apart
  rows_from-Rows row [] out h e =
      let same : row ∷ [] ≡ out = ground (arith, e) in rw (← same) (omega arith, (refl, refl), tt)
  rows_from-Rows row (s ∷ ss) out h e = elim (Bool-cases (contains plumbing s.tool)) [
    | inl skip ↦ rw skip (rows_from-Rows row ss out h.1 (rw skip at e))
    | inr keep ↦ elim (Result-cases (node_of repr s)) [
      | inr (f, p) ↦ let bad : ⊥ = ground (arith, rw (keep, p) at e) in elim bad [ ]
      | inl (node, p) ↦ elim (Bool-cases (joins row s)) [
        | inl same ↦
            let (total, first, apart) =
              rows_from-Rows (joined repr node row) ss out h.1 (rw (keep, p, same) at e) in
            let (c, t, a) = joined-fields node row in
            (
              rw keep (omega (arith, total, c)),
              Begins-trans row (joined repr node row) out t a first,
              apart,
            )
        | inr other ↦
            let (rest, q, u) =
              with_row-eq-ok row (rows_from repr (opened repr node s) ss) out
                (rw (keep, p, other) at e) in
            let (total, first, apart) = rows_from-Rows (opened repr node s) ss rest h.1 q in
            let (c, t, a) = opened-fields node s in
            rw (← u) (
              rw keep (omega (arith, total, c, h.0)),
              (refl, refl),
              Apart-cons row s rest other (Begins-trans s (opened repr node s) rest t a first)
                  apart,
            )
      ]
    ]
  ]

  -- When steps of one call each are collapsed, the counts of the rows add up to the number of the
  -- steps that are no plumbing, and no row is a run of show commands that the row before it could
  -- have taken in.
  pub collapse-calls_in :
      (ss out : List Step)
      → Single ss
      → collapse repr ss ≡ ok out
      → (calls_in out ≡ kept ss) × Apart out
  unfolding collapse kept calls_in Single Apart
  collapse-calls_in [] out h e = let same : [] ≡ out = ground (arith, e) in rw (← same) (refl, tt)
  collapse-calls_in (s ∷ ss) out h e = elim (Bool-cases (contains plumbing s.tool)) [
    | inl skip ↦ rw skip (collapse-calls_in ss out h.1 (rw skip at e))
    | inr keep ↦ elim (Result-cases (node_of repr s)) [
      | inr (f, p) ↦ let bad : ⊥ = ground (arith, rw (keep, p) at e) in elim bad [ ]
      | inl (node, p) ↦
          let (total, first, apart) =
            rows_from-Rows (opened repr node s) ss out h.1 (rw (keep, p) at e) in
          (rw keep (omega (arith, total, (opened-fields node s).0, h.0)), apart)
    ]
  ]

-- ===== src/NetBench/Harness/Matrix/Unique.antt =====
-- The ids of the runs in the results file.
use text.Mathlib.TextLemmas.{append_cancel_right}
use net_twin.Prelude.{
  ℕ, zero, suc, ◌+◌, ◌≤◌, ◌<◌, ◌≡◌, refl, inl, inr, ◌⊎◌, String, ◌<>◌, true, List, [], ◌∷◌, ◌++◌,
  map, Option, arith, contains, string_eq, Bool-cases, ◌==◌,
}
use net_twin.Prelude.Count.{count, Distinct, count-append, count-contains}
use net_twin.Prelude.Decimal.Shown.{slash-show-injective}
use net_twin.NetBench.Clients.{Sessions}
use net_twin.NetBench.Runner.{Runs}
use net_twin.NetBench.Scoring.{Scenario}
use net_twin.NetBench.Harness.{
  HarnessFault, RunConfig, RunRecord, run_id_of, Admin, Models, Batch, existing_run_ids,
}
use net_twin.NetBench.Harness.Matrix.{run_matrix, plan_from, trials_of}
use net_twin.NetBench.Harness.Matrix.Results.{pending, Added, run_matrix-Added}

-- A run's id tells the scenario and the trial.
run_id_of-injective :
    (config : RunConfig) (x y : String) (t u : ℕ)
    → run_id_of x config t ≡ run_id_of y config u
    → (x ≡ y) × (t ≡ u)
unfolding run_id_of
run_id_of-injective config x y t u h =
    let (same, trial) =
      slash-show-injective (x <> ("/" <> config.name)) (y <> ("/" <> config.name)) t u h in
    (append_cancel_right x y ("/" <> config.name) same, trial)

abbrev pub scenario_ids : List Scenario → List String
scenario_ids scenarios = map (λ (s : Scenario). s.id) scenarios

module _ (config : RunConfig) where
  abbrev planned : List (ℕ × Scenario) → List String
  planned = pending [] config

  count-pending_done :
      (a : String) (done : List String) (plan : List (ℕ × Scenario))
      → contains done a ≡ true
      → count a (pending done config plan) ≡ 0
  unfolding pending count
  count-pending_done a done [] h = refl
  count-pending_done a done ((t, s) ∷ plan) h = ground (arith, count-pending_done a done plan)

  count-pending-le :
      (a : String) (done : List String) (plan : List (ℕ × Scenario))
      → count a (pending done config plan) ≤ count a (planned plan)
  unfolding pending count
  count-pending-le a done [] = omega arith
  count-pending-le a done ((t, s) ∷ plan) = ground (arith, count-pending-le a done plan)

  planned-append : (xs ys : List (ℕ × Scenario)) → planned (xs ++ ys) ≡ planned xs ++ planned ys
  unfolding pending
  planned-append [] ys = refl
  planned-append ((t, s) ∷ xs) ys = rw (planned-append xs ys) refl

  count-planned :
      (a : String) (t n : ℕ) (ss : List Scenario)
      → count a (planned (plan_from ss t (suc n)))
        ≡ count a (planned (trials_of ss t)) + count a (planned (plan_from ss (suc t) n))
  unfolding plan_from
  count-planned a t n ss =
      rw planned-append
        (count-append a (planned (trials_of ss t)) (planned (plan_from ss (suc t) n)))

  count-trials_of :
      (x : String) (t : ℕ) (ss : List Scenario)
      → count (run_id_of x config t) (planned (trials_of ss t)) ≤ count x (scenario_ids ss)
  unfolding trials_of pending count
  count-trials_of x t [] = omega arith
  count-trials_of x t (s ∷ ss) =
      ground (arith, count-trials_of x t ss, run_id_of-injective config x s.id t t)

  count-trials_of_other :
      (x : String) (t u : ℕ) (ss : List Scenario)
      → t < u
      → count (run_id_of x config t) (planned (trials_of ss u)) ≡ 0
  unfolding trials_of pending count
  count-trials_of_other x t u [] h = refl
  count-trials_of_other x t u (s ∷ ss) h =
      ground (arith, count-trials_of_other x t u ss, run_id_of-injective config x s.id t u)

  count-plan_from_other :
      (x : String) (t u n : ℕ) (ss : List Scenario)
      → t < u
      → count (run_id_of x config t) (planned (plan_from ss u n)) ≡ 0
  unfolding plan_from count pending
  count-plan_from_other x t u zero ss h = refl
  count-plan_from_other x t u (suc n) ss h = omega (
    arith,
    count-planned (run_id_of x config t) u n ss,
    count-trials_of_other x t u ss h,
    count-plan_from_other x t (suc u) n ss (omega arith),
  )

  trials_of-cases :
      (a : String) (t : ℕ) (ss : List Scenario)
      → (count a (planned (trials_of ss t)) ≡ 0) ⊎ ((x : String) × (a ≡ run_id_of x config t))
  unfolding trials_of pending count
  trials_of-cases a t [] = inl refl
  trials_of-cases a t (s ∷ ss) = elim (Bool-cases (a == run_id_of s.id config t)) [
    | inl same ↦ inr (s.id, ground (arith, same))
    | inr other ↦ elim (trials_of-cases a t ss) [ inl h ↦ inl (ground arith) | inr h ↦ inr h ]
  ]

  planned-Distinct :
      (ss : List Scenario) (t n : ℕ)
      → Distinct (scenario_ids ss)
      → Distinct (planned (plan_from ss t n))
  unfolding Distinct plan_from count pending
  planned-Distinct ss t zero h a = omega arith
  planned-Distinct ss t (suc n) h a = elim (trials_of-cases a t ss) [
    | inl none_here ↦
        omega (arith, count-planned a t n ss, none_here, planned-Distinct ss (suc t) n h a)
    | inr (x, p) ↦ rw p (
        omega (
          arith,
          count-planned (run_id_of x config t) t n ss,
          count-trials_of x t ss,
          h x,
          count-plan_from_other x t (suc t) n ss (omega arith),
        ))
  ]

count-existing :
    (a : String) (xs ys : List RunRecord)
    → count a (existing_run_ids (xs ++ ys))
      ≡ count a (existing_run_ids xs) + count a (existing_run_ids ys)
unfolding existing_run_ids count
count-existing a [] ys = omega arith
count-existing a (x ∷ xs) ys = omega (arith, count-existing a xs ys)

module _ {W : Type 0} (sessions : Sessions W) (admin : Admin W) (models : Models)
    (lower : String → String) (shown : HarnessFault → String) (matrix : String) (config : RunConfig)
    (runner : Runs W) (max_runs : Option ℕ) where
  -- Where no two scenarios have one id and no run is in the results file twice, no run is in it
  -- twice after a matrix of runs, whatever the runner and the servers do, and whether the matrix
  -- returns or raises.
  pub run_matrix-Distinct :
      (scenarios : List Scenario) (trials : ℕ) (b : Batch W)
      → Distinct (scenario_ids scenarios)
      → Distinct (existing_run_ids b.runs)
      → Distinct (
          existing_run_ids
            (run_matrix sessions admin models lower shown matrix config runner max_runs scenarios
              trials b).1.runs)
  unfolding Distinct Added
  run_matrix-Distinct scenarios trials b h k a =
      let old = existing_run_ids b.runs in
      let plan = plan_from scenarios 1 trials in
      let (new, p, q, returned, bound) =
        run_matrix-Added sessions admin models lower shown matrix config runner max_runs scenarios
          trials b in
      rw p (elim (Bool-cases (contains old a)) [
        | inl there ↦ omega (
          arith,
          count-existing a b.runs new,
          q a,
          k a,
          count-pending_done config a old plan there,
        )
        | inr fresh ↦ omega (
          arith,
          count-existing a b.runs new,
          q a,
          count-contains a old fresh,
          count-pending-le config a old plan,
          planned-Distinct config scenarios 1 trials h a,
        )
      ])

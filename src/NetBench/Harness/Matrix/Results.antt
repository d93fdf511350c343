-- ===== src/NetBench/Harness/Matrix/Results.antt =====
-- The results file under a run and under a matrix of runs.
use mathlib.Core.List.{append-nil, append_assoc}
use net_twin.Prelude.{
  ℕ, ◌+◌, ◌≤◌, ◌≡◌, refl, ap, ◌∙◌, sym, inl, inr, ◌⊎◌, String, false, List, [], ◌∷◌, ◌++◌, Option,
  none, some, arith, if◌then◌else◌, contains, string_eq, Bool-cases,
}
use net_twin.Prelude.Text.{size}
use net_twin.Prelude.Count.{count}
use net_twin.Prelude.Result.{Result, ok, err}
use net_twin.Prelude.Action.{Action, Action-cases}
use net_twin.NetBench.Clients.{Sessions}
use net_twin.NetBench.Runner.{Runs}
use net_twin.NetBench.Scoring.{Scenario}
use net_twin.NetBench.Harness.{
  HarnessFault, raised, no_golden, not_converged, not_golden, reset_missed, step_failed, RunConfig,
  RunRecord, run_id_of, Admin, Models, Batch, existing_run_ids,
}
use net_twin.NetBench.Harness.Run.{
  run_unrecorded, run_one, recorded_run, append_record, record_of, reset_quietly,
}
use net_twin.NetBench.Harness.Matrix.{go_on, attempt, run_plan, run_matrix, is_full, plan_from}

-- The ids of a plan that are not recorded.
unfoldable pub pending : List String → RunConfig → List (ℕ × Scenario) → List String
pending done config [] = []
pending done config ((trial, scenario) ∷ plan) =
    let rest = pending done config plan in
    if contains done (run_id_of scenario.id config trial)
    then rest
    else run_id_of scenario.id config trial ∷ rest

-- What a method adds to the results file: runs of the plan, each as often as it is planned at most; what
-- it returns is these runs, and no more than are allowed.
unfoldable pub Added :
    {W : Type 0}
    → Option ℕ
    → List String
    → List RunRecord
    → Batch W
    → Result HarnessFault (List RunRecord) × Batch W
    → Type 0
Added max_runs ids acc b p =
    (new : List RunRecord) × (p.1.runs ≡ b.runs ++ new)
    × ((a : String) → count a (existing_run_ids new) ≤ count a ids)
    × ((rs : List RunRecord) → p.0 ≡ ok rs → rs ≡ acc ++ new)
    × ((n : ℕ) → max_runs ≡ some n → size acc ≤ n → size (acc ++ new) ≤ n)

module _ {W : Type 0} (max_runs : Option ℕ) where
  Added-stop :
      (ids : List String) (acc : List RunRecord) (b t : Batch W)
      (r : Result HarnessFault (List RunRecord))
      → t.runs ≡ b.runs
      → ((rs : List RunRecord) → r ≡ ok rs → rs ≡ acc)
      → Added max_runs ids acc b (r, t)
  unfolding Added existing_run_ids count
  Added-stop ids acc b t r h k = (
    [],
    h ∙ sym (append-nil b.runs),
    (λ a. omega arith),
    (λ rs e. k rs e ∙ sym (append-nil acc)),
    λ n m l. rw (append-nil acc) l,
  )

  -- A run of the plan that is not done may be left out,
  Added-skip :
      (id : String) (ids : List String) (acc : List RunRecord) (b t : Batch W)
      (p : Result HarnessFault (List RunRecord) × Batch W)
      → t.runs ≡ b.runs
      → Added max_runs ids acc t p
      → Added max_runs (id ∷ ids) acc b p
  unfolding Added count
  Added-skip id ids acc b t p h (new, k, l, m, n) =
      (new, rw h at k, (λ a. omega (arith, l a)), m, n)

  -- or it is recorded.
  Added-record :
      (r : RunRecord) (ids : List String) (acc : List RunRecord) (b t : Batch W)
      (p : Result HarnessFault (List RunRecord) × Batch W)
      → t.runs ≡ b.runs ++ (r ∷ [])
      → ((n : ℕ) → max_runs ≡ some n → size acc ≤ n → size (acc ++ (r ∷ [])) ≤ n)
      → Added max_runs ids (acc ++ (r ∷ [])) t p
      → Added max_runs (r.run_id ∷ ids) acc b p
  unfolding Added existing_run_ids count
  Added-record r ids acc b t p h q (new, k, l, m, n) = (
    r ∷ new,
    k ∙ (ap (λ xs. xs ++ new) h ∙ append_assoc b.runs (r ∷ []) new),
    (λ a. omega (arith, l a)),
    (λ rs e. m rs e ∙ append_assoc acc (r ∷ []) new),
    λ i e j. rw (append_assoc acc (r ∷ []) new) at (n i e (q i e j)),
  )

size-snoc : {A : Type 0} (xs : List A) (x : A) → size (xs ++ (x ∷ [])) ≡ size xs + 1
size-snoc [] x = refl
size-snoc (y ∷ xs) x = omega (arith, size-snoc xs x)

not_full :
    (max_runs : Option ℕ) (acc : List RunRecord) (r : RunRecord)
    → is_full max_runs acc ≡ false
    → (n : ℕ) → max_runs ≡ some n
    → size acc ≤ n
    → size (acc ++ (r ∷ [])) ≤ n
unfolding is_full
not_full none acc r h n e l = ground (arith, e)
not_full (some m) acc r h n e l = ground (arith, size-snoc acc r, e)

module _ {W : Type 0} (sessions : Sessions W) (admin : Admin W) (models : Models)
    (lower : String → String) (shown : HarnessFault → String) (matrix : String) (config : RunConfig)
    (runner : Runs W) where
  run_one-cases :
      (scenario : Scenario) (trial : ℕ) (b : Batch W)
      → ((r : RunRecord) × (t : Batch W) × (run_one sessions admin models lower shown matrix
              scenario config trial runner b
            ≡ (ok r, t))
          × (r.run_id ≡ run_id_of scenario.id config trial)
          × (t.runs ≡ b.runs ++ (r ∷ [])))
        ⊎ ((e : HarnessFault) × (t : Batch W) × (run_one sessions admin models lower shown matrix
                scenario config trial runner b
              ≡ (err e, t))
            × (t.runs ≡ b.runs))
  unfolding run_one recorded_run record_of append_record reset_quietly
  run_one-cases scenario trial b =
      elim (Action-cases (
        run_unrecorded sessions admin models lower shown matrix scenario config trial runner b.runs
          b.harness)) [
            | inl (j, h, p) ↦ rw p (inl (_, _, refl, refl, refl))
            | inr (e, h, p) ↦ rw p (inr (e, _, refl, refl))
          ]

  module _ (max_runs : Option ℕ) where
    abbrev follow :
        List String
        → List (ℕ × Scenario)
        → List RunRecord
        → Action HarnessFault (Batch W) (List RunRecord)
    follow = run_plan sessions admin models lower shown matrix config runner max_runs

    go_on-Added :
        (id : String) (done : List String) (plan : List (ℕ × Scenario)) (acc : List RunRecord)
        (b t : Batch W) (e : HarnessFault)
        → t.runs ≡ b.runs
        → Added max_runs (pending done config plan) acc t (follow done plan acc t)
        → Added max_runs (id ∷ pending done config plan) acc b (
            go_on sessions admin models lower shown matrix config runner max_runs
              (follow done plan)
              acc
              (err e)
              t)
    unfolding go_on
    go_on-Added id done plan acc b t (step_failed rid f) h k =
        Added-skip max_runs id _ acc b t _ h k
    go_on-Added id done plan acc b t (raised f) h k =
        Added-stop max_runs _ acc b t _ h (λ rs e. ground (arith, e))
    go_on-Added id done plan acc b t no_golden h k =
        Added-stop max_runs _ acc b t _ h (λ rs e. ground (arith, e))
    go_on-Added id done plan acc b t not_converged h k =
        Added-stop max_runs _ acc b t _ h (λ rs e. ground (arith, e))
    go_on-Added id done plan acc b t not_golden h k =
        Added-stop max_runs _ acc b t _ h (λ rs e. ground (arith, e))
    go_on-Added id done plan acc b t reset_missed h k =
        Added-stop max_runs _ acc b t _ h (λ rs e. ground (arith, e))

    pub run_plan-Added :
        (done : List String) (plan : List (ℕ × Scenario)) (acc : List RunRecord) (b : Batch W)
        → Added max_runs (pending done config plan) acc b (follow done plan acc b)
    unfolding run_plan pending attempt go_on
    run_plan-Added done [] acc b = Added-stop max_runs _ acc b b _ refl (λ rs e. ground (arith, e))
    run_plan-Added done ((trial, scenario) ∷ plan) acc b =
        elim (Bool-cases (is_full max_runs acc)) [
          | inl full ↦ rw full (Added-stop max_runs _ acc b b _ refl (λ rs e. ground (arith, e)))
          | inr room ↦ elim (Bool-cases (contains done (run_id_of scenario.id config trial))) [
            | inl old ↦ rw (room, old) (run_plan-Added done plan acc b)
            | inr fresh ↦ elim (run_one-cases scenario trial b) [
              | inl (r, t, p, q, s) ↦
                  rw (room, fresh, p, ← q)
                    (Added-record max_runs r (pending done config plan) acc b t _ s
                      (not_full max_runs acc r room) (run_plan-Added done plan (acc ++ (r ∷ [])) t))
              | inr (e, t, p, s) ↦
                  rw (room, fresh, p)
                    (go_on-Added _ done plan acc b t e s (run_plan-Added done plan acc t))
            ]
          ]
        ]

    -- Whether a matrix of runs returns or raises, its results file is what it was with runs behind
    -- it, none more often than it is planned and none that was recorded; what it returns is these
    -- runs, and they are no more than are allowed.
    pub run_matrix-Added :
        (scenarios : List Scenario) (trials : ℕ) (b : Batch W)
        → Added max_runs
            (pending (existing_run_ids b.runs) config (plan_from scenarios 1 trials))
            []
            b
            (run_matrix sessions admin models lower shown matrix config runner max_runs scenarios
              trials b)
    unfolding run_matrix
    run_matrix-Added scenarios trials b =
        run_plan-Added (existing_run_ids b.runs) (plan_from scenarios 1 trials) [] b

-- ===== src/Evaluation/OneRun.antt =====
-- One evaluation run for each job, however its attempts are interleaved.
use review_signal.Evaluation.Floats.{Floats}
use review_signal.Base.{
  ℕ, ◌+◌, ◌≤◌, ◌≡◌, refl, ◌∙◌, inl, inr, Bool, true, false, ◌||◌, some, List, [], ◌∷◌, ◌++◌, arith,
  Bool-cases, length, keep, eq_refl, err, ok, nat_eq, list_eq, option_eq, ◌==◌, Text, Result,
}
use review_signal.Evaluation.Job.{
  EvaluationRun, Phase, guarding, inserting, rechecking, finished, is_of_job, already_recorded,
  columns_fit, record_run, advance, interleave, Attempt, new_run, EvaluationResult, set_phase,
  payload_type, score, is_integrity,
}

module _ {F : Type 0} where
  -- The rows that one job has.
  abbrev pub runs_of : ℕ → List (EvaluationRun F) → ℕ
  runs_of job_id rows = length (keep (is_of_job job_id) rows)

  runs_of-append :
      (job_id : ℕ) (rows : List (EvaluationRun F)) (run : EvaluationRun F)
      → run.job_id ≡ some job_id
      → runs_of job_id (rows ++ run ∷ []) ≡ runs_of job_id rows + 1
  runs_of-append job_id [] run h = simp (h, eq_refl (some job_id)) refl
  runs_of-append job_id (r ∷ rows) run h = ground (arith, runs_of-append job_id rows run h)

  already_recorded-append :
      (job_id : ℕ) (rows : List (EvaluationRun F)) (run : EvaluationRun F)
      → already_recorded job_id (rows ++ run ∷ [])
        ≡ already_recorded job_id rows || is_of_job job_id run
  unfolding already_recorded
  already_recorded-append job_id [] run = ground arith
  already_recorded-append job_id (r ∷ rows) run =
      ground (arith, already_recorded-append job_id rows run)

  none_of_job :
      (job_id : ℕ) (rows : List (EvaluationRun F))
      → already_recorded job_id rows ≡ false
      → runs_of job_id rows ≡ 0
  unfolding already_recorded
  none_of_job job_id [] h = refl
  none_of_job job_id (r ∷ rows) h = ground (arith, none_of_job job_id rows)

  -- What an attempt may rely on where it stands.
  abbrev pub Standing : ℕ → List (EvaluationRun F) → Phase F → Type 0
  Standing job_id rows guarding = Unit
  Standing job_id rows (inserting run) = run.job_id ≡ some job_id
  Standing job_id rows (rechecking e) = Unit
  Standing job_id rows (finished (ok u)) = already_recorded job_id rows ≡ true
  Standing job_id rows (finished (err e)) = Unit

  abbrev pub Kept : ℕ → List (EvaluationRun F) → List (EvaluationRun F) → Type 0
  Kept job_id rows rows' =
      (runs_of job_id rows' ≤ 1)
      × (already_recorded job_id rows ≡ true → already_recorded job_id rows' ≡ true)

  Standing-kept :
      (job_id : ℕ) (rows rows' : List (EvaluationRun F)) (p : Phase F)
      → (already_recorded job_id rows ≡ true → already_recorded job_id rows' ≡ true)
      → Standing job_id rows p
      → Standing job_id rows' p
  Standing-kept job_id rows rows' guarding keeps h = tt
  Standing-kept job_id rows rows' (inserting run) keeps h = h
  Standing-kept job_id rows rows' (rechecking e) keeps h = tt
  Standing-kept job_id rows rows' (finished (ok u)) keeps h = keeps h
  Standing-kept job_id rows rows' (finished (err e)) keeps h = tt

  -- An insert that the database takes is the job's first.
  record_run-Kept :
      (exists : Bool) (job_id : ℕ) (run : EvaluationRun F) (rows : List (EvaluationRun F))
      → run.job_id ≡ some job_id
      → runs_of job_id rows ≤ 1
      → let (r, rows') = record_run exists job_id run rows in
        Kept job_id rows rows' × (r ≡ ok tt → already_recorded job_id rows' ≡ true)
  unfolding record_run
  record_run-Kept exists job_id run rows own few = elim (Bool-cases (columns_fit run)) [
    | inr h ↦ rw (record_run, h) ((few, λ e. e), λ e. absurd (cc e))
    | inl h ↦ elim (Bool-cases exists) [
      | inr k ↦ rw (record_run, h, k) ((few, λ e. e), λ e. absurd (cc e))
      | inl k ↦ elim (Bool-cases (already_recorded job_id rows)) [
        | inl t ↦ rw (record_run, h, k, t) ((few, λ e. t), λ e. t)
        | inr t ↦
            let first : runs_of job_id (rows ++ run ∷ []) ≤ 1 =
              omega (arith, runs_of-append job_id rows run own, none_of_job job_id rows t) in
            let recorded : already_recorded job_id (rows ++ run ∷ []) ≡ true =
              already_recorded-append job_id rows run ∙ simp (t, own, eq_refl (some job_id)) refl in
            rw (record_run, h, k, t) ((first, λ e. recorded), λ e. recorded)
      ]
    ]
  ]

module _ {F : Type 0} (fl : Floats F) (repr : Text → Text) where
  -- What a session of one attempt leaves.
  abbrev pub Moved : ℕ → List (EvaluationRun F) → Phase F × List (EvaluationRun F) → Type 0
  Moved job_id rows (p, rows') = Kept job_id rows rows' × Standing job_id rows' p

  advance-Moved :
      (job_id : ℕ) (attempt : Attempt F) (p : Phase F) (rows : List (EvaluationRun F))
      → runs_of job_id rows ≤ 1
      → Standing job_id rows p
      → Moved job_id rows (advance fl repr job_id attempt p rows)
  unfolding advance new_run
  advance-Moved job_id attempt guarding rows few h = typed (payload_type attempt.payload) refl
    where
      scored :
          (t : Text) (r : Result (EvaluationResult F))
          → payload_type attempt.payload ≡ ok t
          → already_recorded job_id rows ≡ false
          → score fl repr attempt t ≡ r
          → Moved job_id rows (advance fl repr job_id attempt guarding rows)
      scored t (err e) k m s = rw (advance, k, m, s) ((few, λ x. absurd (cc x)), tt)
      scored t (ok result) k m s = rw (advance, k, m, s) ((few, λ x. absurd (cc x)), refl)

      typed :
          (r : Result Text)
          → payload_type attempt.payload ≡ r
          → Moved job_id rows (advance fl repr job_id attempt guarding rows)
      typed (err e) k = rw (advance, k) ((few, λ x. x), tt)
      typed (ok t) k = elim (Bool-cases (already_recorded job_id rows)) [
        | inl m ↦ rw (advance, k, m) ((few, λ x. m), m)
        | inr m ↦ scored t _ k m refl
      ]
  advance-Moved job_id attempt (inserting run) rows few h =
      judged (record_run attempt.job_exists job_id run rows).0 refl
        (record_run-Kept attempt.job_exists job_id run rows h few)
    where
      judged :
          (r : Result (Unit {0}))
          → (record_run attempt.job_exists job_id run rows).0 ≡ r
          → (let (s, rows') = record_run attempt.job_exists job_id run rows in
              Kept job_id rows rows' × (s ≡ ok tt → already_recorded job_id rows' ≡ true))
          → Moved job_id rows (advance fl repr job_id attempt (inserting run) rows)
      judged (ok u) k (kept, recorded) = rw (advance, k) (kept, recorded k)
      judged (err e) k (kept, recorded) = elim (Bool-cases (is_integrity e.class_of)) [
        | inl m ↦ rw (advance, k, m) (kept, tt)
        | inr m ↦ rw (advance, k, m) (kept, tt)
      ]
  advance-Moved job_id attempt (rechecking e) rows few h =
      elim (Bool-cases (already_recorded job_id rows)) [
        | inl m ↦ rw (advance, m) ((few, λ x. refl), m)
        | inr m ↦ rw (advance, m) ((few, λ x. absurd (cc x)), tt)
      ]
  advance-Moved job_id attempt (finished r) rows few h = ((few, λ x. x), h)

  -- However the sessions of any number of attempts at a job are interleaved, the job has at most one
  -- evaluation run in the end; and an attempt that has ended well finds it recorded.
  pub interleave-runs_of :
      (job_id : ℕ) (attempts : ℕ → Attempt F) (schedule : List ℕ) (phases : ℕ → Phase F)
      (rows : List (EvaluationRun F))
      → runs_of job_id rows ≤ 1
      → ((k : ℕ) → Standing job_id rows (phases k))
      → let (phases', rows') = interleave fl repr job_id attempts schedule phases rows in
        (runs_of job_id rows' ≤ 1) × ((k : ℕ) → Standing job_id rows' (phases' k))
  unfolding interleave
  interleave-runs_of job_id attempts [] phases rows few standing = (few, standing)
  interleave-runs_of job_id attempts (k ∷ rest) phases rows few standing =
      let moved = advance-Moved job_id (attempts k) (phases k) rows few (standing k) in
      let (p, rows') = advance fl repr job_id (attempts k) (phases k) rows in
      interleave-runs_of job_id attempts rest (set_phase fl repr phases k p) rows' moved.0.0 (λ j.
        elim (Bool-cases (k == j)) [
          | inl same ↦ rw (same) moved.1
          | inr other ↦
              rw (other) (Standing-kept job_id rows rows' (phases j) moved.0.1 (standing j))
        ])

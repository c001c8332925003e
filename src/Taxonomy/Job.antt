-- ===== src/Taxonomy/Job.antt =====
-- `generate` of services/taxonomy_generation.py and the job handler of
-- workers/reviewsignal_worker/jobs/taxonomy.py, run in `session_scope` of db.py. A provider's answer
-- to a prompt is a parameter.
use review_signal.Base.{
  ℕ, Bool, true, false, not, none, some, List, [], ◌∷◌, ◌++◌, map, leb, if◌then◌else◌, length, take,
  keep, ◌==◌, Text, codes, decimal_text, join, ExceptionClass, permanent_job_error,
  taxonomy_generation_error, Result, err, ok, raise, nat_eq, list_eq, option_eq,
}
use review_signal.Ingestion.Record.{Review}
use review_signal.Taxonomy.Record.{GeneratedTaxonomy, VersionStatus, TaxonomyVersion}
use review_signal.Taxonomy.Provider.{
  StructuredOutcome, StructuredOutputError, Generated, valid, rejected, raised,
}
use review_signal.Taxonomy.Generation.{
  Session, Ran, and_then, commit, added, record_run, next_version_number, store_nodes,
  ProviderNames, rejected_run, stored_run,
}

-- `ORDER BY created_at DESC`, stable.
unfoldable pub insert_newest : Review → List Review → List Review
insert_newest r [] = r ∷ []
insert_newest r (q ∷ qs) =
    let rest = insert_newest r qs in if leb q.created_at r.created_at then r ∷ q ∷ qs else q ∷ rest

unfoldable pub newest_first : List Review → List Review
newest_first [] = []
newest_first (r ∷ rs) = insert_newest r (newest_first rs)

-- `review_text IS NOT NULL AND review_text <> ''`
abbrev pub has_review_text : Review → Bool
has_review_text r = elim r.review_text [ none ↦ false | some t ↦ not (t == []) ]

-- `_sample`
unfoldable pub sample : ℕ → List Review → List Review
unfolding newest_first
sample sample_size reviews = take sample_size (newest_first (keep has_review_text reviews))

-- One line of `_format_reviews`; a sampled review has a text.
unfoldable pub review_line : Review → Text
unfolding decimal_text
review_line r =
    codes "- ("
    ++ (decimal_text r.rating
        ++ (codes "/5) " ++ (elim r.review_text [ none ↦ codes "None" | some t ↦ t ])))

unfoldable pub format_reviews : List Review → Text
unfolding review_line join
format_reviews reviews = join (10 ∷ []) (map review_line reviews)

-- `TAXONOMY_GENERATE_V1.render`: the template ends with its one field.
abbrev pub template_head : Text
template_head =
    codes
      "You are building a review analysis taxonomy for a photo imaging business.\n\nRead the customer reviews below and produce a two-level taxonomy of the topics they\nactually discuss.\n\nRules:\n- Derive every category from these reviews. Do not add categories the reviews do not support.\n- Keep categories distinct. Merge any two that would overlap in meaning.\n- Give every category and subcategory one sentence describing what belongs in it.\n- Prefer a few meaningful categories over many narrow ones.\n- Add a subcategory only where the reviews genuinely distinguish one.\n\nReviews:\n"

unfoldable pub render : Text → Text
render reviews = template_head ++ reviews

module _ (lower : Text → Text) (names : ProviderNames)
    (provider : Text → Generated GeneratedTaxonomy) where
  -- `_record_rejection`
  unfoldable pub record_rejection :
      StructuredOutputError → (input_count sample_size : ℕ) → Session → Ran (Unit {0})
  record_rejection e input_count sample_size s =
      and_then (record_run (rejected_run names e input_count sample_size) s) (λ run s'. commit s')

  -- The `TaxonomyVersion` row of `_store`.
  unfoldable pub add_version : ℕ → Session → Ran TaxonomyVersion
  add_version run_id s =
      let version : TaxonomyVersion = record {
        id = s.next_id;
        version_number = next_version_number s.work.versions;
        status = VersionStatus.candidate;
        created_by = codes "model";
        parent_version_id = none;
        generation_model_run_id = some run_id;
      } in
      added version (record s.work { versions = version ∷ s.work.versions }) s

  -- `_store`
  unfoldable pub store :
      StructuredOutcome GeneratedTaxonomy
      → (input_count sample_size : ℕ) → Session
      → Ran TaxonomyVersion
  store o input_count sample_size s =
      and_then (record_run (stored_run names o input_count sample_size) s) (λ run s₁.
        and_then (add_version run.id s₁) (λ version s₂.
          and_then (store_nodes lower version.id o.value.nodes 0 [] s₂)
            (λ used s₃. (ok version, s₃))))

  -- `generate` behind the model's answer.
  unfoldable pub take_answer :
      Generated GeneratedTaxonomy → (input_count sample_size : ℕ) → Session → Ran TaxonomyVersion
  take_answer (valid o) input_count sample_size s = store o input_count sample_size s
  take_answer (rejected e) input_count sample_size s =
      and_then (record_rejection e input_count sample_size s)
        (λ u s'. (raise taxonomy_generation_error e.message, s'))
  take_answer (raised e) input_count sample_size s = (err e, s)

  abbrev pub generate_from : List Review → ℕ → Session → Ran TaxonomyVersion
  generate_from [] sample_size s =
      (raise taxonomy_generation_error (codes "No reviews with text to ground a taxonomy in."), s)
  generate_from (r ∷ rs) sample_size s =
      take_answer (provider (render (format_reviews (r ∷ rs)))) (length (r ∷ rs)) sample_size s

  -- `generate`
  unfoldable pub generate : ℕ → Session → Ran TaxonomyVersion
  generate sample_size s = generate_from (sample sample_size s.work.reviews) sample_size s

-- `session_scope`: commit on a normal end, roll back on an exception.
unfoldable pub session_scope : {A : Type 0} → Ran A → Ran A
session_scope (err e, s) = (err e, record s { work = s.committed })
session_scope (ok a, s) = elim (commit s).0 [
  | err e ↦ (err e, record s { work = s.committed })
  | ok u ↦ (ok a, (commit s).1)
]

abbrev is_generation_error : ExceptionClass → Bool
is_generation_error taxonomy_generation_error = true
is_generation_error c = false

-- The handler's `except`.
unfoldable pub as_permanent : {A : Type 0} → Result A → Result (Unit {0})
as_permanent (ok a) = ok tt
as_permanent (err e) =
    if is_generation_error e.class_of then raise permanent_job_error e.message else err e

-- `taxonomy_generate`
unfoldable pub taxonomy_generate :
    (Text → Text)
    → ProviderNames
    → (Text → Generated GeneratedTaxonomy)
    → ℕ
    → Session
    → Ran (Unit {0})
taxonomy_generate lower names provider sample_size s =
    let (r, s') = session_scope (generate lower names provider sample_size s) in
    (as_permanent r, s')

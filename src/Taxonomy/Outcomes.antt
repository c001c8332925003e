-- ===== src/Taxonomy/Outcomes.antt =====
-- What the taxonomy job has committed when it ends.
use review_signal.Base.{
  ok, ℕ, ◌≡◌, refl, sym, ap, ◌≢◌, true, List, [], ◌∷◌, length, Text, codes, permanent_job_error,
  raise, nat_eq, list_eq, option_eq, ◌+◌, taxonomy_generation_error, zero, suc, ◌⊎◌, inl, inr,
  false, none, some, All, keep,
}
use review_signal.Ingestion.Record.{Review}
use review_signal.Taxonomy.Record.{GeneratedTaxonomy, ModelRun, Store, store_accepted}
use review_signal.Taxonomy.Provider.{StructuredOutputError, Generated, rejected}
use review_signal.Taxonomy.Generation.{
  Session, flush, commit, record_run, ProviderNames, rejected_run,
}
use review_signal.Taxonomy.Job.{
  generate_from, sample, format_reviews, render, record_rejection, take_answer, generate,
  session_scope, as_permanent, taxonomy_generate, newest_first, has_review_text,
}

keep-no_texts :
    (reviews : List Review)
    → All (λ r. (r.review_text ≡ none) ⊎ (r.review_text ≡ some [])) reviews
    → keep has_review_text reviews ≡ []
keep-no_texts [] h = refl
keep-no_texts (r ∷ rest) (gone, h) = rw (textless gone) (keep-no_texts rest h)
  where
    textless : (r.review_text ≡ none) ⊎ (r.review_text ≡ some []) → has_review_text r ≡ false
    textless (inl e) = rw (e) refl
    textless (inr e) = rw (e) refl

sample-empty :
    (sample_size : ℕ) (reviews : List Review)
    → All (λ r. (r.review_text ≡ none) ⊎ (r.review_text ≡ some [])) reviews
    → sample sample_size reviews ≡ []
unfolding sample newest_first
sample-empty zero reviews h = refl
sample-empty (suc n) reviews h = rw (sample, keep-no_texts reviews h) refl

module _ (lower : Text → Text) (names : ProviderNames)
    (provider : Text → Generated GeneratedTaxonomy) where
  -- The prompt that a corpus gives.
  abbrev pub prompt_of : ℕ → Session → Text
  prompt_of sample_size s = render (format_reviews (sample sample_size s.work.reviews))

  -- The tables with one more model run.
  abbrev pub with_run : ModelRun → Store → Store
  with_run run t = record t { model_runs = run ∷ t.model_runs }

  -- A corpus in which no review has a text, of any size and order: the job is dead-lettered without a
  -- model call, and nothing changes, where nothing was pending.
  pub taxonomy_generate-empty :
      (sample_size : ℕ) (s : Session)
      → s.work ≡ s.committed
      → All (λ r. (r.review_text ≡ none) ⊎ (r.review_text ≡ some [])) s.work.reviews
      → taxonomy_generate lower names provider sample_size s
        ≡ (raise permanent_job_error (codes "No reviews with text to ground a taxonomy in."), s)
  unfolding taxonomy_generate generate session_scope as_permanent
  taxonomy_generate-empty sample_size s clean no_texts =
      rw
        (
          sample-empty sample_size s.work.reviews no_texts,
          taxonomy_generate,
          generate,
          session_scope,
          as_permanent,
        )
        (ap
          (λ (t : Store). (
            raise permanent_job_error (codes "No reviews with text to ground a taxonomy in."),
            record s { work = t },
          ))
          (sym clean))

  -- The session once the rejected run is recorded and committed.
  abbrev recorded : StructuredOutputError → (input_count sample_size : ℕ) → Session → Session
  recorded e input_count sample_size s =
      let t = with_run (rejected_run names e input_count sample_size s.next_id) s.work in
      record { committed = t; work = t; next_id = s.next_id + 1 }

  commit-ok :
      (s : Session)
      → store_accepted s.work ≡ true
      → commit s ≡ (ok tt, record s { committed = s.work })
  unfolding commit flush
  commit-ok s accepted = rw (accepted, commit, flush) refl

  record_rejection-ok :
      (e : StructuredOutputError) (input_count sample_size : ℕ) (s : Session)
      → store_accepted (with_run (rejected_run names e input_count sample_size s.next_id) s.work)
        ≡ true
      → record_rejection lower names provider e input_count sample_size s
        ≡ (ok tt, recorded e input_count sample_size s)
  unfolding record_rejection record_run flush
  record_rejection-ok e input_count sample_size s accepted =
      let t = with_run (rejected_run names e input_count sample_size s.next_id) s.work in
      rw (accepted, record_rejection, record_run, flush)
        (commit-ok (record s { work = t; next_id = s.next_id + 1 }) accepted)

  generate_from-rejected :
      (l : List Review) (sample_size : ℕ) (s : Session) (e : StructuredOutputError)
      → l ≢ []
      → provider (render (format_reviews l)) ≡ rejected e
      → store_accepted (with_run (rejected_run names e (length l) sample_size s.next_id) s.work)
        ≡ true
      → generate_from lower names provider l sample_size s
        ≡ (raise taxonomy_generation_error e.message, recorded e (length l) sample_size s)
  unfolding take_answer
  generate_from-rejected [] sample_size s e texts answer accepted = absurd (texts refl)
  generate_from-rejected (q ∷ qs) sample_size s e texts answer accepted =
      rw (answer, record_rejection-ok e (length (q ∷ qs)) sample_size s accepted, take_answer) refl

  -- A reply that never matched the schema: the job is dead-lettered, and though its exception rolls
  -- the transaction back, the record of the rejected run stays committed, with no version and no node
  -- stored, where the database accepts that record.
  pub taxonomy_generate-rejected :
      (sample_size : ℕ) (s : Session) (e : StructuredOutputError)
      → sample sample_size s.work.reviews ≢ []
      → provider (prompt_of sample_size s) ≡ rejected e
      → let run =
          rejected_run names e (length (sample sample_size s.work.reviews)) sample_size s.next_id in
        store_accepted (with_run run s.work) ≡ true
        → let (r, s') = taxonomy_generate lower names provider sample_size s in
          (r ≡ raise permanent_job_error e.message)
          × (s'.committed ≡ with_run run s.work)
          × (s'.work ≡ s'.committed)
  unfolding taxonomy_generate generate session_scope as_permanent
  taxonomy_generate-rejected sample_size s e texts answer accepted =
      rw
        (
          generate_from-rejected (sample sample_size s.work.reviews) sample_size s e texts answer
              accepted,
          taxonomy_generate,
          generate,
          session_scope,
          as_permanent,
        )
        (refl, refl, refl)

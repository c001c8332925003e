-- ===== src/Taxonomy/Examples.antt =====
-- A small reply with a repeated name, an empty corpus, and a model that never fits the schema.
use review_signal.Base.{
  ℕ, ◌≡◌, refl, ◌≢◌, true, false, none, some, List, [], ◌∷◌, ltb, if◌then◌else◌, length, Text,
  codes, end, permanent_job_error, Result, ok, raise, nat_eq, list_eq, option_eq, inl, inr,
}
use review_signal.Ingestion.Record.{Review, AnalysisStatus}
use review_signal.Taxonomy.Record.{
  GeneratedCategory, GeneratedTaxonomy, Store, slug_taken, slugs_unique, numbers_unique,
  store_accepted,
}
use review_signal.Taxonomy.Slug.{slug_base, is_used, next_slug, unique_slug}
use review_signal.Taxonomy.SlugLaws.{unique_slug-free}
use review_signal.Taxonomy.Provider.{
  StructuredOutputError, Generated, rejected, Validation, accepts, errors, generate_structured,
}
use review_signal.Taxonomy.Attempts.{generate_structured-Ends, Ends}
use review_signal.Taxonomy.Nodes.{store_nodes-Covers, Covered, Covers}
use review_signal.Taxonomy.Outcomes.{with_run, taxonomy_generate-empty, taxonomy_generate-rejected}
use review_signal.Taxonomy.Generation.{Session, store_nodes, ProviderNames, rejected_run}
use review_signal.Taxonomy.Job.{insert_newest, newest_first, sample, taxonomy_generate}

abbrev keep_case : Text → Text
keep_case t = t

second_slug :
    unique_slug keep_case (codes "wait time") (codes "wait_time" ∷ []) ≡ codes "wait_time_2"
unfolding unique_slug slug_base next_slug
second_slug = refl

unique_slug-free_example :
    is_used
      (unique_slug keep_case (codes "wait time") (codes "wait_time" ∷ []))
      (codes "wait_time" ∷ [])
    ≡ false
unique_slug-free_example = unique_slug-free keep_case (codes "wait time") (codes "wait_time" ∷ [])

abbrev review : Review
review = record {
  id = 1;
  source = codes "stub";
  source_review_id = codes "r1";
  rating = 5;
  review_text = some (codes "good");
  reviewer_name = none;
  created_at = 10;
  updated_at = 10;
  owner_reply_text = none;
  owner_reply_at = none;
  language = codes "en";
  raw_payload = end;
  analysis_status = AnalysisStatus.pending;
  inserted_at = 10;
}

abbrev tables : List Review → Store
tables reviews = record { reviews = reviews; model_runs = []; versions = []; nodes = [] }

abbrev session : List Review → Session
session reviews = record { committed = tables reviews; work = tables reviews; next_id = 7 }

abbrev twice : List GeneratedCategory
twice =
    record { name = codes "staff"; description = codes "d"; children = [] }
    ∷ record { name = codes "staff"; description = codes "e"; children = [] }
    ∷ []

nothing_stored : Covers 1 [] []
unfolding slug_taken slugs_unique
nothing_stored = ((λ slug h. cc h), refl)

store_nodes-Covers_example :
    let (r, s') = store_nodes keep_case 1 twice 0 [] (session []) in Covered 1 r s'
store_nodes-Covers_example = store_nodes-Covers keep_case 1 twice 0 [] (session []) nothing_stored

abbrev names : ProviderNames
names = record { name = codes "ollama"; model_name = codes "m"; model_version = none }

abbrev misfit : StructuredOutputError
misfit = record { message = codes "no"; attempts = 2; latency_ms = 3 }

abbrev never_fits : Text → Generated GeneratedTaxonomy
never_fits prompt = rejected misfit

-- One review has a blank text, the other none.
abbrev textless : List Review
textless = record review { review_text = some [] } ∷ record review { review_text = none } ∷ []

taxonomy_generate-empty_example :
    taxonomy_generate keep_case names never_fits 5 (session textless) ≡ (
      raise permanent_job_error (codes "No reviews with text to ground a taxonomy in."),
      session textless,
    )
taxonomy_generate-empty_example =
    taxonomy_generate-empty keep_case names never_fits 5 (session textless) refl
      (inr refl, (inl refl, tt))

one_text : sample 5 (review ∷ []) ≢ []
unfolding sample newest_first insert_newest
one_text e = cc e

fits_tables :
    store_accepted (
      with_run keep_case names never_fits
        (rejected_run names misfit (length (sample 5 (review ∷ []))) 5 7)
        (tables (review ∷ [])))
    ≡ true
unfolding store_accepted slugs_unique numbers_unique rejected_run
fits_tables = refl

taxonomy_generate-rejected_example :
    let run = rejected_run names misfit (length (sample 5 (review ∷ []))) 5 7 in
    let (r, s') = taxonomy_generate keep_case names never_fits 5 (session (review ∷ [])) in
    (r ≡ raise permanent_job_error (codes "no"))
    × (s'.committed ≡ with_run keep_case names never_fits run (tables (review ∷ [])))
    × (s'.work ≡ s'.committed)
taxonomy_generate-rejected_example =
    taxonomy_generate-rejected keep_case names never_fits 5 (session (review ∷ [])) misfit one_text
      refl fits_tables

-- A model that answers only the stricter prompt well.
abbrev echo : Text → Result Text
echo prompt = ok prompt

abbrev long_enough : Text → Validation ℕ
long_enough t = if ltb 5 (length t) then accepts (length t) else errors 3

generate_structured-Ends_example :
    Ends echo long_enough (codes "hi") 4 (generate_structured echo long_enough (codes "hi") 4)
generate_structured-Ends_example = generate_structured-Ends echo long_enough (codes "hi") 4

-- ===== src/Taxonomy/Generation.antt =====
-- `TaxonomyGenerationService` of services/taxonomy_generation.py, and the job that runs it,
-- workers/reviewsignal_worker/jobs/taxonomy.py, in its `session_scope` of db.py.
use review_signal.Base.{
  ℕ, ◌+◌, true, false, Option, none, some, List, [], ◌∷◌, ltb, leb, if◌then◌else◌, length, Text,
  codes, integrity_error, Result, ok, err, raise, nat_eq, list_eq, option_eq,
}
use review_signal.Taxonomy.Record.{
  GeneratedSubcategory, GeneratedCategory, GeneratedTaxonomy, ModelRun, TaxonomyVersion,
  TaxonomyNode, Store, store_accepted,
}
use review_signal.Taxonomy.Slug.{unique_slug}
use review_signal.Taxonomy.Provider.{StructuredOutcome, StructuredOutputError}

-- `work` is `committed` with the transaction's own changes.
pub record Session : Type 0 where
  pub committed : Store
  pub work : Store
  pub next_id : ℕ

-- A statement of the service: its result, and the session behind it.
abbrev pub Ran : Type 0 → Type 0
Ran A = Result A × Session

abbrev pub and_then : {A B : Type 0} → Ran A → (A → Session → Ran B) → Ran B
and_then (ok a, s) k = k a s
and_then (err e, s) k = (err e, s)

unfoldable pub flush : {A : Type 0} → A → Session → Ran A
flush a s =
    if store_accepted s.work
    then (ok a, s)
    else (raise integrity_error (codes "row violates a constraint"), s)

unfoldable pub commit : Session → Ran (Unit {0})
unfolding flush
commit s = and_then (flush tt s) (λ u s'. (ok tt, record s' { committed = s'.work }))

-- `add` and `flush` of a row: the new tables.
abbrev pub added : {A : Type 0} → A → Store → Session → Ran A
added a work s = flush a (record s { work = work; next_id = s.next_id + 1 })

-- `ModelRunRepository.record`, on the row without its id.
unfoldable pub record_run : (ℕ → ModelRun) → Session → Ran ModelRun
record_run make s =
    let run = make s.next_id in added run (record s.work { model_runs = run ∷ s.work.model_runs }) s

-- `_next_version_number`
unfoldable pub next_version_number : List TaxonomyVersion → ℕ
next_version_number [] = 1
next_version_number (v ∷ vs) =
    let rest = next_version_number vs in
    if leb rest v.version_number then v.version_number + 1 else rest

module _ (lower : Text → Text) where
  -- `_store_node`: the node's id, and the slugs in use.
  unfoldable pub store_node :
      (version : ℕ)
      → (name description : Text) → Option ℕ
      → (depth sort_order : ℕ) → (used : List Text) → Session
      → Ran (ℕ × List Text)
  store_node version name description parent_id depth sort_order used s =
      let slug = unique_slug lower name used in
      let node : TaxonomyNode = record {
        id = s.next_id;
        taxonomy_version_id = version;
        parent_id = parent_id;
        name = name;
        description = description;
        slug = slug;
        depth = depth;
        sort_order = sort_order;
      } in
      added (s.next_id, slug ∷ used) (record s.work { nodes = node ∷ s.work.nodes }) s

  -- The inner loop of `_store_nodes`.
  unfoldable pub store_children :
      (version parent_id : ℕ)
      → List GeneratedSubcategory
      → ℕ
      → List Text
      → Session
      → Ran (List Text)
  store_children version parent_id [] order used s = (ok used, s)
  store_children version parent_id (child ∷ rest) order used s =
      and_then (store_node version child.name child.description (some parent_id) 1 order used s)
        (λ stored s'. store_children version parent_id rest (order + 1) stored.1 s')

  -- `_store_nodes`
  unfoldable pub store_nodes :
      (version : ℕ) → List GeneratedCategory → ℕ → List Text → Session → Ran (List Text)
  store_nodes version [] order used s = (ok used, s)
  store_nodes version (category ∷ rest) order used s =
      and_then (store_node version category.name category.description none 0 order used s)
        (λ parent s₁.
          and_then (store_children version parent.0 category.children 0 parent.1 s₁)
            (λ used' s₂. store_nodes version rest (order + 1) used' s₂))

-- `TASK`
abbrev pub task : Text
task = codes "taxonomy_generate"

-- The provider's names; what it answers to a prompt is a parameter below.
pub record ProviderNames : Type 0 where
  pub name : Text
  pub model_name : Text
  pub model_version : Option Text

-- The `record` call of `_record_rejection`.
unfoldable pub rejected_run :
    ProviderNames → StructuredOutputError → (input_count sample_size : ℕ) → ℕ → ModelRun
rejected_run names e input_count sample_size id = record {
  id = id;
  task = task;
  provider = names.name;
  model_name = names.model_name;
  model_version = names.model_version;
  prompt_version = some (codes "taxonomy_generate_v1");
  taxonomy_version_id = none;
  input_count = input_count;
  latency_ms = e.latency_ms;
  success = false;
  fallback_used = ltb 1 e.attempts;
  output_valid = false;
  error_message = some e.message;
  meta = record { sample_size = sample_size; attempts = e.attempts; category_count = 0 };
}

-- The `record` call of `_store`.
unfoldable pub stored_run :
    ProviderNames
    → StructuredOutcome GeneratedTaxonomy
    → (input_count sample_size : ℕ) → ℕ
    → ModelRun
stored_run names o input_count sample_size id = record {
  id = id;
  task = task;
  provider = names.name;
  model_name = names.model_name;
  model_version = names.model_version;
  prompt_version = some (codes "taxonomy_generate_v1");
  taxonomy_version_id = none;
  input_count = input_count;
  latency_ms = o.latency_ms;
  success = true;
  fallback_used = o.fallback_used;
  output_valid = true;
  error_message = none;
  meta = record {
    sample_size = sample_size;
    attempts = o.attempts;
    category_count = length o.value.nodes;
  };
}

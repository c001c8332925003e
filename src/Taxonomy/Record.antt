-- ===== src/Taxonomy/Record.antt =====
-- The taxonomy and model-run tables of db/models.py, and the reply of
-- schemas/taxonomy_generation.py. Columns that the server fills with its clock are left out.
use review_signal.Base.{
  ℕ, Bool, true, false, not, ◌&&◌, ◌||◌, Option, none, some, List, [], ◌∷◌, leb, length, any, all,
  ◌==◌, Text, nat_eq, list_eq, option_eq,
}
use review_signal.Ingestion.Record.{Review}

-- `GeneratedSubcategory`, `GeneratedCategory`, `GeneratedTaxonomy`
pub record GeneratedSubcategory : Type 0 where
  pub name : Text
  pub description : Text

pub record GeneratedCategory : Type 0 where
  pub name : Text
  pub description : Text
  pub children : List GeneratedSubcategory

pub record GeneratedTaxonomy : Type 0 where
  pub nodes : List GeneratedCategory

-- The dict that both `record` calls pass as `metadata`.
pub record RunMetadata : Type 0 where
  pub sample_size : ℕ
  pub attempts : ℕ
  pub category_count : ℕ

-- `ModelRun`
pub record ModelRun : Type 0 where
  pub id : ℕ
  pub task : Text
  pub provider : Text
  pub model_name : Text
  pub model_version : Option Text
  pub prompt_version : Option Text
  pub taxonomy_version_id : Option ℕ
  pub input_count : ℕ
  pub latency_ms : ℕ
  pub success : Bool
  pub fallback_used : Bool
  pub output_valid : Bool
  pub error_message : Option Text
  pub meta : RunMetadata

-- `TAXONOMY_VERSION_STATUSES`
pub data VersionStatus : Type 0 where
  candidate active archived failed : VersionStatus

-- `TaxonomyVersion`
pub record TaxonomyVersion : Type 0 where
  pub id : ℕ
  pub version_number : ℕ
  pub status : VersionStatus
  pub created_by : Text
  pub parent_version_id : Option ℕ
  pub generation_model_run_id : Option ℕ

-- `TaxonomyNode`
pub record TaxonomyNode : Type 0 where
  pub id : ℕ
  pub taxonomy_version_id : ℕ
  pub parent_id : Option ℕ
  pub name : Text
  pub description : Text
  pub slug : Text
  pub depth : ℕ
  pub sort_order : ℕ

-- The tables, each with its newest row first.
pub record Store : Type 0 where
  pub reviews : List Review
  pub model_runs : List ModelRun
  pub versions : List TaxonomyVersion
  pub nodes : List TaxonomyNode

abbrev fits : ℕ → Option Text → Bool
fits n none = true
fits n (some t) = leb (length t) n

abbrev run_accepted : ModelRun → Bool
run_accepted r =
    leb (length r.task) 64
    && leb (length r.provider) 64
    && leb (length r.model_name) 128
    && fits 64 r.model_version
    && fits 64 r.prompt_version

-- Whether a version has a node of that slug, and `uq_taxonomy_nodes_version_slug`.
unfoldable pub slug_taken : ℕ → Text → List TaxonomyNode → Bool
slug_taken version slug [] = false
slug_taken version slug (n ∷ ns) =
    (n.taxonomy_version_id == version && n.slug == slug) || slug_taken version slug ns

unfoldable pub slugs_unique : List TaxonomyNode → Bool
unfolding slug_taken
slugs_unique [] = true
slugs_unique (n ∷ ns) = not (slug_taken n.taxonomy_version_id n.slug ns) && slugs_unique ns

abbrev node_accepted : TaxonomyNode → Bool
node_accepted n = leb (length n.name) 255 && leb (length n.slug) 255

abbrev number_taken : ℕ → List TaxonomyVersion → Bool
number_taken number versions = any (λ v. v.version_number == number) versions

-- `version_number` is unique.
unfoldable pub numbers_unique : List TaxonomyVersion → Bool
numbers_unique [] = true
numbers_unique (v ∷ vs) = not (number_taken v.version_number vs) && numbers_unique vs

-- What the database accepts at a flush; the index on the active version never matters to code that
-- only adds candidates.
unfoldable pub store_accepted : Store → Bool
unfolding slugs_unique numbers_unique
store_accepted s =
    all run_accepted s.model_runs
    && numbers_unique s.versions
    && all node_accepted s.nodes
    && slugs_unique s.nodes

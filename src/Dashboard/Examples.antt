-- ===== src/Dashboard/Examples.antt =====
-- A small corpus and a small taxonomy, as the dashboard shows them.
use review_signal.Base.{
  ℕ, ◌*◌, ◌≤◌, ◌≡◌, refl, Bool, false, Option, none, some, List, [], ◌∷◌, map, Perm, arith, length,
  keep, All, Text, codes, end, insert_by, sort_by, IsSortedBy, nat_eq, list_eq, option_eq,
}
use review_signal.Ingestion.Record.{Review, pending}
use review_signal.Taxonomy.Record.{TaxonomyNode}
use review_signal.Dashboard.Tree.{build_tree, list_nodes}
use review_signal.Dashboard.TreeLaws.{places, own_place, IsNested}
use review_signal.Dashboard.Nesting.{build_tree-places}
use review_signal.Dashboard.Reviews.{ReviewQuery, list_page, matches, newer_review}
use review_signal.Dashboard.Pages.{pages_from, list_page-pages}
use review_signal.Dashboard.Trends.{Tables}

abbrev review : (id rating created_at : ℕ) → Review
review id rating created_at = record {
  id = id;
  source = codes "google";
  source_review_id = codes "r";
  rating = rating;
  review_text = some (codes "Fine");
  reviewer_name = none;
  created_at = created_at;
  updated_at = created_at;
  owner_reply_text = none;
  owner_reply_at = none;
  language = codes "en";
  raw_payload = end;
  analysis_status = pending;
  inserted_at = 0;
}

abbrev corpus : List Review
corpus = review 1 5 10 ∷ review 2 4 30 ∷ review 3 5 20 ∷ []

abbrev five_stars : ReviewQuery
five_stars = record { q = none; rating = some 5; start_date = none; end_date = none }

abbrev never : Text → Text → Bool
never pattern value = false

two_found : length (keep (matches never five_stars) corpus) ≤ 2 * 1
unfolding matches
two_found = omega arith

list_page-pages_example :
    Perm (pages_from never 1 2 1 five_stars corpus) (keep (matches never five_stars) corpus)
    × IsSortedBy newer_review (pages_from never 1 2 1 five_stars corpus)
    × ((page : ℕ)
        → (list_page never page 1 five_stars corpus).1
          ≡ length (keep (matches never five_stars) corpus))
list_page-pages_example = list_page-pages never 2 1 five_stars corpus two_found

abbrev topic : (id : ℕ) → Option ℕ → (depth sort_order : ℕ) → TaxonomyNode
topic id parent_id depth sort_order = record {
  id = id;
  taxonomy_version_id = 1;
  parent_id = parent_id;
  name = codes "n";
  description = [];
  slug = codes "s";
  depth = depth;
  sort_order = sort_order;
}

-- Children are stored in front of their parents.
abbrev topics : List TaxonomyNode
topics = topic 3 (some 2) 1 0 ∷ topic 4 (some 1) 1 1 ∷ topic 2 none 0 1 ∷ topic 1 none 0 0 ∷ []

topics-IsNested : All (IsNested (list_nodes 1 topics)) (list_nodes 1 topics)
unfolding list_nodes sort_by insert_by
topics-IsNested = (tt, (tt, (refl, (refl, tt))))

build_tree-places_example :
    Perm (places none (build_tree (list_nodes 1 topics))) (map own_place (list_nodes 1 topics))
build_tree-places_example = build_tree-places 1 topics topics-IsNested

abbrev tables : Tables
tables = record {
  reviews = corpus;
  analyses = record { id = 1; review_id = 2; superseded_at = none } ∷ [];
  aspects =
      record { id = 1; review_analysis_id = 1; taxonomy_node_id = 3; sentiment = codes "positive" }
      ∷ [];
  nodes = topics;
}

-- ===== src/Dashboard/Tree.antt =====
-- services/taxonomy.py over repositories/taxonomy.py: the taxonomy's versions, and a version's nodes
-- as a tree.
use review_signal.Base.{
  ℕ, Bool, true, false, ◌&&◌, ◌||◌, Option, none, some, List, [], ◌∷◌, ltb, leb, if◌then◌else◌,
  keep, find_first, ◌==◌, Text, codes, sort_by, resource_not_found_error, Result, ok, raise, ◌>>=◌,
  nat_eq, list_eq, option_eq,
}
use review_signal.Taxonomy.Record.{active, TaxonomyVersion, TaxonomyNode}

-- `TaxonomyNodePayload` without its children.
pub record NodePayload : Type 0 where
  pub id : ℕ
  pub name : Text
  pub description : Text
  pub slug : Text
  pub sort_order : ℕ

-- A list of `TaxonomyNodePayload`: the first one, its `children`, and the others.
pub data Forest : Type 0 where
  empty : Forest
  grow : (first : NodePayload) (children others : Forest) → Forest

-- `list.append`
unfoldable pub plant : Forest → NodePayload → Forest
plant empty new = grow new empty empty
plant (grow first children others) new = grow first children (plant others new)

-- Whether a payload with an id is in the forest.
unfoldable pub holds : ℕ → Forest → Bool
holds key empty = false
holds key (grow first children others) = first.id == key || holds key children || holds key others

-- `by_id[key].children.append(new)`: the payload is an object of the one tree that `roots` shows.
unfoldable pub attach : ℕ → NodePayload → Forest → Forest
unfolding holds plant
attach key new empty = empty
attach key new (grow first children others) =
    let below = attach key new children in
    let beside = attach key new others in
    if first.id == key
    then grow first (plant children new) others
    else if holds key children
    then grow first below others
    else grow first children beside

abbrev pub payload_of : TaxonomyNode → NodePayload
payload_of node = record {
  id = node.id;
  name = node.name;
  description = node.description;
  slug = node.slug;
  sort_order = node.sort_order;
}

-- One round of the loop of `_build_tree`; the keys of `by_id` are the ids in the forest so far, and
-- the node's own.
unfoldable pub add_node : TaxonomyNode → Forest → Forest
unfolding attach
add_node node roots = elim node.parent_id [
  | none ↦ plant roots (payload_of node)
  | some parent ↦
      if holds parent roots
      then attach parent (payload_of node) roots
      else plant roots (payload_of node)
]

unfoldable pub build_onto : Forest → List TaxonomyNode → Forest
unfolding add_node
build_onto roots [] = roots
build_onto roots (node ∷ rest) = build_onto (add_node node roots) rest

-- `_build_tree`
abbrev pub build_tree : List TaxonomyNode → Forest
build_tree nodes = build_onto empty nodes

-- `get_active_version` and `get_version`; at most one version is active.
unfoldable pub get_active_version : List TaxonomyVersion → Option TaxonomyVersion
get_active_version versions = find_first (λ v. elim v.status [ active ↦ true | _ ↦ false ]) versions

unfoldable pub get_version : ℕ → List TaxonomyVersion → Option TaxonomyVersion
get_version key versions = find_first (λ v. v.id == key) versions

-- `list_versions`, newest first.
abbrev pub newer_first : TaxonomyVersion → TaxonomyVersion → Bool
newer_first v w = leb w.version_number v.version_number

unfoldable pub list_versions : List TaxonomyVersion → List TaxonomyVersion
unfolding sort_by
list_versions versions = sort_by newer_first versions

-- `list_nodes`: by depth, then by the order among siblings.
abbrev pub node_order : TaxonomyNode → TaxonomyNode → Bool
node_order n m = ltb n.depth m.depth || (n.depth == m.depth && leb n.sort_order m.sort_order)

unfoldable pub list_nodes : ℕ → List TaxonomyNode → List TaxonomyNode
unfolding sort_by
list_nodes version nodes = sort_by node_order (keep (λ n. n.taxonomy_version_id == version) nodes)

-- `TaxonomyTreePayload`
pub record TaxonomyTreePayload : Type 0 where
  pub version_id : ℕ
  pub version_number : ℕ
  pub nodes : Forest

-- `get_active_tree`
unfoldable pub get_active_tree :
    List TaxonomyVersion → List TaxonomyNode → Option TaxonomyTreePayload
unfolding get_active_version list_nodes build_onto
get_active_tree versions nodes = elim (get_active_version versions) [
  | none ↦ none
  | some version ↦ some (record {
    version_id = version.id;
    version_number = version.version_number;
    nodes = build_tree (list_nodes version.id nodes);
  })
]

-- `TaxonomyVersionDetail`
pub record TaxonomyVersionDetail : Type 0 where
  pub version : TaxonomyVersion
  pub nodes : Forest

-- `_require_version` and `get_version` of the service.
unfoldable pub require_version : ℕ → List TaxonomyVersion → Result TaxonomyVersion
unfolding get_version
require_version key versions = elim (get_version key versions) [
  | none ↦ raise resource_not_found_error (codes "Taxonomy version not found.")
  | some version ↦ ok version
]

unfoldable pub version_detail :
    ℕ → List TaxonomyVersion → List TaxonomyNode → Result TaxonomyVersionDetail
unfolding require_version list_nodes build_onto
version_detail key versions nodes = require_version key versions >>= λ version.
    ok (record { version = version; nodes = build_tree (list_nodes key nodes) })

-- `TaxonomyChange`
pub record TaxonomyChange : Type 0 where
  pub id : ℕ
  pub from_version_id : Option ℕ
  pub to_version_id : ℕ
  pub change_type : Text
  pub source : Text
  pub old_node_ids : List Text
  pub new_node_ids : List Text
  pub description : Text
  pub created_at : ℕ

-- `list_changes`
abbrev pub earlier_first : TaxonomyChange → TaxonomyChange → Bool
earlier_first c d = leb c.created_at d.created_at

unfoldable pub list_changes : ℕ → List TaxonomyChange → List TaxonomyChange
unfolding sort_by
list_changes version changes =
    sort_by earlier_first (keep (λ c. c.to_version_id == version) changes)

-- `TaxonomyDiffPayload`
pub record TaxonomyDiffPayload : Type 0 where
  pub version_id : ℕ
  pub parent_version_id : Option ℕ
  pub changes : List TaxonomyChange

-- `get_diff`
unfoldable pub get_diff :
    ℕ → List TaxonomyVersion → List TaxonomyChange → Result TaxonomyDiffPayload
unfolding require_version list_changes
get_diff key versions changes = require_version key versions >>= λ version. ok (record {
  version_id = version.id;
  parent_version_id = version.parent_version_id;
  changes = list_changes key changes;
})

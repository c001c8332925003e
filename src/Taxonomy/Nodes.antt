-- ===== src/Taxonomy/Nodes.antt =====
-- The nodes that a run stores never break the unique constraint on slugs.
use review_signal.Base.{
  raise, ℕ, ◌≡◌, refl, sym, ◌∙◌, inl, inr, true, false, List, ◌∷◌, arith, Bool-cases, Text, Result,
  ok, err, nat_eq, list_eq, option_eq, ◌+◌, Bool, Option, none, some, [], if◌then◌else◌, codes,
  integrity_error,
}
use review_signal.Taxonomy.Record.{
  GeneratedCategory, GeneratedSubcategory, store_accepted, TaxonomyNode, slug_taken, slugs_unique,
}
use review_signal.Taxonomy.Slug.{unique_slug, is_used}
use review_signal.Taxonomy.SlugLaws.{unique_slug-free}
use review_signal.Taxonomy.Generation.{
  and_then, Ran, store_nodes, store_children, store_node, Session, flush,
}

-- `used` holds every slug of the version, and the constraint holds.
abbrev pub Covers : ℕ → List Text → List TaxonomyNode → Type 0
Covers version used nodes =
    ((slug : Text) → slug_taken version slug nodes ≡ true → is_used slug used ≡ true)
    × (slugs_unique nodes ≡ true)

-- What a statement leaves: the constraint holds, and on a normal end `used` still covers.
abbrev pub Covered : ℕ → Result (List Text) → Session → Type 0
Covered version (ok used) s = Covers version used s.work.nodes
Covered version (err e) s = slugs_unique s.work.nodes ≡ true

Covers-add :
    (version : ℕ) (used : List Text) (nodes : List TaxonomyNode) (node : TaxonomyNode)
    → node.taxonomy_version_id ≡ version
    → is_used node.slug used ≡ false
    → Covers version used nodes
    → Covers version (node.slug ∷ used) (node ∷ nodes)
unfolding slugs_unique is_used slug_taken
Covers-add version used nodes node same free (covered, unique) = (grown, fresh)
  where
    grown :
        (slug : Text)
        → slug_taken version slug (node ∷ nodes) ≡ true
        → is_used slug (node.slug ∷ used) ≡ true
    grown slug h = ground (arith, covered slug)

    fresh : slugs_unique (node ∷ nodes) ≡ true
    fresh =
        let none_yet : slug_taken version node.slug nodes ≡ false =
          elim (Bool-cases (slug_taken version node.slug nodes)) [
            | inr unseen ↦ unseen
            | inl seen ↦ absurd (let x : true ≡ false = sym (covered node.slug seen) ∙ free in cc x)
          ] in
        simp (same, none_yet, unique) refl

module _ (lower : Text → Text) where
  -- What `_store_node` leaves.
  abbrev NodeCovered : ℕ → Result (ℕ × List Text) → Session → Type 0
  NodeCovered version (ok (id, used)) s = Covers version used s.work.nodes
  NodeCovered version (err e) s = slugs_unique s.work.nodes ≡ true

  flush-NodeCovered :
      (version : ℕ) (id : ℕ) (used : List Text) (s : Session)
      → Covers version used s.work.nodes
      → NodeCovered version
          (flush {A = ℕ × List Text} (id, used) s).0
          (flush {A = ℕ × List Text} (id, used) s).1
  unfolding flush
  flush-NodeCovered version id used s c = go (store_accepted s.work)
    where
      go :
          (b : Bool)
          → let (r, s') : Ran (ℕ × List Text) =
              if b
              then (ok (id, used), s)
              else (raise integrity_error (codes "row violates a constraint"), s) in
            NodeCovered version r s'
      go true = c
      go false = c.1

  store_node-Covers :
      (version : ℕ) (name description : Text) (parent : Option ℕ) (depth order : ℕ)
      (used : List Text) (s : Session)
      → Covers version used s.work.nodes
      → let (r, s') = store_node lower version name description parent depth order used s in
        NodeCovered version r s'
  unfolding store_node
  store_node-Covers version name description parent depth order used s c =
      flush-NodeCovered version s.next_id (unique_slug lower name used ∷ used) _
        (Covers-add version used s.work.nodes _ refl (unique_slug-free lower name used) c)

  -- Carried through `and_then`.
  node_then :
      (version : ℕ) (r : Ran (ℕ × List Text)) (k : ℕ × List Text → Session → Ran (List Text))
      → NodeCovered version r.0 r.1
      → ((id : ℕ) (used : List Text) (s : Session)
          → Covers version used s.work.nodes
          → Covered version (k (id, used) s).0 (k (id, used) s).1)
      → Covered version (and_then r k).0 (and_then r k).1
  node_then version (ok (id, used), s) k c h = h id used s c
  node_then version (err e, s) k c h = c

  list_then :
      (version : ℕ) (r : Ran (List Text)) (k : List Text → Session → Ran (List Text))
      → Covered version r.0 r.1
      → ((used : List Text) (s : Session)
          → Covers version used s.work.nodes
          → Covered version (k used s).0 (k used s).1)
      → Covered version (and_then r k).0 (and_then r k).1
  list_then version (ok used, s) k c h = h used s c
  list_then version (err e, s) k c h = c

  store_children-Covers :
      (version parent : ℕ) (children : List GeneratedSubcategory) (order : ℕ) (used : List Text)
      (s : Session)
      → Covers version used s.work.nodes
      → let (r, s') = store_children lower version parent children order used s in
        Covered version r s'
  unfolding store_children
  store_children-Covers version parent [] order used s c = c
  store_children-Covers version parent (child ∷ rest) order used s c =
      node_then version
        (store_node lower version child.name child.description (some parent) 1 order used s) _
        (store_node-Covers version child.name child.description (some parent) 1 order used s c)
        (λ id used' s' c'. store_children-Covers version parent rest (order + 1) used' s' c')

  -- Where no node of the version breaks the unique constraint on slugs, and `used` holds all its
  -- slugs, storing a generated tree never breaks it, however often the model repeats a name, on a
  -- normal end and on an exception alike; and after a normal end `used` again holds all the slugs.
  pub store_nodes-Covers :
      (version : ℕ) (categories : List GeneratedCategory) (order : ℕ) (used : List Text)
      (s : Session)
      → Covers version used s.work.nodes
      → let (r, s') = store_nodes lower version categories order used s in Covered version r s'
  unfolding store_nodes
  store_nodes-Covers version [] order used s c = c
  store_nodes-Covers version (category ∷ rest) order used s c =
      node_then version
        (store_node lower version category.name category.description none 0 order used s) _
        (store_node-Covers version category.name category.description none 0 order used s c)
        (λ id used₁ s₁ c₁.
          list_then version (store_children lower version id category.children 0 used₁ s₁) _
            (store_children-Covers version id category.children 0 used₁ s₁ c₁)
            (λ used₂ s₂ c₂. store_nodes-Covers version rest (order + 1) used₂ s₂ c₂))

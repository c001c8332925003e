-- ===== src/Dashboard/Nesting.antt =====
-- The tree of a version's rows, against the parents that the rows name.
use mathlib.Core.List.{perm_middle, append_assoc}
use review_signal.Base.{
  ℕ, ◌≡◌, refl, ap, ◌∙◌, subst, Bool, true, false, ◌&&◌, ◌||◌, Option, none, some, List, [], ◌∷◌,
  ◌++◌, map, Perm, arith, ltb, if◌then◌else◌, any, All, ◌==◌, IsSortedBy, nat_eq, list_eq,
  option_eq, sym, sort_by-IsSortedBy, keep,
}
use mathlib.Core.List.Perm
use review_signal.Taxonomy.Record.{TaxonomyNode}
use review_signal.Dashboard.Tree.{
  Forest, holds, payload_of, add_node, build_onto, node_order, empty, build_tree, list_nodes,
}
use review_signal.Dashboard.TreeLaws.{
  Place, places, place_at, place_of, is_built, own_place, NestedAt, IsNested, add_node-places,
  holds-add_node,
}

-- The places that a list of nodes asks for, each by the ids that are built before it.
unfoldable places_asked : (built : ℕ → Bool) → List TaxonomyNode → List Place
places_asked built [] = []
places_asked built (node ∷ rest) =
    place_of built node ∷ places_asked (λ k. built k || node.id == k) rest

build_onto-places :
    (f : Forest) (built : ℕ → Bool) (nodes : List TaxonomyNode)
    → ((k : ℕ) → holds k f ≡ built k)
    → Perm (places none (build_onto f nodes)) (places_asked built nodes ++ places none f)
unfolding build_onto places_asked
build_onto-places f built [] same = Perm.rfl
build_onto-places f built (node ∷ rest) same =
    let later : (k : ℕ) → holds k (add_node node f) ≡ built k || node.id == k =
      λ k. holds-add_node k node f ∙ ap (λ b. b || node.id == k) (same k) in
    let here : place_of (λ k. holds k f) node ≡ place_of built node = same_place node.parent_id in
    Perm.trans (build_onto-places (add_node node f) (λ k. built k || node.id == k) rest later) (
      Perm.trans
        (Perm.append_left (places_asked (λ k. built k || node.id == k) rest) (
          subst (λ p. Perm (places none (add_node node f)) (p ∷ places none f)) here
            (add_node-places node f)))
        (perm_middle (places_asked (λ k. built k || node.id == k) rest) (places none f)))
  where
    same_place :
        (o : Option ℕ)
        → place_at (λ k. holds k f) o (payload_of node) ≡ place_at built o (payload_of node)
    same_place none = refl
    same_place (some parent) =
        ap (λ b. (let p : Place = (if b then some parent else none, payload_of node) in p))
          (same parent)

-- Sorted by depth, nothing behind a node lies above it.
deeper_behind :
    (parent : ℕ) (node : TaxonomyNode) (rest : List TaxonomyNode)
    → All (λ m. node_order node m ≡ true) rest
    → any (λ (m : TaxonomyNode). m.id == parent && ltb m.depth node.depth) rest ≡ false
deeper_behind parent node [] h = refl
deeper_behind parent node (m ∷ rest) h =
    let tail = deeper_behind parent node rest h.1 in let order = h.0 in ground arith

any-append :
    (p : TaxonomyNode → Bool) (l r : List TaxonomyNode) → any p (l ++ r) ≡ any p l || any p r
any-append p [] r = refl
any-append p (n ∷ l) r = ground (arith, any-append p l r)

any-weaken :
    (p q : TaxonomyNode → Bool) (l : List TaxonomyNode)
    → ((n : TaxonomyNode) → p n ≡ true → q n ≡ true)
    → any p l ≡ true
    → any q l ≡ true
any-weaken p q [] f h = h
any-weaken p q (n ∷ l) f h = ground (arith, any-weaken p q l f, f n)

-- In the order of depth, each node finds its parent built.
places_asked-own :
    (all_nodes before rest : List TaxonomyNode) (built : ℕ → Bool)
    → all_nodes ≡ before ++ rest
    → ((k : ℕ) → built k ≡ is_built before k)
    → IsSortedBy node_order rest
    → All (IsNested all_nodes) rest
    → places_asked built rest ≡ map own_place rest
unfolding places_asked
places_asked-own all_nodes before [] built split same sorted nested = refl
places_asked-own all_nodes before (node ∷ rest) built split same sorted nested =
    let tail =
      places_asked-own all_nodes (before ++ node ∷ []) rest (λ k. built k || node.id == k)
        (split ∙ sym (append_assoc before (node ∷ []) rest)) longer sorted.1 nested.1 in
    let head = placed node.parent_id nested.0 in
    ap (λ p. p ∷ places_asked (λ k. built k || node.id == k) rest) head
    ∙ ap (λ l. own_place node ∷ l) tail
  where
    longer : (k : ℕ) → (built k || node.id == k) ≡ is_built (before ++ node ∷ []) k
    longer k =
        let whole = any-append (λ (n : TaxonomyNode). n.id == k) before (node ∷ []) in
        let known = same k in ground arith

    has_parent : (parent : ℕ) → NestedAt all_nodes node.depth (some parent) → built parent ≡ true
    has_parent parent above =
        let found =
          subst (λ l. any (λ (m : TaxonomyNode). m.id == parent && ltb m.depth node.depth) l ≡ true)
            split above in
        let whole =
          any-append (λ (m : TaxonomyNode). m.id == parent && ltb m.depth node.depth) before
            (node ∷ rest) in
        let behind = deeper_behind parent node rest sorted.0 in
        let front : any (λ (m : TaxonomyNode). m.id == parent && ltb m.depth node.depth) before
            ≡ true =
          ground arith in
        same parent
        ∙ any-weaken (λ (m : TaxonomyNode). m.id == parent && ltb m.depth node.depth)
            (λ (m : TaxonomyNode). m.id == parent) before (λ m both. ground arith) front

    placed :
        (o : Option ℕ)
        → NestedAt all_nodes node.depth o
        → ◌≡◌ {A = Place} (place_at built o (payload_of node)) (o, payload_of node)
    placed none above = refl
    placed (some parent) above =
        ap (λ b. (let p : Place = (if b then some parent else none, payload_of node) in p))
          (has_parent parent above)

node_order_total : (n m : TaxonomyNode) → node_order n m ≡ false → node_order m n ≡ true
node_order_total n m h = ground arith

node_order_trans :
    (n m k : TaxonomyNode) → node_order n m ≡ true → node_order m k ≡ true → node_order n k ≡ true
node_order_trans n m k h₁ h₂ = ground arith

list_nodes-IsSortedBy :
    (version : ℕ) (nodes : List TaxonomyNode) → IsSortedBy node_order (list_nodes version nodes)
unfolding list_nodes
list_nodes-IsSortedBy version nodes =
    sort_by-IsSortedBy node_order node_order_total node_order_trans
      (keep (λ (n : TaxonomyNode). n.taxonomy_version_id == version) nodes)

append-nil : (l : List Place) → l ++ [] ≡ l
append-nil [] = refl
append-nil (p ∷ l) = ap (λ t. p ∷ t) (append-nil l)

-- The tree that is built of a version's rows holds every row exactly once, and each under the very
-- parent that the row names, provided that a parent belongs to the same version and has a smaller
-- depth: the order of the query makes the one pass of the builder enough.
pub build_tree-places :
    (version : ℕ) (nodes : List TaxonomyNode)
    → All (IsNested (list_nodes version nodes)) (list_nodes version nodes)
    → Perm
        (places none (build_tree (list_nodes version nodes)))
        (map own_place (list_nodes version nodes))
unfolding places holds
build_tree-places version nodes nested =
    let rows = list_nodes version nodes in
    let built = build_onto-places empty (λ k. false) rows (λ k. none_held k) in
    let asked =
      places_asked-own rows [] rows (λ k. false) refl (λ k. refl)
        (list_nodes-IsSortedBy version nodes) nested in
    subst (λ l. Perm (places none (build_tree rows)) l) (append-nil _ ∙ asked) built
  where
    none_held : (k : ℕ) → holds k empty ≡ false
    none_held k = refl

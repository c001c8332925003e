-- ===== src/Dashboard/TreeLaws.antt =====
-- What the tree of a version holds: each node once, under its own parent.
use mathlib.Core.List.{perm_middle}
use review_signal.Base.{
  any, ℕ, ◌≡◌, true, Option, some, List, [], ◌∷◌, ◌++◌, Perm, nat_eq, list_eq, option_eq, subst,
  inl, inr, Bool, none, if◌then◌else◌, Bool-cases, ◌==◌, eq_iff, refl, ◌&&◌, ◌||◌, arith, ltb, sym,
}
use mathlib.Core.List.Perm
use review_signal.Taxonomy.Record.{TaxonomyNode}
use review_signal.Dashboard.Tree.{
  NodePayload, Forest, empty, grow, plant, holds, attach, payload_of, add_node,
}

-- One payload's place: the id of the payload that it stands under, and itself.
abbrev pub Place : Type 0
Place = Option ℕ × NodePayload

-- All places of a forest that stands under something.
unfoldable pub places : Option ℕ → Forest → List Place
places above empty = []
places above (grow first children others) =
    (above, first) ∷ places (some first.id) children ++ places above others

-- A place more among the children, or among the others, is one more in all.
below_one :
    (a p : Place) (kids kids' others : List Place)
    → Perm kids' (p ∷ kids)
    → Perm (a ∷ kids' ++ others) (p ∷ a ∷ kids ++ others)
below_one a p kids kids' others h =
    Perm.trans (Perm.cons a (Perm.append_right others h)) (Perm.swap p a (kids ++ others))

beside_one :
    (a p : Place) (kids others others' : List Place)
    → Perm others' (p ∷ others)
    → Perm (a ∷ kids ++ others') (p ∷ a ∷ kids ++ others)
beside_one a p kids others others' h =
    Perm.trans (Perm.cons a (Perm.trans (Perm.append_left kids h) (perm_middle kids others)))
      (Perm.swap p a (kids ++ others))

places-plant :
    (above : Option ℕ) (f : Forest) (new : NodePayload)
    → Perm (places above (plant f new)) ((above, new) ∷ places above f)
unfolding places plant
places-plant above empty new = Perm.rfl
places-plant above (grow first children others) new =
    beside_one (above, first) (above, new) (places (some first.id) children) (places above others) _
      (places-plant above others new)

places-attach :
    (above : Option ℕ) (key : ℕ) (f : Forest) (new : NodePayload)
    → holds key f ≡ true
    → Perm (places above (attach key new f)) ((some key, new) ∷ places above f)
unfolding places attach holds
places-attach above key empty new h = cc h
places-attach above key (grow first children others) new h = elim (Bool-cases (first.id == key)) [
  | inl here ↦
      rw (attach, here)
        (below_one (above, first) (some key, new) (places (some first.id) children) _
          (places above others)
          (subst
            (λ k.
              Perm (places (some first.id) (plant children new))
                ((some k, new) ∷ places (some first.id) children))
            ((eq_iff first.id key).0 here) (places-plant (some first.id) children new)))
  | inr away ↦ elim (Bool-cases (holds key children)) [
    | inl deep ↦
        rw (attach, away, deep)
          (below_one (above, first) (some key, new) (places (some first.id) children) _
            (places above others) (places-attach (some first.id) key children new deep))
    | inr not_deep ↦
        let beside : holds key others ≡ true = rw (holds, away, not_deep) at h in
        rw (attach, away, not_deep)
          (beside_one (above, first) (some key, new) (places (some first.id) children)
            (places above others) _ (places-attach above key others new beside))
  ]
]

-- Where `_build_tree` puts a node, by the ids of the payloads that it has built before.
abbrev pub place_at : (built : ℕ → Bool) → Option ℕ → NodePayload → Place
place_at built none payload = (none, payload)
place_at built (some parent) payload = (if built parent then some parent else none, payload)

abbrev pub place_of : (built : ℕ → Bool) → TaxonomyNode → Place
place_of built node = place_at built node.parent_id (payload_of node)

pub add_node-places :
    (node : TaxonomyNode) (f : Forest)
    → Perm (places none (add_node node f)) (place_of (λ k. holds k f) node ∷ places none f)
unfolding add_node
add_node-places node f = go node.parent_id refl
  where
    Goal : Type 0
    Goal = Perm (places none (add_node node f)) (place_of (λ k. holds k f) node ∷ places none f)

    put_at :
        (o : Option ℕ)
        → node.parent_id ≡ o
        → Perm
            (places none (add_node node f))
            (place_at (λ k. holds k f) o (payload_of node) ∷ places none f)
        → Goal
    put_at o h p =
        subst
          (λ x.
            Perm (places none (add_node node f))
              (place_at (λ k. holds k f) x (payload_of node) ∷ places none f))
          (sym h) p

    go : (o : Option ℕ) → node.parent_id ≡ o → Goal
    go none h = put_at none h (simp (h, add_node) (places-plant none f (payload_of node)))
    go (some parent) h = put_at (some parent) h (elim (Bool-cases (holds parent f)) [
      | inl here ↦ simp (h, here, add_node) (places-attach none parent f (payload_of node) here)
      | inr away ↦ simp (h, away, add_node) (places-plant none f (payload_of node))
    ])

-- Whether an id is among those of a list of nodes.
abbrev pub is_built : List TaxonomyNode → ℕ → Bool
is_built nodes key = any (λ (n : TaxonomyNode). n.id == key) nodes

holds-plant :
    (key : ℕ) (f : Forest) (new : NodePayload)
    → holds key (plant f new) ≡ holds key f || new.id == key
unfolding holds plant
holds-plant key empty new = ground arith
holds-plant key (grow first children others) new = ground (arith, holds-plant key others new)

holds-attach :
    (key above : ℕ) (f : Forest) (new : NodePayload)
    → holds above f ≡ true
    → holds key (attach above new f) ≡ holds key f || new.id == key
unfolding holds attach
holds-attach key above empty new h = cc h
holds-attach key above (grow first children others) new h = ground (
  arith,
  holds-plant key children new,
  holds-attach key above children new,
  holds-attach key above others new,
)

pub holds-add_node :
    (key : ℕ) (node : TaxonomyNode) (f : Forest)
    → holds key (add_node node f) ≡ holds key f || node.id == key
unfolding add_node
holds-add_node key node f = go node.parent_id refl
  where
    go :
        (o : Option ℕ)
        → node.parent_id ≡ o
        → holds key (add_node node f) ≡ holds key f || node.id == key
    go none h = simp (h, add_node) (holds-plant key f (payload_of node))
    go (some parent) h = elim (Bool-cases (holds parent f)) [
      | inl here ↦ simp (h, here, add_node) (holds-attach key parent f (payload_of node) here)
      | inr away ↦ simp (h, away, add_node) (holds-plant key f (payload_of node))
    ]

-- The place that a node's row names.
abbrev pub own_place : TaxonomyNode → Place
own_place node = (node.parent_id, payload_of node)

-- A node at the top, or one whose parent is in the list at a smaller depth.
abbrev pub NestedAt : List TaxonomyNode → (depth : ℕ) → Option ℕ → Type 0
NestedAt nodes depth none = Unit
NestedAt nodes depth (some parent) =
    any (λ (m : TaxonomyNode). m.id == parent && ltb m.depth depth) nodes ≡ true

abbrev pub IsNested : List TaxonomyNode → TaxonomyNode → Type 0
IsNested nodes node = NestedAt nodes node.depth node.parent_id

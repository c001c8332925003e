-- ===== src/Dashboard/Mentions.antt =====
-- The counts of `get_summary`, against the mentions themselves.
use review_signal.Base.{
  ℕ, ◌+◌, ◌≡◌, refl, sym, ◌∙◌, inl, inr, Bool, true, false, ◌&&◌, Option, none, some, List, [], ◌∷◌,
  arith, keep, length, Bool-cases, Option-cases, eq_iff, ◌==◌, Text, nat_eq, list_eq, option_eq,
}
use review_signal.Taxonomy.Record.{TaxonomyNode}
use review_signal.Dashboard.Trends.{
  CategoryCount, ReviewAspect, Tables, counted_node, count_mention, count_aspects,
  category_sentiment_counts, Key, has_key, mentions_of, row_of,
}

abbrev same_key : Key → ℕ → Text → Bool
same_key (category_id, sentiment) id t = id == category_id && t == sentiment

-- An aspect that mentions a category with a sentiment, by the node that the join gives it.
abbrev mentioned : Key → Text → Option TaxonomyNode → Bool
mentioned key sentiment none = false
mentioned key sentiment (some node) = same_key key node.id sentiment

abbrev pub mentions : (ReviewAspect → Option TaxonomyNode) → Key → ReviewAspect → Bool
mentions node_of key aspect = mentioned key aspect.sentiment (node_of aspect)

abbrev one_if : Bool → ℕ
one_if true = 1
one_if false = 0

pub and_parts : (a b : Bool) → a && b ≡ true → (a ≡ true) × (b ≡ true)
and_parts a b h = ground arith

and_true : (a b : Bool) → a ≡ true → b ≡ true → a && b ≡ true
and_true a b h k = ground arith

not-true : (b : Bool) → (b ≡ true → ⊥) → b ≡ false
not-true true h = absurd (h refl)
not-true false h = refl

-- Two rows of one key are rows of each other's key.
same_keys :
    (key : Key) (id : ℕ) (t : Text) (row : CategoryCount)
    → has_key key row ≡ true
    → same_key key id t ≡ true
    → (row.category_id == id && row.sentiment == t) ≡ true
same_keys key id t row h k =
    let (h₁, h₂) = and_parts _ _ h in
    let (k₁, k₂) = and_parts _ _ k in
    and_true _ _
      ((eq_iff row.category_id id).1
        ((eq_iff row.category_id key.0).0 h₁ ∙ sym ((eq_iff id key.0).0 k₁)))
      ((eq_iff row.sentiment t).1 ((eq_iff row.sentiment key.1).0 h₂ ∙ sym ((eq_iff t key.1).0 k₂)))

-- One more mention raises the count of its own key by one, and no other.
count_mention-row :
    (node : TaxonomyNode) (sentiment : Text) (key : Key) (rows : List CategoryCount)
    → mentions_of (row_of key (count_mention node sentiment rows))
      ≡ one_if (same_key key node.id sentiment) + mentions_of (row_of key rows)
unfolding count_mention
count_mention-row node sentiment key [] = elim (Bool-cases (same_key key node.id sentiment)) [
  | inl own ↦ rw (count_mention, own) refl
  | inr other ↦ rw (count_mention, other) refl
]
count_mention-row node sentiment key (row ∷ rest) =
    elim (Bool-cases (row.category_id == node.id && row.sentiment == sentiment)) [
      | inl here ↦
          let (h₁, h₂) = and_parts _ _ here in
          let same : has_key key row ≡ same_key key node.id sentiment =
            rw ((eq_iff row.category_id node.id).0 h₁, (eq_iff row.sentiment sentiment).0 h₂)
              refl in
          elim (Bool-cases (same_key key node.id sentiment)) [
            | inl own ↦ rw (here, same ∙ own, own) (omega arith)
            | inr other ↦ rw (here, same ∙ other, other) (omega arith)
          ]
      | inr beside ↦ elim (Bool-cases (has_key key row)) [
        | inl hit ↦
            let other : same_key key node.id sentiment ≡ false =
              not-true _ (λ k. cc (same_keys key node.id sentiment row hit k, beside)) in
            rw (beside, hit, other) (omega arith)
        | inr miss ↦ rw (beside, miss) (count_mention-row node sentiment key rest)
      ]
    ]

-- The count of a key is the number of the aspects that mention it.
count_aspects-row :
    (node_of : ReviewAspect → Option TaxonomyNode) (key : Key) (aspects : List ReviewAspect)
    → mentions_of (row_of key (count_aspects node_of aspects))
      ≡ length (keep (mentions node_of key) aspects)
unfolding count_aspects
count_aspects-row node_of key [] = refl
count_aspects-row node_of key (aspect ∷ rest) = elim (Option-cases (node_of aspect)) [
  | inl none_there ↦ rw (count_aspects, none_there) (count_aspects-row node_of key rest)
  | inr (node, there) ↦
      let counted = count_mention-row node aspect.sentiment key (count_aspects node_of rest) in
      let ih = count_aspects-row node_of key rest in
      elim (Bool-cases (same_key key node.id aspect.sentiment)) [
        | inl own ↦ rw (count_aspects, there, own) (rw own at counted ∙ omega (arith, ih))
        | inr other ↦ rw (count_aspects, there, other) (rw other at counted ∙ omega (arith, ih))
      ]
]

-- A key's mentions in a window: the aspects of current analyses whose review lies in it.
abbrev pub mentions_in : Tables → (start_date end_date : ℕ) → Key → ℕ
mentions_in tables start_date end_date key =
    length (keep (mentions (counted_node tables start_date end_date none none) key) tables.aspects)

pub category_sentiment_counts-row :
    (tables : Tables) (start_date end_date : ℕ) (key : Key)
    → mentions_of (row_of key (category_sentiment_counts tables start_date end_date none none))
      ≡ mentions_in tables start_date end_date key
unfolding category_sentiment_counts
category_sentiment_counts-row tables start_date end_date key =
    count_aspects-row (counted_node tables start_date end_date none none) key tables.aspects

-- ===== src/Dashboard/Changes.antt =====
-- The movements of `get_summary` between two windows: which there are, and what each tells.
use review_signal.Base.{
  ℕ, ◌+◌, ◌≡◌, refl, sym, ap, ◌∙◌, ◌≢◌, ◌⊎◌, inl, inr, Bool, true, false, not, ◌&&◌, ◌||◌, none,
  List, [], ◌∷◌, ◌++◌, map, arith, keep, any, All, Bool-cases, eq_iff, ◌==◌, Text, ℤ, nat_eq,
  list_eq, option_eq, leb,
}
use mathlib.Core.Path.{ap₂}
use review_signal.Dashboard.Trends.{
  CategoryMovement, CategoryCount, Tables, category_sentiment_counts, Key, has_key, mentions_of,
  row_of, key_of, movement, union_keys, minus,
}
use review_signal.Dashboard.Mentions.{and_parts, mentions_in, category_sentiment_counts-row}

-- The movement of a key between two windows.
pub data Differs : ℕ → ℕ → ℤ → Type 0 where
  risen : {now before d : ℕ} → now ≡ before + d → Differs now before (ℤ.pos d)
  fallen : {now before d : ℕ} → before ≡ now + d + 1 → Differs now before (ℤ.negsuc d)

pub minus-Differs : (now before : ℕ) → Differs now before (minus now before)
minus-Differs now before = elim (Bool-cases (leb before now)) [
  | inl le ↦ rw le (risen (ground arith))
  | inr gt ↦ rw gt (fallen (ground arith))
]

-- A key that a row has is in the union of both windows' keys.
abbrev pub is_key : Key → Key → Bool
is_key key k = k.0 == key.0 && k.1 == key.1

any-append : {A : Type 0} (p : A → Bool) (xs ys : List A) → any p (xs ++ ys) ≡ any p xs || any p ys
any-append p [] ys = refl
any-append p (x ∷ xs) ys = ground (arith, any-append p xs ys)

row_of-key :
    (key : Key) (rows : List CategoryCount)
    → mentions_of (row_of key rows) ≢ 0
    → any (is_key key) (map key_of rows) ≡ true
row_of-key key [] some_there = absurd (some_there refl)
row_of-key key (row ∷ rest) some_there = elim (Bool-cases (has_key key row)) [
  | inl hit ↦ rw (hit) refl
  | inr miss ↦ rw (miss) (row_of-key key rest (rw (miss) at some_there))
]

any-keys :
    (key : Key) (rows : List CategoryCount)
    → any (has_key key) rows ≡ any (is_key key) (map key_of rows)
any-keys key [] = refl
any-keys key (row ∷ rest) = ap (λ b. has_key key row || b) (any-keys key rest)

key_of-eq : (key : Key) (row : CategoryCount) → has_key key row ≡ true → key_of row ≡ key
key_of-eq key row hit =
    let (h₁, h₂) = and_parts _ _ hit in
    ap₂ (λ (id : ℕ) (t : Text). (let k : Key = (id, t) in k)) ((eq_iff row.category_id key.0).0 h₁)
      ((eq_iff row.sentiment key.1).0 h₂)

-- A row's key that is left out of the previous window's share is a key of the current window.
previous-key :
    (key : Key) (current rows : List CategoryCount)
    → any (is_key key) (map key_of rows) ≡ true
    → (any (is_key key) (map key_of current) ≡ true)
      ⊎ (any (is_key key) (
            map key_of
              (keep (λ (row : CategoryCount). not (any (has_key (key_of row)) current)) rows))
          ≡ true)
previous-key key current [] h = cc h
previous-key key current (row ∷ rest) h = elim (Bool-cases (any (has_key (key_of row)) current)) [
  | inl there ↦ elim (Bool-cases (has_key key row)) [
    | inl hit ↦ inl (
        sym (any-keys key current)
        ∙ ap (λ k. any (has_key k) current) (sym (key_of-eq key row hit))
        ∙ there)
    | inr miss ↦ rw (there) (previous-key key current rest (rw (miss) at h))
  ]
  | inr gone ↦ elim (Bool-cases (has_key key row)) [
    | inl hit ↦ inr (rw (gone, hit) refl)
    | inr miss ↦ rw (gone, miss) (previous-key key current rest (rw (miss) at h))
  ]
]

-- Every key that either window mentions is in the union of their keys.
union_keys_complete :
    (key : Key) (current previous : List CategoryCount)
    → (mentions_of (row_of key current) ≢ 0) ⊎ (mentions_of (row_of key previous) ≢ 0)
    → any (is_key key) (union_keys current previous) ≡ true
unfolding union_keys
union_keys_complete key current previous some_there =
    any-append (is_key key) (map key_of current) _ ∙ elim some_there [
      | inl now ↦ rw (row_of-key key current now) refl
      | inr before ↦ elim (previous-key key current previous (row_of-key key previous before)) [
        | inl here ↦ rw (here) refl
        | inr kept ↦ rw (kept) (or_true _)
      ]
    ]
  where
    or_true : (b : Bool) → b || true ≡ true
    or_true true = refl
    or_true false = refl

-- A movement that tells its key's mentions in both windows, and their difference.
abbrev pub IsHonest : (now before : Key → ℕ) → CategoryMovement → Type 0
IsHonest now before m =
    (m.current_count ≡ now (m.category_id, m.sentiment))
    × (m.previous_count ≡ before (m.category_id, m.sentiment))
    × Differs m.current_count m.previous_count m.delta

abbrev pub moves : Key → CategoryMovement → Bool
moves key m = m.category_id == key.0 && m.sentiment == key.1

any-moves :
    (key : Key) (current previous : List CategoryCount) (keys : List Key)
    → any (moves key) (map (movement current previous) keys) ≡ any (is_key key) keys
unfolding movement
any-moves key current previous [] = refl
any-moves key current previous (k ∷ keys) =
    ap (λ b. is_key key k || b) (any-moves key current previous keys)

-- The movements between two windows: each honest, and one for each key that either mentions.
abbrev pub AreMovements : (now before : Key → ℕ) → List CategoryMovement → Type 0
AreMovements now before movements =
    All (IsHonest now before) movements
    × ((key : Key) → (now key ≢ 0) ⊎ (before key ≢ 0) → any (moves key) movements ≡ true)

pub movements-AreMovements :
    (tables : Tables) (start middle end_date : ℕ)
    → let current = category_sentiment_counts tables middle end_date none none in
      let previous = category_sentiment_counts tables start middle none none in
      AreMovements
        (mentions_in tables middle end_date)
        (mentions_in tables start middle)
        (map (movement current previous) (union_keys current previous))
unfolding movement
movements-AreMovements tables start middle end_date =
    (honest (union_keys current previous), complete)
  where
    current : List CategoryCount
    current = category_sentiment_counts tables middle end_date none none

    previous : List CategoryCount
    previous = category_sentiment_counts tables start middle none none

    honest :
        (keys : List Key)
        → All
            (IsHonest (mentions_in tables middle end_date) (mentions_in tables start middle))
            (map (movement current previous) keys)
    honest [] = tt
    honest (key ∷ keys) = (
      (
        category_sentiment_counts-row tables middle end_date key,
        category_sentiment_counts-row tables start middle key,
        minus-Differs _ _,
      ),
      honest keys,
    )

    complete :
        (key : Key)
        → (mentions_in tables middle end_date key ≢ 0) ⊎ (mentions_in tables start middle key ≢ 0)
        → any (moves key) (map (movement current previous) (union_keys current previous)) ≡ true
    complete key some_there =
        any-moves key current previous (union_keys current previous)
        ∙ union_keys_complete key current previous (elim some_there [
          | inl now ↦
              inl (λ e. now (sym (category_sentiment_counts-row tables middle end_date key) ∙ e))
          | inr before ↦
              inr (λ e. before (sym (category_sentiment_counts-row tables start middle key) ∙ e))
        ])

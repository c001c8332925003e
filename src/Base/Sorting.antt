-- ===== src/Base/Sorting.antt =====
-- A stable sort, as Python's `sorted` and an `ORDER BY` with a total order give it.
use mathlib.Core.Path.{◌≡◌}
use mathlib.Core.Logic.{inl, inr}
use mathlib.Core.Bool.{Bool, true, false}
use mathlib.Core.List.{List, [], ◌∷◌, Perm}
use mathlib.Core.List.Perm
use review_signal.Base.Tests.{if◌then◌else◌, Bool-cases}
use review_signal.Base.Lists.{All}

module _ {A : Type 0} (le : A → A → Bool) where
  unfoldable pub insert_by : A → List A → List A
  insert_by x [] = x ∷ []
  insert_by x (y ∷ ys) = let behind = insert_by x ys in if le x y then x ∷ y ∷ ys else y ∷ behind

  unfoldable pub sort_by : List A → List A
  unfolding insert_by
  sort_by [] = []
  sort_by (x ∷ xs) = insert_by x (sort_by xs)

  abbrev pub IsSortedBy : List A → Type 0
  IsSortedBy [] = Unit
  IsSortedBy (x ∷ xs) = All (λ y. le x y ≡ true) xs × IsSortedBy xs

  insert_by-Perm : (x : A) (l : List A) → Perm (insert_by x l) (x ∷ l)
  unfolding insert_by
  insert_by-Perm x [] = Perm.rfl
  insert_by-Perm x (y ∷ ys) = elim (Bool-cases (le x y)) [
    | inl h ↦ rw (insert_by, h) Perm.rfl
    | inr h ↦ rw (insert_by, h) (Perm.trans (Perm.cons y (insert_by-Perm x ys)) (Perm.swap x y ys))
  ]

  pub sort_by-Perm : (l : List A) → Perm (sort_by l) l
  unfolding sort_by
  sort_by-Perm [] = Perm.rfl
  sort_by-Perm (x ∷ xs) = Perm.trans (insert_by-Perm x (sort_by xs)) (Perm.cons x (sort_by-Perm xs))

  module _ (total : (x y : A) → le x y ≡ false → le y x ≡ true)
      (trans : (x y z : A) → le x y ≡ true → le y z ≡ true → le x z ≡ true) where
    insert_by-All : (P : A → Type 0) (x : A) (l : List A) → P x → All P l → All P (insert_by x l)
    unfolding insert_by
    insert_by-All P x [] p h = (p, tt)
    insert_by-All P x (y ∷ ys) p h = elim (Bool-cases (le x y)) [
      | inl e ↦ rw (insert_by, e) (p, h)
      | inr e ↦ rw (insert_by, e) (h.0, insert_by-All P x ys p h.1)
    ]

    All-trans :
        (x y : A) (l : List A)
        → le x y ≡ true
        → All (λ z. le y z ≡ true) l
        → All (λ z. le x z ≡ true) l
    All-trans x y [] e h = tt
    All-trans x y (z ∷ zs) e h = (trans x y z e h.0, All-trans x y zs e h.1)

    insert_by-IsSortedBy : (x : A) (l : List A) → IsSortedBy l → IsSortedBy (insert_by x l)
    unfolding insert_by
    insert_by-IsSortedBy x [] h = (tt, tt)
    insert_by-IsSortedBy x (y ∷ ys) h = elim (Bool-cases (le x y)) [
      | inl e ↦ rw (insert_by, e) ((e, All-trans x y ys e h.0), h)
      | inr e ↦
          rw (insert_by, e)
            (
              insert_by-All (λ z. le y z ≡ true) x ys (total x y e) h.0,
              insert_by-IsSortedBy x ys h.1,
            )
    ]

    pub sort_by-IsSortedBy : (l : List A) → IsSortedBy (sort_by l)
    unfolding sort_by
    sort_by-IsSortedBy [] = tt
    sort_by-IsSortedBy (x ∷ xs) = insert_by-IsSortedBy x (sort_by xs) (sort_by-IsSortedBy xs)

-- ===== src/Dashboard/Movements.antt =====
-- The biggest movements of a trend summary.
use review_signal.Base.{
  ℕ, min, ◌≡◌, Bool, true, List, ◌++◌, Perm, length, keep, All, IsSortedBy, nat_eq, list_eq,
  option_eq,
}
use review_signal.Dashboard.Trends.{
  CategoryMovement, larger_first, smaller_first, is_increase, is_decrease, biggest_increases,
  biggest_decreases, TrendsSummaryPayload, Key,
}
use review_signal.Dashboard.Changes.{AreMovements}

module _ {A : Type 0} (le : A → A → Bool) where
  -- A list with the first of what it was taken from: sorted, and no one left out comes before it.
  abbrev pub IsTopOf : ℕ → List A → List A → Type 0
  IsTopOf n chosen candidates =
      (others : List A) × Perm (chosen ++ others) candidates
      × (length chosen ≡ min n (length (chosen ++ others)))
      × IsSortedBy le chosen
      × All (λ x. All (λ y. le x y ≡ true) others) chosen

-- What a summary has to show of the movements between two windows.
abbrev pub ShowsTops : List CategoryMovement → TrendsSummaryPayload → Type 0
ShowsTops movements payload =
    IsTopOf larger_first 5 payload.biggest_increases (keep is_increase movements)
    × IsTopOf smaller_first 5 payload.biggest_decreases (keep is_decrease movements)

-- What the counted mentions of two windows make a summary show.
abbrev pub Summarizes : (now before : Key → ℕ) → TrendsSummaryPayload → Type 0
Summarizes now before payload =
    (movements : List CategoryMovement) × AreMovements now before movements
    × ShowsTops movements payload

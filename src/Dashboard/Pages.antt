-- ===== src/Dashboard/Pages.antt =====
-- The pages of the review list, put together.
use review_signal.Base.{
  ℕ, zero, suc, ◌+◌, ◌-◌, ◌*◌, ◌≤◌, ◌≡◌, refl, sym, ap, ◌∙◌, subst, Bool, true, false, List, [],
  ◌∷◌, ◌++◌, Perm, arith, length, take, drop, keep, Text, insert_by, sort_by, IsSortedBy,
  sort_by-Perm, sort_by-IsSortedBy, nat_eq, list_eq, option_eq,
}
use native.Mathlib.Nat.{suc-mul}
use review_signal.Ingestion.Record.{Review}
use review_signal.Dashboard.Reviews.{ReviewQuery, newer_review, matches, list_page}

drop-nil : (m : ℕ) (l : List Review) → l ≡ [] → drop m l ≡ []
drop-nil zero l h = h
drop-nil (suc m) [] h = refl
drop-nil (suc m) (r ∷ l) h = cc h

drop-drop : (m n : ℕ) (l : List Review) → drop m (drop n l) ≡ drop (n + m) l
drop-drop m zero l = ap (λ k. drop k l) (omega arith)
drop-drop m (suc n) [] = drop-nil m [] refl ∙ sym (drop-nil (suc n + m) [] refl)
drop-drop m (suc n) (r ∷ l) =
    drop-drop m n l ∙ ap (λ k. drop k (r ∷ l)) (let e : suc (n + m) ≡ suc n + m = omega arith in e)

take_nil : (n : ℕ) → ◌≡◌ {A = List Review} (take n []) []
take_nil zero = refl
take_nil (suc n) = refl

take-append_take : (m n : ℕ) (l : List Review) → take m l ++ take n (drop m l) ≡ take (m + n) l
take-append_take zero n l = ap (λ k. take k l) (omega arith)
take-append_take (suc m) n [] = take_nil n ∙ sym (take_nil (suc m + n))
take-append_take (suc m) n (r ∷ l) =
    ap (λ t. r ∷ t) (take-append_take m n l)
    ∙ ap (λ k. take k (r ∷ l)) (let e : suc (m + n) ≡ suc m + n = omega arith in e)

take_all : (n : ℕ) (l : List Review) → length l ≤ n → take n l ≡ l
take_all zero [] h = refl
take_all zero (r ∷ l) h = absurd (omega arith)
take_all (suc n) [] h = refl
take_all (suc n) (r ∷ l) h = ap (λ t. r ∷ t) (take_all n l (omega arith))

newer_review_total : (r s : Review) → newer_review r s ≡ false → newer_review s r ≡ true
newer_review_total r s h = ground arith

newer_review_trans :
    (r s t : Review) → newer_review r s ≡ true → newer_review s t ≡ true → newer_review r t ≡ true
newer_review_trans r s t h₁ h₂ = ground arith

length-insert_by :
    (r : Review) (l : List Review) → length (insert_by newer_review r l) ≡ suc (length l)
unfolding insert_by
length-insert_by r [] = refl
length-insert_by r (s ∷ l) = ground (arith, length-insert_by r l)

length-sort_by : (l : List Review) → length (sort_by newer_review l) ≡ length l
unfolding sort_by
length-sort_by [] = refl
length-sort_by (r ∷ l) = length-insert_by r (sort_by newer_review l) ∙ ap suc (length-sort_by l)

module _ (ilike : (pattern value : Text) → Bool) where
  -- The rows of a run of pages, one page after another.
  unfoldable pub pages_from : (page count page_size : ℕ) → ReviewQuery → List Review → List Review
  unfolding list_page
  pages_from page zero page_size query rows = []
  pages_from page (suc count) page_size query rows =
      (list_page ilike page page_size query rows).0
      ++ pages_from (page + 1) count page_size query rows

  pages_from-take :
      (p count size : ℕ) (query : ReviewQuery) (rows : List Review)
      → pages_from (p + 1) count size query rows
        ≡ take
            (count * size)
            (drop (p * size) (sort_by newer_review (keep (matches ilike query) rows)))
  unfolding pages_from list_page
  pages_from-take p zero size query rows =
      let none_left : zero ≡ zero * size = omega arith in
      ap (λ k. take k (drop (p * size) (sort_by newer_review (keep (matches ilike query) rows))))
        none_left
  pages_from-take p (suc count) size query rows =
      let l = sort_by newer_review (keep (matches ilike query) rows) in
      let first : take size (drop ((p + 1 - 1) * size) l) ≡ take size (drop (p * size) l) =
        ap (λ k. take size (drop (k * size) l)) (let e : p + 1 - 1 ≡ p = omega arith in e) in
      let offset : (p + 1) * size ≡ p * size + size =
        ap (λ k. k * size) (let e : p + 1 ≡ suc p = omega arith in e) ∙ suc-mul p size in
      let behind : pages_from (p + 1 + 1) count size query rows
          ≡ take (count * size) (drop size (drop (p * size) l)) =
        pages_from-take (p + 1) count size query rows
        ∙ ap (λ k. take (count * size) (drop k l)) offset
        ∙ ap (take (count * size)) (sym (drop-drop size (p * size) l)) in
      let all_of : size + count * size ≡ suc count * size = omega (arith, suc-mul count size) in
      ap (λ t. t ++ pages_from (p + 1 + 1) count size query rows) first
      ∙ ap (λ t. take size (drop (p * size) l) ++ t) behind
      ∙ take-append_take size (count * size) (drop (p * size) l)
      ∙ ap (λ k. take k (drop (p * size) l)) all_of

  -- Enough pages of the list, put together, are every review that the query matches, each as often as
  -- it is stored, in the order of falling time and then id; and each page reports how many they are.
  pub list_page-pages :
      (count size : ℕ) (query : ReviewQuery) (rows : List Review)
      → length (keep (matches ilike query) rows) ≤ count * size
      → Perm (pages_from 1 count size query rows) (keep (matches ilike query) rows)
        × IsSortedBy newer_review (pages_from 1 count size query rows)
        × ((page : ℕ)
            → (list_page ilike page size query rows).1 ≡ length (keep (matches ilike query) rows))
  unfolding list_page
  list_page-pages count size query rows enough =
      let found = keep (matches ilike query) rows in
      let l = sort_by newer_review found in
      let long : length l ≤ count * size =
        subst (λ k. k ≤ count * size) (sym (length-sort_by found)) enough in
      let start : drop (0 * size) l ≡ l =
        ap (λ k. drop k l) (let e : 0 * size ≡ zero = omega arith in e) in
      let whole : pages_from 1 count size query rows ≡ l =
        pages_from-take 0 count size query rows
        ∙ ap (take (count * size)) start
        ∙ take_all (count * size) l long in
      (
        subst (λ t. Perm t found) (sym whole) (sort_by-Perm newer_review found),
        subst (IsSortedBy newer_review) (sym whole)
            (sort_by-IsSortedBy newer_review newer_review_total newer_review_trans found),
        λ page. refl,
      )

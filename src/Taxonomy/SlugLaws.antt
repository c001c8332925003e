-- ===== src/Taxonomy/SlugLaws.antt =====
-- The search for a free slug ends within as many steps as there are slugs in use.
use review_signal.Base.{
  ℕ, ◌+◌, ◌≤◌, ◌<◌, ◌≡◌, sym, ap, ◌∙◌, ◌≢◌, inl, inr, true, false, not, List, [], ◌∷◌, ◌++◌, arith,
  Bool-cases, length, keep, length-append, length-keep-le, ◌==◌, eq_iff, eq_cases, Text,
  decimal_text, decimal_text-injective, nat_eq, list_eq, option_eq, zero, suc, refl, subst,
}
use review_signal.Taxonomy.Slug.{slug_base, next_slug, unique_slug, is_used, candidate}

abbrev others : Text → List Text → List Text
others u used = keep (λ v. not (v == u)) used

is_used-others :
    (slug u : Text) (used : List Text)
    → slug ≢ u
    → is_used slug used ≡ true
    → is_used slug (others u used) ≡ true
unfolding is_used
is_used-others slug u [] ne h = cc
is_used-others slug u (v ∷ used) ne h =
    ground (arith, is_used-others slug u used ne, eq_iff v slug, eq_iff v u)

length-others-le : (u : Text) (used : List Text) → length (others u used) ≤ length used
length-others-le u used = length-keep-le (λ v. not (v == u)) used

length-others :
    (u : Text) (used : List Text) → is_used u used ≡ true → length (others u used) < length used
unfolding is_used
length-others u [] h = cc
length-others u (v ∷ used) h =
    ground (arith, length-others u used, eq_iff v u, length-others-le u used)

length-slug : (xs ys : Text) → length (xs ++ ys) ≡ length xs + length ys
length-slug xs ys = length-append xs ys

append-cancel : (xs ys zs : Text) → xs ++ ys ≡ xs ++ zs → ys ≡ zs
append-cancel [] ys zs e = e
append-cancel (x ∷ xs) ys zs e = append-cancel xs ys zs (cc e)

bare-ne : (base rest : Text) → base ≢ base ++ b'_' ∷ rest
bare-ne base rest e = omega (arith, ap length e, length-slug base (b'_' ∷ rest))

candidate-injective : (base : Text) (m n : ℕ) → candidate base m ≡ candidate base n → m ≡ n
unfolding candidate
candidate-injective base m n e = elim (eq_cases m 1) [
  | inl (h₁, p) ↦ elim (eq_cases n 1) [
    | inl (h₂, q) ↦ p ∙ sym q
    | inr (h₂, q) ↦ absurd (bare-ne base (decimal_text n) (rw (h₁, h₂, candidate) at e))
  ]
  | inr (h₁, p) ↦ elim (eq_cases n 1) [
    | inl (h₂, q) ↦ absurd (bare-ne base (decimal_text m) (sym (rw (h₁, h₂, candidate) at e)))
    | inr (h₂, q) ↦ decimal_text-injective m n (
        cc (
          append-cancel base (b'_' ∷ decimal_text m) (b'_' ∷ decimal_text n)
            (rw (h₁, h₂, candidate) at e)))
  ]
]

-- Some candidate among `length used + 1` in a row is free.
some_free :
    (fuel : ℕ) (base : Text) (suffix : ℕ) (used : List Text)
    → length used ≤ fuel
    → (i : ℕ) × (i ≤ fuel) × (is_used (candidate base (suffix + i)) used ≡ false)
unfolding is_used
some_free zero base suffix [] le = (0, omega arith, refl)
some_free zero base suffix (u ∷ used) le = absurd (omega (arith, le))
some_free (suc fuel) base suffix used le =
    elim (Bool-cases (is_used (candidate base suffix) used)) [
      | inr free ↦ (0, omega arith, at_start free)
      | inl taken ↦
          let smaller = length-others (candidate base suffix) used taken in
          let (i, i_le, free) =
            some_free fuel base (suffix + 1) (others (candidate base suffix) used)
              (omega (arith, smaller, le)) in
          (i + 1, omega (arith, i_le), moved i free)
    ]
  where
    at_start :
        is_used (candidate base suffix) used ≡ false
        → is_used (candidate base (suffix + 0)) used ≡ false
    at_start free =
        let same : suffix ≡ suffix + 0 = omega arith in
        subst (λ (k : ℕ). is_used (candidate base k) used ≡ false) same free

    moved :
        (i : ℕ)
        → is_used (candidate base (suffix + 1 + i)) (others (candidate base suffix) used) ≡ false
        → is_used (candidate base (suffix + (i + 1))) used ≡ false
    moved i free =
        let same : suffix + 1 + i ≡ suffix + (i + 1) = omega arith in
        elim (Bool-cases (is_used (candidate base (suffix + (i + 1))) used)) [
          | inr good ↦ good
          | inl bad ↦
              let distinct : candidate base (suffix + (i + 1)) ≢ candidate base suffix =
                λ e. omega (arith, candidate-injective base (suffix + (i + 1)) suffix e) in
              let kept = is_used-others _ (candidate base suffix) used distinct bad in
              absurd (let no : true ≡ false = sym kept ∙ (rw same at free) in cc no)
        ]

-- The loop stops at a free candidate, where there is one within its fuel.
next_slug-free :
    (fuel : ℕ) (base : Text) (suffix : ℕ) (used : List Text) (i : ℕ)
    → i ≤ fuel
    → is_used (candidate base (suffix + i)) used ≡ false
    → is_used (next_slug fuel base suffix used) used ≡ false
unfolding next_slug
next_slug-free zero base suffix used zero le free =
    let same : suffix + 0 ≡ suffix = omega arith in
    subst (λ (k : ℕ). is_used (candidate base k) used ≡ false) same free
next_slug-free zero base suffix used (suc i) le free = absurd (omega (arith, le))
next_slug-free (suc fuel) base suffix used i le free =
    elim (Bool-cases (is_used (candidate base suffix) used)) [
      | inr good ↦ rw (good, next_slug) good
      | inl taken ↦
          rw (taken, next_slug) (later i le free taken (next_slug-free fuel base (suffix + 1) used))
    ]
  where
    later :
        (i : ℕ)
        → i ≤ suc fuel
        → is_used (candidate base (suffix + i)) used ≡ false
        → is_used (candidate base suffix) used ≡ true
        → ((j : ℕ)
            → j ≤ fuel
            → is_used (candidate base (suffix + 1 + j)) used ≡ false
            → is_used (next_slug fuel base (suffix + 1) used) used ≡ false)
        → is_used (next_slug fuel base (suffix + 1) used) used ≡ false
    later zero le free taken ih =
        let same : suffix + 0 ≡ suffix = omega arith in
        let here = subst (λ (k : ℕ). is_used (candidate base k) used ≡ false) same free in
        absurd (let no : true ≡ false = sym taken ∙ here in cc no)
    later (suc i) le free taken ih =
        let same : suffix + suc i ≡ suffix + 1 + i = omega arith in
        ih i (omega (arith, le)) (rw same at free)

-- Whatever the name, the slug that the search returns is not in use yet: as many steps as there are
-- slugs in use are enough.
pub unique_slug-free :
    (lower : Text → Text) (name : Text) (used : List Text)
    → is_used (unique_slug lower name used) used ≡ false
unfolding unique_slug
unique_slug-free lower name used =
    let (i, le, free) = some_free (length used) (slug_base lower name) 1 used (omega arith) in
    next_slug-free (length used) (slug_base lower name) 1 used i le free

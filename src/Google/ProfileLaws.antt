-- ===== src/Google/ProfileLaws.antt =====
-- Which identifiers discovery lets through, and how its paging follows page tokens.
use review_signal.Base.{
  ℕ, zero, suc, ◌+◌, ◌≡◌, refl, sym, ap, ◌∙◌, subst, ◌≢◌, ◌↔◌, ◌⊎◌, inl, inr, false, Option, none,
  some, List, [], ◌∷◌, ◌++◌, arith, eq_refl, eq_cases, nat_eq, option_eq, list_eq, Text, Result, ok,
  ◌>>=◌, >>=-eq-ok,
}
use mathlib.Core.Path.{ap₂}
use review_signal.Google.Profile.{
  ProfileEnvelope, strip_prefix, has_slash, bare_segment, resource_id, paged,
}
use review_signal.Google.Mapping.{nonempty}

strip_prefix-append : (prefix rest : Text) → strip_prefix prefix (prefix ++ rest) ≡ some rest
unfolding strip_prefix
strip_prefix-append [] rest = refl
strip_prefix-append (p ∷ prefix) rest = rw (eq_refl p) (strip_prefix-append prefix rest)

strip_prefix-some :
    (prefix name rest : Text) → strip_prefix prefix name ≡ some rest → name ≡ prefix ++ rest
unfolding strip_prefix
strip_prefix-some [] name rest e = ground arith
strip_prefix-some (p ∷ prefix) [] rest e = cc
strip_prefix-some (p ∷ prefix) (c ∷ name) rest e = elim (eq_cases p c) [
  | inl (h, same) ↦
      ap₂ (λ (x : ℕ) (t : Text). x ∷ t) (sym same) (strip_prefix-some prefix name rest (rw h at e))
  | inr (h, ne) ↦ cc (rw h at e)
]

bare_segment_iff :
    (t id : Text) → (bare_segment t ≡ some id) ↔ (t ≡ id) × (id ≢ []) × (has_slash id ≡ false)
unfolding bare_segment
bare_segment_iff [] id = ((λ e. cc), (λ h. absurd (h.1 (sym h.0))))
bare_segment_iff (c ∷ cs) id = ((λ e. ground arith), (λ h. ground arith))

-- A listed name gives an identifier exactly when it is the prefix followed by that identifier, and the
-- identifier is not empty and has no slash, so that it stays one segment of a request's path.
pub resource_id_iff :
    (name prefix id : Text)
    → (resource_id (some name) prefix ≡ some id)
      ↔ (name ≡ prefix ++ id) × (id ≢ []) × (has_slash id ≡ false)
unfolding resource_id
resource_id_iff name prefix id = (found (strip_prefix prefix name) refl, given)
  where
    found :
        (o : Option Text)
        → strip_prefix prefix name ≡ o
        → (elim o [ none ↦ none | some identifier ↦ bare_segment identifier ]) ≡ some id
        → (name ≡ prefix ++ id) × (id ≢ []) × (has_slash id ≡ false)
    found none h e = cc
    found (some identifier) h e =
        let parts = (bare_segment_iff identifier id).0 e in
        (strip_prefix-some prefix name id (h ∙ ap some parts.0), parts.1, parts.2)

    given :
        (name ≡ prefix ++ id) × (id ≢ []) × (has_slash id ≡ false)
        → (elim (strip_prefix prefix name) [
          | none ↦ none
          | some identifier ↦ bare_segment identifier
        ])
          ≡ some id
    given h = rw (h.0, strip_prefix-append prefix id) ((bare_segment_iff id id).1 (refl, h.1, h.2))

module _ (get : ℕ → Option Text → Result ProfileEnvelope) where
  -- A listing within a number of rounds, from a request's number and page token: each envelope is the
  -- answer to its own request, which carries the token of the envelope before it; each but the last has
  -- a token, and the last has none unless the rounds are used up.
  abbrev pub IsWalk : (rounds number : ℕ) → Option Text → List ProfileEnvelope → Type 0
  IsWalk zero number token pages = pages ≡ []
  IsWalk (suc rounds) number token [] = ⊥
  IsWalk (suc rounds) number token (envelope ∷ rest) =
      (get number token ≡ ok envelope)
      × ((nonempty envelope.next_page_token ≡ none) × (rest ≡ [])
          ⊎ (next : Text) × (envelope.next_page_token ≡ some next)
            × (next ≢ [])
            × IsWalk rounds (number + 1) (some next) rest)

  nonempty-some : (t : Option Text) (s : Text) → nonempty t ≡ some s → (t ≡ some s) × (s ≢ [])
  unfolding nonempty
  nonempty-some none s e = cc
  nonempty-some (some []) s e = cc
  nonempty-some (some (c ∷ cs)) s e = ground arith

  -- A listing that raises nothing asks for no more pages than its cap, asks for each page with the
  -- token of the page before it, and stops early only at a page without a token.
  pub paged-IsWalk :
      (rounds number : ℕ) (token : Option Text) (pages : List ProfileEnvelope)
      → paged get rounds number token ≡ ok pages
      → IsWalk rounds number token pages
  unfolding paged
  paged-IsWalk zero number token pages e = ground arith
  paged-IsWalk (suc rounds) number token pages e =
      let (envelope, e₁, e₂) = >>=-eq-ok (get number token) _ e in
      after envelope (nonempty envelope.next_page_token) e₁ refl e₂
        (λ next rest h. paged-IsWalk rounds (number + 1) (some next) rest h)
    where
      after :
          (envelope : ProfileEnvelope) (o : Option Text)
          → get number token ≡ ok envelope
          → nonempty envelope.next_page_token ≡ o
          → (elim o [
            | none ↦ ok (envelope ∷ [])
            | some next ↦ paged get rounds (number + 1) (some next) >>= λ rest. ok (envelope ∷ rest)
          ])
            ≡ ok pages
          → ((next : Text) (rest : List ProfileEnvelope)
              → paged get rounds (number + 1) (some next) ≡ ok rest
              → IsWalk rounds (number + 1) (some next) rest)
          → IsWalk (suc rounds) number token pages
      after envelope none answer h e ih =
          let same : envelope ∷ [] ≡ pages = cc e in
          subst (IsWalk (suc rounds) number token) same (answer, inl (h, refl))
      after envelope (some next) answer h e ih =
          let (rest, e₁, e₂) = >>=-eq-ok (paged get rounds (number + 1) (some next)) _ e in
          let same : envelope ∷ rest ≡ pages = cc e₂ in
          let (carried, real) = nonempty-some envelope.next_page_token next h in
          subst (IsWalk (suc rounds) number token) same
            (answer, inr (next, carried, real, ih next rest e₁))

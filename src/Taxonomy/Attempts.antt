-- ===== src/Taxonomy/Attempts.antt =====
-- How the provider's call ends.
use review_signal.Base.{
  ℕ, ◌≡◌, refl, ◌⊎◌, inl, inr, true, false, Text, Result, ok, err, nat_eq, list_eq, option_eq,
}
use review_signal.Taxonomy.Provider.{
  Generated, valid, rejected, raised, Validation, accepts, errors, attempt_prompt, attempts_from,
  generate_structured,
}

module _ {T : Type 0} (chat : Text → Result Text) (validate : Text → Validation T)
    (prompt : Text) where
  -- The reply to an attempt was no valid one.
  abbrev pub Rejects : ℕ → Type 0
  Rejects attempt =
      (reply : Text) × (count : ℕ) × (chat (attempt_prompt prompt attempt) ≡ ok reply)
      × (validate reply ≡ errors count)

  abbrev pub Accepts : ℕ → T → Type 0
  Accepts attempt value =
      (reply : Text) × (chat (attempt_prompt prompt attempt) ≡ ok reply)
      × (validate reply ≡ accepts value)

  -- At most two completions; the second only when the first was rejected.
  abbrev pub Ends : ℕ → Generated T → Type 0
  Ends latency (valid o) =
      (o.latency_ms ≡ latency)
      × ((o.attempts ≡ 1) × (o.fallback_used ≡ false) × Accepts 1 o.value
          ⊎ (o.attempts ≡ 2) × (o.fallback_used ≡ true) × Rejects 1 × Accepts 2 o.value)
  Ends latency (rejected e) = (e.latency_ms ≡ latency) × (e.attempts ≡ 2) × Rejects 1 × Rejects 2
  Ends latency (raised e) =
      (chat (attempt_prompt prompt 1) ≡ err e)
      ⊎ Rejects 1 × (chat (attempt_prompt prompt 2) ≡ err e)

  -- A call asks the model once, and a second time, with the stricter prompt, exactly when the first
  -- reply failed validation. A value is one that validation accepted, with its attempt's number and
  -- `fallback_used` for the second; the provider's own error means that both replies were rejected;
  -- any other exception is one of the completion that was under way.
  pub generate_structured-Ends :
      (latency : ℕ) → Ends latency (generate_structured chat validate prompt latency)
  unfolding generate_structured attempts_from
  generate_structured-Ends latency = first (chat (attempt_prompt prompt 1)) refl
    where
      Goal : Type 0
      Goal = Ends latency (generate_structured chat validate prompt latency)

      judged₂ :
          (reply₁ reply₂ : Text) (count : ℕ) (v : Validation T)
          → chat (attempt_prompt prompt 1) ≡ ok reply₁
          → validate reply₁ ≡ errors count
          → chat (attempt_prompt prompt 2) ≡ ok reply₂
          → validate reply₂ ≡ v
          → Goal
      judged₂ reply₁ reply₂ count (errors n) a b c d =
          rw (a, b, c, d, generate_structured, attempts_from)
            (refl, refl, (reply₁, count, a, b), (reply₂, n, c, d))
      judged₂ reply₁ reply₂ count (accepts value) a b c d =
          rw (a, b, c, d, generate_structured, attempts_from)
            (refl, inr (refl, refl, (reply₁, count, a, b), (reply₂, c, d)))

      second :
          (reply : Text) (count : ℕ) (r : Result Text)
          → chat (attempt_prompt prompt 1) ≡ ok reply
          → validate reply ≡ errors count
          → chat (attempt_prompt prompt 2) ≡ r
          → Goal
      second reply count (err e) a b c =
          rw (a, b, c, generate_structured, attempts_from) (inr ((reply, count, a, b), c))
      second reply count (ok reply₂) a b c = judged₂ reply reply₂ count _ a b c refl

      judged :
          (reply : Text) (v : Validation T)
          → chat (attempt_prompt prompt 1) ≡ ok reply
          → validate reply ≡ v
          → Goal
      judged reply (errors n) a b = second reply n _ a b refl
      judged reply (accepts value) a b =
          rw (a, b, generate_structured, attempts_from) (refl, inl (refl, refl, (reply, a, b)))

      first : (r : Result Text) → chat (attempt_prompt prompt 1) ≡ r → Goal
      first (err e) a = rw (a, generate_structured, attempts_from) (inl a)
      first (ok reply) a = judged reply _ a refl

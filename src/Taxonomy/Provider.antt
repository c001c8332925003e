-- ===== src/Taxonomy/Provider.antt =====
-- `OllamaProvider.generate_structured` of ai/ollama.py. The completion that a prompt gets, with its
-- transport failures, and the schema's validation of a text are parameters.
use review_signal.Base.{
  ℕ, Bool, List, [], ◌∷◌, ◌++◌, ltb, if◌then◌else◌, ◌==◌, Text, codes, decimal_text, join,
  Exception, Result, err, ok, nat_eq, list_eq, option_eq,
}

-- `StructuredOutcome` and `StructuredOutputError`
pub record StructuredOutcome (T : Type 0) : Type 0 where
  pub value : T
  pub latency_ms : ℕ
  pub attempts : ℕ
  pub fallback_used : Bool

pub record StructuredOutputError : Type 0 where
  pub message : Text
  pub attempts : ℕ
  pub latency_ms : ℕ

-- How a call ends: with an outcome, with the provider's own error, or with another exception.
pub data Generated (T : Type 0) : Type 0 where
  valid : StructuredOutcome T → Generated T
  rejected : StructuredOutputError → Generated T
  raised : Exception → Generated T

-- What validation says: the value, or the number of schema errors.
pub data Validation (T : Type 0) : Type 0 where
  accepts : T → Validation T
  errors : ℕ → Validation T

-- `_STRICTER`
abbrev stricter : Text
stricter =
    codes "Your previous reply did not match the required JSON schema. "
    ++ codes "Reply with JSON matching the schema exactly. No prose, no code fences, no commentary."

-- `prompt if attempt == 1 else f"{prompt}\n\n{_STRICTER}"`
unfoldable pub attempt_prompt : Text → ℕ → Text
attempt_prompt prompt attempt = if attempt == 1 then prompt else prompt ++ 10 ∷ 10 ∷ stricter

-- `f"attempt {attempt}: {exc.error_count()} schema errors"`
unfoldable pub rejection : ℕ → ℕ → Text
unfolding decimal_text
rejection attempt count =
    codes "attempt "
    ++ (decimal_text attempt ++ (codes ": " ++ (decimal_text count ++ codes " schema errors")))

module _ {T : Type 0} (chat : Text → Result Text) (validate : Text → Validation T) where
  -- The loop over the attempts that are left, with the rejections so far and the time it took.
  unfoldable pub attempts_from : Text → ℕ → List ℕ → List Text → Generated T
  attempts_from prompt latency [] rejections =
      rejected
        (record { message = join (codes "; ") rejections; attempts = 2; latency_ms = latency })
  attempts_from prompt latency (attempt ∷ rest) rejections =
      elim (chat (attempt_prompt prompt attempt)) [
        | err e ↦ raised e
        | ok reply ↦ elim (validate reply) [
          | errors count ↦
              attempts_from prompt latency rest (rejections ++ rejection attempt count ∷ [])
          | accepts value ↦ valid (record {
            value = value;
            latency_ms = latency;
            attempts = attempt;
            fallback_used = ltb 1 attempt;
          })
        ]
      ]

  unfoldable pub generate_structured : Text → ℕ → Generated T
  generate_structured prompt latency = attempts_from prompt latency (1 ∷ 2 ∷ []) []

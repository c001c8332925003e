-- ===== src/Base/Exceptions.antt =====
-- Python exceptions as values: the class that was raised, and its message.
use mathlib.Core.Path.{◌≡◌, refl, ap}
use mathlib.Core.List.{◌++◌}
use review_signal.Base.Texts.{Text, codes}

-- The exception classes that the program raises or tells apart.
pub data ExceptionClass : Type 0 where
  source_fetch_error source_not_connected_error : ExceptionClass
  permanent_job_error taxonomy_generation_error structured_output_error : ExceptionClass
  lookup_error value_error runtime_error integrity_error : ExceptionClass
  google_not_connected_error google_api_error unauthorized_error : ExceptionClass
  validation_failed_error resource_not_found_error model_unavailable_error : ExceptionClass
  encryption_key_missing_error : ExceptionClass
  -- A class of a library, by its name.
  external : Text → ExceptionClass

pub record Exception : Type 0 where
  pub class_of : ExceptionClass
  pub message : Text

-- `type(exc).__name__`
abbrev pub class_name : ExceptionClass → Text
class_name source_fetch_error = codes "SourceFetchError"
class_name source_not_connected_error = codes "SourceNotConnectedError"
class_name permanent_job_error = codes "PermanentJobError"
class_name taxonomy_generation_error = codes "TaxonomyGenerationError"
class_name structured_output_error = codes "StructuredOutputError"
class_name lookup_error = codes "LookupError"
class_name value_error = codes "ValueError"
class_name runtime_error = codes "RuntimeError"
class_name integrity_error = codes "IntegrityError"
class_name google_not_connected_error = codes "GoogleNotConnectedError"
class_name google_api_error = codes "GoogleApiError"
class_name unauthorized_error = codes "UnauthorizedError"
class_name validation_failed_error = codes "ValidationFailedError"
class_name resource_not_found_error = codes "ResourceNotFoundError"
class_name model_unavailable_error = codes "ModelUnavailableError"
class_name (external name) = name
class_name encryption_key_missing_error = codes "EncryptionKeyMissingError"

-- `f"{type(exc).__name__}: {exc}"`
abbrev pub describe : Exception → Text
describe e = class_name e.class_of ++ codes ": " ++ e.message

-- What a piece of Python answers: the exception that leaves it, or its value.
pub data Result {ℓ} (A : Type ℓ) : Type ℓ where
  err : Exception → Result A
  ok : A → Result A

abbrev pub raise {ℓ} : {A : Type ℓ} → ExceptionClass → Text → Result A
raise exception_class text = err (record { class_of = exception_class; message = text })

module _ {ℓ κ} {A : Type ℓ} {B : Type κ} where
  infixl 5 ◌>>=◌
  -- One statement and those behind it, which an exception skips.
  abbrev pub ◌>>=◌ : Result A → (A → Result B) → Result B
  err raised >>= behind = err raised
  ok value >>= behind = behind value

  -- A sequence that ends well has been through its first statement.
  pub >>=-eq-ok :
      (first : Result A) (behind : A → Result B) {final : B}
      → (first >>= behind) ≡ ok final
      → (value : A) × (first ≡ ok value) × (behind value ≡ ok final)
  >>=-eq-ok (err raised) behind same = cc
  >>=-eq-ok (ok value) behind same = (value, refl, same)

-- A statement without a value in front of others.
infixl 5 ◌>>◌
abbrev pub ◌>>◌ {ℓ} : {A : Type ℓ} → Result (Unit {0}) → Result A → Result A
check >> behind = check >>= λ _. behind

pub ok-eq : {A : Type 0} {x y : A} → ok x ≡ ok y → x ≡ y
ok-eq {x = x} same = ap (λ r. elim r [ err e ↦ x | ok v ↦ v ]) same

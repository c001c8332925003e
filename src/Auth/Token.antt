-- ===== src/Auth/Token.antt =====
-- core/auth.py: a stateless session token. The HMAC's hex digest is a parameter. Times are
-- microseconds; `timestamp()` is that over a million.
use review_signal.Base.{
  ℕ, zero, suc, ◌+◌, ◌*◌, ◌/◌, Bool, true, false, ◌&&◌, ◌||◌, Option, none, some, [], ◌∷◌, ◌++◌,
  ltb, if◌then◌else◌, ◌==◌, Text, codes, ℤ, pos, negsuc, decimal_text, is_space, strip, partition,
  is_ascii, digits_value, external, Result, ok, raise, ◌>>=◌, nat_eq, list_eq, option_eq,
}

-- `SESSION_TTL`
abbrev pub session_ttl : ℕ
session_ttl = 43200000000

-- Microseconds in a second.
abbrev pub second : ℕ
second = 1000000

abbrev pub negate : ℕ → ℤ
negate zero = pos 0
negate (suc n) = negsuc n

abbrev pub map_option : {A B : Type 0} → (A → B) → Option A → Option B
map_option f none = none
map_option f (some a) = some (f a)

-- `int(text)` of a text without white space around it.
unfoldable pub signed_value : Text → Option ℤ
unfolding digits_value
signed_value [] = none
signed_value (c ∷ cs) = elim (c == b'-') [
  | true ↦ map_option negate (digits_value 0 false cs)
  | false ↦ elim (c == b'+') [
    | true ↦ map_option ℤ.pos (digits_value 0 false cs)
    | false ↦ map_option ℤ.pos (digits_value 0 false (c ∷ cs))
  ]
]

unfoldable pub int_text : Text → Option ℤ
unfolding signed_value strip is_space
int_text value = signed_value (strip is_space value)

-- `hmac.compare_digest` of two `str`.
unfoldable pub compare_digest : Text → Text → Result Bool
compare_digest a b =
    if is_ascii a && is_ascii b
    then ok (a == b)
    else raise (external (codes "TypeError"))
        (codes "comparing strings with non-ASCII characters is not supported")

-- `now.timestamp() < expires_at`
abbrev pub is_before : ℕ → ℤ → Bool
is_before now (ℤ.pos expires_at) = ltb now (expires_at * second)
is_before now (ℤ.negsuc n) = false

-- The end of `verify_token`, on the parsed payload.
abbrev pub lives : ℕ → Option ℤ → Bool
lives now none = false
lives now (some expires_at) = is_before now expires_at

module _ (sign : Text → Text → Text) where
  -- The second at which a token from `now` expires.
  abbrev pub expiry : (ttl now : ℕ) → ℕ
  expiry ttl now = (now + ttl) / second

  -- `issue_token`
  unfoldable pub issue_token : (secret : Text) → (ttl now : ℕ) → Text
  issue_token secret ttl now =
      let payload = decimal_text (expiry ttl now) in payload ++ b'.' ∷ sign secret payload

  -- `verify_token`
  unfoldable pub verify_token : (secret token : Text) → (now : ℕ) → Result Bool
  unfolding partition compare_digest int_text
  verify_token secret token now =
      let (payload, signature) = partition b'.' token in
      if payload == [] || signature == []
      then ok false
      else (compare_digest signature (sign secret payload) >>= λ same.
          ok (if same then lives now (int_text payload) else false))

-- `password_matches`
unfoldable pub password_matches : (supplied configured : Text) → Bool
password_matches supplied configured = if configured == [] then false else supplied == configured

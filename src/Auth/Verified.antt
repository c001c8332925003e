-- ===== src/Auth/Verified.antt =====
-- What a verified token proves, and which tokens raise.
use review_signal.Base.{
  ℕ, ◌+◌, ◌*◌, ◌/◌, ◌<◌, ◌≡◌, refl, ap, ◌∙◌, ◌≢◌, inl, inr, Bool, true, false, not, Option, none,
  some, [], ◌∷◌, ◌++◌, arith, ltb, leb, if◌then◌else◌, ltb→lt, all, ◌==◌, eq_iff, eq_refl, eq_cases,
  Text, codes, ℤ, decimal_text, is_space, partition, is_ascii, partition-found, partition-append,
  is_digit, digits_value, all-imp, decimal_text-all, decimal_text-nonempty,
  digits_value-decimal_text, strip-keeps, external, ok, raise, ◌>>=◌, >>=-eq-ok, nat_eq, list_eq,
  option_eq,
}
use review_signal.Auth.Token.{
  map_option, signed_value, int_text, verify_token, compare_digest, issue_token, lives, second,
  expiry,
}

digit-not_dot : (c : ℕ) → is_digit c ≡ true → not (c == b'.') ≡ true
digit-not_dot c h = ground arith

digit-not_space : (c : ℕ) → is_digit c ≡ true → not (is_space c) ≡ true
unfolding is_space
digit-not_space c h = ground arith

digit-ascii : (c : ℕ) → is_digit c ≡ true → leb c 127 ≡ true
digit-ascii c h = ground arith

signed_value-digits :
    (t : Text) (v : Option ℕ)
    → all is_digit t ≡ true
    → t ≢ []
    → digits_value 0 false t ≡ v
    → signed_value t ≡ map_option ℤ.pos v
unfolding signed_value
signed_value-digits [] v h ne e = absurd (ne refl)
signed_value-digits (c ∷ t) v h ne e =
    let minus : (c == b'-') ≡ false = ground arith in
    let plus : (c == b'+') ≡ false = ground arith in rw (minus, plus, e, signed_value) refl

pub int_text-decimal_text : (n : ℕ) → int_text (decimal_text n) ≡ some (ℤ.pos n)
unfolding int_text
int_text-decimal_text n =
    let digits = decimal_text-all n in
    let bare =
      strip-keeps is_space (decimal_text n)
        (all-imp is_digit (λ c. not (is_space c)) (decimal_text n) digit-not_space digits) in
    rw bare (
      signed_value-digits (decimal_text n) (some n) digits (decimal_text-nonempty n)
        (digits_value-decimal_text n))

nonempty_eq : (t : Text) → t ≢ [] → (t == []) ≡ false
nonempty_eq [] h = absurd (h refl)
nonempty_eq (c ∷ t) h = refl

pub compare_digest-true : (a b : Text) → compare_digest a b ≡ ok true → a ≡ b
unfolding compare_digest
compare_digest-true a b h = ground (arith, eq_iff a b)

pub same_digest : (t : Text) → is_ascii t ≡ true → compare_digest t t ≡ ok true
unfolding compare_digest
same_digest t h = rw (h) (ap ok (eq_refl t))

module _ (sign : Text → Text → Text) where
  -- What `verify_token` says of a payload and its signature: it raises for a signature that is not
  -- ASCII, and else tells whether the signature is the secret's and the payload's time is ahead.
  split_verdict :
      (secret payload signature : Text) (now : ℕ)
      → all (λ c. not (c == b'.')) payload ≡ true
      → payload ≢ []
      → signature ≢ []
      → verify_token sign secret (payload ++ b'.' ∷ signature) now ≡ (
          compare_digest signature (sign secret payload) >>= λ same.
          ok (if same then lives now (int_text payload) else false))
  unfolding verify_token
  split_verdict secret payload signature now dotless named signed =
      rw (partition-found b'.' payload signature dotless)
        (rw (nonempty_eq payload named, nonempty_eq signature signed) refl)

  -- The hex digest is a text of ASCII characters, and not empty.
  abbrev pub IsHexDigest : Type 0
  IsHexDigest =
      (secret payload : Text) → (is_ascii (sign secret payload) ≡ true) × (sign secret payload ≢ [])

  -- A token that was issued verifies under the same secret exactly until its expiry: the time of
  -- issue and the lifetime, cut to a whole second.
  pub verify_token-issue_token :
      (secret : Text) (ttl now later : ℕ)
      → IsHexDigest
      → verify_token sign secret (issue_token sign secret ttl now) later
        ≡ ok (ltb later ((now + ttl) / second * second))
  unfolding issue_token
  verify_token-issue_token secret ttl now later hex =
      let payload = decimal_text (expiry sign ttl now) in
      let dotless =
        all-imp is_digit (λ c. not (c == b'.')) payload digit-not_dot
          (decimal_text-all (expiry sign ttl now)) in
      split_verdict secret payload (sign secret payload) later dotless
        (decimal_text-nonempty (expiry sign ttl now)) (hex secret payload).1
      ∙ rw
          (
            same_digest (sign secret payload) (hex secret payload).0,
            int_text-decimal_text (expiry sign ttl now),
          )
          refl

  -- What makes a token live at `now`.
  abbrev pub IsLive : (secret token : Text) → ℕ → Type 0
  IsLive secret token now =
      (payload : Text) × (expires_at : ℕ) × (token ≡ payload ++ b'.' ∷ sign secret payload)
      × (int_text payload ≡ some (ℤ.pos expires_at))
      × (now < expires_at * second)

  lives-pos :
      (o : Option ℤ) (now : ℕ)
      → lives now o ≡ true
      → (n : ℕ) × (o ≡ some (ℤ.pos n)) × (now < n * second)
  lives-pos none now h = cc h
  lives-pos (some (ℤ.pos n)) now h = (n, refl, ltb→lt now (n * second) h)
  lives-pos (some (ℤ.negsuc n)) now h = cc h

  -- A token that verifies is a payload, a dot and the secret's own signature of that payload, which
  -- is the number of a second that is still ahead.
  pub verify_token-IsLive :
      (secret token : Text) (now : ℕ)
      → verify_token sign secret token now ≡ ok true
      → IsLive secret token now
  unfolding verify_token
  verify_token-IsLive secret token now e = elim (eq_cases (partition b'.' token).0 []) [
    | inl (h, p) ↦ absurd (let no : ok false ≡ ok true = rw (h) at e in cc no)
    | inr (h, p) ↦ elim (eq_cases (partition b'.' token).1 []) [
      | inl (k, q) ↦ absurd (let no : ok false ≡ ok true = rw (h, k) at e in cc no)
      | inr (k, q) ↦ signed q (rw (h, k) at e)
    ]
  ]
    where
      payload : Text
      payload = (partition b'.' token).0

      signature : Text
      signature = (partition b'.' token).1

      judged :
          (same : Bool)
          → signature ≢ []
          → compare_digest signature (sign secret payload) ≡ ok same
          → ok (if same then lives now (int_text payload) else false) ≡ ok true
          → IsLive secret token now
      judged false q e k = absurd (let no : false ≡ true = cc k in cc no)
      judged true q e k =
          let alive : lives now (int_text payload) ≡ true = cc k in
          let (n, parsed, ahead) = lives-pos (int_text payload) now alive in
          (
            payload,
            n,
            partition-append b'.' token q
                ∙ ap (λ (t : Text). payload ++ b'.' ∷ t)
                    (compare_digest-true signature (sign secret payload) e),
            parsed,
            ahead,
          )

      signed :
          signature ≢ []
          → (compare_digest signature (sign secret payload) >>= λ same.
              ok (if same then lives now (int_text payload) else false))
            ≡ ok true
          → IsLive secret token now
      signed q k =
          let (same, e₁, e₂) = >>=-eq-ok (compare_digest signature (sign secret payload)) _ k in
          judged same q e₁ e₂

  -- A token with a signature that is not ASCII is not refused: where its payload is not empty, and
  -- whatever the secret, `verify_token` raises `TypeError`.
  pub verify_token-raises :
      (secret payload signature : Text) (now : ℕ)
      → all (λ c. not (c == b'.')) payload ≡ true
      → payload ≢ []
      → is_ascii signature ≡ false
      → verify_token sign secret (payload ++ b'.' ∷ signature) now
        ≡ raise
            (external (codes "TypeError"))
            (codes "comparing strings with non-ASCII characters is not supported")
  unfolding compare_digest
  verify_token-raises secret payload signature now dotless named foreign =
      split_verdict secret payload signature now dotless named (λ p. cc (rw p at foreign))
      ∙ rw (foreign) refl

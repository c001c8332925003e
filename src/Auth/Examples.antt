-- ===== src/Auth/Examples.antt =====
-- A deployment whose digest is a mark in front of the payload: its logins, tokens and requests.
use review_signal.Base.{
  ℕ, ◌+◌, ◌*◌, ◌/◌, ◌≡◌, refl, ◌≢◌, true, false, some, [], ◌∷◌, ◌++◌, arith, ltb, leb, length, Text,
  codes, decimal_text, is_space, strip_left, strip_right, strip, partition, is_digit, digits_value,
  all-imp, decimal_text-all, external, ok, raise, nat_eq, list_eq, option_eq,
}
use review_signal.Api.Settings.{Settings, default_settings}
use review_signal.Auth.Token.{
  session_ttl, second, signed_value, int_text, compare_digest, issue_token, verify_token,
  password_matches,
}
use review_signal.Auth.Verified.{
  IsHexDigest, verify_token-issue_token, IsLive, verify_token-IsLive, verify_token-raises,
}
use review_signal.Auth.Routes.{is_guarded, SetCookie, reviews_router, login, require_session, serve}
use review_signal.Auth.Sessions.{Guards, Opens, login-Opens, serve-IsLive}

-- A digest of the secret's and the payload's lengths.
abbrev digest : Text → Text → Text
digest secret payload = b'f' ∷ decimal_text (length secret + length payload)

digit_ascii : (c : ℕ) → is_digit c ≡ true → leb c 127 ≡ true
digit_ascii c h = ground arith

digest-IsHexDigest : IsHexDigest digest
digest-IsHexDigest secret payload = (
  all-imp is_digit (λ c. leb c 127) (decimal_text (length secret + length payload)) digit_ascii
      (decimal_text-all (length secret + length payload)),
  λ e. cc e,
)

abbrev deployment : Settings
deployment = record (default_settings [] [] (codes "s")) { operator_password = codes "pw" }

verify_token-issue_token_example :
    verify_token digest (codes "s") (issue_token digest (codes "s") session_ttl 7000000) 9000000
    ≡ ok (ltb 9000000 ((7000000 + session_ttl) / second * second))
verify_token-issue_token_example =
    verify_token-issue_token digest (codes "s") session_ttl 7000000 9000000 digest-IsHexDigest

-- A token for the second 9.
abbrev token : Text
token = codes "9.f2"

token_verifies : verify_token digest (codes "s") token 8000000 ≡ ok true
unfolding verify_token partition compare_digest int_text signed_value digits_value strip is_space
    strip_left strip_right decimal_text
token_verifies = refl

verify_token-IsLive_example : IsLive digest (codes "s") token 8000000
verify_token-IsLive_example = verify_token-IsLive digest (codes "s") token 8000000 token_verifies

verify_token-raises_example :
    verify_token digest (codes "s") (codes "9" ++ b'.' ∷ 233 ∷ []) 8000000
    ≡ raise
        (external (codes "TypeError"))
        (codes "comparing strings with non-ASCII characters is not supported")
verify_token-raises_example =
    verify_token-raises digest (codes "s") (codes "9") (233 ∷ []) 8000000 refl (λ e. cc e) refl

abbrev cookie : SetCookie
cookie = record {
  name = codes "rs_session";
  value = some (issue_token digest (codes "s") session_ttl 7000000);
  max_age = some 43200;
  httponly = true;
  secure = false;
  samesite = codes "lax";
  path = codes "/";
}

logged_in : login digest deployment (codes "pw") 7000000 ≡ ok cookie
unfolding login password_matches
logged_in = refl

login-Opens_example :
    (codes "pw" ≡ codes "pw")
    × (codes "pw" ≢ [])
    × (true ≡ true)
    × Opens digest deployment 7000000 9000000 cookie
login-Opens_example =
    login-Opens digest deployment (codes "pw") 7000000 9000000 cookie digest-IsHexDigest logged_in

reviews_guarded : is_guarded reviews_router ≡ true
unfolding is_guarded
reviews_guarded = refl

served :
    serve digest deployment reviews_router (some token) 8000000 (λ u. ok (codes "3"))
    ≡ ok (codes "3")
unfolding serve require_session is_guarded
served = rw (token_verifies) refl

serve-IsLive_example : Guards digest deployment Text reviews_router (some token) 8000000
serve-IsLive_example =
    serve-IsLive digest deployment Text reviews_router (some token) 8000000 reviews_guarded

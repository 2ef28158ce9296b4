-- ===== src/Agent/Token.antt =====
-- `reviewToken` of internal/upboundagent/proxy.go: which bearer tokens the proxy accepts.
pub mod Laws
pub mod Signature
use universal_crossplane.Agent.Constants.{header_authorization}
use universal_crossplane.Base.{
  ℕ, ◌+◌, ◌*◌, ◌/◌, String, ◌<>◌, Bool, true, false, ◌&&◌, Option, none, some, List, [], ◌∷◌, Error,
  new, errorf, wrap, Result, ok, err, panic, eqb, ◌==◌, if◌then◌else◌,
}
use universal_crossplane.Base.Text.{trim_space, split, equal_fold}
use universal_crossplane.Jwt.{
  SigningMethod, rsa, other_method, TokenHeader, ParseError, validation, other_error, cause, Parsed,
}
use universal_crossplane.Agent.Header.{Header, get}
use universal_crossplane.Agent.Config.{Config, TokenClaims}

-- What the proxy calls of jwt-go. A time is in nanoseconds since 1970.
pub record Jwt : Type 1 where
  pub PublicKey : Type 0
  pub StandardClaims : Type 0
  pub audience : StandardClaims → String
  pub verify_issued_at : StandardClaims → ℕ → Bool → Bool
  pub issued_at_error : ℕ
  pub parse_with_claims :
      ℕ → String → (TokenHeader → Result PublicKey) → Parsed (TokenClaims StandardClaims)

abbrev pub err_missing_auth_header : String
err_missing_auth_header = "missing authorization header"

abbrev pub err_missing_bearer : String
err_missing_bearer = "missing bearer token"

abbrev pub err_invalid_token : String
err_invalid_token = "invalid token"

abbrev pub err_unexpected_signing_method : String
err_unexpected_signing_method = "unexpected signing method, expecting RS256 but found: %v"

abbrev pub second : ℕ
second = 1000000000

abbrev pub clock_skew_tolerance : ℕ
clock_skew_tolerance = 120 * second

-- `Time.Unix`
abbrev pub unix : ℕ → ℕ
unix time = time / second

abbrev is_rs256 : SigningMethod → Bool
is_rs256 (rsa name) = name == "RS256"
is_rs256 (other_method name) = false

-- The token of an authorization header that is split at its spaces, if the scheme is right.
unfoldable pub bearer_token : List String → Option String
bearer_token [] = none
bearer_token (scheme ∷ []) = none
bearer_token (scheme ∷ token ∷ rest) = if equal_fold scheme "bearer" then some token else none

module _ (jwt : Jwt) where
  open jwt use {StandardClaims, verify_issued_at, issued_at_error}

  -- `errors.Wrap(err, errInvalidToken)` beside a nil result: no error where `err` is nil.
  abbrev invalid : Option ParseError → Result (Option (TokenClaims StandardClaims))
  invalid none = ok none
  invalid (some e) = err (wrap (cause e) err_invalid_token)

  -- The branch for a token that is not valid, which runs the check of `iat` again.
  unfoldable pub review_invalid :
      ℕ
      → TokenClaims StandardClaims
      → Option ParseError
      → Result (Option (TokenClaims StandardClaims))
  review_invalid now claims (some (validation bits e)) =
      if eqb bits issued_at_error
        && verify_issued_at claims.standard_claims (unix (now + clock_skew_tolerance)) true
      then ok (some claims)
      else invalid (some (validation bits e))
  review_invalid now claims error = invalid error

  -- From the call of `ParseWithClaims` on. A nil token is dereferenced.
  unfoldable pub review_parsed :
      ℕ
      → TokenClaims StandardClaims
      → Option Bool
      → Option ParseError
      → Result (Option (TokenClaims StandardClaims))
  unfolding review_invalid
  review_parsed now claims none error = panic
  review_parsed now claims (some true) error = ok (some claims)
  review_parsed now claims (some false) error = review_invalid now claims error

module _ (jwt : Jwt) {CertPool : Type 0} where
  open jwt use {PublicKey, StandardClaims, parse_with_claims}

  -- The function that `reviewToken` hands to the parser.
  unfoldable pub key_func : Config PublicKey CertPool → TokenHeader → Result PublicKey
  key_func config token =
      if is_rs256 token.method
      then ok config.token_rsa_public_key
      else err (errorf err_unexpected_signing_method (token.alg ∷ []))

  unfoldable pub review_bearer :
      Config PublicKey CertPool → ℕ → Option String → Result (Option (TokenClaims StandardClaims))
  unfolding review_parsed key_func
  review_bearer config now none = err (new err_missing_bearer)
  review_bearer config now (some token) =
      let parsed = parse_with_claims now token (key_func config) in
      review_parsed jwt now parsed.claims parsed.token parsed.error

  -- The claims may be nil without an error.
  unfoldable pub review_token :
      Config PublicKey CertPool → ℕ → Header → Result (Option (TokenClaims StandardClaims))
  unfolding review_bearer bearer_token get trim_space split equal_fold
  review_token config now headers =
      let auth = trim_space (get header_authorization headers) in
      if auth == ""
      then err (new err_missing_auth_header)
      else review_bearer config now (bearer_token (split b' ' auth))

-- ===== src/Agent/Token/Signature.antt =====
-- That the signature of every token that `reviewToken` accepts was checked.
use universal_crossplane.Base.{
  ℕ, String, ◌≡◌, ap, eq_iff, inl, inr, true, false, some, Result, ok, arith,
}
use universal_crossplane.Jwt.{SigningMethod, rsa, other_method, TokenHeader}
use universal_crossplane.Agent.Header.{Header}
use universal_crossplane.Agent.Config.{Config, TokenClaims}
use universal_crossplane.Agent.Token.{Jwt, is_rs256, key_func, review_token}
use universal_crossplane.Agent.Token.Laws.{presented, IsOnly, Passes, parse, review_token_sound}

is_rs256-eq_true : (m : SigningMethod) → is_rs256 m ≡ true → m ≡ rsa "RS256"
is_rs256-eq_true (rsa name) h = ap rsa ((eq_iff name "RS256").0 h)
is_rs256-eq_true (other_method name) h = cc

-- What is assumed of jwt-go: a token is valid only if its key function gave a key with which the
-- signature was verified by the token's method, and the same holds where the bit field of the
-- error says that nothing failed but the check of `iat`.
pub record IsLawful (jwt : Jwt) : Type 1 where
  pub header_of : String → TokenHeader
  pub Verifies : String → SigningMethod → jwt.PublicKey → Type 0
  pub valid-verified :
      (now : ℕ) (s : String) (f : TokenHeader → Result jwt.PublicKey)
      → (jwt.parse_with_claims now s f).token ≡ some true
      → (k : jwt.PublicKey) × (f (header_of s) ≡ ok k) × Verifies s (header_of s).method k
  pub issued_at-verified :
      (now : ℕ) (s : String) (f : TokenHeader → Result jwt.PublicKey)
      → (jwt.parse_with_claims now s f).token ≡ some false
      → IsOnly jwt.issued_at_error (jwt.parse_with_claims now s f).error
      → (k : jwt.PublicKey) × (f (header_of s) ≡ ok k) × Verifies s (header_of s).method k

module _ (jwt : Jwt) {CertPool : Type 0} (config : Config jwt.PublicKey CertPool) (now : ℕ) where
  open jwt use {PublicKey, StandardClaims}

  key_func-eq_ok :
      (t : TokenHeader) (k : PublicKey)
      → key_func jwt config t ≡ ok k
      → (t.method ≡ rsa "RS256") × (k ≡ config.token_rsa_public_key)
  unfolding key_func
  key_func-eq_ok t k h = ground (arith, is_rs256-eq_true t.method)

  checked :
      (L : IsLawful jwt) (token : String)
      → Passes jwt now (parse jwt config now token)
      → (k : PublicKey) × (key_func jwt config (L.header_of token) ≡ ok k)
        × L.Verifies token (L.header_of token).method k
  checked L token (inl valid) = L.valid-verified now token (key_func jwt config) valid
  checked L token (inr (refused, only, _)) =
      L.issued_at-verified now token (key_func jwt config) refused only

  -- The presented token is signed by RS256 under the configured key.
  pub record IsVerified (L : IsLawful jwt) (headers : Header) : Type 0 where
    pub token : String
    pub given : presented headers ≡ some token
    pub method : (L.header_of token).method ≡ rsa "RS256"
    pub verifies : L.Verifies token (rsa "RS256") config.token_rsa_public_key

  -- Where jwt-go is lawful, a review that gives claims was of a request that presents a bearer
  -- token whose method is RSA with RS256 and whose signature is verified by the configured public
  -- key.
  pub review_token-IsVerified :
      (L : IsLawful jwt) (headers : Header) (c : TokenClaims StandardClaims)
      → review_token jwt config now headers ≡ ok (some c)
      → IsVerified L headers
  review_token-IsVerified L headers c h =
      let a = review_token_sound jwt config now headers c h in
      let (k, given, verifies) = checked L a.token a.passes in
      let (method, same) = key_func-eq_ok (L.header_of a.token) k given in
      record {
        token = a.token;
        given = a.given;
        method = method;
        verifies = rw (← method, ← same) verifies;
      }

-- ===== src/Jwt.antt =====
-- github.com/dgrijalva/jwt-go as its callers see it.
use universal_crossplane.Base.{ℕ, String, Bool, Option, Error}

-- The dynamic type of `token.Method`: an RSA method with its name, or another one.
pub data SigningMethod : Type 0 where
  rsa : String → SigningMethod
  other_method : String → SigningMethod

-- What a key function reads of the token that is being parsed.
pub record TokenHeader : Type 0 where
  pub method : SigningMethod
  pub alg : String

-- The error of a parse: a `*jwt.ValidationError` with its bit field `Errors`, or another type.
pub data ParseError : Type 0 where
  validation : ℕ → Error → ParseError
  other_error : Error → ParseError

abbrev pub cause : ParseError → Error
cause (validation bits e) = e
cause (other_error e) = e

-- What a parse returns and leaves in the claims that it was given. A token is nil or has `Valid`.
pub record Parsed {ℓ} (C : Type ℓ) : Type ℓ where
  pub token : Option Bool
  pub claims : C
  pub error : Option ParseError

-- A JSON value among `jwt.MapClaims`, by its dynamic type: `other` is neither a text nor a number.
pub data Claim (Float : Type 0) : Type 0 where
  str : String → Claim Float
  num : Float → Claim Float
  other : Claim Float

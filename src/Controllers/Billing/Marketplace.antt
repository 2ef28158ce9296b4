-- ===== src/Controllers/Billing/Marketplace.antt =====
-- internal/controllers/billing/aws/aws.go: `Marketplace`, a registerer.
pub mod Laws
use universal_crossplane.Base.{
  ℕ, String, Bool, true, false, not, Option, none, some, List, [], ◌∷◌, Error, errorf, wrap, Result,
  ok, err, panic, wrap_nil, ◌⊎◌, inl, inr, ◌==◌, if◌then◌else◌,
}
use universal_crossplane.Base.Dict.{Dict, lookup, insert, get_text}
use universal_crossplane.Jwt.{ParseError, cause, Parsed, Claim, str, num, other}
use universal_crossplane.Controllers.Kube.{Secret, entries}
use universal_crossplane.Controllers.Billing.Registerer.{Registered, Registerer}

abbrev pub err_register_usage : String
err_register_usage = "cannot register usage"

abbrev pub err_apply_secret : String
err_apply_secret = "cannot apply entitlement secret"

abbrev pub err_parse_token : String
err_parse_token = "cannot parse token"

abbrev pub err_product_code_match_fmt : String
err_product_code_match_fmt = "productCode %s does not match expected %s"

abbrev pub err_nonce_match_fmt : String
err_nonce_match_fmt = "nonce %s does not match expected %s"

abbrev pub err_public_key_version_match_fmt : String
err_public_key_version_match_fmt = "publicKeyVersion %s does not match expected %f"

-- `marketplacemetering.RegisterUsageInput`
pub record UsageInput : Type 0 where
  pub product_code : String
  pub public_key_version : ℕ
  pub nonce : String

-- What the marketplace calls: `register_usage` returns `aws.ToString` of the signature, `apply` the
-- error if there is one, `print` is the verb `%s` of fmt at a claim that may be missing.
pub record Metering : Type 1 where
  pub World : Type 0
  pub PublicKey : Type 0
  pub Float : Type 0
  pub float_of : ℕ → Float
  pub float_eq : Float → Float → Bool
  pub print : Option (Claim Float) → String
  pub register_usage : UsageInput → World → (Error ⊎ String) × World
  pub apply : Secret → World → Option Error × World
  pub parse_rsa_public_key_from_pem : String → Result PublicKey
  pub parse_with_claims : String → Result PublicKey → Parsed (Dict (Claim Float))

abbrev pub marketplace_product_code : String
marketplace_product_code = "1fszvu527waovqeuhpkyx2b5d"

-- `MarketplacePublicKey`
abbrev pub marketplace_public_key : String
marketplace_public_key =
    "-----BEGIN PUBLIC KEY-----\nMIIBojANBgkqhkiG9w0BAQEFAAOCAY8AMIIBigKCAYEAyu7Xq7XTBRgFWCL+DXj8\nXyc/fPLWNQ1adPDf8zqkJ1H1JCTg6fUo7HUvNu0BAbPwIME4aDEzteJkhPq9IzS8\nHlrZT/7DqSPV9bXnR9OkqugfbFPyHGyd9afHyfDJfGwfqBP5r8oBuGwmCw5Ia088\nAcePfkVEisAo+8KiBAE16bqvDw0v5YzDrDVpHH9YdK1q9eG5WRTt0h7lYFj8dydr\nh+OyONGyWTkAWbs3JpsQLZgRdU6Klj5aZzO6FeUc2kOz2Hs+QvKgbNSpgV0000KK\n2on4L1+WJau7sj8EFquFdk2C0MhucIy6ceWXGB3YAOb8c0H9FT0eSY5rtX154otW\njmV9vMLLX1gajtQD0iOLBLRQ3WliP7fGc6o3StjMrbKh+ErXGVzzJnjK2eQhgkg/\n/DgcKjUptZ21gdbqbQBGwvfitBEJX7VCwF4VMhFM8JQiAxCVBZ7kkY5ZlGjvN2gO\nAMFKarvAWRwrZisxKWe+RFBU1EI5WS75X7owU/IehIabAgMBAAE=\n-----END PUBLIC KEY-----\n"

abbrev pub marketplace_public_key_version : ℕ
marketplace_public_key_version = 1

abbrev pub secret_key_aws_metering_signature : String
secret_key_aws_metering_signature = "awsMeteringSignature"

module _ (A : Metering) where
  open A use {World, PublicKey, Float}

  -- What `Register` does with the answer of the metering service.
  unfoldable pub save_signature : Secret → Error ⊎ String → World → Registered World
  unfolding insert
  save_signature s (inl e) w = record {
    token = "";
    error = some (wrap e err_register_usage);
    secret = s;
    world = w;
  }
  save_signature s (inr signature) w =
      let s' = record s {
        contents = some (insert secret_key_aws_metering_signature signature (entries s.contents));
      } in
      let (failed, w') = A.apply s' w in
      record {
        token = signature;
        error = wrap_nil err_apply_secret failed;
        secret = s';
        world = w';
      }

  unfoldable pub register : Secret → String → World → Registered World
  unfolding save_signature get_text lookup
  register s uid w =
      let signature = get_text secret_key_aws_metering_signature (entries s.contents) in
      if not (signature == "")
      then record { token = signature; error = none; secret = s; world = w }
      else let (answer, w') =
          A.register_usage
            (record {
              product_code = marketplace_product_code;
              public_key_version = marketplace_public_key_version;
              nonce = uid;
            })
            w in
        save_signature s answer w'

  abbrev is_text : Option (Claim Float) → String → Bool
  is_text none t = false
  is_text (some (str s)) t = s == t
  is_text (some (num n)) t = false
  is_text (some other) t = false

  abbrev is_number : Option (Claim Float) → Float → Bool
  is_number none n = false
  is_number (some (str s)) n = false
  is_number (some (num m)) n = A.float_eq m n
  is_number (some other) n = false

  -- The switch over the claims.
  unfoldable pub check_claims : Dict (Claim Float) → String → Result Bool
  unfolding lookup
  check_claims claims uid =
      let product = lookup "productCode" claims in
      let nonce = lookup "nonce" claims in
      let version = lookup "publicKeyVersion" claims in
      if not (is_text product marketplace_product_code)
      then err (errorf err_product_code_match_fmt (A.print product ∷ marketplace_product_code ∷ []))
      else if not (is_text nonce uid)
      then err (errorf err_nonce_match_fmt (A.print nonce ∷ uid ∷ []))
      else if not (is_number version (A.float_of marketplace_public_key_version))
      then err (
          errorf err_public_key_version_match_fmt (
            A.print version
            ∷ A.print (some (num (A.float_of marketplace_public_key_version)))
            ∷ []))
      else ok true

  -- From the answer of the parser on.
  unfoldable pub verify_parsed :
      Option Bool → Option ParseError → Dict (Claim Float) → String → Result Bool
  unfolding check_claims
  verify_parsed token (some e) claims uid = err (wrap (cause e) err_parse_token)
  verify_parsed none none claims uid = panic
  verify_parsed (some false) none claims uid = ok false
  verify_parsed (some true) none claims uid = check_claims claims uid

  -- `Verify`, of a marketplace with this public key.
  unfoldable pub verify : String → String → String → Result Bool
  unfolding verify_parsed
  verify public_key token uid =
      let parsed = A.parse_with_claims token (A.parse_rsa_public_key_from_pem public_key) in
      verify_parsed parsed.token parsed.error parsed.claims uid

  abbrev pub marketplace : String → Registerer World
  marketplace public_key = record { register = register; verify = verify public_key }

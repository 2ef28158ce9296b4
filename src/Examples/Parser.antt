-- ===== src/Examples/Parser.antt =====
-- A parser of three tokens, and the configuration of a proxy.
use universal_crossplane.Base.{
  ℕ, String, ◌≡◌, refl, Bool, true, false, ◌||◌, none, some, [], ◌∷◌, new, Result, ok, err, panic,
  arith, leb, ◌==◌, if◌then◌else◌,
}
use universal_crossplane.Jwt.{rsa, TokenHeader, validation, Parsed}
use universal_crossplane.Agent.Config.{Config, TokenClaims}
use universal_crossplane.Agent.Token.{Jwt}
use universal_crossplane.Agent.Token.Laws.{IsOnly}
use universal_crossplane.Agent.Token.Signature.{IsLawful}

-- The claims of the tokens: an audience and a time of issue in seconds.
abbrev pub Standard : Type 0
Standard = String × ℕ

abbrev pub Claims : Type 0
Claims = TokenClaims Standard

abbrev pub claims_at : ℕ → Claims
claims_at iat = record {
  payload = record { groups = "admins" ∷ []; upbound_id = "u1" };
  standard_claims = ("cp", iat);
}

abbrev pub rs256 : TokenHeader
rs256 = record { method = rsa "RS256"; alg = "RS256" }

abbrev pub known : String → Bool
known s = s == "good" || s == "early"

-- The parser once it has a key: one good token, one that is issued a minute later, and the rest.
abbrev pub parse_known : String → Parsed Claims
parse_known s =
    if s == "good"
    then record { token = some true; claims = claims_at 10; error = none }
    else if s == "early"
    then record {
      token = some false;
      claims = claims_at 70;
      error = some (validation 16 (new "Token used before issued"));
    }
    else record {
      token = none;
      claims = claims_at 0;
      error = some (validation 1 (new "token contains an invalid number of segments"));
    }

abbrev pub unverifiable : Parsed Claims
unverifiable = record {
  token = some false;
  claims = claims_at 0;
  error = some (validation 2 (new "error while executing keyfunc"));
}

abbrev pub parse_by : Result String → String → Parsed Claims
parse_by (ok k) s = parse_known s
parse_by (err e) s = unverifiable
parse_by panic s = unverifiable

abbrev pub jwt : Jwt
jwt = record {
  PublicKey = String;
  StandardClaims = Standard;
  audience = λ c. c.0;
  verify_issued_at = λ c now required. leb c.1 now;
  issued_at_error = 16;
  parse_with_claims = λ now s f. parse_by (f rs256) s;
}

pub parse_by-valid :
    (r : Result String) (s : String)
    → (parse_by r s).token ≡ some true
    → (k : String) × (r ≡ ok k) × (known s ≡ true)
parse_by-valid (ok k) s h = (k, refl, ground arith)
parse_by-valid (err e) s h = absurd (cc)
parse_by-valid panic s h = absurd (cc)

pub parse_by-early :
    (r : Result String) (s : String)
    → (parse_by r s).token ≡ some false
    → IsOnly 16 (parse_by r s).error
    → (k : String) × (r ≡ ok k) × (known s ≡ true)
parse_by-early (ok k) s h only = (k, refl, ground arith)
parse_by-early (err e) s h only = absurd (ground arith)
parse_by-early panic s h only = absurd (ground arith)

abbrev pub lawful : IsLawful jwt
lawful = record {
  header_of = λ s. rs256;
  Verifies = λ s m k. known s ≡ true;
  valid-verified = λ now s f h. parse_by-valid (f rs256) s h;
  issued_at-verified = λ now s f h only. parse_by-early (f rs256) s h only;
}

abbrev pub config : Config String Unit
config = record {
  debug_mode = false;
  control_plane_id = "cp";
  token_rsa_public_key = "k";
  xgql_ca_cert_pool = none;
  nats = record {
    name = "agent";
    endpoint = "nats://nats";
    jwt_endpoint = "https://api";
    control_plane_token = "t";
    ca_bundle = "";
  };
}

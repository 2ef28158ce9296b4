-- ===== src/Clients/Upbound.antt =====
-- internal/clients/upbound/upbound.go: the client of the Upbound API.
pub mod Laws
pub mod Redaction
use universal_crossplane.Base.{
  ℕ, String, ◌<>◌, Bool, true, false, Option, none, some, List, [], ◌∷◌, Error, new, errorf, Result,
  ok, err, wrapped, eqb, ◌==◌, if◌then◌else◌,
}
use universal_crossplane.Base.Dict.{Dict, get_text}
use universal_crossplane.Base.Effects.{Eff, ◌>>=◌, lift, or_wrap}
use universal_crossplane.Agent.Header.{Header, set}

abbrev pub key_token : String
key_token = "token"

abbrev pub key_jwt_public_key : String
key_jwt_public_key = "jwt_public_key"

abbrev pub key_nats_ca : String
key_nats_ca = "nats_ca"

-- A response as `resty.Response` gives it.
pub record Response : Type 0 where
  pub status_code : ℕ
  pub status : String
  pub body : String

pub data Method : Type 0 where
  get_method post_method : Method

-- A request: its own headers, the headers of the client, and the body where one is set.
pub record Request : Type 0 where
  pub method : Method
  pub host_url : String
  pub path : String
  pub client_header : Header
  pub header : Header
  pub body : Option String

-- resty and encoding/json: `execute` sends a request.
pub record Resty (World : Type 0) : Type 0 where
  pub execute : Request → Eff World Response
  pub marshal : Dict String → Result String
  pub unmarshal : String → Result (Dict String)

pub record PublicCerts : Type 0 where
  pub jwt_public_key : String
  pub nats_ca : String

-- The interface `Client`, over the world that its calls change.
pub record Client (World : Type 0) : Type 0 where
  pub get_gateway_certs : String → Eff World PublicCerts
  pub fetch_new_jwt_token : String → String → String → Eff World String

-- What `NewClient` sets up: the host, the debug flag and the headers of every request.
pub record RestyClient : Type 0 where
  pub host_url : String
  pub debug : Bool
  pub header : Header

unfoldable pub new_resty : String → Bool → RestyClient
unfolding set
new_resty host debug = record {
  host_url = host;
  debug = debug;
  header = set "Accept" "application/json" (set "Content-Type" "application/json" []);
}

abbrev pub redacted : String
redacted = "[REDACTED]"

pub record RequestLog : Type 0 where
  pub header : Header
  pub body : String

-- The function that is given to `OnRequestLog`.
unfoldable pub on_request_log : RequestLog → RequestLog
unfolding set
on_request_log r = record { header = set "Authorization" redacted r.header; body = redacted }

-- The function that is given to `OnResponseLog`: the body of the log.
abbrev pub on_response_log : String → String
on_response_log body = redacted

abbrev pub status_ok : ℕ
status_ok = 200

-- `c.resty.R()` with the token as the bearer.
unfoldable pub authorized : RestyClient → Method → String → String → Option String → Request
unfolding set
authorized c method path cp_token body = record {
  method = method;
  host_url = c.host_url;
  path = path;
  client_header = c.header;
  header = set "Authorization" ("Bearer " <> cp_token) [];
  body = body;
}

abbrev pub gw_certs_path : String
gw_certs_path = "/v1/gw/certs"

abbrev pub nats_token_path : String
nats_token_path = "/v1/nats/token"

-- What `GetGatewayCerts` makes of the entries of the response.
unfoldable pub certs_of : Dict String → Result PublicCerts
unfolding get_text
certs_of m =
    let j = get_text key_jwt_public_key m in
    let n = get_text key_nats_ca m in
    if j == ""
    then err (new "empty jwt public key received")
    else if n == ""
    then err (new "empty nats ca received")
    else ok (record { jwt_public_key = j; nats_ca = n })

-- What `FetchNewJWTToken` makes of the entries of the response.
unfoldable pub token_of : Dict String → Result String
unfolding get_text
token_of m =
    let t = get_text key_token m in if t == "" then err (new "empty token received") else ok t

abbrev pub token_body : String → String → Dict String
token_body cluster_id public_key = ("clusterID", cluster_id) ∷ ("clientPubKey", public_key) ∷ []

module _ {World : Type 0} (R : Resty World) where
  -- The test of the status, with the format of its error, and the decoding of the body.
  unfoldable pub entries_of : String → String → Response → Result (Dict String)
  entries_of fmt msg resp =
      if eqb resp.status_code status_ok
      then wrapped msg (R.unmarshal resp.body)
      else err (errorf fmt (resp.status ∷ resp.body ∷ []))

  unfoldable pub get_gateway_certs : RestyClient → String → Eff World PublicCerts
  unfolding authorized entries_of certs_of
  get_gateway_certs c cp_token = do
    resp ←
        or_wrap "failed to request gateway certs"
          (R.execute (authorized c get_method gw_certs_path cp_token none))
    m ← lift (
        entries_of "gateway certs request failed with %s - %s"
          "failed to unmarshall gw certs response" resp)
    lift (certs_of m)

  unfoldable pub fetch_new_jwt_token : RestyClient → String → String → String → Eff World String
  unfolding authorized entries_of token_of
  fetch_new_jwt_token c cp_token cluster_id public_key = do
    body ←
        or_wrap "failed to marshall body to json"
          (lift (R.marshal (token_body cluster_id public_key)))
    resp ←
        or_wrap "failed to request new token"
          (R.execute (authorized c post_method nats_token_path cp_token (some body)))
    m ← lift (
        entries_of "new token request failed with %s - %s"
          "failed to unmarshall nats token response" resp)
    lift (token_of m)

  -- `NewClient`
  abbrev pub new_client : String → Bool → Client World
  new_client host debug = record {
    get_gateway_certs = get_gateway_certs (new_resty host debug);
    fetch_new_jwt_token = fetch_new_jwt_token (new_resty host debug);
  }

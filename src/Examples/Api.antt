-- ===== src/Examples/Api.antt =====
-- Calls of the Upbound API, and the NATS manager, with a server that counts its requests.
use universal_crossplane.Base.{
  ℕ, suc, String, ◌≡◌, ◌≢◌, refl, ap, true, false, none, some, [], ◌∷◌, ok, if◌then◌else◌, inr, leb,
}
use universal_crossplane.Base.Dict.{Dict, lookup, insert, get_text, lookup-insert_self}
use universal_crossplane.Agent.Header.{set}
use universal_crossplane.Clients.Upbound.{
  get_method, post_method, Resty, PublicCerts, RestyClient, on_request_log, new_resty, new_client,
  authorized, gw_certs_path, nats_token_path, token_body, get_gateway_certs, fetch_new_jwt_token,
}
use universal_crossplane.Clients.Upbound.Laws.{
  IsAnswered, get_gateway_certs-IsAnswered, fetch_new_jwt_token-IsAnswered,
}
use universal_crossplane.Clients.Upbound.Redaction.{on_request_log-same}
use universal_crossplane.Agent.Nats.{
  NatsEnv, NatsConnManager, is_jwt_valid, new_nats_conn_manager, user_token_refresher,
}
use universal_crossplane.Agent.Nats.Histories.{
  Refreshes, start, refreshed, elapsed, refreshes-IsFetched,
}
use universal_crossplane.Agent.Nats.Laws.{IsRefreshed, user_token_refresher-IsRefreshed, IsFiles}

-- The number of requests and the files.
pub record Net : Type 0 where
  pub requests : ℕ
  pub files : Dict String

abbrev pub at : ℕ → Net
at n = record { requests = n; files = [] }

abbrev answers : Dict String
answers = ("token", "nats-jwt") ∷ ("jwt_public_key", "pem") ∷ ("nats_ca", "ca") ∷ []

-- Every request is answered with all the entries.
abbrev pub resty : Resty Net
resty = record {
  execute = λ r w. (
    ok (record { status_code = 200; status = "200 OK"; body = "all" }),
    record w { requests = suc w.requests },
  );
  marshal = λ m. ok "json";
  unmarshal = λ s. ok answers;
}

abbrev client : RestyClient
client = new_resty "https://api" false

abbrev pub certs : PublicCerts
certs = record { jwt_public_key = "pem"; nats_ca = "ca" }

abbrev fetched : String
fetched = "nats-jwt"

certs_run : get_gateway_certs resty client "t" (at 0) ≡ (ok certs, at 1)
unfolding get_gateway_certs lookup
certs_run = refl

fetch_run : fetch_new_jwt_token resty client "t" "c" "p" (at 4) ≡ (ok "nats-jwt", at 5)
unfolding fetch_new_jwt_token lookup
fetch_run = refl

get_gateway_certs-IsAnswered_example :
    (m : Dict String) × IsAnswered resty client
      (authorized client get_method gw_certs_path "t" none)
      (at 0)
      m
      (at 1)
    × ((certs
          ≡ record { jwt_public_key = get_text "jwt_public_key" m; nats_ca = get_text "nats_ca" m })
        × (certs.jwt_public_key ≢ "")
        × (certs.nats_ca ≢ ""))
get_gateway_certs-IsAnswered_example =
    get_gateway_certs-IsAnswered resty client "t" (at 0) (at 1) certs certs_run

fetch_new_jwt_token-IsAnswered_example :
    (body : String) × (m : Dict String) × (resty.marshal (token_body "c" "p") ≡ ok body)
    × IsAnswered resty client
        (authorized client post_method nats_token_path "t" (some body))
        (at 4)
        m
        (at 5)
    × (("nats-jwt" ≡ get_text "token" m) × (fetched ≢ ""))
fetch_new_jwt_token-IsAnswered_example =
    fetch_new_jwt_token-IsAnswered resty client "t" "c" "p" (at 4) (at 5) "nats-jwt" fetch_run

on_request_log-same_example :
    on_request_log (record { header = set "Authorization" "Bearer t" []; body = "b" })
    ≡ on_request_log (record { header = set "Authorization" "Bearer u" []; body = "c" })
on_request_log-same_example = on_request_log-same [] "Bearer t" "Bearer u" "b" "c"

-- A token is valid while there are at most 10 requests.
abbrev pub nats : NatsEnv
nats = record {
  World = Net;
  KeyPair = String;
  UserClaims = String;
  create_user = λ w. (ok "kp", w);
  public_key = ok;
  sign = λ k nonce. ok nonce;
  decode_claims = inr;
  validate = λ c w. if leb w.requests 10 then [] else "expired" ∷ [];
  base64_decode = λ s. ok s;
  temp_file = λ dir pattern w. (ok "nats-ca1", w);
  write_file = λ f b w. (ok tt, record w { files = insert f b w.files });
}

abbrev files : IsFiles nats
files = record {
  contents = λ w f. lookup f w.files;
  write-ok = λ f b w h. rw (← ap (λ o. o.1) h) (lookup-insert_self f b w.files);
}

abbrev manager : String → NatsConnManager nats
manager token = record {
  up_client = new_client resty "https://api" false;
  kp = "kp";
  pub_key = "kp";
  cluster_id = "c";
  cp_token = "t";
  jwt_token = token;
  ca_file = "nats-ca1";
}

refresh_run :
    user_token_refresher nats (manager "", at 0) ≡ (ok "nats-jwt", (manager "nats-jwt", at 1))
unfolding user_token_refresher fetch_new_jwt_token lookup
refresh_run = refl

valid_run : is_jwt_valid nats "nats-jwt" (at 3) ≡ true
unfolding is_jwt_valid
valid_run = refl

user_token_refresher-IsRefreshed_example :
    IsRefreshed nats (manager "") (at 0) "nats-jwt" (manager "nats-jwt") (at 1)
user_token_refresher-IsRefreshed_example =
    user_token_refresher-IsRefreshed nats (manager "") (manager "nats-jwt") (at 0) (at 1) "nats-jwt"
      refresh_run

abbrev saved : Net
saved = record { requests = 0; files = ("nats-ca1", "ca") ∷ [] }

manager_run :
    new_nats_conn_manager nats (new_client resty "https://api" false) "c" "t" "ca" (at 0)
    ≡ (ok (manager ""), saved)
unfolding new_nats_conn_manager insert
manager_run = refl

-- The first token is fetched, and after some time the next refresh gives it again.
held_run :
    user_token_refresher nats (manager "nats-jwt", at 1)
    ≡ (ok "nats-jwt", (manager "nats-jwt", at 1))
unfolding user_token_refresher
held_run = refl

life : Refreshes nats (manager "", saved) (manager "nats-jwt", at 1)
unfolding user_token_refresher fetch_new_jwt_token lookup
life = elapsed (at 1) (refreshed start)

refreshes-IsFetched_example :
    (pk : String) × (before later : Net) × (nats.public_key (manager "nats-jwt").kp ≡ ok pk)
    × ((new_client resty "https://api" false).fetch_new_jwt_token "t" "c" pk before
        ≡ (ok "nats-jwt", later))
refreshes-IsFetched_example =
    refreshes-IsFetched nats (new_client resty "https://api" false) "c" "t" "ca" (at 0) saved (at 1)
      (at 1) (manager "") (manager "nats-jwt") (manager "nats-jwt") "nats-jwt" manager_run life
      held_run

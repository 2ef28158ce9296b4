-- ===== src/Agent/Nats.antt =====
-- internal/upboundagent/natsconn.go: the agent's identity towards NATS.
pub mod Laws
pub mod Histories
use universal_crossplane.Base.{
  String, Bool, true, false, List, [], ◌∷◌, Error, Result, ok, err, panic, ◌==◌, if◌then◌else◌, ◌⊎◌,
  inl, inr,
}
use universal_crossplane.Base.Effects.{Eff, ◌>>=◌, ◌>>◌, pure, lift, or_wrap}
use universal_crossplane.Clients.Upbound.{Client}

-- nkeys, NATS JWT, base64 and temporary files. Whether claims are valid depends on the clock,
-- which is in the world; `validate` gives the issues that it finds.
pub record NatsEnv : Type 1 where
  pub World : Type 0
  pub KeyPair : Type 0
  pub UserClaims : Type 0
  pub create_user : Eff World KeyPair
  pub public_key : KeyPair → Result String
  pub sign : KeyPair → String → Result String
  pub decode_claims : String → Error ⊎ UserClaims
  pub validate : UserClaims → World → List String
  pub base64_decode : String → Result String
  pub temp_file : String → String → Eff World String
  pub write_file : String → String → Eff World (Unit {0})

-- `natsConnManager`
pub record NatsConnManager (N : NatsEnv) : Type 0 where
  pub up_client : Client N.World
  pub kp : N.KeyPair
  pub pub_key : String
  pub cluster_id : String
  pub cp_token : String
  pub jwt_token : String
  pub ca_file : String

module _ (N : NatsEnv) where
  open N use {World}

  unfoldable pub ca_bundle_to_file : String → Eff World String
  ca_bundle_to_file ca_bundle = do
    b ← or_wrap "failed to decode ca bundle" (lift (N.base64_decode ca_bundle))
    ca_file ← or_wrap "failed to create temp file for nats ca" (N.temp_file "" "nats-ca")
    or_wrap "failed to write nats ca to file" (N.write_file ca_file b)
    pure ca_file

  unfoldable pub new_nats_conn_manager :
      Client World → String → String → String → Eff World (NatsConnManager N)
  unfolding ca_bundle_to_file
  new_nats_conn_manager up_client c_id cp_token ca_bundle = do
    kp ← or_wrap "failed to create nats user" N.create_user
    pk ← or_wrap "failed to get public key for nats user nkey" (lift (N.public_key kp))
    ca_file ← or_wrap "failed to get nats ca bundle file" (ca_bundle_to_file ca_bundle)
    pure (record {
      up_client = up_client;
      kp = kp;
      pub_key = pk;
      cluster_id = c_id;
      cp_token = cp_token;
      jwt_token = "";
      ca_file = ca_file;
    })

  abbrev no_issues : List String → Bool
  no_issues [] = true
  no_issues (issue ∷ issues) = false

  abbrev claims_valid : Error ⊎ N.UserClaims → World → Bool
  claims_valid (inl e) w = false
  claims_valid (inr claims) w = no_issues (N.validate claims w)

  unfoldable pub is_jwt_valid : String → World → Bool
  is_jwt_valid token w = if token == "" then false else claims_valid (N.decode_claims token) w

  -- The manager, which the handlers change, and the world.
  abbrev pub State : Type 0
  State = NatsConnManager N × World

  -- What `userTokenRefresher` does with the client's answer.
  unfoldable pub store_token : NatsConnManager N → Result String × World → Result String × State
  store_token n (ok tk, w) = (ok tk, (record n { jwt_token = tk }, w))
  store_token n (err e, w) = (err e, (n, w))
  store_token n (panic, w) = (panic, (n, w))

  unfoldable pub user_token_refresher : Eff State String
  unfolding is_jwt_valid store_token
  user_token_refresher (n, w) =
      if is_jwt_valid n.jwt_token w
      then (ok n.jwt_token, (n, w))
      else store_token n (n.up_client.fetch_new_jwt_token n.cp_token n.cluster_id n.pub_key w)

  unfoldable pub signature_handler : NatsConnManager N → String → Result String
  signature_handler n nonce = N.sign n.kp nonce

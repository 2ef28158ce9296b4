-- ===== src/Commands/UpboundAgent.antt =====
-- cmd/upbound-agent/main.go: the start of the agent.
mod Constants
pub mod Env
pub mod Waiting
pub mod Laws
pub mod Connection
pub mod Ending
pub mod Arrival
pub mod Serving
use universal_crossplane.Commands.UpboundAgent.Env.{AgentCmd, AgentEnv}
use universal_crossplane.Commands.UpboundAgent.Constants.{
  err_cp_id_in_token_not_valid_uuid, err_cp_token_no_subject_key,
  err_cp_token_subject_is_not_string, err_failed_to_get_kube_system_ns, err_kube_system_uid_empty,
  err_malformed_cp_token,
}
use universal_crossplane.Base.{
  ℕ, zero, suc, ◌*◌, String, ◌<>◌, Bool, true, false, Option, none, some, List, [], ◌∷◌, Error, new,
  wrap, wrapf, Result, ok, err, panic, ◌⊎◌, inl, inr, eqb, ◌==◌, if◌then◌else◌,
}
use universal_crossplane.Base.Text.{trim_prefix}
use universal_crossplane.Base.Dict.{Dict, lookup}
use universal_crossplane.Base.Effects.{Eff, ◌>>=◌, ◌>>◌, pure, lift, or_wrap}
use universal_crossplane.Jwt.{ParseError, validation, other_error, Parsed, Claim, str, num, other}
use universal_crossplane.Clients.Upbound.{
  Resty, PublicCerts, Client, new_client, new_resty, get_gateway_certs,
}
use universal_crossplane.Agent.Config.{Config}
use universal_crossplane.Agent.Token.{second}
use universal_crossplane.Agent.Runtime.{Runtime, Process}
use universal_crossplane.Agent.Startup.{new_proxy}
use universal_crossplane.Agent.Lifecycle.{Exit, returned, exited, run}

abbrev pub control_plane_token_check_period : ℕ
control_plane_token_check_period = second * 3

abbrev pub prefix_platform_token_subject : String
prefix_platform_token_subject = "controlPlane|"

-- The rest of a loop, unless the round has a result.
abbrev pub or_continue : {X W : Type 0} → Option X → W → Option (X × W) → Option (X × W)
or_continue none w rest = rest
or_continue (some x) w rest = some (x, w)

module _ {R : Runtime} (A : AgentEnv R) where
  open R use {nats, PublicKey, CertPool}

  -- One round of the loop: its result, or none where the loop goes on.
  unfoldable pub token_of_read : Error ⊎ String → Option (Result String)
  token_of_read (inl e) =
      if A.is_not_exist e then none else some (err (wrap e "cannot read control plane token file"))
  token_of_read (inr f) = if f == "" then none else some (ok f)

  -- The loop has no bound of its own: `none` stands for rounds that are not over yet.
  unfoldable pub wait_for_control_plane_token :
      ℕ → String → ℕ → nats.World → Option (Result String × nats.World)
  unfolding token_of_read
  wait_for_control_plane_token zero path d w = none
  wait_for_control_plane_token (suc rounds) path d w =
      let (f, w') = A.read_file (A.clean path) w in
      let rest = wait_for_control_plane_token rounds path d (R.sleep d w') in
      or_continue (token_of_read f) w' rest

  unfoldable pub generate_trusted_cert_pool : String → Result CertPool
  generate_trusted_cert_pool b = elim (A.append_certs_from_pem b) [
    | none ↦ err (new "no certs appended, ca cert should have been appended")
    | some pool ↦ ok pool
  ]

  abbrev checked_id : String → Result R.Uuid → Result String
  checked_id env_id (ok id) = ok env_id
  checked_id env_id (err e) = err (wrapf e err_cp_id_in_token_not_valid_uuid (env_id ∷ []))
  checked_id env_id panic = panic

  -- The subject of the token, without its prefix. Beside an error the caller drops the id.
  unfoldable pub id_of_subject : Option (Claim A.Float) → Result String
  unfolding trim_prefix
  id_of_subject none = err (new err_cp_token_no_subject_key)
  id_of_subject (some (str s)) =
      let env_id = trim_prefix s prefix_platform_token_subject in
      checked_id env_id (R.parse_uuid env_id)
  id_of_subject (some (num n)) = err (new err_cp_token_subject_is_not_string)
  id_of_subject (some other) = err (new err_cp_token_subject_is_not_string)

  -- The parse has no key, so that an error is expected; where there is none, or it is of another
  -- type, the type assertion panics, and so does a nil token.
  unfoldable pub id_of_parsed :
      Option Bool → Dict (Claim A.Float) → Option ParseError → Result String
  unfolding id_of_subject lookup
  id_of_parsed token claims none = panic
  id_of_parsed token claims (some (other_error e)) = panic
  id_of_parsed none claims (some (validation bits e)) =
      if eqb bits A.malformed then err (wrap e err_malformed_cp_token) else panic
  id_of_parsed (some valid) claims (some (validation bits e)) =
      if eqb bits A.malformed
      then err (wrap e err_malformed_cp_token)
      else id_of_subject (lookup "sub" claims)

  unfoldable pub read_cpid_from_token : String → Result String
  unfolding id_of_parsed
  read_cpid_from_token t =
      let parsed = A.jwt_parse t in id_of_parsed parsed.token parsed.claims parsed.error

  abbrev pub non_empty_uid : String → Result String
  non_empty_uid uid = if uid == "" then err (new err_kube_system_uid_empty) else ok uid

  unfoldable pub read_kube_cluster_id : A.Kube → Eff nats.World String
  read_kube_cluster_id kube = do
    uid ← or_wrap err_failed_to_get_kube_system_ns (A.get_namespace_uid kube "kube-system")
    lift (non_empty_uid uid)

  abbrev from_file : Error ⊎ String → Result String
  from_file (inl e) = err e
  from_file (inr b) = ok b

  load_cert_pool : String → Eff nats.World (Option CertPool)
  unfolding generate_trusted_cert_pool
  load_cert_pool file = do
    b ←
        or_wrap "failed to read xgql ca bundle file"
          (λ w. let (x, w') = A.read_file (A.clean file) w in (from_file x, w'))
    pool ← or_wrap "failed to generate xgql ca cert pool" (lift (generate_trusted_cert_pool b))
    pure (some pool)

  -- The pool for xgql, where a bundle file is given.
  unfoldable pub xgql_cert_pool : String → Eff nats.World (Option CertPool)
  unfolding load_cert_pool
  xgql_cert_pool file w = if file == "" then (ok none, w) else load_cert_pool file w

  -- `tgConfig`
  abbrev pub config_of :
      AgentCmd
      → String
      → String
      → PublicCerts
      → PublicKey
      → Option CertPool
      → Config PublicKey CertPool
  config_of a token cp_id certs pk pool = record {
    debug_mode = a.debug;
    control_plane_id = cp_id;
    token_rsa_public_key = pk;
    xgql_ca_cert_pool = pool;
    nats = record {
      name = a.pod_name;
      endpoint = a.nats_endpoint;
      jwt_endpoint = a.upbound_api_endpoint;
      control_plane_token = token;
      ca_bundle = certs.nats_ca;
    };
  }

  -- The configuration, from the token on.
  unfoldable pub configure : AgentCmd → String → Eff nats.World (Config PublicKey CertPool)
  unfolding read_cpid_from_token get_gateway_certs xgql_cert_pool
  configure a token = do
    cp_id ← or_wrap "failed to read control plane id from token" (lift (read_cpid_from_token token))
    certs ←
        or_wrap "failed to fetch public certs"
          (get_gateway_certs A.resty (new_resty a.upbound_api_endpoint a.debug) token)
    pem ←
        or_wrap "failed to base64 decode provided jwt public key"
          (lift (nats.base64_decode certs.jwt_public_key))
    pk ← or_wrap "failed to parse public key" (lift (A.parse_rsa_public_key_from_pem pem))
    pool ← xgql_cert_pool a.xgql_ca_bundle_file
    pure (config_of a token cp_id certs pk pool)

  -- The proxy, from the configuration on.
  unfoldable pub connect : AgentCmd → Config PublicKey CertPool → Eff nats.World (Process R)
  unfolding read_kube_cluster_id new_proxy
  connect a config = do
    rest_config ← or_wrap "failed to get rest config" A.get_config
    kube ← or_wrap "failed to initialize kubernetes client" (lift (A.new_kube rest_config))
    cluster_id ← or_wrap "failed to read kube cluster ID" (read_kube_cluster_id kube)
    or_wrap "failed to create new agent proxy" (
        new_proxy R config rest_config (new_client A.resty a.upbound_api_endpoint a.debug)
          cluster_id)

  -- What `main` does with a run that returned: `FatalIfErrorf` exits with status 1 on an error.
  unfoldable pub finish : Exit (Result (Unit {0}) × Process R) → Result (Exit nats.World)
  finish (exited status) = ok (exited status)
  finish (returned (ok _, p)) = ok (returned p.world)
  finish (returned (err e, p)) = err (wrap e "cannot run upbound agent proxy")
  finish (returned (panic, p)) = panic

  abbrev finishing :
      Option (Exit (Result (Unit {0}) × Process R)) → Option (Result (Exit nats.World))
  finishing none = none
  finishing (some e) = some (finish e)

  unfoldable pub run_proxy :
      AgentCmd → Result (Process R) × nats.World → Option (Result (Exit nats.World))
  unfolding finish run
  run_proxy a (err e, w) = some (err e)
  run_proxy a (panic, w) = some panic
  run_proxy a (ok p, w) = finishing (run R (":" <> a.server_port) a.tls_cert_file a.tls_key_file p)

  -- The rest of `main`, once the wait for the token is over.
  unfoldable pub start :
      AgentCmd → Option (Result String × nats.World) → Option (Result (Exit nats.World))
  unfolding configure connect run_proxy
  start a none = none
  start a (some (err e, w)) = some (err (wrap e "failed to wait for control plane token"))
  start a (some (panic, w)) = some panic
  start a (some (ok token, w)) = run_proxy a ((configure a token >>= connect a) w)

  -- `main`, with a number of rounds for the wait. An error is fatal.
  unfoldable pub main : ℕ → AgentCmd → nats.World → Option (Result (Exit nats.World))
  unfolding wait_for_control_plane_token start
  main rounds a w = start a (
      wait_for_control_plane_token rounds a.control_plane_token_path
        control_plane_token_check_period w)

-- ===== src/Commands/UpboundAgent/Laws.antt =====
-- Which control plane the agent serves, and that its start comes to an end.
use universal_crossplane.Base.{
  String, ◌≡◌, ◌≢◌, refl, sym, ap, ◌∙◌, ◌↔◌, inl, inr, Bool, Option, none, some, Result, ok, err,
  panic, eqb-cases, ok-injective,
}
use universal_crossplane.Base.Text.{trim_prefix}
use universal_crossplane.Base.Dict.{Dict, lookup}
use universal_crossplane.Base.Effects.{or_wrap->>=-eq-ok, or_wrap-lift->>=-eq-ok, >>=-eq-ok}
use universal_crossplane.Jwt.{ParseError, validation, other_error, Claim, str, num, other}
use universal_crossplane.Clients.Upbound.{PublicCerts, new_resty, get_gateway_certs}
use universal_crossplane.Agent.Config.{Config}
use universal_crossplane.Agent.Runtime.{Runtime}
use universal_crossplane.Commands.UpboundAgent.Env.{AgentCmd, AgentEnv}
use universal_crossplane.Commands.UpboundAgent.{
  checked_id, id_of_subject, id_of_parsed, read_cpid_from_token, xgql_cert_pool, configure,
  prefix_platform_token_subject,
}

module _ {R : Runtime} (A : AgentEnv R) where
  open R use {nats, PublicKey, CertPool}

  checked_id-eq_ok :
      (env_id : String) (u : Result R.Uuid) (id : String)
      → checked_id A env_id u ≡ ok id
      → (id ≡ env_id) × ((v : R.Uuid) × (u ≡ ok v))
  checked_id-eq_ok env_id (ok v) id h = (sym (ok-injective h), (v, refl))
  checked_id-eq_ok env_id (err e) id h = absurd (cc)
  checked_id-eq_ok env_id panic id h = absurd (cc)

  -- The id is a UUID and the text claim of the subject without the prefix.
  pub record IsSubject (c : Option (Claim A.Float)) (id : String) : Type 0 where
    pub subject : String
    pub uuid : R.Uuid
    pub claimed : c ≡ some (str subject)
    pub stripped : id ≡ trim_prefix subject prefix_platform_token_subject
    pub parsed : R.parse_uuid id ≡ ok uuid

  id_of_subject-IsSubject :
      (c : Option (Claim A.Float)) (id : String) → id_of_subject A c ≡ ok id → IsSubject c id
  unfolding id_of_subject
  id_of_subject-IsSubject none id h = absurd (cc)
  id_of_subject-IsSubject (some (num n)) id h = absurd (cc)
  id_of_subject-IsSubject (some other) id h = absurd (cc)
  id_of_subject-IsSubject (some (str s)) id h =
      let (same, (v, parsed)) =
        checked_id-eq_ok _ (R.parse_uuid (trim_prefix s prefix_platform_token_subject)) id h in
      record { subject = s; uuid = v; claimed = refl; stripped = same; parsed = rw same parsed }

  IsSubject-id_of_subject :
      (c : Option (Claim A.Float)) (id : String) → IsSubject c id → id_of_subject A c ≡ ok id
  unfolding id_of_subject
  IsSubject-id_of_subject c id s =
      let parsed = rw s.stripped at s.parsed in rw (s.claimed, parsed, s.stripped) refl

  -- The parser got a token apart, and what it found wrong is not that the token is malformed.
  abbrev pub IsParsed : Option Bool → Option ParseError → Type 0
  IsParsed token none = ⊥
  IsParsed token (some (other_error e)) = ⊥
  IsParsed token (some (validation bits e)) = (token ≢ none) × (bits ≢ A.malformed)

  id_of_parsed_iff :
      (token : Option Bool) (claims : Dict (Claim A.Float)) (error : Option ParseError)
      (id : String)
      → (id_of_parsed A token claims error ≡ ok id)
        ↔ (IsParsed token error × IsSubject (lookup "sub" claims) id)
  unfolding id_of_parsed
  id_of_parsed_iff token claims none id = (λ h. absurd (cc), λ (bad, _). absurd bad)
  id_of_parsed_iff token claims (some (other_error e)) id =
      (λ h. absurd (cc), λ (bad, _). absurd bad)
  id_of_parsed_iff none claims (some (validation bits e)) id = (
    λ h. elim (eqb-cases bits A.malformed) [
      | inl (same, _) ↦ absurd (cc (rw same at h))
      | inr (different, _) ↦ absurd (cc (rw different at h))
    ],
    λ (p, _). absurd (p.0 refl),
  )
  id_of_parsed_iff (some valid) claims (some (validation bits e)) id =
      elim (eqb-cases bits A.malformed) [
        | inl (same, is) ↦ (λ h. absurd (cc (rw same at h)), λ (p, _). absurd (p.1 is))
        | inr (different, ne) ↦ (
          λ h. ((λ absent. cc, ne), id_of_subject-IsSubject _ id (rw different at h)),
          λ (_, subject). rw different (IsSubject-id_of_subject _ id subject),
        )
      ]

  -- An id is read from a token exactly where the parser took the token apart, with an error of
  -- jwt-go other than that the token is malformed, and the id is a UUID that the text claim `sub`
  -- gives without the prefix of a control plane.
  pub read_cpid_from_token_iff :
      (t id : String)
      → (read_cpid_from_token A t ≡ ok id) ↔ (
          IsParsed (A.jwt_parse t).token (A.jwt_parse t).error
          × IsSubject (lookup "sub" (A.jwt_parse t).claims) id)
  unfolding read_cpid_from_token
  read_cpid_from_token_iff t id = id_of_parsed_iff _ (A.jwt_parse t).claims _ id

  -- What a configuration is made of.
  pub record IsConfigured (a : AgentCmd) (token : String) (config : Config PublicKey CertPool)
      : Type 0 where
    pub certs : PublicCerts
    pub pem : String
    pub before : nats.World
    pub after : nats.World
    pub id : read_cpid_from_token A token ≡ ok config.control_plane_id
    pub fetched :
        get_gateway_certs A.resty (new_resty a.upbound_api_endpoint a.debug) token before
        ≡ (ok certs, after)
    pub decoded : nats.base64_decode certs.jwt_public_key ≡ ok pem
    pub key : A.parse_rsa_public_key_from_pem pem ≡ ok config.token_rsa_public_key
    pub token_is : config.nats.control_plane_token ≡ token
    pub bundle : config.nats.ca_bundle ≡ certs.nats_ca

  pub configure-IsConfigured :
      (a : AgentCmd) (token : String) (w w' : nats.World) (config : Config PublicKey CertPool)
      → configure A a token w ≡ (ok config, w')
      → IsConfigured a token config
  unfolding configure
  configure-IsConfigured a token w w' config h =
      let (id, read, rest1) = or_wrap-lift->>=-eq-ok _ (read_cpid_from_token A token) _ w h in
      let get = get_gateway_certs A.resty (new_resty a.upbound_api_endpoint a.debug) token in
      let (certs, w1, fetched, rest2) = or_wrap->>=-eq-ok _ get _ w rest1 in
      let (pem, decoded, rest3) =
        or_wrap-lift->>=-eq-ok _ (nats.base64_decode certs.jwt_public_key) _ w1 rest2 in
      let (pk, key, rest4) =
        or_wrap-lift->>=-eq-ok _ (A.parse_rsa_public_key_from_pem pem) _ w1 rest3 in
      let (pool, w2, _, done) = >>=-eq-ok (xgql_cert_pool A a.xgql_ca_bundle_file) _ w1 rest4 in
      let is = ok-injective (ap (λ o. o.0) done) in
      record {
        certs = certs;
        pem = pem;
        before = w;
        after = w1;
        id = read ∙ (λ i. ok (is i).control_plane_id);
        fetched = fetched;
        decoded = decoded;
        key = key ∙ (λ i. ok (is i).token_rsa_public_key);
        token_is = sym (ap (λ c. c.nats.control_plane_token) is);
        bundle = sym (ap (λ c. c.nats.ca_bundle) is);
      }

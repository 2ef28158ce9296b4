-- ===== src/Clients/Upbound/Laws.antt =====
-- When the calls of the Upbound API return, and what they then return.
use universal_crossplane.Base.{
  String, ◌≡◌, ◌≢◌, sym, ap, ◌∙◌, inl, inr, none, some, Result, ok, err, panic, arith, wrapped, eqb,
  Bool-cases, text-cases, ok-injective,
}
use universal_crossplane.Base.Dict.{Dict, get_text}
use universal_crossplane.Base.Effects.{
  or_wrap->>=-eq-ok, lift->>=-eq-ok, or_wrap-lift->>=-eq-ok, lift-eq-ok,
}
use universal_crossplane.Clients.Upbound.{
  Response, get_method, post_method, Request, Resty, PublicCerts, RestyClient, status_ok,
  authorized, gw_certs_path, nats_token_path, certs_of, token_of, token_body, entries_of,
  get_gateway_certs, fetch_new_jwt_token,
}

wrapped-eq_ok : {A : Type 0} (msg : String) (r : Result A) {a : A} → wrapped msg r ≡ ok a → r ≡ ok a
wrapped-eq_ok msg (ok a) h = h
wrapped-eq_ok msg (err e) h = absurd (cc)
wrapped-eq_ok msg panic h = absurd (cc)

token_of-eq_ok :
    (m : Dict String) (t : String) → token_of m ≡ ok t → (t ≡ get_text "token" m) × (t ≢ "")
unfolding token_of
token_of-eq_ok m t h = elim (text-cases (get_text "token" m) "") [
  | inl (empty, _) ↦ absurd (cc (rw empty at h))
  | inr (given, ne) ↦ let same = sym (ok-injective (rw given at h)) in (same, rw same ne)
]

certs_of-eq_ok :
    (m : Dict String) (c : PublicCerts)
    → certs_of m ≡ ok c
    → (c ≡ record { jwt_public_key = get_text "jwt_public_key" m; nats_ca = get_text "nats_ca" m })
      × (c.jwt_public_key ≢ "")
      × (c.nats_ca ≢ "")
unfolding certs_of
certs_of-eq_ok m c h = elim (text-cases (get_text "jwt_public_key" m) "") [
  | inl (empty, _) ↦ absurd (cc (rw empty at h))
  | inr (given, ne) ↦ elim (text-cases (get_text "nats_ca" m) "") [
    | inl (empty, _) ↦ absurd (cc (rw (given, empty) at h))
    | inr (given', ne') ↦
        let same = sym (ok-injective (rw (given, given') at h)) in
        (same, rw (ap (λ c. c.jwt_public_key) same) ne, rw (ap (λ c. c.nats_ca) same) ne')
  ]
]

module _ {World : Type 0} (R : Resty World) (c : RestyClient) where
  entries_of-eq_ok :
      (fmt msg : String) (resp : Response) (m : Dict String)
      → entries_of R fmt msg resp ≡ ok m
      → (resp.status_code ≡ status_ok) × (R.unmarshal resp.body ≡ ok m)
  unfolding entries_of
  entries_of-eq_ok fmt msg resp m h = elim (Bool-cases (eqb resp.status_code status_ok)) [
    | inl same ↦ (ground arith, wrapped-eq_ok msg _ (rw same at h))
    | inr other ↦ absurd (cc (rw other at h))
  ]

  -- The server answered this request with status 200 and a JSON body of these entries.
  pub record IsAnswered (request : Request) (w : World) (m : Dict String) (w' : World)
      : Type 0 where
    pub response : Response
    pub sent : R.execute request w ≡ (ok response, w')
    pub status : response.status_code ≡ status_ok
    pub decoded : R.unmarshal response.body ≡ ok m

  answered :
      (request : Request) (w : World) (resp : Response) (m : Dict String) (fmt msg : String)
      {w1 w' : World}
      → R.execute request w ≡ (ok resp, w1)
      → entries_of R fmt msg resp ≡ ok m
      → w1 ≡ w'
      → IsAnswered request w m w'
  answered request w resp m fmt msg sent entries same =
      let (status, decoded) = entries_of-eq_ok _ _ resp m entries in
      record {
        response = resp;
        sent = sent ∙ (λ i. (ok resp, same i));
        status = status;
        decoded = decoded;
      }

  -- Certificates are returned only where the server answered a GET request that bears the token
  -- with status 200; they are the two entries of its JSON body, and neither is empty.
  pub get_gateway_certs-IsAnswered :
      (cp_token : String) (w w' : World) (certs : PublicCerts)
      → get_gateway_certs R c cp_token w ≡ (ok certs, w')
      → (m : Dict String) × IsAnswered (authorized c get_method gw_certs_path cp_token none) w m w'
        × ((certs ≡ record {
          jwt_public_key = get_text "jwt_public_key" m;
          nats_ca = get_text "nats_ca" m;
        })
            × (certs.jwt_public_key ≢ "")
            × (certs.nats_ca ≢ ""))
  unfolding get_gateway_certs
  get_gateway_certs-IsAnswered cp_token w w' certs h =
      let request = authorized c get_method gw_certs_path cp_token none in
      let (resp, w1, sent, rest) = or_wrap->>=-eq-ok _ (R.execute request) _ w h in
      let (m, entries, made) = lift->>=-eq-ok (entries_of R _ _ resp) _ w1 rest in
      let (certs_are, same) = lift-eq-ok (certs_of m) w1 made in
      (m, answered request w resp m _ _ sent entries same, certs_of-eq_ok m certs certs_are)

  -- A token is returned only where the server answered, with status 200, a POST request that bears
  -- the control plane's token, with the cluster's id and the public key in its JSON body; it is the
  -- entry of the JSON body of the answer, and it is not empty.
  pub fetch_new_jwt_token-IsAnswered :
      (cp_token cluster_id public_key : String) (w w' : World) (t : String)
      → fetch_new_jwt_token R c cp_token cluster_id public_key w ≡ (ok t, w')
      → (body : String) × (m : Dict String) × (R.marshal (token_body cluster_id public_key)
          ≡ ok body)
        × IsAnswered (authorized c post_method nats_token_path cp_token (some body)) w m w'
        × ((t ≡ get_text "token" m) × (t ≢ ""))
  unfolding fetch_new_jwt_token
  fetch_new_jwt_token-IsAnswered cp_token cluster_id public_key w w' t h =
      let (body, marshalled, rest0) =
        or_wrap-lift->>=-eq-ok _ (R.marshal (token_body cluster_id public_key)) _ w h in
      let request = authorized c post_method nats_token_path cp_token (some body) in
      let (resp, w1, sent, rest) = or_wrap->>=-eq-ok _ (R.execute request) _ w rest0 in
      let (m, entries, made) = lift->>=-eq-ok (entries_of R _ _ resp) _ w1 rest in
      let (token_is, same) = lift-eq-ok (token_of m) w1 made in
      (
        body,
        m,
        marshalled,
        answered request w resp m _ _ sent entries same,
        token_of-eq_ok m t token_is,
      )

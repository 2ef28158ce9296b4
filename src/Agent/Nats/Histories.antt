-- ===== src/Agent/Nats/Histories.antt =====
-- The life of a manager: refreshes with any result, and time between them.
use universal_crossplane.Base.{
  String, ◌≡◌, refl, ap, ◌∙◌, ◌⊎◌, inl, inr, Result, ok, err, panic, Bool-cases, ok-injective,
}
use universal_crossplane.Base.Effects.{or_wrap->>=-eq-ok, or_wrap-lift->>=-eq-ok, lift-eq-ok}
use universal_crossplane.Clients.Upbound.{Client}
use universal_crossplane.Agent.Nats.{
  NatsEnv, NatsConnManager, State, ca_bundle_to_file, new_nats_conn_manager, is_jwt_valid,
  store_token, user_token_refresher,
}
use universal_crossplane.Agent.Nats.Laws.{user_token_refresher-IsRefreshed, is_jwt_valid-ne}

module _ (N : NatsEnv) where
  open N use {World}

  pub data Refreshes (s : State N) : State N → Type 0 where
    start : Refreshes s s
    refreshed : {t : State N} → Refreshes s t → Refreshes s (user_token_refresher N t).1
    elapsed :
        {n : NatsConnManager N} {w : World} (v : World) → Refreshes s (n, w) → Refreshes s (n, v)

  -- The client gave the token for the identity of the manager.
  abbrev pub IsFetched : NatsConnManager N → String → Type 0
  IsFetched n t =
      (w w' : World) × (n.up_client.fetch_new_jwt_token n.cp_token n.cluster_id n.pub_key w
        ≡ (ok t, w'))

  -- The manager is the first one but for its token, which is empty or was fetched.
  abbrev Holds : NatsConnManager N → NatsConnManager N → Type 0
  Holds m n =
      (n ≡ record m { jwt_token = n.jwt_token })
      × ((n.jwt_token ≡ m.jwt_token) ⊎ IsFetched m n.jwt_token)

  retoken :
      (m n : NatsConnManager N) (t : String)
      → n ≡ record m { jwt_token = n.jwt_token }
      → ◌≡◌ {A = NatsConnManager N} (record n { jwt_token = t }) (record m { jwt_token = t })
  retoken m n t same = λ i. record {
    up_client = (same i).up_client;
    kp = (same i).kp;
    pub_key = (same i).pub_key;
    cluster_id = (same i).cluster_id;
    cp_token = (same i).cp_token;
    jwt_token = t;
    ca_file = (same i).ca_file;
  }

  store_token-Holds :
      (m n : NatsConnManager N) (w : World) (o : Result String × World)
      → n.up_client.fetch_new_jwt_token n.cp_token n.cluster_id n.pub_key w ≡ o
      → Holds m n
      → Holds m (store_token N n o).1.0
  unfolding store_token
  store_token-Holds m n w (ok t, v) called (same, held) =
      (retoken m n t same, inr (w, v, rw same at called))
  store_token-Holds m n w (err e, v) called h = h
  store_token-Holds m n w (panic, v) called h = h

  refresh-Holds :
      (m n : NatsConnManager N) (w : World)
      → Holds m n
      → Holds m (user_token_refresher N (n, w)).1.0
  unfolding user_token_refresher
  refresh-Holds m n w h = elim (Bool-cases (is_jwt_valid N n.jwt_token w)) [
    | inl valid ↦ rw valid h
    | inr stale ↦ rw stale (store_token-Holds m n w _ refl h)
  ]

  Refreshes-Holds : {s t : State N} → Refreshes s t → Holds s.0 t.0
  Refreshes-Holds start = (refl, inl refl)
  Refreshes-Holds {s = s} (refreshed {t = t} before) =
      refresh-Holds s.0 t.0 t.1 (Refreshes-Holds before)
  Refreshes-Holds (elapsed v before) = Refreshes-Holds before

  -- Who a new manager speaks for.
  pub record IsFor (up_client : Client World) (c_id cp_token : String) (n : NatsConnManager N)
      : Type 0 where
    pub client_is : n.up_client ≡ up_client
    pub cluster_is : n.cluster_id ≡ c_id
    pub token_is : n.cp_token ≡ cp_token
    pub public : N.public_key n.kp ≡ ok n.pub_key
    pub no_token : n.jwt_token ≡ ""

  pub new_nats_conn_manager-IsFor :
      (up_client : Client World) (c_id cp_token ca_bundle : String) (w w' : World)
      (n : NatsConnManager N)
      → new_nats_conn_manager N up_client c_id cp_token ca_bundle w ≡ (ok n, w')
      → IsFor up_client c_id cp_token n
  unfolding new_nats_conn_manager
  new_nats_conn_manager-IsFor up_client c_id cp_token ca_bundle w w' n h =
      let (kp, w1, _, rest1) = or_wrap->>=-eq-ok _ N.create_user _ w h in
      let (pk, public, rest2) = or_wrap-lift->>=-eq-ok _ (N.public_key kp) _ w1 rest1 in
      let (f, w3, _, rest3) = or_wrap->>=-eq-ok _ (ca_bundle_to_file N ca_bundle) _ w1 rest2 in
      let is = ok-injective (lift-eq-ok (ok _) w3 rest3).0 in
      rw (← is) (record {
        client_is = refl;
        cluster_is = refl;
        token_is = refl;
        public = public;
        no_token = refl;
      })

  refresh-IsFetched :
      (m n n' : NatsConnManager N) (v v' : World) (t : String)
      → Holds m n
      → m.jwt_token ≡ ""
      → user_token_refresher N (n, v) ≡ (ok t, (n', v'))
      → IsFetched m t
  refresh-IsFetched m n n' v v' t (same, held) empty h =
      elim (user_token_refresher-IsRefreshed N n n' v v' t h) [
        | inl (valid, token, _, _) ↦ elim held [
          | inl first ↦ absurd (is_jwt_valid-ne N n.jwt_token v valid (first ∙ empty))
          | inr fetched ↦ rw token fetched
        ]
        | inr (_, fetched, _) ↦ (v, v', rw same at fetched)
      ]

  -- From a new manager on, after any sequence of refreshes, with whatever results, and of time, a
  -- token that a refresh gives was given by the client for the control plane token and the cluster
  -- id of that manager and for the public key of its key pair, with which it signs.
  pub refreshes-IsFetched :
      (up_client : Client World) (c_id cp_token ca_bundle : String) (w w' v v' : World)
      (m n n' : NatsConnManager N) (t : String)
      → new_nats_conn_manager N up_client c_id cp_token ca_bundle w ≡ (ok m, w')
      → Refreshes (m, w') (n, v)
      → user_token_refresher N (n, v) ≡ (ok t, (n', v'))
      → (pk : String) × (before later : World) × (N.public_key n.kp ≡ ok pk)
        × (up_client.fetch_new_jwt_token cp_token c_id pk before ≡ (ok t, later))
  refreshes-IsFetched up_client c_id cp_token ca_bundle w w' v v' m n n' t made steps h =
      let is = new_nats_conn_manager-IsFor up_client c_id cp_token ca_bundle w w' m made in
      let holds = Refreshes-Holds steps in
      let (before, later, fetched) = refresh-IsFetched m n n' v v' t holds is.no_token h in
      (
        m.pub_key,
        before,
        later,
        ap (λ x. N.public_key x.kp) holds.0 ∙ is.public,
        rw (is.client_is, is.token_is, is.cluster_is) at fetched,
      )

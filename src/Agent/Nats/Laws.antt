-- ===== src/Agent/Nats/Laws.antt =====
-- The cached NATS token, and the certificates of the NATS servers.
use universal_crossplane.Base.{
  String, ◌≡◌, ◌≢◌, refl, sym, ap, ◌∙◌, ◌⊎◌, inl, inr, Bool, true, false, Option, some, Result, ok,
  err, panic, Bool-cases, ok-injective,
}
use universal_crossplane.Base.Effects.{
  err-ne-ok, panic-ne-ok, or_wrap->>=-eq-ok, or_wrap-lift->>=-eq-ok, lift-eq-ok,
}
use universal_crossplane.Clients.Upbound.{Client, Resty, new_client}
use universal_crossplane.Clients.Upbound.Laws.{fetch_new_jwt_token-IsAnswered}
use universal_crossplane.Agent.Nats.{
  NatsEnv, NatsConnManager, ca_bundle_to_file, new_nats_conn_manager, is_jwt_valid, store_token,
  user_token_refresher,
}

module _ (N : NatsEnv) where
  open N use {World}

  -- The token was in the manager and is still valid, and nothing was done; or it was not, and it is
  -- the one that the client gave, which the manager now holds.
  abbrev pub IsRefreshed : NatsConnManager N → World → String → NatsConnManager N → World → Type 0
  IsRefreshed n w t n' w' =
      ((is_jwt_valid N n.jwt_token w ≡ true) × (t ≡ n.jwt_token) × (n' ≡ n) × (w' ≡ w))
      ⊎ ((is_jwt_valid N n.jwt_token w ≡ false)
          × (n.up_client.fetch_new_jwt_token n.cp_token n.cluster_id n.pub_key w ≡ (ok t, w'))
          × (n' ≡ record n { jwt_token = t }))

  store_token-eq_ok :
      (n n' : NatsConnManager N) (o : Result String × World) {t : String} {w' : World}
      → store_token N n o ≡ (ok t, (n', w'))
      → (o ≡ (ok t, w')) × (n' ≡ record n { jwt_token = t })
  unfolding store_token
  store_token-eq_ok n n' (ok tk, w) h =
      let same = ok-injective (ap (λ o. o.0) h) in
      (
        (λ i. ((h i).0, (h i).1.1)),
        sym (ap (λ o. o.1.0) h) ∙ (λ i. record n { jwt_token = same i }),
      )
  store_token-eq_ok n n' (err e, w) h = absurd (err-ne-ok h)
  store_token-eq_ok n n' (panic, w) h = absurd (panic-ne-ok h)

  -- A refresh that gives a token gives the one that the manager holds, if that is valid, and
  -- changes nothing; otherwise it gives the one that the client fetched for the manager's control
  -- plane token, cluster and public key, and the manager holds that one afterwards.
  pub user_token_refresher-IsRefreshed :
      (n n' : NatsConnManager N) (w w' : World) (t : String)
      → user_token_refresher N (n, w) ≡ (ok t, (n', w'))
      → IsRefreshed n w t n' w'
  unfolding user_token_refresher
  user_token_refresher-IsRefreshed n n' w w' t h =
      elim (Bool-cases (is_jwt_valid N n.jwt_token w)) [
        | inl valid ↦
            let same = rw valid at h in
            inl (
              valid,
              sym (ok-injective (ap (λ o. o.0) same)),
              sym (ap (λ o. o.1.0) same),
              sym (ap (λ o. o.1.1) same),
            )
        | inr stale ↦
            let (fetched, stored) = store_token-eq_ok n n' _ (rw stale at h) in
            inr (stale, fetched, stored)
      ]

  IsRefreshed-jwt_token :
      (n n' : NatsConnManager N) (w w' : World) (t : String)
      → IsRefreshed n w t n' w'
      → n'.jwt_token ≡ t
  IsRefreshed-jwt_token n n' w w' t (inl (_, token, manager, _)) =
      ap (λ m. m.jwt_token) manager ∙ sym token
  IsRefreshed-jwt_token n n' w w' t (inr (_, _, manager)) = ap (λ m. m.jwt_token) manager

  -- A token that a refresh gave is given again by the next refresh, without a call and with nothing
  -- changed, at any time when it is valid.
  pub user_token_refresher_again :
      (n n' : NatsConnManager N) (w w' later : World) (t : String)
      → user_token_refresher N (n, w) ≡ (ok t, (n', w'))
      → is_jwt_valid N t later ≡ true
      → user_token_refresher N (n', later) ≡ (ok t, (n', later))
  unfolding user_token_refresher
  user_token_refresher_again n n' w w' later t h valid =
      let held =
        IsRefreshed-jwt_token n n' w w' t (user_token_refresher-IsRefreshed n n' w w' t h) in
      rw (held, valid) refl

  pub is_jwt_valid-ne : (t : String) (w : World) → is_jwt_valid N t w ≡ true → t ≢ ""
  unfolding is_jwt_valid
  is_jwt_valid-ne t w valid empty = cc (rw empty at valid)

  -- With the client of the Upbound API, no token that a refresh gives is empty.
  pub user_token_refresher-ne :
      (R : Resty World) (host : String) (debug : Bool) (n n' : NatsConnManager N) (w w' : World)
      (t : String)
      → n.up_client ≡ new_client R host debug
      → user_token_refresher N (n, w) ≡ (ok t, (n', w'))
      → t ≢ ""
  user_token_refresher-ne R host debug n n' w w' t client h =
      elim (user_token_refresher-IsRefreshed n n' w w' t h) [
        | inl (valid, token, _, _) ↦ rw token (is_jwt_valid-ne n.jwt_token w valid)
        | inr (_, fetched, _) ↦
            let (_, _, _, _, (_, given)) =
              fetch_new_jwt_token-IsAnswered R _ n.cp_token n.cluster_id n.pub_key w w' t
                (rw client at fetched) in
            given
      ]

  -- What is assumed of temporary files: a write that succeeds leaves what was written.
  pub record IsFiles : Type 0 where
    pub contents : World → String → Option String
    pub write-ok :
        (f b : String) (w : World) {w' : World}
        → N.write_file f b w ≡ (ok tt, w')
        → contents w' f ≡ some b

  ca_bundle_to_file-contents :
      (F : IsFiles) (ca_bundle : String) (w w' : World) (f : String)
      → ca_bundle_to_file N ca_bundle w ≡ (ok f, w')
      → (b : String) × (N.base64_decode ca_bundle ≡ ok b) × (F.contents w' f ≡ some b)
  unfolding ca_bundle_to_file
  ca_bundle_to_file-contents F ca_bundle w w' f h =
      let (b, decoded, rest) = or_wrap-lift->>=-eq-ok _ (N.base64_decode ca_bundle) _ w h in
      let (g, w1, _, rest1) = or_wrap->>=-eq-ok _ (N.temp_file "" "nats-ca") _ w rest in
      let (_, w2, written, rest2) = or_wrap->>=-eq-ok _ (N.write_file g b) _ w1 rest1 in
      let (name, same) = lift-eq-ok (ok g) w2 rest2 in
      (b, decoded, rw (← same, ← ok-injective name) (F.write-ok g b w1 written))

  -- Where a write to a file that succeeds leaves what was written, a new manager has no token yet,
  -- the public key of its own key pair, and a file that holds the decoded certificate bundle.
  pub new_nats_conn_manager_lem :
      (F : IsFiles) (up_client : Client World) (c_id cp_token ca_bundle : String) (w w' : World)
      (n : NatsConnManager N)
      → new_nats_conn_manager N up_client c_id cp_token ca_bundle w ≡ (ok n, w')
      → (n.jwt_token ≡ "")
        × (N.public_key n.kp ≡ ok n.pub_key)
        × ((b : String) × (N.base64_decode ca_bundle ≡ ok b) × (F.contents w' n.ca_file ≡ some b))
  unfolding new_nats_conn_manager
  new_nats_conn_manager_lem F up_client c_id cp_token ca_bundle w w' n h =
      let (kp, w1, _, rest1) = or_wrap->>=-eq-ok _ N.create_user _ w h in
      let (pk, public, rest2) = or_wrap-lift->>=-eq-ok _ (N.public_key kp) _ w1 rest1 in
      let (f, w3, made, rest3) = or_wrap->>=-eq-ok _ (ca_bundle_to_file N ca_bundle) _ w1 rest2 in
      let (manager, same) = lift-eq-ok (ok _) w3 rest3 in
      let is = ok-injective manager in
      rw (← is, ← same) (refl, public, ca_bundle_to_file-contents F ca_bundle w1 w3 f made)

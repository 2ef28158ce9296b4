-- ===== src/Controllers/TlsSecrets/Cluster/Convergence.antt =====
-- That reconciliations come to an end: once every watched secret was reconciled in a cluster in which
-- no call fails, all have certificates and nothing is written any more.
use universal_crossplane.Base.{true, String, ◌≡◌, refl, ◌⊎◌, inl, inr, some, List, [], ◌∷◌, ok}
use universal_crossplane.Controllers.Kube.{Secret, done}
use universal_crossplane.Controllers.TlsSecrets.Env.{
  Env, secret_name_gateway_tls, secret_name_xgql_tls,
}
use universal_crossplane.Controllers.TlsSecrets.Store.{IsStore}
use universal_crossplane.Controllers.TlsSecrets.Healthy.{IsHealthy}
use universal_crossplane.Controllers.TlsSecrets.Monad.{Reconciler}
use universal_crossplane.Controllers.TlsSecrets.SecretData.Laws.{IsLawful}
use universal_crossplane.Controllers.TlsSecrets.Setup.{watches}
use universal_crossplane.Controllers.TlsSecrets.Reconcile.{reconcile}
use universal_crossplane.Controllers.TlsSecrets.Reconcile.Certificate.{reconcile-has_cert}
use universal_crossplane.Controllers.TlsSecrets.Reconcile.Loading.{IsReadable}
use universal_crossplane.Controllers.TlsSecrets.Cluster.{at, IsAtomic}
use universal_crossplane.Controllers.TlsSecrets.Cluster.Histories.{
  ShareAuthority, Steps, IsFresh, Steps-IsSound, IsBacked-same,
}
use universal_crossplane.Controllers.TlsSecrets.Cluster.Readiness.{
  Certified, IsReady, Certified-next, next-progress, next-IsReady,
}

-- The name is one of these.
abbrev pub Among : String → List String → Type 0
Among name [] = ⊥
Among name (x ∷ xs) = (name ≡ x) ⊎ Among name xs

abbrev pub AreWatched : List String → Type 0
AreWatched [] = Unit {0}
AreWatched (x ∷ xs) = (watches x ≡ true) × AreWatched xs

module _ (E : Env) (namespace : String) where
  -- The names of the queue are reconciled one after the other, whatever comes of it.
  unfoldable pub worked : List String → Reconciler E → Reconciler E
  worked [] q = q
  worked (name ∷ names) q = worked names (reconcile E (at namespace name) q).1

module _ (E : Env) (L : IsLawful E) (S : IsStore E) (H : IsHealthy E S) (T : IsAtomic E S)
    (namespace : String) where
  open S use {stored}

  worked-Certified :
      (names : List String) (name : String) (q : Reconciler E)
      → AreWatched names
      → watches name ≡ true
      → Certified E L S H T namespace name q
      → Certified E L S H T namespace name (worked E namespace names q)
  unfolding worked
  worked-Certified [] name q _ watched has = has
  worked-Certified (x ∷ names) name q (watched_x, all) watched has =
      worked-Certified names name (reconcile E (at namespace x) q).1 all watched
        (Certified-next E L S H T namespace x watched_x q name watched has)

  worked-IsReady :
      (names : List String) (q : Reconciler E)
      → AreWatched names
      → IsReady E L S H T namespace q
      → IsReady E L S H T namespace (worked E namespace names q)
  unfolding worked
  worked-IsReady [] q _ ready = ready
  worked-IsReady (x ∷ names) q (watched, all) ready =
      worked-IsReady names (reconcile E (at namespace x) q).1 all
        (next-IsReady E L S H T namespace x watched q ready)

  worked-each :
      (names : List String) (name : String) (q : Reconciler E)
      → AreWatched names
      → IsReady E L S H T namespace q
      → Among name names
      → Certified E L S H T namespace name (worked E namespace names q)
  unfolding worked
  worked-each [] name q _ ready among = absurd among
  worked-each (x ∷ names) name q (watched, all) ready (inl same) = rw same (
      worked-Certified names x (reconcile E (at namespace x) q).1 all watched
        (next-progress E L S H T namespace x watched q ready).1)
  worked-each (x ∷ names) name q (watched, all) ready (inr later) =
      worked-each names name (reconcile E (at namespace x) q).1 all
        (next-IsReady E L S H T namespace x watched q ready) later

  -- A reconciliation of the name returns no error and leaves what is stored.
  abbrev pub IsSettled : String → Reconciler E → Type 0
  IsSettled name r =
      let (res, r') = reconcile E (at namespace name) r in
      (res ≡ ok done) × (stored r'.world ≡ stored r.world)

  Certified-IsSettled :
      (name : String) (r : Reconciler E) → Certified E L S H T namespace name r → IsSettled name r
  Certified-IsSettled name r (s, there, has_cert) =
      let n = at namespace name in
      let (fine, quiet) = reconcile-has_cert E L S n s r (H.get-found n r.world s there) has_cert in
      (fine, quiet.same_stored)

  -- Both secrets have certificates of one authority, and their reconciliations are settled.
  pub record HasConverged (r : Reconciler E) : Type 0 where
    pub gateway : Certified E L S H T namespace secret_name_gateway_tls r
    pub xgql : Certified E L S H T namespace secret_name_xgql_tls r
    pub shared : ShareAuthority E gateway.0 xgql.0
    pub gateway_settled : IsSettled secret_name_gateway_tls r
    pub xgql_settled : IsSettled secret_name_xgql_tls r

  -- With lawful PEM coders and an API server that keeps secrets, where no call to it or to
  -- cryptography fails: after any history as that of `history-ShareAuthority`, where the watched
  -- secrets are stored and an authority with a key that is stored can be read, let the reconciler
  -- work through any list of watched names in which both are. Then both secrets have certificates
  -- and hold the certificate of the same authority, and a further reconciliation of either returns
  -- no error and leaves what is stored.
  pub history-HasConverged :
      {first q : Reconciler E} (names : List String)
      → IsFresh E S namespace L T first
      → Steps E S namespace first q
      → IsReadable E L S H namespace q
      → ((name : String)
          → watches name ≡ true
          → (s : Secret) × (stored q.world (at namespace name) ≡ some s))
      → AreWatched names
      → Among secret_name_gateway_tls names
      → Among secret_name_xgql_tls names
      → HasConverged (worked E namespace names q)
  unfolding watches
  history-HasConverged {q = q} names fresh steps readable there all gateway_in xgql_in =
      let sound =
        Steps-IsSound E S namespace L T steps (λ other t watched stored_t has_cert.
          absurd (has_cert (fresh other watched t stored_t))) in
      let ready : IsReady E L S H T namespace q = record {
        sound = sound;
        readable = readable;
        there = there;
      } in
      let r = worked E namespace names q in
      let sound' = (worked-IsReady names q all ready).sound in
      let (s, there_s, has_s) = worked-each names secret_name_gateway_tls q all ready gateway_in in
      let (t, there_t, has_t) = worked-each names secret_name_xgql_tls q all ready xgql_in in
      record {
        gateway = (s, there_s, has_s);
        xgql = (t, there_t, has_t);
        shared =
            IsBacked-same E S namespace L T (sound' secret_name_gateway_tls s refl there_s has_s)
              (sound' secret_name_xgql_tls t refl there_t has_t);
        gateway_settled = Certified-IsSettled secret_name_gateway_tls r (s, there_s, has_s);
        xgql_settled = Certified-IsSettled secret_name_xgql_tls r (t, there_t, has_t);
      }

-- ===== src/Controllers/TlsSecrets/Cluster/Answers.antt =====
-- What `createOrLoadCA` makes of the read of an authority that is stored for good.
use universal_crossplane.Base.{String, ◌≡◌, refl, sym, ap, ◌∙◌, false, some, Result, ok, err, panic}
use universal_crossplane.Base.Effects.{err-ne-ok, panic-ne-ok}
use universal_crossplane.Controllers.Kube.{Secret}
use universal_crossplane.Controllers.TlsSecrets.Env.{Env}
use universal_crossplane.Controllers.TlsSecrets.Store.{IsStore}
use universal_crossplane.Controllers.TlsSecrets.Monad.{Reconciler}
use universal_crossplane.Controllers.TlsSecrets.SecretData.Laws.{IsLawful}
use universal_crossplane.Controllers.TlsSecrets.Reconcile.{load_or_generate}
use universal_crossplane.Controllers.TlsSecrets.Reconcile.Authority.{
  IsAuthority, load_or_generate-of_IsAuthority,
}
use universal_crossplane.Controllers.TlsSecrets.Cluster.{IsAtomic}

module _ (E : Env) (S : IsStore E) (namespace : String) (L : IsLawful E) (T : IsAtomic E S)
    {cas : Secret} {c : E.Certificate} {k : E.Signer} (authority : IsAuthority E cas c k) where
  -- What a read of the authority can have given.
  abbrev pub IsAnswer : Result Secret → Type 0
  IsAnswer (ok s) = s ≡ cas
  IsAnswer (err e) = E.is_not_found e ≡ false
  IsAnswer panic = Unit {0}

  answer-loaded :
      (s : Secret) (q : Reconciler E)
      → s ≡ cas
      → load_or_generate E namespace (ok s) q
        ≡ (ok tt, record q { ca_cert = some c; ca_key = some k })
  answer-loaded s q same =
      rw same (load_or_generate-of_IsAuthority E L S namespace cas c k q authority)

  -- With such an answer the authority is loaded, or the call fails; nothing is written.
  pub answer-loads :
      (got : Result Secret) (q r : Reconciler E)
      → IsAnswer got
      → load_or_generate E namespace got q ≡ (ok tt, r)
      → (r.ca_cert ≡ some c) × (r.ca_key ≡ some k)
  unfolding load_or_generate
  answer-loads (ok s) q r same h =
      let made = sym h ∙ answer-loaded s q same in
      (ap (λ o. o.1.ca_cert) made, ap (λ o. o.1.ca_key) made)
  answer-loads (err e) q r failed h = absurd (err-ne-ok (rw failed at h))
  answer-loads panic q r _ h = absurd (panic-ne-ok h)

  pub answer-quiet :
      (got : Result Secret) (q : Reconciler E)
      → IsAnswer got
      → (load_or_generate E namespace got q).1.world ≡ q.world
  unfolding load_or_generate
  answer-quiet (ok s) q same = ap (λ o. o.1.world) (answer-loaded s q same)
  answer-quiet (err e) q failed = rw failed refl
  answer-quiet panic q _ = refl

-- ===== src/Controllers/TlsSecrets/Issue/Laws.antt =====
-- What a signed certificate and its key are, where `newSignedCertAndKey` returns them.
use universal_crossplane.Base.{
  ℕ, String, ◌≡◌, refl, sym, ap, ◌∙◌, inl, inr, Option, none, some, ok, Result-cases, ok-injective,
}
use universal_crossplane.Controllers.TlsSecrets.Env.{Env, CertConfig, Template, rsa_key_size}
use universal_crossplane.Controllers.TlsSecrets.Monad.{
  Reconciler, M, ◌>>=◌, ◌>>◌, pure, lift, gets, or_wrap,
}
use universal_crossplane.Controllers.TlsSecrets.Monad.Laws.{
  >>=-eq-ok, or_wrap-eq-ok, err-ne-ok, panic-ne-ok,
}
use universal_crossplane.Controllers.TlsSecrets.Issue.{
  max_int64, deref, check_config, template, sign, new_signed_cert, new_signed_cert_and_key,
}
use universal_crossplane.Controllers.TlsSecrets.Store.{IsStore}

module _ (E : Env) (S : IsStore E) where
  open E use {Certificate, Signer, World}
  open S use {stored}

  -- The certificate was made by the authority's key from the template of the configuration.
  pub record IsSigned (config : Option CertConfig) (ca_cert : Option Certificate)
      (ca_key : Option Signer) (cert : Certificate) (key : Signer) : Type 0 where
    pub cfg : CertConfig
    pub configured : config ≡ some cfg
    pub ca : Certificate
    pub authority : ca_cert ≡ some ca
    pub serial : ℕ
    pub before : World
    pub drawn : (E.rand_int max_int64 before).0 ≡ ok serial
    pub world : World
    pub der : String
    pub created :
        (E.create_certificate
          (template E cfg serial ca (E.now world))
          ca
          (E.public key)
          ca_key
          world).0
        ≡ ok der
    pub parsed : E.parse_certificate der ≡ ok cert

  -- The fields and what is stored are as they were.
  pub record IsQuiet (q r : Reconciler E) : Type 0 where
    pub same_cert : r.ca_cert ≡ q.ca_cert
    pub same_key : r.ca_key ≡ q.ca_key
    pub same_stored : stored r.world ≡ stored q.world

  IsQuiet-trans : {q r s : Reconciler E} → IsQuiet q r → IsQuiet r s → IsQuiet q s
  IsQuiet-trans a b = record {
    same_cert = b.same_cert ∙ a.same_cert;
    same_key = b.same_key ∙ a.same_key;
    same_stored = b.same_stored ∙ a.same_stored;
  }

  sign_lem :
      (tmpl : Template) (ca : Certificate) (key : Signer) (ca_key : Option Signer)
      (q r : Reconciler E) (cert : Certificate)
      → sign E tmpl ca key ca_key q ≡ (ok cert, r)
      → (der : String) × ((E.create_certificate tmpl ca (E.public key) ca_key q.world).0 ≡ ok der)
        × (E.parse_certificate der ≡ ok cert)
        × IsQuiet q r
  unfolding sign
  sign_lem tmpl ca key ca_key q r cert h =
      elim (Result-cases (E.create_certificate tmpl ca (E.public key) ca_key q.world).0) [
        | inl (der, e) ↦
            let done = rw e at h in
            (
              der,
              e,
              ap (λ o. o.0) done,
              record {
                same_cert = sym (ap (λ o. o.1.ca_cert) done);
                same_key = sym (ap (λ o. o.1.ca_key) done);
                same_stored =
                    sym (ap (λ o. stored o.1.world) done)
                    ∙ S.create_certificate-stored tmpl ca (E.public key) ca_key q.world;
              },
            )
        | inr (inl (e, failed)) ↦ absurd (err-ne-ok (rw failed at h))
        | inr (inr panicked) ↦ absurd (panic-ne-ok (rw panicked at h))
      ]

  checked : Option CertConfig → Signer → Option Certificate → Option Signer → ℕ → M E Certificate
  checked config key ca_cert ca_key serial = do
    cfg ← lift (deref config)
    lift (check_config cfg)
    ca ← lift (deref ca_cert)
    now ← gets (λ r. E.now r.world)
    sign E (template E cfg serial ca now) ca key ca_key

  checked_lem :
      (config : Option CertConfig) (key : Signer) (ca_cert : Option Certificate)
      (ca_key : Option Signer) (serial : ℕ) (before : World) (q r : Reconciler E)
      (cert : Certificate)
      → (E.rand_int max_int64 before).0 ≡ ok serial
      → checked config key ca_cert ca_key serial q ≡ (ok cert, r)
      → IsSigned config ca_cert ca_key cert key × IsQuiet q r
  unfolding checked
  checked_lem none key ca_cert ca_key serial before q r cert drawn h = absurd (panic-ne-ok h)
  checked_lem (some cfg) key none ca_key serial before q r cert drawn h =
      elim (Result-cases (check_config cfg)) [
        | inl (u, e) ↦ absurd (panic-ne-ok (rw e at h))
        | inr (inl (e, failed)) ↦ absurd (err-ne-ok (rw failed at h))
        | inr (inr panicked) ↦ absurd (panic-ne-ok (rw panicked at h))
      ]
  checked_lem (some cfg) key (some ca) ca_key serial before q r cert drawn h =
      elim (Result-cases (check_config cfg)) [
        | inl (u, e) ↦
            let now = E.now q.world in
            let (der, created, parsed, quiet) =
              sign_lem (template E cfg serial ca now) ca key ca_key q r cert (rw e at h) in
            (
              record {
                cfg = cfg;
                configured = refl;
                ca = ca;
                authority = refl;
                serial = serial;
                before = before;
                drawn = drawn;
                world = q.world;
                der = der;
                created = created;
                parsed = parsed;
              },
              quiet,
            )
        | inr (inl (e, failed)) ↦ absurd (err-ne-ok (rw failed at h))
        | inr (inr panicked) ↦ absurd (panic-ne-ok (rw panicked at h))
      ]

  new_signed_cert_lem :
      (config : Option CertConfig) (key : Signer) (ca_cert : Option Certificate)
      (ca_key : Option Signer) (q r : Reconciler E) (cert : Certificate)
      → new_signed_cert E config key ca_cert ca_key q ≡ (ok cert, r)
      → IsSigned config ca_cert ca_key cert key × IsQuiet q r
  unfolding new_signed_cert checked
  new_signed_cert_lem config key ca_cert ca_key q r cert h =
      elim (Result-cases (E.rand_int max_int64 q.world).0) [
        | inl (serial, drawn) ↦
            let q' : Reconciler E = record q { world = (E.rand_int max_int64 q.world).1 } in
            let (is_signed, quiet) =
              checked_lem config key ca_cert ca_key serial q.world q' r cert drawn
                (rw drawn at h) in
            (
              is_signed,
              IsQuiet-trans
                  (record {
                    same_cert = refl;
                    same_key = refl;
                    same_stored = S.rand_int-stored max_int64 q.world;
                  })
                  quiet,
            )
        | inr (inl (e, failed)) ↦ absurd (err-ne-ok (rw failed at h))
        | inr (inr panicked) ↦ absurd (panic-ne-ok (rw panicked at h))
      ]

  -- A certificate that `newSignedCertAndKey` returns is signed by the authority that it was given.
  pub new_signed_cert_and_key_lem :
      (config : Option CertConfig) (ca_cert : Option Certificate) (ca_key : Option Signer)
      (q r : Reconciler E) (cert : Certificate) (key : Signer)
      → new_signed_cert_and_key E config ca_cert ca_key q ≡ (ok (cert, key), r)
      → IsSigned config ca_cert ca_key cert key × IsQuiet q r
  unfolding new_signed_cert_and_key
  new_signed_cert_and_key_lem config ca_cert ca_key q r cert key h =
      elim (Result-cases (E.generate_key rsa_key_size q.world).0) [
        | inl (k, made) ↦
            let q' : Reconciler E = record q { world = (E.generate_key rsa_key_size q.world).1 } in
            let (c, r', issued, same) =
              >>=-eq-ok
                (or_wrap "unable to sign certificate" (new_signed_cert E config k ca_cert ca_key))
                (λ c. pure (c, k)) q' (rw made at h) in
            let pair = ok-injective (ap (λ o. o.0) same) in
            let (is_signed, quiet) = new_signed_cert_lem config k ca_cert ca_key q' r' c (
              or_wrap-eq-ok "unable to sign certificate" (new_signed_cert E config k ca_cert ca_key)
                q' issued) in
            rw (← ap (λ p. p.0) pair, ← ap (λ p. p.1) pair, ← ap (λ o. o.1) same)
              (
                is_signed,
                IsQuiet-trans
                    (record {
                      same_cert = refl;
                      same_key = refl;
                      same_stored = S.generate_key-stored rsa_key_size q.world;
                    })
                    quiet,
              )
        | inr (inl (e, failed)) ↦ absurd (err-ne-ok (rw failed at h))
        | inr (inr panicked) ↦ absurd (panic-ne-ok (rw panicked at h))
      ]

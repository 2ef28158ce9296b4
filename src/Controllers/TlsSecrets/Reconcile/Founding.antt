-- ===== src/Controllers/TlsSecrets/Reconcile/Founding.antt =====
-- What `createOrLoadCA` does to the stored secrets, whatever it returns.
use mathlib.Core.Option.{some-injective, none-ne-some}
use universal_crossplane.Base.{
  ◌⊎◌, String, ◌≡◌, refl, sym, ap, ◌∙◌, inl, inr, true, none, some, Error, Result, ok, err, panic,
  text-cases, Bool-cases,
}
use universal_crossplane.Base.Effects.{lift, or_wrap}
use universal_crossplane.Base.Effects.Always.{>>=-always, Keeps, >>=-Keeps}
use universal_crossplane.Base.Dict.{get_text}
use universal_crossplane.Controllers.Kube.{Secret, entries}
use universal_crossplane.Controllers.TlsSecrets.Env.{Env, key_tls_key, ca_config}
use universal_crossplane.Controllers.TlsSecrets.Store.{IsStore}
use universal_crossplane.Controllers.TlsSecrets.Monad.{Reconciler}
use universal_crossplane.Controllers.TlsSecrets.SecretData.{
  tls_secret_data_from_cert_and_key, cert_from_tls_secret_data,
}
use universal_crossplane.Controllers.TlsSecrets.Issue.{new_certificate_authority}
use universal_crossplane.Controllers.TlsSecrets.Issue.Quiet.{Stays, new_certificate_authority-Stays}
use universal_crossplane.Controllers.TlsSecrets.Reconcile.{
  ca_name, new_ca_secret, with_contents, load_ca, save_ca, generate_ca, load_or_generate,
  create_or_load_ca,
}
use universal_crossplane.Controllers.TlsSecrets.Cluster.{
  View, IsWritten, IsUsable, IsAtomic, Founds,
}

module _ (E : Env) (S : IsStore E) (T : IsAtomic E S) (namespace : String) (v : View) where
  open E use {Certificate, Signer}
  open S use {stored}

  -- The stored secrets differ from the given ones by a new authority at most.
  abbrev Founded : Reconciler E → Type 0
  Founded r = Founds E S namespace v (stored r.world)

  -- Whether there was an authority or not.
  abbrev pub Written : Reconciler E → Type 0
  Written r =
      (stored r.world ≡ v) ⊎ ((cas : Secret) × IsWritten v (stored r.world) (ca_name namespace) cas)

  save_ca-Written :
      (c : Certificate) (k : Signer) (q : Reconciler E)
      → Stays E S v q
      → Written (save_ca E namespace c k q).1
  unfolding save_ca
  save_ca-Written c k q p =
      >>=-always (Stays E S v) Written
        (or_wrap _ (lift (tls_secret_data_from_cert_and_key E (some c) (some k) (some c)))) _ q p
        (λ d r same. elim (T.create-atomic (new_ca_secret namespace) (with_contents d) r.world) [
          | inl failed ↦ inl (failed ∙ same)
          | inr written ↦ inr (_, rw same at written)
        ])
        (λ r same. inl same)

  pub generate_ca-Written :
      (q : Reconciler E) → Stays E S v q → Written (generate_ca E namespace q).1
  unfolding generate_ca
  generate_ca-Written q p =
      >>=-always (Stays E S v) Written (or_wrap _ (new_certificate_authority E ca_config)) _ q
        (new_certificate_authority-Stays E S v ca_config q p)
        (λ (ck : Certificate × Signer) r same.
          save_ca-Written ck.0 ck.1 (record r { ca_cert = some ck.0; ca_key = some ck.1 }) same)
        (λ r same. inl same)

  generate_ca-Founded :
      (q : Reconciler E)
      → (IsUsable namespace v → ⊥)
      → Stays E S v q
      → Founded (generate_ca E namespace q).1
  generate_ca-Founded q unusable p = elim (generate_ca-Written q p) [
    | inl same ↦ inl same
    | inr (cas, written) ↦ inr (cas, unusable, written)
  ]

  load_ca-Stays : (cas : Secret) → Keeps (Stays E S v) (load_ca E cas)
  unfolding load_ca
  load_ca-Stays cas =
      >>=-Keeps (Stays E S v)
        (or_wrap _ (lift (cert_from_tls_secret_data E (entries cas.contents)))) _ (λ r p. p)
        (λ c r p. p)

  load_or_generate-Founded :
      (got : Result Secret) (q : Reconciler E)
      → ((cas : Secret) → got ≡ ok cas → v (ca_name namespace) ≡ some cas)
      → ((e : Error) → got ≡ err e → E.is_not_found e ≡ true → v (ca_name namespace) ≡ none)
      → Stays E S v q
      → Founded (load_or_generate E namespace got q).1
  unfolding load_or_generate
  load_or_generate-Founded panic q found missing p = inl p
  load_or_generate-Founded (err e) q found missing p = elim (Bool-cases (E.is_not_found e)) [
    | inl gone ↦ rw gone (
        generate_ca-Founded q
          (λ (cas, saved, _). none-ne-some cas (sym (missing e refl gone) ∙ saved)) p)
    | inr other ↦ rw other (inl p)
  ]
  load_or_generate-Founded (ok cas) q found missing p =
      elim (text-cases (get_text key_tls_key (entries cas.contents)) "") [
        | inl (empty, is_empty) ↦ rw empty (
            generate_ca-Founded q
              (λ (other, saved, given).
                let same = some-injective cas other (sym (found cas refl) ∙ saved) in
                given (rw same at is_empty))
              p)
        | inr (other, _) ↦ rw other (inl (load_ca-Stays cas q p))
      ]

  -- Whatever it returns, `createOrLoadCA` stores a new authority where there was no usable one, or
  -- nothing.
  pub create_or_load_ca-Founds :
      (q : Reconciler E) → Stays E S v q → Founded (create_or_load_ca E namespace q).1
  unfolding create_or_load_ca
  create_or_load_ca-Founds q p =
      let n = ca_name namespace in
      let got = (E.get_secret n q.world).0 in
      let w = (E.get_secret n q.world).1 in
      load_or_generate-Founded got (record q { world = w })
        (λ cas e. ap (λ f. f n) (sym p) ∙ (S.get-ok n q.world (λ i. (e i, w))).0)
        (λ x e gone. ap (λ f. f n) (sym p) ∙ T.get-missing n q.world (λ i. (e i, w)) gone)
        (S.get-stored n q.world ∙ p)

-- ===== src/Controllers/TlsSecrets/SecretData/Calm.antt =====
-- That the coding of secrets does not panic.
use universal_crossplane.Base.{
  String, ◌≡◌, ◌≢◌, refl, inl, inr, Option, none, some, List, [], ◌∷◌, Result, ok, err, panic,
  wrapped, ◌>>=◌, text-cases, Option-cases,
}
use universal_crossplane.Base.Effects.Calm.{wrapped-ne_panic, bind-ne_panic}
use universal_crossplane.Base.Dict.{Dict, lookup}
use universal_crossplane.Controllers.TlsSecrets.Env.{Env, key_ca_cert, key_tls_cert, key_tls_key}
use universal_crossplane.Controllers.TlsSecrets.Calm.{IsCalmEnv}
use universal_crossplane.Controllers.TlsSecrets.SecretData.{
  required, encoded_key, head, parse_key, parse_ca, read_certs, tls_secret_data_from_cert_and_key,
  cert_from_tls_secret_data,
}

required-ne_panic : (key : String) (d : Dict String) → required key d ≢ panic
required-ne_panic key d = elim (Option-cases (lookup key d)) [
  | inl e ↦ rw (e, required) (λ h. cc h)
  | inr (v, e) ↦ rw (e, required) (λ h. cc h)
]

-- The first of parsed certificates is there.
head-ne_panic :
    {A : Type 0} (msg : String) (x : Result (List A)) (cs : List A)
    → x ≢ ok []
    → wrapped msg x ≡ ok cs
    → head cs ≢ panic
head-ne_panic msg x (c ∷ cs) given h p = cc p
head-ne_panic msg (ok []) [] given h p = given refl
head-ne_panic msg (ok (c ∷ cs)) [] given h p = cc h
head-ne_panic msg (err e) [] given h p = cc h
head-ne_panic msg panic [] given h p = cc h

module _ (E : Env) (N : IsCalmEnv E) where
  open E use {Certificate, Signer}

  pub tls_secret_data-ne_panic :
      (c : Certificate) (k : Signer) (ca : Option Certificate)
      → tls_secret_data_from_cert_and_key E (some c) (some k) ca ≢ panic
  unfolding tls_secret_data_from_cert_and_key
  tls_secret_data-ne_panic c k ca =
      bind-ne_panic (encoded_key E (some k)) _
        (wrapped-ne_panic _ (E.marshal_private_key_to_pem k) (N.marshal_private_key_to_pem k))
        (λ b e h. cc h)

  parse_key-ne_panic : (s : String) → parse_key E s ≢ panic
  unfolding parse_key
  parse_key-ne_panic s = elim (text-cases s "") [
    | inl (empty, _) ↦ rw empty (λ h. cc h)
    | inr (other, _) ↦ rw other (
        bind-ne_panic _ _
          (wrapped-ne_panic _ (E.parse_private_key_pem s) (N.parse_private_key_pem s))
          (λ k e. elim (Option-cases (E.as_rsa k)) [
            | inl not_rsa ↦ rw not_rsa (λ h. cc h)
            | inr (key, is_rsa) ↦ rw is_rsa (λ h. cc h)
          ]))
  ]

  -- A block of certificates, of which the first is taken.
  first-ne_panic :
      {B : Type 0} (msg s : String) (f : Certificate → Result B)
      → ((c : Certificate) → f c ≢ panic)
      → (wrapped msg (E.parse_certs_pem s) >>= λ cs. head cs >>= f) ≢ panic
  first-ne_panic msg s f calm =
      bind-ne_panic (wrapped msg (E.parse_certs_pem s)) _
        (wrapped-ne_panic msg (E.parse_certs_pem s) (N.parse_certs_pem s))
        (λ cs h.
          bind-ne_panic (head cs) f
            (head-ne_panic msg (E.parse_certs_pem s) cs (N.parse_certs_pem-some s) h)
            (λ c e. calm c))

  parse_ca-ne_panic : (o : Option String) → parse_ca E o ≢ panic
  unfolding parse_ca
  parse_ca-ne_panic none h = cc h
  parse_ca-ne_panic (some s) h = first-ne_panic _ s (λ ca. ok (some ca)) (λ c e. cc e) h

  read_certs-ne_panic : (d : Dict String) (key : Option Signer) → read_certs E d key ≢ panic
  unfolding read_certs
  read_certs-ne_panic d key =
      bind-ne_panic (required key_tls_cert d) _ (required-ne_panic key_tls_cert d) (λ s e.
        first-ne_panic _ s _ (λ c.
          bind-ne_panic (parse_ca E (lookup key_ca_cert d)) _ (parse_ca-ne_panic _)
            (λ ca e' h. cc h)))

  pub cert_from_tls_secret_data-ne_panic : (d : Dict String) → cert_from_tls_secret_data E d ≢ panic
  unfolding cert_from_tls_secret_data
  cert_from_tls_secret_data-ne_panic d =
      bind-ne_panic (required key_tls_key d) _ (required-ne_panic key_tls_key d) (λ s e.
        bind-ne_panic (parse_key E s) _ (parse_key-ne_panic s)
          (λ key e'. read_certs-ne_panic d key))

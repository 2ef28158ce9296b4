-- ===== src/Controllers/TlsSecrets/SecretData/Laws.antt =====
-- What is put into the data of a TLS secret is read back from it.
use universal_crossplane.Base.{
  String, ◌≡◌, ◌≢◌, refl, inl, inr, Option, none, some, [], ◌∷◌, ok, arith, eq_iff, Result-cases,
  ok-injective, >>=-eq-ok, text-cases,
}
use universal_crossplane.Base.Dict.{Dict, lookup, insert, get_text}
use universal_crossplane.Controllers.TlsSecrets.Env.{
  Env, PemBlock, key_ca_cert, key_tls_cert, key_tls_key,
}
use universal_crossplane.Controllers.TlsSecrets.SecretData.{
  add_cert, encode_cert_pem, tls_secret_data_from_cert_and_key, cert_from_tls_secret_data,
  parse_key, read_certs, required,
}

-- What is assumed of the PEM coders: a marshalled RSA key is not empty and parses to the key, an
-- encoded block is not empty, and an encoded certificate parses to a list of just that one.
pub record IsLawful (E : Env) : Type 0 where
  pub marshal-parse :
      (k : E.Signer) (b : String)
      → E.marshal_private_key_to_pem k ≡ ok b
      → (b ≢ "") × (p : E.PrivateKey) × (E.parse_private_key_pem b ≡ ok p) × (E.as_rsa p ≡ some k)
  pub encode-ne-empty : (b : PemBlock) → E.encode_to_memory b ≢ ""
  pub encode-parse : (c : E.Certificate) → E.parse_certs_pem (encode_cert_pem E c) ≡ ok (c ∷ [])

module _ (E : Env) (L : IsLawful E) where
  open E use {Certificate, Signer}

  parse_key-marshal :
      (k : Signer) (b : String)
      → E.marshal_private_key_to_pem k ≡ ok b
      → parse_key E b ≡ ok (some k)
  unfolding parse_key
  parse_key-marshal k b h =
      let (given, p, parsed, is_rsa) = L.marshal-parse k b h in
      elim (text-cases b "") [
        | inl (_, empty) ↦ absurd (given empty)
        | inr (other, _) ↦ rw (other, parsed, is_rsa)
      ]

  abbrev secret_data : String → Certificate → Option Certificate → Dict String
  secret_data b cert ca =
      add_cert E key_ca_cert ca (add_cert E key_tls_cert (some cert) ((key_tls_key, b) ∷ []))

  cert_from_tls_secret_data-secret_data :
      (b : String) (cert : Certificate) (key : Option Signer) (ca : Option Certificate)
      → parse_key E b ≡ ok key
      → cert_from_tls_secret_data E (secret_data b cert ca) ≡ ok (cert, key, ca)
  unfolding cert_from_tls_secret_data insert
  cert_from_tls_secret_data-secret_data b cert key none h = rw (h, L.encode-parse cert)
  cert_from_tls_secret_data-secret_data b cert key (some ca) h =
      rw (h, L.encode-parse cert, L.encode-parse ca)

  -- With lawful PEM coders, data that was made from a certificate, with or without a key and an
  -- authority, reads back as these.
  pub cert_from_tls_secret_data-tls_secret_data :
      (cert : Certificate) (key : Option Signer) (ca : Option Certificate) (d : Dict String)
      → tls_secret_data_from_cert_and_key E (some cert) key ca ≡ ok d
      → cert_from_tls_secret_data E d ≡ ok (cert, key, ca)
  unfolding tls_secret_data_from_cert_and_key
  cert_from_tls_secret_data-tls_secret_data cert none ca d h =
      rw (← ok-injective h)
        (cert_from_tls_secret_data-secret_data "" cert none ca (unfold parse_key in refl))
  cert_from_tls_secret_data-tls_secret_data cert (some k) ca d h =
      elim (Result-cases (E.marshal_private_key_to_pem k)) [
        | inl (b, e) ↦
            rw (← ok-injective (rw e at h))
              (cert_from_tls_secret_data-secret_data b cert (some k) ca (parse_key-marshal k b e))
        | inr (inl (x, failed)) ↦ absurd (cc)
        | inr (inr panicked) ↦ absurd (cc)
      ]

  get_text-secret_data :
      (b : String) (cert : Certificate) (ca : Option Certificate)
      → b ≢ ""
      → get_text key_tls_key (secret_data b cert ca) ≢ ""
  unfolding get_text lookup insert
  get_text-secret_data b cert none given = given
  get_text-secret_data b cert (some ca) given = given

  pub get_text-secret_cert :
      (b : String) (cert : Certificate) (ca : Option Certificate)
      → get_text key_tls_cert (secret_data b cert ca) ≢ ""
  unfolding get_text lookup insert encode_cert_pem
  get_text-secret_cert b cert none = L.encode-ne-empty _
  get_text-secret_cert b cert (some ca) = L.encode-ne-empty _

  -- Data that was made with a key has a text for it.
  pub get_text-tls_secret_data :
      (cert : Certificate) (k : Signer) (ca : Option Certificate) (d : Dict String)
      → tls_secret_data_from_cert_and_key E (some cert) (some k) ca ≡ ok d
      → get_text key_tls_key d ≢ ""
  unfolding tls_secret_data_from_cert_and_key get_text lookup
  get_text-tls_secret_data cert k ca d h = elim (Result-cases (E.marshal_private_key_to_pem k)) [
    | inl (b, e) ↦
        let given = (L.marshal-parse k b e).0 in
        rw (← ok-injective (rw e at h)) (get_text-secret_data b cert ca given)
    | inr (inl (x, failed)) ↦ absurd (cc)
    | inr (inr panicked) ↦ absurd (cc)
  ]

  -- Data that was made with a certificate has a text for it.
  pub get_text-tls_cert :
      (cert : Certificate) (k : Signer) (ca : Option Certificate) (d : Dict String)
      → tls_secret_data_from_cert_and_key E (some cert) (some k) ca ≡ ok d
      → get_text key_tls_cert d ≢ ""
  unfolding tls_secret_data_from_cert_and_key
  get_text-tls_cert cert k ca d h = elim (Result-cases (E.marshal_private_key_to_pem k)) [
    | inl (b, e) ↦ rw (← ok-injective (rw e at h)) (get_text-secret_cert b cert ca)
    | inr (inl (x, failed)) ↦ absurd (cc)
    | inr (inr panicked) ↦ absurd (cc)
  ]

module _ (E : Env) where
  open E use {Certificate, Signer}

  parse_key-some :
      (b : String) (key : Option Signer)
      → parse_key E b ≡ ok key
      → b ≢ ""
      → (k : Signer) × (key ≡ some k)
  unfolding parse_key
  parse_key-some b none h given = ground (arith, eq_iff b "")
  parse_key-some b (some k) h given = (k, refl)

  read_certs-key :
      (d : Dict String) (key : Option Signer) (cert : Certificate) (key' : Option Signer)
      (ca : Option Certificate)
      → read_certs E d key ≡ ok (cert, key', ca)
      → key ≡ key'
  unfolding read_certs
  read_certs-key d key cert key' ca h = ground arith

  required-get_text :
      (d : Dict String) (b : String) → required key_tls_key d ≡ ok b → get_text key_tls_key d ≡ b
  unfolding get_text
  required-get_text d b h = ground arith

  -- A secret with a text for the key is read with a key, or not at all.
  pub cert_from_tls_secret_data-key :
      (d : Dict String) (cert : Certificate) (key : Option Signer) (ca : Option Certificate)
      → cert_from_tls_secret_data E d ≡ ok (cert, key, ca)
      → get_text key_tls_key d ≢ ""
      → (k : Signer) × (key ≡ some k)
  unfolding cert_from_tls_secret_data
  cert_from_tls_secret_data-key d cert key ca h given =
      let (b, found, rest) = >>=-eq-ok (required key_tls_key d) _ h in
      let (key', parsed, read) = >>=-eq-ok (parse_key E b) (read_certs E d) rest in
      rw (← read_certs-key d key' cert key ca read)
        (parse_key-some b key' parsed (rw (← required-get_text d b found) given))

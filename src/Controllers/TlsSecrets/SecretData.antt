-- ===== src/Controllers/TlsSecrets/SecretData.antt =====
-- `encodeCertPEM`, `tlsSecretDataFromCertAndKey` and `certFromTLSSecretData` of
-- internal/controllers/tlssecrets/reconciler.go.
pub mod Laws
pub mod Calm
use universal_crossplane.Base.{
  String, ◌<>◌, Option, none, some, List, [], ◌∷◌, Error, new, wrap, Result, ok, err, panic, ◌>>=◌,
  wrapped, ◌==◌, if◌then◌else◌,
}
use universal_crossplane.Base.Dict.{Dict, lookup, insert}
use universal_crossplane.Controllers.TlsSecrets.Env.{
  Env, PemBlock, certificate_block_type, key_ca_cert, key_tls_cert, key_tls_key,
}

abbrev missing_key : String → Error
missing_key key = new ("could not find key " <> key <> " in ca secret")

-- A map entry that has to be there.
abbrev required : String → Dict String → Result String
required key d = elim (lookup key d) [ none ↦ err (missing_key key) | some v ↦ ok v ]

-- `certs[0]`
abbrev head : {A : Type 0} → List A → Result A
head [] = panic
head (x ∷ xs) = ok x

module _ (E : Env) where
  open E use {Certificate, Signer}

  unfoldable pub encode_cert_pem : Certificate → String
  encode_cert_pem cert =
      E.encode_to_memory (record { block_type = certificate_block_type; bytes = E.raw cert })

  abbrev add_cert : String → Option Certificate → Dict String → Dict String
  add_cert key none d = d
  add_cert key (some cert) d = insert key (encode_cert_pem cert) d

  abbrev encoded_key : Option Signer → Result String
  encoded_key none = ok ""
  encoded_key (some k) = wrapped "failed to encode tls key as PEM" (E.marshal_private_key_to_pem k)

  unfoldable pub tls_secret_data_from_cert_and_key :
      Option Certificate → Option Signer → Option Certificate → Result (Dict String)
  unfolding encode_cert_pem insert
  tls_secret_data_from_cert_and_key cert key ca = do
    key_encoded ← encoded_key key
    ok (add_cert key_ca_cert ca (add_cert key_tls_cert cert ((key_tls_key, key_encoded) ∷ [])))

  parse_key : String → Result (Option Signer)
  parse_key key_encoded = if key_encoded == "" then ok none else do
    k ← wrapped "failed to parse private key as PEM" (E.parse_private_key_pem key_encoded)
    elim (E.as_rsa k) [
      | none ↦ err (new "private key is not in recognized type, expecting RSA")
      | some key ↦ ok (some key)
    ]

  parse_ca : Option String → Result (Option Certificate)
  parse_ca none = ok none
  parse_ca (some ca_encoded) = do
    cas ← wrapped "failed to parse ca cert as PEM" (E.parse_certs_pem ca_encoded)
    ca ← head cas
    ok (some ca)

  -- What is read once the key is known.
  read_certs :
      Dict String → Option Signer → Result (Certificate × Option Signer × Option Certificate)
  read_certs d key = do
    cert_encoded ← required key_tls_cert d
    certs ← wrapped "failed to parse cert as PEM" (E.parse_certs_pem cert_encoded)
    cert ← head certs
    ca ← parse_ca (lookup key_ca_cert d)
    ok (cert, key, ca)

  unfoldable pub cert_from_tls_secret_data :
      Dict String → Result (Certificate × Option Signer × Option Certificate)
  unfolding parse_key parse_ca lookup read_certs
  cert_from_tls_secret_data d = do
    key_encoded ← required key_tls_key d
    key ← parse_key key_encoded
    read_certs d key

-- ===== src/Controllers/TlsSecrets/Healthy.antt =====
-- A cluster in which no call of the controller of TLS secrets fails.
use universal_crossplane.Base.{ℕ, zero, ◌<◌, true, String, ◌≡◌, none, some, Error, ok, err}
use universal_crossplane.Base.Effects.Returns.{Returns}
use universal_crossplane.Controllers.Kube.{NamespacedName, Secret, key_of}
use universal_crossplane.Controllers.TlsSecrets.Env.{Env, CertConfig, Template}
use universal_crossplane.Controllers.TlsSecrets.Store.{IsStore}

-- A secret that is stored is found, one that is not is reported as not found, a
-- secret that is stored can be written, keys and certificates can be made and coded.
pub record IsHealthy (E : Env) (S : IsStore E) : Type 0 where
  pub get-found :
      (n : NamespacedName) (w : E.World) (s : Secret)
      → S.stored w n ≡ some s
      → (E.get_secret n w).0 ≡ ok s
  pub get-none :
      (n : NamespacedName) (w : E.World)
      → S.stored w n ≡ none
      → (e : Error) × ((E.get_secret n w).0 ≡ err e) × (E.is_not_found e ≡ true)
  pub update-written :
      (s t : Secret) (w : E.World)
      → S.stored w (key_of s) ≡ some t
      → (E.update_secret s w).0 ≡ ok tt
  pub create-written :
      (s : Secret) (f : Secret → Secret) (w : E.World)
      → ((t : Secret) → key_of (f t) ≡ key_of t)
      → (E.create_or_update s f w).0 ≡ ok tt
  pub key-made : (n : ℕ) (w : E.World) → Returns (E.generate_key n w)
  pub serial-made : (n : ℕ) (w : E.World) → zero < n → Returns (E.rand_int n w)
  pub self-signed :
      (c : CertConfig) (k : E.Signer) (w : E.World) → Returns (E.new_self_signed_ca_cert c k w)
  pub signed :
      (t : Template) (c : E.Certificate) (p : E.PublicKey) (k : E.Signer) (w : E.World)
      → (der : String) × (cert : E.Certificate) × ((E.create_certificate t c p (some k) w).0
          ≡ ok der)
        × (E.parse_certificate der ≡ ok cert)
  pub marshalled : (k : E.Signer) → (b : String) × (E.marshal_private_key_to_pem k ≡ ok b)

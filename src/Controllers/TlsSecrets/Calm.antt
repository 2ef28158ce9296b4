-- ===== src/Controllers/TlsSecrets/Calm.antt =====
-- What a reconciliation relies on so as not to panic.
use universal_crossplane.Base.{ℕ, zero, ◌<◌, String, ◌≢◌, some, [], ok, panic}
use universal_crossplane.Base.Effects.Calm.{IsCalm}
use universal_crossplane.Controllers.Kube.{NamespacedName, Secret}
use universal_crossplane.Controllers.TlsSecrets.Env.{Env, CertConfig, Template}

-- The calls of others may fail but do not panic, a certificate with a signer among them; and a list
-- of parsed certificates is not empty.
pub record IsCalmEnv (E : Env) : Type 0 where
  pub generate_key : (n : ℕ) (w : E.World) → IsCalm (E.generate_key n w)
  pub rand_int : (n : ℕ) (w : E.World) → zero < n → IsCalm (E.rand_int n w)
  pub new_self_signed_ca_cert :
      (c : CertConfig) (k : E.Signer) (w : E.World) → IsCalm (E.new_self_signed_ca_cert c k w)
  pub create_certificate :
      (t : Template) (c : E.Certificate) (p : E.PublicKey) (k : E.Signer) (w : E.World)
      → IsCalm (E.create_certificate t c p (some k) w)
  pub parse_certificate : (s : String) → E.parse_certificate s ≢ panic
  pub marshal_private_key_to_pem : (k : E.Signer) → E.marshal_private_key_to_pem k ≢ panic
  pub parse_private_key_pem : (s : String) → E.parse_private_key_pem s ≢ panic
  pub parse_certs_pem : (s : String) → E.parse_certs_pem s ≢ panic
  pub parse_certs_pem-some : (s : String) → E.parse_certs_pem s ≢ ok []
  pub get_secret : (n : NamespacedName) (w : E.World) → IsCalm (E.get_secret n w)
  pub update_secret : (s : Secret) (w : E.World) → IsCalm (E.update_secret s w)
  pub create_or_update :
      (s : Secret) (f : Secret → Secret) (w : E.World) → IsCalm (E.create_or_update s f w)

-- ===== src/Controllers/TlsSecrets/Store.antt =====
-- What is assumed of the API server: it keeps secrets by name.
use mathlib.Core.Option.{get_or}
use universal_crossplane.Base.{ℕ, ◌≡◌, ◌≢◌, Option, some, ok}
use universal_crossplane.Controllers.Kube.{NamespacedName, Secret, key_of}
use universal_crossplane.Controllers.TlsSecrets.Env.{Env, CertConfig, Template, Event}

-- A read that succeeds returns the secret that is stored. A write that succeeds stores what was
-- given, or what was there with the change made, and leaves the other names alone. Nothing else
-- changes what is stored. Of a read or write that fails no more is known.
pub record IsStore (E : Env) : Type 0 where
  pub stored : E.World → NamespacedName → Option Secret
  pub get-ok :
      (n : NamespacedName) (w : E.World) {s : Secret} {w' : E.World}
      → E.get_secret n w ≡ (ok s, w')
      → (stored w n ≡ some s) × (key_of s ≡ n)
  pub get-stored : (n : NamespacedName) (w : E.World) → stored (E.get_secret n w).1 ≡ stored w
  pub update-ok :
      (s : Secret) (w : E.World) {w' : E.World}
      → E.update_secret s w ≡ (ok tt, w')
      → (stored w' (key_of s) ≡ some s)
        × ((n : NamespacedName) → n ≢ key_of s → stored w' n ≡ stored w n)
  pub create-ok :
      (s : Secret) (f : Secret → Secret) (w : E.World) {w' : E.World}
      → E.create_or_update s f w ≡ (ok tt, w')
      → (stored w' (key_of s) ≡ some (f (get_or (stored w (key_of s)) s)))
        × ((n : NamespacedName) → n ≢ key_of s → stored w' n ≡ stored w n)
  pub event-stored :
      (s : Secret) (e : Event) (w : E.World) → stored (E.record_event s e w) ≡ stored w
  pub generate_key-stored : (n : ℕ) (w : E.World) → stored (E.generate_key n w).1 ≡ stored w
  pub rand_int-stored : (n : ℕ) (w : E.World) → stored (E.rand_int n w).1 ≡ stored w
  pub self_signed-stored :
      (c : CertConfig) (k : E.Signer) (w : E.World)
      → stored (E.new_self_signed_ca_cert c k w).1 ≡ stored w
  pub create_certificate-stored :
      (t : Template) (c : E.Certificate) (p : E.PublicKey) (k : Option E.Signer) (w : E.World)
      → stored (E.create_certificate t c p k w).1 ≡ stored w

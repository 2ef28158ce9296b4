-- ===== src/Controllers/TlsSecrets/Cluster.antt =====
-- What the controller of internal/controllers/tlssecrets may do to the secrets of its namespace, as
-- a specification over the stored secrets alone.
pub mod Refinement
pub mod Stable
pub mod Histories
pub mod Conflict
pub mod Server
pub mod Readiness
pub mod Convergence
pub mod Interleaving
pub mod Answers
pub mod Coherence
pub mod Alone
use mathlib.Core.Option.{get_or}
use universal_crossplane.Base.{
  String, ◌≡◌, ◌≢◌, ◌⊎◌, true, Option, none, some, Error, Result, ok, err,
}
use universal_crossplane.Base.Dict.{lookup, get_text}
use universal_crossplane.Controllers.Kube.{NamespacedName, Secret, key_of, entries}
use universal_crossplane.Controllers.TlsSecrets.Env.{Env, cert_configs, key_tls_cert, key_tls_key}
use universal_crossplane.Controllers.TlsSecrets.Store.{IsStore}
use universal_crossplane.Controllers.TlsSecrets.SecretData.{cert_from_tls_secret_data}
use universal_crossplane.Controllers.TlsSecrets.Issue.Laws.{IsSigned}
use universal_crossplane.Controllers.TlsSecrets.Reconcile.{ca_name}
use universal_crossplane.Controllers.TlsSecrets.Reconcile.Authority.{IsAuthority}
use universal_crossplane.Controllers.TlsSecrets.Setup.{watches}

-- The stored secrets by name.
abbrev pub View : Type 0
View = NamespacedName → Option Secret

-- The second view is the first with this secret written.
abbrev pub IsWritten : View → View → NamespacedName → Secret → Type 0
IsWritten v v' n s = (v' n ≡ some s) × ((m : NamespacedName) → m ≢ n → v' m ≡ v m)

abbrev pub at : String → String → NamespacedName
at namespace name = record { namespace = namespace; name = name }

module _ (namespace : String) where
  -- No secret of the name has a certificate.
  abbrev pub IsBlank : String → View → Type 0
  IsBlank name v =
      (s : Secret)
      → v (at namespace name) ≡ some s
      → get_text key_tls_cert (entries s.contents) ≡ ""

  -- An authority with a key is stored.
  abbrev pub IsUsable : View → Type 0
  IsUsable v =
      (cas : Secret) × (v (ca_name namespace) ≡ some cas)
      × (get_text key_tls_key (entries cas.contents) ≢ "")

module _ (E : Env) (S : IsStore E) where
  open S use {stored}

  -- What is assumed of the API server on top: a secret that is not found is not stored, and a write
  -- that fails has written or has not.
  pub record IsAtomic : Type 0 where
    pub get-missing :
        (n : NamespacedName) (w : E.World) {e : Error} {w' : E.World}
        → E.get_secret n w ≡ (err e, w')
        → E.is_not_found e ≡ true
        → stored w n ≡ none
    pub update-atomic :
        (s : Secret) (w : E.World)
        → (stored (E.update_secret s w).1 ≡ stored w)
          ⊎ IsWritten (stored w) (stored (E.update_secret s w).1) (key_of s) s
    pub create-atomic :
        (s : Secret) (f : Secret → Secret) (w : E.World)
        → (stored (E.create_or_update s f w).1 ≡ stored w)
          ⊎ IsWritten
              (stored w)
              (stored (E.create_or_update s f w).1)
              (key_of s)
              (f (get_or (stored w (key_of s)) s))

  -- The secret holds a certificate that is signed, for the configuration of the name, by the stored
  -- authority, its key, and the authority's certificate.
  pub record IsBacked (namespace name : String) (v : View) (s : Secret) : Type 0 where
    pub cas : Secret
    pub ca_cert : E.Certificate
    pub ca_key : E.Signer
    pub authority : IsAuthority E cas ca_cert ca_key
    pub saved : v (ca_name namespace) ≡ some cas
    pub cert : E.Certificate
    pub key : E.Signer
    pub readable :
        cert_from_tls_secret_data E (entries s.contents) ≡ ok (cert, some key, some ca_cert)
    pub is_signed : IsSigned E S (lookup name cert_configs) (some ca_cert) (some ca_key) cert key

  module _ (namespace : String) where
    -- Nothing happens, or an authority is stored where there was no usable one.
    abbrev pub Founds : View → View → Type 0
    Founds v v' =
        (v' ≡ v)
        ⊎ ((cas : Secret) × (IsUsable namespace v → ⊥) × IsWritten v v' (ca_name namespace) cas)

    -- Nothing happens, or a blank secret gets a certificate of the stored authority.
    abbrev pub Issues : String → View → View → Type 0
    Issues name v v' =
        (v' ≡ v)
        ⊎ ((s : Secret) × IsBlank namespace name v
            × IsBacked namespace name v s
            × IsWritten v v' (at namespace name) s)

    -- The same for a secret that may have a certificate.
    abbrev pub Puts : String → View → View → Type 0
    Puts name v v' =
        (v' ≡ v)
        ⊎ ((s : Secret) × IsBacked namespace name v s × IsWritten v v' (at namespace name) s)

    -- What a reconciliation of the name may do: the one, and then the other.
    pub record Refines (name : String) (v v' : View) : Type 0 where
      pub middle : View
      pub founds : Founds v middle
      pub issues : Issues name middle v'

-- ===== src/Controllers/TlsSecrets/Cluster/Stable.antt =====
-- What the specification of the cluster keeps: issued certificates and the authority.
use mathlib.Core.Option.{some-injective}
use universal_crossplane.Base.{
  ok-injective, true, String, ◌≡◌, ◌≢◌, sym, ap, ◌∙◌, inl, inr, some, text-cases,
}
use universal_crossplane.Base.Dict.{get_text}
use universal_crossplane.Controllers.Kube.{NamespacedName, Secret, entries}
use universal_crossplane.Controllers.TlsSecrets.Env.{Env, key_tls_cert}
use universal_crossplane.Controllers.TlsSecrets.Store.{IsStore}
use universal_crossplane.Controllers.TlsSecrets.Setup.{watches, watches-ne_ca}
use universal_crossplane.Controllers.TlsSecrets.Reconcile.{ca_name}
use universal_crossplane.Controllers.TlsSecrets.Reconcile.Authority.{IsAuthority}
use universal_crossplane.Controllers.TlsSecrets.Cluster.{
  View, at, IsBlank, IsUsable, IsBacked, Founds, Issues, Puts, Refines,
}

at-injective : (namespace : String) {a b : String} → at namespace a ≡ at namespace b → a ≡ b
at-injective namespace e = ap (λ n. n.name) e

-- The secret has a certificate.
abbrev pub HasCert : Secret → Type 0
HasCert s = get_text key_tls_cert (entries s.contents) ≢ ""

-- A secret holds one authority.
pub authority-injective :
    (E : Env) {s t : Secret} {c d : E.Certificate} {k l : E.Signer}
    → IsAuthority E s c k
    → IsAuthority E t d l
    → s ≡ t
    → c ≡ d
authority-injective E a b same =
    ap (λ x. x.0) (ok-injective (sym (rw same at a.readable) ∙ b.readable))

module _ (E : Env) (S : IsStore E) (namespace : String) where
  abbrev ca : NamespacedName
  ca = ca_name namespace

  -- Every watched secret that has a certificate has one of the stored authority.
  abbrev pub IsSound : View → Type 0
  IsSound v =
      (name : String) (s : Secret)
      → watches name ≡ true
      → v (at namespace name) ≡ some s
      → HasCert s
      → IsBacked E S namespace name v s

  IsBacked-IsUsable :
      {name : String} {v : View} {s : Secret}
      → IsBacked E S namespace name v s
      → IsUsable namespace v
  IsBacked-IsUsable b = (b.cas, b.saved, b.authority.has_key)

  pub IsBacked-kept :
      {name : String} {v v' : View} {s : Secret}
      → v' ca ≡ v ca
      → IsBacked E S namespace name v s
      → IsBacked E S namespace name v' s
  IsBacked-kept same b = record {
    cas = b.cas;
    ca_cert = b.ca_cert;
    ca_key = b.ca_key;
    authority = b.authority;
    saved = same ∙ b.saved;
    cert = b.cert;
    key = b.key;
    readable = b.readable;
    is_signed = b.is_signed;
  }

  Founds-IsSound : {v v' : View} → Founds E S namespace v v' → IsSound v → IsSound v'
  Founds-IsSound (inl same) sound name s watched there has_cert =
      IsBacked-kept (ap (λ f. f ca) same)
        (sound name s watched (ap (λ f. f (at namespace name)) (sym same) ∙ there) has_cert)
  Founds-IsSound (inr (cas, unusable, (saved, kept))) sound name s watched there has_cert =
      let before =
        sym (kept (at namespace name) (λ e. watches-ne_ca name watched (at-injective namespace e)))
        ∙ there in
      absurd (unusable (IsBacked-IsUsable (sound name s watched before has_cert)))

  pub Puts-IsSound :
      (issued : String) {v v' : View}
      → watches issued ≡ true
      → Puts E S namespace issued v v'
      → IsSound v
      → IsSound v'
  Puts-IsSound issued {v' = v'} watched_issued (inl same) sound name s watched there has_cert =
      IsBacked-kept (ap (λ f. f ca) same)
        (sound name s watched (ap (λ f. f (at namespace name)) (sym same) ∙ there) has_cert)
  Puts-IsSound issued {v' = v'} watched_issued (inr (t, backed, (saved, kept))) sound name s watched
        there has_cert =
      let same_ca =
        kept ca (λ e. watches-ne_ca issued watched_issued (at-injective namespace (sym e))) in
      elim (text-cases name issued) [
        | inl (_, same) ↦
            let is : t ≡ s = some-injective t s (sym saved ∙ rw same at there) in
            let after : IsBacked E S namespace issued v' t = IsBacked-kept same_ca backed in
            rw same (rw is at after)
        | inr (_, other) ↦
            let before =
              sym (kept (at namespace name) (λ e. other (at-injective namespace e))) ∙ there in
            IsBacked-kept same_ca (sound name s watched before has_cert)
      ]

  Issues-Puts :
      (issued : String) {v v' : View}
      → Issues E S namespace issued v v'
      → Puts E S namespace issued v v'
  Issues-Puts issued (inl same) = inl same
  Issues-Puts issued (inr (t, blank, backed, written)) = inr (t, backed, written)

  pub Refines-IsSound :
      (name : String) {v v' : View}
      → watches name ≡ true
      → Refines E S namespace name v v'
      → IsSound v
      → IsSound v'
  Refines-IsSound name watched r sound =
      Puts-IsSound name watched (Issues-Puts name r.issues) (Founds-IsSound r.founds sound)

  Founds-kept :
      {v v' : View} (n : NamespacedName)
      → Founds E S namespace v v'
      → (n ≡ ca → IsUsable namespace v)
      → v' n ≡ v n
  Founds-kept n (inl same) given = ap (λ f. f n) same
  Founds-kept n (inr (cas, unusable, (saved, kept))) given = kept n (λ e. unusable (given e))

  Issues-kept :
      (issued : String) {v v' : View} (n : NamespacedName)
      → Issues E S namespace issued v v'
      → (n ≡ at namespace issued → IsBlank namespace issued v → ⊥)
      → v' n ≡ v n
  Issues-kept issued n (inl same) given = ap (λ f. f n) same
  Issues-kept issued n (inr (t, blank, backed, (saved, kept))) given = kept n (λ e. given e blank)

  pub Refines-kept :
      (issued : String) {v v' : View} (n : NamespacedName)
      → Refines E S namespace issued v v'
      → (n ≡ ca → IsUsable namespace v)
      → (n ≡ at namespace issued → (s : Secret) × (v n ≡ some s) × HasCert s)
      → v' n ≡ v n
  Refines-kept issued n r usable certified =
      let first = Founds-kept n r.founds usable in
      Issues-kept issued n r.issues (λ e blank.
        let (s, there, has_cert) = certified e in
        has_cert (blank s (ap r.middle (sym e) ∙ first ∙ there)))
      ∙ first

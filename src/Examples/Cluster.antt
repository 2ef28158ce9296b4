-- ===== src/Examples/Cluster.antt =====
-- An API server in memory, with toy certificates: a PEM file is its content after one letter.
pub mod Healthy
use Prim.Native.Char.{Char}
use Prim.Native.String.{[], ◌∷◌}
use mathlib.Core.Option.{get_or, some-injective}
use universal_crossplane.Base.{
  ℕ, zero, suc, ◌<◌, panic, String, ◌<>◌, ◌≡◌, ◌≢◌, refl, sym, ap, ◌∙◌, inl, inr, ◌⊎◌, Option-cases,
  Bool, true, false, ◌&&◌, Option, none, some, List, [], ◌∷◌, Error, new, Result, ok, err, arith,
  eq_iff, ◌==◌, if◌then◌else◌, Bool-cases, ok-injective,
}
use universal_crossplane.Controllers.Kube.{NamespacedName, Secret, key_of}
use universal_crossplane.Controllers.TlsSecrets.Env.{Env, Template}
use universal_crossplane.Controllers.TlsSecrets.SecretData.{encode_cert_pem}
use universal_crossplane.Controllers.TlsSecrets.SecretData.Laws.{IsLawful}
use universal_crossplane.Controllers.TlsSecrets.Store.{IsStore}
use universal_crossplane.Controllers.TlsSecrets.Healthy.{IsHealthy}
use universal_crossplane.Controllers.TlsSecrets.Cluster.{IsWritten, IsAtomic}

abbrev pub same : NamespacedName → NamespacedName → Bool
same a b = a.namespace == b.namespace && a.name == b.name

pub same-eq : (a b : NamespacedName) → same a b ≡ true → a ≡ b
same-eq a b h =
    let namespace : a.namespace ≡ b.namespace = ground (arith, eq_iff a.namespace b.namespace) in
    let name : a.name ≡ b.name = ground (arith, eq_iff a.name b.name) in
    λ i. record { namespace = namespace i; name = name i }

pub same_refl : (a : NamespacedName) → same a a ≡ true
same_refl a = ground (arith, eq_iff a.namespace a.namespace, eq_iff a.name a.name)

pub same-ne : (a b : NamespacedName) → a ≢ b → same a b ≡ false
same-ne a b ne = elim (Bool-cases (same a b)) [ inl e ↦ absurd (ne (same-eq a b e)) | inr e ↦ e ]

abbrev pub Secrets : Type 0
Secrets = NamespacedName → Option Secret

abbrev pub put : NamespacedName → Secret → Secrets → Secrets
put n s w m = if same m n then some s else w m

abbrev pub not_found : Error
not_found = new "not found"

-- A secret is only kept under its own name.
abbrev pub named : NamespacedName → Option Secret → Option Secret
named n none = none
named n (some s) = if same (key_of s) n then some s else none

abbrev pub found_of : Option Secret → Result Secret
found_of none = err not_found
found_of (some s) = ok s

-- `controllerutil.CreateOrUpdate`, which refuses a change of the name.
abbrev pub create : NamespacedName → Secret → Secrets → Result (Unit {0}) × Secrets
create n t w =
    if same (key_of t) n then (ok tt, put n t w) else (err (new "the name is changed"), w)

abbrev pub is_not_found : Error → Bool
is_not_found (new m) = m == "not found"
is_not_found _ = false

abbrev pub pem_body : String → Result String
pem_body [] = err (new "no PEM block")
pem_body (c ∷ s) = ok s

abbrev pub certs_of : String → Result (List String)
certs_of [] = err (new "no PEM block")
certs_of (c ∷ s) = ok (s ∷ [])

abbrev ca : NamespacedName
ca = record { namespace = "upbound-system"; name = "uxp-ca" }

-- An authority that is made beside one that is stored has another name.
abbrev pub ca_of : Option Secret → String → String
ca_of none name = name
ca_of (some s) name = name <> "2"

-- The greatest number below the bound.
abbrev pub drawn : ℕ → Result ℕ
drawn zero = panic
drawn (suc n) = ok n

pub drawn_works : (n : ℕ) → zero < n → (i : ℕ) × (drawn n ≡ ok i)
drawn_works zero h = absurd (omega arith)
drawn_works (suc n) h = (n, refl)

-- How the cluster makes a certificate from a template and an authority.
abbrev pub Create : Type 0
Create = Template → String → String → Option String → Secrets → Result String × Secrets

abbrev pub named_by : Create
named_by t c p k w = (ok (t.common_name <> " by " <> c), w)

abbrev pub cluster : Create → Env
cluster create_certificate = record {
  World = Secrets;
  Certificate = String;
  Signer = String;
  PublicKey = String;
  PrivateKey = String;
  generate_key = λ n w. (ok "k", w);
  rand_int = λ n w. (drawn n, w);
  now = λ w. 0;
  new_self_signed_ca_cert = λ c k w. (ok (ca_of (w ca) c.common_name), w);
  create_certificate = create_certificate;
  parse_certificate = λ s. ok s;
  public = λ k. k;
  not_before = λ c. 0;
  raw = λ c. c;
  encode_to_memory = λ b. "P" ∷ b.bytes;
  marshal_private_key_to_pem = λ k. ok ("K" ∷ k);
  parse_private_key_pem = pem_body;
  as_rsa = λ k. some k;
  parse_certs_pem = certs_of;
  get_secret = λ n w. (found_of (named n (w n)), w);
  update_secret = λ s w. (ok tt, put (key_of s) s w);
  create_or_update = λ s f w. create (key_of s) (f (get_or (named (key_of s) (w (key_of s))) s)) w;
  is_not_found = is_not_found;
  record_event = λ s e w. w;
}

abbrev pub env : Env
env = cluster named_by

pub cons-ne : (c : Char) (s : String) → ◌≢◌ {A = String} (c ∷ s) ""
cons-ne c s h = cc

abbrev pub lawful_of : (create : Create) → IsLawful (cluster create)
unfolding encode_cert_pem
lawful_of create = record {
  marshal-parse = λ k b h. rw (← ok-injective h) (cons-ne _ _, k, refl, refl);
  encode-ne-empty = λ b. cons-ne _ _;
  encode-parse = λ c. refl;
}

pub named_key :
    (n : NamespacedName) (o : Option Secret) {s : Secret} → named n o ≡ some s → key_of s ≡ n
named_key n none h = absurd (cc h)
named_key n (some t) h = elim (Bool-cases (same (key_of t) n)) [
  | inl e ↦ let is = some-injective _ _ (rw e at h) in sym (ap key_of is) ∙ same-eq (key_of t) n e
  | inr e ↦ absurd (cc (rw e at h))
]

pub found_of-ok : (o : Option Secret) {s : Secret} → found_of o ≡ ok s → o ≡ some s
found_of-ok none h = absurd (cc h)
found_of-ok (some t) h = ap some (ok-injective h)

found_of-missing : (o : Option Secret) {e : Error} → found_of o ≡ err e → o ≡ none
found_of-missing none h = refl
found_of-missing (some t) h = absurd (cc h)

abbrev pub view : Secrets → Secrets
view w n = named n (w n)

named_same : (n : NamespacedName) (s : Secret) → key_of s ≡ n → named n (some s) ≡ some s
named_same n s h = rw (ap (λ k. same k n) h ∙ same_refl n)

pub put_lem :
    (n : NamespacedName) (s : Secret) (w : Secrets)
    → key_of s ≡ n
    → IsWritten (view w) (view (put n s w)) n s
put_lem n s w h = (rw (same_refl n) (named_same n s h), λ m ne. rw (same-ne m n ne) refl)

pub create-ok :
    (n : NamespacedName) (t : Secret) (w : Secrets) {w' : Secrets}
    → create n t w ≡ (ok tt, w')
    → IsWritten (view w) (view w') n t
create-ok n t w h = elim (Bool-cases (same (key_of t) n)) [
  | inl e ↦ rw (← ap (λ o. o.1) (rw e at h)) (put_lem n t w (same-eq (key_of t) n e))
  | inr e ↦ absurd (cc (ap (λ o. o.0) (rw e at h)))
]

abbrev pub IsQuietCreate : Create → Type 0
IsQuietCreate create =
    (t : Template) (c p : String) (k : Option String) (w : Secrets) → (create t c p k w).1 ≡ w

abbrev pub store_of : (create : Create) → IsQuietCreate create → IsStore (cluster create)
store_of create quiet = record {
  stored = view;
  get-ok = λ n w h.
      let found = found_of-ok (named n (w n)) (ap (λ o. o.0) h) in (found, named_key n (w n) found);
  get-stored = λ n w. refl;
  update-ok = λ s w h. rw (← ap (λ o. o.1) h) (put_lem (key_of s) s w refl);
  create-ok = λ s f w h. create-ok (key_of s) _ w h;
  event-stored = λ s e w. refl;
  generate_key-stored = λ n w. refl;
  rand_int-stored = λ n w. refl;
  self_signed-stored = λ c k w. refl;
  create_certificate-stored = λ t c p k w. ap view (quiet t c p k w);
}

create-either :
    (n : NamespacedName) (t : Secret) (w : Secrets)
    → (view (create n t w).1 ≡ view w) ⊎ IsWritten (view w) (view (create n t w).1) n t
create-either n t w = elim (Bool-cases (same (key_of t) n)) [
  | inl e ↦ inr (rw e (put_lem n t w (same-eq (key_of t) n e)))
  | inr e ↦ inl (rw e)
]

abbrev pub cluster_lawful : IsLawful env
cluster_lawful = lawful_of named_by

abbrev pub cluster_store : IsStore env
cluster_store = store_of named_by (λ t c p k w. refl)

pub store_of-IsAtomic :
    (create : Create) (quiet : IsQuietCreate create)
    → IsAtomic (cluster create) (store_of create quiet)
store_of-IsAtomic create quiet = record {
  get-missing = λ n w h _. found_of-missing (named n (w n)) (ap (λ o. o.0) h);
  update-atomic = λ s w. inr (put_lem (key_of s) s w refl);
  create-atomic = λ s f w. create-either (key_of s) _ w;
}

pub cluster-IsAtomic : IsAtomic env cluster_store
cluster-IsAtomic = store_of-IsAtomic named_by (λ t c p k w. refl)

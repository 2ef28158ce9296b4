-- ===== src/Examples/Namespaces/Servers.antt =====
-- A history in a cluster whose authority only signs the certificates of the two servers.
use universal_crossplane.Base.{
  ℕ, zero, suc, ◌<◌, String, ◌≡◌, refl, sym, ap, inl, inr, ◌⊎◌, Bool, true, false, ◌&&◌, some, List,
  [], ◌∷◌, new, Result, ok, err, eqb, ◌==◌, if◌then◌else◌, arith, eq_iff, ok-injective,
}
use universal_crossplane.Base.Dict.{lookup, get_text}
use universal_crossplane.Controllers.Kube.{Secret}
use universal_crossplane.Controllers.TlsSecrets.Env.{Env, Template, certificate_validity}
use universal_crossplane.Controllers.TlsSecrets.Monad.{Reconciler, new_reconciler}
use universal_crossplane.Controllers.TlsSecrets.Reconcile.{reconcile}
use universal_crossplane.Controllers.TlsSecrets.Cluster.{at}
use universal_crossplane.Controllers.TlsSecrets.Cluster.Stable.{HasCert}
use universal_crossplane.Controllers.TlsSecrets.Cluster.Histories.{Steps, start, after, reconciled}
use universal_crossplane.Controllers.TlsSecrets.Cluster.Server.{IsX509, IsServer, history-IsServer}
use universal_crossplane.Examples.Namespaces.{ns, with_cert, installed, fresh, xgql_watched}
use universal_crossplane.Examples.Cluster.{
  view, Create, IsQuietCreate, cluster, drawn, lawful_of, store_of, store_of-IsAtomic,
}

abbrev is_xgql : List String → Bool
is_xgql (a ∷ []) = a == "xgql"
is_xgql _ = false

abbrev is_agent : List String → Bool
is_agent (a ∷ b ∷ []) = a == "upbound-agent" && b == "tenant-gateway"
is_agent _ = false

abbrev is_server : List ℕ → Bool
is_server (u ∷ []) = eqb u 1
is_server _ = false

-- The certificates are "x" and "a", for the key "k", with the greatest serial number, made at 0.
abbrev common : Template → Bool
common t =
    is_server t.ext_key_usage
    && eqb t.serial_number 9223372036854775806
    && eqb t.not_after certificate_validity

abbrev answer : Bool → Bool → Bool → Result String
answer false x a = err (new "unknown template")
answer true true a = ok "x"
answer true false true = ok "a"
answer true false false = err (new "unknown template")

abbrev sign : Create
sign t c p k w = (answer (p == "k" && common t) (is_xgql t.dns_names) (is_agent t.dns_names), w)

abbrev env : Env
env = cluster sign

abbrev quiet : IsQuietCreate sign
quiet t c p k w = refl

abbrev names_of : String → List String
names_of cert = if cert == "x" then "xgql" ∷ [] else "upbound-agent" ∷ "tenant-gateway" ∷ []

is_xgql-eq_true : (l : List String) → is_xgql l ≡ true → l ≡ "xgql" ∷ []
is_xgql-eq_true (a ∷ []) h = ap (λ x. x ∷ []) ((eq_iff a "xgql").0 h)
is_xgql-eq_true [] h = absurd (cc h)
is_xgql-eq_true (a ∷ b ∷ l) h = absurd (cc h)

is_agent-eq_true :
    (l : List String) → is_agent l ≡ true → l ≡ "upbound-agent" ∷ "tenant-gateway" ∷ []
is_agent-eq_true (a ∷ b ∷ []) h =
    let first : a ≡ "upbound-agent" = ground (arith, eq_iff a "upbound-agent") in
    let second : b ≡ "tenant-gateway" = ground (arith, eq_iff b "tenant-gateway") in
    λ i. first i ∷ second i ∷ []
is_agent-eq_true [] h = absurd (cc h)
is_agent-eq_true (a ∷ []) h = absurd (cc h)
is_agent-eq_true (a ∷ b ∷ c ∷ l) h = absurd (cc h)

is_server-eq_true : (l : List ℕ) → is_server l ≡ true → l ≡ 1 ∷ []
is_server-eq_true (u ∷ []) h = let is : u ≡ 1 = ground arith in ap (λ x. x ∷ []) is
is_server-eq_true [] h = absurd (cc h)
is_server-eq_true (a ∷ b ∷ l) h = absurd (cc h)

answer-ok :
    (c x a : Bool) (der : String)
    → answer c x a ≡ ok der
    → (c ≡ true) × (((x ≡ true) × (der ≡ "x")) ⊎ ((a ≡ true) × (der ≡ "a")))
answer-ok true true a der h = (refl, inl (refl, sym (ok-injective h)))
answer-ok true false true der h = (refl, inr (refl, sym (ok-injective h)))
answer-ok true false false der h = absurd (cc h)
answer-ok false x a der h = absurd (cc h)

created-names :
    (t : Template) (c : Bool) (der : String)
    → answer c (is_xgql t.dns_names) (is_agent t.dns_names) ≡ ok der
    → names_of der ≡ t.dns_names
created-names t c der h =
    let (_, which) = answer-ok c (is_xgql t.dns_names) (is_agent t.dns_names) der h in
    elim which [
      | inl (x, is) ↦ rw is (sym (is_xgql-eq_true t.dns_names x))
      | inr (a, is) ↦ rw is (sym (is_agent-eq_true t.dns_names a))
    ]

created-rest :
    (t : Template) (p : String)
    → (p == "k" && common t) ≡ true
    → ("k" ≡ p)
      × (1 ∷ [] ≡ t.ext_key_usage)
      × (9223372036854775806 ≡ t.serial_number)
      × (certificate_validity ≡ t.not_after)
created-rest t p h =
    let usage : is_server t.ext_key_usage ≡ true = ground arith in
    let key : p ≡ "k" = ground (arith, eq_iff p "k") in
    (sym key, sym (is_server-eq_true t.ext_key_usage usage), ground arith, ground arith)

created-all :
    (t : Template) (p der cert : String)
    → answer (p == "k" && common t) (is_xgql t.dns_names) (is_agent t.dns_names) ≡ ok der
    → ◌≡◌ {A = Result String} (ok der) (ok cert)
    → (names_of cert ≡ t.dns_names)
      × (1 ∷ [] ≡ t.ext_key_usage)
      × (9223372036854775806 ≡ t.serial_number)
      × (certificate_validity ≡ t.not_after)
      × ("k" ≡ p)
      × Unit {0}
created-all t p der cert made parsed =
    let (given, _) = answer-ok _ (is_xgql t.dns_names) (is_agent t.dns_names) der made in
    let (key, usage, serial, expires) = created-rest t p given in
    (rw (ok-injective parsed) at (created-names t _ der made), usage, serial, expires, key, tt)

drawn-lt : (n i : ℕ) → drawn n ≡ ok i → i < n
drawn-lt zero i h = absurd (cc h)
drawn-lt (suc n) i h = let is : n ≡ i = ok-injective h in omega arith

-- Every key verifies, and every certificate has the one public key.
abbrev x509 : IsX509 env
x509 = record {
  dns_names = names_of;
  ext_key_usage = λ c. 1 ∷ [];
  serial_number = λ c. 9223372036854775806;
  not_after = λ c. certificate_validity;
  public_key = λ c. "k";
  Verifies = λ p c. Unit {0};
  created = λ t c p k w der cert made parsed. created-all t p der cert made parsed;
  drawn-lt = λ n w i h. drawn-lt n i h;
}

abbrev begin : Reconciler env
begin = new_reconciler env installed.world

ended : Reconciler env
unfolding reconcile
ended = (reconcile env (at ns "xgql-tls") begin).1

history : Steps env (store_of sign quiet) ns begin ended
unfolding ended
history = after (start begin) (reconciled "xgql-tls" begin xgql_watched)

abbrev secret : Secret
secret = with_cert "xgql-tls" "Px"

there : view ended.world (at ns "xgql-tls") ≡ some secret
unfolding ended
there = refl

given : HasCert secret
unfolding get_text lookup
given h = cc

history-IsServer_example :
    IsServer env
      (lawful_of sign)
      (store_of sign quiet)
      (store_of-IsAtomic sign quiet)
      x509
      ns
      "xgql-tls"
      ended
      secret
history-IsServer_example =
    history-IsServer env (lawful_of sign) (store_of sign quiet) (store_of-IsAtomic sign quiet) x509
      ns "xgql-tls" secret fresh history xgql_watched there given

-- ===== src/Controllers/TlsSecrets/Setup.antt =====
-- `Setup` of internal/controllers/tlssecrets/reconciler.go, and which secrets it watches.
use universal_crossplane.Base.{
  String, ◌≡◌, ◌≢◌, ◌↔◌, ◌⊎◌, Bool, true, ◌||◌, none, arith, eq_iff, ◌==◌,
}
use universal_crossplane.Base.Dict.{lookup}
use universal_crossplane.Base.Effects.{Eff}
use universal_crossplane.Controllers.Manager.{tls_secrets, Manager}
use universal_crossplane.Controllers.TlsSecrets.Env.{
  cert_configs, secret_name_ca, secret_name_gateway_tls, secret_name_xgql_tls,
}

-- `resource.AnyOf` of two `resource.IsNamed`.
unfoldable pub watches : String → Bool
watches name = name == secret_name_gateway_tls || name == secret_name_xgql_tls

unfoldable pub setup : (M : Manager) → Eff M.World (Unit {0})
unfolding watches
setup M =
    M.complete (record { name = "tlsSecretGeneration"; passes = watches; reconciles = tls_secrets })

-- The secrets that the controller of TLS secrets watches are exactly those whose names have a
-- certificate's configuration.
pub watches_iff : (name : String) → (watches name ≡ true) ↔ (lookup name cert_configs ≢ none)
unfolding watches lookup
watches_iff name = ground (
  arith,
  eq_iff name secret_name_gateway_tls,
  eq_iff name secret_name_xgql_tls,
  eq_iff secret_name_gateway_tls name,
  eq_iff secret_name_xgql_tls name,
)

-- The authority's secret is none of them.
pub watches-ne_ca : (name : String) → watches name ≡ true → name ≢ secret_name_ca
unfolding watches
watches-ne_ca name h same = absurd (cc (rw same at h))

pub watches-cases :
    (name : String)
    → watches name ≡ true
    → (name ≡ secret_name_gateway_tls) ⊎ (name ≡ secret_name_xgql_tls)
unfolding watches
watches-cases name h =
    ground (arith, eq_iff name secret_name_gateway_tls, eq_iff name secret_name_xgql_tls)

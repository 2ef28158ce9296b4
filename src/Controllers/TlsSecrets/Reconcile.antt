-- ===== src/Controllers/TlsSecrets/Reconcile.antt =====
-- `Reconcile` and `createOrLoadCA` of internal/controllers/tlssecrets/reconciler.go.

pub mod Authority
pub mod Founding
pub mod Issuing
pub mod Loading
pub mod Progress
pub mod Published
pub mod Certificate
pub mod Calm
use universal_crossplane.Controllers.TlsSecrets.Env.{
  err_get_ca_secret, err_get_secret, err_init_ca, err_update_ca_secret, err_update_cert_secret,
  reason_ca, reason_generate, reason_sync, reason_update,
}
use universal_crossplane.Base.{
  String, ◌<>◌, Option, none, some, List, [], ◌∷◌, Error, wrap, Result, ok, err, panic, ◌==◌,
  if◌then◌else◌,
}
use universal_crossplane.Base.Dict.{Dict, lookup, get_text}
use universal_crossplane.Controllers.Kube.{
  NamespacedName, Secret, entries, ReconcileResult, done, label_key_managed_by,
  label_value_managed_by,
}
use universal_crossplane.Controllers.TlsSecrets.Env.{
  Env, ca_config, cert_configs, secret_name_ca, key_tls_cert, key_tls_key,
}
use universal_crossplane.Controllers.TlsSecrets.Monad.{
  Reconciler, M, ◌>>=◌, ◌>>◌, pure, lift, effect, gets, modify, or_wrap, or_report, notify,
}
use universal_crossplane.Controllers.TlsSecrets.SecretData.{
  tls_secret_data_from_cert_and_key, cert_from_tls_secret_data,
}
use universal_crossplane.Controllers.TlsSecrets.Issue.{
  new_certificate_authority, new_signed_cert_and_key,
}

abbrev pub managed_labels : Dict String
managed_labels = (label_key_managed_by, label_value_managed_by) ∷ []

-- The secret of a new authority before its data is set; the type is `corev1.SecretTypeTLS`.
abbrev pub new_ca_secret : String → Secret
new_ca_secret namespace = record {
  namespace = namespace;
  name = secret_name_ca;
  labels = managed_labels;
  type_of = "kubernetes.io/tls";
  contents = none;
}

abbrev pub ca_name : String → NamespacedName
ca_name namespace = record { namespace = namespace; name = secret_name_ca }

abbrev pub with_contents : Dict String → Secret → Secret
with_contents d s = record s { contents = some d }

module _ (E : Env) where
  open E use {Certificate, Signer}

  unfoldable pub load_ca : Secret → M E (Unit {0})
  unfolding cert_from_tls_secret_data
  load_ca cas = do
    (c, k, ca) ←
        or_wrap "failed to parts existing ca secret"
          (lift (cert_from_tls_secret_data E (entries cas.contents)))
    modify λ r. record r { ca_cert = some c; ca_key = k }

  -- The end of `createOrLoadCA`: the new authority is written.
  save_ca : String → Certificate → Signer → M E (Unit {0})
  save_ca namespace c k = do
    d ←
        or_wrap "failed to build tls secret data from generated ca"
          (lift (tls_secret_data_from_cert_and_key E (some c) (some k) (some c)))
    or_wrap err_update_ca_secret
        (effect (E.create_or_update (new_ca_secret namespace) (with_contents d)))

  unfoldable pub generate_ca : String → M E (Unit {0})
  unfolding new_certificate_authority tls_secret_data_from_cert_and_key save_ca
  generate_ca namespace = do
    (c, k) ← or_wrap "failed to generate new ca" (new_certificate_authority E ca_config)
    modify λ r. record r { ca_cert = some c; ca_key = some k }
    save_ca namespace c k

  -- What `createOrLoadCA` does with the answer to its read.
  unfoldable pub load_or_generate : String → Result Secret → M E (Unit {0})
  unfolding load_ca generate_ca get_text
  load_or_generate namespace (ok cas) =
      if get_text key_tls_key (entries cas.contents) == ""
      then generate_ca namespace
      else load_ca cas
  load_or_generate namespace (err e) =
      if E.is_not_found e then generate_ca namespace else lift (err (wrap e err_get_ca_secret))
  load_or_generate namespace panic = lift panic

  unfoldable pub create_or_load_ca : String → M E (Unit {0})
  unfolding load_or_generate
  create_or_load_ca namespace r =
      let (got, w) = E.get_secret (ca_name namespace) r.world in
      load_or_generate namespace got (record r { world = w })

  -- The rest of `Reconcile` for a secret with a certificate.
  unfoldable pub skip : NamespacedName → Secret → M E ReconcileResult
  skip req s = do
    notify s reason_sync
        ("Secret " <> req.name <> " already contains certificate, skipping generation")
    pure done

  -- The end of `Reconcile`: the data is written to the secret.
  publish : Secret → Dict String → M E ReconcileResult
  publish s d = do
    let s' = record s { labels = managed_labels; contents = some d }
    or_report s' reason_update err_update_cert_secret (effect (E.update_secret s'))
    notify s' reason_update "Successfully generated certificate!"
    pure done

  -- What `Reconcile` does once the authority is there.
  pub issue : NamespacedName → Secret → Option Certificate → Option Signer → M E ReconcileResult
  issue req s ca_cert ca_key = do
    (c, k) ←
        or_report s reason_generate "failed to generate signed certificate"
          (new_signed_cert_and_key E (lookup req.name cert_configs) ca_cert ca_key)
    d ←
        or_report s reason_generate "failed to build secret data from generated certificate"
          (lift (tls_secret_data_from_cert_and_key E (some c) (some k) ca_cert))
    publish s d

  -- The rest of `Reconcile` for a secret without a certificate.
  unfoldable pub generate : NamespacedName → Secret → M E ReconcileResult
  unfolding create_or_load_ca new_signed_cert_and_key tls_secret_data_from_cert_and_key lookup
      publish issue
  generate req s = do
    or_report s reason_ca err_init_ca (create_or_load_ca req.namespace)
    ca_cert ← gets (λ r. r.ca_cert)
    ca_key ← gets (λ r. r.ca_key)
    issue req s ca_cert ca_key

  unfoldable pub reconcile : NamespacedName → M E ReconcileResult
  unfolding skip generate get_text
  reconcile req = do
    s ← or_wrap err_get_secret (effect (E.get_secret req))
    if get_text key_tls_cert (entries s.contents) == "" then generate req s else skip req s

-- ===== src/Controllers/Kube.antt =====
-- The Kubernetes values that the controllers share, and the constants of internal/meta/meta.go.
use universal_crossplane.Base.{ℕ, String, Option, none, some, []}
use universal_crossplane.Base.Dict.{Dict}

-- `types.NamespacedName`, which is also what a `reconcile.Request` holds.
pub record NamespacedName : Type 0 where
  pub namespace : String
  pub name : String

-- `corev1.Secret`: a nil map of data is `none`. Bytes are texts.
pub record Secret : Type 0 where
  pub namespace : String
  pub name : String
  pub labels : Dict String
  pub type_of : String
  pub contents : Option (Dict String)

abbrev pub key_of : Secret → NamespacedName
key_of s = record { namespace = s.namespace; name = s.name }

-- The entries of a map that may be nil.
abbrev pub entries : Option (Dict String) → Dict String
entries none = []
entries (some d) = d

-- `reconcile.Result`: when to reconcile again, in nanoseconds, or 0.
pub record ReconcileResult : Type 0 where
  pub requeue_after : ℕ

abbrev pub done : ReconcileResult
done = record { requeue_after = 0 }

abbrev pub label_key_managed_by : String
label_key_managed_by = "upbound.io/managed-by"

abbrev pub label_value_managed_by : String
label_value_managed_by = "bootstrapper"

abbrev pub secret_name_entitlement : String
secret_name_entitlement = "upbound-entitlement"

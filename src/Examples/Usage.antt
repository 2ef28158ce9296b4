-- ===== src/Examples/Usage.antt =====
-- Runs of the reconciler of internal/controllers/billing with a marketplace that counts its calls.
use universal_crossplane.Base.{
  ℕ, suc, String, ◌≡◌, ◌≢◌, refl, true, false, none, some, [], ◌∷◌, ok, ◌==◌, eqb, if◌then◌else◌,
  inr,
}
use universal_crossplane.Base.Dict.{Dict}
use universal_crossplane.Jwt.{Claim, str, num}
use universal_crossplane.Controllers.Kube.{NamespacedName, Secret, done}
use universal_crossplane.Controllers.Billing.Marketplace.{
  Metering, marketplace, register, verify, marketplace_product_code,
}
use universal_crossplane.Controllers.Billing.Reconcile.{Reader, reconcile, sync_period}

abbrev claims : Dict (Claim ℕ)
claims =
    ("productCode", str marketplace_product_code)
    ∷ ("nonce", str "uid")
    ∷ ("publicKeyVersion", num 1)
    ∷ []

-- The world is the number of registrations; the token of every one is signed.
abbrev metering : Metering
metering = record {
  World = ℕ;
  PublicKey = String;
  Float = ℕ;
  float_of = λ n. n;
  float_eq = eqb;
  print = λ c. "";
  register_usage = λ u w. (inr "signed", suc w);
  apply = λ s w. (none, w);
  parse_rsa_public_key_from_pem = ok;
  parse_with_claims = λ t k.
      if t == "signed"
      then record { token = some true; claims = claims; error = none }
      else record { token = some false; claims = []; error = none };
}

abbrev secret : Secret
secret = record {
  namespace = "upbound-system";
  name = "upbound-entitlement";
  labels = [];
  type_of = "Opaque";
  contents = none;
}

abbrev reader : Secret → Reader ℕ
reader s = record { get_secret = λ n w. (ok s, w); get_namespace_uid = λ n w. (ok "uid", w) }

abbrev req : NamespacedName
req = record { namespace = "upbound-system"; name = "upbound-entitlement" }

abbrev forged : Secret
forged = record secret { contents = some (("awsMeteringSignature", "forged") ∷ []) }

done_run : reconcile (reader secret) (marketplace metering "pem") req 0 ≡ (ok done, 1)
unfolding reconcile register verify
done_run = refl

later_run :
    reconcile (reader forged) (marketplace metering "pem") req 0
    ≡ (ok (record { requeue_after = sync_period }), 0)
unfolding reconcile register verify
later_run = refl

verify_run : verify metering "pem" "signed" "uid" ≡ ok true
unfolding verify
verify_run = refl

token_run : (register metering secret "uid" 0).token ≢ ""
unfolding register
token_run h = cc

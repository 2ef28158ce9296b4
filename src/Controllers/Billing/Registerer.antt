-- ===== src/Controllers/Billing/Registerer.antt =====
-- internal/controllers/billing/interfaces.go: what the reconciler asks of a registerer.
use universal_crossplane.Base.{String, Bool, true, Option, none, Error, Result, ok}
use universal_crossplane.Controllers.Kube.{Secret}

-- What `Register` returns, the secret as it leaves it, and the world.
pub record Registered (World : Type 0) : Type 0 where
  pub token : String
  pub error : Option Error
  pub secret : Secret
  pub world : World

-- `Registerer`, over the world that its calls change.
pub record Registerer (World : Type 0) : Type 0 where
  pub register : Secret → String → World → Registered World
  pub verify : String → String → Result Bool

-- `NopRegisterer`
abbrev pub nop_registerer : {World : Type 0} → Registerer World
nop_registerer = record {
  register = λ s uid w. record { token = ""; error = none; secret = s; world = w };
  verify = λ token uid. ok true;
}

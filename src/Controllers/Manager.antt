-- ===== src/Controllers/Manager.antt =====
-- What the controllers and the bootstrapper use of controller-runtime and of the AWS SDK.
use universal_crossplane.Base.{ℕ, String, Bool, Error}
use universal_crossplane.Base.Effects.{Eff}

-- Which reconciler a controller runs.
pub data Reconciles : Type 0 where
  tls_secrets entitlement : Reconciles

-- A controller of secrets: its name, the names of the secrets whose events pass its filter, and its
-- reconciler.
pub record Controller : Type 0 where
  pub name : String
  pub passes : String → Bool
  pub reconciles : Reconciles

pub record ManagerOptions : Type 0 where
  pub sync_period : ℕ
  pub namespace : String

-- `complete` adds a controller to the manager; `report` is `kong.Context.Errorf`, which prints.
pub record Manager : Type 1 where
  pub World : Type 0
  pub RestConfig : Type 0
  pub AwsConfig : Type 0
  pub add_to_scheme : Eff World (Unit {0})
  pub get_config : Eff World RestConfig
  pub new_manager : RestConfig → ManagerOptions → Eff World (Unit {0})
  pub load_default_config : Eff World AwsConfig
  pub complete : Controller → Eff World (Unit {0})
  pub report : Error → World → World
  pub start : Eff World (Unit {0})

-- ===== src/Controllers/TlsSecrets/Monad.antt =====
-- A method of the reconciler: it reads and writes the reconciler's fields and the world, and it
-- returns, fails or panics. What was written stays written.
pub mod Laws
pub use universal_crossplane.Base.Effects.{◌>>=◌, ◌>>◌, pure, lift, gets, modify, or_wrap}
use universal_crossplane.Base.Effects.{Eff}
use universal_crossplane.Base.{
  String, Option, none, some, Error, wrap, Result, ok, err, panic, wrapped,
}
use universal_crossplane.Controllers.Kube.{Secret}
use universal_crossplane.Controllers.TlsSecrets.Env.{Env, normal, warning}

-- `Reconciler`, with the world in place of its client and its recorder.
pub record Reconciler (E : Env) : Type 0 where
  pub ca_cert : Option E.Certificate
  pub ca_key : Option E.Signer
  pub world : E.World

-- `NewReconciler`: it holds no authority. The options set its logger and its recorder.
abbrev pub new_reconciler : (E : Env) → E.World → Reconciler E
new_reconciler E w = record { ca_cert = none; ca_key = none; world = w }

abbrev pub M : Env → Type 0 → Type 0
M E A = Eff (Reconciler E) A

module _ {E : Env} where
  abbrev pub effect : {A : Type 0} → (E.World → Result A × E.World) → M E A
  effect f r = let (x, w) = f r.world in (x, record r { world = w })

  abbrev report :
      {A : Type 0} → Secret → String → String → Result A × Reconciler E → Result A × Reconciler E
  report s reason msg (ok a, r) = (ok a, r)
  report s reason msg (err e, r) = (
    err (wrap e msg),
    record r {
      world =
          E.record_event s
            (record {
              event_type = warning;
              reason = reason;
              message = "";
              cause = some (wrap e msg);
            })
            r.world;
    },
  )
  report s reason msg (panic, r) = (panic, r)

  -- The same, with a warning about the secret.
  abbrev pub or_report : {A : Type 0} → Secret → String → String → M E A → M E A
  or_report s reason msg m r = report s reason msg (m r)

  -- `r.record.Event(s, event.Normal(reason, msg))`
  abbrev pub notify : Secret → String → String → M E (Unit {0})
  notify s reason msg = modify λ r. record r {
    world =
        E.record_event s
          (record { event_type = normal; reason = reason; message = msg; cause = none }) r.world;
  }

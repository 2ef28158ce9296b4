-- ===== src/Controllers/Billing/Reconcile/Laws.antt =====
-- When a reconciliation of the entitlement secret returns, and what it then has found.
use universal_crossplane.Base.{
  arith, String, ◌≡◌, refl, sym, ap, ◌↔◌, Bool, true, false, Option, none, some, Error, Result, ok,
  err, panic, ok-injective,
}
use universal_crossplane.Base.Effects.{err-ne-ok, panic-ne-ok}
use universal_crossplane.Controllers.Kube.{NamespacedName, Secret, ReconcileResult, done}
use universal_crossplane.Controllers.Billing.Registerer.{Registered, Registerer}
use universal_crossplane.Controllers.Billing.Marketplace.{Metering, register, marketplace}
use universal_crossplane.Controllers.Billing.Marketplace.Laws.{
  IsConfirmed, verify_iff, IsRegistered, register-IsRegistered,
}
use universal_crossplane.Controllers.Billing.Reconcile.{
  Reader, entitlement, sync_period, finish, verify_registered, with_uid, with_secret, reconcile,
}

-- The result for an answer of `Verify`: done, or again after the sync period.
abbrev pub verdict : Bool → ReconcileResult
verdict true = done
verdict false = record { requeue_after = sync_period }

finish-eq-ok :
    (x : Result Bool) {r : ReconcileResult}
    → finish x ≡ ok r
    → (b : Bool) × (x ≡ ok b) × (r ≡ verdict b)
unfolding finish
finish-eq-ok (ok true) h = (true, refl, sym (ok-injective h))
finish-eq-ok (ok false) h = (false, refl, sym (ok-injective h))
finish-eq-ok (err e) h = absurd (cc)
finish-eq-ok panic h = absurd (cc)

finish-ok : (b : Bool) → finish (ok b) ≡ ok (verdict b)
unfolding finish
finish-ok true = refl
finish-ok false = refl

verdict-injective : (a b : Bool) → verdict a ≡ verdict b → a ≡ b
verdict-injective true true h = refl
verdict-injective false false h = refl
verdict-injective true false h = absurd (ground (arith, ap (λ r. r.requeue_after) h))
verdict-injective false true h = absurd (ground (arith, ap (λ r. r.requeue_after) h))

module _ {World : Type 0} (K : Reader World) (reg : Registerer World) where
  -- The reads, the registration and the check of its token, none of which failed.
  pub record IsRun (req : NamespacedName) (w : World) (answer : Bool) (w' : World) : Type 0 where
    pub secret : Secret
    pub uid : String
    pub world_secret : World
    pub world_uid : World
    pub read_secret : K.get_secret (entitlement req) w ≡ (ok secret, world_secret)
    pub read_uid : K.get_namespace_uid "kube-system" world_secret ≡ (ok uid, world_uid)
    pub registered : (reg.register secret uid world_uid).error ≡ none
    pub verified : reg.verify (reg.register secret uid world_uid).token uid ≡ ok answer
    pub world : (reg.register secret uid world_uid).world ≡ w'

  abbrev IsVerdict : Registered World → String → Bool → World → Type 0
  IsVerdict t uid answer w' =
      (t.error ≡ none) × (reg.verify t.token uid ≡ ok answer) × (t.world ≡ w')

  verify_registered-eq_ok :
      (t : Registered World) (uid : String) (e : Option Error) {r : ReconcileResult} {w' : World}
      → t.error ≡ e
      → verify_registered K reg t uid e ≡ (ok r, w')
      → (answer : Bool) × (r ≡ verdict answer) × IsVerdict t uid answer w'
  unfolding verify_registered
  verify_registered-eq_ok t uid (some e) same h = absurd (err-ne-ok h)
  verify_registered-eq_ok t uid none same h =
      let (answer, verified, r) = finish-eq-ok (reg.verify t.token uid) (ap (λ o. o.0) h) in
      (answer, r, (same, verified, ap (λ o. o.1) h))

  with_uid-eq_ok :
      (s : Secret) (x : Result String) (w : World) {r : ReconcileResult} {w' : World}
      → with_uid K reg s x w ≡ (ok r, w')
      → (uid : String) × (x ≡ ok uid)
        × ((answer : Bool) × (r ≡ verdict answer) × IsVerdict (reg.register s uid w) uid answer w')
  unfolding with_uid
  with_uid-eq_ok s (ok uid) w h =
      (uid, refl, verify_registered-eq_ok (reg.register s uid w) uid _ refl h)
  with_uid-eq_ok s (err e) w h = absurd (err-ne-ok h)
  with_uid-eq_ok s panic w h = absurd (panic-ne-ok h)

  with_secret-eq_ok :
      (x : Result Secret) (w : World) {r : ReconcileResult} {w' : World}
      → with_secret K reg x w ≡ (ok r, w')
      → (s : Secret) × (x ≡ ok s)
        × (with_uid K reg s
              (K.get_namespace_uid "kube-system" w).0
              (K.get_namespace_uid "kube-system" w).1
            ≡ (ok r, w'))
  unfolding with_secret
  with_secret-eq_ok (ok s) w h = (s, refl, h)
  with_secret-eq_ok (err e) w h = absurd (err-ne-ok h)
  with_secret-eq_ok panic w h = absurd (panic-ne-ok h)

  pub reconcile-IsRun :
      (req : NamespacedName) (w w' : World) (r : ReconcileResult)
      → reconcile K reg req w ≡ (ok r, w')
      → (answer : Bool) × (r ≡ verdict answer) × IsRun req w answer w'
  unfolding reconcile
  reconcile-IsRun req w w' r h =
      let w1 = (K.get_secret (entitlement req) w).1 in
      let (s, read, rest) = with_secret-eq_ok (K.get_secret (entitlement req) w).0 w1 h in
      let (uid, read_uid, (answer, result, (registered, verified, world))) =
        with_uid-eq_ok s (K.get_namespace_uid "kube-system" w1).0 _ rest in
      (
        answer,
        result,
        record {
          secret = s;
          uid = uid;
          world_secret = w1;
          world_uid = (K.get_namespace_uid "kube-system" w1).1;
          read_secret = λ i. (read i, w1);
          read_uid = λ i. (read_uid i, (K.get_namespace_uid "kube-system" w1).1);
          registered = registered;
          verified = verified;
          world = world;
        },
      )

  pub IsRun-reconcile :
      (req : NamespacedName) (w w' : World) (answer : Bool)
      → IsRun req w answer w'
      → reconcile K reg req w ≡ (ok (verdict answer), w')
  unfolding reconcile with_secret with_uid verify_registered
  IsRun-reconcile req w w' answer run =
      rw (run.read_secret, run.read_uid, run.registered, run.verified, run.world, finish-ok answer)
        refl

  IsRun-reconcile_of :
      (req : NamespacedName) (w w' : World) (b : Bool)
      → reconcile K reg req w ≡ (ok (verdict b), w')
      → IsRun req w b w'
  IsRun-reconcile_of req w w' b h =
      let (answer, same, run) = reconcile-IsRun req w w' (verdict b) h in
      rw (verdict-injective b answer same) run

  -- With any registerer, a reconciliation is done without a retry exactly where the entitlement
  -- secret of the request's namespace and the UID of kube-system could be read, the registration
  -- with these gave no error, and its token was verified for that UID.
  pub reconcile-done_iff :
      (req : NamespacedName) (w w' : World)
      → (reconcile K reg req w ≡ (ok done, w')) ↔ IsRun req w true w'
  reconcile-done_iff req w w' = (IsRun-reconcile_of req w w' true, IsRun-reconcile req w w' true)

  -- With any registerer, a reconciliation is to be repeated after the sync period exactly where the
  -- two reads and the registration succeeded and the verification answered, without an error, that
  -- the token is not valid.
  pub reconcile-later_iff :
      (req : NamespacedName) (w w' : World)
      → (reconcile K reg req w ≡ (ok (record { requeue_after = sync_period }), w'))
        ↔ IsRun req w false w'
  reconcile-later_iff req w w' = (IsRun-reconcile_of req w w' false, IsRun-reconcile req w w' false)

-- What a reconciliation that is done has confirmed: the token that the entitlement secret of the
-- request's namespace had, or that was given for the UID of kube-system and then stored.
pub record IsEntitledBy (A : Metering) (K : Reader A.World) (public_key : String)
    (req : NamespacedName) (w : A.World) : Type 0 where
  pub secret : Secret
  pub uid : String
  pub token : String
  pub world_secret : A.World
  pub world_uid : A.World
  pub read_secret :
      K.get_secret (record { namespace = req.namespace; name = "upbound-entitlement" }) w
      ≡ (ok secret, world_secret)
  pub read_uid : K.get_namespace_uid "kube-system" world_secret ≡ (ok uid, world_uid)
  pub registered : IsRegistered A secret uid world_uid token
  pub confirmed : IsConfirmed A public_key token uid

-- With AWS Marketplace as the registerer, a reconciliation that is done without a retry has
-- confirmed the token of the entitlement secret, or the one that was given and stored for it.
pub reconcile-IsEntitledBy :
    (A : Metering) (K : Reader A.World) (public_key : String) (req : NamespacedName)
    (w w' : A.World)
    → reconcile K (marketplace A public_key) req w ≡ (ok done, w')
    → IsEntitledBy A K public_key req w
reconcile-IsEntitledBy A K public_key req w w' h =
    let run = (reconcile-done_iff K (marketplace A public_key) req w w').0 h in
    record {
      secret = run.secret;
      uid = run.uid;
      token = (register A run.secret run.uid run.world_uid).token;
      world_secret = run.world_secret;
      world_uid = run.world_uid;
      read_secret = run.read_secret;
      read_uid = run.read_uid;
      registered = register-IsRegistered A run.secret run.uid run.world_uid run.registered;
      confirmed = (verify_iff A public_key _ run.uid).0 run.verified;
    }

-- ===== src/Controllers/Billing/Reconcile/Registrations.antt =====
-- What one reconciliation registers with AWS Marketplace.
use mathlib.Core.Option.{some-injective}
use universal_crossplane.Base.{
  ℕ, suc, ◌≤◌, String, ◌≡◌, ◌≢◌, refl, sym, ap, ◌∙◌, ◌⊎◌, inl, inr, true, Option, none, some, Error,
  Result, ok, err, panic, arith, text-cases,
}
use universal_crossplane.Controllers.Kube.{NamespacedName, Secret, ReconcileResult, done}
use universal_crossplane.Controllers.Billing.Registerer.{Registered}
use universal_crossplane.Controllers.Billing.Marketplace.{
  Metering, UsageInput, marketplace, register, save_signature,
}
use universal_crossplane.Controllers.Billing.Marketplace.Laws.{
  parse, signature_of, verify_iff, register-registered, register-secret,
}
use universal_crossplane.Controllers.Billing.Reconcile.{
  Reader, entitlement, verify_registered, with_uid, with_secret, reconcile,
}
use universal_crossplane.Controllers.Billing.Reconcile.Laws.{reconcile-done_iff}
use universal_crossplane.Controllers.Billing.Reconcile.Repeat.{
  IsKept, registered_by, Run-stored, parse-ne-empty,
}

-- The number of registrations so far, which only a call of the metering service raises, by one.
pub record IsCounted (A : Metering) (K : Reader A.World) : Type 0 where
  pub calls : A.World → ℕ
  pub register-calls :
      (u : UsageInput) (w : A.World) → calls (A.register_usage u w).1 ≡ suc (calls w)
  pub apply-calls : (s : Secret) (w : A.World) → calls (A.apply s w).1 ≡ calls w
  pub get-calls : (n : NamespacedName) (w : A.World) → calls (K.get_secret n w).1 ≡ calls w
  pub uid-calls : (n : String) (w : A.World) → calls (K.get_namespace_uid n w).1 ≡ calls w

module _ (A : Metering) (K : Reader A.World) (I : IsKept A K) (C : IsCounted A K)
    (public_key : String) (req : NamespacedName) where
  open I use {stored}
  open C use {calls}

  abbrev pub reconciled : A.World → Result ReconcileResult × A.World
  reconciled = reconcile K (marketplace A public_key) req

  -- The entitlement secret that is stored has a signature.
  abbrev pub HasSignature : A.World → Type 0
  HasSignature w = (s : Secret) × (stored w (entitlement req) ≡ some s) × (signature_of A s ≢ "")

  save_signature-calls :
      (s : Secret) (answer : Error ⊎ String) (w : A.World)
      → calls (save_signature A s answer w).world ≡ calls w
  unfolding save_signature
  save_signature-calls s (inl e) w = refl
  save_signature-calls s (inr signature) w = C.apply-calls _ w

  register-calls :
      (s : Secret) (uid : String) (w : A.World) → calls (register A s uid w).world ≤ suc (calls w)
  unfolding register
  register-calls s uid w = elim (text-cases (signature_of A s) "") [
    | inl (empty, _) ↦ rw (empty, save_signature-calls, C.register-calls) (omega arith)
    | inr (given, _) ↦ rw given (omega arith)
  ]

  -- How a reconciliation ends: after one of its reads, or with the world of its registration.
  pub data Ends (w : A.World) : A.World → Type 0 where
    unread : Ends w (K.get_secret (entitlement req) w).1
    unidentified : Ends w (K.get_namespace_uid "kube-system" (K.get_secret (entitlement req) w).1).1
    registered :
        {v : A.World} (s : Secret) (uid : String)
        → (K.get_secret (entitlement req) w).0 ≡ ok s
        → (K.get_namespace_uid "kube-system" (K.get_secret (entitlement req) w).1).1 ≡ v
        → Ends w (register A s uid v).world

  verify_registered-world :
      (t : Registered A.World) (uid : String) (e : Option Error)
      → (verify_registered K (marketplace A public_key) t uid e).1 ≡ t.world
  unfolding verify_registered
  verify_registered-world t uid none = refl
  verify_registered-world t uid (some e) = refl

  with_uid-Ends :
      (w v : A.World) (s : Secret) (x : Result String)
      → (K.get_secret (entitlement req) w).0 ≡ ok s
      → (K.get_namespace_uid "kube-system" (K.get_secret (entitlement req) w).1).1 ≡ v
      → Ends w (with_uid K (marketplace A public_key) s x v).1
  unfolding with_uid
  with_uid-Ends w v s (ok uid) read same =
      rw (verify_registered-world (register A s uid v) uid (register A s uid v).error)
        (registered s uid read same)
  with_uid-Ends w v s (err e) read same = rw (← same) unidentified
  with_uid-Ends w v s panic read same = rw (← same) unidentified

  with_secret-Ends :
      (w : A.World) (x : Result Secret)
      → (K.get_secret (entitlement req) w).0 ≡ x
      → Ends w (with_secret K (marketplace A public_key) x (K.get_secret (entitlement req) w).1).1
  unfolding with_secret
  with_secret-Ends w (ok s) read = with_uid-Ends w _ s _ read refl
  with_secret-Ends w (err e) read = unread
  with_secret-Ends w panic read = unread

  pub reconcile-Ends : (w : A.World) → Ends w (reconciled w).1
  unfolding reconcile
  reconcile-Ends w = with_secret-Ends w _ refl

  -- What is stored, and the number of registrations, after the two reads.
  reads-stored :
      (w : A.World)
      → stored (K.get_namespace_uid "kube-system" (K.get_secret (entitlement req) w).1).1 ≡ stored w
  reads-stored w = I.uid-stored "kube-system" _ ∙ I.get-stored (entitlement req) w

  reads-calls :
      (w : A.World)
      → calls (K.get_namespace_uid "kube-system" (K.get_secret (entitlement req) w).1).1 ≡ calls w
  reads-calls w = C.uid-calls "kube-system" _ ∙ C.get-calls (entitlement req) w

  pub Ends-calls : {w w' : A.World} → Ends w w' → calls w' ≤ suc (calls w)
  Ends-calls {w} unread = rw C.get-calls (omega arith)
  Ends-calls {w} unidentified = rw reads-calls (omega arith)
  Ends-calls {w} (registered {v = v} s uid read same) =
      let first = register-calls s uid v in
      let before : calls v ≡ calls w = ap calls (sym same) ∙ reads-calls w in omega arith

  -- With a signature, a reconciliation leaves the secret and registers nothing.
  pub Ends-HasSignature :
      {w w' : A.World} → Ends w w' → HasSignature w → (stored w' ≡ stored w) × (calls w' ≡ calls w)
  Ends-HasSignature {w} unread has = (I.get-stored (entitlement req) w, C.get-calls _ w)
  Ends-HasSignature {w} unidentified has = (reads-stored w, reads-calls w)
  Ends-HasSignature {w} (registered {v = v} s uid read same) (t, there, given) =
      let found =
        (I.get-ok (entitlement req) w (λ i. (read i, (K.get_secret (entitlement req) w).1))).0 in
      let is : t ≡ s = some-injective t s (sym there ∙ found) in
      let quiet = ap (λ o. o.world) (register-registered A s uid v (rw is at given)) in
      (ap stored (quiet ∙ sym same) ∙ reads-stored w, ap calls (quiet ∙ sym same) ∙ reads-calls w)

  pub confirmed-HasSignature :
      (w w' : A.World)
      → (parse A public_key "").token ≢ some true
      → reconciled w ≡ (ok done, w')
      → HasSignature w'
  confirmed-HasSignature w w' no_empty h =
      let run = (reconcile-done_iff K (marketplace A public_key) req w w').0 h in
      let t = registered_by A K I public_key run in
      let given =
        parse-ne-empty A K I public_key no_empty
          ((verify_iff A public_key t.token run.uid).0 run.verified) in
      (
        t.secret,
        Run-stored A K I public_key run,
        rw (register-secret A run.secret run.uid run.world_uid given) given,
      )

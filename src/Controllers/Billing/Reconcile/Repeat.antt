-- ===== src/Controllers/Billing/Reconcile/Repeat.antt =====
-- That the entitlement is registered with AWS Marketplace once.
use mathlib.Core.Option.{some-injective}
use universal_crossplane.Base.{
  String, ◌≡◌, ◌≢◌, refl, sym, ap, ◌∙◌, ◌⊎◌, inl, inr, true, wrap_nil, Option, none, some, Error,
  ok, text-cases,
}
use universal_crossplane.Base.Dict.{get_text, insert}
use universal_crossplane.Controllers.Kube.{NamespacedName, Secret, key_of, entries, done}
use universal_crossplane.Controllers.Billing.Registerer.{Registered}
use universal_crossplane.Controllers.Billing.Marketplace.{
  Metering, marketplace, register, save_signature, secret_key_aws_metering_signature,
}
use universal_crossplane.Controllers.Billing.Marketplace.Laws.{
  IsConfirmed, parse, verify_iff, register_again,
}
use universal_crossplane.Controllers.Billing.Reconcile.{Reader, entitlement, reconcile}
use universal_crossplane.Controllers.Billing.Reconcile.Laws.{
  IsRun, reconcile-done_iff, IsRun-reconcile,
}

-- What is assumed of the API server: a read that succeeds returns the secret that is stored, and an
-- applied secret is stored under its name.
pub record IsKept (A : Metering) (K : Reader A.World) : Type 0 where
  pub stored : A.World → NamespacedName → Option Secret
  pub get-ok :
      (n : NamespacedName) (w : A.World) {s : Secret} {w' : A.World}
      → K.get_secret n w ≡ (ok s, w')
      → (stored w n ≡ some s) × (key_of s ≡ n)
  pub get-stored : (n : NamespacedName) (w : A.World) → stored (K.get_secret n w).1 ≡ stored w
  pub uid-stored : (n : String) (w : A.World) → stored (K.get_namespace_uid n w).1 ≡ stored w
  pub apply-ok :
      (s : Secret) (w : A.World) {w' : A.World}
      → A.apply s w ≡ (none, w')
      → stored w' (key_of s) ≡ some s

module _ (A : Metering) (K : Reader A.World) (I : IsKept A K) (public_key : String) where
  open I use {stored}

  abbrev Signed : Registered A.World → Type 0
  Signed t = (stored t.world (key_of t.secret) ≡ some t.secret)

  wrap_nil-eq_none : (msg : String) (e : Option Error) → wrap_nil msg e ≡ none → e ≡ none
  wrap_nil-eq_none msg none h = refl
  wrap_nil-eq_none msg (some e) h = absurd (cc h)

  -- The secret that is applied.
  abbrev signed_secret : Secret → String → Secret
  signed_secret s signature = record s {
    contents = some (insert secret_key_aws_metering_signature signature (entries s.contents));
  }

  save_signature-stored :
      (s : Secret) (answer : Error ⊎ String) (w : A.World)
      → (save_signature A s answer w).error ≡ none
      → Signed (save_signature A s answer w)
        × (key_of (save_signature A s answer w).secret ≡ key_of s)
  unfolding save_signature
  save_signature-stored s (inl e) w h = absurd (cc h)
  save_signature-stored s (inr signature) w h = (
    I.apply-ok (signed_secret s signature) w (λ i. (
      wrap_nil-eq_none "cannot apply entitlement secret" (A.apply (signed_secret s signature) w).0 h
          i,
      (A.apply (signed_secret s signature) w).1,
    )),
    refl,
  )

  pub parse-ne-empty :
      {token uid : String}
      → (parse A public_key "").token ≢ some true
      → IsConfirmed A public_key token uid
      → token ≢ ""
  parse-ne-empty no_empty c empty = no_empty (rw empty at c.accepted)

  register-stored :
      (s : Secret) (uid : String) (w : A.World)
      → stored w (key_of s) ≡ some s
      → (register A s uid w).error ≡ none
      → Signed (register A s uid w) × (key_of (register A s uid w).secret ≡ key_of s)
  unfolding register
  register-stored s uid w there h =
      elim (text-cases (get_text secret_key_aws_metering_signature (entries s.contents)) "") [
        | inl (empty, _) ↦ rw empty (save_signature-stored s _ _ (rw empty at h))
        | inr (given, _) ↦ rw given (there, refl)
      ]

  abbrev pub Run : NamespacedName → A.World → A.World → Type 0
  Run req w w' = IsRun K (marketplace A public_key) req w true w'

  -- The token of a run.
  abbrev pub registered_by :
      {req : NamespacedName} {w w' : A.World} → Run req w w' → Registered A.World
  registered_by run = register A run.secret run.uid run.world_uid

  -- A run leaves the secret of its registration.
  pub Run-stored :
      {req : NamespacedName} {w w' : A.World} (run : Run req w w')
      → stored w' (entitlement req) ≡ some (registered_by run).secret
  Run-stored {req = req} {w = w} run =
      let (there, key) = I.get-ok (entitlement req) w run.read_secret in
      let same : stored run.world_uid ≡ stored w =
        ap (λ o. stored o.1) (sym run.read_uid)
        ∙ I.uid-stored "kube-system" run.world_secret
        ∙ ap (λ o. stored o.1) (sym run.read_secret)
        ∙ I.get-stored (entitlement req) w in
      let at_uid : stored run.world_uid (key_of run.secret) ≡ some run.secret =
        rw (same, key) there in
      let (saved, name) = register-stored run.secret run.uid run.world_uid at_uid run.registered in
      rw (← run.world, ← name ∙ key) saved

  Run-again :
      {req : NamespacedName} {w w' : A.World} (run : Run req w w') (v u : A.World) (x : A.World)
      → (parse A public_key "").token ≢ some true
      → K.get_secret (entitlement req) v ≡ (ok (registered_by run).secret, u)
      → K.get_namespace_uid "kube-system" u ≡ (ok run.uid, x)
      → Run req v x
  Run-again run v u x no_empty read read_uid =
      let t = registered_by run in
      let confirmed = (verify_iff A public_key t.token run.uid).0 run.verified in
      let again =
        register_again A run.secret run.uid run.uid run.world_uid x
          (parse-ne-empty no_empty confirmed) in
      record {
        secret = t.secret;
        uid = run.uid;
        world_secret = u;
        world_uid = x;
        read_secret = read;
        read_uid = read_uid;
        registered = rw again refl;
        verified = rw again run.verified;
        world = rw again refl;
      }

  -- With AWS Marketplace as the registerer, an API server that keeps the applied secret, and a
  -- parser that does not take the empty token as valid: after a reconciliation that is done without
  -- a retry, where the entitlement secret has stayed, its read succeeds and the UID of kube-system
  -- is the same, a further reconciliation is done too, and it does no more than the two reads, so
  -- that the usage is not registered again.
  pub reconcile_once :
      (req : NamespacedName) (w w' v u : A.World) (s : Secret)
      → (parse A public_key "").token ≢ some true
      → reconcile K (marketplace A public_key) req w ≡ (ok done, w')
      → stored v (entitlement req) ≡ stored w' (entitlement req)
      → K.get_secret (entitlement req) v ≡ (ok s, u)
      → (K.get_namespace_uid "kube-system" u).0
        ≡ (K.get_namespace_uid "kube-system" (K.get_secret (entitlement req) w).1).0
      → reconcile K (marketplace A public_key) req v
        ≡ (ok done, (K.get_namespace_uid "kube-system" u).1)
  reconcile_once req w w' v u s no_empty h kept read same_uid =
      let run = (reconcile-done_iff K (marketplace A public_key) req w w').0 h in
      let same : s ≡ (registered_by run).secret =
        some-injective s _ (sym (I.get-ok (entitlement req) v read).0 ∙ kept ∙ Run-stored run) in
      let uid_read : (K.get_namespace_uid "kube-system" u).0 ≡ ok run.uid =
        same_uid
        ∙ ap (λ o. (K.get_namespace_uid "kube-system" o.1).0) run.read_secret
        ∙ ap (λ o. o.0) run.read_uid in
      IsRun-reconcile K (marketplace A public_key) req v (K.get_namespace_uid "kube-system" u).1
        true
        (Run-again run v u (K.get_namespace_uid "kube-system" u).1 no_empty (rw same at read)
          (λ i. (uid_read i, (K.get_namespace_uid "kube-system" u).1)))

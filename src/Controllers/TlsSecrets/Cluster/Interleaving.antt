-- ===== src/Controllers/TlsSecrets/Cluster/Interleaving.antt =====
-- Any number of reconcilers at once, in other bootstrappers too, whose calls to the API server
-- interleave.
use universal_crossplane.Base.{ℕ, String, ◌≡◌, ◌≢◌, true, Option, Result, ok, eqb, if◌then◌else◌}
use universal_crossplane.Base.Dict.{get_text}
use universal_crossplane.Controllers.Kube.{NamespacedName, Secret, entries}
use universal_crossplane.Controllers.TlsSecrets.Env.{Env, key_tls_cert}
use universal_crossplane.Controllers.TlsSecrets.Store.{IsStore}
use universal_crossplane.Controllers.TlsSecrets.Monad.{Reconciler}
use universal_crossplane.Controllers.TlsSecrets.Setup.{watches}
use universal_crossplane.Controllers.TlsSecrets.Reconcile.{ca_name, load_or_generate, issue}
use universal_crossplane.Controllers.TlsSecrets.Cluster.{at, IsBlank}

module _ (E : Env) where
  -- Where a reconciliation is between its calls: it has not begun, it has read its secret without a
  -- certificate, it has asked for the authority, or it has loaded or made one.
  pub data Local : Type 0 where
    idle : Local
    found : String → Secret → Local
    asked : String → Secret → Result Secret → Local
    loaded : String → Secret → Option E.Certificate → Option E.Signer → Local

  -- The reconcilers by their numbers, and the world that they share.
  pub record State : Type 0 where
    pub locals : ℕ → Local
    pub world : E.World

  abbrev pub moved : State → ℕ → Local → E.World → State
  moved z i l w = record { locals = λ j. if eqb j i then l else z.locals j; world = w }

module _ (E : Env) (S : IsStore E) (namespace : String) where
  open S use {stored}

  -- A step has one call that reads or writes secrets. A reconciliation that fails, is done or is
  -- given up at a restart is idle again.
  pub data Step (z : State E) : State E → Type 0 where
    reads :
        (i : ℕ) (name : String) (s : Secret) {w : E.World}
        → z.locals i ≡ idle
        → watches name ≡ true
        → E.get_secret (at namespace name) z.world ≡ (ok s, w)
        → get_text key_tls_cert (entries s.contents) ≡ ""
        → Step z (moved E z i (found name s) w)
    asks :
        (i : ℕ) (name : String) (s : Secret)
        → z.locals i ≡ found name s
        → Step z (
            moved E z i
              (asked name s (E.get_secret (ca_name namespace) z.world).0)
              (E.get_secret (ca_name namespace) z.world).1)
    loads :
        (i : ℕ) (name : String) (s : Secret) (got : Result Secret) (q : Reconciler E)
        {r : Reconciler E}
        → z.locals i ≡ asked name s got
        → q.world ≡ z.world
        → load_or_generate E namespace got q ≡ (ok tt, r)
        → Step z (moved E z i (loaded name s r.ca_cert r.ca_key) r.world)
    fails :
        (i : ℕ) (name : String) (s : Secret) (got : Result Secret) (q : Reconciler E)
        → z.locals i ≡ asked name s got
        → q.world ≡ z.world
        → Step z (moved E z i idle (load_or_generate E namespace got q).1.world)
    issues :
        (i : ℕ) (name : String) (s : Secret) (q : Reconciler E)
        → z.locals i ≡ loaded name s q.ca_cert q.ca_key
        → q.world ≡ z.world
        → Step z (moved E z i idle (issue E (at namespace name) s q.ca_cert q.ca_key q).1.world)
    restarted : (i : ℕ) → Step z (moved E z i idle z.world)
    elapsed : (w : E.World) → stored w ≡ stored z.world → Step z (record z { world = w })
    upgraded :
        (name : String) (w : E.World)
        → watches name ≡ true
        → IsBlank namespace name (stored w)
        → ((n : NamespacedName) → n ≢ at namespace name → stored w n ≡ stored z.world n)
        → Step z (record z { world = w })

  -- A read may be answered from a cache, with what was stored in another state that steps from the
  -- beginning lead to, such as an earlier one.
  pub data Steps (z : State E) : State E → Type 0 where
    start : Steps z z
    after : {y x : State E} → Steps z y → Step y x → Steps z x
    cached_reads :
        {y x : State E} (i : ℕ) (name : String) (s : Secret) {w : E.World}
        → Steps z y
        → Steps z x
        → x.locals i ≡ idle
        → watches name ≡ true
        → E.get_secret (at namespace name) y.world ≡ (ok s, w)
        → get_text key_tls_cert (entries s.contents) ≡ ""
        → Steps z (moved E x i (found name s) x.world)
    cached_asks :
        {y x : State E} (i : ℕ) (name : String) (s : Secret)
        → Steps z y
        → Steps z x
        → x.locals i ≡ found name s
        → Steps z (moved E x i (asked name s (E.get_secret (ca_name namespace) y.world).0) x.world)

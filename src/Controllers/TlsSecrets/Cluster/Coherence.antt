-- ===== src/Controllers/TlsSecrets/Cluster/Coherence.antt =====
-- That certificates stay backed by the authority whatever interleaves.
use mathlib.Core.Option.{some-injective, none-ne-some}
use universal_crossplane.Base.{
  ℕ, String, ◌≡◌, refl, sym, ap, ◌∙◌, inl, inr, true, some, Result, ok, err, panic, eqb-cases,
  Bool-cases,
}
use universal_crossplane.Controllers.Kube.{Secret, key_of}
use universal_crossplane.Controllers.TlsSecrets.Env.{Env}
use universal_crossplane.Controllers.TlsSecrets.Store.{IsStore}
use universal_crossplane.Controllers.TlsSecrets.Monad.{Reconciler}
use universal_crossplane.Controllers.TlsSecrets.SecretData.Laws.{IsLawful}
use universal_crossplane.Controllers.TlsSecrets.Setup.{watches, watches-ne_ca}
use universal_crossplane.Controllers.TlsSecrets.Reconcile.{ca_name, load_or_generate, issue}
use universal_crossplane.Controllers.TlsSecrets.Reconcile.Authority.{IsAuthority, HoldsAuthority}
use universal_crossplane.Controllers.TlsSecrets.Reconcile.Issuing.{issue-Puts}
use universal_crossplane.Controllers.TlsSecrets.Cluster.{View, at, IsAtomic, IsBacked, Puts}
use universal_crossplane.Controllers.TlsSecrets.Cluster.Stable.{HasCert, IsSound, Puts-IsSound}
use universal_crossplane.Controllers.TlsSecrets.Cluster.Histories.{upgraded-IsSound}
use universal_crossplane.Controllers.TlsSecrets.Cluster.Answers.{
  IsAnswer, answer-loads, answer-quiet,
}
use universal_crossplane.Controllers.TlsSecrets.Cluster.Interleaving.{
  Local, idle, found, asked, loaded, State, moved, Step, reads, asks, loads, fails, issues,
  restarted, elapsed, upgraded, Steps, start, after, cached_reads, cached_asks,
}

module _ (E : Env) (S : IsStore E) (namespace : String) (L : IsLawful E) (T : IsAtomic E S)
    {cas : Secret} {c : E.Certificate} {k : E.Signer} (authority : IsAuthority E cas c k) where
  open S use {stored}

  abbrev IsOf : String → Secret → Type 0
  IsOf name s = (watches name ≡ true) × (key_of s ≡ at namespace name)

  abbrev Fits : Local E → Type 0
  Fits idle = Unit {0}
  Fits (found name s) = IsOf name s
  Fits (asked name s got) = IsOf name s × IsAnswer E S namespace L T authority got
  Fits (loaded name s ca_cert ca_key) = IsOf name s × (ca_cert ≡ some c) × (ca_key ≡ some k)

  -- The authority is stored, the certificates are its, and every reconciler has it.
  record IsCoherent (z : State E) : Type 0 where
    pub saved : stored z.world (ca_name namespace) ≡ some cas
    pub sound : IsSound E S namespace (stored z.world)
    pub fits : (i : ℕ) → Fits (z.locals i)

  moved-Fits :
      (z : State E) (i : ℕ) (l : Local E) (w : E.World)
      → ((j : ℕ) → Fits (z.locals j))
      → Fits l
      → (j : ℕ) → Fits ((moved E z i l w).locals j)
  moved-Fits z i l w all new j = elim (eqb-cases j i) [
    | inl (same, _) ↦ rw same new
    | inr (other, _) ↦ rw other (all j)
  ]

  -- A step that leaves the secrets.
  stays-IsCoherent :
      (z : State E) (i : ℕ) (l : Local E) (w : E.World)
      → stored w ≡ stored z.world
      → Fits l
      → IsCoherent z
      → IsCoherent (moved E z i l w)
  stays-IsCoherent z i l w same new h = record {
    saved = ap (λ f. f (ca_name namespace)) same ∙ h.saved;
    sound = rw same h.sound;
    fits = moved-Fits z i l w h.fits new;
  }

  read-IsAnswer :
      (z : State E)
      → IsCoherent z
      → (o : Result Secret × E.World) → E.get_secret (ca_name namespace) z.world ≡ o
      → IsAnswer E S namespace L T authority o.0
  read-IsAnswer z h (ok s, w) got =
      some-injective s cas (sym (S.get-ok (ca_name namespace) z.world got).0 ∙ h.saved)
  read-IsAnswer z h (err e, w) got = elim (Bool-cases (E.is_not_found e)) [
    | inl missing ↦
        absurd
          (none-ne-some cas (sym (T.get-missing (ca_name namespace) z.world got missing) ∙ h.saved))
    | inr failed ↦ failed
  ]
  read-IsAnswer z h (panic, w) got = tt

  Puts-ca :
      (name : String) {v v' : View}
      → watches name ≡ true
      → Puts E S namespace name v v'
      → v' (ca_name namespace) ≡ v (ca_name namespace)
  Puts-ca name watched (inl same) = ap (λ f. f (ca_name namespace)) same
  Puts-ca name watched (inr (s, backed, (written, kept))) =
      kept (ca_name namespace) (λ e. watches-ne_ca name watched (sym (ap (λ n. n.name) e)))

  -- What a reconciler that has the authority puts is backed by it.
  issue-IsCoherent :
      (z : State E) (i : ℕ) (name : String) (s : Secret) (q : Reconciler E)
      → z.locals i ≡ loaded name s q.ca_cert q.ca_key
      → q.world ≡ z.world
      → IsCoherent z
      → IsCoherent (moved E z i idle (issue E (at namespace name) s q.ca_cert q.ca_key q).1.world)
  issue-IsCoherent z i name s q there same h =
      let ((watched, key), has_cert, has_key) : Fits (loaded name s q.ca_cert q.ca_key) =
        rw there at (h.fits i) in
      let saved_q : stored q.world (ca_name namespace) ≡ some cas = rw same h.saved in
      let held : HoldsAuthority E L S namespace q = record {
        cas = cas;
        cert = c;
        key = k;
        authority = authority;
        saved = saved_q;
        holds_cert = has_cert;
        holds_key = has_key;
      } in
      let puts = issue-Puts E L S T namespace name (stored q.world) s q key held refl in
      let before : IsSound E S namespace (stored q.world) = rw same h.sound in
      record {
        saved = Puts-ca name watched puts ∙ saved_q;
        sound = Puts-IsSound E S namespace name watched puts before;
        fits =
            moved-Fits z i idle (issue E (at namespace name) s q.ca_cert q.ca_key q).1.world h.fits
              tt;
      }

  Step-IsCoherent : {z y : State E} → Step E S namespace z y → IsCoherent z → IsCoherent y
  Step-IsCoherent {z} (reads i name s {w = w} there watched got blank) h =
      stays-IsCoherent z i (found name s) w
        (ap (λ o. stored o.1) (sym got) ∙ S.get-stored (at namespace name) z.world)
        (watched, (S.get-ok (at namespace name) z.world got).1) h
  Step-IsCoherent {z} (asks i name s there) h =
      let of : IsOf name s = rw there at (h.fits i) in
      stays-IsCoherent z i (asked name s (E.get_secret (ca_name namespace) z.world).0)
        (E.get_secret (ca_name namespace) z.world).1 (S.get-stored (ca_name namespace) z.world)
        (of, read-IsAnswer z h (E.get_secret (ca_name namespace) z.world) refl) h
  Step-IsCoherent {z} (loads i name s got q {r = r} there same made) h =
      let (of, answer) : Fits (asked name s got) = rw there at (h.fits i) in
      let (has_cert, has_key) = answer-loads E S namespace L T authority got q r answer made in
      let quiet =
        ap (λ o. o.1.world) (sym made)
        ∙ answer-quiet E S namespace L T authority got q answer
        ∙ same in
      stays-IsCoherent z i (loaded name s r.ca_cert r.ca_key) r.world (ap stored quiet)
        (of, has_cert, has_key) h
  Step-IsCoherent {z} (fails i name s got q there same) h =
      let (of, answer) : Fits (asked name s got) = rw there at (h.fits i) in
      stays-IsCoherent z i idle (load_or_generate E namespace got q).1.world
        (ap stored (answer-quiet E S namespace L T authority got q answer ∙ same)) tt h
  Step-IsCoherent {z} (issues i name s q there same) h = issue-IsCoherent z i name s q there same h
  Step-IsCoherent {z} (restarted i) h = stays-IsCoherent z i idle z.world refl tt h
  Step-IsCoherent {z} (elapsed w same) h = record {
    saved = ap (λ f. f (ca_name namespace)) same ∙ h.saved;
    sound = rw same h.sound;
    fits = h.fits;
  }
  Step-IsCoherent {z} (upgraded name w watched blank kept) h = record {
    saved =
        kept (ca_name namespace) (λ e. watches-ne_ca name watched (sym (ap (λ n. n.name) e)))
        ∙ h.saved;
    sound =
        upgraded-IsSound E S namespace name (stored z.world) (stored w) watched blank kept h.sound;
    fits = h.fits;
  }

  Steps-IsCoherent : {z y : State E} → Steps E S namespace z y → IsCoherent z → IsCoherent y
  Steps-IsCoherent start h = h
  Steps-IsCoherent (after before last) h = Step-IsCoherent last (Steps-IsCoherent before h)
  Steps-IsCoherent (cached_reads {y = y} {x = x} i name s other before there watched got blank) h =
      stays-IsCoherent x i (found name s) x.world refl
        (watched, (S.get-ok (at namespace name) y.world got).1) (Steps-IsCoherent before h)
  Steps-IsCoherent (cached_asks {y = y} {x = x} i name s other before there) h =
      let now = Steps-IsCoherent before h in
      let of : IsOf name s = rw there at (now.fits i) in
      let got = E.get_secret (ca_name namespace) y.world in
      stays-IsCoherent x i (asked name s got.0) x.world refl
        (of, read-IsAnswer y (Steps-IsCoherent other h) got refl) now

  -- With lawful PEM coders and an API server that keeps secrets and whose failed writes have
  -- happened or not, let an authority that can be read be stored, and let every watched secret that
  -- has a certificate have one of that authority. Then, however the calls of any number of
  -- reconcilers that begin idle interleave, with reads that may be answered with what was stored in
  -- another state that steps from the beginning lead to, and with restarts, time, and writes by
  -- others that leave a watched secret without a certificate and the other secrets as they are
  -- between them, the authority stays, and a watched secret that has a certificate has one that is
  -- made from the template for its name by that authority's key, and holds that authority's
  -- certificate.
  pub interleaving-IsBacked :
      (z y : State E) (name : String) (s : Secret)
      → stored z.world (ca_name namespace) ≡ some cas
      → IsSound E S namespace (stored z.world)
      → ((i : ℕ) → z.locals i ≡ idle)
      → Steps E S namespace z y
      → watches name ≡ true
      → stored y.world (at namespace name) ≡ some s
      → HasCert s
      → (stored y.world (ca_name namespace) ≡ some cas)
        × IsBacked E S namespace name (stored y.world) s
  interleaving-IsBacked z y name s saved sound all_idle steps watched there has_cert =
      let first : IsCoherent z = record {
        saved = saved;
        sound = sound;
        fits = λ i. rw (all_idle i) tt;
      } in
      let last = Steps-IsCoherent steps first in
      (last.saved, last.sound name s watched there has_cert)

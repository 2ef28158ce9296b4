-- ===== src/Controllers/TlsSecrets/Cluster/Refinement.antt =====
-- That `Reconcile`, whatever it returns, does to the stored secrets only what the specification of
-- the cluster allows.
use mathlib.Core.Option.{some-injective}
use universal_crossplane.Base.{
  true, String, ◌≡◌, ◌≢◌, refl, sym, ap, ◌∙◌, inl, inr, some, text-cases,
}
use universal_crossplane.Base.Effects.{or_wrap}
use universal_crossplane.Base.Effects.Always.{>>=-ensures}
use universal_crossplane.Base.Dict.{get_text}
use universal_crossplane.Controllers.Kube.{Secret, key_of, entries}
use universal_crossplane.Controllers.TlsSecrets.Env.{Env, Event, key_tls_cert, secret_name_ca}
use universal_crossplane.Controllers.TlsSecrets.Store.{IsStore}
use universal_crossplane.Controllers.TlsSecrets.Monad.{Reconciler, effect}
use universal_crossplane.Controllers.TlsSecrets.Monad.Laws.{or_report->>=-always, or_wrap-eq-ok}
use universal_crossplane.Controllers.TlsSecrets.SecretData.Laws.{IsLawful}
use universal_crossplane.Controllers.TlsSecrets.Issue.Quiet.{Stays}
use universal_crossplane.Controllers.TlsSecrets.Setup.{watches, watches-ne_ca}
use universal_crossplane.Controllers.TlsSecrets.Reconcile.{
  create_or_load_ca, skip, generate, reconcile,
}
use universal_crossplane.Controllers.TlsSecrets.Reconcile.Authority.{
  create_or_load_ca-HoldsAuthority,
}
use universal_crossplane.Controllers.TlsSecrets.Reconcile.Founding.{create_or_load_ca-Founds}
use universal_crossplane.Controllers.TlsSecrets.Reconcile.Issuing.{issue-Issued}
use universal_crossplane.Controllers.TlsSecrets.Cluster.{
  View, at, IsBlank, IsAtomic, Founds, Refines,
}

module _ (E : Env) (L : IsLawful E) (S : IsStore E) (T : IsAtomic E S) where
  open S use {stored}

  module _ (namespace name : String) (v : View) where
    abbrev Refined : Reconciler E → Type 0
    Refined r = Refines E S namespace name v (stored r.world)

    stays-Refined : (r : Reconciler E) → stored r.world ≡ v → Refined r
    stays-Refined r p = record { middle = v; founds = inl refl; issues = inl p }

    founded-Refined : (r : Reconciler E) → Founds E S namespace v (stored r.world) → Refined r
    founded-Refined r f = record { middle = stored r.world; founds = f; issues = inl refl }

    Refined-event :
        (s : Secret) (r : Reconciler E) (e : Event)
        → Refined r
        → Refined (record r { world = E.record_event s e r.world })
    Refined-event s r e p = rw (S.event-stored s e r.world) p

    -- A new authority leaves the other secrets.
    pub founded-kept :
        (v' : View)
        → name ≢ secret_name_ca
        → Founds E S namespace v v'
        → v' (at namespace name) ≡ v (at namespace name)
    founded-kept v' not_ca (inl same) = ap (λ f. f (at namespace name)) same
    founded-kept v' not_ca (inr (cas, unusable, (saved, kept))) =
        kept (at namespace name) (λ e. not_ca (ap (λ n. n.name) e))

    generate-Refined :
        (s : Secret) (q : Reconciler E)
        → name ≢ secret_name_ca
        → key_of s ≡ at namespace name
        → get_text key_tls_cert (entries s.contents) ≡ ""
        → v (at namespace name) ≡ some s
        → Stays E S v q
        → Refined (generate E (at namespace name) s q).1
    unfolding generate
    generate-Refined s q not_ca same empty there p =
        let founds = create_or_load_ca-Founds E S T namespace v q p in
        or_report->>=-always Refined s "InitializingCA" "failed to initialize ca"
          (create_or_load_ca E namespace) _ q (Refined-event s)
          (founded-Refined (create_or_load_ca E namespace q).1 founds)
          (λ u r h.
            let founds_r : Founds E S namespace v (stored r.world) =
              rw (← ap (λ o. stored o.1.world) h) founds in
            let there_r = founded-kept (stored r.world) not_ca founds_r ∙ there in
            let blank : IsBlank namespace name (stored r.world) =
              λ t saved. rw (some-injective t s (sym saved ∙ there_r)) empty in
            record {
              middle = stored r.world;
              founds = founds_r;
              issues =
                  issue-Issued E L S T namespace name (stored r.world) s r same blank
                    (create_or_load_ca-HoldsAuthority E L S namespace q r h) refl;
            })

    reconcile-Refined :
        (q : Reconciler E)
        → name ≢ secret_name_ca
        → Stays E S v q
        → Refined (reconcile E (at namespace name) q).1
    unfolding reconcile skip
    reconcile-Refined q not_ca p =
        let n = at namespace name in
        let read = or_wrap "failed to get cert secret" (effect (E.get_secret n)) in
        >>=-ensures Refined read _ q (stays-Refined (read q).1 (S.get-stored n q.world ∙ p))
          (λ s r h.
            let got = or_wrap-eq-ok "failed to get cert secret" (effect (E.get_secret n)) q h in
            let same : stored r.world ≡ v =
              ap (λ o. stored o.1.world) (sym got) ∙ S.get-stored n q.world ∙ p in
            let (there, key) = S.get-ok n q.world (λ i. ((got i).0, (got i).1.world)) in
            elim (text-cases (get_text key_tls_cert (entries s.contents)) "") [
              | inl (blank, empty) ↦
                  rw blank
                    (generate-Refined s r not_ca key empty (ap (λ f. f n) (sym p) ∙ there) same)
              | inr (given, _) ↦ rw given (Refined-event s r _ (stays-Refined r same))
            ])

  -- With lawful PEM coders and an API server that keeps secrets and whose failed writes have
  -- happened or not, a reconciliation of a watched name, whatever it returns, does to the stored
  -- secrets of the namespace only what the specification allows: first it stores a new authority,
  -- where no authority with a key is stored, or nothing; then it gives the secret of the name,
  -- where that has no certificate, one that is signed, for the configuration of the name, by the
  -- authority that is then stored, or nothing.
  pub reconcile-Refines :
      (namespace name : String) (q : Reconciler E)
      → watches name ≡ true
      → Refines E S namespace name
          (stored q.world)
          (stored (reconcile E (at namespace name) q).1.world)
  reconcile-Refines namespace name q watched =
      reconcile-Refined namespace name (stored q.world) q (watches-ne_ca name watched) refl

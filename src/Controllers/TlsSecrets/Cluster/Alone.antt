-- ===== src/Controllers/TlsSecrets/Cluster/Alone.antt =====
-- That a reconciliation whose calls stand together is a sequence of steps.
use universal_crossplane.Base.{
  ℕ, String, ◌≡◌, refl, sym, ap, ◌∙◌, inl, inr, true, Result, ok, eqb, if◌then◌else◌, text-cases,
  eqb-cases,
}
use universal_crossplane.Base.Dict.{get_text}
use universal_crossplane.Controllers.Kube.{Secret, entries}
use universal_crossplane.Controllers.TlsSecrets.Env.{Env, Event, key_tls_cert, err_get_secret}
use universal_crossplane.Controllers.TlsSecrets.Store.{IsStore}
use universal_crossplane.Base.Effects.Always.{>>=-ensures}
use universal_crossplane.Controllers.TlsSecrets.Monad.{Reconciler, effect, or_wrap}
use universal_crossplane.Controllers.TlsSecrets.Monad.Laws.{
  or_report->>=-always, or_wrap-effect-eq-ok,
}
use universal_crossplane.Controllers.TlsSecrets.Setup.{watches}
use universal_crossplane.Controllers.TlsSecrets.Reconcile.{
  ca_name, create_or_load_ca, issue, generate, skip, reconcile,
}
use universal_crossplane.Controllers.TlsSecrets.Cluster.{at}
use universal_crossplane.Controllers.TlsSecrets.Cluster.Interleaving.{
  Local, idle, found, asked, loaded, State, moved, reads, asks, loads, fails, issues, elapsed,
  Steps, start, after,
}

module _ (E : Env) (S : IsStore E) (namespace : String) where
  open S use {stored}

  -- Steps lead to a state with this world in which the reconciler with this number is idle.
  pub record Reaches (z : State E) (i : ℕ) (w : E.World) : Type 0 where
    pub state : State E
    pub steps : Steps E S namespace z state
    pub ends_idle : state.locals i ≡ idle
    pub world : state.world ≡ w

  moved_self : (z : State E) (i : ℕ) (l : Local E) → (if eqb i i then l else z.locals i) ≡ l
  moved_self z i l = elim (eqb-cases i i) [
    | inl (same, _) ↦ rw same refl
    | inr (_, other) ↦ absurd (other refl)
  ]

  -- What only reads or records.
  Reaches-elapsed :
      (z : State E) (i : ℕ) (v w : E.World) → Reaches z i v → stored w ≡ stored v → Reaches z i w
  Reaches-elapsed z i v w h same = record {
    state = record h.state { world = w };
    steps = after h.steps (elapsed w (same ∙ ap stored (sym h.world)));
    ends_idle = h.ends_idle;
    world = refl;
  }

  Reaches-event :
      (z : State E) (i : ℕ) (s : Secret) (r : Reconciler E) (e : Event)
      → Reaches z i r.world
      → Reaches z i (E.record_event s e r.world)
  Reaches-event z i s r e h =
      Reaches-elapsed z i r.world (E.record_event s e r.world) h (S.event-stored s e r.world)

  module _ (z : State E) (i : ℕ) (name : String) (s : Secret) (q : Reconciler E)
      (steps : Steps E S namespace z (moved E z i (found name s) q.world)) where
    abbrev got : Result Secret × E.World
    got = E.get_secret (ca_name namespace) q.world

    abbrev asking : State E
    asking = moved E (moved E z i (found name s) q.world) i (asked name s got.0) got.1

    asking-Steps : Steps E S namespace z asking
    asking-Steps = after steps (asks i name s (moved_self z i (found name s)))

    asking_self : asking.locals i ≡ asked name s got.0
    asking_self = moved_self (moved E z i (found name s) q.world) i (asked name s got.0)

    failed-Reaches : Reaches z i (create_or_load_ca E namespace q).1.world
    unfolding create_or_load_ca
    failed-Reaches = record {
      state = moved E asking i idle (create_or_load_ca E namespace q).1.world;
      steps =
          after asking-Steps (fails i name s got.0 (record q { world = got.1 }) asking_self refl);
      ends_idle = moved_self asking i idle;
      world = refl;
    }

    issued-Reaches :
        (r : Reconciler E)
        → create_or_load_ca E namespace q ≡ (ok tt, r)
        → Reaches z i (issue E (at namespace name) s r.ca_cert r.ca_key r).1.world
    unfolding create_or_load_ca
    issued-Reaches r h =
        let y = moved E asking i (loaded name s r.ca_cert r.ca_key) r.world in
        record {
          state = moved E y i idle (issue E (at namespace name) s r.ca_cert r.ca_key r).1.world;
          steps =
              after
                (after asking-Steps
                  (loads i name s got.0 (record q { world = got.1 }) asking_self refl h))
                (issues i name s r (moved_self asking i (loaded name s r.ca_cert r.ca_key)) refl);
          ends_idle = moved_self y i idle;
          world = refl;
        }

    generate-Reaches : Reaches z i (generate E (at namespace name) s q).1.world
    unfolding generate
    generate-Reaches =
        or_report->>=-always (λ r. Reaches z i r.world) s _ _ (create_or_load_ca E namespace) _ q
          (λ r e h. Reaches-event z i s r e h) failed-Reaches (λ u r h. issued-Reaches r h)

  -- The world in which a reconciliation of a watched name ends is one that steps lead to from the
  -- world in which it begins, where its reconciler is idle, to its being idle again.
  pub reconcile-Reaches :
      (locals : ℕ → Local E) (i : ℕ) (name : String) (q : Reconciler E)
      → locals i ≡ idle
      → watches name ≡ true
      → Reaches
          (record { locals = locals; world = q.world })
          i
          (reconcile E (at namespace name) q).1.world
  unfolding reconcile skip
  reconcile-Reaches locals i name q begins watched =
      let n = at namespace name in
      let z : State E = record { locals = locals; world = q.world } in
      let here : Reaches z i q.world = record {
        state = z;
        steps = start;
        ends_idle = begins;
        world = refl;
      } in
      let read = or_wrap err_get_secret (effect (E.get_secret n)) in
      >>=-ensures (λ r. Reaches z i r.world) read _ q
        (Reaches-elapsed z i q.world (E.get_secret n q.world).1 here (S.get-stored n q.world))
        (λ s r h.
          let (found_s, _, _) = or_wrap-effect-eq-ok err_get_secret (E.get_secret n) q h in
          elim (text-cases (get_text key_tls_cert (entries s.contents)) "") [
            | inl (blank, empty) ↦ rw blank (
                generate-Reaches z i name s r
                  (after start (reads i name s begins watched found_s empty)))
            | inr (given, _) ↦ rw given (
                Reaches-event z i s r _ (
                  Reaches-elapsed z i q.world r.world here
                    (ap (λ o. stored o.1) (sym found_s) ∙ S.get-stored n q.world)))
          ])

-- ===== src/Agent/Lifecycle/Refinement.antt =====
-- That `shutdown` of internal/upboundagent/proxy.go does just the steps of a run that is signalled.
use mathlib.Core.Option.{some-injective}
use mathlib.Core.Path.{subst}
use universal_crossplane.Base.{
  ℕ, ◌+◌, ◌≤◌, ◌≡◌, ◌⊎◌, ◌↔◌, refl, sym, ap, ◌∙◌, inl, inr, false, some, Result, arith, Bool-cases,
}
use universal_crossplane.Agent.Runtime.{Runtime, Process}
use universal_crossplane.Agent.Lifecycle.{
  shutdown_server_of, after_drain, drained, store_ready, shutdown, drain_timeout,
}
use universal_crossplane.Agent.Lifecycle.Drain.{
  Drains, finished, timed_out, polled, draining-Drains,
}
use universal_crossplane.Agent.Lifecycle.Laws.{
  IsTime, IsShutdown, drain_failed, drain_panicked, shut_down, shutdown-IsShutdown, drain_of-now,
}
use universal_crossplane.Agent.Lifecycle.Interleaving.{
  Phase, serving, draining, polling, over, in_world, signal, drained as did_drain, not_drained,
  no_agent, poll, close, Acts, done, act,
}

-- The result of a phase that is over.
abbrev result_of : Phase → Result (Unit {0}) → Result (Unit {0})
result_of serving o = o
result_of (draining d) o = o
result_of (polling d) o = o
result_of (over r) o = r

module _ (R : Runtime) where
  open R use {nats}

  Drains-Acts :
      {d : ℕ} {w w' v : nats.World} {o : Result (Unit {0})} (p : Process R)
      → Drains R d w w'
      → shutdown_server_of R p.server w' ≡ (o, v)
      → Acts R (polling d) (in_world R p w) (over o) (in_world R p v)
  Drains-Acts p (finished idle) e = act (close (inl idle) e) done
  Drains-Acts p (timed_out busy late) e = act (close (inr late) e) done
  Drains-Acts p (polled busy early rest) e = act (poll busy early) (Drains-Acts p rest e)

  IsShutdown-Acts :
      (p : Process R) {o : Result (Unit {0})} {w : nats.World}
      → IsShutdown R p o w
      → Acts R serving p (over o) (in_world R (store_ready R false p) w)
  IsShutdown-Acts p (drain_failed e) = act signal (act (not_drained e) done)
  IsShutdown-Acts p (drain_panicked e) = act signal (act (no_agent e) done)
  IsShutdown-Acts p (shut_down e drains stopped) =
      act signal (act (did_drain e) (Drains-Acts (store_ready R false p) drains stopped))

  -- Nothing is done after the end.
  Acts-over :
      {o : Result (Unit {0})} {p : Process R} {s : Phase} {q : Process R}
      → Acts R (over o) p s q
      → (s ≡ over o) × (q ≡ p)
  Acts-over done = (refl, refl)
  Acts-over (act step rest) = elim step [ ]

  over-inj : {o o' : Result (Unit {0})} → over o ≡ over o' → o ≡ o'
  over-inj {o = o} h = ap (λ s. result_of s o) h

  ends : {d : ℕ} {w : nats.World} → (R.is_draining w ≡ false) ⊎ (d ≤ R.now w) → Drains R d w w
  ends (inl idle) = finished idle
  ends {w = w} (inr late) = elim (Bool-cases (R.is_draining w)) [
    | inl busy ↦ timed_out busy late
    | inr idle ↦ finished idle
  ]

  -- The steps of the loop go through its polls to its end.
  Acts-polling :
      {d : ℕ} {p : Process R} {o : Result (Unit {0})} {q : Process R}
      → Acts R (polling d) p (over o) q
      → (w : nats.World) × (v : nats.World) × Drains R d p.world w
        × (shutdown_server_of R p.server w ≡ (o, v))
        × (q ≡ in_world R p v)
  Acts-polling (act (poll busy early) rest) =
      let (w, v, drains, stopped, same) = Acts-polling rest in
      (w, v, polled busy early drains, stopped, same)
  Acts-polling {p = p} (act (close {w = v} why stopped) rest) =
      let (is_over, same) = Acts-over rest in
      (p.world, v, ends why, rw (over-inj is_over) stopped, same)

  Drains-unique : {d : ℕ} {w w1 w2 : nats.World} → Drains R d w w1 → Drains R d w w2 → w1 ≡ w2
  Drains-unique (finished idle) (finished idle') = refl
  Drains-unique (finished idle) (timed_out busy late) = refl
  Drains-unique (finished idle) (polled busy early rest) = absurd (cc)
  Drains-unique (timed_out busy late) (finished idle) = refl
  Drains-unique (timed_out busy late) (timed_out busy' late') = refl
  Drains-unique (timed_out busy late) (polled busy' early rest) = absurd (omega arith)
  Drains-unique (polled busy early rest) (finished idle) = absurd (cc)
  Drains-unique (polled busy early rest) (timed_out busy' late) = absurd (omega arith)
  Drains-unique (polled busy early rest) (polled busy' early' rest') = Drains-unique rest rest'

  Acts-draining :
      (p : Process R) {o : Result (Unit {0})} {q : Process R}
      → Acts R (draining (R.now p.world + drain_timeout)) (store_ready R false p) (over o) q
      → (w : nats.World) × IsShutdown R p o w × (q ≡ in_world R (store_ready R false p) w)
  Acts-draining p {o = o} (act (did_drain e) rest) =
      let (w, v, drains, stopped, same) = Acts-polling rest in (v, shut_down e drains stopped, same)
  Acts-draining p {o = o} (act (not_drained {w = w} e) rest) =
      let (is_over, same) = Acts-over rest in
      (w, subst (λ r. IsShutdown R p r w) (sym (over-inj is_over)) (drain_failed e), same)
  Acts-draining p {o = o} (act (no_agent {w = w} e) rest) =
      let (is_over, same) = Acts-over rest in
      (w, subst (λ r. IsShutdown R p r w) (sym (over-inj is_over)) (drain_panicked e), same)

  Acts-IsShutdown :
      (p : Process R) {o : Result (Unit {0})} {q : Process R}
      → Acts R serving p (over o) q
      → (w : nats.World) × IsShutdown R p o w × (q ≡ in_world R (store_ready R false p) w)
  Acts-IsShutdown p (act signal rest) = Acts-draining p rest

  IsShutdown-shutdown :
      (time : IsTime R) (p : Process R) {o : Result (Unit {0})} {w : nats.World}
      → IsShutdown R p o w
      → shutdown R p ≡ some (o, in_world R (store_ready R false p) w)
  unfolding shutdown drained after_drain
  IsShutdown-shutdown time p (drain_failed e) = rw e refl
  IsShutdown-shutdown time p (drain_panicked e) = rw e refl
  IsShutdown-shutdown time p (shut_down {w1 = w1} e drains stopped) =
      let later = drain_of-now R time p.agent p.world in
      let drained_later : R.now p.world ≤ R.now w1 = rw e at later in
      let (w2, loop, drains') =
        draining-Drains R time.clock 200 (R.now p.world + drain_timeout) w1 (omega arith) in
      rw (e, loop, ← Drains-unique drains drains', stopped) refl

  -- Where a sleep takes its time at least and the call of `Drain` does not turn back the clock,
  -- `shutdown` gives a result and a process exactly where the steps of a signalled run that nothing
  -- comes between lead to its end with these: the signal takes the readiness away; the agent is
  -- drained, or the run ends for want of it or with the drain's error; it polls every 100
  -- milliseconds, each time finding it still draining before 20 seconds from the signal are over;
  -- and once it has drained or they are over the server is shut down, whose result is the run's.
  pub shutdown_iff :
      (time : IsTime R) (p p' : Process R) (o : Result (Unit {0}))
      → (shutdown R p ≡ some (o, p')) ↔ Acts R serving p (over o) p'
  shutdown_iff time p p' o = (
    λ h.
        let (o1, w, same, is) = shutdown-IsShutdown R time p in
        let both = some-injective _ _ (sym same ∙ h) in
        subst (λ x. Acts R serving p (over x.0) x.1) both (IsShutdown-Acts p is),
    λ acts. let (w, is, same) = Acts-IsShutdown p acts in rw same (IsShutdown-shutdown time p is),
  )

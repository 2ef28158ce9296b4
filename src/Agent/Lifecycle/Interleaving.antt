-- ===== src/Agent/Lifecycle/Interleaving.antt =====
-- `Run` of internal/upboundagent/proxy.go in small steps, between which requests are served.
use universal_crossplane.Base.{
  ℕ, ◌+◌, ◌≤◌, ◌<◌, ◌≡◌, ◌⊎◌, refl, ◌∙◌, Bool, true, false, some, Error, wrap, Result, ok, err,
  panic,
}
use universal_crossplane.Agent.Runtime.{Runtime, Process}
use universal_crossplane.Agent.Lifecycle.{
  drain_of, shutdown_server_of, store_ready, drain_timeout, poll_interval,
}

-- Where `Run` is: it waits for a signal, it is about to drain the agent, it polls until a deadline,
-- or it is about to return.
pub data Phase : Type 0 where
  serving : Phase
  draining : ℕ → Phase
  polling : ℕ → Phase
  over : Result (Unit {0}) → Phase

module _ (R : Runtime) where
  open R use {nats}

  abbrev pub in_world : Process R → nats.World → Process R
  in_world p w = record p { world = w }

  -- What the run itself does, one call at a time.
  pub data Act : Phase → Process R → Phase → Process R → Type 0 where
    signal :
        {p : Process R}
        → Act serving p (draining (R.now p.world + drain_timeout)) (store_ready R false p)
    drained :
        {d : ℕ} {p : Process R} {w : nats.World}
        → drain_of R p.agent p.world ≡ (ok tt, w)
        → Act (draining d) p (polling d) (in_world p w)
    not_drained :
        {d : ℕ} {p : Process R} {e : Error} {w : nats.World}
        → drain_of R p.agent p.world ≡ (err e, w)
        → Act (draining d) p (over (err (wrap e "error on drain"))) (in_world p w)
    no_agent :
        {d : ℕ} {p : Process R} {w : nats.World}
        → drain_of R p.agent p.world ≡ (panic, w)
        → Act (draining d) p (over panic) (in_world p w)
    poll :
        {d : ℕ} {p : Process R}
        → R.is_draining p.world ≡ true
        → R.now p.world < d
        → Act (polling d) p (polling d) (in_world p (R.sleep poll_interval p.world))
    close :
        {d : ℕ} {p : Process R} {o : Result (Unit {0})} {w : nats.World}
        → (R.is_draining p.world ≡ false) ⊎ (d ≤ R.now p.world)
        → shutdown_server_of R p.server p.world ≡ (o, w)
        → Act (polling d) p (over o) (in_world p w)

  pub data Acts : Phase → Process R → Phase → Process R → Type 0 where
    done : {s : Phase} {p : Process R} → Acts s p s p
    act : {s t u : Phase} {p q r : Process R} → Act s p t q → Acts t q u r → Acts s p u r

  -- The requests that are served meanwhile change the world, and not the proxy.
  pub data Step : Phase → Process R → Phase → Process R → Type 0 where
    served : {s : Phase} {p : Process R} (w : nats.World) → Step s p s (in_world p w)
    acted : {s t : Phase} {p q : Process R} → Act s p t q → Step s p t q

  pub data Steps : Phase → Process R → Phase → Process R → Type 0 where
    here : {s : Phase} {p : Process R} → Steps s p s p
    next : {s t u : Phase} {p q r : Process R} → Step s p t q → Steps t q u r → Steps s p u r

  -- Whether the proxy is to be ready.
  abbrev pub ready_in : Phase → Bool
  ready_in serving = true
  ready_in (draining d) = false
  ready_in (polling d) = false
  ready_in (over o) = false

  Act-ready :
      {s : Phase} {p : Process R} {t : Phase} {q : Process R}
      → Act s p t q
      → p.proxy.is_ready ≡ some (ready_in s)
      → (q.proxy.is_ready ≡ some (ready_in t)) × (q.proxy.config ≡ p.proxy.config)
  Act-ready signal h = (refl, refl)
  Act-ready (drained e) h = (h, refl)
  Act-ready (not_drained e) h = (h, refl)
  Act-ready (no_agent e) h = (h, refl)
  Act-ready (poll busy early) h = (h, refl)
  Act-ready (close why e) h = (h, refl)

  Step-ready :
      {s : Phase} {p : Process R} {t : Phase} {q : Process R}
      → Step s p t q
      → p.proxy.is_ready ≡ some (ready_in s)
      → (q.proxy.is_ready ≡ some (ready_in t)) × (q.proxy.config ≡ p.proxy.config)
  Step-ready (served w) h = (h, refl)
  Step-ready (acted a) h = Act-ready a h

  pub Steps-ready :
      {s : Phase} {p : Process R} {t : Phase} {q : Process R}
      → Steps s p t q
      → p.proxy.is_ready ≡ some (ready_in s)
      → (q.proxy.is_ready ≡ some (ready_in t)) × (q.proxy.config ≡ p.proxy.config)
  Steps-ready here h = (h, refl)
  Steps-ready (next step rest) h =
      let (ready, same) = Step-ready step h in
      let (last, kept) = Steps-ready rest ready in (last, kept ∙ same)

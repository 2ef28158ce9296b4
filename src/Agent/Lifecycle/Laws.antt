-- ===== src/Agent/Lifecycle/Laws.antt =====
-- That `shutdown` ends, in what order it does its steps, and what `readyz` answers meanwhile.
use universal_crossplane.Base.{
  ◌+◌, ◌≤◌, String, ◌≡◌, refl, ap, true, false, Option, none, some, Error, wrap, Result, ok, err,
  panic, arith,
}
use universal_crossplane.Agent.Handlers.{readyz, status_service_unavailable}
use universal_crossplane.Agent.Runtime.{Router, Stop, signalled, server_failed, Runtime, Process}
use universal_crossplane.Agent.Startup.{setup_router}
use universal_crossplane.Agent.Lifecycle.{
  drain_of, shutdown_server_of, after_drain, drained, store_ready, shutdown, new_server, stopped,
  serve, run, returning, Exit, returned, exited, drain_timeout,
}
use universal_crossplane.Agent.Lifecycle.Drain.{IsClock, Drains, draining-Drains}

module _ (R : Runtime) where
  open R use {nats}

  -- What is assumed of time: sleeping takes it, and the call of `Drain` does not turn it back.
  pub record IsTime : Type 0 where
    pub clock : IsClock R
    pub drain-now : (a : R.Uuid) (w : nats.World) → R.now w ≤ R.now (R.drain a w).1

  -- How a shutdown goes: the drain fails, or the loop runs to its end and then the server is shut
  -- down.
  pub data IsShutdown (p : Process R) : Result (Unit {0}) → nats.World → Type 0 where
    drain_failed :
        {e : Error} {w : nats.World}
        → drain_of R p.agent p.world ≡ (err e, w)
        → IsShutdown p (err (wrap e "error on drain")) w
    drain_panicked :
        {w : nats.World} → drain_of R p.agent p.world ≡ (panic, w) → IsShutdown p panic w
    shut_down :
        {w1 w2 w3 : nats.World} {o : Result (Unit {0})}
        → drain_of R p.agent p.world ≡ (ok tt, w1)
        → Drains R (R.now p.world + drain_timeout) w1 w2
        → shutdown_server_of R p.server w2 ≡ (o, w3)
        → IsShutdown p o w3

  abbrev pub Ends : Process R → Type 0
  Ends p =
      (o : Result (Unit {0})) × (w : nats.World) × (shutdown R p
        ≡ some (o, record (store_ready R false p) { world = w }))
      × IsShutdown p o w

  pub drain_of-now :
      (time : IsTime) (a : Option R.Uuid) (w : nats.World) → R.now w ≤ R.now (drain_of R a w).1
  unfolding drain_of
  drain_of-now time none w = omega arith
  drain_of-now time (some a) w = time.drain-now a w

  -- A shutdown by what its drain gives.
  drained-Ends :
      (time : IsTime) (p : Process R) (o : Result (Unit {0}) × nats.World)
      → drain_of R p.agent p.world ≡ o
      → R.now p.world ≤ R.now o.1
      → Ends p
  unfolding shutdown drained after_drain
  drained-Ends time p (err e, w1) same later =
      (err (wrap e "error on drain"), w1, rw same refl, drain_failed same)
  drained-Ends time p (panic, w1) same later = (panic, w1, rw same refl, drain_panicked same)
  drained-Ends time p (ok _, w1) same later =
      let (w2, loop, drains) =
        draining-Drains R time.clock 200 (R.now p.world + drain_timeout) w1 (omega arith) in
      (
        (shutdown_server_of R p.server w2).0,
        (shutdown_server_of R p.server w2).1,
        rw (same, loop) refl,
        shut_down same drains refl,
      )

  -- Where a sleep takes its time at least and the call of `Drain` does not turn back the clock, a
  -- shutdown ends within its polls, and leaves the proxy not ready whatever happens: its drain
  -- fails, with the wrapped error, or panics for want of an agent, or the polls come to the first
  -- world where the agent has drained or 20 seconds from the start are over, and then the server is
  -- shut down with 20 seconds from there, which gives the result.
  pub shutdown-IsShutdown : (time : IsTime) (p : Process R) → Ends p
  shutdown-IsShutdown time p =
      drained-Ends time p (drain_of R p.agent p.world) refl (drain_of-now time p.agent p.world)

  abbrev pub IsUnready : Process R → Type 0
  IsUnready p =
      readyz p.proxy
      ≡ ok (record {
        code = status_service_unavailable;
        status = status_service_unavailable;
        nats_status = none;
      })

  -- How a run ends for what ends its wait, with the process that waits: where the server failed,
  -- the program exits; at a signal there is a shutdown of that process, whose result the run
  -- returns, and `readyz` answers 503.
  pub data IsEnd (p : Process R) : Stop → Exit (Result (Unit {0}) × Process R) → Type 0 where
    server_exit : {e : Error} → IsEnd p (server_failed e) (exited 255)
    graceful :
        {o : Result (Unit {0})} {w : nats.World}
        → IsShutdown p o w
        → IsUnready (record (store_ready R false p) { world = w })
        → IsEnd p signalled (returned (o, record (store_ready R false p) { world = w }))

  stopped-IsEnd :
      (time : IsTime) (p : Process R) (stop : Stop)
      → (e : Exit (Result (Unit {0}) × Process R)) × (stopped R p stop ≡ some e) × IsEnd p stop e
  unfolding stopped readyz
  stopped-IsEnd time p (server_failed e) = (exited 255, refl, server_exit)
  stopped-IsEnd time p signalled =
      let (o, w, same, is) = shutdown-IsShutdown time p in
      (
        returned (o, record (store_ready R false p) { world = w }),
        ap (returning R) same,
        graceful is refl,
      )

  -- Where the clock goes forward, let the router be set up on a ready proxy, and let the wait of
  -- the server on that router end. If the server has failed, the program exits with status 255. If
  -- a signal has come, the run returns the result of a shutdown of the process that waits (its
  -- drain fails, or it polls until the agent has drained or 20 seconds are over, and then shuts
  -- down the server with 20 seconds from there), and `readyz` then answers 503.
  pub run-IsEnd :
      (time : IsTime) (addr cert_file key_file : String) (p p1 : Process R) (e : Router)
      (stop : Stop) (w : nats.World)
      → setup_router R (store_ready R true p) ≡ (ok e, p1)
      → R.wait (new_server R e addr) cert_file key_file p1.world ≡ (stop, w)
      → (x : Exit (Result (Unit {0}) × Process R)) × (run R addr cert_file key_file p ≡ some x)
        × IsEnd (record p1 { server = some (new_server R e addr); world = w }) stop x
  unfolding run serve
  run-IsEnd time addr cert_file key_file p p1 e stop w routed waited =
      rw (routed, waited) (stopped-IsEnd time _ stop)

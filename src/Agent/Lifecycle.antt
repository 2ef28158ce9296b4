-- ===== src/Agent/Lifecycle.antt =====
-- `Run` and `shutdown` of internal/upboundagent/proxy.go.
pub mod Drain
pub mod Laws
pub mod Interleaving
pub mod Refinement
use universal_crossplane.Base.{
  ℕ, zero, suc, ◌+◌, ◌*◌, String, Bool, true, false, Option, none, some, Error, wrap, Result, ok,
  err, panic, leb, if◌then◌else◌,
}
use universal_crossplane.Agent.Token.{second}
use universal_crossplane.Agent.Runtime.{
  HttpServer, Router, Stop, signalled, server_failed, Runtime, Process,
}
use universal_crossplane.Agent.Startup.{setup_router}

abbrev pub drain_timeout : ℕ
drain_timeout = 20 * second

abbrev pub shutdown_timeout : ℕ
shutdown_timeout = 20 * second

abbrev pub read_header_timeout : ℕ
read_header_timeout = 5 * second

abbrev pub read_timeout : ℕ
read_timeout = 10 * second

-- `100 * time.Millisecond`
abbrev pub poll_interval : ℕ
poll_interval = 100000000

-- One check more than there are polls within the drain timeout.
abbrev pub drain_polls : ℕ
drain_polls = 201

-- How `Run` ends: it returns, or `os.Exit` ends the program.
pub data Exit (A : Type 0) : Type 0 where
  returned : A → Exit A
  exited : ℕ → Exit A

module _ (R : Runtime) where
  open R use {nats}

  -- The loop of `shutdown`, until the deadline of its context.
  unfoldable pub draining : ℕ → ℕ → nats.World → Option nats.World
  draining zero deadline w = none
  draining (suc fuel) deadline w =
      let rest = draining fuel deadline (R.sleep poll_interval w) in
      if R.is_draining w then if leb deadline (R.now w) then some w else rest else some w

  -- `p.server.Shutdown(stc)`, with 20 seconds from now. A proxy without a server panics.
  unfoldable pub shutdown_server_of :
      Option HttpServer → nats.World → Result (Unit {0}) × nats.World
  shutdown_server_of none w = (panic, w)
  shutdown_server_of (some s) w = R.shutdown_server s (R.now w + shutdown_timeout) w

  -- What follows the loop.
  unfoldable pub after_drain :
      Process R → Option nats.World → Option (Result (Unit {0}) × Process R)
  unfolding shutdown_server_of
  after_drain p none = none
  after_drain p (some w) =
      let (x, w') = shutdown_server_of p.server w in some (x, record p { world = w' })

  -- What follows the call of `Drain`, for the deadline that was taken before it.
  unfoldable pub drained :
      Process R → ℕ → Result (Unit {0}) × nats.World → Option (Result (Unit {0}) × Process R)
  unfolding draining after_drain
  drained p deadline (err e, w) = some (err (wrap e "error on drain"), record p { world = w })
  drained p deadline (panic, w) = some (panic, record p { world = w })
  drained p deadline (ok _, w) = after_drain p (draining drain_polls deadline w)

  -- `p.agent.Drain()`; without an agent it panics.
  unfoldable pub drain_of : Option R.Uuid → nats.World → Result (Unit {0}) × nats.World
  drain_of none w = (panic, w)
  drain_of (some a) w = R.drain a w

  -- `p.isReady.Store(b)`
  abbrev pub store_ready : Bool → Process R → Process R
  store_ready b p = record p { proxy = record p.proxy { is_ready = some b } }

  -- `none` stands for a loop that runs out of its polls.
  unfoldable pub shutdown : Process R → Option (Result (Unit {0}) × Process R)
  unfolding drained drain_of
  shutdown p =
      drained (store_ready false p) (R.now p.world + drain_timeout) (drain_of p.agent p.world)

  abbrev pub new_server : Router → String → HttpServer
  new_server e addr = record {
    handler = e;
    addr = addr;
    read_timeout = read_timeout;
    read_header_timeout = read_header_timeout;
    write_timeout = 0;
  }

  abbrev pub returning : {A : Type 0} → Option A → Option (Exit A)
  returning none = none
  returning (some a) = some (returned a)

  -- What `Run` does when its wait ends. `os.Exit(-1)` gives the status 255.
  unfoldable pub stopped : Process R → Stop → Option (Exit (Result (Unit {0}) × Process R))
  unfolding shutdown
  stopped p (server_failed e) = some (exited 255)
  stopped p signalled = returning (shutdown p)

  -- What `Run` does with the router: it starts the server and waits.
  unfoldable pub serve :
      String
      → String
      → String
      → Result Router × Process R
      → Option (Exit (Result (Unit {0}) × Process R))
  unfolding stopped
  serve addr cert_file key_file (err e, p) =
      some (returned (err (wrap e "failed to setup router"), p))
  serve addr cert_file key_file (panic, p) = some (returned (panic, p))
  serve addr cert_file key_file (ok e, p) =
      let s = new_server e addr in
      let (stop, w) = R.wait s cert_file key_file p.world in
      stopped (record p { server = some s; world = w }) stop

  unfoldable pub run :
      String → String → String → Process R → Option (Exit (Result (Unit {0}) × Process R))
  unfolding serve setup_router
  run addr cert_file key_file p =
      serve addr cert_file key_file (setup_router R (store_ready true p))

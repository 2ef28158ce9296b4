-- ===== src/Commands/UpboundAgent/Ending.antt =====
-- What the program has done when it ends without an error.
use universal_crossplane.Base.{
  ℕ, String, ◌≡◌, ◌⊎◌, refl, inl, inr, sym, some, Option, none, Result, ok, ok-injective, err,
  panic, ◌<>◌,
}
use mathlib.Core.Option.{some-injective, none-ne-some}
use universal_crossplane.Base.Effects.{◌>>=◌}
use universal_crossplane.Agent.Runtime.{Runtime, Process}
use universal_crossplane.Agent.Lifecycle.{Exit, returned, exited, run}
use universal_crossplane.Commands.UpboundAgent.Env.{AgentCmd, AgentEnv}
use universal_crossplane.Commands.UpboundAgent.{
  control_plane_token_check_period, configure, connect, finish, finishing, run_proxy, start, main,
  wait_for_control_plane_token,
}
use universal_crossplane.Commands.UpboundAgent.Waiting.{Waits, wait-Waits}
use universal_crossplane.Commands.UpboundAgent.Connection.{IsConnected, connect-IsConnected}

module _ {R : Runtime} (A : AgentEnv R) (a : AgentCmd) where
  open R use {nats}

  -- The run returned without an error, or ended the program itself.
  abbrev pub IsFinished : Exit (Result (Unit {0}) × Process R) → Exit nats.World → Type 0
  IsFinished x e =
      ((q : Process R) × (x ≡ returned (ok tt, q)) × (e ≡ returned q.world))
      ⊎ ((status : ℕ) × (x ≡ exited status) × (e ≡ exited status))

  -- The token that was waited for, the proxy that was built from it, and how its run ended.
  pub record IsServed (w : nats.World) (e : Exit nats.World) : Type 0 where
    pub token : String
    pub found_at : nats.World
    pub proxy : Process R
    pub connected_at : nats.World
    pub end : Exit (Result (Unit {0}) × Process R)
    pub found : Waits A a.control_plane_token_path 3000000000 w (ok token) found_at
    pub connected : IsConnected A a token proxy connected_at
    pub ran : run R (":" <> a.server_port) a.tls_cert_file a.tls_key_file proxy ≡ some end
    pub finished : IsFinished end e

  finish-IsFinished :
      (x : Exit (Result (Unit {0}) × Process R)) (e : Exit nats.World)
      → finish A x ≡ ok e
      → IsFinished x e
  unfolding finish
  finish-IsFinished (exited status) e h = inr (status, refl, sym (ok-injective h))
  finish-IsFinished (returned (ok _, q)) e h = inl (q, refl, sym (ok-injective h))
  finish-IsFinished (returned (err x, q)) e h = absurd (cc)
  finish-IsFinished (returned (panic, q)) e h = absurd (cc)

  finishing-eq_some :
      (o : Option (Exit (Result (Unit {0}) × Process R))) (e : Exit nats.World)
      → finishing A o ≡ some (ok e)
      → (x : Exit (Result (Unit {0}) × Process R)) × (o ≡ some x) × IsFinished x e
  finishing-eq_some none e h = absurd (none-ne-some _ h)
  finishing-eq_some (some x) e h = (x, refl, finish-IsFinished x e (some-injective _ _ h))

  run_proxy-eq_some :
      (o : Result (Process R) × nats.World) (e : Exit nats.World)
      → run_proxy A a o ≡ some (ok e)
      → (p : Process R) × (o.0 ≡ ok p)
        × ((x : Exit (Result (Unit {0}) × Process R)) × (run R
                (":" <> a.server_port)
                a.tls_cert_file
                a.tls_key_file
                p
              ≡ some x)
            × IsFinished x e)
  unfolding run_proxy
  run_proxy-eq_some (ok p, w) e h = (p, refl, finishing-eq_some _ e h)
  run_proxy-eq_some (err x, w) e h = absurd (cc (some-injective _ _ h))
  run_proxy-eq_some (panic, w) e h = absurd (cc (some-injective _ _ h))

  start-IsServed :
      (rounds : ℕ) (w : nats.World) (e : Exit nats.World) (o : Option (Result String × nats.World))
      → wait_for_control_plane_token A rounds a.control_plane_token_path
          control_plane_token_check_period w
        ≡ o
      → start A a o ≡ some (ok e)
      → IsServed w e
  unfolding start
  start-IsServed rounds w e none same h = absurd (none-ne-some _ h)
  start-IsServed rounds w e (some (err x, w1)) same h = absurd (cc (some-injective _ _ h))
  start-IsServed rounds w e (some (panic, w1)) same h = absurd (cc (some-injective _ _ h))
  start-IsServed rounds w e (some (ok token, w1)) same h =
      let built = (configure A a token >>= connect A a) w1 in
      let (p, is, (x, ran, finished)) = run_proxy-eq_some built e h in
      record {
        token = token;
        found_at = w1;
        proxy = p;
        connected_at = built.1;
        end = x;
        found =
            wait-Waits A a.control_plane_token_path control_plane_token_check_period rounds w w1
              (ok token) same;
        connected = connect-IsConnected A a token w1 built.1 p (λ i. (is i, built.1));
        ran = ran;
        finished = finished;
      }

  -- The program ends without an error only after it has found a token that is not empty in its
  -- file, after reads that found none or an empty one, each followed by a sleep of three seconds;
  -- after a proxy was built and connected for that token, as `connect-IsConnected` says; and after
  -- the run of that proxy, at the port and with the certificate files of the command, has returned
  -- without an error, or has ended the program itself with its status.
  pub main-IsServed :
      (rounds : ℕ) (w : nats.World) (e : Exit nats.World)
      → main A rounds a w ≡ some (ok e)
      → IsServed w e
  unfolding main
  main-IsServed rounds w e h = start-IsServed rounds w e _ refl h

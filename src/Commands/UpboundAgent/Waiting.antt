-- ===== src/Commands/UpboundAgent/Waiting.antt =====
-- The wait for the control plane's token, as a relation over the reads of its file.
use mathlib.Core.Option.{none-ne-some}
use universal_crossplane.Base.{
  ℕ, zero, suc, String, ◌≡◌, ◌≢◌, refl, ◌↔◌, ◌⊎◌, inl, inr, true, false, Option, some, arith, Error,
  wrap, Result, ok, err, panic, Bool-cases, text-cases,
}
use universal_crossplane.Agent.Runtime.{Runtime}
use universal_crossplane.Commands.UpboundAgent.Env.{AgentEnv}
use universal_crossplane.Commands.UpboundAgent.{
  token_of_read, or_continue, wait_for_control_plane_token,
}

module _ {R : Runtime} (A : AgentEnv R) (path : String) (d : ℕ) where
  open R use {nats}

  abbrev read : nats.World → (Error ⊎ String) × nats.World
  read w = A.read_file (A.clean path) w

  -- A wait that comes to its end: a read finds a text, or fails otherwise than by a missing file;
  -- after one that finds no file or an empty one the loop sleeps and reads again.
  pub data Waits : nats.World → Result String → nats.World → Type 0 where
    found : {f : String} {w w' : nats.World} → read w ≡ (inr f, w') → f ≢ "" → Waits w (ok f) w'
    failed :
        {e : Error} {w w' : nats.World}
        → read w ≡ (inl e, w')
        → A.is_not_exist e ≡ false
        → Waits w (err (wrap e "cannot read control plane token file")) w'
    missing :
        {e : Error} {x : Result String} {w w1 w' : nats.World}
        → read w ≡ (inl e, w1)
        → A.is_not_exist e ≡ true
        → Waits (R.sleep d w1) x w'
        → Waits w x w'
    empty :
        {x : Result String} {w w1 w' : nats.World}
        → read w ≡ (inr "", w1)
        → Waits (R.sleep d w1) x w'
        → Waits w x w'

  abbrev waited : ℕ → nats.World → Option (Result String × nats.World)
  waited rounds w = wait_for_control_plane_token A rounds path d w

  ended :
      {x y : Result String} {w v : nats.World}
      → ◌≡◌ {A = Option (Result String × nats.World)} (some (x, w)) (some (y, v))
      → (x ≡ y) × (w ≡ v)
  ended h = ground arith

  -- One round, for what its read gives.
  round :
      (o : (Error ⊎ String) × nats.World) (w w' : nats.World) (x : Result String) (rounds : ℕ)
      → read w ≡ o
      → or_continue (token_of_read A o.0) o.1 (waited rounds (R.sleep d o.1)) ≡ some (x, w')
      → (waited rounds (R.sleep d o.1) ≡ some (x, w') → Waits (R.sleep d o.1) x w')
      → Waits w x w'
  unfolding token_of_read
  round (inl e, w1) w w' x rounds same h rest = elim (Bool-cases (A.is_not_exist e)) [
    | inl absent ↦ missing same absent (rest (rw absent at h))
    | inr present ↦ let is = ended (rw present at h) in rw (← is.0, ← is.1) (failed same present)
  ]
  round (inr f, w1) w w' x rounds same h rest = elim (text-cases f "") [
    | inl (is_empty, blank) ↦ empty (rw blank at same) (rest (rw is_empty at h))
    | inr (given, ne) ↦ let is = ended (rw given at h) in rw (← is.0, ← is.1) (found same ne)
  ]

  pub wait-Waits :
      (rounds : ℕ) (w w' : nats.World) (x : Result String)
      → wait_for_control_plane_token A rounds path d w ≡ some (x, w')
      → Waits w x w'
  unfolding wait_for_control_plane_token
  wait-Waits zero w w' x h = absurd (none-ne-some _ h)
  wait-Waits (suc rounds) w w' x h =
      round (read w) w w' x rounds refl h (wait-Waits rounds (R.sleep d (read w).1) w' x)

  pub Waits-wait :
      (w w' : nats.World) (x : Result String)
      → Waits w x w'
      → (rounds : ℕ) × (wait_for_control_plane_token A rounds path d w ≡ some (x, w'))
  unfolding wait_for_control_plane_token token_of_read
  Waits-wait w w' x (found {f = f} same ne) = (
    1,
    elim (text-cases f "") [
      | inl (_, blank) ↦ absurd (ne blank)
      | inr (given, _) ↦ rw (same, given) refl
    ],
  )
  Waits-wait w w' x (failed same present) = (1, rw (same, present) refl)
  Waits-wait w w' x (missing same absent rest) =
      let (n, ends) = Waits-wait _ w' x rest in (suc n, rw (same, absent) ends)
  Waits-wait w w' x (empty same rest) =
      let (n, ends) = Waits-wait _ w' x rest in (suc n, rw same ends)

  -- A text is never given empty.
  abbrev IsGiven : Result String → Type 0
  IsGiven (ok t) = t ≢ ""
  IsGiven (err e) = Unit {0}
  IsGiven panic = ⊥

  Waits-IsGiven : (w w' : nats.World) (x : Result String) → Waits w x w' → IsGiven x
  Waits-IsGiven w w' x (found same ne) = ne
  Waits-IsGiven w w' x (failed same present) = tt
  Waits-IsGiven w w' x (missing same absent rest) = Waits-IsGiven _ w' x rest
  Waits-IsGiven w w' x (empty same rest) = Waits-IsGiven _ w' x rest

  -- The wait for the control plane's token gives a result within some number of rounds exactly
  -- where the reads of its file come to that end: a read finds a text that is not empty, or fails
  -- otherwise than by a missing file; and before it there are only reads that find no file or an
  -- empty one, each followed by a sleep of the period.
  pub wait_iff :
      (w w' : nats.World) (x : Result String)
      → ((rounds : ℕ) × (wait_for_control_plane_token A rounds path d w ≡ some (x, w')))
        ↔ Waits w x w'
  wait_iff w w' x = (λ (rounds, h). wait-Waits rounds w w' x h, Waits-wait w w' x)

  -- A token that the loop returns is not empty.
  pub wait-ne :
      (rounds : ℕ) (w w' : nats.World) (t : String)
      → wait_for_control_plane_token A rounds path d w ≡ some (ok t, w')
      → t ≢ ""
  wait-ne rounds w w' t h = Waits-IsGiven w w' (ok t) (wait-Waits rounds w w' (ok t) h)

-- ===== src/Commands/UpboundAgent/Arrival.antt =====
-- How many rounds of the wait are enough, once the token's file is mounted.
use universal_crossplane.Base.{
  ℕ, zero, suc, ◌+◌, ◌*◌, ◌≤◌, String, ◌≡◌, ◌≢◌, refl, sym, Option, none, some, Result, inr, arith,
  text-cases, inl,
}
use mathlib.Core.Option.{none-ne-some}
use universal_crossplane.Agent.Runtime.{Runtime}
use universal_crossplane.Agent.Lifecycle.Drain.{IsClock}
use universal_crossplane.Commands.UpboundAgent.Env.{AgentEnv}
use universal_crossplane.Commands.UpboundAgent.{
  or_continue, token_of_read, wait_for_control_plane_token,
}
use universal_crossplane.Commands.UpboundAgent.Waiting.{Waits, wait-Waits}

abbrev HasEnded : {X W : Type 0} → Option (X × W) → Type 0
HasEnded {X = X} {W = W} o = (x : X) × (w : W) × (o ≡ some (x, w))

or_continue-HasEnded :
    {X W : Type 0} (t : Option X) (w : W) (rest : Option (X × W))
    → (t ≡ none → HasEnded rest)
    → HasEnded (or_continue t w rest)
or_continue-HasEnded none w rest goes_on = goes_on refl
or_continue-HasEnded (some x) w rest goes_on = (x, w, refl)

module _ {R : Runtime} (A : AgentEnv R) where
  open R use {nats}

  -- From a time on, a read of the file gives a text that is not empty.
  abbrev pub IsMounted : String → ℕ → Type 0
  IsMounted path mounted =
      (w : nats.World)
      → mounted ≤ R.now w
      → (f : String) × ((A.read_file (A.clean path) w).0 ≡ inr f) × (f ≢ "")

  -- A read does not turn back the clock.
  abbrev pub KeepsTime : Type 0
  KeepsTime = (path : String) (w : nats.World) → R.now w ≤ R.now (A.read_file path w).1

  module _ (clock : IsClock R) (keeps : KeepsTime) (path : String) (mounted : ℕ)
      (is : IsMounted path mounted) where
    -- A round after that time does not go on.
    mounted-ends :
        (w : nats.World)
        → mounted ≤ R.now w
        → token_of_read A (A.read_file (A.clean path) w).0 ≢ none
    unfolding token_of_read
    mounted-ends w late goes_on =
        let (f, same, ne) = is w late in
        elim (text-cases f "") [
          | inl (_, blank) ↦ ne blank
          | inr (given, _) ↦ none-ne-some _ (sym (rw (same, given) at goes_on))
        ]

    wait-within :
        (d n : ℕ) (w : nats.World)
        → mounted ≤ R.now w + n * d
        → HasEnded (wait_for_control_plane_token A (suc n) path d w)
    unfolding wait_for_control_plane_token
    wait-within d zero w late =
        or_continue-HasEnded _ _ _ λ goes_on. absurd (mounted-ends w (omega arith) goes_on)
    wait-within d (suc n) w late = or_continue-HasEnded _ _ _ λ _.
        let w1 = (A.read_file (A.clean path) w).1 in
        let read = keeps (A.clean path) w in
        let slept = clock d w1 in wait-within d n (R.sleep d w1) (omega arith)

  -- Let a sleep take its time at least, the reads of files not turn back the clock, and the token's
  -- file have a text that is not empty from some time on. Then n + 1 rounds of the wait for it are
  -- enough, for any n such that n periods from its start reach that time; and the reads come to the
  -- end that the wait gives: a text that is not empty is found, or a read fails otherwise than by a
  -- missing file, and before it there are only reads that find no file or an empty one, each
  -- followed by a sleep of the period.
  pub wait-ends_within :
      IsClock R
      → KeepsTime
      → (path : String) (mounted : ℕ) → IsMounted path mounted
      → (d n : ℕ) (w : nats.World) → mounted ≤ R.now w + n * d
      → (x : Result String) × (w' : nats.World) × (wait_for_control_plane_token A (suc n) path d w
          ≡ some (x, w'))
        × Waits A path d w x w'
  wait-ends_within clock keeps path mounted is d n w soon =
      let (x, w', same) = wait-within clock keeps path mounted is d n w soon in
      (x, w', same, wait-Waits A path d (suc n) w w' x same)

-- ===== src/Agent/Lifecycle/Drain.antt =====
-- The loop of `shutdown`: its polls as steps, and that it ends.
use universal_crossplane.Base.{
  ℕ, zero, suc, ◌+◌, ◌*◌, ◌≤◌, ◌<◌, ◌≡◌, refl, inl, inr, true, false, some, arith, leb, Bool-cases,
}
use universal_crossplane.Agent.Runtime.{Runtime}
use universal_crossplane.Agent.Lifecycle.{draining, poll_interval}

module _ (R : Runtime) where
  open R use {nats}

  -- What is assumed of the clock: a sleep takes its time at least.
  abbrev pub IsClock : Type 0
  IsClock = (d : ℕ) (w : nats.World) → R.now w + d ≤ R.now (R.sleep d w)

  -- The polls from a world to the one where the loop stops: the first where the agent has drained or
  -- the deadline is over.
  pub data Drains (deadline : ℕ) : nats.World → nats.World → Type 0 where
    finished : {w : nats.World} → R.is_draining w ≡ false → Drains deadline w w
    timed_out : {w : nats.World} → R.is_draining w ≡ true → deadline ≤ R.now w → Drains deadline w w
    polled :
        {w w' : nats.World}
        → R.is_draining w ≡ true
        → R.now w < deadline
        → Drains deadline (R.sleep poll_interval w) w'
        → Drains deadline w w'

  abbrev pub Ends : ℕ → ℕ → nats.World → Type 0
  Ends n deadline w =
      (w' : nats.World) × (draining R (suc n) deadline w ≡ some w') × Drains deadline w w'

  draining-step :
      (n deadline : ℕ) (w : nats.World)
      → (R.now w < deadline → Ends n deadline (R.sleep poll_interval w))
      → Ends (suc n) deadline w
  unfolding draining
  draining-step n deadline w rest = elim (Bool-cases (R.is_draining w)) [
    | inr idle ↦ (w, rw idle refl, finished idle)
    | inl busy ↦ elim (Bool-cases (leb deadline (R.now w))) [
      | inl over ↦ (w, rw (busy, over) refl, timed_out busy (ground arith))
      | inr early ↦
          let before : R.now w < deadline = ground arith in
          let (w', same, drains) = rest before in
          (w', rw (busy, early) same, polled busy before drains)
    ]
  ]

  draining-last : (deadline : ℕ) (w : nats.World) → deadline ≤ R.now w → Ends zero deadline w
  unfolding draining
  draining-last deadline w late = elim (Bool-cases (R.is_draining w)) [
    | inr idle ↦ (w, rw idle refl, finished idle)
    | inl busy ↦
        let over : leb deadline (R.now w) ≡ true = ground arith in
        (w, rw (busy, over) refl, timed_out busy late)
  ]

  -- Where a sleep takes its time at least, the loop of `shutdown` comes to its end within one check
  -- more than the polls that reach its deadline; it ends in the first polled world where the agent
  -- has drained or the deadline is over.
  pub draining-Drains :
      (clock : IsClock) (n deadline : ℕ) (w : nats.World)
      → deadline ≤ R.now w + n * poll_interval
      → Ends n deadline w
  draining-Drains clock zero deadline w enough = draining-last deadline w (omega arith)
  draining-Drains clock (suc n) deadline w enough = draining-step n deadline w λ _.
      let later = clock poll_interval w in
      draining-Drains clock n deadline (R.sleep poll_interval w) (omega arith)

-- ===== src/Monitor/Collector/Stop.antt =====
-- When `collector_loop` of src/monitor/mod.rs returns.
use hi_mqtt.Prelude.{ℕ, ◌≡◌, refl, Bool, true, false, List, [], ◌∷◌, ◌++◌, Text, All, arith}
use hi_mqtt.Prelude.Exec.{ok, err}
use hi_mqtt.Monitor.Collector.{
  Received, forward, other_notification, nothing, recv_timeout, link_closed, Collector, Input,
  receive, collect, collector_loop,
}

abbrev pub closes : Received → Bool
closes link_closed = true
closes (forward topic payload retain) = false
closes other_notification = false
closes nothing = false
closes recv_timeout = false

module _ (lossy : List ℕ → Text) where
  collect-goes_on :
      (i : Input) (c : Collector) → closes i.received ≡ false → (collect lossy i c).0 ≡ ok tt
  unfolding collect receive
  collect-goes_on i c h = ground (arith, h)

  collect-ends :
      (i : Input) (c : Collector) → i.received ≡ link_closed → (collect lossy i c).0 ≡ err tt
  unfolding collect receive
  collect-ends i c h = ground (arith, h)

  -- The loop goes through every round in which the link is not closed, with a notification or
  -- without, and it returns with the first round in which it is, whatever would come after.
  pub collector_loop-returns :
      (rounds later : List Input) (last : Input) (c : Collector)
      → All (λ (i : Input). closes i.received ≡ false) rounds
      → last.received ≡ link_closed
      → collector_loop lossy (rounds ++ last ∷ later) c
        ≡ (collect lossy last (collector_loop lossy rounds c)).1
  unfolding collector_loop
  collector_loop-returns [] later last c h closed =
      rw (collect-ends last c closed, collector_loop) refl
  collector_loop-returns (i ∷ rounds) later last c (open_link, h) closed =
      rw (collect-goes_on i c open_link, collector_loop)
        (collector_loop-returns rounds later last (collect lossy i c).1 h closed)

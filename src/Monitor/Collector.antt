-- ===== src/Monitor/Collector.antt =====
-- `collector_loop` of src/monitor/mod.rs: one round takes what the links of the broker hand over
-- in it, and the clocks, as its input.
pub mod Loop
pub mod Stop
use hi_mqtt.Prelude.{ℕ, ◌-◌, Bool, List, [], ◌∷◌, Text, leb, if◌then◌else◌}
use hi_mqtt.Prelude.Exec.{Result, ok, err}
use hi_mqtt.Monitor.State.{
  ConnectionSnapshot, SubscriptionSnapshot, MonitorState, push_message, refresh_stats,
}

-- `rumqttd::Meter`
pub data Meter : Type 0 where
  router subscription : Meter
  connections : List ConnectionSnapshot → Meter
  subscriptions : List SubscriptionSnapshot → Meter

-- What `link_rx.recv_deadline` gives; the topic and the payload are bytes.
pub data Received : Type 0 where
  forward : (topic : List ℕ) (payload : List ℕ) (retain : Bool) → Received
  other_notification nothing recv_timeout link_closed : Received

pub record Collector : Type 0 where
  pub state : MonitorState
  pub connections : List ConnectionSnapshot
  pub subscriptions : List SubscriptionSnapshot
  pub last_meter_poll : ℕ

-- The batches that `meters.recv()` gives until it fails, the instants at which the round looks at
-- its clock, the wall clock at the refresh and at the message, and what the link gives.
pub record Input : Type 0 where
  pub batches : List (List Meter)
  pub polled_at : ℕ
  pub refreshed_at : ℕ
  pub refresh_now : ℕ
  pub received : Received
  pub message_now : ℕ

unfoldable pub take_meter : Meter → Collector → Collector
take_meter router c = c
take_meter subscription c = c
take_meter (connections list) c = record c { connections = list }
take_meter (subscriptions list) c = record c { subscriptions = list }

unfoldable pub take_batch : List Meter → Collector → Collector
unfolding take_meter
take_batch [] c = c
take_batch (meter ∷ batch) c = take_batch batch (take_meter meter c)

-- `while let Ok(batch) = meters.recv()`
unfoldable pub drain_meters : List (List Meter) → Collector → Collector
unfolding take_batch
drain_meters [] c = c
drain_meters (batch ∷ batches) c = drain_meters batches (take_batch batch c)

-- `if last_meter_poll.elapsed().as_secs() >= 1`
unfoldable pub poll : ℕ → ℕ → ℕ → Collector → Collector
unfolding refresh_stats
poll polled_at refreshed_at now c =
    if leb 1000 (polled_at - c.last_meter_poll)
    then record c {
      state = refresh_stats c.connections c.subscriptions now c.state;
      last_meter_poll = refreshed_at;
    }
    else c

module _ (lossy : List ℕ → Text) where
  -- The result is an error when the loop ends.
  unfoldable pub receive : Received → ℕ → Collector → Result (Unit {0}) (Unit {0}) × Collector
  unfolding push_message
  receive (forward topic payload retain) now c =
      (ok tt, record c { state = push_message lossy (lossy topic) payload 0 retain now c.state })
  receive other_notification now c = (ok tt, c)
  receive nothing now c = (ok tt, c)
  receive recv_timeout now c = (ok tt, c)
  receive link_closed now c = (err tt, c)

  unfoldable pub collect : Input → Collector → Result (Unit {0}) (Unit {0}) × Collector
  unfolding drain_meters poll receive
  collect i c =
      receive i.received i.message_now
        (poll i.polled_at i.refreshed_at i.refresh_now (drain_meters i.batches c))

  -- The loop over the rounds' inputs: it ends early when the link is closed.
  unfoldable pub collector_loop : List Input → Collector → Collector
  unfolding collect
  collector_loop [] c = c
  collector_loop (i ∷ inputs) c =
      let rest = collector_loop inputs (collect i c).1 in
      elim (collect i c).0 [ ok _ ↦ rest | err _ ↦ (collect i c).1 ]

-- ===== src/Hooks/Snapshots.antt =====
-- What the snapshots of crates/rumqttd/src/router/routing.rs show, and what the monitor makes of
-- them.
use hi_mqtt.Prelude.{
  ℕ, ◌-◌, ◌≤◌, ◌≡◌, refl, Bool, true, false, not, ◌&&◌, some, List, [], ◌∷◌, map, Text, any,
  text_eq, text_eq_refl, is_empty, select, length, arith, Option-cases, inl, inr, All,
}
use hi_mqtt.Monitor.State.{SubscriptionSnapshot, refresh_stats}
use hi_mqtt.Monitor.Collector.{Collector, drain_meters, poll}
use hi_mqtt.Hooks.{
  Connection, Connections, snapshot, is_client, connection_snapshots, client_at, subscribers_of,
  push_subscription, subscription_snapshots, snapshot_meters,
}

-- The connection of a client that goes by this name.
abbrev pub is_client_named : Text → ℕ × Connection → Bool
is_client_named client_id (id, connection) =
    not connection.bypass_acl && text_eq connection.client_id client_id

client_at-named :
    (id : ℕ) (connections : Connections) (client_id : Text)
    → client_at id connections ≡ some client_id
    → any (is_client_named client_id) connections ≡ true
unfolding client_at
client_at-named id [] client_id h = cc
client_at-named id ((j, connection) ∷ connections) client_id h =
    ground (arith, client_at-named id connections client_id, text_eq_refl client_id)

All-subscribers_of :
    (ids : List ℕ) (connections : Connections)
    → All
        (λ client_id. any (is_client_named client_id) connections ≡ true)
        (subscribers_of ids connections)
unfolding subscribers_of
All-subscribers_of [] connections = tt
All-subscribers_of (id ∷ ids) connections = elim (Option-cases (client_at id connections)) [
  | inl e ↦ rw e (All-subscribers_of ids connections)
  | inr (client_id, e) ↦
      rw e (client_at-named id connections client_id e, All-subscribers_of ids connections)
]

-- What a snapshot of a filter promises: somebody subscribes, and all who do are clients.
abbrev pub IsOfClients : Connections → SubscriptionSnapshot → Type 0
IsOfClients connections shown =
    (is_empty shown.subscribers ≡ false)
    × All (λ client_id. any (is_client_named client_id) connections ≡ true) shown.subscribers

All-push_subscription :
    (connections : Connections) (filter : Text) (clients : List Text)
    (rest : List SubscriptionSnapshot)
    → All (λ client_id. any (is_client_named client_id) connections ≡ true) clients
    → All (IsOfClients connections) rest
    → All (IsOfClients connections) (push_subscription filter clients rest)
All-push_subscription connections filter [] rest h k = k
All-push_subscription connections filter (client_id ∷ clients) rest h k = ((refl, h), k)

-- The snapshots name clients only: no filter without a subscriber, and no link of the program.
pub All-subscription_snapshots :
    (filters : List (Text × List ℕ)) (connections : Connections)
    → All (IsOfClients connections) (subscription_snapshots filters connections)
unfolding subscription_snapshots
All-subscription_snapshots [] connections = tt
All-subscription_snapshots ((filter, ids) ∷ filters) connections =
    All-push_subscription connections filter (subscribers_of ids connections)
      (subscription_snapshots filters connections) (All-subscribers_of ids connections)
      (All-subscription_snapshots filters connections)

length-map {ℓ κ} :
    {A : Type ℓ} {B : Type κ} (f : A → B) (xs : List A) → length (map f xs) ≡ length xs
length-map f [] = omega arith
length-map f (x ∷ xs) = omega (arith, length-map f xs)

-- A batch of the router that ends in the snapshots.
drain-snapshot_meters :
    (filters : List (Text × List ℕ)) (connections : Connections) (c : Collector)
    → drain_meters (snapshot_meters filters connections ∷ []) c ≡ record c {
      connections = connection_snapshots connections;
      subscriptions = subscription_snapshots filters connections;
    }
unfolding drain_meters snapshot_meters
drain-snapshot_meters filters connections c = refl

-- After a round that took a batch of the router and was due for the statistics, the monitor counts
-- exactly the clients, without the links of the program, and shows their subscriptions.
pub poll-snapshot_meters :
    (filters : List (Text × List ℕ)) (connections : Connections) (c : Collector)
    (polled_at refreshed_at now : ℕ)
    → 1000 ≤ polled_at - c.last_meter_poll
    → let after =
        poll polled_at refreshed_at now
          (drain_meters (snapshot_meters filters connections ∷ []) c) in
      (after.state.stats.total_connections ≡ length (select is_client connections))
      × (after.state.connections ≡ connection_snapshots connections)
      × (after.state.subscriptions ≡ subscription_snapshots filters connections)
unfolding poll refresh_stats connection_snapshots
poll-snapshot_meters filters connections c polled_at refreshed_at now h =
    rw (drain-snapshot_meters filters connections c) (
      ground (arith, length-map snapshot (select is_client connections)),
      ground arith,
      ground arith,
    )

-- ===== src/Hooks.antt =====
-- The hooks that the project added to its copy of the broker library, crates/rumqttd: the question
-- to the access control before a publish and a subscription (src/router/routing.rs), and the
-- snapshots of connections and subscriptions for the monitor. The rest of the router is the
-- library's. The feature for tenants is off.
pub mod Access
pub mod Snapshots
pub mod Login
use hi_mqtt.Prelude.{
  ◌==◌, ℕ, Bool, true, false, not, ◌&&◌, Option, none, some, List, [], ◌∷◌, map, Text, codes,
  starts_with, is_empty, select, if◌then◌else◌,
}
use hi_mqtt.Prelude.Exec.{Result, ok, err}
use hi_mqtt.Acl.Cache.{AclOperation, subscribe}
use hi_mqtt.Monitor.State.{ConnectionSnapshot, SubscriptionSnapshot}
use hi_mqtt.Monitor.Collector.{Meter}

-- What the hooks read of a `Connection`. A link that the program itself opens has `bypass_acl`.
pub record Connection : Type 0 where
  pub client_id : Text
  pub clean : Bool
  pub username : Option Text
  pub bypass_acl : Bool
  pub subscriptions : List Text

-- Errors of other libraries are kept without their contents.
pub data RouterError : Type 0 where
  recv try_recv disconnected non_utf8_topic : RouterError
  no_matching_filters invalid_filter_prefix invalid_client_id acl_denied : Text → RouterError
  -- With the code of the reason.
  disconnect : ℕ → RouterError

-- `AclHandler`
abbrev pub AclHandler : Type 0
AclHandler = Text → Text → AclOperation → Bool

-- `connection.username.as_deref().unwrap_or("")`
abbrev pub name_of : Option Text → Text
name_of none = []
name_of (some username) = username

-- The handler's answer, if there is a handler.
abbrev pub asks : Option AclHandler → Text → Text → AclOperation → Bool
asks none username topic_or_filter op = true
asks (some handler) username topic_or_filter op = handler username topic_or_filter op

unfoldable pub check_acl :
    Connection → Text → AclOperation → Option AclHandler → Result RouterError (Unit {0})
check_acl connection topic_or_filter op handler =
    if connection.bypass_acl
    then ok tt
    else if asks handler (name_of connection.username) topic_or_filter op
    then ok tt
    else err (acl_denied topic_or_filter)

unfoldable pub validate_subscription :
    Connection → Text → Option AclHandler → Result RouterError (Unit {0})
unfolding check_acl
validate_subscription connection filter handler =
    if starts_with filter (codes "$") && not (starts_with filter (codes "$share"))
    then err (invalid_filter_prefix filter)
    else check_acl connection filter subscribe handler

-- A publish whose topic is bytes, as far as the hooks read it.
pub record Publish : Type 0 where
  pub topic : List ℕ
  pub payload : List ℕ
  pub retain : Bool

-- The library's part of a publish, on a log `L`: the checks and the topic alias before the hook,
-- the same for a last will, the reading of the topic, and all that is done with a publish after the
-- hook, where the connection may ask for dynamic filters, and with a last will, which has no
-- connection any more.
pub record Datalog (L : Type 0) : Type 0 where
  pub prepare : Publish → Result RouterError Publish
  pub prepare_will : Publish → Result RouterError Publish
  pub from_utf8 : List ℕ → Option Text
  pub append : Connection → Text → Publish → L → Result RouterError (Unit {0}) × L
  pub append_will : Text → Publish → L → Result RouterError (Unit {0}) × L

module _ {L : Type 0} (library : Datalog L) where
  -- What `append_to_commitlog` and `append_will_message` both do with a topic that was read.
  abbrev pub at_topic :
      Option Text
      → (Text → L → Result RouterError (Unit {0}) × L)
      → L
      → Result RouterError (Unit {0}) × L
  at_topic none next log = (err non_utf8_topic, log)
  at_topic (some topic) next log = next topic log

  abbrev after_check :
      Connection
      → Result RouterError (Unit {0})
      → Publish
      → Text
      → L
      → Result RouterError (Unit {0}) × L
  after_check connection (err e) publish topic log = (err e, log)
  after_check connection (ok _) publish topic log = library.append connection topic publish log

  abbrev after_prepare :
      Connection
      → Option AclHandler
      → Result RouterError Publish
      → L
      → Result RouterError (Unit {0}) × L
  after_prepare connection handler (err e) log = (err e, log)
  after_prepare connection handler (ok publish) log =
      at_topic (library.from_utf8 publish.topic)
        (λ topic.
          after_check connection (check_acl connection topic AclOperation.publish handler) publish
            topic)
        log

  unfoldable pub append_to_commitlog :
      Connection → Option AclHandler → Publish → L → Result RouterError (Unit {0}) × L
  unfolding check_acl
  append_to_commitlog connection handler publish log =
      after_prepare connection handler (library.prepare publish) log

  abbrev after_prepare_will : Result RouterError Publish → L → Result RouterError (Unit {0}) × L
  after_prepare_will (err e) log = (err e, log)
  after_prepare_will (ok publish) log =
      at_topic (library.from_utf8 publish.topic) (λ topic. library.append_will topic publish) log

  -- The last will of a client that is gone: between the reading of its properties and the appending
  -- it asks nobody.
  unfoldable pub append_will_message : Publish → L → Result RouterError (Unit {0}) × L
  append_will_message publish log = after_prepare_will (library.prepare_will publish) log

-- The slab of connections: each stands at its id.
abbrev pub Connections : Type 0
Connections = List (ℕ × Connection)

abbrev pub snapshot : ℕ × Connection → ConnectionSnapshot
snapshot (id, connection) = record {
  connection_id = id;
  client_id = connection.client_id;
  username = connection.username;
  clean = connection.clean;
  subscriptions = connection.subscriptions;
}

abbrev pub is_client : ℕ × Connection → Bool
is_client (id, connection) = not connection.bypass_acl

unfoldable pub connection_snapshots : Connections → List ConnectionSnapshot
connection_snapshots connections = map snapshot (select is_client connections)

-- `self.connections.get(*id)`, where a link of the program is left out.
unfoldable pub client_at : ℕ → Connections → Option Text
client_at id [] = none
client_at id ((j, connection) ∷ connections) =
    if j == id
    then (if connection.bypass_acl then none else some connection.client_id)
    else client_at id connections

abbrev pub push_some : Option Text → List Text → List Text
push_some none clients = clients
push_some (some client_id) clients = client_id ∷ clients

unfoldable pub subscribers_of : List ℕ → Connections → List Text
unfolding client_at
subscribers_of [] connections = []
subscribers_of (id ∷ ids) connections =
    push_some (client_at id connections) (subscribers_of ids connections)

abbrev pub push_subscription :
    Text → List Text → List SubscriptionSnapshot → List SubscriptionSnapshot
push_subscription filter [] rest = rest
push_subscription filter (client_id ∷ clients) rest =
    record { filter = filter; subscribers = client_id ∷ clients } ∷ rest

-- The `subscription_map` holds for each filter the ids of its subscribers.
unfoldable pub subscription_snapshots :
    List (Text × List ℕ) → Connections → List SubscriptionSnapshot
unfolding subscribers_of
subscription_snapshots [] connections = []
subscription_snapshots ((filter, ids) ∷ filters) connections =
    push_subscription filter (subscribers_of ids connections)
      (subscription_snapshots filters connections)

-- The two meters of a batch that hold them, which `send_meters` pushes last.
unfoldable pub snapshot_meters : List (Text × List ℕ) → Connections → List Meter
unfolding connection_snapshots subscription_snapshots
snapshot_meters filters connections =
    Meter.connections (connection_snapshots connections)
    ∷ Meter.subscriptions (subscription_snapshots filters connections)
    ∷ []

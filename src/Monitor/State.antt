-- ===== src/Monitor/State.antt =====
-- The state of src/monitor/mod.rs and the operations on it. Times are in milliseconds and are
-- arguments; `String::from_utf8_lossy` is a parameter. What is sent to the web clients stands in
-- `sent`.
pub mod Recent
pub mod Ranking
pub mod Listing
pub mod History
use hi_mqtt.Prelude.{
  ℕ, zero, suc, ◌+◌, ◌-◌, ◌/◌, Bool, true, false, not, ◌||◌, Option, none, some, List, [], ◌∷◌,
  ◌++◌, map, Text, codes, length, take, select, min, max, Map, lookup, insert, ltb, leb,
  if◌then◌else◌,
}
use Prim.Native.Nat.{◌%◌}
use mathlib.Core.List.{reverse}

-- `rumqttd::ConnectionSnapshot` and `rumqttd::SubscriptionSnapshot`
pub record ConnectionSnapshot : Type 0 where
  pub connection_id : ℕ
  pub client_id : Text
  pub username : Option Text
  pub clean : Bool
  pub subscriptions : List Text

pub record SubscriptionSnapshot : Type 0 where
  pub filter : Text
  pub subscribers : List Text

pub record MessageRecord : Type 0 where
  pub id : ℕ
  pub ts : ℕ
  pub topic : Text
  pub payload : Text
  pub payload_bytes : ℕ
  pub qos : ℕ
  pub retain : Bool

pub record TopicCount : Type 0 where
  pub topic : Text
  pub count : ℕ

pub record MonitorStats : Type 0 where
  pub total_connections : ℕ
  pub total_subscriptions : ℕ
  pub total_messages : ℕ
  pub messages_last_minute : ℕ
  pub top_topics : List TopicCount
  pub updated_at : ℕ

pub data MonitorEvent : Type 0 where
  message_event : MessageRecord → MonitorEvent
  stats_event : MonitorStats → MonitorEvent

pub record MonitorState : Type 0 where
  pub messages : List MessageRecord
  pub stats : MonitorStats
  pub connections : List ConnectionSnapshot
  pub subscriptions : List SubscriptionSnapshot
  pub topic_counts : Map ℕ
  pub recent_ts : List ℕ
  pub message_total : ℕ
  pub max_messages : ℕ
  pub sent : List MonitorEvent

-- `MonitorState::new`
unfoldable pub new_monitor : ℕ → MonitorState
new_monitor max_messages = record {
  messages = [];
  stats = record {
    total_connections = 0;
    total_subscriptions = 0;
    total_messages = 0;
    messages_last_minute = 0;
    top_topics = [];
    updated_at = 0;
  };
  connections = [];
  subscriptions = [];
  topic_counts = [];
  recent_ts = [];
  message_total = 0;
  max_messages = max_messages;
  sent = [];
}

-- A minute.
abbrev pub window : ℕ
window = 60000

abbrev pub u64_mod : ℕ
u64_mod = 18446744073709551616

-- The digits of a number, of which there are no more than the fuel.
decimal_from : ℕ → ℕ → Text → Text
decimal_from zero n acc = acc
decimal_from (suc fuel) n acc =
    let digits = (48 + n % 10) ∷ acc in
    let rest = decimal_from fuel (n / 10) digits in if ltb n 10 then digits else rest

unfoldable pub decimal : ℕ → Text
unfolding decimal_from
decimal n = decimal_from (suc n) n []

-- `payload_to_string`, with `String::from_utf8_lossy`
unfoldable pub payload_to_string : (List ℕ → Text) → List ℕ → Text
unfolding decimal
payload_to_string lossy bytes =
    if ltb 4096 (length bytes)
    then lossy (take 4096 bytes) ++ codes "… [" ++ decimal (length bytes) ++ codes " bytes]"
    else lossy bytes

abbrev pub pop_front {ℓ} : {A : Type ℓ} → List A → List A
pop_front [] = []
pop_front (x ∷ xs) = xs

unfoldable pub store_message : ℕ → MessageRecord → List MessageRecord → List MessageRecord
store_message max_messages m messages =
    (if leb max_messages (length messages) then pop_front messages else messages) ++ m ∷ []

abbrev pub or_zero : Option ℕ → ℕ
or_zero none = 0
or_zero (some n) = n

-- `*counts.entry(topic).or_insert(0) += 1`, on a `usize` of 64 bits that wraps around, as a release
-- build has it.
unfoldable pub count_topic : Text → Map ℕ → Map ℕ
unfolding lookup insert
count_topic topic counts = insert topic ((or_zero (lookup topic counts) + 1) % u64_mod) counts

-- The loop that pops the times before the limit.
unfoldable pub drop_before : ℕ → List ℕ → List ℕ
drop_before limit [] = []
drop_before limit (t ∷ ts) = let rest = drop_before limit ts in if ltb t limit then rest else t ∷ ts

module _ (lossy : List ℕ → Text) where
  -- `fetch_add` wraps around.
  unfoldable pub new_record : Text → List ℕ → ℕ → Bool → ℕ → ℕ → MessageRecord
  unfolding payload_to_string
  new_record topic payload qos retain now total = record {
    id = (total + 1) % u64_mod;
    ts = now;
    topic = topic;
    payload = payload_to_string lossy payload;
    payload_bytes = length payload;
    qos = qos;
    retain = retain;
  }

  unfoldable pub push_message : Text → List ℕ → ℕ → Bool → ℕ → MonitorState → MonitorState
  unfolding new_record store_message count_topic drop_before
  push_message topic payload qos retain now s =
      let m = new_record topic payload qos retain now s.message_total in
      record s {
        messages = store_message s.max_messages m s.messages;
        topic_counts = count_topic topic s.topic_counts;
        recent_ts = drop_before (now - window) (s.recent_ts ++ now ∷ []);
        message_total = (s.message_total + 1) % u64_mod;
        sent = s.sent ++ message_event m ∷ [];
      }

module _ {ℓ} {A : Type ℓ} (key : A → ℕ) where
  insert_desc : A → List A → List A
  insert_desc r [] = r ∷ []
  insert_desc r (x ∷ xs) =
      let later = x ∷ insert_desc r xs in if leb (key x) (key r) then r ∷ x ∷ xs else later

  -- The stable sort by a key that falls.
  unfoldable pub sort_desc : List A → List A
  unfolding insert_desc
  sort_desc [] = []
  sort_desc (r ∷ rs) = insert_desc r (sort_desc rs)

abbrev pub to_topic_count : Text × ℕ → TopicCount
to_topic_count (topic, count) = record { topic = topic; count = count }

unfoldable pub top_topics : Map ℕ → List TopicCount
unfolding sort_desc
top_topics counts = take 8 (sort_desc (λ c. c.count) (map to_topic_count counts))

unfoldable pub count_subscriptions : List ConnectionSnapshot → ℕ
count_subscriptions [] = 0
count_subscriptions (c ∷ cs) = length c.subscriptions + count_subscriptions cs

unfoldable pub refresh_stats :
    List ConnectionSnapshot → List SubscriptionSnapshot → ℕ → MonitorState → MonitorState
unfolding top_topics count_subscriptions
refresh_stats connections subscriptions now s =
    let stats : MonitorStats = record {
      total_connections = length connections;
      total_subscriptions = count_subscriptions connections;
      total_messages = s.message_total;
      messages_last_minute = length s.recent_ts;
      top_topics = top_topics s.topic_counts;
      updated_at = now;
    } in
    record s {
      stats = stats;
      connections = connections;
      subscriptions = subscriptions;
      sent = s.sent ++ stats_event stats ∷ [];
    }

unfoldable pub list_messages : Bool → ℕ → ℕ → MonitorState → List MessageRecord
unfolding select sort_desc
list_messages recent_only limit now s =
    let keep = λ (m : MessageRecord). not recent_only || leb (now - window) m.ts in
    sort_desc (λ m. m.ts)
      (take (max (min limit s.max_messages) 1) (select keep (reverse s.messages)))

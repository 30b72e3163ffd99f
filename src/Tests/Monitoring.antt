-- ===== src/Tests/Monitoring.antt =====
-- The monitor of src/monitor on short histories.
use hi_mqtt.Prelude.{
  ℕ, ◌*◌, ◌/◌, ◌==◌, ◌≡◌, ◌≤◌, refl, arith, if◌then◌else◌, none, some, false, [], ◌∷◌, ◌++◌, List,
  Text, Bool, select, codes, length, min, max, any, map,
}
use hi_mqtt.Monitor.State.{
  MessageRecord, MonitorState, TopicCount, new_monitor, list_messages, top_topics, to_topic_count,
}
use mathlib.Core.List.{reverse}
use hi_mqtt.Monitor.State.Listing.{is_asked, list_messages-newest}
use hi_mqtt.Monitor.State.Ranking.{IsFalling, top_topics_ranking}
use hi_mqtt.Monitor.Collector.{
  forward, nothing, link_closed, Collector, Input, collect, collector_loop,
}
use hi_mqtt.Monitor.Collector.Stop.{collector_loop-returns}
use hi_mqtt.Monitor.System.Snapshot.{
  Floats, Readings, collect_snapshot, snapshot_after, AgreeOffZero, snapshot_after-agrees,
}

abbrev bytes : List ℕ → Text
bytes b = b

abbrev message : ℕ → MessageRecord
message now = record {
  id = 1;
  ts = now;
  topic = codes "a";
  payload = codes "x";
  payload_bytes = 1;
  qos = 0;
  retain = false;
}

-- A buffer of one message that has seen one message.
abbrev seen : MonitorState
seen = record (new_monitor 1) {
  messages = message 5 ∷ [];
  topic_counts = (codes "a", 1) ∷ [];
  recent_ts = 5 ∷ [];
  message_total = 1;
}

abbrev seen_two : MonitorState
seen_two = record (new_monitor 2) { messages = message 5 ∷ message 6 ∷ [] }

one_is_listed :
    (rest : List MessageRecord) × (list_messages false 1 9 seen_two ++ rest
      ≡ reverse (select (is_asked 9 false) seen_two.messages))
    × (length (list_messages false 1 9 seen_two)
        ≡ min (max (min 1 2) 1) (length (select (is_asked 9 false) seen_two.messages)))
unfolding new_monitor
one_is_listed = list_messages-newest 1 9 seen_two false ((omega arith, tt), (tt, tt))

two_are_ranked :
    (rest : List TopicCount) × (length (top_topics ((codes "a", 1) ∷ (codes "b", 2) ∷ [])) ≤ 8)
    × IsFalling (λ c. c.count) (top_topics ((codes "a", 1) ∷ (codes "b", 2) ∷ []) ++ rest)
    × ((p : TopicCount → Bool)
        → any p (top_topics ((codes "a", 1) ∷ (codes "b", 2) ∷ []) ++ rest)
          ≡ any p (map to_topic_count ((codes "a", 1) ∷ (codes "b", 2) ∷ [])))
two_are_ranked = top_topics_ranking ((codes "a", 1) ∷ (codes "b", 2) ∷ [])

abbrev quiet : Input
quiet = record {
  batches = [];
  polled_at = 0;
  refreshed_at = 0;
  refresh_now = 0;
  received = nothing;
  message_now = 0;
}

abbrev arrival : Input
arrival = record quiet { received = forward (codes "a") (codes "x") false; message_now = 9 }

abbrev shut : Input
shut = record quiet { received = link_closed }

abbrev collector : Collector
collector = record { state = seen; connections = []; subscriptions = []; last_meter_poll = 0 }

loop_stops_at_the_close :
    collector_loop bytes (arrival ∷ quiet ∷ shut ∷ arrival ∷ []) collector
    ≡ (collect bytes shut (collector_loop bytes (arrival ∷ quiet ∷ []) collector)).1
loop_stops_at_the_close =
    collector_loop-returns bytes (arrival ∷ quiet ∷ []) (arrival ∷ []) shut collector
      (refl, (refl, tt)) refl

-- Two arithmetics that differ in what a division by zero gives.
abbrev floats : ℕ → Floats ℕ ℕ
floats by_zero = record {
  f32_zero = 0;
  f32_sum = length;
  f32_of = λ n. n;
  f32_div = λ x y. if y == 0 then by_zero else x / y;
  f64_of = λ n. n;
  f64_div = λ x y. if y == 0 then by_zero else x / y;
  percent = λ x. 100 * x;
}

floats-AgreeOffZero : AgreeOffZero (floats 1) (floats 2)
floats-AgreeOffZero = record {
  zeros = refl;
  sums = λ xs. refl;
  f32s = λ n. refl;
  f64s = λ n. refl;
  percents = λ x. refl;
  f32_divs = λ x n h. ground (arith, h);
  f64_divs = λ x n h. ground (arith, h);
}

-- A machine that tells nothing of itself.
abbrev bare : Readings ℕ ℕ
bare = record {
  cpus = [];
  total_memory = 0;
  used_memory = 0;
  total_swap = 0;
  used_swap = 0;
  disks = [];
  load_one = 0;
  load_five = 0;
  load_fifteen = 0;
  process = none;
  host_name = none;
  uptime = 0;
  now = 9;
}

bare_machine_is_shown :
    snapshot_after (floats 1) (some bare ∷ none ∷ []) (collect_snapshot (floats 1) bare)
    ≡ snapshot_after (floats 2) (some bare ∷ none ∷ []) (collect_snapshot (floats 1) bare)
bare_machine_is_shown =
    snapshot_after-agrees (floats 1) (floats 2) floats-AgreeOffZero (some bare ∷ none ∷ [])
      (collect_snapshot (floats 1) bare)

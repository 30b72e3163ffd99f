-- ===== src/Tests/Racing.antt =====
-- Reloads that overlap, and the rounds of the collector, on the sample server.
use hi_mqtt.Prelude.{ℕ, refl, true, false, List, [], ◌∷◌, Text, codes, arith}
use hi_mqtt.Db.Users.{remove_user}
use hi_mqtt.Acl.Cache.{build_cache}
use hi_mqtt.Acl.Service.Reload.{user_rows, topic_rows, acl_rows}
use hi_mqtt.Acl.Interleaving.{
  Shared, unshared, start, later, read_users, ShowsTables, proceed, users_read, topics_read,
}
use hi_mqtt.Acl.Interleaving.Quiet.{QuietRun-ShowsTables}
use hi_mqtt.Monitor.State.{new_monitor, new_record}
use hi_mqtt.Monitor.State.History.{new_monitor-IsViewOf}
use hi_mqtt.Monitor.Collector.{Collector, Input, Received, forward, link_closed, collector_loop}
use hi_mqtt.Monitor.Collector.Loop.{handed_over, IsExtended, collector_loop-IsViewOf}
use hi_mqtt.Tests.Sample.{service, tables}

abbrev racing : Shared
racing = unshared service

abbrev shown : Shared
shown = record racing {
  cache = build_cache (user_rows tables) (topic_rows tables) (acl_rows tables) 7;
}

shown_stays_shown : ShowsTables (proceed shown 3 (users_read (user_rows tables)))
shown_stays_shown =
    QuietRun-ShowsTables (λ i. tt) (record { instant = 7; cached = refl })
      (later start (read_users shown 3 refl))

-- A task has read the users when another deletes one, and reads the topics after that.
abbrev after_users : Shared
after_users = proceed shown 3 (users_read (user_rows tables))

abbrev written : Shared
written = record after_users { tables = (remove_user 1 9 tables).1 }

abbrev after_topics : Shared
after_topics = proceed written 3 (topics_read (user_rows tables) (topic_rows written.tables))

abbrev bytes : List ℕ → Text
bytes b = b

abbrev collector : Collector
collector = record {
  state = new_monitor 1;
  connections = [];
  subscriptions = [];
  last_meter_poll = 0;
}

abbrev round_of : Received → ℕ → Input
round_of received now = record {
  batches = [];
  polled_at = now;
  refreshed_at = now;
  refresh_now = now;
  received = received;
  message_now = now;
}

abbrev rounds : List Input
rounds =
    round_of (forward (codes "a") (codes "x") false) 70000
    ∷ round_of (forward (codes "b") (codes "y") true) 70005
    ∷ round_of link_closed 70006
    ∷ round_of (forward (codes "c") (codes "z") true) 70007
    ∷ []

two_messages_are_viewed :
    IsExtended bytes [] 0 (handed_over bytes rounds 0) (collector_loop bytes rounds collector).state
unfolding new_monitor new_record
two_messages_are_viewed =
    collector_loop-IsViewOf bytes rounds collector [] 0 (new_monitor-IsViewOf 1)
      ((omega arith, tt), (tt, tt)) (omega arith, (omega arith, tt))

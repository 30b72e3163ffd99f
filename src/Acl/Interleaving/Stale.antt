-- ===== src/Acl/Interleaving/Stale.antt =====
-- What overlapping reloads of src/acl/mod.rs may leave: the cache of a reload that read before a
-- write can replace the cache of a reload that read after it.
use hi_mqtt.Prelude.{ℕ}
use hi_mqtt.Db.Schema.{Tables}
use hi_mqtt.Db.Users.{remove_user}
use hi_mqtt.Acl.Cache.{build_cache}
use hi_mqtt.Acl.Service.Reload.{user_rows, topic_rows, acl_rows}
use hi_mqtt.Acl.Interleaving.{idle, users_read, topics_read, rules_read, Shared, proceed}

-- The states of the schedule: task 1 reads everything, the user is deleted, task 2 reloads, and
-- then task 1 writes what it has read.
module _ (s : Shared) (id now : ℕ) where
  abbrev read : Shared
  read =
      proceed
        (proceed (proceed s 1 (users_read (user_rows s.tables))) 1
          (topics_read (user_rows s.tables) (topic_rows s.tables)))
        1 (rules_read (user_rows s.tables) (topic_rows s.tables) (acl_rows s.tables))

  abbrev left : Tables
  left = (remove_user id now s.tables).1

  abbrev deleted : Shared
  deleted = record read { tables = left }

  abbrev second_read : Shared
  second_read =
      proceed
        (proceed (proceed deleted 2 (users_read (user_rows left))) 2
          (topics_read (user_rows left) (topic_rows left)))
        2 (rules_read (user_rows left) (topic_rows left) (acl_rows left))

  abbrev pub reloaded : Shared
  reloaded = record (proceed second_read 2 idle) {
    cache = build_cache (user_rows left) (topic_rows left) (acl_rows left) now;
  }

  abbrev pub overwritten : Shared
  overwritten = record (proceed reloaded 1 idle) {
    cache = build_cache (user_rows s.tables) (topic_rows s.tables) (acl_rows s.tables) now;
  }

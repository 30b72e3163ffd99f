-- ===== src/Acl/Interleaving.antt =====
-- Reloads that run at the same time as writers and as one another: `reload` of src/acl/mod.rs waits
-- for the database between its reads, and runs in the refresh task and in every handler that
-- writes. A step is one statement, or the write to the cache.
pub mod Quiet
pub mod Mixed
pub mod Stale
use hi_mqtt.Prelude.{ℕ, ◌≡◌, List, ◌==◌, if◌then◌else◌}
use hi_mqtt.Db.Schema.{MqttUserRow, MqttTopicRow, AclRuleRow, Tables}
use hi_mqtt.Acl.Cache.{AclCache, build_cache}
use hi_mqtt.Acl.Service.{AclService}
use hi_mqtt.Acl.Service.Reload.{user_rows, topic_rows, acl_rows}

-- How far a reload has come, and what it has read.
pub data Progress : Type 0 where
  idle : Progress
  users_read : List MqttUserRow → Progress
  topics_read : List MqttUserRow → List MqttTopicRow → Progress
  rules_read : List MqttUserRow → List MqttTopicRow → List AclRuleRow → Progress

-- The database, the cache, and the tasks that may reload, by number.
pub record Shared : Type 0 where
  pub tables : Tables
  pub cache : AclCache
  pub tasks : ℕ → Progress

abbrev pub update : (ℕ → Progress) → ℕ → Progress → ℕ → Progress
update tasks i p j = if i == j then p else tasks j

abbrev pub proceed : Shared → ℕ → Progress → Shared
proceed s i p = record s { tasks = update s.tasks i p }

-- A step of a reload; `give_up` is one whose statement failed.
pub data ReloadStep : Shared → Shared → Type 0 where
  read_users :
      (s : Shared) (i : ℕ)
      → s.tasks i ≡ idle
      → ReloadStep s (proceed s i (users_read (user_rows s.tables)))
  read_topics :
      (s : Shared) (i : ℕ) (users : List MqttUserRow)
      → s.tasks i ≡ users_read users
      → ReloadStep s (proceed s i (topics_read users (topic_rows s.tables)))
  read_rules :
      (s : Shared) (i : ℕ) (users : List MqttUserRow) (topics : List MqttTopicRow)
      → s.tasks i ≡ topics_read users topics
      → ReloadStep s (proceed s i (rules_read users topics (acl_rows s.tables)))
  store :
      (s : Shared) (i : ℕ) (users : List MqttUserRow) (topics : List MqttTopicRow)
      (rules : List AclRuleRow) (now : ℕ)
      → s.tasks i ≡ rules_read users topics rules
      → ReloadStep s (record (proceed s i idle) { cache = build_cache users topics rules now })
  give_up : (s : Shared) (i : ℕ) → ReloadStep s (proceed s i idle)

-- A service when no reload is under way.
abbrev pub unshared : AclService → Shared
unshared s = record { tables = s.database.tables; cache = s.cache; tasks = λ i. idle }

-- Runs in which nothing is written.
pub data QuietRun (s : Shared) : Shared → Type 0 where
  start : QuietRun s s
  later : {t u : Shared} → QuietRun s t → ReloadStep t u → QuietRun s u

-- Runs in which other tasks may write anything between the steps of a reload.
pub data Run (s : Shared) : Shared → Type 0 where
  here : Run s s
  reloading : {t u : Shared} → Run s t → ReloadStep t u → Run s u
  writing : {t : Shared} → Run s t → (tables : Tables) → Run s (record t { tables = tables })

-- The cache is the picture of the tables at some instant.
pub record ShowsTables (s : Shared) : Type 0 where
  pub instant : ℕ
  pub cached :
      s.cache ≡ build_cache (user_rows s.tables) (topic_rows s.tables) (acl_rows s.tables) instant

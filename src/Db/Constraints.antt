-- ===== src/Db/Constraints.antt =====
-- The constraints of migrations/001 and 002 as one predicate on the tables: the primary keys and
-- the UNIQUE columns of each table, and the references between them.
pub mod Owners
pub mod Rules
pub mod Categories
pub mod Upserts
pub mod Changes
use hi_mqtt.Prelude.{
  ℕ, suc, ◌≡◌, ◌≤◌, refl, Bool, true, false, Option, none, some, List, [], ◌∷◌, ◌++◌, Text, text_eq,
  any, All, ◌==◌,
}
use hi_mqtt.Db.Schema.{
  AdminUserRow, MqttUserCategoryRow, StoredUser, MqttTopicRow, AclRuleRow, Tables, has_user,
  has_owner, has_category,
}
use hi_mqtt.Db.Acls.{keyed}
use hi_mqtt.Db.Table.{IsTable}

abbrev pub IsUsers : ℕ → List StoredUser → Type 0
IsUsers = IsTable (λ u. u.id) (λ u v. text_eq u.username v.username ≡ false)

abbrev pub IsTopics : ℕ → List MqttTopicRow → Type 0
IsTopics = IsTable (λ r. r.id) (λ r s. text_eq r.topic s.topic ≡ false)

abbrev pub IsAcls : ℕ → List AclRuleRow → Type 0
IsAcls = IsTable (λ r. r.id) (λ r s. keyed s.username s.topic_pattern r ≡ false)

abbrev pub IsCategories : ℕ → List MqttUserCategoryRow → Type 0
IsCategories = IsTable (λ c. c.id) (λ c d. text_eq c.name d.name ≡ false)

abbrev pub IsAdmins : ℕ → List AdminUserRow → Type 0
IsAdmins = IsTable (λ a. a.id) (λ a b. text_eq a.username b.username ≡ false)

pub record IsSound (t : Tables) : Type 0 where
  pub admins : IsAdmins t.admin_seq t.admin_users
  pub categories : IsCategories t.category_seq t.categories
  pub users : IsUsers t.user_seq t.users
  pub topics : IsTopics t.topic_seq t.topics
  pub acls : IsAcls t.acl_seq t.acls
  -- Each reference is to a row that is there.
  pub user_categories : All (λ u. has_category t.categories u.category_id ≡ true) t.users
  pub topic_owners : All (λ r. has_owner t.users r.owner_username ≡ true) t.topics
  pub rule_users : All (λ r. has_user t.users r.username ≡ true) t.acls

-- The new contents of one table, with what the references to it and from it need.
module _ (t : Tables) (h : IsSound t) where
  pub with_admins :
      (seq : ℕ) (rows : List AdminUserRow)
      → IsAdmins seq rows
      → IsSound (record t { admin_users = rows; admin_seq = seq })
  with_admins seq rows k = record {
    admins = k;
    categories = h.categories;
    users = h.users;
    topics = h.topics;
    acls = h.acls;
    user_categories = h.user_categories;
    topic_owners = h.topic_owners;
    rule_users = h.rule_users;
  }

  pub with_categories :
      (seq : ℕ) (rows : List MqttUserCategoryRow)
      → IsCategories seq rows
      → All (λ u. has_category rows u.category_id ≡ true) t.users
      → IsSound (record t { categories = rows; category_seq = seq })
  with_categories seq rows k l = record {
    admins = h.admins;
    categories = k;
    users = h.users;
    topics = h.topics;
    acls = h.acls;
    user_categories = l;
    topic_owners = h.topic_owners;
    rule_users = h.rule_users;
  }

  pub with_users :
      (seq : ℕ) (rows : List StoredUser)
      → IsUsers seq rows
      → All (λ u. has_category t.categories u.category_id ≡ true) rows
      → All (λ r. has_owner rows r.owner_username ≡ true) t.topics
      → All (λ r. has_user rows r.username ≡ true) t.acls
      → IsSound (record t { users = rows; user_seq = seq })
  with_users seq rows k c o r = record {
    admins = h.admins;
    categories = h.categories;
    users = k;
    topics = h.topics;
    acls = h.acls;
    user_categories = c;
    topic_owners = o;
    rule_users = r;
  }

  pub with_topics :
      (seq : ℕ) (rows : List MqttTopicRow)
      → IsTopics seq rows
      → All (λ r. has_owner t.users r.owner_username ≡ true) rows
      → IsSound (record t { topics = rows; topic_seq = seq })
  with_topics seq rows k o = record {
    admins = h.admins;
    categories = h.categories;
    users = h.users;
    topics = k;
    acls = h.acls;
    user_categories = h.user_categories;
    topic_owners = o;
    rule_users = h.rule_users;
  }

  pub with_acls :
      (seq : ℕ) (rows : List AclRuleRow)
      → IsAcls seq rows
      → All (λ r. has_user t.users r.username ≡ true) rows
      → IsSound (record t { acls = rows; acl_seq = seq })
  with_acls seq rows k r = record {
    admins = h.admins;
    categories = h.categories;
    users = h.users;
    topics = h.topics;
    acls = k;
    user_categories = h.user_categories;
    topic_owners = h.topic_owners;
    rule_users = r;
  }

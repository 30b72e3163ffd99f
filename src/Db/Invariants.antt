-- ===== src/Db/Invariants.antt =====
-- What every statement of src/db/mod.rs keeps, every function there keeps: the statements that
-- write are the interface of the tables.
use hi_mqtt.Prelude.{◌≡◌, refl, ℕ, Bool, Option, none, some, List, [], ◌∷◌, Text}
use hi_mqtt.Prelude.Keeps.{Keeps, Keeps-bind, keeps_rules}
use hi_mqtt.Db.Schema.{Tables, UserDefaultsSettings, DefaultTopicTemplate, DefaultAclTemplate}
use hi_mqtt.Db.Query.{Link, Database, Statement, run}
use hi_mqtt.Db.Query.Laws.{run-tables}
use hi_mqtt.Db.Categories as Categories
use hi_mqtt.Db.Users as Users
use hi_mqtt.Db.Topics as Topics
use hi_mqtt.Db.Acls as Acls
use hi_mqtt.Db.Admins as Admins
use hi_mqtt.Db.Defaults as Defaults
use hi_mqtt.Db.Defaults.{Serde}

-- All statements that write, and what they keep.
pub record IsInvariant (P : Tables → Type 0) : Type 0 where
  pub insert_category :
      (name description : Text) (now : ℕ)
      → Keeps P (Categories.insert_category name description now)
  pub set_category :
      (id : ℕ) (name description : Text) (now : ℕ)
      → Keeps P (Categories.set_category id name description now)
  pub remove_category : (id now : ℕ) → Keeps P (Categories.remove_category id now)
  pub insert_user :
      (username password_hash : Text) (enabled : Bool) (category_id : Option ℕ) (now : ℕ)
      → Keeps P (Users.insert_user username password_hash enabled category_id now)
  pub set_user :
      (id : ℕ) (password_hash : Option Text) (enabled : Bool) (category_id : Option (Option ℕ))
      (now : ℕ)
      → Keeps P (Users.set_user id password_hash enabled category_id now)
  pub remove_user : (id now : ℕ) → Keeps P (Users.remove_user id now)
  pub note_login : (username ip : Text) (now : ℕ) → Keeps P (Users.note_login username ip now)
  pub insert_topic :
      (topic description : Text) (owner_username : Option Text) (now : ℕ)
      → Keeps P (Topics.insert_topic topic description owner_username now)
  pub set_topic :
      (id : ℕ) (topic description : Text) (owner_username : Option Text) (now : ℕ)
      → Keeps P (Topics.set_topic id topic description owner_username now)
  pub remove_topic : (id now : ℕ) → Keeps P (Topics.remove_topic id now)
  pub insert_acl :
      (username topic_pattern : Text) (can_subscribe can_publish : Bool) (now : ℕ)
      → Keeps P (Acls.insert_acl username topic_pattern can_subscribe can_publish now)
  pub set_acl :
      (id : ℕ) (topic_pattern : Text) (can_subscribe can_publish : Bool) (now : ℕ)
      → Keeps P (Acls.set_acl id topic_pattern can_subscribe can_publish now)
  pub remove_acl : (id now : ℕ) → Keeps P (Acls.remove_acl id now)
  pub insert_admin :
      (username password_hash : Text) (now : ℕ)
      → Keeps P (Admins.insert_admin username password_hash now)
  pub upsert_topic :
      (topic description username : Text) (now : ℕ)
      → Keeps P (Defaults.upsert_topic topic description username now)
  pub upsert_acl :
      (username topic_pattern : Text) (can_subscribe can_publish : Bool) (now : ℕ)
      → Keeps P (Defaults.upsert_acl username topic_pattern can_subscribe can_publish now)
  pub upsert_defaults : (value : Text) (now : ℕ) → Keeps P (Defaults.upsert_defaults value now)

abbrev pub InDatabase : (Tables → Type 0) → Database → Type 0
InDatabase P d = P d.tables

module _ (P : Tables → Type 0) where
  pub run-Keeps :
      {A : Type 0} (link : Link) (context : Text) (statement : Statement A)
      → ((now : ℕ) → Keeps P (statement now))
      → Keeps (InDatabase P) (run link context statement)
  run-Keeps link context statement k = record {
    at = λ d h. run-tables link context statement d P h ((k (link.now d.statements)).at d.tables h);
  }

  -- A statement that only reads.
  pub reads-Keeps :
      {A : Type 0} (link : Link) (context : Text) (statement : Statement A)
      → ((now : ℕ) (t : Tables) → (statement now t).1 ≡ t)
      → Keeps (InDatabase P) (run link context statement)
  reads-Keeps link context statement k =
      run-Keeps link context statement (λ now. record { at = λ t h. rw (k now t) h })

module _ {P : Tables → Type 0} (inv : IsInvariant P) (link : Link) where
  apply_topics-Keeps :
      (username : Text) (topics : List DefaultTopicTemplate)
      → Keeps (InDatabase P) (Defaults.apply_topics link username topics)
  unfolding Defaults.apply_topics
  apply_topics-Keeps username [] = search keeps_rules
  apply_topics-Keeps username (topic ∷ topics) =
      Keeps-bind _ _ (run-Keeps P link _ _ (inv.upsert_topic _ _ username))
        (λ _. apply_topics-Keeps username topics)

  apply_acls-Keeps :
      (username : Text) (acls : List DefaultAclTemplate)
      → Keeps (InDatabase P) (Defaults.apply_acls link username acls)
  unfolding Defaults.apply_acls
  apply_acls-Keeps username [] = search keeps_rules
  apply_acls-Keeps username (acl ∷ acls) =
      Keeps-bind _ _ (run-Keeps P link _ _ (inv.upsert_acl username _ _ _))
        (λ _. apply_acls-Keeps username acls)

  pub apply_user_defaults-Keeps :
      (username : Text) (defaults : UserDefaultsSettings)
      → Keeps (InDatabase P) (Defaults.apply_user_defaults link username defaults)
  unfolding Defaults.apply_user_defaults
  apply_user_defaults-Keeps username defaults =
      search (keeps_rules, apply_topics-Keeps, apply_acls-Keeps)

  parse_defaults-Keeps :
      (serde : Serde) (value : Option Text)
      → Keeps (InDatabase P) (Defaults.parse_defaults link serde value)
  unfolding Defaults.parse_defaults
  parse_defaults-Keeps serde none = search keeps_rules
  parse_defaults-Keeps serde (some value) = search keeps_rules

  pub get_user_defaults-Keeps :
      (serde : Serde) → Keeps (InDatabase P) (Defaults.get_user_defaults link serde)
  unfolding Defaults.get_user_defaults Defaults.select_defaults
  get_user_defaults-Keeps serde = search (keeps_rules, reads-Keeps P, parse_defaults-Keeps, refl)

  pub set_user_defaults-Keeps :
      (serde : Serde) (settings : UserDefaultsSettings)
      → Keeps (InDatabase P) (Defaults.set_user_defaults link serde settings)
  unfolding Defaults.set_user_defaults
  set_user_defaults-Keeps serde settings = search (keeps_rules, run-Keeps P, inv.upsert_defaults)

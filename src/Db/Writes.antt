-- ===== src/Db/Writes.antt =====
-- The statements of src/db/mod.rs that write, as one relation on the tables.
use hi_mqtt.Prelude.{ℕ, Bool, Option, Text}
use hi_mqtt.Db.Schema.{Tables}
use hi_mqtt.Db.Categories as Categories
use hi_mqtt.Db.Users as Users
use hi_mqtt.Db.Topics as Topics
use hi_mqtt.Db.Acls as Acls
use hi_mqtt.Db.Admins as Admins
use hi_mqtt.Db.Defaults as Defaults
use hi_mqtt.Db.Invariants.{IsInvariant}

-- One statement, with whatever outcome.
pub data Write (t : Tables) : Tables → Type 0 where
  insert_category :
      (name description : Text) (now : ℕ)
      → Write t (Categories.insert_category name description now t).1
  set_category :
      (id : ℕ) (name description : Text) (now : ℕ)
      → Write t (Categories.set_category id name description now t).1
  remove_category : (id now : ℕ) → Write t (Categories.remove_category id now t).1
  insert_user :
      (username password_hash : Text) (enabled : Bool) (category_id : Option ℕ) (now : ℕ)
      → Write t (Users.insert_user username password_hash enabled category_id now t).1
  set_user :
      (id : ℕ) (password_hash : Option Text) (enabled : Bool) (category_id : Option (Option ℕ))
      (now : ℕ)
      → Write t (Users.set_user id password_hash enabled category_id now t).1
  remove_user : (id now : ℕ) → Write t (Users.remove_user id now t).1
  note_login : (username ip : Text) (now : ℕ) → Write t (Users.note_login username ip now t).1
  insert_topic :
      (topic description : Text) (owner_username : Option Text) (now : ℕ)
      → Write t (Topics.insert_topic topic description owner_username now t).1
  set_topic :
      (id : ℕ) (topic description : Text) (owner_username : Option Text) (now : ℕ)
      → Write t (Topics.set_topic id topic description owner_username now t).1
  remove_topic : (id now : ℕ) → Write t (Topics.remove_topic id now t).1
  insert_acl :
      (username topic_pattern : Text) (can_subscribe can_publish : Bool) (now : ℕ)
      → Write t (Acls.insert_acl username topic_pattern can_subscribe can_publish now t).1
  set_acl :
      (id : ℕ) (topic_pattern : Text) (can_subscribe can_publish : Bool) (now : ℕ)
      → Write t (Acls.set_acl id topic_pattern can_subscribe can_publish now t).1
  remove_acl : (id now : ℕ) → Write t (Acls.remove_acl id now t).1
  insert_admin :
      (username password_hash : Text) (now : ℕ)
      → Write t (Admins.insert_admin username password_hash now t).1
  upsert_topic :
      (topic description username : Text) (now : ℕ)
      → Write t (Defaults.upsert_topic topic description username now t).1
  upsert_acl :
      (username topic_pattern : Text) (can_subscribe can_publish : Bool) (now : ℕ)
      → Write t (Defaults.upsert_acl username topic_pattern can_subscribe can_publish now t).1
  upsert_defaults : (value : Text) (now : ℕ) → Write t (Defaults.upsert_defaults value now t).1

-- What all statements keep, each of them keeps.
pub Write-Keeps : {P : Tables → Type 0} {t u : Tables} → IsInvariant P → Write t u → P t → P u
Write-Keeps {t = t} inv (insert_category n d now) h = (inv.insert_category n d now).at t h
Write-Keeps {t = t} inv (set_category id n d now) h = (inv.set_category id n d now).at t h
Write-Keeps {t = t} inv (remove_category id now) h = (inv.remove_category id now).at t h
Write-Keeps {t = t} inv (insert_user u p e c now) h = (inv.insert_user u p e c now).at t h
Write-Keeps {t = t} inv (set_user id p e c now) h = (inv.set_user id p e c now).at t h
Write-Keeps {t = t} inv (remove_user id now) h = (inv.remove_user id now).at t h
Write-Keeps {t = t} inv (note_login u ip now) h = (inv.note_login u ip now).at t h
Write-Keeps {t = t} inv (insert_topic a d o now) h = (inv.insert_topic a d o now).at t h
Write-Keeps {t = t} inv (set_topic id a d o now) h = (inv.set_topic id a d o now).at t h
Write-Keeps {t = t} inv (remove_topic id now) h = (inv.remove_topic id now).at t h
Write-Keeps {t = t} inv (insert_acl u p a b now) h = (inv.insert_acl u p a b now).at t h
Write-Keeps {t = t} inv (set_acl id p a b now) h = (inv.set_acl id p a b now).at t h
Write-Keeps {t = t} inv (remove_acl id now) h = (inv.remove_acl id now).at t h
Write-Keeps {t = t} inv (insert_admin u p now) h = (inv.insert_admin u p now).at t h
Write-Keeps {t = t} inv (upsert_topic a d u now) h = (inv.upsert_topic a d u now).at t h
Write-Keeps {t = t} inv (upsert_acl u p a b now) h = (inv.upsert_acl u p a b now).at t h
Write-Keeps {t = t} inv (upsert_defaults v now) h = (inv.upsert_defaults v now).at t h

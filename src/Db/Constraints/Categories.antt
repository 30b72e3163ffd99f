-- ===== src/Db/Constraints/Categories.antt =====
-- The statements on the categories and on the accounts of the administration, src/db/mod.rs, keep
-- the constraints, and with them all statements that write do.
use hi_mqtt.Prelude.{
  ℕ, suc, ◌≡◌, ◌∙◌, refl, true, false, not, ◌&&◌, Option, none, some, List, [], ◌∷◌, ◌++◌, map,
  Text, text_eq, text_eq_iff, any, any-append, select, arith, ◌==◌, Bool-cases, Option-cases, inl,
  inr, if◌then◌else◌,
}
use hi_mqtt.Prelude.Keeps.{Keeps}
use hi_mqtt.Db.Schema.{AdminUserRow, MqttUserCategoryRow, StoredUser, Tables, has_category}
use hi_mqtt.Db.Categories.{leave_category, insert_category, set_category, remove_category}
use hi_mqtt.Db.Admins.{insert_admin}
use hi_mqtt.Db.Invariants.{IsInvariant}
use hi_mqtt.Db.Table.{
  All-mono, All-none, All-map, update_where-map, update_where-none, IsTable-later, IsTable-add,
  IsTable-select, IsTable-map,
}
use hi_mqtt.Db.Constraints.{IsSound, with_categories, with_admins}
use hi_mqtt.Db.Constraints.Owners.{
  has_user-map, has_owner-kept, insert_user-IsSound, set_user-IsSound, remove_user-IsSound,
  note_login-IsSound,
}
use hi_mqtt.Db.Constraints.Rules.{
  insert_topic-IsSound, remove_topic-IsSound, insert_acl-IsSound, remove_acl-IsSound,
}
use hi_mqtt.Db.Constraints.Changes.{set_topic-IsSound, set_acl-IsSound}
use hi_mqtt.Db.Constraints.Upserts.{
  upsert_topic-IsSound, upsert_acl-IsSound, upsert_defaults-IsSound,
}

pub insert_admin-IsSound :
    (username password_hash : Text) (now : ℕ)
    → Keeps IsSound (insert_admin username password_hash now)
unfolding insert_admin
insert_admin-IsSound username password_hash now = record {
  at = λ t h.
      elim (Bool-cases (any (λ (a : AdminUserRow). text_eq a.username username) t.admin_users)) [
        | inl taken ↦
            rw taken
              (with_admins t h (suc t.admin_seq) t.admin_users (IsTable-later _ _ _ _ h.admins))
        | inr free ↦ rw free (
            with_admins t h (suc t.admin_seq) (t.admin_users ++ _ ∷ []) (
              IsTable-add _ _ t.admin_seq t.admin_users _ refl (All-none _ t.admin_users free)
                h.admins))
      ];
}

has_category-append :
    (categories : List MqttUserCategoryRow) (row : MqttUserCategoryRow) (id : Option ℕ)
    → has_category categories id ≡ true
    → has_category (categories ++ row ∷ []) id ≡ true
unfolding has_category
has_category-append categories row none o = refl
has_category-append categories row (some id) o =
    any-append (λ c. c.id == id) categories (row ∷ []) ∙ ground (arith, o)

pub insert_category-IsSound :
    (name description : Text) (now : ℕ) → Keeps IsSound (insert_category name description now)
unfolding insert_category
insert_category-IsSound name description now = record {
  at = λ t h.
      let row : MqttUserCategoryRow = record {
        id = suc t.category_seq;
        name = name;
        description = description;
        created_at = now;
      } in
      elim (Bool-cases (any (λ (c : MqttUserCategoryRow). text_eq c.name name) t.categories)) [
        | inl taken ↦ rw taken (
            with_categories t h (suc t.category_seq) t.categories
              (IsTable-later _ _ _ _ h.categories) h.user_categories)
        | inr free ↦ rw free (
            with_categories t h (suc t.category_seq) (t.categories ++ row ∷ [])
              (IsTable-add _ _ t.category_seq t.categories row refl (All-none _ t.categories free)
                h.categories)
              (All-mono _ _ t.users (λ u o. has_category-append t.categories row u.category_id o)
                h.user_categories))
      ];
}

module _ (id : ℕ) (name description : Text) where
  abbrev set : MqttUserCategoryRow → MqttUserCategoryRow
  set c = record c { name = name; description = description }

  abbrev change : MqttUserCategoryRow → MqttUserCategoryRow
  change c = if c.id == id then set c else c

  has_category-change :
      (categories : List MqttUserCategoryRow) (of : Option ℕ)
      → has_category categories of ≡ true
      → has_category (map change categories) of ≡ true
  unfolding has_category
  has_category-change categories none o = refl
  has_category-change (c ∷ categories) (some j) o =
      ground (arith, o, has_category-change categories (some j))
  has_category-change [] (some j) o = o

  changed_category :
      (t : Tables)
      → IsSound t
      → any (λ c. text_eq c.name name && not (c.id == id)) t.categories ≡ false
      → IsSound (record t { categories = map change t.categories })
  changed_category t h free =
      with_categories t h t.category_seq (map change t.categories)
        (IsTable-map _ _ _ change t.category_seq t.categories (λ c. ground arith)
          (λ x y qx qy ne r. ground (
            arith,
            qx,
            qy,
            ne,
            r,
            text_eq_iff x.name name,
            text_eq_iff y.name name,
            text_eq_iff name x.name,
            text_eq_iff name y.name,
          ))
          (All-none _ t.categories free) h.categories)
        (All-mono _ _ t.users (λ u o. has_category-change t.categories u.category_id o)
          h.user_categories)

  pub set_category-IsSound : (now : ℕ) → Keeps IsSound (set_category id name description now)
  unfolding set_category
  set_category-IsSound now = record {
    at = λ t h. elim (Bool-cases (any (λ (c : MqttUserCategoryRow). c.id == id) t.categories)) [
      | inr missing ↦
          rw
            (
              missing,
              update_where-none (λ (c : MqttUserCategoryRow). c.id == id) set t.categories missing,
            )
            h
      | inl found ↦
          elim (Bool-cases (
            any (λ (c : MqttUserCategoryRow). text_eq c.name name && not (c.id == id))
              t.categories)) [
                | inl taken ↦ rw (found, taken) h
                | inr free ↦
                    rw
                      (
                        found,
                        free,
                        update_where-map (λ (c : MqttUserCategoryRow). c.id == id) set t.categories,
                      )
                      (changed_category t h free)
              ]
    ];
  }

any-left :
    (categories : List MqttUserCategoryRow) (c id : ℕ)
    → any (λ x. x.id == c) categories ≡ true
    → (c == id) ≡ false
    → any (λ x. x.id == c) (select (λ x. not (x.id == id)) categories) ≡ true
unfolding select
any-left [] c id o d = o
any-left (x ∷ categories) c id o d = ground (arith, any-left categories c id, o, d)

has_category-left :
    (id : ℕ) (categories : List MqttUserCategoryRow) (u : StoredUser)
    → has_category categories u.category_id ≡ true
    → has_category (select (λ c. not (c.id == id)) categories) (leave_category id u).category_id
      ≡ true
unfolding has_category
has_category-left id categories u o = elim (Option-cases u.category_id) [
  | inl e ↦ rw e refl
  | inr (c, e) ↦ elim (Bool-cases (c == id)) [
    | inl gone ↦ rw (e, gone) refl
    | inr other ↦ rw (e, other) (any-left categories c id (rw e at o) other)
  ]
]

pub remove_category-IsSound : (id now : ℕ) → Keeps IsSound (remove_category id now)
unfolding remove_category
remove_category-IsSound id now = record {
  at = λ t h.
      let leave = leave_category id in
      let names = λ (name : Text). has_user-map leave (λ u. refl) name t.users in
      record {
        admins = h.admins;
        categories = IsTable-select _ _ _ t.category_seq t.categories h.categories;
        users =
            IsTable-map _ _ (λ u. Unit) leave t.user_seq t.users (λ u. refl) (λ x y qx qy ne r. r)
              (All-mono _ _ t.users (λ u p. tt) h.user_categories) h.users;
        topics = h.topics;
        acls = h.acls;
        user_categories =
            All-map _ _ leave t.users (λ u o. has_category-left id t.categories u o)
              h.user_categories;
        topic_owners =
            All-mono _ _ t.topics
              (λ r o.
                has_owner-kept t h (map leave t.users) (λ name p. names name ∙ p) r.owner_username
                  o)
              h.topic_owners;
        rule_users = All-mono _ _ t.acls (λ r o. names r.username ∙ o) h.rule_users;
      };
}

pub all_IsSound : IsInvariant IsSound
all_IsSound = record {
  insert_category = insert_category-IsSound;
  set_category = set_category-IsSound;
  remove_category = remove_category-IsSound;
  insert_user = insert_user-IsSound;
  set_user = set_user-IsSound;
  remove_user = remove_user-IsSound;
  note_login = note_login-IsSound;
  insert_topic = insert_topic-IsSound;
  set_topic = set_topic-IsSound;
  remove_topic = remove_topic-IsSound;
  insert_acl = insert_acl-IsSound;
  set_acl = set_acl-IsSound;
  remove_acl = remove_acl-IsSound;
  insert_admin = insert_admin-IsSound;
  upsert_topic = upsert_topic-IsSound;
  upsert_acl = upsert_acl-IsSound;
  upsert_defaults = upsert_defaults-IsSound;
}

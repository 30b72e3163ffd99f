-- ===== src/Db/Constraints/Owners.antt =====
-- The statements on the users, the categories and the accounts of the administration,
-- src/db/mod.rs, keep the constraints: what a deletion cascades to is what refers to the row.
use hi_mqtt.Prelude.{
  ℕ, suc, ◌≡◌, ◌∙◌, refl, Bool, true, false, not, Option, none, some, List, [], ◌∷◌, ◌++◌, map,
  Text, text_eq, any, any-append, All, All-append, select, arith, Bool-cases, inl, inr,
  if◌then◌else◌,
}
use hi_mqtt.Prelude.Keeps.{Keeps}
use hi_mqtt.Db.Schema.{MqttUserCategoryRow, StoredUser, Tables, has_user, has_owner, has_category}
use hi_mqtt.Db.Users.{
  named, numbered, new_user, belongs_to, owner_belongs_to, refers_to_category, insert_user,
  change_user, set_user, remove_user, note_login,
}
use hi_mqtt.Db.Table.{
  All-mono, All-select, All-none, All-map, update_where-map, update_where-none, IsTable-later,
  IsTable-add, IsTable-select, IsTable-map,
}
use hi_mqtt.Db.Constraints.{IsUsers, IsSound, with_users}

-- The references to users where no name is lost.
module _ (t : Tables) (h : IsSound t) (rows : List StoredUser)
    (kept : (name : Text) → has_user t.users name ≡ true → has_user rows name ≡ true) where
  pub has_owner-kept :
      (owner : Option Text) → has_owner t.users owner ≡ true → has_owner rows owner ≡ true
  has_owner-kept none o = refl
  has_owner-kept (some name) o = kept name o

  pub with_more_users :
      (seq : ℕ)
      → IsUsers seq rows
      → All (λ u. has_category t.categories u.category_id ≡ true) rows
      → IsSound (record t { users = rows; user_seq = seq })
  with_more_users seq k c =
      with_users t h seq rows k c
        (All-mono _ _ t.topics (λ r o. has_owner-kept r.owner_username o) h.topic_owners)
        (All-mono _ _ t.acls (λ r o. kept r.username o) h.rule_users)

later_users : (t : Tables) → IsSound t → IsSound (record t { user_seq = suc t.user_seq })
later_users t h =
    with_users t h (suc t.user_seq) t.users (IsTable-later _ _ _ _ h.users) h.user_categories
      h.topic_owners h.rule_users

has_user-append :
    (users : List StoredUser) (row : StoredUser) (name : Text)
    → has_user users name ≡ true
    → has_user (users ++ row ∷ []) name ≡ true
unfolding has_user
has_user-append users row name o =
    any-append (λ u. text_eq u.username name) users (row ∷ []) ∙ ground (arith, o)

pub insert_user-IsSound :
    (username password_hash : Text) (enabled : Bool) (category_id : Option ℕ) (now : ℕ)
    → Keeps IsSound (insert_user username password_hash enabled category_id now)
unfolding insert_user
insert_user-IsSound username password_hash enabled category_id now = record {
  at = λ t h.
      let row = new_user (suc t.user_seq) username password_hash enabled category_id now in
      elim (Bool-cases (any (named username) t.users)) [
        | inl taken ↦ rw taken (later_users t h)
        | inr free ↦ elim (Bool-cases (has_category t.categories category_id)) [
          | inl there ↦
              rw (free, there)
                (with_more_users t h (t.users ++ row ∷ []) (has_user-append t.users row)
                  (suc t.user_seq)
                  (IsTable-add _ _ t.user_seq t.users row refl (All-none _ t.users free) h.users)
                  (All-append _ t.users (row ∷ []) h.user_categories (there, tt)))
          | inr missing ↦ rw (free, missing) (later_users t h)
        ]
      ];
}

module _ (f : StoredUser → StoredUser)
    (names : (u : StoredUser) → (f u).username ≡ u.username) where
  pub has_user-map :
      (name : Text) (users : List StoredUser) → has_user (map f users) name ≡ has_user users name
  unfolding has_user
  has_user-map name [] = refl
  has_user-map name (u ∷ users) = ground (arith, names u, has_user-map name users)

-- A change of the users that leaves their ids and names.
module _ (t : Tables) (h : IsSound t) (f : StoredUser → StoredUser)
    (ids : (u : StoredUser) → (f u).id ≡ u.id)
    (names : (u : StoredUser) → (f u).username ≡ u.username)
    (categories : (u : StoredUser)
      → has_category t.categories u.category_id ≡ true
      → has_category t.categories (f u).category_id ≡ true) where
  pub changed_users : IsSound (record t { users = map f t.users })
  changed_users =
      with_more_users t h (map f t.users) (λ name o. has_user-map f names name t.users ∙ o)
        t.user_seq
        (IsTable-map _ _ (λ u. Unit) f t.user_seq t.users ids
          (λ x y qx qy ne r. rw (names x, names y) r)
          (All-mono _ _ t.users (λ u p. tt) h.user_categories) h.users)
        (All-map _ _ f t.users categories h.user_categories)

pub note_login-IsSound : (username ip : Text) (now : ℕ) → Keeps IsSound (note_login username ip now)
unfolding note_login
note_login-IsSound username ip now = record {
  at = λ t h.
      let set = λ (u : StoredUser). record u {
        last_login_at = some now;
        last_login_ip = some ip;
        updated_at = now;
      } in
      rw (update_where-map (named username) set t.users) (
        changed_users t h (λ u. if named username u then set u else u) (λ u. ground arith)
          (λ u. ground arith) (λ u o. ground (arith, o)));
}

module _ (id : ℕ) (hash : Option Text) (enabled : Bool) (category : Option (Option ℕ))
    (now : ℕ) where
  abbrev change : StoredUser → StoredUser
  change u = if numbered id u then change_user hash enabled category now u else u

  id-change : (u : StoredUser) → (change u).id ≡ u.id
  unfolding change_user
  id-change u = ground arith

  username-change : (u : StoredUser) → (change u).username ≡ u.username
  unfolding change_user
  username-change u = ground arith

  category-change :
      (categories : List MqttUserCategoryRow) (u : StoredUser)
      → refers_to_category categories category ≡ true
      → has_category categories u.category_id ≡ true
      → has_category categories (change u).category_id ≡ true
  unfolding change_user
  category-change categories u r o = ground (arith, r, o)

  pub set_user-IsSound : Keeps IsSound (set_user id hash enabled category now)
  unfolding set_user
  set_user-IsSound = record {
    at = λ t h.
        let f = change_user hash enabled category now in
        elim (Bool-cases (any (numbered id) t.users)) [
          | inr missing ↦ rw (missing, update_where-none (numbered id) f t.users missing) h
          | inl found ↦ elim (Bool-cases (refers_to_category t.categories category)) [
            | inl there ↦
                rw (found, there, update_where-map (numbered id) f t.users)
                  (changed_users t h change id-change username-change
                    (λ u o. category-change t.categories u there o))
            | inr dangling ↦ rw (found, dangling) h
          ]
        ];
  }

-- The users that a deletion leaves are those that the rows which it leaves refer to.
has_user-left :
    (id : ℕ) (name : Text) (users : List StoredUser)
    → has_user users name ≡ true
    → belongs_to id users name ≡ false
    → has_user (select (λ u. not (numbered id u)) users) name ≡ true
unfolding has_user belongs_to select
has_user-left id name [] o b = o
has_user-left id name (u ∷ users) o b = ground (arith, has_user-left id name users, o, b)

has_owner-left :
    (id : ℕ) (owner : Option Text) (users : List StoredUser)
    → has_owner users owner ≡ true
    → owner_belongs_to id users owner ≡ false
    → has_owner (select (λ u. not (numbered id u)) users) owner ≡ true
has_owner-left id none users o b = refl
has_owner-left id (some name) users o b = has_user-left id name users o b

pub remove_user-IsSound : (id now : ℕ) → Keeps IsSound (remove_user id now)
unfolding remove_user
remove_user-IsSound id now = record {
  at = λ t h. record {
    admins = h.admins;
    categories = h.categories;
    users = IsTable-select _ _ _ t.user_seq t.users h.users;
    topics = IsTable-select _ _ _ t.topic_seq t.topics h.topics;
    acls = IsTable-select _ _ _ t.acl_seq t.acls h.acls;
    user_categories = All-mono _ _ _ (λ u p. p.0) (All-select _ _ t.users h.user_categories);
    topic_owners =
        All-mono _ _ _ (λ r p. has_owner-left id r.owner_username t.users p.0 (ground (arith, p.1)))
          (All-select _ _ t.topics h.topic_owners);
    rule_users =
        All-mono _ _ _ (λ r p. has_user-left id r.username t.users p.0 (ground (arith, p.1)))
          (All-select _ _ t.acls h.rule_users);
  };
}

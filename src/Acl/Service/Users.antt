-- ===== src/Acl/Service/Users.antt =====
-- The users in the cache of src/acl/mod.rs.
use hi_mqtt.Prelude.{
  ◌≡◌, refl, ◌∙◌, false, none, List, [], ◌∷◌, map, Text, any, text_eq, lookup, insert, Map,
  lookup-insert, any-order_by, any-map, arith,
}
use hi_mqtt.Db.Schema.{MqttUserRow, Tables}
use hi_mqtt.Db.Users.{named, join_category}
use hi_mqtt.Acl.Cache.{index_users}
use hi_mqtt.Acl.Service.Reload.{user_rows}

pub lookup-index_users-none :
    (username : Text) (m : Map MqttUserRow) (rows : List MqttUserRow)
    → any (λ u. text_eq u.username username) rows ≡ false
    → lookup username (index_users m rows) ≡ lookup username m
unfolding index_users
lookup-index_users-none username m [] h = refl
lookup-index_users-none username m (u ∷ rows) h = ground (
  arith,
  lookup-index_users-none username (insert u.username u m) rows,
  lookup-insert u.username username u m,
)

pub any-user_rows :
    (t : Tables) (username : Text)
    → any (λ (u : MqttUserRow). text_eq u.username username) (user_rows t)
      ≡ any (named username) t.users
unfolding join_category
any-user_rows t username =
    any-order_by (λ (u : MqttUserRow). u.id) (λ u. text_eq u.username username)
      (map (join_category t.categories) t.users)
    ∙ any-map (λ (u : MqttUserRow). text_eq u.username username) (join_category t.categories)
        t.users

pub lookup-user_rows-none :
    (t : Tables) (username : Text)
    → any (named username) t.users ≡ false
    → lookup username (index_users [] (user_rows t)) ≡ none
unfolding lookup
lookup-user_rows-none t username h =
    lookup-index_users-none username [] (user_rows t) (any-user_rows t username ∙ h)

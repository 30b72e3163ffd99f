-- ===== src/Startup/Logins.antt =====
-- What a login through a listener does to the tables, and what the check of the TLS settings finds:
-- src/main.rs.
use hi_mqtt.Prelude.{
  ap, ℕ, ◌≡◌, refl, Bool, true, false, not, ◌||◌, Option, none, some, List, [], ◌∷◌, Text, codes,
  any, arith, inl, inr, ◌⊎◌, Bool-cases,
}
use hi_mqtt.Prelude.Exec.{Result, ok, err}
use hi_mqtt.Db.Schema.{Tables}
use hi_mqtt.Db.Query.{Link, run}
use hi_mqtt.Db.Query.Laws.{run-tables}
use hi_mqtt.Db.Users.{note_login, record_mqtt_user_login}
use hi_mqtt.Acl.Service.{AclService, Bcrypt, verify_mqtt_password, record_last_login}
use hi_mqtt.Acl.Service.Password.{tables-verify_mqtt_password}
use hi_mqtt.Startup.{
  Server, Servers, Config, validate_servers, validate_table, validate_config, peer_ip_only,
  authenticate,
}
use hi_mqtt.Startup.Guard.{listed}

module _ (link : Link) (bcrypt : Bcrypt) (parse : Text → Option Text) where
  -- The listener answers what the service answers. A login changes no table, or it was accepted
  -- and the time and the address of it stand in the rows of this user.
  pub authenticate_cases :
      (username password peer : Text) (s : AclService)
      → ((authenticate link bcrypt parse username password peer s).0
          ≡ (verify_mqtt_password link bcrypt username password s).0)
        × (((authenticate link bcrypt parse username password peer s).1.database.tables
              ≡ s.database.tables)
            ⊎ (((verify_mqtt_password link bcrypt username password s).0 ≡ true)
                × (now : ℕ) × ((authenticate link bcrypt parse username password peer
                      s).1.database.tables
                    ≡ (note_login username (peer_ip_only parse peer) now s.database.tables).1)))
  unfolding authenticate record_last_login record_mqtt_user_login
  authenticate_cases username password peer s =
      let checked = verify_mqtt_password link bcrypt username password s in
      let same = tables-verify_mqtt_password link bcrypt username password s in
      let ip = peer_ip_only parse peer in
      let d = checked.1.database in
      let now = link.now d.statements in
      let after = (run link (codes "更新最后登录信息失败") (note_login username ip) d).1.tables in
      elim (Bool-cases checked.0) [
        | inr denied ↦ (ground (arith, denied), inl (ground (arith, denied, same)))
        | inl passed ↦
            let outcome : (after ≡ s.database.tables)
                ⊎ (after ≡ (note_login username ip now s.database.tables).1) =
              run-tables link (codes "更新最后登录信息失败") (note_login username ip) d
                (λ t.
                  (t ≡ s.database.tables) ⊎ (t ≡ (note_login username ip now s.database.tables).1))
                (inl same) (inr (ap (λ (t : Tables). (note_login username ip now t).1) same)) in
            (
              ground (arith, passed),
              elim outcome [
                | inl kept ↦ inl (ground (arith, passed, kept))
                | inr noted ↦ inr (passed, now, ground (arith, passed, noted))
              ],
            )
      ]

-- The TLS settings of a server are there and do not hold.
abbrev pub is_broken : Text × Server → Bool
is_broken (name, server) = elim server.tls [ none ↦ false | some valid ↦ not valid ]

abbrev pub is_ok : Result Text (Unit {0}) → Bool
is_ok (ok _) = true
is_ok (err name) = false

is_ok-validate_servers :
    (kind : Text) (servers : List (Text × Server))
    → is_ok (validate_servers kind servers) ≡ not (any is_broken servers)
unfolding validate_servers
is_ok-validate_servers kind [] = refl
is_ok-validate_servers kind (server ∷ servers) = ground (arith, is_ok-validate_servers kind servers)

is_ok-validate_table :
    (kind : Text) (servers : Servers)
    → is_ok (validate_table kind servers) ≡ not (any is_broken (listed servers))
is_ok-validate_table kind none = refl
is_ok-validate_table kind (some servers) = is_ok-validate_servers kind servers

-- The start goes on exactly if no listener has TLS settings whose paths do not hold.
pub is_ok-validate_config :
    (configs : Config)
    → is_ok (validate_config configs)
      ≡ not (
          any is_broken (listed configs.v4)
          || (any is_broken (listed configs.v5) || any is_broken (listed configs.ws)))
unfolding validate_config
is_ok-validate_config configs = ground (
  arith,
  is_ok-validate_table (codes "v4.") configs.v4,
  is_ok-validate_table (codes "v5.") configs.v5,
  is_ok-validate_table (codes "ws.") configs.ws,
)

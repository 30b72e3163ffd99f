-- ===== src/Tests/Logins.antt =====
-- The sessions of src/admin on the sample server.
use hi_mqtt.Prelude.{◌≡◌, refl, none, some, true, codes, Text, text_eq, find, if◌then◌else◌}
use hi_mqtt.Prelude.Exec.{ok, err, pure}
use hi_mqtt.Db.Schema.{AdminUserRow}
use hi_mqtt.Db.Query.{run, deliver}
use hi_mqtt.Db.Admins.{get_admin_user, select_admin}
use hi_mqtt.Acl.Service.{on_pool, verifies}
use hi_mqtt.Admin.Server.{Handler, no_content, unauthorized, query, on_acl}
use hi_mqtt.Admin.Server.Laws.{tables_of}
use hi_mqtt.Admin.Auth.{Head, bearer_token, validate}
use hi_mqtt.Admin.Login.{LoginRequest, LoginResponse, login}
use hi_mqtt.Admin.Login.Sessions.{login_sound}
use hi_mqtt.Admin.Auth.{request_token, token_from_query, find_token, create_session}
use hi_mqtt.Admin.Router.{
  Reply, delete_user, post_login, post_logout, static_files, serve, dispatch,
}
use hi_mqtt.Admin.Router.Sessions.{IsAccounted, serve-logout, serve-unauthorized, serve-IsAccounted}
use hi_mqtt.Prelude.{is_some, ◌⊎◌, split_on, split_once, lookup, insert, find}
use hi_mqtt.Tests.Sample.{env, server}

abbrev stay : Handler (Unit {0})
stay = pure tt

abbrev body : LoginRequest
body = record { username = codes "root"; password = codes "pw" }

abbrev reply : LoginResponse
reply = record { token = codes "t1"; username = codes "root" }

root_logs_in : (login env body server).0 ≡ ok reply
unfolding login get_admin_user select_admin query on_acl on_pool run deliver verifies text_eq find
root_logs_in = refl

root_login_is_sound :
    (user : AdminUserRow) × (find
        (λ a. text_eq a.username (codes "root"))
        (tables_of server).admin_users
      ≡ some user)
    × (verifies env.link env.bcrypt (codes "pw") user.password_hash ≡ true)
    × (codes "root" ≡ user.username)
    × ((j : Text)
        → validate j (login env body server).1.sessions
          ≡ (if text_eq (codes "t1") j then some (codes "root") else validate j server.sessions))
root_login_is_sound = login_sound env body server reply root_logs_in

abbrev by_query : Head
by_query = record { authorization = none; uri_query = some (codes "token=t1") }

query_token_survives :
    ((serve tt env 0 by_query post_logout (login env body server).1).0 ≡ ok (Reply.done no_content))
    × (validate
          (codes "t1")
          (serve tt env 0 by_query post_logout (login env body server).1).1.sessions
        ≡ (if is_some (bearer_token by_query) then none else some (codes "root")))
unfolding request_token bearer_token token_from_query find_token split_on split_once text_eq login
    get_admin_user select_admin query on_acl on_pool run deliver verifies find validate lookup
    create_session insert
query_token_survives =
    serve-logout {S = Unit {0}} tt env 0 by_query (codes "t1") (codes "root")
      (login env body server).1 refl refl

stranger_changes_nothing :
    ((serve tt env 0 by_query (delete_user 1) server).1 ≡ server)
    × (((serve tt env 0 by_query (delete_user 1) server).0 ≡ err unauthorized)
        ⊎ (((serve tt env 0 by_query (delete_user 1) server).0 ≡ ok static_files)
            × (server.monitor ≡ none)))
unfolding request_token bearer_token token_from_query find_token split_on split_once text_eq
    validate lookup
stranger_changes_nothing =
    serve-unauthorized {S = Unit {0}} tt env 0 by_query (delete_user 1) server refl refl

session_comes_from_login :
    IsAccounted {S = Unit {0}} tt env 0 by_query (post_login body) server (codes "t1")
unfolding serve dispatch login get_admin_user select_admin query on_acl on_pool run deliver verifies
    text_eq find validate lookup create_session insert
session_comes_from_login =
    serve-IsAccounted {S = Unit {0}} tt env 0 by_query (post_login body) server (codes "t1") refl

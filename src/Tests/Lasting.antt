-- ===== src/Tests/Lasting.antt =====
-- Logins and logouts of the sample server with a generator that counts.
use hi_mqtt.Prelude.{
  ◌≡◌, refl, ap, ℕ, Option, none, some, Text, List, [], ◌∷◌, codes, text_eq, find, lookup, insert,
}
use hi_mqtt.Db.Query.{run, deliver}
use hi_mqtt.Db.Admins.{get_admin_user, select_admin}
use hi_mqtt.Acl.Service.{on_pool, verifies}
use hi_mqtt.Admin.Server.{AppState, Env, query}
use hi_mqtt.Admin.Auth.{Head, validate, create_session}
use hi_mqtt.Admin.Login.{LoginRequest, login, admit, open_session}
use hi_mqtt.Admin.Login.Sessions.{bearing, bearer_token-bearing}
use hi_mqtt.Admin.Router.{post_login, post_logout, serve, dispatch}
use hi_mqtt.Program.{request, Reach, here, next}
use hi_mqtt.Program.Tokens.Final.{IsUnrepeated, Reach-logged_out, Reach-login_apart}
use hi_mqtt.Tests.Sample.{env, server}

abbrev counting : Env
counting = record env { new_v4 = λ n. n ∷ [] }

first_of : List ℕ → ℕ
first_of [] = 0
first_of (n ∷ rest) = n

counting-IsUnrepeated : IsUnrepeated counting
unfolding first_of
counting-IsUnrepeated = record { same = λ m n e. ap first_of e }

abbrev no_parse : Text → Option Text
no_parse peer = none

abbrev nobody : Head
nobody = record { authorization = none; uri_query = none }

abbrev body : LoginRequest
body = record { username = codes "root"; password = codes "pw" }

abbrev logged_in : AppState
logged_in = (serve tt counting 9 nobody (post_login body) server).1

abbrev token : Text
token = 0 ∷ []

one_login : Reach counting no_parse server logged_in
one_login = next here (request server tt 9 nobody (post_login body))

abbrev logged_out : AppState
logged_out = (serve tt counting 9 (bearing token) post_logout logged_in).1

abbrev again : AppState
again = (serve tt counting 9 nobody (post_login body) logged_out).1

logged_out_for_good : validate token again.sessions ≡ none
unfolding serve dispatch login admit open_session create_session validate query on_pool run deliver
    get_admin_user select_admin verifies find lookup insert text_eq
logged_out_for_good =
    Reach-logged_out counting no_parse tt 9 (bearing token) token (codes "root")
      counting-IsUnrepeated refl one_login refl (bearer_token-bearing token)
      (next here (request logged_out tt 9 nobody (post_login body)))

second_login_is_apart :
    (validate (1 ∷ []) logged_in.sessions ≡ none)
    × ((j name : Text)
        → validate j logged_in.sessions ≡ some name
        → validate j (login counting body logged_in).1.sessions ≡ some name)
unfolding serve dispatch login admit open_session create_session validate query on_pool run deliver
    get_admin_user select_admin verifies find lookup insert text_eq
second_login_is_apart =
    Reach-login_apart counting no_parse body (record { token = 1 ∷ []; username = codes "root" })
      counting-IsUnrepeated refl one_login refl

-- ===== src/Admin/Auth.antt =====
-- Sessions and tokens: src/admin/auth.rs, and `bearer_token`, `token_from_query` and
-- `require_auth` of src/admin/mod.rs. The locks of the sessions are never poisoned, since their
-- holders cannot panic.
use hi_mqtt.Prelude.{
  Bool, false, Option, none, some, List, [], ◌∷◌, Text, codes, text_eq, split_on, split_once,
  strip_prefix, Map, lookup, insert, remove, if◌then◌else◌, is_some,
}
use hi_mqtt.Prelude.Exec.{err}
use hi_mqtt.Admin.Server.{Handler, unauthorized}

-- `AdminAuth::create_session`, at the token that the generator gives
unfoldable pub create_session : Text → Text → Map Text → Map Text
unfolding insert
create_session token username sessions = insert token username sessions

-- `AdminAuth::validate`
unfoldable pub validate : Text → Map Text → Option Text
unfolding lookup
validate token sessions = lookup token sessions

-- `AdminAuth::revoke`
unfoldable pub revoke : Text → Map Text → Map Text
unfolding remove
revoke token sessions = remove token sessions

-- What a handler sees of the request's head: the Authorization header, if it is there and is
-- text, and the query of the URI.
pub record Head : Type 0 where
  pub authorization : Option Text
  pub uri_query : Option Text

strip_bearer : Option Text → Option Text
unfolding strip_prefix
strip_bearer none = none
strip_bearer (some value) = strip_prefix value (codes "Bearer ")

unfoldable pub bearer_token : Head → Option Text
unfolding strip_bearer
bearer_token head = strip_bearer head.authorization

-- The closure that `find_map` is given.
token_of : Option (Text × Text) → Option Text
token_of none = none
token_of (some (key, value)) = if text_eq key (codes "token") then some value else none

or_else {ℓ} : {A : Type ℓ} → Option A → Option A → Option A
or_else (some a) other = some a
or_else none other = other

unfoldable pub find_token : List Text → Option Text
unfolding token_of or_else split_once
find_token [] = none
find_token (pair ∷ pairs) = or_else (token_of (split_once b'=' pair)) (find_token pairs)

tokens_in : Option Text → Option Text
unfolding find_token split_on
tokens_in none = none
tokens_in (some query) = find_token (split_on b'&' query)

unfoldable pub token_from_query : Head → Option Text
unfolding tokens_in
token_from_query head = tokens_in head.uri_query

unfoldable pub request_token : Head → Option Text
unfolding bearer_token token_from_query or_else
request_token head = or_else (bearer_token head) (token_from_query head)

abbrev pub is_valid : Option Text → Map Text → Bool
is_valid none sessions = false
is_valid (some token) sessions = is_some (validate token sessions)

-- The middleware before a protected handler.
unfoldable pub require_auth : {A : Type 0} → Head → Handler A → Handler A
unfolding request_token validate
require_auth head next s =
    if is_valid (request_token head) s.sessions then next s else (err unauthorized, s)

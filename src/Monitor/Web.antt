-- ===== src/Monitor/Web.antt =====
-- The readers of the monitor, src/monitor/web.rs, and their handlers in src/admin/mod.rs.
use hi_mqtt.Prelude.{ℕ, Bool, false, Option, none, some, List, [], ◌∷◌}
use hi_mqtt.Monitor.State.{MessageRecord, MonitorEvent, MonitorState, list_messages}

-- Both fields may be left out of the query.
pub record MessagesQuery : Type 0 where
  pub recent : Option Bool
  pub limit : Option ℕ

abbrev pub default_limit : ℕ
default_limit = 500

abbrev pub or_false : Option Bool → Bool
or_false none = false
or_false (some b) = b

abbrev pub or_limit : Option ℕ → ℕ
or_limit none = default_limit
or_limit (some n) = n

unfoldable pub messages : MessagesQuery → ℕ → MonitorState → List MessageRecord
unfolding list_messages
messages query now s = list_messages (or_false query.recent) (or_limit query.limit) now s

-- What a subscriber of the broadcast gets: an event, a note that it missed some, or the end.
pub data Broadcast : Type 0 where
  event : MonitorEvent → Broadcast
  lagged closed : Broadcast

-- `events`: the stream that is unfolded from the broadcast.
unfoldable pub events : List Broadcast → List MonitorEvent
events [] = []
events (event e ∷ rest) = e ∷ events rest
events (lagged ∷ rest) = events rest
events (closed ∷ rest) = []

-- ===== src/Recovery/Request.antt =====
-- internal/mirror/session_supervisor.go, internal/mirror/session_attach.go and
-- internal/mirror/session_recovery.go: the messages of the recovery protocol and their validation.
use terminal_redeemer.Base.{ℕ, Bool, true, false, not, ◌&&◌, ◌||◌, ◌==◌, between, any, length, Text}
use terminal_redeemer.Zellij.Name.{safe_session_name}
use terminal_redeemer.Zellij.SessionId.{valid_session_id}

-- The string fields State and Event, by the values that the code tells apart; `other` stands for
-- every string but those.
pub data Phase : Type 0 where
  offline checking connecting ready other : Phase

pub data Event : Type 0 where
  no_event ready lost leave other : Event

pub record SessionControlRequest : Type 0 where
  pub token : Text
  pub client : Text
  pub session : Text
  pub session_id : Text
  pub attempt : Text
  pub event : Event
  pub state : Phase
  pub retry : Bool

unfoldable pub is_lower_hex : ℕ → Bool
is_lower_hex c = between b'a' b'f' c || between b'0' b'9' c

-- `^[a-f0-9]{32}$`, the pattern of attempts, clients and projection tokens.
unfoldable pub hex_token : Text → Bool
unfolding is_lower_hex
hex_token s = length s == 32 && not (any (λ c. not (is_lower_hex c)) s)

valid_phase : Phase → Bool
valid_phase Phase.other = false
valid_phase _ = true

valid_event : Event → Bool
valid_event no_event = true
valid_event Event.ready = true
valid_event lost = true
valid_event _ = false

unfoldable pub valid_recovery_request : SessionControlRequest → Bool
unfolding valid_phase valid_event
valid_recovery_request r =
    hex_token r.client
    && hex_token r.token
    && hex_token r.attempt
    && valid_session_id r.session_id
    && safe_session_name r.session
    && valid_phase r.state
    && valid_event r.event

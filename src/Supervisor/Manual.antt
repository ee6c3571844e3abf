-- ===== src/Supervisor/Manual.antt =====
-- internal/mirror/session_manual.go: the control of a helper without a coordinator, where only the user
-- asks for another attachment.
pub mod Admissions
pub mod Answers
use terminal_redeemer.Base.{
  ℕ, ◌+◌, ◌*◌, ◌^◌, Bool, true, false, not, ◌&&◌, ◌||◌, List, [], ◌∷◌, Text, same, if◌then◌else◌,
}
use terminal_redeemer.Recovery.Request.{
  Phase, Event, no_event, lost, SessionControlRequest, hex_token,
}
use terminal_redeemer.Recovery.Exchange.{SessionGrant}
use terminal_redeemer.Supervisor.Handling.{same_event, is_no_event}

pub record ManualSessionControl : Type 0 where
  pub attempt : Text
  pub deadline : ℕ
  pub started : Bool
  pub retry_pending : Bool

-- An error, a grant, or the advice to press Enter.
pub data ManualReply : Type 0 where
  refuses waits : ManualReply
  grants : SessionGrant → ManualReply

abbrev is_ready : Phase → Bool
is_ready Phase.ready = true
is_ready _ = false

-- The user asks for another attachment.
abbrev pub asks : SessionControlRequest → Bool
asks r = r.retry && not (is_ready r.state)

unfoldable pub note_lost : SessionControlRequest → ManualSessionControl → ManualSessionControl
note_lost r c =
    if same_event r.event lost && same r.attempt c.attempt then record c { attempt = [] } else c

unfoldable pub note_ready : SessionControlRequest → ManualSessionControl → ManualSessionControl
note_ready r c =
    if same_event r.event Event.ready && same r.attempt c.attempt
    then record c { retry_pending = false }
    else c

unfoldable pub note_retry : SessionControlRequest → ManualSessionControl → ManualSessionControl
note_retry r c = if asks r then record c { retry_pending = true } else c

-- What the message reports, before a decision.
unfoldable pub note_all : SessionControlRequest → ManualSessionControl → ManualSessionControl
unfolding note_lost note_ready note_retry
note_all r c = note_retry r (note_ready r (note_lost r c))

abbrev pub admits : SessionControlRequest → ManualSessionControl → Bool
admits r c = is_no_event r.event && same c.attempt [] && (not c.started || c.retry_pending)

unfoldable pub manual_admit :
    ℕ → SessionControlRequest → ManualSessionControl → ManualSessionControl
manual_admit now r c =
    if admits r c
    then record {
      attempt = r.attempt;
      deadline = now + 20 * 10 ^ 9;
      started = true;
      retry_pending = false;
    }
    else c

unfoldable pub manual_reply : SessionControlRequest → ManualSessionControl → ManualReply
manual_reply r c =
    if is_no_event r.event && same r.attempt c.attempt
    then grants (record { attempt = c.attempt; deadline = c.deadline })
    else waits

unfoldable pub manual_exchange :
    Bool → ℕ → SessionControlRequest → ManualSessionControl → ManualSessionControl × ManualReply
unfolding note_all manual_admit manual_reply
manual_exchange expired now r c =
    if expired || not (hex_token r.attempt)
    then (c, refuses)
    else let c₁ = manual_admit now r (note_all r c) in (c₁, manual_reply r c₁)

abbrev pub new_manual : ManualSessionControl
new_manual = record { attempt = []; deadline = 0; started = false; retry_pending = false }

-- ===== src/Recovery/Exchange.antt =====
-- internal/mirror/session_recovery.go: one message of a terminal helper and its answer. `none` is a
-- panic, as in `admit`.
pub mod Handling
pub mod Answers
pub mod Members
use terminal_redeemer.Base.{
  ℕ, suc, ◌+◌, min, Bool, true, false, not, ◌&&◌, ◌||◌, ltb, if◌then◌else◌, Text, same, List, [],
  ◌∷◌, ◌++◌, Option, none, some, ◌>>=◌, Map, get, put, del, any, remove_first,
}
use terminal_redeemer.Recovery.Request.{
  SessionControlRequest, Phase, connecting, Event, no_event, lost, valid_recovery_request,
}
use terminal_redeemer.Recovery.State.{
  Time, Member, SessionRetry, SessionRecovery, Reason, session_backoff, recovery_delay,
  request_probe, expire,
}
use terminal_redeemer.Recovery.Admission.{admit}

pub record SessionGrant : Type 0 where
  pub attempt : Text
  pub deadline : Time

pub record SessionControlReply : Type 0 where
  pub checking : Bool
  pub reason : Reason
  pub retry_at : Time
  pub grant : Option SessionGrant
  pub ended : Bool
  pub reset : Bool
  pub cancel_attempt : Text

pub data ExchangeError : Type 0 where
  invalid_request token_registered identity_changed : ExchangeError

pub data Answer : Type 0 where
  replied : SessionControlReply → Answer
  refused : ExchangeError → Answer

abbrev is_phase_ready : Phase → Bool
is_phase_ready Phase.ready = true
is_phase_ready _ = false

abbrev pub is_connecting : Phase → Bool
is_connecting connecting = true
is_connecting _ = false

abbrev pub is_event : Event → Bool
is_event no_event = false
is_event _ = true

-- A session that still backs off.
abbrev backing_off : Option SessionRetry → Time → Bool
backing_off none now = false
backing_off (some retry) now = ltb now retry.at

abbrev retry_time : Option SessionRetry → Time
retry_time none = 0
retry_time (some retry) = retry.at

unfoldable pub reply : SessionRecovery → Member → Time → Bool → SessionControlReply
reply s m now reset =
    let retry = get m.identity.session_id s.sessions in
    let backoff = backing_off retry now in
    record {
      checking = s.checking;
      reason = if backoff then session_backoff else s.reason;
      retry_at =
          if backoff
          then retry_time retry
          else if not s.available || s.checking
          then s.next_probe
          else 0;
      grant =
          if not reset && not m.ended && not (same m.active []) && not m.is_ready
          then some (record { attempt = m.active; deadline = m.deadline })
          else none;
      ended = m.ended;
      reset = reset;
      cancel_attempt = if m.reset && not (same m.active []) && not m.is_ready then m.active else [];
    }

-- The member that a first message registers.
unfoldable pub new_member : SessionControlRequest → ℕ → Member
new_member r ref =
    let healthy = is_phase_ready r.state in
    let unaccounted = is_connecting r.state || (is_event r.event && not healthy) in
    record {
      ref = ref;
      identity = r;
      proposed = r.attempt;
      active = if healthy then r.attempt else [];
      retired = if unaccounted then r.attempt else [];
      deadline = 0;
      is_ready = healthy;
      ended = false;
      reset = unaccounted;
    }

abbrev fresh_retry : SessionRetry
fresh_retry = record { failures = 0; at = 0 }

unfoldable pub ensure_session : Text → Map SessionRetry → Map SessionRetry
ensure_session id sessions = elim (get id sessions) [
  | none ↦ put id fresh_retry sessions
  | some retry ↦ sessions
]

unfoldable pub register : SessionRecovery → SessionControlRequest → Time → SessionRecovery
unfolding new_member ensure_session
register s r now =
    request_probe
      (record s {
        members = put r.client (new_member r s.next_ref) s.members;
        order = s.order ++ r.client ∷ [];
        sessions = ensure_session r.session_id s.sessions;
        next_ref = suc s.next_ref;
      })
      now

unfoldable pub token_in_use : Text → Map Member → Bool
token_in_use token = any (λ e. same e.1.identity.token token)

unfoldable pub same_identity : Member → SessionControlRequest → Bool
same_identity m r =
    same m.identity.token r.token
    && same m.identity.session r.session
    && same m.identity.session_id r.session_id

-- `m.f = v` on the member of a client.
abbrev pub write : SessionRecovery → Text → Member → SessionRecovery
write s client m = record s { members = put client m s.members }

-- `fail`: the active attempt is over, and its session backs off.
unfoldable pub retired_member : Member → Member
retired_member m = record m { retired = m.active; active = []; is_ready = false; reset = false }

unfoldable pub backed_off : Time → SessionRetry → SessionRetry
backed_off now retry = record {
  failures = min (retry.failures + 1) 6;
  at = now + recovery_delay retry.failures;
}

unfoldable pub fail : SessionRecovery → Text → Member → Time → Option SessionRecovery
unfolding retired_member backed_off
fail s client m now = get m.identity.session_id s.sessions >>= λ retry.
    some (record (write s client (retired_member m)) {
      sessions = put m.identity.session_id (backed_off now retry) s.sessions;
    })

-- What becomes of a message with an event: an early return, or the state to go on with.
pub data Handled : Type 0 where
  returns : Handled
  goes_on : SessionRecovery → Handled

unfoldable pub mark_ready : SessionRecovery → SessionControlRequest → Member → Option Handled
mark_ready s r m = get r.session_id s.sessions >>= λ retry. some (
    goes_on (record (write s r.client (record m { is_ready = true })) {
      sessions = put r.session_id fresh_retry s.sessions;
    }))

-- Readiness that comes after the attempt was held back or ran out does not count.
unfoldable pub is_late : Member → Time → Bool
is_late m now = not m.is_ready && (m.reset || not (ltb now m.deadline))

unfoldable pub handle_ready :
    SessionRecovery → SessionControlRequest → Member → Time → Option Handled
unfolding mark_ready is_late
handle_ready s r m now = if is_late m now then some returns else mark_ready s r m

-- The cases of the switch behind the two that return or acknowledge.
unfoldable pub handle_current :
    Event → SessionRecovery → SessionControlRequest → Member → Time → Option Handled
unfolding handle_ready
handle_current Event.ready s r m now = handle_ready s r m now
handle_current lost s r m now =
    fail s r.client m now >>= λ s'. some (goes_on (request_probe s' now))
handle_current _ s r m now = some (goes_on s)

abbrev pub is_lost : Event → Bool
is_lost lost = true
is_lost _ = false

-- The loss of the attempt that was retired last is only acknowledged.
unfoldable pub acknowledge : SessionRecovery → SessionControlRequest → Member → SessionRecovery
acknowledge s r m = if same m.active [] then write s r.client (record m { reset = false }) else s

unfoldable pub handle_event :
    SessionRecovery → SessionControlRequest → Member → Time → Option Handled
unfolding handle_current acknowledge
handle_event s r m now =
    if is_lost r.event && same r.attempt m.retired
    then some (goes_on (acknowledge s r m))
    else if not (same r.attempt m.active) || same m.active []
    then some returns
    else handle_current r.event s r m now

unfoldable pub propose : SessionRecovery → SessionControlRequest → Member → SessionRecovery
propose s r m =
    if same m.active [] && not m.reset && not (same r.attempt m.retired)
    then write s r.client (record m { proposed = r.attempt })
    else s

unfoldable pub handle : SessionRecovery → SessionControlRequest → Member → Time → Option Handled
unfolding handle_event propose
handle s r m now =
    if is_event r.event then handle_event s r m now else some (goes_on (propose s r m))

-- A helper that connects with another attempt holds its member back.
unfoldable pub hold_back : SessionRecovery → SessionControlRequest → Member → SessionRecovery
hold_back s r m =
    if is_connecting r.state && not (same m.active r.attempt) && not (same r.attempt m.retired)
    then write s r.client (record m { reset = true })
    else s

-- The end of `exchange`: admission and the answer.
unfoldable pub conclude :
    SessionRecovery → SessionControlRequest → Time → Option (SessionRecovery × Answer)
unfolding hold_back
conclude s r now = do
  m ← get r.client s.members
  s' ← admit (hold_back s r m) now
  m' ← get r.client s'.members
  some (s', replied (reply s' m' now (m'.reset || same r.attempt m'.retired)))

-- The answer that resets a caller and changes nothing more.
unfoldable pub resynchronize :
    SessionRecovery → SessionControlRequest → Member → Time → Option (SessionRecovery × Answer)
resynchronize s r m now = some (s, replied (reply s m now true))

unfoldable pub proceed :
    SessionRecovery
    → SessionControlRequest
    → Member
    → Time
    → Handled
    → Option (SessionRecovery × Answer)
unfolding conclude
proceed s r m now returns = resynchronize s r m now
proceed s r m now (goes_on s') = conclude s' r now

unfoldable pub exchange_at :
    SessionRecovery → SessionControlRequest → Member → Time → Option (SessionRecovery × Answer)
unfolding handle resynchronize proceed
exchange_at s r m now =
    if not (same m.active []) && not (same r.attempt m.active)
    then resynchronize s r m now
    else (handle s r m now >>= proceed s r m now)

unfoldable pub asked : SessionRecovery → SessionControlRequest → Time → SessionRecovery
asked s r now = if r.retry then request_probe s now else s

-- `exchange` for a registered client.
unfoldable pub exchange_member :
    SessionRecovery → SessionControlRequest → Time → Option (SessionRecovery × Answer)
unfolding exchange_at asked
exchange_member s₀ r now =
    let s = expire (asked s₀ r now) now in get r.client s.members >>= λ m. exchange_at s r m now

-- `exchange` for a client that is not registered yet.
unfoldable pub exchange_new :
    SessionRecovery → SessionControlRequest → Time → Option (SessionRecovery × Answer)
unfolding exchange_member register
exchange_new s r now =
    if token_in_use r.token s.members
    then some (s, refused token_registered)
    else exchange_member (register s r now) r now

unfoldable pub exchange_old :
    SessionRecovery → SessionControlRequest → Member → Time → Option (SessionRecovery × Answer)
unfolding exchange_member
exchange_old s r m now =
    if same_identity m r then exchange_member s r now else some (s, refused identity_changed)

unfoldable pub exchange :
    SessionRecovery → SessionControlRequest → Time → Option (SessionRecovery × Answer)
unfolding exchange_new exchange_old
exchange s r now =
    if not (valid_recovery_request r)
    then some (s, refused invalid_request)
    else elim (get r.client s.members) [
      | none ↦ exchange_new s r now
      | some m ↦ exchange_old s r m now
    ]

unfoldable pub shares_session : Text → Map Member → Bool
shares_session id = any (λ e. same e.1.identity.session_id id)

unfoldable pub remove : SessionRecovery → Text → SessionRecovery
unfolding shares_session
remove s client = elim (get client s.members) [
  | none ↦ s
  | some m ↦
      let members = del client s.members in
      record s {
        members = members;
        order = remove_first client s.order;
        sessions =
            if shares_session m.identity.session_id members
            then s.sessions
            else del m.identity.session_id s.sessions;
      }
]

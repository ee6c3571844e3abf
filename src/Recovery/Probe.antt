-- ===== src/Recovery/Probe.antt =====
-- internal/mirror/session_recovery.go: the start and the end of a host probe.
pub mod Keeps
pub mod Evidence
pub mod Frame
pub mod Messages
pub mod Verdict
use terminal_redeemer.Base.{
  ℕ, ◌+◌, ◌*◌, ◌%◌, ◌^◌, min, Bool, true, false, not, ◌&&◌, ◌||◌, ◌==◌, ltb, if◌then◌else◌, Text,
  same, [], ◌∷◌, Option, none, some, Map, get, any, map_entries,
}
use terminal_redeemer.Recovery.Inventory.{SessionInventory, session_id_of, validate}
use terminal_redeemer.Recovery.State.{
  Time, second, Member, SessionRecovery, ProbeError, failed, invalid, waiting_for_admission,
  observation_unavailable, recovery_delay, request_probe,
}
use terminal_redeemer.Recovery.Admission.{admit}

-- `!m.ready && !m.ended` for some member.
unfoldable pub any_waiting : Map Member → Bool
any_waiting = any (λ e. not e.1.is_ready && not e.1.ended)

-- The members' pointers, by client.
unfoldable pub refs : Map Member → Map ℕ
refs [] = []
refs ((id, m) ∷ ms) = (id, m.ref) ∷ refs ms

unfoldable pub start_probe : SessionRecovery → Time → SessionRecovery × Option ℕ
start_probe s now =
    let sequence = (s.sequence + 1) % 2 ^ 64 in
    (
      record s {
        checking = true;
        wanted = false;
        last_probe = now;
        sequence = sequence;
        observing = refs s.members;
      },
      some sequence,
    )

abbrev pub is_empty_map {ℓ} : {V : Type ℓ} → Map V → Bool
is_empty_map [] = true
is_empty_map (_ ∷ _) = false

unfoldable pub begin_probe : SessionRecovery → Time → SessionRecovery × Option ℕ
unfolding start_probe
begin_probe s now =
    if s.checking || is_empty_map s.members || ltb now s.next_probe
    then (s, none)
    else if not s.wanted && not (any_waiting s.members)
    then (s, none)
    else start_probe s now

-- The identity of the member's session is not the observed one.
unfoldable pub is_absent : SessionInventory → Member → Bool
is_absent inventory m =
    not (same (session_id_of inventory m.identity.session) m.identity.session_id)

-- Only the member that was there when the probe began can be ended by it.
unfoldable pub is_observed : Map ℕ → Text → Member → Bool
is_observed observing id m = elim (get id observing) [ none ↦ false | some ref ↦ m.ref == ref ]

unfoldable pub settle : Map ℕ → SessionInventory → Text → Member → Member
unfolding is_observed is_absent
settle observing inventory id m =
    if is_observed observing id m && is_absent inventory m
    then record m { ended = true; active = []; is_ready = false }
    else m

unfoldable pub probe_failed : SessionRecovery → Time → ProbeError → SessionRecovery
probe_failed s now e = record s {
  checking = false;
  available = false;
  reason = observation_unavailable e;
  next_probe = now + recovery_delay s.failures;
  failures = min (s.failures + 1) 6;
  observing = [];
}

-- The observation is taken over, and the members that it shows to be gone are ended.
unfoldable pub probe_succeeded : SessionRecovery → Time → SessionInventory → SessionRecovery
unfolding settle
probe_succeeded s now inventory = record s {
  checking = false;
  available = true;
  failures = 0;
  reason = waiting_for_admission;
  inventory = inventory;
  next_probe = now + 30 * second;
  members = map_entries (settle s.observing inventory) s.members;
  observing = [];
}

-- A member that joined during the probe and is not in the observation asks for another one.
unfoldable pub recheck : SessionRecovery → Time → SessionRecovery
unfolding is_absent
recheck s now =
    if any (λ e. not e.1.ended && is_absent s.inventory e.1) s.members
    then request_probe s now
    else s

-- The error of the probe, or else that of the observation.
unfoldable pub probe_error : SessionInventory → Option Text → Option ProbeError
probe_error inventory (some text) = some (failed text)
probe_error inventory none = elim (validate inventory) [ none ↦ none | some e ↦ some (invalid e) ]

unfoldable pub finish_probe :
    SessionRecovery → ℕ → Time → SessionInventory → Option Text → Option SessionRecovery
unfolding probe_error
finish_probe s sequence now inventory error =
    if not s.checking || not (sequence == s.sequence)
    then some s
    else elim (probe_error inventory error) [
      | some e ↦ some (probe_failed s now e)
      | none ↦ admit (recheck (probe_succeeded s now inventory) now) now
    ]

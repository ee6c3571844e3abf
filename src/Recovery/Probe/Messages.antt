-- ===== src/Recovery/Probe/Messages.antt =====
-- What a message of internal/mirror/session_recovery.go leaves of a probe that is under way.
use terminal_redeemer.Base.{
  remove_first, del, same, not, ◌&&◌, ◌||◌, Option, none, some, Text, get, [], by_test,
  if◌then◌else◌,
}
use terminal_redeemer.Recovery.Request.{SessionControlRequest, Event, lost, valid_recovery_request}
use terminal_redeemer.Recovery.State.{Time, Member, SessionRecovery, expire}
use terminal_redeemer.Recovery.Admission.{admit}
use terminal_redeemer.Recovery.Exchange.{
  Answer, fail, Handled, returns, goes_on, mark_ready, is_late, handle_ready, handle_current,
  acknowledge, handle_event, propose, handle, hold_back, conclude, resynchronize, proceed,
  exchange_at, asked, exchange_member, register, exchange_new, exchange_old, exchange, remove,
  is_event, is_lost, is_connecting, token_in_use, same_identity, shares_session,
}
use terminal_redeemer.Recovery.Probe.Frame.{
  Whenever, Whenever->>=, any_of, SameProbe, request_probe-SameProbe, expire-SameProbe,
  admit-SameProbe,
}

module _ (a : SessionRecovery) where
  abbrev InHandled : Handled → Type 0
  InHandled returns = Unit
  InHandled (goes_on s) = SameProbe a s

  abbrev InAnswer : SessionRecovery × Answer → Type 0
  InAnswer x = SameProbe a x.0

  fail-SameProbe :
      (s : SessionRecovery) (c : Text) (m : Member) (now : Time)
      → SameProbe a s
      → Whenever (SameProbe a) (fail s c m now)
  unfolding fail
  fail-SameProbe s c m now v =
      Whenever->>= (λ _. Unit) (SameProbe a) (get m.identity.session_id s.sessions) _
        (any_of (get m.identity.session_id s.sessions)) (λ _ _. v)

  mark_ready-InHandled :
      (s : SessionRecovery) (r : SessionControlRequest) (m : Member)
      → SameProbe a s
      → Whenever InHandled (mark_ready s r m)
  unfolding mark_ready
  mark_ready-InHandled s r m v =
      Whenever->>= (λ _. Unit) InHandled (get r.session_id s.sessions) _
        (any_of (get r.session_id s.sessions)) (λ _ _. v)

  handle_current-InHandled :
      (e : Event) (s : SessionRecovery) (r : SessionControlRequest) (m : Member) (now : Time)
      → SameProbe a s
      → Whenever InHandled (handle_current e s r m now)
  unfolding handle_current handle_ready
  handle_current-InHandled Event.ready s r m now v =
      by_test (Whenever InHandled) (is_late m now) (some returns) (mark_ready s r m) (λ _. tt)
        (λ _. mark_ready-InHandled s r m v)
  handle_current-InHandled lost s r m now v =
      Whenever->>= (SameProbe a) InHandled (fail s r.client m now) _
        (fail-SameProbe s r.client m now v) (λ s' w. request_probe-SameProbe a s' now w)
  handle_current-InHandled _ s r m now v = v

  handle_event-InHandled :
      (s : SessionRecovery) (r : SessionControlRequest) (m : Member) (now : Time)
      → SameProbe a s
      → Whenever InHandled (handle_event s r m now)
  unfolding handle_event acknowledge
  handle_event-InHandled s r m now v =
      by_test (Whenever InHandled) (is_lost r.event && same r.attempt m.retired) _ _
        (λ _. by_test (SameProbe a) (same m.active []) _ _ (λ _. v) (λ _. v))
        (λ _.
          by_test (Whenever InHandled) (not (same r.attempt m.active) || same m.active []) _ _
            (λ _. tt) (λ _. handle_current-InHandled r.event s r m now v))

  handle-InHandled :
      (s : SessionRecovery) (r : SessionControlRequest) (m : Member) (now : Time)
      → SameProbe a s
      → Whenever InHandled (handle s r m now)
  unfolding handle propose
  handle-InHandled s r m now v =
      by_test (Whenever InHandled) (is_event r.event) _ _ (λ _. handle_event-InHandled s r m now v)
        (λ _.
          by_test (SameProbe a) (same m.active [] && not m.reset && not (same r.attempt m.retired))
            _ _ (λ _. v) (λ _. v))

  conclude-InAnswer :
      (s : SessionRecovery) (r : SessionControlRequest) (now : Time)
      → SameProbe a s
      → Whenever InAnswer (conclude s r now)
  unfolding conclude hold_back
  conclude-InAnswer s r now v =
      Whenever->>= (λ _. Unit) InAnswer (get r.client s.members) _ (any_of (get r.client s.members))
        (λ m _.
          Whenever->>= (SameProbe a) InAnswer (admit (hold_back s r m) now) _
            (admit-SameProbe a (hold_back s r m) now (
              by_test (SameProbe a)
                (is_connecting r.state
                  && not (same m.active r.attempt)
                  && not (same r.attempt m.retired))
                _ _ (λ _. v) (λ _. v)))
            (λ s' w.
              Whenever->>= (λ _. Unit) InAnswer (get r.client s'.members) _
                (any_of (get r.client s'.members)) (λ _ _. w)))

  exchange_at-InAnswer :
      (s : SessionRecovery) (r : SessionControlRequest) (m : Member) (now : Time)
      → SameProbe a s
      → Whenever InAnswer (exchange_at s r m now)
  unfolding exchange_at resynchronize
  exchange_at-InAnswer s r m now v =
      by_test (Whenever InAnswer) (not (same m.active []) && not (same r.attempt m.active)) _ _
        (λ _. v)
        (λ _.
          Whenever->>= InHandled InAnswer (handle s r m now) (proceed s r m now)
            (handle-InHandled s r m now v) goes)
    where
      goes : (h : Handled) → InHandled h → Whenever InAnswer (proceed s r m now h)
      goes returns w = v
      goes (goes_on s') w = conclude-InAnswer s' r now w

  exchange_member-InAnswer :
      (s : SessionRecovery) (r : SessionControlRequest) (now : Time)
      → SameProbe a s
      → Whenever InAnswer (exchange_member s r now)
  unfolding exchange_member asked
  exchange_member-InAnswer s r now v =
      Whenever->>= (λ _. Unit) InAnswer (get r.client t.members) (λ m. exchange_at t r m now)
        (any_of (get r.client t.members))
        (λ m _. exchange_at-InAnswer t r m now (
          expire-SameProbe a (asked s r now) now
            (by_test (SameProbe a) r.retry _ _ (λ _. request_probe-SameProbe a s now v) (λ _. v))))
    where
      t : SessionRecovery
      t = expire (asked s r now) now

  exchange_new-InAnswer :
      (s : SessionRecovery) (r : SessionControlRequest) (now : Time)
      → SameProbe a s
      → Whenever InAnswer (exchange_new s r now)
  unfolding exchange_new register
  exchange_new-InAnswer s r now v =
      by_test (Whenever InAnswer) (token_in_use r.token s.members) _ _ (λ _. v)
        (λ _. exchange_member-InAnswer (register s r now) r now (request_probe-SameProbe a _ now v))

  exchange_old-InAnswer :
      (s : SessionRecovery) (r : SessionControlRequest) (m : Member) (now : Time)
      → SameProbe a s
      → Whenever InAnswer (exchange_old s r m now)
  unfolding exchange_old
  exchange_old-InAnswer s r m now v =
      by_test (Whenever InAnswer) (same_identity m r) _ _ (λ _. exchange_member-InAnswer s r now v)
        (λ _. v)

  pub exchange-InAnswer :
      (s : SessionRecovery) (r : SessionControlRequest) (now : Time)
      → SameProbe a s
      → Whenever (λ x. SameProbe a x.0) (exchange s r now)
  unfolding exchange
  exchange-InAnswer s r now v =
      by_test (Whenever InAnswer) (not (valid_recovery_request r)) _ _ (λ _. v)
        (λ _. by_member (get r.client s.members))
    where
      by_member :
          (o : Option Member)
          → Whenever InAnswer (elim o as (λ _. Option (SessionRecovery × Answer)) [
            | none ↦ exchange_new s r now
            | some m ↦ exchange_old s r m now
          ])
      by_member none = exchange_new-InAnswer s r now v
      by_member (some m) = exchange_old-InAnswer s r m now v

  pub remove-SameProbe :
      (s : SessionRecovery) (client : Text) → SameProbe a s → SameProbe a (remove s client)
  unfolding remove
  remove-SameProbe s client v = by_member (get client s.members)
    where
      by_member :
          (o : Option Member)
          → SameProbe a (elim o as (λ _. SessionRecovery) [
            | none ↦ s
            | some m ↦
                let members = del client s.members in
                record s {
                  members = members;
                  order = remove_first client s.order;
                  sessions =
                      if shares_session m.identity.session_id members
                      then s.sessions
                      else del m.identity.session_id s.sessions;
                }
          ])
      by_member none = v
      by_member (some m) = v

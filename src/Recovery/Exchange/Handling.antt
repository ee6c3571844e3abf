-- ===== src/Recovery/Exchange/Handling.antt =====
-- How the event of a message is handled: the state to go on with keeps the invariant, and the
-- client's member is aligned with the message.
use terminal_redeemer.Base.{
  ◌≡◌, refl, sym, ap, ◌∙◌, ◌≢◌, true, false, not, ◌&&◌, ◌||◌, [], some, ◌>>=◌, Text, same, get, put,
  Each-get, get-seen, seen-put, get-put_same, if◌then◌else◌, arith, Returns, by_test,
}
use terminal_redeemer.Recovery.Request.{SessionControlRequest, Event, lost}
use terminal_redeemer.Recovery.State.{
  Time, Member, SessionRetry, SessionRecovery, is_pending, request_probe,
}
use terminal_redeemer.Recovery.Roster.{Sound, Tracked, Inv, Roster-write, Roster-sessions}
use terminal_redeemer.Recovery.Exchange.{
  fresh_retry, write, retired_member, backed_off, fail, Handled, returns, goes_on, mark_ready,
  is_late, acknowledge, handle_ready, handle_current, handle_event, propose, handle, is_event,
  is_lost,
}
use terminal_redeemer.Recovery.Exchange.Members.{
  Aligned, retired_member-Aligned, lost-Aligned, active-Aligned, proposed-Sound, reset-Sound,
  ready-Sound, retired_member-Sound,
}

pub request_probe-Inv : (s : SessionRecovery) (now : Time) → Inv s → Inv (request_probe s now)
unfolding request_probe
request_probe-Inv s now v = by_test Inv s.checking _ _ (λ _. v) (λ _. v)

pub request_probe_members :
    (s : SessionRecovery) (now : Time) → (request_probe s now).members ≡ s.members
unfolding request_probe
request_probe_members s now = ground arith

-- The client's member, with its place in the state.
pub record Seated (r : SessionControlRequest) (s : SessionRecovery) (m : Member) : Type 0 where
  pub inv : Inv s
  pub at_client : get r.client s.members ≡ some m
  pub its_session : m.identity.session_id ≡ r.session_id

pub record Going (r : SessionControlRequest) (s : SessionRecovery) (m : Member) : Type 0 where
  pub seat : Seated r s m
  pub aligned : Aligned r m

-- A state to go on with has an aligned member; an early return leaves it to the caller.
abbrev pub GoesOn : SessionControlRequest → Handled → Type 0
GoesOn r returns = Unit
GoesOn r (goes_on s) = (m : Member) × Going r s m

pub Seated-Sound :
    (r : SessionControlRequest) (s : SessionRecovery) (m : Member) → Seated r s m → Sound r.client m
Seated-Sound r s m v = Each-get Sound r.client s.members v.inv.sound v.at_client

pub Seated-write :
    (r : SessionControlRequest) (s : SessionRecovery) (m m' : Member)
    → Seated r s m
    → Sound r.client m'
    → m'.identity ≡ m.identity
    → (is_pending m' ≡ true → is_pending m ≡ true)
    → Seated r (write s r.client m') m'
Seated-write r s m m' v sound ids calm = record {
  inv =
      Roster-write r.client m m' v.inv v.at_client sound
        (ap (λ (i : SessionControlRequest). i.session_id) ids) calm;
  at_client = get-put_same r.client r.client m' s.members refl;
  its_session = ap (λ (i : SessionControlRequest). i.session_id) ids ∙ v.its_session;
}

Seated-sessions :
    (r : SessionControlRequest) (s : SessionRecovery) (m : Member) (sid : Text)
    (retry : SessionRetry)
    → Seated r s m
    → Seated r (record s { sessions = put sid retry s.sessions }) m
Seated-sessions r s m sid retry v = record {
  inv = Roster-sessions (put sid retry s.sessions) v.inv (λ j. seen-put j sid retry s.sessions);
  at_client = v.at_client;
  its_session = v.its_session;
}

Seated-probe :
    (r : SessionControlRequest) (s : SessionRecovery) (m : Member) (now : Time)
    → Seated r s m
    → Seated r (request_probe s now) m
Seated-probe r s m now v = record {
  inv = request_probe-Inv s now v.inv;
  at_client = ap (get r.client) (request_probe_members s now) ∙ v.at_client;
  its_session = v.its_session;
}

-- The retry record of the client's session.
Seated-retry :
    (r : SessionControlRequest) (s : SessionRecovery) (m : Member)
    → Seated r s m
    → (retry : SessionRetry) × (get m.identity.session_id s.sessions ≡ some retry)
Seated-retry r s m v =
    get-seen m.identity.session_id s.sessions
      (Each-get (Tracked s.sessions) r.client s.members v.inv.tracked v.at_client)

fail-GoesOn :
    (r : SessionControlRequest) (s : SessionRecovery) (m : Member) (now : Time)
    → Seated r s m
    → m.active ≡ r.attempt
    → Returns (GoesOn r) (fail s r.client m now >>= λ s'. some (goes_on (request_probe s' now)))
unfolding fail
fail-GoesOn r s m now v same_attempt =
    let (retry, found) = Seated-retry r s m v in
    rw found (
      retired_member m,
      record {
        seat = Seated-probe r _ (retired_member m) now (
            Seated-sessions r _ (retired_member m) m.identity.session_id (backed_off now retry) (
              Seated-write r s m (retired_member m) v
                (retired_member-Sound r.client m (Seated-Sound r s m v))
                (unfold retired_member in refl) (unfold retired_member in ground arith)));
        aligned = retired_member-Aligned r m same_attempt;
      },
    )

mark_ready-GoesOn :
    (r : SessionControlRequest) (s : SessionRecovery) (m : Member)
    → Seated r s m
    → m.active ≢ []
    → m.active ≡ r.attempt
    → Returns (GoesOn r) (mark_ready s r m)
unfolding mark_ready
mark_ready-GoesOn r s m v some_attempt same_attempt =
    let (retry, found) = Seated-retry r s m v in
    rw (sym (ap (λ i. get i s.sessions) v.its_session) ∙ found) (
      record m { is_ready = true },
      record {
        seat =
            Seated-sessions r _ (record m { is_ready = true }) r.session_id fresh_retry
              (Seated-write r s m (record m { is_ready = true }) v
                (ready-Sound r.client m some_attempt (Seated-Sound r s m v)) refl (ground arith));
        aligned = active-Aligned r (record m { is_ready = true }) some_attempt same_attempt;
      },
    )

handle_current-GoesOn :
    (e : Event) (r : SessionControlRequest) (s : SessionRecovery) (m : Member) (now : Time)
    → Seated r s m
    → m.active ≢ []
    → m.active ≡ r.attempt
    → Returns (GoesOn r) (handle_current e s r m now)
unfolding handle_current handle_ready
handle_current-GoesOn Event.ready r s m now v h e =
    by_test (Returns (GoesOn r)) (is_late m now) (some returns) (mark_ready s r m) (λ _. tt)
      (λ _. mark_ready-GoesOn r s m v h e)
handle_current-GoesOn lost r s m now v h e = fail-GoesOn r s m now v e
handle_current-GoesOn _ r s m now v h e = (m, record { seat = v; aligned = active-Aligned r m h e })

acknowledge-GoesOn :
    (r : SessionControlRequest) (s : SessionRecovery) (m : Member)
    → Seated r s m
    → same r.attempt m.retired ≡ true
    → GoesOn r (goes_on (acknowledge s r m))
unfolding acknowledge
acknowledge-GoesOn r s m v e =
    by_test (λ t. GoesOn r (goes_on t)) (same m.active [])
      (write s r.client (record m { reset = false })) s
      (λ _. (
        record m { reset = false },
        record {
          seat =
              Seated-write r s m (record m { reset = false }) v
                (reset-Sound r.client false m (Seated-Sound r s m v)) refl (ground arith);
          aligned = lost-Aligned r (record m { reset = false }) e;
        },
      ))
      (λ _. (m, record { seat = v; aligned = lost-Aligned r m e }))

handle_event-GoesOn :
    (r : SessionControlRequest) (s : SessionRecovery) (m : Member) (now : Time)
    → Seated r s m
    → Returns (GoesOn r) (handle_event s r m now)
unfolding handle_event
handle_event-GoesOn r s m now v =
    by_test (Returns (GoesOn r)) (is_lost r.event && same r.attempt m.retired)
      (some (goes_on (acknowledge s r m)))
      (if not (same r.attempt m.active) || same m.active []
        then some returns
        else handle_current r.event s r m now)
      (λ e. acknowledge-GoesOn r s m v (ground arith))
      (λ _.
        by_test (Returns (GoesOn r)) (not (same r.attempt m.active) || same m.active [])
          (some returns) (handle_current r.event s r m now) (λ _. tt)
          (λ e. handle_current-GoesOn r.event r s m now v (ground arith) (ground arith)))

propose-GoesOn :
    (r : SessionControlRequest) (s : SessionRecovery) (m : Member)
    → Seated r s m
    → r.attempt ≢ []
    → (m.active ≢ [] → m.active ≡ r.attempt)
    → GoesOn r (goes_on (propose s r m))
unfolding propose
propose-GoesOn r s m v h own =
    by_test (λ t. GoesOn r (goes_on t))
      (same m.active [] && not m.reset && not (same r.attempt m.retired))
      (write s r.client (record m { proposed = r.attempt })) s
      (λ e. (
        record m { proposed = r.attempt },
        record {
          seat =
              Seated-write r s m (record m { proposed = r.attempt }) v
                (proposed-Sound r.client r.attempt m h (Seated-Sound r s m v)) refl (λ p. p);
          aligned = record { owns = λ _. own; proposes = λ _ _. refl };
        },
      ))
      (λ e. (
        m,
        record {
          seat = v;
          aligned = record { owns = λ _. own; proposes = λ a b. absurd (ground arith) };
        },
      ))

pub handle-GoesOn :
    (r : SessionControlRequest) (s : SessionRecovery) (m : Member) (now : Time)
    → Seated r s m
    → r.attempt ≢ []
    → (m.active ≢ [] → m.active ≡ r.attempt)
    → Returns (GoesOn r) (handle s r m now)
unfolding handle
handle-GoesOn r s m now v h own =
    by_test (Returns (GoesOn r)) (is_event r.event) (handle_event s r m now)
      (some (goes_on (propose s r m))) (λ _. handle_event-GoesOn r s m now v)
      (λ _. propose-GoesOn r s m v h own)

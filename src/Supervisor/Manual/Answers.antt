-- ===== src/Supervisor/Manual/Answers.antt =====
-- What the control of internal/mirror/session_manual.go answers.
use terminal_redeemer.Base.{
  ℕ, ◌+◌, ◌≡◌, refl, ◌∙◌, ◌*◌, ◌^◌, ◌≢◌, ◌⊎◌, sym, by_test, Bool, true, false, not, ◌&&◌, ◌||◌, [],
  same, arith,
}
use terminal_redeemer.Recovery.Request.{Event, no_event, lost, SessionControlRequest, hex_token}
use terminal_redeemer.Recovery.Exchange.{SessionGrant}
use terminal_redeemer.Supervisor.Handling.{same_event, is_no_event}
use terminal_redeemer.Supervisor.Manual.{
  ManualSessionControl, ManualReply, refuses, waits, grants, asks, note_lost, note_ready,
  note_retry, note_all, admits, manual_admit, manual_reply, manual_exchange,
}

-- What a message is answered in the state c, and what becomes of it.
pub data Grants (expired : Bool) (now : ℕ) (r : SessionControlRequest) (c : ManualSessionControl)
    : ManualSessionControl × ManualReply → Type 0 where
  unfit : (expired || not (hex_token r.attempt)) ≡ true → Grants expired now r c (c, refuses)
  reports : (d : ManualSessionControl) → r.event ≢ no_event → Grants expired now r c (d, waits)
  waiting :
      (d : ManualSessionControl)
      → d.attempt ≡ c.attempt
      → c.attempt ≢ r.attempt
      → (c.attempt ≢ []) ⊎ ((c.started ≡ true) × ((c.retry_pending ≡ false) × (asks r ≡ false)))
      → Grants expired now r c (d, waits)
  renewed :
      (d : ManualSessionControl) (g : SessionGrant)
      → r.event ≡ no_event
      → c.attempt ≡ r.attempt
      → d.attempt ≡ c.attempt
      → d.deadline ≡ c.deadline
      → g.attempt ≡ c.attempt
      → g.deadline ≡ c.deadline
      → Grants expired now r c (d, grants g)
  opened :
      (d : ManualSessionControl) (g : SessionGrant)
      → r.event ≡ no_event
      → c.attempt ≡ []
      → (c.started ≡ false) ⊎ ((c.retry_pending ≡ true) ⊎ (asks r ≡ true))
      → d ≡ record {
        attempt = r.attempt;
        deadline = now + 20 * 10 ^ 9;
        started = true;
        retry_pending = false;
      }
      → g.attempt ≡ r.attempt
      → g.deadline ≡ now + 20 * 10 ^ 9
      → Grants expired now r c (d, grants g)

no_event_of : (e : Event) → is_no_event e ≡ true → e ≡ no_event
no_event_of e h = ground arith

event_of : (e : Event) → is_no_event e ≡ false → e ≢ no_event
event_of e h k = ground arith

-- What the report of a message without one leaves.
record Noted (r : SessionControlRequest) (c d : ManualSessionControl) : Type 0 where
  pub attempt : d.attempt ≡ c.attempt
  pub deadline : d.deadline ≡ c.deadline
  pub started : d.started ≡ c.started
  pub retry : d.retry_pending ≡ (asks r || c.retry_pending)

note_all-Noted :
    (r : SessionControlRequest) (c : ManualSessionControl)
    → is_no_event r.event ≡ true
    → Noted r c (note_all r c)
unfolding note_all note_lost note_ready note_retry
note_all-Noted r c h =
    by_test (λ x. Noted r c (note_retry r (note_ready r x)))
      (same_event r.event lost && same r.attempt c.attempt) _ _ (λ e. absurd (ground arith))
      (λ _.
        by_test (λ x. Noted r c (note_retry r x))
          (same_event r.event Event.ready && same r.attempt c.attempt) _ _
          (λ e. absurd (ground arith))
          (λ _.
            by_test (Noted r c) (asks r) _ _
              (λ a. record {
                attempt = refl;
                deadline = refl;
                started = refl;
                retry = ground (arith, a);
              })
              (λ a. record {
                attempt = refl;
                deadline = refl;
                started = refl;
                retry = ground (arith, a);
              })))

replies-Grants :
    (expired : Bool) (now : ℕ) (r : SessionControlRequest) (c d : ManualSessionControl)
    → is_no_event r.event ≡ true
    → Noted r c d
    → Grants expired now r c (manual_admit now r d, manual_reply r (manual_admit now r d))
unfolding manual_reply manual_admit
replies-Grants expired now r c d e n =
    by_test (λ x. Grants expired now r c (x, manual_reply r x)) (admits r d) _ _
      (λ a.
        by_test
          (λ y. Grants expired now r c (
            record {
              attempt = r.attempt;
              deadline = now + 20 * 10 ^ 9;
              started = true;
              retry_pending = false;
            },
            y,
          ))
          (is_no_event r.event && same r.attempt r.attempt) _ _
          (λ _.
            opened _ _ (no_event_of r.event e) (sym n.attempt ∙ ground (arith, a))
              (ground (arith, a, n.started, n.retry)) refl refl refl)
          (λ h. absurd (ground (arith, h, e))))
      (λ a.
        by_test (λ y. Grants expired now r c (d, y))
          (is_no_event r.event && same r.attempt d.attempt) _ _
          (λ h.
            renewed d _ (no_event_of r.event e) (ground (arith, h)) n.attempt n.deadline n.attempt
              n.deadline)
          (λ h.
            waiting d n.attempt (ground (arith, h, e, n.attempt))
              (ground (arith, a, e, n.attempt, n.started, n.retry))))

reports-Grants :
    (expired : Bool) (now : ℕ) (r : SessionControlRequest) (c d : ManualSessionControl)
    → is_no_event r.event ≡ false
    → Grants expired now r c (d, manual_reply r d)
unfolding manual_reply
reports-Grants expired now r c d e =
    by_test (λ y. Grants expired now r c (d, y)) (is_no_event r.event && same r.attempt d.attempt) _
      _ (λ h. absurd (ground (arith, h, e))) (λ _. reports d (event_of r.event e))

-- A message is refused, with nothing changed, only where the time has run out or its attempt is not 32
-- hexadecimal digits; else it is granted the attempt that the control holds, with its deadline, if it is
-- the one that the message names and the message reports nothing; or, for 20 seconds, the attempt that
-- it names, where the control holds none and has admitted none yet or is asked to retry. It
-- is told to wait only if it reports something, or names another attempt than the one that is held
-- while that one is held, or while one was admitted and none is asked for.
pub manual_exchange-Grants :
    (expired : Bool) (now : ℕ) (r : SessionControlRequest) (c : ManualSessionControl)
    → Grants expired now r c (manual_exchange expired now r c)
unfolding manual_exchange
manual_exchange-Grants expired now r c =
    by_test (Grants expired now r c) (expired || not (hex_token r.attempt)) _ _ unfit
      (λ _. by_report (is_no_event r.event) refl)
  where
    after : ManualSessionControl
    after = manual_admit now r (note_all r c)

    by_report :
        (b : Bool) → is_no_event r.event ≡ b → Grants expired now r c (after, manual_reply r after)
    by_report true e = replies-Grants expired now r c (note_all r c) e (note_all-Noted r c e)
    by_report false e = reports-Grants expired now r c after e

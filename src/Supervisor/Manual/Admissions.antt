-- ===== src/Supervisor/Manual/Admissions.antt =====
-- How often the control of internal/mirror/session_manual.go admits an attachment, and to whom.
use terminal_redeemer.Base.{
  ℕ, ◌+◌, ◌≤◌, ◌≡◌, refl, sym, subst, by_test, Bool, true, false, not, ◌&&◌, ◌||◌, List, [], ◌∷◌,
  same, if◌then◌else◌, arith,
}
use terminal_redeemer.Recovery.Request.{Event, lost, SessionControlRequest, hex_token}
use terminal_redeemer.Supervisor.Handling.{same_event, is_no_event}
use terminal_redeemer.Supervisor.Manual.{
  ManualSessionControl, ManualReply, grants, asks, note_lost, note_ready, note_retry, note_all,
  admits, manual_admit, manual_reply, manual_exchange, new_manual,
}

abbrev one_if : Bool → ℕ
one_if b = if b then 1 else 0

-- One message and when it comes.
pub record Message : Type 0 where
  pub expired : Bool
  pub time : ℕ
  pub request : SessionControlRequest

abbrev pub control_after : Message → ManualSessionControl → ManualSessionControl
control_after m c = (manual_exchange m.expired m.time m.request c).0

abbrev is_grant : ManualReply → Bool
is_grant (grants _) = true
is_grant _ = false

-- The answer to the message is a grant of an attempt that the control did not hold before.
abbrev pub opens : Message → ManualSessionControl → Bool
opens m c =
    is_grant (manual_exchange m.expired m.time m.request c).1
    && not (same c.attempt m.request.attempt)

-- How many attachments are admitted while the messages come.
unfoldable pub admissions : ManualSessionControl → List Message → ℕ
admissions c [] = 0
admissions c (m ∷ ms) = one_if (opens m c) + admissions (control_after m c) ms

unfoldable pub requests_to_retry : List Message → ℕ
requests_to_retry [] = 0
requests_to_retry (m ∷ ms) = one_if (asks m.request) + requests_to_retry ms

-- The message is looked at, and passes the test for a new attachment.
abbrev admitted : Message → ManualSessionControl → Bool
admitted m c =
    not (m.expired || not (hex_token m.request.attempt)) && admits m.request (note_all m.request c)

-- The admissions that the control still owes.
abbrev credit : ManualSessionControl → ℕ
credit c = one_if (not c.started) + one_if c.retry_pending

credit-note_lost :
    (r : SessionControlRequest) (c : ManualSessionControl) → credit (note_lost r c) ≤ credit c
unfolding note_lost
credit-note_lost r c =
    by_test (λ x. credit x ≤ credit c) (same_event r.event lost && same r.attempt c.attempt) _ _
      (λ _. omega arith) (λ _. omega arith)

credit-note_ready :
    (r : SessionControlRequest) (c : ManualSessionControl) → credit (note_ready r c) ≤ credit c
unfolding note_ready
credit-note_ready r c =
    by_test (λ x. credit x ≤ credit c) (same_event r.event Event.ready && same r.attempt c.attempt)
      _ _ (λ _. ground arith) (λ _. omega arith)

credit-note_retry :
    (r : SessionControlRequest) (c : ManualSessionControl)
    → credit (note_retry r c) ≤ credit c + one_if (asks r)
unfolding note_retry
credit-note_retry r c =
    by_test (λ x. credit x ≤ credit c + one_if (asks r)) (asks r) _ _ (λ e. ground (arith, e))
      (λ _. omega arith)

credit-note_all :
    (r : SessionControlRequest) (c : ManualSessionControl)
    → credit (note_all r c) ≤ credit c + one_if (asks r)
unfolding note_all
credit-note_all r c = omega (
  arith,
  credit-note_lost r c,
  credit-note_ready r (note_lost r c),
  credit-note_retry r (note_ready r (note_lost r c)),
)

credit-manual_admit :
    (now : ℕ) (r : SessionControlRequest) (c : ManualSessionControl)
    → credit (manual_admit now r c) + one_if (admits r c) ≤ credit c
unfolding manual_admit
credit-manual_admit now r c = ground arith

-- What a message does by whether it is looked at.
by_fit :
    (unfit : Bool) (m : Message) (c : ManualSessionControl)
    → credit (if unfit then c else manual_admit m.time m.request (note_all m.request c))
        + one_if (not unfit && admits m.request (note_all m.request c))
      ≤ credit c + one_if (asks m.request)
by_fit true m c = omega arith
by_fit false m c = omega (
  arith,
  credit-note_all m.request c,
  credit-manual_admit m.time m.request (note_all m.request c),
)

control_after_as :
    (m : Message) (c : ManualSessionControl)
    → control_after m c ≡ (
        if m.expired || not (hex_token m.request.attempt)
        then c
        else manual_admit m.time m.request (note_all m.request c))
unfolding manual_exchange
control_after_as m c = first_of (m.expired || not (hex_token m.request.attempt)) c _ _ _
  where
    first_of :
        (b : Bool) (x y : ManualSessionControl) (p q : ManualReply)
        → (if◌then◌else◌ {A = ManualSessionControl × ManualReply} b (x, p) (y, q)).0
          ≡ (if b then x else y)
    first_of true x y p q = refl
    first_of false x y p q = refl

is_lost_or_not : (e : Event) → is_no_event e ≡ true → same_event e lost ≡ false
is_lost_or_not e h = ground arith

-- A message without a report leaves the attempt that is held.
note_all-attempt :
    (r : SessionControlRequest) (c : ManualSessionControl)
    → is_no_event r.event ≡ true
    → (note_all r c).attempt ≡ c.attempt
unfolding note_all note_lost note_ready note_retry
note_all-attempt r c h = ground (arith, is_lost_or_not r.event h)

reply_held :
    (r : SessionControlRequest) (c d : ManualSessionControl)
    → (is_no_event r.event ≡ true → d.attempt ≡ c.attempt)
    → (is_grant (manual_reply r d) && not (same c.attempt r.attempt)) ≡ true
    → ⊥
unfolding manual_reply
reply_held r c d k =
    by_test (λ y. (is_grant y && not (same c.attempt r.attempt)) ≡ true → ⊥)
      (is_no_event r.event && same r.attempt d.attempt) _ _
      (λ t h. let e = k (ground (arith, t)) in ground (arith, t, h, e)) (λ _ h. cc)

reply-admits :
    (now : ℕ) (r : SessionControlRequest) (c d : ManualSessionControl)
    → (is_no_event r.event ≡ true → d.attempt ≡ c.attempt)
    → (is_grant (manual_reply r (manual_admit now r d)) && not (same c.attempt r.attempt)) ≡ true
    → admits r d ≡ true
unfolding manual_admit
reply-admits now r c d k =
    by_test
      (λ x.
        (is_grant (manual_reply r x) && not (same c.attempt r.attempt)) ≡ true → admits r d ≡ true)
      (admits r d) _ _ (λ e _. e) (λ _ h. absurd (reply_held r c d k h))

one_if_le : (a b : Bool) → (a ≡ true → b ≡ true) → one_if a ≤ one_if b
one_if_le true b h = ground (arith, h refl)
one_if_le false b h = omega arith

-- Only the test of the control opens an attachment.
opens-admits : (m : Message) (c : ManualSessionControl) → one_if (opens m c) ≤ one_if (admitted m c)
unfolding manual_exchange
opens-admits m c =
    by_test
      (λ (x : ManualSessionControl × ManualReply).
        one_if (is_grant x.1 && not (same c.attempt m.request.attempt)) ≤ one_if (admitted m c))
      (m.expired || not (hex_token m.request.attempt)) _ _ (λ _. omega arith)
      (λ f. one_if_le _ _ (λ h.
        let a =
          reply-admits m.time m.request c (note_all m.request c) (note_all-attempt m.request c) h in
        ground (arith, f, a)))

credit-control_after :
    (m : Message) (c : ManualSessionControl)
    → credit (control_after m c) + one_if (opens m c) ≤ credit c + one_if (asks m.request)
credit-control_after m c = omega (arith, opens-admits m c, tested)
  where
    tested : credit (control_after m c) + one_if (admitted m c) ≤ credit c + one_if (asks m.request)
    tested =
        subst (λ x. credit x + one_if (admitted m c) ≤ credit c + one_if (asks m.request))
          (sym (control_after_as m c)) (by_fit (m.expired || not (hex_token m.request.attempt)) m c)

admissions-credit :
    (c : ManualSessionControl) (ms : List Message)
    → admissions c ms ≤ credit c + requests_to_retry ms
unfolding admissions requests_to_retry
admissions-credit c [] = omega arith
admissions-credit c (m ∷ ms) =
    omega (arith, credit-control_after m c, admissions-credit (control_after m c) ms)

-- Whatever messages a helper sends to a new control, no more of the answers grant an attempt that the
-- control did not hold than messages ask to retry while the helper is not ready, and one.
pub admissions_le : (ms : List Message) → admissions new_manual ms ≤ 1 + requests_to_retry ms
admissions_le ms = admissions-credit new_manual ms

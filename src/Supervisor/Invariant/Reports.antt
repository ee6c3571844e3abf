-- ===== src/Supervisor/Invariant/Reports.antt =====
-- The invariant of the helper of internal/mirror/session_supervisor.go when a report is delivered.
use terminal_redeemer.Base.{
  ℕ, ◌≡◌, refl, by_test, Bool, true, false, not, ◌&&◌, List, [], ◌∷◌, Option, none, some, Text,
  same, arith,
}
use terminal_redeemer.Recovery.Request.{Event, lost, SessionControlRequest}
use terminal_redeemer.Supervisor.{SessionReport, Supervisor, report_of}
use terminal_redeemer.Supervisor.Handling.{same_event, is_no_event, renew, take_report}
use terminal_redeemer.Supervisor.Invariant.Tokens.{Random, hex_token-hex_encode}
use terminal_redeemer.Supervisor.Invariant.{Inv, Due, nothing, readiness, loss, both}

abbrev pub Held : Option Supervisor → Type 0
Held none = Unit
Held (some s) = Inv s

-- The state with these parts.
abbrev with_due : Supervisor → Text → Bool → List SessionReport → Supervisor
with_due s attempt child rs = record s { attempt = attempt; child = child; reports = rs }

renew-Inv :
    (nonce : Option (List ℕ)) (s : Supervisor) (attempt : Text) (rs : List SessionReport)
    → Random nonce
    → Inv (with_due s attempt false rs)
    → Held (renew nonce (with_due s attempt false []))
unfolding renew
renew-Inv none s attempt rs r v = tt
renew-Inv (some bytes) s attempt rs r v = record {
  due = nothing false;
  fresh = λ c. absurd (cc);
  granted = λ c. absurd (cc);
  free = λ _ _. refl;
  attached = v.attached;
  slotted = v.slotted;
  token = hex_token-hex_encode bytes r;
  asks = v.asks;
}

ready_taken-Inv :
    (s : Supervisor) (attempt : Text)
    → Inv (with_due s attempt true (report_of attempt Event.ready ∷ []))
    → Inv (with_due s attempt true [])
ready_taken-Inv s attempt v = record {
  due = nothing true;
  fresh = λ _ _ _. refl;
  granted = v.granted;
  free = λ c. absurd (cc);
  attached = v.attached;
  slotted = v.slotted;
  token = v.token;
  asks = v.asks;
}

both_taken-Inv :
    (s : Supervisor) (attempt : Text) (rs : List SessionReport)
    → Inv (with_due s attempt false rs)
    → Inv (with_due s attempt false (report_of attempt lost ∷ []))
both_taken-Inv s attempt rs v = record {
  due = loss;
  fresh = λ c. absurd (cc);
  granted = λ c. absurd (cc);
  free = λ _ e. absurd (cc);
  attached = v.attached;
  slotted = v.slotted;
  token = v.token;
  asks = v.asks;
}

not_both : (e : Event) → same_event Event.ready e ≡ true → same_event e lost ≡ false
not_both e h = ground arith

is_loss : (e : Event) → same_event lost e ≡ true → same_event e lost ≡ true
is_loss e h = ground arith

taken :
    (bytes : Option (List ℕ)) (m : SessionControlRequest) (s : Supervisor) (attempt : Text)
    (child : Bool) (rs : List SessionReport)
    → Random bytes
    → Due attempt child rs
    → Inv (with_due s attempt child rs)
    → Held (take_report bytes m (with_due s attempt child rs))
unfolding take_report
taken bytes m s attempt child rs r (nothing _) v = v
taken bytes m s attempt child rs r readiness v =
    by_test Held
      (not (is_no_event m.event) && same attempt m.attempt && same_event Event.ready m.event) _ _
      (λ e.
        by_test Held (same_event m.event lost) _ _
          (λ l. absurd (let n = not_both m.event (ground arith) in cc))
          (λ _. ready_taken-Inv s attempt v))
      (λ _. v)
taken bytes m s attempt child rs r loss v =
    by_test Held (not (is_no_event m.event) && same attempt m.attempt && same_event lost m.event) _
      _
      (λ e.
        by_test Held (same_event m.event lost) _ _
          (λ _. renew-Inv bytes s attempt (report_of attempt lost ∷ []) r v)
          (λ l. absurd (let n = is_loss m.event (ground arith) in cc)))
      (λ _. v)
taken bytes m s attempt child rs r both v =
    by_test Held
      (not (is_no_event m.event) && same attempt m.attempt && same_event Event.ready m.event) _ _
      (λ e.
        by_test Held (same_event m.event lost) _ _
          (λ l. absurd (let n = not_both m.event (ground arith) in cc))
          (λ _. both_taken-Inv s attempt _ v))
      (λ _. v)

pub take_report-Inv :
    (nonce : Option (List ℕ)) (m : SessionControlRequest) (s : Supervisor)
    → Random nonce
    → Inv s
    → Held (take_report nonce m s)
take_report-Inv nonce m s r v = taken nonce m s s.attempt s.child s.reports r v.due v

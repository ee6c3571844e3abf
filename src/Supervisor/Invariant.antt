-- ===== src/Supervisor/Invariant.antt =====
-- The invariant of the helper of internal/mirror/session_supervisor.go, and its requests and losses.
pub mod Tokens
pub mod Openings
pub mod Reports
pub mod Replies
pub mod Steps
use terminal_redeemer.Base.{
  ℕ, zero, suc, ◌+◌, ◌-◌, ◌≤◌, ◌<◌, ◌≡◌, refl, sym, ap, subst, by_test, ◌∙◌, ◌≢◌, ◌⊎◌, inl, inr,
  Bool, true, false, not, ◌&&◌, ◌||◌, ◌==◌, List, [], ◌∷◌, ◌++◌, Option, none, some, Text, codes,
  same, arith, length, ltb, if◌then◌else◌, Bool-cases, Option-cases,
}
use terminal_redeemer.Zellij.Name.{safe_session_name}
use terminal_redeemer.Zellij.SessionId.{valid_session_id}
use terminal_redeemer.Recovery.Request.{
  Phase, Event, no_event, lost, SessionControlRequest, hex_token, valid_recovery_request,
}
use terminal_redeemer.Stream.Gate.{SessionInputGate, Opening, opened, not_opened, open_gate, close}
use terminal_redeemer.Stream.Gate.Rounds.{open_gate_unopened}
use terminal_redeemer.Stream.Gate.Origins.{open_gate-Opened}
use terminal_redeemer.Supervisor.{
  Identity, SessionReport, Supervisor, Acted, done, then_do, is_open, phase, request_of, send, lose,
  report, report_of, Surroundings, announce, opened_by, open_attachment, await_admission,
}

-- The reports that can be due, by whether there is a child.
pub data Due (attempt : Text) : Bool → List SessionReport → Type 0 where
  nothing : (child : Bool) → Due attempt child []
  readiness : Due attempt true (report_of attempt Event.ready ∷ [])
  loss : Due attempt false (report_of attempt lost ∷ [])
  both : Due attempt false (report_of attempt Event.ready ∷ report_of attempt lost ∷ [])

abbrev pub Asks : Option SessionControlRequest → Type 0
Asks none = Unit
Asks (some m) = valid_recovery_request m ≡ true

pub record Inv (s : Supervisor) : Type 0 where
  pub due : Due s.attempt s.child s.reports
  pub fresh : s.child ≡ true → is_open s ≡ false → s.stopping ≡ false → s.reports ≡ []
  pub granted : s.child ≡ true → s.grant.attempt ≡ s.attempt
  pub free : s.child ≡ false → s.reports ≡ [] → s.grant.attempt ≡ []
  pub attached : is_open s ≡ true → (s.child ≡ true) × (s.proved ≡ true) × (s.stopping ≡ false)
  pub slotted : s.slot ≡ true → (s.child ≡ true) × (is_open s ≡ false)
  pub token : hex_token s.attempt ≡ true
  pub asks : Asks s.in_flight

-- The names of a helper that the coordinator takes.
pub record Named (id : Identity) : Type 0 where
  pub client : hex_token id.client ≡ true
  pub token : hex_token id.token ≡ true
  pub session : safe_session_name id.session ≡ true
  pub session_id : valid_session_id id.session_id ≡ true

pub lose-Inv : (s : Supervisor) → Inv s → Inv (lose s).state
unfolding lose close
lose-Inv s v = record {
  due = v.due;
  fresh = λ _ _ e. absurd (cc);
  granted = v.granted;
  free = v.free;
  attached = λ e. absurd (cc);
  slotted = λ e. ((v.slotted e).0, refl);
  token = v.token;
  asks = v.asks;
}

sends : Identity → Text → Event → Supervisor → SessionControlRequest
sends id attempt event s = record {
  token = id.token;
  client = id.client;
  session = id.session;
  session_id = id.session_id;
  attempt = attempt;
  event = event;
  state = phase s;
  retry = s.retry;
}

plain_event : Event → Bool
plain_event no_event = true
plain_event Event.ready = true
plain_event lost = true
plain_event _ = false

sends_valid :
    (id : Identity) (attempt : Text) (event : Event) (s : Supervisor)
    → Named id
    → hex_token attempt ≡ true
    → plain_event event ≡ true
    → valid_recovery_request (sends id attempt event s) ≡ true
unfolding valid_recovery_request sends plain_event phase
sends_valid id attempt event s n h e = ground arith

-- The first report, if one is due, is about the attempt.
first-Due :
    (attempt : Text) (child : Bool) (rs : List SessionReport)
    → Due attempt child rs
    → (rs ≡ [])
      ⊎ ((event : Event) × (rest : List SessionReport) × (rs ≡ report_of attempt event ∷ rest)
          × (plain_event event ≡ true))
unfolding plain_event
first-Due attempt child rs (nothing _) = inl refl
first-Due attempt child rs readiness = inr (Event.ready, [], refl, refl)
first-Due attempt child rs loss = inr (lost, [], refl, refl)
first-Due attempt child rs both = inr (Event.ready, report_of attempt lost ∷ [], refl, refl)

request_of_plain :
    (id : Identity) (s : Supervisor)
    → s.reports ≡ []
    → request_of id s ≡ sends id s.attempt no_event s
unfolding request_of sends
request_of_plain id s e = rw (e, request_of) refl

request_of_report :
    (id : Identity) (s : Supervisor) (attempt : Text) (event : Event) (rest : List SessionReport)
    → s.reports ≡ report_of attempt event ∷ rest
    → request_of id s ≡ sends id attempt event s
unfolding request_of sends
request_of_report id s attempt event rest e = rw (e, request_of) refl

request_of_valid :
    (id : Identity) (s : Supervisor)
    → Named id
    → Inv s
    → valid_recovery_request (request_of id s) ≡ true
unfolding plain_event
request_of_valid id s n v = elim (first-Due s.attempt s.child s.reports v.due) [
  | inl e ↦
      ap valid_recovery_request (request_of_plain id s e)
      ∙ sends_valid id s.attempt no_event s n v.token refl
  | inr (event, rest, e, plain) ↦
      ap valid_recovery_request (request_of_report id s s.attempt event rest e)
      ∙ sends_valid id s.attempt event s n v.token plain
]

abbrev send_by : Identity → Supervisor → Option SessionControlRequest → Supervisor
send_by id s (some _) = s
send_by id s none = record s { in_flight = some (request_of id s); retry = false }

send_as : (id : Identity) (s : Supervisor) → send id s ≡ send_by id s s.in_flight
unfolding send
send_as id s =
    elim s.in_flight
      as (λ o.
        ◌≡◌ {A = Supervisor}
          (elim o [
            | some _ ↦ s
            | none ↦ record s { in_flight = some (request_of id s); retry = false }
          ])
          (send_by id s o)) [ some _ ↦ refl | none ↦ refl ]

send_by-Inv :
    (id : Identity) (s : Supervisor) (o : Option SessionControlRequest)
    → Named id
    → Inv s
    → Inv (send_by id s o)
send_by-Inv id s (some m) n v = v
send_by-Inv id s none n v = record {
  due = v.due;
  fresh = v.fresh;
  granted = v.granted;
  free = v.free;
  attached = v.attached;
  slotted = v.slotted;
  token = v.token;
  asks = request_of_valid id s n v;
}

pub send-Inv : (id : Identity) (s : Supervisor) → Named id → Inv s → Inv (send id s)
send-Inv id s n v = subst Inv (sym (send_as id s)) (send_by-Inv id s s.in_flight n v)

pub then_do-Inv :
    (a : Acted) (f : Supervisor → Acted)
    → Inv a.state
    → ((t : Supervisor) → Inv t → Inv (f t).state)
    → Inv (then_do a f).state
then_do-Inv a f v h = h a.state v

-- ===== src/Supervisor.antt =====
-- internal/mirror/session_supervisor.go: the helper that keeps one terminal across attachments, as a
-- machine that one event after the other moves. What it draws while it waits is left out.
pub mod Handling
pub mod Events
pub mod Invariant
pub mod Effects
pub mod Life
pub mod Manual
mod Samples
use terminal_redeemer.Base.{
  ℕ, suc, ◌+◌, ◌/◌, ◌%◌, Bool, true, false, not, ◌&&◌, ◌||◌, ◌==◌, List, [], ◌∷◌, ◌++◌, Option,
  none, some, Text, codes, same, ltb, if◌then◌else◌,
}
use terminal_redeemer.Recovery.Request.{
  Phase, offline, checking, connecting, Event, no_event, lost, SessionControlRequest, hex_token,
}
use terminal_redeemer.Recovery.Exchange.{SessionGrant, SessionControlReply}
use terminal_redeemer.Stream.Queries.{strip_pre_client_queries}
use terminal_redeemer.Stream.Gate.{
  SessionInput, SessionInputGate, Read, Opening, opened, not_opened, open_gate, close,
}

-- What stays the same for the life of the helper.
pub record Identity : Type 0 where
  pub token : Text
  pub client : Text
  pub session : Text
  pub session_id : Text

pub record SessionReport : Type 0 where
  pub attempt : Text
  pub event : Event

-- `in_flight` is the request of the call that `busy` stands for; `queue` is the channel of input.
pub record Supervisor : Type 0 where
  pub attempt : Text
  pub gate : SessionInputGate
  pub queue : List SessionInput
  pub in_flight : Option SessionControlRequest
  pub retry : Bool
  pub reports : List SessionReport
  pub child : Bool
  pub slot : Bool
  pub grant : SessionGrant
  pub proved : Bool
  pub stopping : Bool
  pub startup_output : Text
  pub last : SessionControlReply
  pub admission : Bool

-- What the helper does to its terminal and to its child.
pub data Effect : Type 0 where
  to_child to_screen : Text → Effect
  starts : Text → Effect
  stops : Effect

pub record Acted : Type 0 where
  pub state : Supervisor
  pub effects : List Effect

abbrev pub done : Supervisor → Acted
done s = record { state = s; effects = [] }

-- First one thing, then another on its state.
abbrev pub then_do : Acted → (Supervisor → Acted) → Acted
then_do a f = record { state = (f a.state).state; effects = a.effects ++ (f a.state).effects }

abbrev pub is_open : Supervisor → Bool
is_open s = not (s.gate.generation == 0)

unfoldable pub phase : Supervisor → Phase
phase s =
    if is_open s
    then Phase.ready
    else if s.child
    then connecting
    else if s.last.checking
    then checking
    else offline

unfoldable pub request_of : Identity → Supervisor → SessionControlRequest
unfolding phase
request_of id s = elim s.reports [
  | [] ↦ record {
    token = id.token;
    client = id.client;
    session = id.session;
    session_id = id.session_id;
    attempt = s.attempt;
    event = no_event;
    state = phase s;
    retry = s.retry;
  }
  | report ∷ _ ↦ record {
    token = id.token;
    client = id.client;
    session = id.session;
    session_id = id.session_id;
    attempt = report.attempt;
    event = report.event;
    state = phase s;
    retry = s.retry;
  }
]

unfoldable pub send : Identity → Supervisor → Supervisor
unfolding request_of
send id s = elim s.in_flight [
  | some _ ↦ s
  | none ↦ record s { in_flight = some (request_of id s); retry = false }
]

unfoldable pub lose : Supervisor → Acted
lose s = record {
  state = record s { gate = close s.gate; proved = false; stopping = true; startup_output = [] };
  effects = if s.child then stops ∷ [] else [];
}

abbrev pub report_of : Text → Event → SessionReport
report_of attempt event = record { attempt = attempt; event = event }

abbrev pub report : Supervisor → Event → SessionReport
report s event = report_of s.grant.attempt event

-- What the surroundings give to an attempt to open the gate.
pub record Surroundings : Type 0 where
  pub now : ℕ
  pub flush_at : ℕ
  pub reads : ℕ → Read
  pub screen_works : Bool

abbrev clear_screen : Text
clear_screen = 0x1b ∷ codes "[0m" ++ 0x1b ∷ codes "[2J" ++ 0x1b ∷ codes "[H"

-- The gate is open: the output so far goes to the screen, and readiness is reported.
unfoldable pub announce : Identity → Surroundings → Supervisor → Acted
unfolding send lose
announce id w s =
    let shown = to_screen (clear_screen ++ strip_pre_client_queries s.startup_output) in
    let s₁ = record s { startup_output = [] } in
    if w.screen_works
    then record {
      state =
          send id (record s₁ { slot = false; reports = s.reports ++ report s Event.ready ∷ [] });
      effects = shown ∷ [];
    }
    else then_do (record { state = s₁; effects = shown ∷ [] }) lose

unfoldable pub opened_by : Identity → Surroundings → Supervisor → Opening → Acted
unfolding announce lose
opened_by id w s Opening.failed = lose s
opened_by id w s not_opened = done s
opened_by id w s opened = announce id w s

unfoldable pub open_attachment : Identity → Surroundings → Supervisor → Acted
unfolding opened_by lose
open_attachment id w s =
    if not s.child || s.stopping || not s.proved || is_open s
    then done s
    else if not (ltb w.now s.grant.deadline)
    then lose s
    else let x = open_gate w.reads w.flush_at s.gate in opened_by id w (record s { gate = x.0 }) x.1

unfoldable pub await_admission : ℕ → Supervisor → Supervisor
await_admission now s = record s {
  admission =
      not s.child
      && not (is_open s)
      && not s.last.ended
      && (s.last.checking || (not (s.last.retry_at == 0) && not (ltb now s.last.retry_at)));
}

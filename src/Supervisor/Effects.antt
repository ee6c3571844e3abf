-- ===== src/Supervisor/Effects.antt =====
-- What the helper of internal/mirror/session_supervisor.go does to its child, and why.
pub mod Quiet
pub mod Input
pub mod Answers
pub mod Reasons
use terminal_redeemer.Base.{
  ℕ, zero, suc, ◌+◌, ◌≤◌, ◌<◌, ◌≡◌, refl, sym, ap, subst, by_test, ◌∙◌, ◌≢◌, ◌⊎◌, inl, inr, Bool,
  true, false, not, ◌&&◌, ◌||◌, ◌==◌, List, [], ◌∷◌, ◌++◌, Option, none, some, Text, codes, same,
  arith, All, length, ltb, if◌then◌else◌, Bool-cases, Option-cases,
}
use mathlib.Core.Path.{ap₂}
use terminal_redeemer.Recovery.Request.{Event, lost, no_event, SessionControlRequest, hex_token}
use terminal_redeemer.Recovery.Exchange.{SessionGrant, SessionControlReply}
use terminal_redeemer.Stream.Gate.{
  SessionInput, SessionInputGate, Opening, opened, not_opened, open_gate,
}
use terminal_redeemer.Supervisor.{
  Identity, SessionReport, Supervisor, Effect, to_child, to_screen, starts, stops, Acted, done,
  then_do, is_open, send, lose, report, report_of, Surroundings, announce, opened_by,
  open_attachment,
}
use terminal_redeemer.Supervisor.Handling.{
  Chances, slot_works, is_acquired, Outcome, exits, goes, after, and_then, is_no_event, same_event,
  renew, is_empty, take_report, cancel, give_up, reset, is_acceptable, start_child, accept,
  accept_any, take_reply, handle_reply,
}
use terminal_redeemer.Supervisor.Events.{
  SessionInputOrigin, LocalCall, Happening, reader_reads, reader_waits, local, input_taken,
  input_closed, output, child_done, replied, admitted, ticked, cancelled, write_child, write_screen,
  is_origin, on_local, on_input, take_input, on_data, on_events, on_output, on_done, on_tick,
  supervise, max_attachment_frame, contains_enter,
}

abbrev pub effects_of : Outcome → List Effect
effects_of (exits es) = es
effects_of (goes a) = a.effects

-- Why bytes are written to the child: they are the next item of input, or a caller's, and in either
-- case of the attachment that is open.
pub data Written (id : Identity) (s : Supervisor) : Happening → Text → Type 0 where
  from_item :
      (item : SessionInput) (rest : List SessionInput) (works : Bool) (w : Surroundings)
      → s.queue ≡ item ∷ rest
      → s.child ≡ true
      → is_open s ≡ true
      → item.generation ≡ s.gate.generation
      → Written id s (input_taken works w) item.bytes
  from_caller :
      (call : LocalCall) (works : Bool) (o : SessionInputOrigin)
      → call.origin ≡ some o
      → call.expired ≡ false
      → s.child ≡ true
      → is_open s ≡ true
      → o.client ≡ id.client
      → o.attempt ≡ s.grant.attempt
      → o.generation ≡ s.gate.generation
      → Written id s (local call works) call.input

-- Why a child is started: there is none, and the answer to a plain request grants the own attempt,
-- in time.
pub data Started (s : Supervisor) : Happening → Text → Type 0 where
  by_grant :
      (m : SessionControlRequest) (reply : SessionControlReply) (g : SessionGrant) (c : Chances)
      → s.in_flight ≡ some m
      → m.event ≡ no_event
      → reply.grant ≡ some g
      → reply.ended ≡ false
      → reply.reset ≡ false
      → s.child ≡ false
      → g.attempt ≡ s.attempt
      → c.now < g.deadline
      → Started s (replied (some reply) c) g.attempt

abbrev pub Justified : Identity → Supervisor → Happening → Effect → Type 0
Justified id s h (to_child bytes) = Written id s h bytes
Justified id s h (starts attempt) = Started s h attempt
Justified id s h _ = Unit

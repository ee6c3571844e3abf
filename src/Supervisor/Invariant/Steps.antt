-- ===== src/Supervisor/Invariant/Steps.antt =====
-- The invariant under each event of the loop of internal/mirror/session_supervisor.go.
use terminal_redeemer.Base.{
  ℕ, ◌+◌, ◌≡◌, refl, sym, subst, by_test, Bool, true, false, not, ◌&&◌, ◌||◌, ◌==◌, List, [], ◌∷◌,
  ◌++◌, Option, none, some, Text, codes, same, length, ltb, if◌then◌else◌,
}
use terminal_redeemer.Recovery.Request.{Event, lost, SessionControlRequest}
use terminal_redeemer.Recovery.Exchange.{SessionControlReply}
use terminal_redeemer.Stream.Gate.{SessionInput, close}
use terminal_redeemer.Stream.Gate.Rounds.{decode_generation, flush_prefix_generation}
use terminal_redeemer.Supervisor.{
  Identity, SessionReport, Supervisor, Acted, done, then_do, is_open, report, report_of,
  Surroundings, open_attachment,
}
use terminal_redeemer.Supervisor.Handling.{Chances, Outcome, goes, handle_reply}
use terminal_redeemer.Supervisor.Events.{
  SessionInputOrigin, LocalCall, Happening, reader_reads, reader_waits, local, input_taken,
  input_closed, output, child_done, replied, admitted, ticked, cancelled, write_child, write_screen,
  is_origin, on_local, on_input, take_input, on_data, on_events, on_output, on_done, on_tick,
  supervise, max_attachment_frame, contains_enter,
}
use terminal_redeemer.Supervisor.Invariant.{
  Inv, Due, nothing, readiness, loss, both, Named, lose-Inv, send-Inv,
}
use terminal_redeemer.Supervisor.Invariant.Openings.{open_attachment-Inv, same_gate-Inv}
use terminal_redeemer.Supervisor.Invariant.Tokens.{Random}
use terminal_redeemer.Supervisor.Invariant.Replies.{Goes, handle_reply-Inv}

-- What the state of the supervisor has, but for the fields that no clause of the invariant reads.
queued-Inv : {s : Supervisor} {q : List SessionInput} → Inv s → Inv (record s { queue = q })
queued-Inv v = record {
  due = v.due;
  fresh = v.fresh;
  granted = v.granted;
  free = v.free;
  attached = v.attached;
  slotted = v.slotted;
  token = v.token;
  asks = v.asks;
}

kept-Inv :
    {s : Supervisor} {startup : Text} {b r : Bool}
    → Inv s
    → Inv (record s { startup_output = startup; admission = b; retry = r })
kept-Inv v = record {
  due = v.due;
  fresh = v.fresh;
  granted = v.granted;
  free = v.free;
  attached = v.attached;
  slotted = v.slotted;
  token = v.token;
  asks = v.asks;
}

write_child-Inv :
    (works : Bool) (bytes : Text) (s : Supervisor) → Inv s → Inv (write_child works bytes s).state
unfolding write_child
write_child-Inv works bytes s v =
    by_test (λ (a : Acted). Inv a.state) works _ _ (λ _. v) (λ _. lose-Inv s v)

write_screen-Inv :
    (works : Bool) (bytes : Text) (s : Supervisor) → Inv s → Inv (write_screen works bytes s).state
unfolding write_screen
write_screen-Inv works bytes s v =
    by_test (λ (a : Acted). Inv a.state) works _ _ (λ _. v) (λ _. lose-Inv s v)

on_local-Inv :
    (id : Identity) (call : LocalCall) (works : Bool) (s : Supervisor)
    → Inv s
    → Inv (on_local id call works s).state
unfolding on_local
on_local-Inv id call works s v = by_origin call.origin
  where
    by_origin :
        (o : Option SessionInputOrigin)
        → Inv (
            (elim o as (λ _. Acted) [
              | none ↦ done s
              | some o ↦
                  if call.expired || not (is_origin id o s)
                  then done s
                  else write_child works call.input s
            ]).state)
    by_origin none = v
    by_origin (some o) =
        by_test (λ (a : Acted). Inv a.state) (call.expired || not (is_origin id o s)) _ _ (λ _. v)
          (λ _. write_child-Inv works call.input s v)

on_input-Inv :
    (id : Identity) (works : Bool) (item : SessionInput) (s : Supervisor)
    → Named id
    → Inv s
    → Inv (on_input id works item s).state
unfolding on_input
on_input-Inv id works item s n v =
    by_test (λ (a : Acted). Inv a.state)
      (s.child && is_open s && item.generation == s.gate.generation) _ _
      (λ _. write_child-Inv works item.bytes s v)
      (λ _.
        by_test (λ (a : Acted). Inv a.state)
          (not (is_open s) && item.generation == 0 && not item.paste && contains_enter item.bytes) _
          _ (λ _. send-Inv id _ n (kept-Inv v)) (λ _. v))

take_input-Inv :
    (id : Identity) (works : Bool) (w : Surroundings) (s : Supervisor)
    → Named id
    → Inv s
    → Inv (take_input id works w s).state
unfolding take_input
take_input-Inv id works w s n v = by_queue s.queue
  where
    by_queue :
        (q : List SessionInput)
        → Inv (
            (elim q as (λ _. Acted) [
              | [] ↦ done s
              | item ∷ rest ↦
                  then_do
                    (on_input id works item (record s { queue = rest }))
                    (open_attachment id w)
            ]).state)
    by_queue [] = v
    by_queue (item ∷ rest) =
        open_attachment-Inv id w (on_input id works item (record s { queue = rest })).state n
          (on_input-Inv id works item _ n (queued-Inv v))

on_data-Inv :
    (works : Bool) (bytes : Text) (s : Supervisor) → Inv s → Inv (on_data works bytes s).state
unfolding on_data
on_data-Inv works bytes s v =
    by_test (λ (a : Acted). Inv a.state) (is_open s) _ _ (λ _. write_screen-Inv works bytes s v)
      (λ _.
        by_test (λ (a : Acted). Inv a.state) s.stopping _ _ (λ _. v)
          (λ _.
            by_test (λ (a : Acted). Inv a.state)
              (ltb max_attachment_frame (length s.startup_output + length bytes)) _ _
              (λ _. lose-Inv s v) (λ _. kept-Inv v)))

proved-Inv : (s : Supervisor) → Inv s → Inv (record s { proved = true })
proved-Inv s v = record {
  due = v.due;
  fresh = v.fresh;
  granted = v.granted;
  free = v.free;
  attached = λ e. ((v.attached e).0, refl, (v.attached e).2);
  slotted = v.slotted;
  token = v.token;
  asks = v.asks;
}

on_events-Inv : (es : List Text) (s : Supervisor) → Inv s → Inv (on_events es s).state
unfolding on_events
on_events-Inv [] s v = v
on_events-Inv (e ∷ es) s v = on_events-Inv es _ (
    by_test (λ (a : Acted). Inv a.state) (same e (codes "ready") && not s.stopping) _ _
      (λ _. proved-Inv s v) (λ _. lose-Inv s v))

on_output-Inv :
    (id : Identity) (bytes : Text) (events : List Text) (works : Bool) (w : Surroundings)
    (s : Supervisor)
    → Named id
    → Inv s
    → Inv (on_output id bytes events works w s).state
unfolding on_output
on_output-Inv id bytes events works w s n v =
    open_attachment-Inv id w _ n (on_events-Inv events _ (on_data-Inv works bytes s v))

lost-Due :
    (attempt : Text) (child : Bool) (rs : List SessionReport) (granted : Text)
    → child ≡ true
    → granted ≡ attempt
    → Due attempt child rs
    → Due attempt false (rs ++ report_of granted lost ∷ [])
lost-Due attempt child rs granted c g (nothing _) =
    subst (λ a. Due attempt false (report_of a lost ∷ [])) (sym g) loss
lost-Due attempt child rs granted c g readiness =
    subst (λ a. Due attempt false (report_of attempt Event.ready ∷ report_of a lost ∷ [])) (sym g)
      both
lost-Due attempt child rs granted c g loss = absurd (cc)
lost-Due attempt child rs granted c g both = absurd (cc)

gone-Inv :
    (s : Supervisor)
    → s.child ≡ true
    → Inv s
    → Inv (record s {
      gate = close s.gate;
      slot = false;
      child = false;
      proved = false;
      startup_output = [];
      reports = s.reports ++ report s lost ∷ [];
    })
unfolding close
gone-Inv s c v = record {
  due = lost-Due s.attempt s.child s.reports s.grant.attempt c (v.granted c) v.due;
  fresh = λ e. absurd (cc);
  granted = λ e. absurd (cc);
  free = λ _ e. absurd (some_left s.reports _ e);
  attached = λ e. absurd (cc);
  slotted = λ e. absurd (cc);
  token = v.token;
  asks = v.asks;
}
  where
    some_left : (rs : List SessionReport) (r : SessionReport) → rs ++ r ∷ [] ≡ [] → ⊥
    some_left [] r e = cc
    some_left (x ∷ rs) r e = cc

on_done-Inv :
    (id : Identity) (outcome : Text) (s : Supervisor)
    → Named id
    → s.child ≡ true
    → Inv s
    → Goes Inv (on_done id outcome s)
unfolding on_done
on_done-Inv id outcome s n c v =
    by_test (Goes Inv) (same outcome (codes "detached")) _ _ (λ _. tt)
      (λ _. send-Inv id _ n (gone-Inv s c v))

on_tick-Inv :
    (id : Identity) (now : ℕ) (w : Surroundings) (s : Supervisor)
    → Named id
    → Inv s
    → Inv (on_tick id now w s).state
unfolding on_tick
on_tick-Inv id now w s n v = send-Inv id _ n (
    open_attachment-Inv id w _ n (
      by_test (λ (a : Acted). Inv a.state)
        (s.child && not (is_open s) && not (ltb now s.grant.deadline)) _ _ (λ _. lose-Inv s v)
        (λ _. v)))

-- The random bytes of an event are sixteen.
abbrev pub Fair : Happening → Type 0
Fair (replied reply c) = Random c.nonce
Fair _ = Unit

replied-Inv :
    (id : Identity) (reply : Option SessionControlReply) (c : Chances) (s : Supervisor)
    (o : Option SessionControlRequest)
    → Named id
    → Random c.nonce
    → Inv s
    → Goes Inv
        (elim o as (λ _. Outcome) [ none ↦ goes (done s) | some m ↦ handle_reply id c m reply s ])
replied-Inv id reply c s none n r v = v
replied-Inv id reply c s (some m) n r v = handle_reply-Inv id c m reply s n r v

pub supervise-Inv :
    (id : Identity) (s : Supervisor) (h : Happening)
    → Named id
    → Fair h
    → Inv s
    → Goes Inv (supervise id s h)
unfolding supervise
supervise-Inv id s (reader_reads bs) n f v =
    queued-Inv (same_gate-Inv s _ (decode_generation s.gate bs) v)
supervise-Inv id s (reader_waits now) n f v =
    queued-Inv (same_gate-Inv s _ (flush_prefix_generation now s.gate) v)
supervise-Inv id s (local call works) n f v = on_local-Inv id call works s v
supervise-Inv id s (input_taken works w) n f v = take_input-Inv id works w s n v
supervise-Inv id s input_closed n f v = tt
supervise-Inv id s (output bytes events works w) n f v =
    by_test (Goes Inv) s.child _ _ (λ _. on_output-Inv id bytes events works w s n v) (λ _. v)
supervise-Inv id s (child_done outcome) n f v =
    by_test (Goes Inv) s.child _ _ (λ c. on_done-Inv id outcome s n c v) (λ _. v)
supervise-Inv id s (replied reply c) n f v = replied-Inv id reply c s s.in_flight n f v
supervise-Inv id s admitted n f v =
    by_test (Goes Inv) s.admission _ _ (λ _. send-Inv id _ n (kept-Inv v)) (λ _. v)
supervise-Inv id s (ticked now w) n f v = on_tick-Inv id now w s n v
supervise-Inv id s cancelled n f v = tt

-- ===== src/Supervisor/Events.antt =====
-- internal/mirror/session_supervisor.go: the events of the helper's loop.
use terminal_redeemer.Base.{
  hex_encode, ℕ, ◌+◌, ◌*◌, ◌^◌, Bool, true, false, not, ◌&&◌, ◌||◌, ◌==◌, List, [], ◌∷◌, ◌++◌,
  Option, none, some, Text, codes, same, any, length, ltb, if◌then◌else◌,
}
use terminal_redeemer.Recovery.State.{waiting_for_host}
use terminal_redeemer.Recovery.Request.{lost}
use terminal_redeemer.Recovery.Exchange.{SessionControlReply}
use terminal_redeemer.Stream.Gate.{SessionInput, decode, flush_prefix, close}
use terminal_redeemer.Supervisor.{
  Identity, Supervisor, to_child, to_screen, stops, Acted, done, then_do, is_open, send, lose,
  report, Surroundings, open_attachment,
}
use terminal_redeemer.Supervisor.Handling.{Chances, no_grant, Outcome, exits, goes, handle_reply}

pub record SessionInputOrigin : Type 0 where
  pub client : Text
  pub attempt : Text
  pub generation : ℕ

-- A request of another process of this machine for the helper's state, or to write for an origin.
pub record LocalCall : Type 0 where
  pub expired : Bool
  pub origin : Option SessionInputOrigin
  pub input : Text

pub data Happening : Type 0 where
  reader_reads : List (ℕ × ℕ) → Happening
  reader_waits : ℕ → Happening
  local : LocalCall → Bool → Happening
  input_taken : Bool → Surroundings → Happening
  input_closed : Happening
  output : Text → List Text → Bool → Surroundings → Happening
  child_done : Text → Happening
  replied : Option SessionControlReply → Chances → Happening
  admitted : Happening
  ticked : ℕ → Surroundings → Happening
  cancelled : Happening

-- A write to the child; where it fails the attachment is lost.
unfoldable pub write_child : Bool → Text → Supervisor → Acted
unfolding lose
write_child works bytes s =
    if works
    then record { state = s; effects = to_child bytes ∷ [] }
    else then_do (record { state = s; effects = to_child bytes ∷ [] }) lose

unfoldable pub write_screen : Bool → Text → Supervisor → Acted
unfolding lose
write_screen works bytes s =
    if works
    then record { state = s; effects = to_screen bytes ∷ [] }
    else then_do (record { state = s; effects = to_screen bytes ∷ [] }) lose

-- The caller's origin is the state's own, of an attachment that is ready.
unfoldable pub is_origin : Identity → SessionInputOrigin → Supervisor → Bool
is_origin id o s =
    s.child
    && is_open s
    && same o.client id.client
    && same o.attempt s.grant.attempt
    && o.generation == s.gate.generation

unfoldable pub on_local : Identity → LocalCall → Bool → Supervisor → Acted
unfolding is_origin write_child
on_local id call works s = elim call.origin [
  | none ↦ done s
  | some o ↦
      if call.expired || not (is_origin id o s) then done s else write_child works call.input s
]

abbrev pub contains_enter : Text → Bool
contains_enter = any (λ b. b == 13 || b == 10)

unfoldable pub on_input : Identity → Bool → SessionInput → Supervisor → Acted
unfolding write_child send
on_input id works item s =
    if s.child && is_open s && item.generation == s.gate.generation
    then write_child works item.bytes s
    else if not (is_open s) && item.generation == 0 && not item.paste && contains_enter item.bytes
    then done (send id (record s { retry = true }))
    else done s

unfoldable pub take_input : Identity → Bool → Surroundings → Supervisor → Acted
unfolding on_input open_attachment
take_input id works w s = elim s.queue [
  | [] ↦ done s
  | item ∷ rest ↦
      then_do (on_input id works item (record s { queue = rest })) (open_attachment id w)
]

abbrev pub max_attachment_frame : ℕ
max_attachment_frame = 4 * 2 ^ 20

-- Before readiness the output is kept, up to a limit.
unfoldable pub on_data : Bool → Text → Supervisor → Acted
unfolding write_screen lose
on_data works bytes s =
    if is_open s
    then write_screen works bytes s
    else if s.stopping
    then done s
    else if ltb max_attachment_frame (length s.startup_output + length bytes)
    then lose s
    else done (record s { startup_output = s.startup_output ++ bytes })

unfoldable pub on_events : List Text → Supervisor → Acted
unfolding lose
on_events [] s = done s
on_events (e ∷ es) s =
    let a =
      if same e (codes "ready") && not s.stopping
      then done (record s { proved = true })
      else lose s in
    then_do a (on_events es)

unfoldable pub on_output : Identity → Text → List Text → Bool → Surroundings → Supervisor → Acted
unfolding on_data on_events open_attachment
on_output id bytes events works w s =
    then_do (then_do (on_data works bytes s) (on_events events)) (open_attachment id w)

-- The child is gone: a detachment ends the helper, anything else is reported.
unfoldable pub on_done : Identity → Text → Supervisor → Outcome
unfolding send
on_done id outcome s =
    if same outcome (codes "detached")
    then exits (stops ∷ [])
    else goes (record {
      state = send id (record s {
        gate = close s.gate;
        slot = false;
        child = false;
        proved = false;
        startup_output = [];
        reports = s.reports ++ report s lost ∷ [];
      });
      effects = stops ∷ [];
    })

unfoldable pub on_tick : Identity → ℕ → Surroundings → Supervisor → Acted
unfolding lose open_attachment send
on_tick id now w s =
    let a =
      if s.child && not (is_open s) && not (ltb now s.grant.deadline) then lose s else done s in
    then_do (then_do a (open_attachment id w)) (λ t. done (send id t))

unfoldable pub supervise : Identity → Supervisor → Happening → Outcome
unfolding on_local take_input on_output on_done handle_reply on_tick open_attachment send
supervise id s (reader_reads bs) =
    let d = decode s.gate bs in goes (done (record s { gate = d.gate; queue = s.queue ++ d.items }))
supervise id s (reader_waits now) =
    let d = flush_prefix now s.gate in goes (done (record s { gate = d.0; queue = s.queue ++ d.1 }))
supervise id s (local call works) = goes (on_local id call works s)
supervise id s (input_taken works w) = goes (take_input id works w s)
supervise id s input_closed = exits []
supervise id s (output bytes events works w) =
    if s.child then goes (on_output id bytes events works w s) else goes (done s)
supervise id s (child_done outcome) = if s.child then on_done id outcome s else goes (done s)
supervise id s (replied reply c) = elim s.in_flight [
  | none ↦ goes (done s)
  | some m ↦ handle_reply id c m reply s
]
supervise id s admitted =
    if s.admission then goes (done (send id (record s { admission = false }))) else goes (done s)
supervise id s (ticked now w) = goes (on_tick id now w s)
supervise id s cancelled = exits []

-- The helper before its first request. A reason is only drawn, and `waiting_for_host` stands for the
-- text of the start.
unfoldable pub fresh_supervisor : List ℕ → Supervisor
unfolding hex_encode
fresh_supervisor nonce = record {
  attempt = hex_encode nonce;
  gate = record {
    generation = 0;
    next = 0;
    paste = false;
    paste_generation = 0;
    prefix = [];
    prefix_generation = 0;
    prefix_at = 0;
  };
  queue = [];
  in_flight = none;
  retry = false;
  reports = [];
  child = false;
  slot = false;
  grant = no_grant;
  proved = false;
  stopping = false;
  startup_output = [];
  last = record {
    checking = false;
    reason = waiting_for_host;
    retry_at = 0;
    grant = none;
    ended = false;
    reset = false;
    cancel_attempt = [];
  };
  admission = false;
}

-- The helper as it starts its loop; the first attempt is random.
unfoldable pub new_supervisor : Identity → List ℕ → Supervisor
unfolding send fresh_supervisor
new_supervisor id nonce = send id (fresh_supervisor nonce)

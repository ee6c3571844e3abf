-- ===== src/Supervisor/Handling.antt =====
-- internal/mirror/session_supervisor.go: what the helper does with the answer to its request.
use terminal_redeemer.Base.{
  hex_encode, ℕ, Bool, true, false, not, ◌&&◌, ◌||◌, List, [], ◌∷◌, ◌++◌, Option, none, some, same,
  ltb, if◌then◌else◌,
}
use terminal_redeemer.Recovery.Request.{Event, no_event, lost, SessionControlRequest, hex_token}
use terminal_redeemer.Recovery.Exchange.{SessionGrant, SessionControlReply}
use terminal_redeemer.Supervisor.{
  Identity, Supervisor, Effect, starts, Acted, done, then_do, is_open, send, lose, await_admission,
  report_of,
}

-- Whether one of the slots for pending attachments is to be had; some kinds of control have none.
pub data Slot : Type 0 where
  no_slots acquired refused : Slot

-- What the surroundings give to the handling of an answer: 16 random bytes, the time, and whether the
-- attachment can be planned, admitted and started.
pub record Chances : Type 0 where
  pub nonce : Option (List ℕ)
  pub now : ℕ
  pub can_plan : Bool
  pub slot : Slot
  pub can_start : Bool

-- The helper goes on, or ends.
pub data Outcome : Type 0 where
  exits : List Effect → Outcome
  goes : Acted → Outcome

abbrev pub after : List Effect → Outcome → Outcome
after es (exits fs) = exits (es ++ fs)
after es (goes a) = goes (record a { effects = es ++ a.effects })

abbrev pub and_then : Acted → (Supervisor → Outcome) → Outcome
and_then a f = after a.effects (f a.state)

abbrev pub no_grant : SessionGrant
no_grant = record { attempt = []; deadline = 0 }

abbrev pub same_event : Event → Event → Bool
same_event no_event no_event = true
same_event Event.ready Event.ready = true
same_event lost lost = true
same_event _ _ = false

abbrev pub is_no_event : Event → Bool
is_no_event no_event = true
is_no_event _ = false

abbrev pub is_empty {ℓ} : {A : Type ℓ} → List A → Bool
is_empty [] = true
is_empty (_ ∷ _) = false

-- A lost attempt that was reported is over, and the next one is fresh.
unfoldable pub renew : Option (List ℕ) → Supervisor → Option Supervisor
unfolding hex_encode
renew none s = none
renew (some nonce) s = some (record s { grant = no_grant; attempt = hex_encode nonce })

-- The report that the request carried is delivered.
unfoldable pub take_report :
    Option (List ℕ) → SessionControlRequest → Supervisor → Option Supervisor
unfolding renew
take_report nonce m s = elim s.reports [
  | [] ↦ some s
  | r ∷ rest ↦
      if not (is_no_event m.event) && same r.attempt m.attempt && same_event r.event m.event
      then (if same_event m.event lost
          then renew nonce (record s { reports = rest })
          else some (record s { reports = rest }))
      else some s
]

unfoldable pub cancel : Supervisor → Acted
unfolding lose
cancel s = if s.child && same s.last.cancel_attempt s.grant.attempt then lose s else done s

-- A pending grant is void; an attempt that the coordinator still holds is given back.
unfoldable pub give_up : Supervisor → Supervisor
give_up s =
    if is_empty s.reports
    then record s {
      grant = no_grant;
      reports = if same s.last.cancel_attempt s.attempt then report_of s.attempt lost ∷ [] else [];
    }
    else s

unfoldable pub reset : Supervisor → Acted
unfolding lose give_up
reset s =
    if s.last.reset && not (is_open s)
    then (if s.child then lose s else done (give_up s))
    else done s

-- The conditions on a grant, but for its deadline.
unfoldable pub is_acceptable : SessionControlRequest → SessionGrant → Supervisor → Bool
is_acceptable m g s =
    not s.last.reset
    && is_no_event m.event
    && not s.child
    && is_empty s.reports
    && same s.grant.attempt []
    && same g.attempt s.attempt
    && hex_token g.attempt

abbrev pub slot_works : Slot → Bool
slot_works refused = false
slot_works _ = true

abbrev pub is_acquired : Slot → Bool
is_acquired acquired = true
is_acquired _ = false

unfoldable pub start_child : Chances → SessionGrant → Supervisor → Acted
start_child c g s =
    let s₁ = record s { grant = g; startup_output = []; stopping = false; proved = false } in
    if slot_works c.slot && c.can_start
    then record {
      state = record s₁ { child = true; slot = is_acquired c.slot };
      effects = starts g.attempt ∷ [];
    }
    else done (record s₁ { slot = false; reports = s.reports ++ report_of g.attempt lost ∷ [] })

-- The end of the handling; the request for what is due goes out.
unfoldable pub finish_reply : Identity → ℕ → Supervisor → Supervisor
unfolding send await_admission
finish_reply id now s =
    await_admission now (if not (is_empty s.reports) || s.retry then send id s else s)

unfoldable pub accept :
    Identity → Chances → SessionControlRequest → SessionGrant → Supervisor → Outcome
unfolding is_acceptable start_child finish_reply send
accept id c m g s =
    if not (is_acceptable m g s)
    then goes (done (finish_reply id c.now s))
    else if not (ltb c.now g.deadline)
    then goes (done (send id (record s { reports = report_of g.attempt lost ∷ [] })))
    else if not c.can_plan
    then exits []
    else let a = start_child c g s in goes (record a { state = finish_reply id c.now a.state })

unfoldable pub accept_any :
    Identity → Chances → SessionControlRequest → Option SessionGrant → Supervisor → Outcome
unfolding accept finish_reply
accept_any id c m none s = goes (done (finish_reply id c.now s))
accept_any id c m (some g) s = accept id c m g s

unfoldable pub take_reply :
    Identity → Chances → SessionControlRequest → SessionControlReply → Supervisor → Outcome
unfolding cancel reset accept_any
take_reply id c m reply s =
    let s₁ = record s { last = reply } in
    if reply.ended
    then exits []
    else and_then (then_do (cancel s₁) reset) (accept_any id c m reply.grant)

unfoldable pub handle_reply :
    Identity → Chances → SessionControlRequest → Option SessionControlReply → Supervisor → Outcome
unfolding take_report take_reply
handle_reply id c m none s = goes (done (record s { in_flight = none; retry = s.retry || m.retry }))
handle_reply id c m (some reply) s = elim (take_report c.nonce m (record s { in_flight = none })) [
  | none ↦ exits []
  | some s₁ ↦ take_reply id c m reply s₁
]

-- ===== src/Supervisor/Invariant/Replies.antt =====
-- The invariant of the helper of internal/mirror/session_supervisor.go under the answer of the
-- coordinator.
use terminal_redeemer.Base.{
  ℕ, ◌≡◌, refl, sym, subst, by_test, inl, inr, Bool, true, false, not, ◌&&◌, ◌||◌, List, [], ◌∷◌,
  ◌++◌, Option, none, some, Text, same, arith, ltb, if◌then◌else◌, Bool-cases,
}
use terminal_redeemer.Recovery.Request.{lost, SessionControlRequest}
use terminal_redeemer.Recovery.Exchange.{SessionGrant, SessionControlReply}
use terminal_redeemer.Supervisor.{
  Identity, SessionReport, Supervisor, Acted, then_do, is_open, report_of, await_admission,
}
use terminal_redeemer.Supervisor.Handling.{
  slot_works, Chances, Outcome, exits, goes, after, and_then, is_empty, take_report, cancel,
  give_up, reset, is_acceptable, start_child, finish_reply, accept, accept_any, take_reply,
  handle_reply,
}
use terminal_redeemer.Supervisor.Invariant.Tokens.{Random}
use terminal_redeemer.Supervisor.Invariant.{Inv, Due, nothing, loss, Named, lose-Inv, send-Inv}
use terminal_redeemer.Supervisor.Invariant.Reports.{Held, take_report-Inv}

-- A helper that goes on has the property.
abbrev pub Goes : (Supervisor → Type 0) → Outcome → Type 0
Goes P (exits es) = Unit
Goes P (goes a) = P a.state

pub and_then-Goes :
    (P : Supervisor → Type 0) (a : Acted) (f : Supervisor → Outcome)
    → Goes P (f a.state)
    → Goes P (and_then a f)
and_then-Goes P a f h = by_outcome (f a.state) h
  where
    by_outcome : (o : Outcome) → Goes P o → Goes P (after a.effects o)
    by_outcome (exits es) h = h
    by_outcome (goes b) h = h

cancel-Inv : (s : Supervisor) → Inv s → Inv (cancel s).state
unfolding cancel
cancel-Inv s v =
    by_test (λ (a : Acted). Inv a.state) (s.child && same s.last.cancel_attempt s.grant.attempt) _ _
      (λ _. lose-Inv s v) (λ _. v)

given_up :
    (attempt : Text) (child : Bool) (b : Bool)
    → child ≡ false
    → Due attempt child (if b then report_of attempt lost ∷ [] else [])
given_up attempt true b c = absurd (cc)
given_up attempt false true c = loss
given_up attempt false false c = nothing false

give_up-Inv : (s : Supervisor) → s.child ≡ false → Inv s → Inv (give_up s)
unfolding give_up
give_up-Inv s c v =
    by_test Inv (is_empty s.reports) _ _
      (λ _. record {
        due = given_up s.attempt s.child (same s.last.cancel_attempt s.attempt) c;
        fresh = λ e. absurd (cc);
        granted = λ e. absurd (cc);
        free = λ _ _. refl;
        attached = v.attached;
        slotted = v.slotted;
        token = v.token;
        asks = v.asks;
      })
      (λ _. v)

reset-Inv : (s : Supervisor) → Inv s → Inv (reset s).state
unfolding reset
reset-Inv s v =
    by_test (λ (a : Acted). Inv a.state) (s.last.reset && not (is_open s)) _ _
      (λ _.
        by_test (λ (a : Acted). Inv a.state) s.child _ _ (λ _. lose-Inv s v)
          (λ c. give_up-Inv s c v))
      (λ _. v)

pub finish_reply-Inv :
    (id : Identity) (now : ℕ) (s : Supervisor) → Named id → Inv s → Inv (finish_reply id now s)
unfolding finish_reply await_admission
finish_reply-Inv id now s n v =
    admission_later
      (by_test Inv (not (is_empty s.reports) || s.retry) _ _ (λ _. send-Inv id s n v) (λ _. v))
  where
    admission_later : {t : Supervisor} {b : Bool} → Inv t → Inv (record t { admission = b })
    admission_later w = record {
      due = w.due;
      fresh = w.fresh;
      granted = w.granted;
      free = w.free;
      attached = w.attached;
      slotted = w.slotted;
      token = w.token;
      asks = w.asks;
    }

-- What an acceptable grant meets.
record Acceptable (g : SessionGrant) (s : Supervisor) : Type 0 where
  no_child : s.child ≡ false
  no_reports : s.reports ≡ []
  own : g.attempt ≡ s.attempt

is_acceptable-Acceptable :
    (m : SessionControlRequest) (g : SessionGrant) (s : Supervisor)
    → is_acceptable m g s ≡ true
    → Acceptable g s
unfolding is_acceptable
is_acceptable-Acceptable m g s h = record {
  no_child = ground arith;
  no_reports = none_left s.reports (ground arith);
  own = ground arith;
}
  where
    none_left : (rs : List SessionReport) → is_empty rs ≡ true → rs ≡ []
    none_left [] e = refl
    none_left (r ∷ rs) e = cc

loss-Due :
    (attempt : Text) (child : Bool) (rs : List SessionReport) (granted : Text)
    → child ≡ false
    → rs ≡ []
    → granted ≡ attempt
    → Due attempt child (rs ++ report_of granted lost ∷ [])
loss-Due attempt false rs granted c e g =
    subst (λ r. Due attempt false (r ++ report_of granted lost ∷ [])) (sym e)
      (subst (λ a. Due attempt false (report_of a lost ∷ [])) (sym g) loss)
loss-Due attempt true rs granted c e g = absurd (cc)

expired-Inv :
    (g : SessionGrant) (s : Supervisor)
    → Acceptable g s
    → Inv s
    → Inv (record s { reports = report_of g.attempt lost ∷ [] })
expired-Inv g s a v = record {
  due = loss-Due s.attempt s.child [] g.attempt a.no_child refl a.own;
  fresh = λ c. absurd (let n = a.no_child in cc);
  granted = λ c. absurd (let n = a.no_child in cc);
  free = λ _ e. absurd (cc);
  attached = v.attached;
  slotted = v.slotted;
  token = v.token;
  asks = v.asks;
}

closed_without_child : (s : Supervisor) → Inv s → s.child ≡ false → is_open s ≡ false
closed_without_child s v c = elim (Bool-cases (is_open s)) [
  | inl e ↦ absurd (let h = (v.attached e).0 in cc)
  | inr e ↦ e
]

start_child-Inv :
    (c : Chances) (g : SessionGrant) (s : Supervisor)
    → Acceptable g s
    → Inv s
    → Inv (start_child c g s).state
unfolding start_child
start_child-Inv c g s a v =
    let closed = closed_without_child s v a.no_child in
    by_test (λ (x : Acted). Inv x.state) (slot_works c.slot && c.can_start) _ _
      (λ _. record {
        due = subst (Due s.attempt true) (sym a.no_reports) (nothing true);
        fresh = λ _ _ _. a.no_reports;
        granted = λ _. a.own;
        free = λ e. absurd (cc);
        attached = λ e. absurd (cc);
        slotted = λ _. (refl, closed);
        token = v.token;
        asks = v.asks;
      })
      (λ _. record {
        due = loss-Due s.attempt s.child s.reports g.attempt a.no_child a.no_reports a.own;
        fresh = λ e. absurd (let n = a.no_child in cc);
        granted = λ e. absurd (let n = a.no_child in cc);
        free = λ _ e. absurd (some_left s.reports _ e);
        attached = λ e. absurd (cc);
        slotted = λ e. absurd (cc);
        token = v.token;
        asks = v.asks;
      })
  where
    some_left : (rs : List SessionReport) (r : SessionReport) → rs ++ r ∷ [] ≡ [] → ⊥
    some_left [] r e = cc
    some_left (x ∷ rs) r e = cc

accept-Inv :
    (id : Identity) (c : Chances) (m : SessionControlRequest) (g : SessionGrant) (s : Supervisor)
    → Named id
    → Inv s
    → Goes Inv (accept id c m g s)
unfolding accept
accept-Inv id c m g s n v =
    by_test (Goes Inv) (not (is_acceptable m g s)) _ _ (λ _. finish_reply-Inv id c.now s n v)
      (λ e.
        let a = is_acceptable-Acceptable m g s (ground (arith, e)) in
        by_test (Goes Inv) (not (ltb c.now g.deadline)) _ _
          (λ _. send-Inv id _ n (expired-Inv g s a v))
          (λ _.
            by_test (Goes Inv) (not c.can_plan) _ _ (λ _. tt)
              (λ _. finish_reply-Inv id c.now _ n (start_child-Inv c g s a v))))

accept_any-Inv :
    (id : Identity) (c : Chances) (m : SessionControlRequest) (g : Option SessionGrant)
    (s : Supervisor)
    → Named id
    → Inv s
    → Goes Inv (accept_any id c m g s)
unfolding accept_any
accept_any-Inv id c m none s n v = finish_reply-Inv id c.now s n v
accept_any-Inv id c m (some g) s n v = accept-Inv id c m g s n v

answered-Inv :
    {s : Supervisor} {reply : SessionControlReply} → Inv s → Inv (record s { last = reply })
answered-Inv v = record {
  due = v.due;
  fresh = v.fresh;
  granted = v.granted;
  free = v.free;
  attached = v.attached;
  slotted = v.slotted;
  token = v.token;
  asks = v.asks;
}

take_reply-Inv :
    (id : Identity) (c : Chances) (m : SessionControlRequest) (reply : SessionControlReply)
    (s : Supervisor)
    → Named id
    → Inv s
    → Goes Inv (take_reply id c m reply s)
unfolding take_reply
take_reply-Inv id c m reply s n v =
    by_test (Goes Inv) reply.ended _ _ (λ _. tt)
      (λ _. and_then-Goes Inv (then_do (cancel t) reset) (accept_any id c m reply.grant) (
        accept_any-Inv id c m reply.grant (reset (cancel t).state).state n
          (reset-Inv (cancel t).state (cancel-Inv t (answered-Inv {reply = reply} v)))))
  where
    t : Supervisor
    t = record s { last = reply }

returned-Inv : {s : Supervisor} {b : Bool} → Inv s → Inv (record s { in_flight = none; retry = b })
returned-Inv v = record {
  due = v.due;
  fresh = v.fresh;
  granted = v.granted;
  free = v.free;
  attached = v.attached;
  slotted = v.slotted;
  token = v.token;
  asks = tt;
}

pub handle_reply-Inv :
    (id : Identity) (c : Chances) (m : SessionControlRequest) (reply : Option SessionControlReply)
    (s : Supervisor)
    → Named id
    → Random c.nonce
    → Inv s
    → Goes Inv (handle_reply id c m reply s)
unfolding handle_reply
handle_reply-Inv id c m none s n r v = returned-Inv v
handle_reply-Inv id c m (some reply) s n r v =
    by_report (take_report c.nonce m t)
      (take_report-Inv c.nonce m t r (returned-Inv {b = s.retry} v))
  where
    t : Supervisor
    t = record s { in_flight = none }

    by_report :
        (o : Option Supervisor)
        → Held o
        → Goes Inv
            (elim o as (λ _. Outcome) [ none ↦ exits [] | some s₁ ↦ take_reply id c m reply s₁ ])
    by_report none h = tt
    by_report (some s₁) h = take_reply-Inv id c m reply s₁ n h

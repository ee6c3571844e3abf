-- ===== src/Supervisor/Invariant/Openings.antt =====
-- The invariant of the helper of internal/mirror/session_supervisor.go when the gate may open.
use terminal_redeemer.Base.{
  ℕ, ◌≡◌, refl, sym, subst, by_test, ◌≢◌, Bool, true, false, not, ◌||◌, ◌==◌, List, [], ◌∷◌, ◌++◌,
  Text, arith, ltb,
}
use terminal_redeemer.Recovery.Request.{Event}
use terminal_redeemer.Stream.Gate.{SessionInputGate, Opening, opened, not_opened, open_gate, close}
use terminal_redeemer.Stream.Gate.Rounds.{open_gate_unopened}
use terminal_redeemer.Stream.Gate.Origins.{open_gate-Opened}
use terminal_redeemer.Supervisor.{
  Identity, SessionReport, Supervisor, Acted, is_open, lose, report, report_of, Surroundings,
  announce, opened_by, open_attachment,
}
use terminal_redeemer.Supervisor.Invariant.{Inv, Due, readiness, Named, lose-Inv, send-Inv}

-- A child that has not been reported ready.
record Waiting (s : Supervisor) : Type 0 where
  has_child : s.child ≡ true
  is_proved : s.proved ≡ true
  goes_on : s.stopping ≡ false
  is_closed : is_open s ≡ false

-- The gate alone has changed.
abbrev with_gate : Supervisor → SessionInputGate → Supervisor
with_gate s g = record s { gate = g }

ready-Due :
    (attempt : Text) (child : Bool) (rs : List SessionReport) (granted : Text)
    → child ≡ true
    → rs ≡ []
    → granted ≡ attempt
    → Due attempt child (rs ++ report_of granted Event.ready ∷ [])
ready-Due attempt true rs granted c e g =
    subst (λ r. Due attempt true (r ++ report_of granted Event.ready ∷ [])) (sym e)
      (subst (λ a. Due attempt true (report_of a Event.ready ∷ [])) (sym g) readiness)
ready-Due attempt false rs granted c e g = absurd (cc)

announced-Inv :
    (s : Supervisor) (g : SessionInputGate)
    → Inv s
    → Waiting s
    → g.generation ≢ 0
    → Inv (record s {
      gate = g;
      startup_output = [];
      slot = false;
      reports = s.reports ++ report s Event.ready ∷ [];
    })
announced-Inv s g v w n = record {
  due =
      ready-Due s.attempt s.child s.reports s.grant.attempt w.has_child
        (v.fresh w.has_child w.is_closed w.goes_on) (v.granted w.has_child);
  fresh = λ _ e _. absurd (ground arith);
  granted = v.granted;
  free = λ e _. absurd (let c = w.has_child in cc);
  attached = λ _. (w.has_child, w.is_proved, w.goes_on);
  slotted = λ e. absurd (cc);
  token = v.token;
  asks = v.asks;
}

-- A loss from a state that differs from one with the invariant in its gate.
lose_gate-Inv : (s : Supervisor) (g : SessionInputGate) → Inv s → Inv (lose (with_gate s g)).state
unfolding lose close
lose_gate-Inv s g v = record {
  due = v.due;
  fresh = λ _ _ e. absurd (cc);
  granted = v.granted;
  free = v.free;
  attached = λ e. absurd (cc);
  slotted = λ e. ((v.slotted e).0, refl);
  token = v.token;
  asks = v.asks;
}

announce-Inv :
    (id : Identity) (w : Surroundings) (s : Supervisor) (g : SessionInputGate)
    → Named id
    → Inv s
    → Waiting s
    → g.generation ≢ 0
    → Inv (announce id w (with_gate s g)).state
unfolding announce lose
announce-Inv id w s g n v q r =
    by_test (λ (a : Acted). Inv a.state) w.screen_works _ _
      (λ _. send-Inv id _ n (announced-Inv s g v q r)) (λ _. lose_gate-Inv s g v)

pub same_gate-Inv :
    (s : Supervisor) (g : SessionInputGate)
    → g.generation ≡ s.gate.generation
    → Inv s
    → Inv (with_gate s g)
same_gate-Inv s g e v = record {
  due = v.due;
  fresh = λ c h. v.fresh c (still e h);
  granted = v.granted;
  free = v.free;
  attached = λ h. v.attached (still e h);
  slotted = λ h. ((v.slotted h).0, still (sym e) (v.slotted h).1);
  token = v.token;
  asks = v.asks;
}
  where
    still : {k l : ℕ} {b : Bool} → k ≡ l → not (k == 0) ≡ b → not (l == 0) ≡ b
    still {b = b} x h = subst (λ (k : ℕ). not (k == 0) ≡ b) x h

opened_by-Inv :
    (id : Identity) (w : Surroundings) (s : Supervisor)
    → Named id
    → Inv s
    → Waiting s
    → (x : SessionInputGate × Opening) → (x.1 ≡ opened → x.0.generation ≢ 0)
    → (x.1 ≡ not_opened → x.0.generation ≡ s.gate.generation)
    → Inv (opened_by id w (with_gate s x.0) x.1).state
unfolding opened_by
opened_by-Inv id w s n v q (g, opened) f k = announce-Inv id w s g n v q (f refl)
opened_by-Inv id w s n v q (g, not_opened) f k = same_gate-Inv s g (k refl) v
opened_by-Inv id w s n v q (g, Opening.failed) f k = lose_gate-Inv s g v

pub open_attachment-Inv :
    (id : Identity) (w : Surroundings) (s : Supervisor)
    → Named id
    → Inv s
    → Inv (open_attachment id w s).state
unfolding open_attachment
open_attachment-Inv id w s n v =
    by_test (λ (a : Acted). Inv a.state) (not s.child || s.stopping || not s.proved || is_open s) _
      _ (λ _. v)
      (λ e.
        by_test (λ (a : Acted). Inv a.state) (not (ltb w.now s.grant.deadline)) _ _
          (λ _. lose-Inv s v)
          (λ _.
            opened_by-Inv id w s n v (waits s e) (open_gate w.reads w.flush_at s.gate)
              (λ h. (open_gate-Opened w.reads w.flush_at s.gate h).real)
              (open_gate_unopened w.reads w.flush_at s.gate)))
  where
    waits :
        (s : Supervisor)
        → (not s.child || s.stopping || not s.proved || is_open s) ≡ false
        → Waiting s
    waits s e = record {
      has_child = ground arith;
      is_proved = ground arith;
      goes_on = ground arith;
      is_closed = ground arith;
    }

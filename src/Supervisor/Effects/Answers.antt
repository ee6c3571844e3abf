-- ===== src/Supervisor/Effects/Answers.antt =====
-- The effects of an answer in internal/mirror/session_supervisor.go: the start of a child.
use terminal_redeemer.Base.{
  ℕ, ◌≡◌, refl, sym, ap, by_test, ◌∙◌, Bool, true, false, not, ◌&&◌, List, [], ◌∷◌, Option, none,
  some, Text, same, arith, All, ltb, if◌then◌else◌,
}
use mathlib.Core.Path.{ap₂}
use terminal_redeemer.Recovery.Request.{Event, lost, no_event, SessionControlRequest}
use terminal_redeemer.Recovery.Exchange.{SessionGrant, SessionControlReply}
use terminal_redeemer.Supervisor.{
  Identity, SessionReport, Supervisor, Effect, starts, Acted, done, then_do, is_open, lose,
}
use terminal_redeemer.Supervisor.Handling.{
  Chances, slot_works, Outcome, exits, goes, after, is_no_event, same_event, renew, is_empty,
  take_report, cancel, give_up, reset, is_acceptable, start_child, accept, accept_any, take_reply,
  handle_reply,
}
use terminal_redeemer.Supervisor.Events.{replied}
use terminal_redeemer.Supervisor.Effects.{effects_of, by_grant, Justified}
use terminal_redeemer.Supervisor.Effects.Quiet.{
  All-append, then_do-AllOf, cancel-AllOf, reset-AllOf,
}

-- What stays as it is while an answer is looked at.
abbrev parts : Supervisor → Bool × Text × SessionControlReply
parts s = (s.child, s.attempt, s.last)

lose_parts : (s : Supervisor) → parts (lose s).state ≡ parts s
unfolding lose
lose_parts s = refl

reset-cancel_parts : (s : Supervisor) → parts (reset (cancel s).state).state ≡ parts s
unfolding reset cancel give_up
reset-cancel_parts s = by_reset (cancel s).state ∙ by_cancel
  where
    by_cancel : parts (cancel s).state ≡ parts s
    by_cancel =
        by_test (λ (a : Acted). parts a.state ≡ parts s)
          (s.child && same s.last.cancel_attempt s.grant.attempt) _ _ (λ _. lose_parts s)
          (λ _. refl)

    by_reset : (t : Supervisor) → parts (reset t).state ≡ parts t
    by_reset t =
        by_test (λ (a : Acted). parts a.state ≡ parts t) (t.last.reset && not (is_open t)) _ _
          (λ _.
            by_test (λ (a : Acted). parts a.state ≡ parts t) t.child _ _ (λ _. lose_parts t)
              (λ _.
                by_test (λ u. parts u ≡ parts t) (is_empty t.reports) _ _ (λ _. refl) (λ _. refl)))
          (λ _. refl)

-- The answer of the coordinator to the request in flight.
module _ (id : Identity) (s : Supervisor) (c : Chances) (m : SessionControlRequest)
    (reply : SessionControlReply) (flies : s.in_flight ≡ some m) where
  abbrev Allowed : List Effect → Type 0
  Allowed = All (Justified id s (replied (some reply) c))

  start_child-Allowed :
      (g : SessionGrant) (t : Supervisor)
      → Justified id s (replied (some reply) c) (starts g.attempt)
      → Allowed (start_child c g t).effects
  unfolding start_child
  start_child-Allowed g t h =
      by_test (λ (a : Acted). Allowed a.effects) (slot_works c.slot && c.can_start) _ _
        (λ _. (h, tt)) (λ _. tt)

  accept-Allowed :
      (g : SessionGrant) (t : Supervisor)
      → reply.grant ≡ some g
      → reply.ended ≡ false
      → (is_no_event m.event ≡ true → parts t ≡ (s.child, s.attempt, reply))
      → Allowed (effects_of (accept id c m g t))
  unfolding accept is_acceptable
  accept-Allowed g t e n p =
      by_test (λ (o : Outcome). Allowed (effects_of o)) (not (is_acceptable m g t)) _ _ (λ _. tt)
        (λ a.
          by_test (λ (o : Outcome). Allowed (effects_of o)) (not (ltb c.now g.deadline)) _ _
            (λ _. tt)
            (λ d.
              by_test (λ (o : Outcome). Allowed (effects_of o)) (not c.can_plan) _ _ (λ _. tt)
                (λ _. start_child-Allowed g t (
                  let same_parts = p (ground (arith, a)) in
                  by_grant m reply g c flies (plain m.event (ground (arith, a))) e n
                    (sym (ap (λ k. k.2.reset) same_parts) ∙ ground (arith, a))
                    (sym (ap (λ k. k.0) same_parts) ∙ ground (arith, a))
                    (ground (arith, a) ∙ ap (λ k. k.1) same_parts) (ground (arith, d))))))
    where
      plain : (e : Event) → is_no_event e ≡ true → e ≡ no_event
      plain e h = ground arith

  accept_any-Allowed :
      (o : Option SessionGrant) (t : Supervisor)
      → reply.grant ≡ o
      → reply.ended ≡ false
      → (is_no_event m.event ≡ true → parts t ≡ (s.child, s.attempt, reply))
      → Allowed (effects_of (accept_any id c m o t))
  unfolding accept_any
  accept_any-Allowed none t e n p = tt
  accept_any-Allowed (some g) t e n p = accept-Allowed g t e n p

  after-Allowed :
      (es : List Effect) (o : Outcome)
      → Allowed es
      → Allowed (effects_of o)
      → Allowed (effects_of (after es o))
  after-Allowed es (exits fs) h k = All-append _ es fs h k
  after-Allowed es (goes a) h k = All-append _ es a.effects h k

  take_reply-Allowed :
      (t : Supervisor)
      → (is_no_event m.event ≡ true → (t.child ≡ s.child) × (t.attempt ≡ s.attempt))
      → Allowed (effects_of (take_reply id c m reply t))
  unfolding take_reply
  take_reply-Allowed t p =
      by_test (λ (o : Outcome). Allowed (effects_of o)) reply.ended _ _ (λ _. tt)
        (λ n.
          after-Allowed (then_do (cancel u) reset).effects
            (accept_any id c m reply.grant (reset (cancel u).state).state)
            (then_do-AllOf (Justified id s (replied (some reply) c)) (λ _. tt) tt (cancel u) reset
              (cancel-AllOf _ (λ _. tt) tt u) (reset-AllOf _ (λ _. tt) tt))
            (accept_any-Allowed reply.grant (reset (cancel u).state).state refl n
              (λ h. reset-cancel_parts u ∙ named (p h))))
    where
      u : Supervisor
      u = record t { last = reply }

      named :
          (t.child ≡ s.child) × (t.attempt ≡ s.attempt)
          → ◌≡◌ {A = Bool × Text × SessionControlReply}
              (t.child, t.attempt, reply)
              (s.child, s.attempt, reply)
      named (x, y) = ap₂ (λ a b. (a, b, reply)) x y

take_report_plain :
    (nonce : Option (List ℕ)) (m : SessionControlRequest) (s : Supervisor)
    → is_no_event m.event ≡ true
    → take_report nonce m s ≡ some s
unfolding take_report
take_report_plain nonce m s h = by_reports s.reports
  where
    by_reports :
        (rs : List SessionReport)
        → ◌≡◌ {A = Option Supervisor}
            (elim rs as (λ _. Option Supervisor) [
              | [] ↦ some s
              | r ∷ rest ↦
                  if not (is_no_event m.event)
                    && same r.attempt m.attempt
                    && same_event r.event m.event
                  then (if same_event m.event lost
                      then renew nonce (record s { reports = rest })
                      else some (record s { reports = rest }))
                  else some s
            ])
            (some s)
    by_reports [] = refl
    by_reports (r ∷ rest) =
        by_test (λ (o : Option Supervisor). o ≡ some s)
          (not (is_no_event m.event) && same r.attempt m.attempt && same_event r.event m.event) _ _
          (λ e. absurd (ground (arith, e, h))) (λ _. refl)

handle_reply-Justified :
    (id : Identity) (s : Supervisor) (c : Chances) (m : SessionControlRequest)
    (reply : Option SessionControlReply)
    → s.in_flight ≡ some m
    → All (Justified id s (replied reply c)) (effects_of (handle_reply id c m reply s))
unfolding handle_reply
handle_reply-Justified id s c m none e = tt
handle_reply-Justified id s c m (some reply) e =
    by_report (take_report c.nonce m t) (λ h. take_report_plain c.nonce m t h)
  where
    t : Supervisor
    t = record s { in_flight = none }

    by_report :
        (o : Option Supervisor)
        → (is_no_event m.event ≡ true → o ≡ some t)
        → All (Justified id s (replied (some reply) c)) (
            effects_of
              (elim o as (λ _. Outcome) [ none ↦ exits [] | some s₁ ↦ take_reply id c m reply s₁ ]))
    by_report none f = tt
    by_report (some s₁) f =
        take_reply-Allowed id s c m reply e s₁ (λ h. (ap child_of (f h), ap attempt_of (f h)))
      where
        child_of : Option Supervisor → Bool
        child_of none = false
        child_of (some u) = u.child

        attempt_of : Option Supervisor → Text
        attempt_of none = []
        attempt_of (some u) = u.attempt

pub replied-Justified :
    (id : Identity) (s : Supervisor) (c : Chances) (reply : Option SessionControlReply)
    (o : Option SessionControlRequest)
    → s.in_flight ≡ o
    → All (Justified id s (replied reply c)) (
        effects_of (elim o as (λ _. Outcome) [
          | none ↦ goes (done s)
          | some m ↦ handle_reply id c m reply s
        ]))
replied-Justified id s c reply none e = tt
replied-Justified id s c reply (some m) e = handle_reply-Justified id s c m reply e

-- ===== src/Supervisor/Life.antt =====
-- The helper of internal/mirror/session_supervisor.go from its start, event after event, and the
-- coordinator that it asks.
use terminal_redeemer.Base.{
  ℕ, ◌≡◌, refl, subst, ◌≢◌, true, false, List, Option, none, some, Returns, Returns-mono,
}
use terminal_redeemer.Recovery.Request.{SessionControlRequest, valid_recovery_request}
use terminal_redeemer.Recovery.State.{SessionRecovery}
use terminal_redeemer.Recovery.Roster
use terminal_redeemer.Recovery.Exchange.{Answer, refused, invalid_request, exchange}
use terminal_redeemer.Recovery.Exchange.Answers.{Answered, AnswersOwn, exchange-Answered}
use terminal_redeemer.Supervisor.{Identity, Supervisor, Acted}
use terminal_redeemer.Supervisor.Handling.{goes}
use terminal_redeemer.Supervisor.Events.{Happening, supervise, fresh_supervisor, new_supervisor}
use terminal_redeemer.Supervisor.Invariant.{Inv, nothing, Named, send-Inv, Asks}
use terminal_redeemer.Supervisor.Invariant.Tokens.{Random, hex_token-hex_encode}
use terminal_redeemer.Supervisor.Invariant.Replies.{Goes}
use terminal_redeemer.Supervisor.Invariant.Steps.{Fair, supervise-Inv}

-- The states that a helper comes to.
pub data Reaches (id : Identity) (first : Supervisor) : Supervisor → Type 0 where
  here : Reaches id first first
  next :
      (s : Supervisor) (h : Happening) (a : Acted)
      → Reaches id first s
      → Fair h
      → supervise id s h ≡ goes a
      → Reaches id first a.state

new_supervisor-Inv :
    (id : Identity) (nonce : List ℕ)
    → Named id
    → Random (some nonce)
    → Inv (new_supervisor id nonce)
unfolding new_supervisor fresh_supervisor
new_supervisor-Inv id nonce n r = send-Inv id (fresh_supervisor nonce) n (record {
  due = nothing false;
  fresh = λ e. absurd (cc);
  granted = λ e. absurd (cc);
  free = λ _ _. refl;
  attached = λ e. absurd (cc);
  slotted = λ e. absurd (cc);
  token = hex_token-hex_encode nonce r;
  asks = tt;
})

Reaches-from :
    (id : Identity) (first s : Supervisor) → Named id → Inv first → Reaches id first s → Inv s
Reaches-from id first s n v here = v
Reaches-from id first t n v (next s h a r f e) =
    subst (Goes Inv) e (supervise-Inv id s h n f (Reaches-from id first s n v r))

-- For a helper with a token and a client of 32 hexadecimal digits, a safe session name, a valid session
-- identity and a nonce of random bytes: in every state that it comes to, the gate is open only for a child
-- that proved to be ready and is not being stopped, what is due to be reported is about the own
-- attempt, and every request is valid.
pub Reaches-Inv :
    (id : Identity) (nonce : List ℕ) (s : Supervisor)
    → Named id
    → Random (some nonce)
    → Reaches id (new_supervisor id nonce) s
    → Inv s
Reaches-Inv id nonce s n f r =
    Reaches-from id (new_supervisor id nonce) s n (new_supervisor-Inv id nonce n f) r

Asks-valid :
    (o : Option SessionControlRequest) (m : SessionControlRequest)
    → o ≡ some m
    → Asks o
    → valid_recovery_request m ≡ true
Asks-valid none m e h = absurd (cc)
Asks-valid (some k) m e h = subst Asks e h

-- The coordinator goes on, and does not refuse the message as invalid.
pub record Accepted (x : SessionRecovery × Answer) : Type 0 where
  pub inv : Roster.Inv x.0
  pub valid : x.1 ≢ refused invalid_request

-- For a helper with a token and a client of 32 hexadecimal digits, a safe session name, a valid session
-- identity and a nonce of random bytes: whatever it went through, a request of it is answered by the coordinator,
-- which keeps its invariant, and is never refused as invalid.
pub Reaches-Accepted :
    (id : Identity) (nonce : List ℕ) (s : Supervisor) (m : SessionControlRequest)
    (r : SessionRecovery) (now : ℕ)
    → Named id
    → Random (some nonce)
    → Reaches id (new_supervisor id nonce) s
    → s.in_flight ≡ some m
    → Roster.Inv r
    → Returns Accepted (exchange r m now)
Reaches-Accepted id nonce s m r now n f reached e v =
    Returns-mono (Answered m now) Accepted (exchange r m now) (exchange-Answered r m now v)
      (λ x a. record { inv = a.inv; valid = λ z. clash x a z })
  where
    good : valid_recovery_request m ≡ true
    good = Asks-valid s.in_flight m e (Reaches-Inv id nonce s n f reached).asks

    clash : (x : SessionRecovery × Answer) → Answered m now x → x.1 ≡ refused invalid_request → ⊥
    clash x a z = let bad = subst (AnswersOwn m now) z a.own in let fine = good in cc

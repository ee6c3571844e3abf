-- ===== src/Recovery/History.antt =====
-- The coordinator under any sequence of calls of its server: probes that begin and end, exchanges,
-- admissions and departures (internal/mirror/session_recovery.go, called under one lock by
-- internal/mirror/session_recovery_server.go).
use terminal_redeemer.Base.{
  ℕ, ◌≡◌, refl, ◌∙◌, inl, inr, false, List, [], ◌∷◌, Option, some, ◌>>=◌, Text, Map, get, del, any,
  keys, keys-del, seen-remove_first_ne, Each, Each-del, arith, Returns, Returns-mono, Returns->>=,
  by_test, Option-cases, tally,
}
use terminal_redeemer.Recovery.Request.{SessionControlRequest}
use terminal_redeemer.Recovery.Inventory.{SessionInventory}
use terminal_redeemer.Recovery.State.{
  Time, Member, SessionRetry, SessionRecovery, expire, new_session_recovery,
}
use terminal_redeemer.Recovery.Roster.{Tracked, Inv, Roster-remove}
use terminal_redeemer.Recovery.Admission.{admit}
use terminal_redeemer.Recovery.Admission.Keeps.{Admitted, admit-Admitted}
use terminal_redeemer.Recovery.Probe.{begin_probe, finish_probe}
use terminal_redeemer.Recovery.Probe.Keeps.{begin_probe-Inv, finish_probe-Inv}
use terminal_redeemer.Recovery.Exchange.{exchange, shares_session, remove}
use terminal_redeemer.Recovery.Exchange.Answers.{Answered, exchange-Answered}

pub data Call : Type 0 where
  begins : Time → Call
  finishes : ℕ → Time → SessionInventory → Option Text → Call
  exchanges : SessionControlRequest → Time → Call
  admits : Time → Call
  removes : Text → Call

unfoldable pub step : SessionRecovery → Call → Option SessionRecovery
step s (begins now) = some (begin_probe s now).0
step s (finishes sequence now inventory error) = finish_probe s sequence now inventory error
step s (exchanges r now) = exchange s r now >>= λ x. some x.0
step s (admits now) = admit s now
step s (removes client) = some (remove s client)

unfoldable pub run : SessionRecovery → List Call → Option SessionRecovery
unfolding step
run s [] = some s
run s (c ∷ cs) = step s c >>= λ s'. run s' cs

pub new_session_recovery-Inv : Inv new_session_recovery
unfolding new_session_recovery any keys tally
new_session_recovery-Inv = record {
  order_distinct = tt;
  keys_distinct = tt;
  queued = λ id. refl;
  sound = tt;
  tracked = tt;
  capacity = omega arith;
  single = λ sid. omega arith;
}

Tracked-del :
    (sid : Text) (sessions : Map SessionRetry) (ms : Map Member)
    → shares_session sid ms ≡ false
    → Each (Tracked sessions) ms
    → Each (Tracked (del sid sessions)) ms
unfolding shares_session any
Tracked-del sid sessions [] h t = tt
Tracked-del sid sessions ((c, m) ∷ ms) h t = (
  rw (keys-del sid sessions)
      (seen-remove_first_ne sid m.identity.session_id (keys sessions) (ground arith) ∙ t.0),
  Tracked-del sid sessions ms (ground arith) t.1,
)

remove-Inv : (s : SessionRecovery) (client : Text) → Inv s → Inv (remove s client)
unfolding remove
remove-Inv s client v = elim (Option-cases (get client s.members)) [
  | inl e ↦ rw (e, remove) v
  | inr (m, e) ↦
      rw (e, remove)
        (Roster-remove client _ v (
          by_test (λ ss. Each (Tracked ss) (del client s.members))
            (shares_session m.identity.session_id (del client s.members)) s.sessions
            (del m.identity.session_id s.sessions)
            (λ _. Each-del (Tracked s.sessions) client s.members v.tracked)
            (λ h.
              Tracked-del m.identity.session_id s.sessions (del client s.members) h
                (Each-del (Tracked s.sessions) client s.members v.tracked))))
]

-- Every call of the server returns and keeps the invariant.
step-Inv : (s : SessionRecovery) (c : Call) → Inv s → Returns Inv (step s c)
unfolding step
step-Inv s (begins now) v = begin_probe-Inv s now v
step-Inv s (finishes sequence now inventory error) v =
    finish_probe-Inv s sequence now inventory error v
step-Inv s (exchanges r now) v =
    Returns->>= (Answered r now) Inv (exchange s r now) (λ x. some x.0)
      (exchange-Answered s r now v) (λ x a. a.inv)
step-Inv s (admits now) v =
    Returns-mono (Admitted (expire s now) now) Inv (admit s now) (admit-Admitted s now v)
      (λ s' a. a.inv)
step-Inv s (removes client) v = remove-Inv s client v

pub run-Inv : (s : SessionRecovery) (cs : List Call) → Inv s → Returns Inv (run s cs)
unfolding run
run-Inv s [] v = v
run-Inv s (c ∷ cs) v =
    Returns->>= Inv Inv (step s c) (λ s'. run s' cs) (step-Inv s c v) (λ s' w. run-Inv s' cs w)

-- Whatever calls the server makes from its start, the coordinator never panics, its members, queue
-- and retry records agree, and at most two attachments pend, no two of one session.
pub run-new-Inv : (cs : List Call) → Returns Inv (run new_session_recovery cs)
run-new-Inv cs = run-Inv new_session_recovery cs new_session_recovery-Inv

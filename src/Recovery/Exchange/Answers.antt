-- ===== src/Recovery/Exchange/Answers.antt =====
-- A whole exchange of internal/mirror/session_recovery.go, and the attempt that its answer grants.
use terminal_redeemer.Base.{
  ◌≡◌, refl, ap, ◌∙◌, ◌≢◌, inl, inr, true, false, not, ◌&&◌, ◌||◌, [], none, some, ◌>>=◌, Text,
  same, Map, get, seen, keys, get-map_entries, get-put_same, seen-put, seen-put_self, arith,
  Returns, Returns->>=, by_test, Bool-cases, Option-cases, seen-get,
}
use terminal_redeemer.Recovery.Request.{SessionControlRequest, valid_recovery_request}
use terminal_redeemer.Recovery.State.{
  Time, Member, SessionRetry, SessionRecovery, expire, expire_member, request_probe,
}
use terminal_redeemer.Recovery.Roster.{Inv, Roster-register}
use terminal_redeemer.Recovery.Admission.{admit}
use terminal_redeemer.Recovery.Admission.Keeps.{Admitted, admit-Admitted}
use terminal_redeemer.Recovery.Admission.Grants.{Fate, kept, given, expire-Inv}
use terminal_redeemer.Recovery.Exchange.{
  Answer, replied, refused, invalid_request, token_registered, identity_changed, reply, new_member,
  ensure_session, fresh_retry, register, same_identity, write, Handled, returns, goes_on, handle,
  hold_back, is_connecting, conclude, exchange_at, exchange_member, exchange_new, exchange_old,
  exchange, resynchronize, proceed, asked, token_in_use,
}
use terminal_redeemer.Recovery.Exchange.Members.{
  Aligned, reset-Aligned, attempt_of_valid, new_member-Sound, new_member-idle, reset-Sound,
  expire_member-Aligned, GrantsOwn, reply_reset, reply_kept, reply_given,
}
use terminal_redeemer.Recovery.Exchange.Handling.{
  Seated, Going, GoesOn, Seated-Sound, Seated-write, handle-GoesOn, request_probe-Inv,
  request_probe_members,
}

-- An answer that is a refusal grants nothing.
abbrev pub AnswersOwn : SessionControlRequest → Time → Answer → Type 0
AnswersOwn r now (replied y) = GrantsOwn r now y
AnswersOwn r now (refused invalid_request) = valid_recovery_request r ≡ false
AnswersOwn r now (refused _) = Unit

pub record Answered (r : SessionControlRequest) (now : Time) (x : SessionRecovery × Answer)
    : Type 0 where
  pub inv : Inv x.0
  pub own : AnswersOwn r now x.1

hold_back-Going :
    (r : SessionControlRequest) (s : SessionRecovery) (m : Member)
    → Going r s m
    → (m' : Member) × Going r (hold_back s r m) m'
unfolding hold_back
hold_back-Going r s m v =
    by_test (λ t. (m' : Member) × Going r t m')
      (is_connecting r.state && not (same m.active r.attempt) && not (same r.attempt m.retired))
      (write s r.client (record m { reset = true })) s
      (λ _. (
        record m { reset = true },
        record {
          seat =
              Seated-write r s m (record m { reset = true }) v.seat
                (reset-Sound r.client true m (Seated-Sound r s m v.seat)) refl (λ p. p);
          aligned = reset-Aligned r (record m { reset = true }) refl;
        },
      ))
      (λ _. (m, v))

expired_at :
    (c : Text) (s : SessionRecovery) (m : Member) (now : Time)
    → get c s.members ≡ some m
    → get c (expire s now).members ≡ some (expire_member now c m)
unfolding expire
expired_at c s m now e = rw (get-map_entries (expire_member now) c s.members, e)

reply_fated :
    (r : SessionControlRequest) (s t : SessionRecovery) (now : Time) (m m' : Member)
    → Aligned r m
    → Fate s now (expire_member now r.client m) m'
    → GrantsOwn r now (reply t m' now (m'.reset || same r.attempt m'.retired))
reply_fated r s t now m m' v (kept q) = rw q (reply_kept t r m now r.client v)
reply_fated r s t now m m' v (given fit q) = rw q (
    reply_given s t r (expire_member now r.client m) now (expire_member-Aligned r now r.client m v)
      fit)

conclude-Answered :
    (r : SessionControlRequest) (s : SessionRecovery) (m : Member) (now : Time)
    → Going r s m
    → Returns (Answered r now) (conclude s r now)
unfolding conclude
conclude-Answered r s m now v =
    let (m₁, v₁) = hold_back-Going r s m v in
    rw v.seat.at_client (
      Returns->>= (Admitted (expire (hold_back s r m) now) now) (Answered r now)
        (admit (hold_back s r m) now) _ (admit-Admitted (hold_back s r m) now v₁.seat.inv)
        (λ s' a.
          let (m', e', fate) =
            a.fates r.client (expire_member now r.client m₁)
              (expired_at r.client (hold_back s r m) m₁ now v₁.seat.at_client) in
          rw e' (record {
            inv = a.inv;
            own = reply_fated r (expire (hold_back s r m) now) s' now m₁ m' v₁.aligned fate;
          })))

resynchronize-Answered :
    (r : SessionControlRequest) (s : SessionRecovery) (m : Member) (now : Time)
    → Inv s
    → Returns (Answered r now) (resynchronize s r m now)
unfolding resynchronize
resynchronize-Answered r s m now v = record { inv = v; own = reply_reset s r m now }

proceed-Answered :
    (r : SessionControlRequest) (s : SessionRecovery) (m : Member) (now : Time) (h : Handled)
    → Inv s
    → GoesOn r h
    → Returns (Answered r now) (proceed s r m now h)
unfolding proceed
proceed-Answered r s m now returns v g = resynchronize-Answered r s m now v
proceed-Answered r s m now (goes_on s') v g = conclude-Answered r s' g.0 now g.1

exchange_at-Answered :
    (r : SessionControlRequest) (s : SessionRecovery) (m : Member) (now : Time)
    → Seated r s m
    → r.attempt ≢ []
    → Returns (Answered r now) (exchange_at s r m now)
unfolding exchange_at
exchange_at-Answered r s m now v h =
    by_test (Returns (Answered r now)) (not (same m.active []) && not (same r.attempt m.active))
      (resynchronize s r m now) (handle s r m now >>= proceed s r m now)
      (λ _. resynchronize-Answered r s m now v.inv)
      (λ e.
        Returns->>= (GoesOn r) (Answered r now) (handle s r m now) (proceed s r m now)
          (handle-GoesOn r s m now v h (ground arith))
          (λ a g. proceed-Answered r s m now a v.inv g))

asked-Inv :
    (r : SessionControlRequest) (s : SessionRecovery) (now : Time) → Inv s → Inv (asked s r now)
unfolding asked
asked-Inv r s now v =
    by_test Inv r.retry (request_probe s now) s (λ _. request_probe-Inv s now v) (λ _. v)

asked_members :
    (r : SessionControlRequest) (s : SessionRecovery) (now : Time)
    → (asked s r now).members ≡ s.members
unfolding asked
asked_members r s now =
    by_test (λ (t : SessionRecovery). t.members ≡ s.members) r.retry (request_probe s now) s
      (λ _. request_probe_members s now) (λ _. refl)

expire_member_identity :
    (now : Time) (c : Text) (m : Member) → (expire_member now c m).identity ≡ m.identity
unfolding expire_member
expire_member_identity now c m = ground arith

exchange_member-Answered :
    (r : SessionControlRequest) (s : SessionRecovery) (m : Member) (now : Time)
    → Seated r s m
    → r.attempt ≢ []
    → Returns (Answered r now) (exchange_member s r now)
unfolding exchange_member
exchange_member-Answered r s m now v h = rw found (
    exchange_at-Answered r (expire (asked s r now) now) (expire_member now r.client m) now
      (record {
        inv = expire-Inv (asked s r now) now (asked-Inv r s now v.inv);
        at_client = found;
        its_session =
            ap (λ (i : SessionControlRequest). i.session_id) (expire_member_identity now r.client m)
            ∙ v.its_session;
      })
      h)
  where
    found : get r.client (expire (asked s r now) now).members ≡ some (expire_member now r.client m)
    found =
        expired_at r.client (asked s r now) m now
          (ap (get r.client) (asked_members r s now) ∙ v.at_client)

ensure_session-tracks :
    (id : Text) (sessions : Map SessionRetry) → seen id (keys (ensure_session id sessions)) ≡ true
unfolding ensure_session
ensure_session-tracks id sessions = elim (Option-cases (get id sessions)) [
  | inl e ↦ rw (e, ensure_session) (seen-put_self id fresh_retry sessions)
  | inr (retry, e) ↦ rw (e, ensure_session) (seen-get id sessions retry e)
]

ensure_session-keeps :
    (id : Text) (sessions : Map SessionRetry) (sid : Text)
    → seen sid (keys sessions) ≡ true
    → seen sid (keys (ensure_session id sessions)) ≡ true
unfolding ensure_session
ensure_session-keeps id sessions sid h = elim (Option-cases (get id sessions)) [
  | inl e ↦ rw (e, ensure_session) (seen-put sid id fresh_retry sessions h)
  | inr (retry, e) ↦ rw (e, ensure_session) h
]

register-Seated :
    (r : SessionControlRequest) (s : SessionRecovery) (now : Time)
    → Inv s
    → get r.client s.members ≡ none
    → r.attempt ≢ []
    → Seated r (register s r now) (new_member r s.next_ref)
unfolding register
register-Seated r s now v e h = record {
  inv = request_probe-Inv _ now (
      Roster-register r.client (new_member r s.next_ref) (ensure_session r.session_id s.sessions) v
        e (new_member-Sound r s.next_ref h) (new_member-idle r s.next_ref)
        (ensure_session-tracks r.session_id s.sessions)
        (ensure_session-keeps r.session_id s.sessions));
  at_client =
      ap (get r.client) (request_probe_members _ now)
      ∙ get-put_same r.client r.client (new_member r s.next_ref) s.members refl;
  its_session = unfold new_member in refl;
}

exchange_new-Answered :
    (s : SessionRecovery) (r : SessionControlRequest) (now : Time)
    → Inv s
    → get r.client s.members ≡ none
    → r.attempt ≢ []
    → Returns (Answered r now) (exchange_new s r now)
unfolding exchange_new
exchange_new-Answered s r now v e h =
    by_test (Returns (Answered r now)) (token_in_use r.token s.members)
      (some (s, refused token_registered)) (exchange_member (register s r now) r now)
      (λ _. record { inv = v; own = tt })
      (λ _.
        exchange_member-Answered r (register s r now) (new_member r s.next_ref) now
          (register-Seated r s now v e h) h)

same_identity-session :
    (m : Member) (r : SessionControlRequest)
    → same_identity m r ≡ true
    → m.identity.session_id ≡ r.session_id
unfolding same_identity
same_identity-session m r h = ground arith

exchange_old-Answered :
    (s : SessionRecovery) (r : SessionControlRequest) (m : Member) (now : Time)
    → Inv s
    → get r.client s.members ≡ some m
    → r.attempt ≢ []
    → Returns (Answered r now) (exchange_old s r m now)
unfolding exchange_old
exchange_old-Answered s r m now v e h =
    by_test (Returns (Answered r now)) (same_identity m r) (exchange_member s r now)
      (some (s, refused identity_changed))
      (λ i.
        exchange_member-Answered r s m now
          (record { inv = v; at_client = e; its_session = same_identity-session m r i }) h)
      (λ _. record { inv = v; own = tt })

-- Every message is answered: the exchange returns, keeps the invariant, and grants at most the
-- attempt that the message names, until a time to come, to a member that has not ended; only an
-- invalid message is refused as invalid.
pub exchange-Answered :
    (s : SessionRecovery) (r : SessionControlRequest) (now : Time)
    → Inv s
    → Returns (Answered r now) (exchange s r now)
unfolding exchange
exchange-Answered s r now v = elim (Bool-cases (valid_recovery_request r)) [
  | inl good ↦ rw good (elim (Option-cases (get r.client s.members)) [
    | inl e ↦ rw e (exchange_new-Answered s r now v e (attempt_of_valid r good))
    | inr (m, e) ↦ rw e (exchange_old-Answered s r m now v e (attempt_of_valid r good))
  ])
  | inr bad ↦ rw bad (record { inv = v; own = bad })
]

-- ===== src/Recovery/Exchange/Members.antt =====
-- What the writes of an exchange do to one member.
use terminal_redeemer.Base.{ℕ, ◌<◌, ◌≡◌, ◌≢◌, Bool, true, false, ◌||◌, [], some, Text, same, arith}
use terminal_redeemer.Recovery.Request.{SessionControlRequest, hex_token, valid_recovery_request}
use terminal_redeemer.Recovery.State.{Time, Member, SessionRecovery, is_pending, expire_member}
use terminal_redeemer.Recovery.Roster.{Sound}
use terminal_redeemer.Recovery.Admission.{granted}
use terminal_redeemer.Recovery.Admission.Grants.{Fit}
use terminal_redeemer.Recovery.Exchange.{
  SessionGrant, SessionControlReply, new_member, retired_member, reply,
}

-- Unless the answer resets the caller, the member's attempt is the caller's: the active one, or the
-- proposed one while none is active.
pub record Aligned (r : SessionControlRequest) (m : Member) : Type 0 where
  pub owns : (m.reset || same r.attempt m.retired) ≡ false → m.active ≢ [] → m.active ≡ r.attempt
  pub proposes :
      (m.reset || same r.attempt m.retired) ≡ false → m.active ≡ [] → m.proposed ≡ r.attempt

pub attempt_of_valid :
    (r : SessionControlRequest) → valid_recovery_request r ≡ true → r.attempt ≢ []
unfolding valid_recovery_request hex_token
attempt_of_valid r h e = ground arith

pub new_member-Sound :
    (r : SessionControlRequest) (ref : ℕ) → r.attempt ≢ [] → Sound r.client (new_member r ref)
unfolding new_member
new_member-Sound r ref h = ground arith

pub new_member-idle : (r : SessionControlRequest) (ref : ℕ) → is_pending (new_member r ref) ≡ false
unfolding new_member
new_member-idle r ref = ground arith

pub proposed-Sound :
    (c attempt : Text) (m : Member)
    → attempt ≢ []
    → Sound c m
    → Sound c (record m { proposed = attempt })
proposed-Sound c attempt m h v = ground arith

pub reset-Sound : (c : Text) (b : Bool) (m : Member) → Sound c m → Sound c (record m { reset = b })
reset-Sound c b m v = ground arith

pub ready-Sound :
    (c : Text) (m : Member) → m.active ≢ [] → Sound c m → Sound c (record m { is_ready = true })
ready-Sound c m h v = ground arith

pub retired_member-Sound : (c : Text) (m : Member) → Sound c m → Sound c (retired_member m)
unfolding retired_member
retired_member-Sound c m v = ground arith

pub expire_member-Aligned :
    (r : SessionControlRequest) (now : Time) (c : Text) (m : Member)
    → Aligned r m
    → Aligned r (expire_member now c m)
unfolding expire_member
expire_member-Aligned r now c m v = ground arith

pub retired_member-Aligned :
    (r : SessionControlRequest) (m : Member) → m.active ≡ r.attempt → Aligned r (retired_member m)
unfolding retired_member
retired_member-Aligned r m e = ground arith

-- The loss of the attempt retired last is answered by a reset.
pub lost-Aligned :
    (r : SessionControlRequest) (m : Member) → same r.attempt m.retired ≡ true → Aligned r m
lost-Aligned r m e = ground arith

pub active-Aligned :
    (r : SessionControlRequest) (m : Member) → m.active ≢ [] → m.active ≡ r.attempt → Aligned r m
active-Aligned r m h e = ground arith

pub reset-Aligned : (r : SessionControlRequest) (m : Member) → m.reset ≡ true → Aligned r m
reset-Aligned r m e = ground arith

-- A grant in an answer is for the caller's own attempt, and has not run out.
abbrev pub GrantsOwn : SessionControlRequest → Time → SessionControlReply → Type 0
GrantsOwn r now y =
    (g : SessionGrant)
    → y.grant ≡ some g
    → (g.attempt ≡ r.attempt) × (now < g.deadline) × (y.reset ≡ false) × (y.ended ≡ false)

pub reply_reset :
    (s : SessionRecovery) (r : SessionControlRequest) (m : Member) (now : Time)
    → GrantsOwn r now (reply s m now true)
unfolding reply
reply_reset s r m now g e = cc

pub reply_kept :
    (s : SessionRecovery) (r : SessionControlRequest) (m : Member) (now : Time) (c : Text)
    → Aligned r m
    → GrantsOwn r now (
        reply s
          (expire_member now c m)
          now
          ((expire_member now c m).reset || same r.attempt (expire_member now c m).retired))
unfolding reply expire_member
reply_kept s r m now c v g e = ground arith

pub reply_given :
    (s t : SessionRecovery) (r : SessionControlRequest) (m : Member) (now : Time)
    → Aligned r m
    → Fit s now m
    → GrantsOwn r now (
        reply t
          (granted now m)
          now
          ((granted now m).reset || same r.attempt (granted now m).retired))
unfolding reply granted
reply_given s t r m now v f g e = ground (arith, f.inactive, f.steady)

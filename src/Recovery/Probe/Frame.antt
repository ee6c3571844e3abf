-- ===== src/Recovery/Probe/Frame.antt =====
-- What the calls of internal/mirror/session_recovery.go leave of a probe that is under way.
use terminal_redeemer.Base.{
  ltb, length, ℕ, zero, suc, ◌≡◌, Option, none, some, ◌>>=◌, Text, get, List, [], ◌∷◌, by_test,
  if◌then◌else◌,
}
use terminal_redeemer.Recovery.State.{
  Time, Member, SessionRecovery, SessionRetry, request_probe, expire,
}
use terminal_redeemer.Recovery.Admission.{
  Round, is_blocked, is_waiting, grant, try_member, rotated, admit_next, admit_loop, start, admit,
}

-- What there is holds P.
abbrev pub Whenever {ℓ} : {A : Type ℓ} → (A → Type 0) → Option A → Type 0
Whenever P none = Unit
Whenever P (some x) = P x

pub Whenever->>= {ℓ κ} :
    {A : Type ℓ} {B : Type κ} (P : A → Type 0) (Q : B → Type 0) (o : Option A) (f : A → Option B)
    → Whenever P o
    → ((x : A) → P x → Whenever Q (f x))
    → Whenever Q (o >>= f)
Whenever->>= P Q none f h k = tt
Whenever->>= P Q (some x) f h k = k x h

pub any_of {ℓ} : {A : Type ℓ} (o : Option A) → Whenever (λ _. Unit) o
any_of none = tt
any_of (some x) = tt

-- The state is in the same probe as `a`, with the same members to judge.
abbrev pub SameProbe : SessionRecovery → SessionRecovery → Type 0
SameProbe a s = (s.observing ≡ a.observing) × (s.checking ≡ a.checking) × (s.sequence ≡ a.sequence)

module _ (a : SessionRecovery) where
  abbrev InRound : Round → Type 0
  InRound x = SameProbe a x.state

  pub request_probe-SameProbe :
      (s : SessionRecovery) (now : Time) → SameProbe a s → SameProbe a (request_probe s now)
  unfolding request_probe
  request_probe-SameProbe s now v = by_test (SameProbe a) s.checking _ _ (λ _. v) (λ _. v)

  pub expire-SameProbe :
      (s : SessionRecovery) (now : Time) → SameProbe a s → SameProbe a (expire s now)
  unfolding expire
  expire-SameProbe s now v = v

  try_member-InRound :
      (now : Time) (c : Text) (m : Member) (x : Round)
      → InRound x
      → Whenever InRound (try_member now c m x)
  unfolding try_member grant
  try_member-InRound now c m x v =
      by_test (Whenever InRound) (is_blocked x.busy m) _ _ (λ _. v)
        (λ _. by_retry (get m.identity.session_id x.state.sessions))
    where
      by_retry :
          (o : Option SessionRetry)
          → Whenever InRound (elim o as (λ _. Option Round) [
            | none ↦ none
            | some retry ↦ if is_waiting x.state now m retry then some x else some (grant now c m x)
          ])
      by_retry none = tt
      by_retry (some retry) =
          by_test (Whenever InRound) (is_waiting x.state now m retry) _ _ (λ _. v) (λ _. v)

  admit_next-InRound :
      (now : Time) (order : List Text) (x : Round)
      → InRound x
      → Whenever InRound (admit_next now order x)
  unfolding admit_next rotated
  admit_next-InRound now [] x v = tt
  admit_next-InRound now (c ∷ rest) x v = by_member (get c x.state.members)
    where
      by_member :
          (o : Option Member)
          → Whenever InRound (elim o as (λ _. Option Round) [
            | none ↦ none
            | some m ↦ try_member now c m (rotated c rest x)
          ])
      by_member none = tt
      by_member (some m) = try_member-InRound now c m (rotated c rest x) v

  admit_loop-InRound :
      (n : ℕ) (now : Time) (x : Round) → InRound x → Whenever InRound (admit_loop now n x)
  unfolding admit_loop
  admit_loop-InRound zero now x v = v
  admit_loop-InRound (suc n) now x v =
      by_test (Whenever InRound) (ltb x.pending 2) _ _
        (λ _.
          Whenever->>= InRound InRound (admit_next now x.state.order x) (admit_loop now n)
            (admit_next-InRound now x.state.order x v) (λ y w. admit_loop-InRound n now y w))
        (λ _. v)

  pub admit-SameProbe :
      (s : SessionRecovery) (now : Time) → SameProbe a s → Whenever (SameProbe a) (admit s now)
  unfolding admit start expire
  admit-SameProbe s now v =
      by_test (Whenever (SameProbe a)) s.available _ _
        (λ _.
          Whenever->>= InRound (SameProbe a)
            (admit_loop now (length s.order) (start (expire s now))) (λ x. some x.state)
            (admit_loop-InRound (length s.order) now (start (expire s now)) v) (λ x w. w))
        (λ _. v)

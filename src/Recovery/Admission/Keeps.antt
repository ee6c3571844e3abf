-- ===== src/Recovery/Admission/Keeps.antt =====
-- The loop of `admit` in internal/mirror/session_recovery.go, and what becomes of each member.
use terminal_redeemer.Base.{
  get-map_entries, changed, ℕ, zero, suc, ◌≤◌, ◌<◌, ◌≡◌, refl, sym, ap, ◌∙◌, inl, inr, true, List,
  [], ◌∷◌, some, Text, get, seen, any, arith, ltb, length, length-append, Returns, Returns-mono,
  Returns->>=, not, ◌&&◌, by_test, Bool-cases, get-seen, Each-get,
}
use terminal_redeemer.Recovery.State.{
  Time, Member, SessionRecovery, expire, expire_member, is_pending,
}
use terminal_redeemer.Recovery.Roster.{Tracked, Inv, Roster-rotate}
use terminal_redeemer.Recovery.Admission.{
  Round, is_blocked, is_waiting, try_member, rotated, admit_next, admit_loop, start, admit, granted,
}
use terminal_redeemer.Recovery.Admission.Grants.{
  Fit, given, RoundInv, Fate, expire-Inv, count_pending-tally, free-tally, grant-RoundInv, kept,
}

-- Each round keeps what holds between rounds, whatever the head of the queue is.
try_member-RoundInv :
    (now : Time) (s : SessionRecovery) (c : Text) (m : Member) (a : Round)
    → RoundInv now s a
    → get c a.state.members ≡ some m
    → a.pending < 2
    → Returns (RoundInv now s) (try_member now c m a)
unfolding try_member
try_member-RoundInv now s c m a v e room = elim (Bool-cases (is_blocked a.busy m)) [
  | inl b ↦ rw b v
  | inr b ↦ rw b (
      let (retry, found) =
        get-seen m.identity.session_id a.state.sessions
          (Each-get (Tracked a.state.sessions) c a.state.members v.holds.tracked e) in
      rw found (elim (Bool-cases (is_waiting a.state now m retry)) [
        | inl w ↦ rw w v
        | inr w ↦ rw w (grant-RoundInv now s c m a v e room b retry found w)
      ]))
]

seen-head : (c : Text) (rest : List Text) → seen c (c ∷ rest) ≡ true
unfolding any
seen-head c rest = ground arith

rotated-RoundInv :
    (now : Time) (s : SessionRecovery) (c : Text) (rest : List Text) (a : Round)
    → a.state.order ≡ c ∷ rest
    → RoundInv now s a
    → RoundInv now s (rotated c rest a)
unfolding rotated
rotated-RoundInv now s c rest a q v = record {
  size = omega (arith, length-append rest (c ∷ []), v.size, ap length q);
  same_sessions = v.same_sessions;
  same_inventory = v.same_inventory;
  fates = v.fates;
  holds = Roster-rotate c rest q v.holds;
  exact = v.exact;
  free = v.free;
}

admit_next-RoundInv :
    (now : Time) (s : SessionRecovery) (order : List Text) (a : Round)
    → a.state.order ≡ order
    → 0 < length s.order
    → RoundInv now s a
    → a.pending < 2
    → Returns (RoundInv now s) (admit_next now order a)
unfolding admit_next
admit_next-RoundInv now s [] a q h v room = absurd (omega (arith, v.size, ap length q))
admit_next-RoundInv now s (c ∷ rest) a q h v room =
    let (m, e) =
      get-seen c a.state.members (sym (v.holds.queued c) ∙ (ap (seen c) q ∙ seen-head c rest)) in
    rw (e, admit_next)
      (try_member-RoundInv now s c m (rotated c rest a) (rotated-RoundInv now s c rest a q v) e
        room)

admit_loop-RoundInv :
    (k : ℕ) (now : Time) (s : SessionRecovery) (a : Round)
    → k ≤ length s.order
    → RoundInv now s a
    → Returns (RoundInv now s) (admit_loop now k a)
unfolding admit_loop
admit_loop-RoundInv zero now s a h v = v
admit_loop-RoundInv (suc k) now s a h v = elim (Bool-cases (ltb a.pending 2)) [
  | inl room ↦ rw room (
      Returns->>= (RoundInv now s) (RoundInv now s) (admit_next now a.state.order a)
        (admit_loop now k)
        (admit_next-RoundInv now s a.state.order a refl (omega arith) v (ground arith))
        (λ a' v'. admit_loop-RoundInv k now s a' (omega arith) v'))
  | inr full ↦ rw full v
]

start-RoundInv : (now : Time) (s : SessionRecovery) → Inv s → RoundInv now s (start s)
unfolding start
start-RoundInv now s v = record {
  size = refl;
  same_sessions = refl;
  same_inventory = refl;
  fates = λ c m e. (m, e, kept refl);
  holds = v;
  exact = count_pending-tally s.members;
  free = λ sid h. free-tally sid s.members h;
}

-- What admission does, seen from its start after the expiry in s.
pub record Admitted (s : SessionRecovery) (now : Time) (s' : SessionRecovery) : Type 0 where
  pub inv : Inv s'
  pub fates :
      (c : Text) (m : Member)
      → get c s.members ≡ some m
      → (m' : Member) × (get c s'.members ≡ some m') × Fate s now m m'

-- The same as is promised below, seen from the state after the expiry.
pub admit-Admitted :
    (s : SessionRecovery) (now : Time) → Inv s → Returns (Admitted (expire s now) now) (admit s now)
unfolding admit
admit-Admitted s now v =
    by_test (Returns (Admitted t now)) t.available _ _
      (λ _.
        Returns->>= (RoundInv now t) (Admitted t now) (admit_loop now (length t.order) (start t))
          (λ a. some a.state)
          (admit_loop-RoundInv (length t.order) now t (start t) (omega arith)
            (start-RoundInv now t still))
          (λ a w. record { inv = w.holds; fates = w.fates }))
      (λ _. record { inv = still; fates = λ c m e. (m, e, kept refl) })
  where
    t : SessionRecovery
    t = expire s now

    still : Inv t
    still = expire-Inv s now v

-- A member pends over its time.
abbrev Overdue : Time → Member → Type 0
Overdue now m = (is_pending m ≡ true) × (m.deadline ≤ now)

-- What becomes of a member of s: overdue, it is held back; else it stays, or is given a grant that it
-- is fit for, by the sessions and the inventory of s.
pub data Outcome (s : SessionRecovery) (now : Time) (m m' : Member) : Type 0 where
  held_back : Overdue now m → m' ≡ record m { reset = true } → Outcome s now m m'
  stays : ¬ Overdue now m → m' ≡ m → Outcome s now m m'
  admitted : ¬ Overdue now m → Fit s now m → m' ≡ granted now m → Outcome s now m m'

-- What admission does, seen from the state in which it is called.
pub record Admits (s : SessionRecovery) (now : Time) (s' : SessionRecovery) : Type 0 where
  pub inv : Inv s'
  pub outcomes :
      (c : Text) (m : Member)
      → get c s.members ≡ some m
      → (m' : Member) × ((get c s'.members ≡ some m') × Outcome s now m m')

expire-Fit :
    (s : SessionRecovery) (now : Time) (m : Member) → Fit (expire s now) now m → Fit s now m
unfolding expire
expire-Fit s now m fit = record {
  live = fit.live;
  steady = fit.steady;
  inactive = fit.inactive;
  offers = fit.offers;
  unused = fit.unused;
  rested = fit.rested;
  present = fit.present;
}

get-expire :
    (s : SessionRecovery) (now : Time) (c : Text) (m : Member)
    → get c s.members ≡ some m
    → get c (expire s now).members ≡ some (expire_member now c m)
unfolding expire
get-expire s now c m e =
    get-map_entries (expire_member now) c s.members ∙ ap (changed (expire_member now) c) e

expired-Outcome :
    (s : SessionRecovery) (now : Time) (c : Text) (m m' : Member)
    → Fate (expire s now) now (expire_member now c m) m'
    → Outcome s now m m'
unfolding expire_member
expired-Outcome s now c m m' f =
    by_test (λ x. Fate (expire s now) now x m' → Outcome s now m m')
      (is_pending m && not (ltb now m.deadline)) (record m { reset = true }) m
      (λ t g. overdue (ground (arith, t)) g) (λ t g. other (λ o. ground (arith, t, o)) g) f
  where
    overdue :
        Overdue now m → Fate (expire s now) now (record m { reset = true }) m' → Outcome s now m m'
    overdue o (kept e) = held_back o e
    overdue o (given fit e) = absurd (let r = fit.steady in cc)

    other : ¬ Overdue now m → Fate (expire s now) now m m' → Outcome s now m m'
    other n (kept e) = stays n e
    other n (given fit e) = admitted n (expire-Fit s now m fit) e

-- From a state with the invariant, admission returns and keeps the invariant, so that at most two
-- members pend and of different sessions. Exactly the members that pend over their time are held back;
-- of the others each stays as it is or is given a grant that it is fit for.
pub admit-Admits : (s : SessionRecovery) (now : Time) → Inv s → Returns (Admits s now) (admit s now)
admit-Admits s now v =
    Returns-mono (Admitted (expire s now) now) (Admits s now) (admit s now) (admit-Admitted s now v)
      (λ s' a. record {
        inv = a.inv;
        outcomes = λ c m e.
            let (m', g, f) = a.fates c (expire_member now c m) (get-expire s now c m e) in
            (m', (g, expired-Outcome s now c m m' f));
      })

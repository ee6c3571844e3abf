-- ===== src/Recovery/Admission/Grants.antt =====
-- One grant of `admit` in internal/mirror/session_recovery.go, and the invariant of its loop.
use terminal_redeemer.Base.{
  ◌≤◌, ◌<◌, ◌≡◌, refl, sym, ap, subst, ◌∙◌, ◌≢◌, true, false, List, [], ◌∷◌, some, Text, same, Map,
  get, put, seen, any, tally, tally-nil, tally-cons, bit, arith, length, get-put_same, get-put_ne,
  get_unique, text_discrete, Each-get, tally-put_old, bit_of_false,
}
use terminal_redeemer.Recovery.Inventory.{session_id_of}
use terminal_redeemer.Recovery.State.{
  Time, Member, SessionRetry, SessionRecovery, is_pending, expire, expire_member,
}
use terminal_redeemer.Recovery.Roster.{Sound, pends_in, Inv, Roster-map_entries, Roster-grant}
use terminal_redeemer.Recovery.Admission.{
  Round, count_pending, pending_sessions, is_blocked, is_waiting, granted, grant,
}

pub count_pending-tally : (ms : Map Member) → count_pending ms ≡ tally is_pending ms
unfolding count_pending
count_pending-tally [] = sym (tally-nil is_pending)
count_pending-tally ((id, m) ∷ ms) =
    ground (arith, tally-cons is_pending id m ms, count_pending-tally ms)

pub free-tally :
    (sid : Text) (ms : Map Member)
    → seen sid (pending_sessions ms) ≡ false
    → tally (pends_in sid) ms ≡ 0
unfolding pending_sessions any
free-tally sid [] h = tally-nil (pends_in sid)
free-tally sid ((id, m) ∷ ms) h =
    ground (arith, tally-cons (pends_in sid) id m ms, free-tally sid ms)

-- When a member may be granted its proposed attempt: it is neither ended nor held back, has no
-- attempt, proposes one that is not the one retired last, its session does not back off, and the
-- last observation has the very incarnation of its session.
pub record Fit (s : SessionRecovery) (now : Time) (m : Member) : Type 0 where
  pub live : m.ended ≡ false
  pub steady : m.reset ≡ false
  pub inactive : m.active ≡ []
  pub offers : m.proposed ≢ []
  pub unused : m.proposed ≢ m.retired
  pub rested :
      (retry : SessionRetry) × (get m.identity.session_id s.sessions ≡ some retry)
      × (retry.at ≤ now)
  pub present : session_id_of s.inventory m.identity.session ≡ m.identity.session_id

-- What admission makes of a member: nothing, or a grant if it is fit for one.
pub data Fate (s : SessionRecovery) (now : Time) (m m' : Member) : Type 0 where
  kept : m' ≡ m → Fate s now m m'
  given : Fit s now m → m' ≡ granted now m → Fate s now m m'

-- What holds between two rounds of the loop that began in s.
pub record RoundInv (now : Time) (s : SessionRecovery) (a : Round) : Type 0 where
  pub size : length a.state.order ≡ length s.order
  pub same_sessions : a.state.sessions ≡ s.sessions
  pub same_inventory : a.state.inventory ≡ s.inventory
  pub fates :
      (c : Text) (m : Member)
      → get c s.members ≡ some m
      → (m' : Member) × (get c a.state.members ≡ some m') × Fate s now m m'
  pub holds : Inv a.state
  pub exact : a.pending ≡ tally is_pending a.state.members
  pub free : (sid : Text) → seen sid a.busy ≡ false → tally (pends_in sid) a.state.members ≡ 0

expire_member-Sound :
    (now : Time) (c : Text) (m : Member) → Sound c m → Sound c (expire_member now c m)
unfolding expire_member
expire_member-Sound now c m v = ground arith

pub expire-Inv : (s : SessionRecovery) (now : Time) → Inv s → Inv (expire s now)
unfolding expire
expire-Inv s now v =
    Roster-map_entries (expire_member now) (expire_member-Sound now)
      (λ c m. unfold expire_member in ground arith) (λ c m. unfold expire_member in ground arith) v

blocked-false :
    (busy : List Text) (m : Member)
    → is_blocked busy m ≡ false
    → (m.ended ≡ false)
      × (m.active ≡ [])
      × (m.proposed ≢ m.retired)
      × (seen m.identity.session_id busy ≡ false)
      × (m.reset ≡ false)
unfolding is_blocked
blocked-false busy m h = ground arith

waiting-false :
    (s : SessionRecovery) (now : Time) (m : Member) (retry : SessionRetry)
    → is_waiting s now m retry ≡ false
    → (retry.at ≤ now) × (session_id_of s.inventory m.identity.session ≡ m.identity.session_id)
unfolding is_waiting
waiting-false s now m retry h = ground arith

granted-Sound :
    (now : Time) (c : Text) (m : Member)
    → m.ended ≡ false
    → m.active ≡ []
    → m.proposed ≢ m.retired
    → Sound c m
    → Sound c (granted now m)
unfolding granted
granted-Sound now c m e a p v = record {
  named = v.named;
  over = λ h. cc;
  attached = λ h. absurd (v.attached h a);
  offered = v.offered;
  fresh = λ _. p;
}

idle_of_inactive : (m : Member) → m.active ≡ [] → is_pending m ≡ false
idle_of_inactive m h = ground arith

granted-pends :
    (now : Time) (c : Text) (m : Member)
    → Sound c m
    → m.active ≡ []
    → is_pending (granted now m) ≡ true
unfolding granted
granted-pends now c m v h = ground (arith, v.attached, v.offered)

seen-cons-false :
    (sid x : Text) (xs : List Text)
    → seen sid (x ∷ xs) ≡ false
    → (same x sid ≡ false) × (seen sid xs ≡ false)
unfolding any
seen-cons-false sid x xs h = ground arith

-- No member is granted an attempt twice in one admission.
Fate-granted :
    (s : SessionRecovery) (now : Time) (m₀ m₁ m : Member)
    → Fate s now m₀ m₁
    → m₁ ≡ m
    → Fit s now m
    → Fate s now m₀ (granted now m)
unfolding granted
Fate-granted s now m₀ m₁ m (kept q) r fit =
    given (subst (Fit s now) (sym r ∙ q) fit) (ap (granted now) (sym r ∙ q))
Fate-granted s now m₀ m₁ m (given fit₀ q) r fit = absurd (
    fit₀.offers
      (sym (ap (λ (x : Member). x.active) q) ∙ (ap (λ (x : Member). x.active) r ∙ fit.inactive)))

pub grant-RoundInv :
    (now : Time) (s : SessionRecovery) (c : Text) (m : Member) (a : Round)
    → RoundInv now s a
    → get c a.state.members ≡ some m
    → a.pending < 2
    → is_blocked a.busy m ≡ false
    → (retry : SessionRetry) → get m.identity.session_id a.state.sessions ≡ some retry
    → is_waiting a.state now m retry ≡ false
    → RoundInv now s (grant now c m a)
unfolding grant
grant-RoundInv now s c m a v e room open_slot retry found awake = record {
  size = v.size;
  same_sessions = v.same_sessions;
  same_inventory = v.same_inventory;
  fates = fates;
  holds =
      Roster-grant c m (granted now m) v.holds e sound (unfold granted in refl)
        (omega (arith, v.exact)) unbusy;
  exact = omega (
    arith,
    v.exact,
    tally-put_old is_pending c m (granted now m) a.state.members e,
    was_idle,
    now_pends,
  );
  free = λ sid h.
      let (other, unseen) = seen-cons-false sid m.identity.session_id a.busy h in
      omega (
        arith,
        tally-put_old (pends_in sid) c m (granted now m) a.state.members e,
        v.free sid unseen,
        bit_of_false (is_pending (granted now m)) _ other,
      );
}
  where
    facts :
        (m.ended ≡ false)
        × (m.active ≡ [])
        × (m.proposed ≢ m.retired)
        × (seen m.identity.session_id a.busy ≡ false)
        × (m.reset ≡ false)
    facts = blocked-false a.busy m open_slot

    before : Sound c m
    before = Each-get Sound c a.state.members v.holds.sound e

    sound : Sound c (granted now m)
    sound = granted-Sound now c m facts.0 facts.1 facts.2 before

    unbusy : tally (pends_in m.identity.session_id) a.state.members ≡ 0
    unbusy = v.free m.identity.session_id facts.3

    was_idle : bit (is_pending m) ≡ 0
    was_idle = ap bit (idle_of_inactive m facts.1)

    fit : Fit s now m
    fit = record {
      live = facts.0;
      steady = facts.4;
      inactive = facts.1;
      offers = before.offered;
      unused = facts.2;
      rested = (retry, ap (get m.identity.session_id) (sym v.same_sessions) ∙ found, awake_facts.0);
      present = ap (λ i. session_id_of i m.identity.session) (sym v.same_inventory) ∙ awake_facts.1;
    }
      where
        awake_facts :
            (retry.at ≤ now)
            × (session_id_of a.state.inventory m.identity.session ≡ m.identity.session_id)
        awake_facts = waiting-false a.state now m retry awake

    fates :
        (c' : Text) (m₀ : Member)
        → get c' s.members ≡ some m₀
        → (m' : Member) × (get c' (put c (granted now m) a.state.members) ≡ some m')
          × Fate s now m₀ m'
    fates c' m₀ e₀ = elim (text_discrete c c') [
      | yes p ↦
          let (m₁, e₁, fate) = v.fates c' m₀ e₀ in
          (
            granted now m,
            get-put_same c c' (granted now m) a.state.members p,
            Fate-granted s now m₀ m₁ m fate (get_unique c' c a.state.members m₁ m (sym p) e₁ e) fit,
          )
      | no p ↦
          let (m₁, e₁, fate) = v.fates c' m₀ e₀ in
          (m₁, get-put_ne c c' (granted now m) a.state.members p ∙ e₁, fate)
    ]

    now_pends : bit (is_pending (granted now m)) ≡ 1
    now_pends = ap bit (granted-pends now c m before facts.1)

-- ===== src/Recovery/Probe/Verdict.antt =====
-- A probe of internal/mirror/session_recovery.go from its beginning, through the calls that come meanwhile,
-- to its end.
use terminal_redeemer.Base.{
  same, false, Bool, ltb, if◌then◌else◌, ℕ, ◌≡◌, refl, sym, ap, ◌∙◌, ◌≢◌, ◌⊎◌, ◌↔◌, inl, inr, true,
  not, ◌||◌, ◌&&◌, ◌==◌, List, [], ◌∷◌, Option, none, some, Text, Map, get, All, subst, arith,
  Returns, Returns-mono, by_test,
}
use terminal_redeemer.Recovery.Inventory.{SessionInventory, session_id_of, validate}
use terminal_redeemer.Recovery.State.{Time, Member, SessionRecovery}
use terminal_redeemer.Recovery.Roster.{Inv}
use terminal_redeemer.Recovery.Exchange.{exchange}
use terminal_redeemer.Recovery.Probe.{is_empty_map, any_waiting, refs, begin_probe, finish_probe}
use terminal_redeemer.Recovery.Probe.Keeps.{begin_probe-Inv}
use terminal_redeemer.Recovery.Probe.Evidence.{SeenGone, Judged, finish_probe-ends}
use terminal_redeemer.Recovery.Probe.Frame.{Whenever, Whenever->>=, SameProbe, admit-SameProbe}
use terminal_redeemer.Recovery.Probe.Messages.{exchange-InAnswer, remove-SameProbe}
use terminal_redeemer.Recovery.History.{
  Call, begins, finishes, exchanges, admits, removes, step, run, run-Inv,
}

-- The call is not the end of the probe.
abbrev pub Meanwhile : ℕ → Call → Type 0
Meanwhile sequence (finishes n _ _ _) = n ≢ sequence
Meanwhile sequence _ = Unit

begin_probe-busy :
    (s : SessionRecovery) (now : Time) → s.checking ≡ true → (begin_probe s now).0 ≡ s
unfolding begin_probe
begin_probe-busy s now h =
    by_test (λ (x : SessionRecovery × Option ℕ). x.0 ≡ s)
      (s.checking || is_empty_map s.members || ltb now s.next_probe) _ _ (λ _. refl)
      (λ f. absurd (ground (arith, f, h)))

finish_probe-other :
    (s : SessionRecovery) (sequence : ℕ) (now : Time) (inventory : SessionInventory)
    (error : Option Text)
    → sequence ≢ s.sequence
    → finish_probe s sequence now inventory error ≡ some s
unfolding finish_probe
finish_probe-other s sequence now inventory error n =
    by_test (λ o. o ≡ some s) (not s.checking || not (sequence == s.sequence)) _ _ (λ _. refl)
      (λ f. absurd (ground (arith, f, n)))

module _ (a : SessionRecovery) (busy : a.checking ≡ true) where
  step-SameProbe :
      (s : SessionRecovery) (c : Call)
      → Meanwhile a.sequence c
      → SameProbe a s
      → Whenever (SameProbe a) (step s c)
  unfolding step
  step-SameProbe s (begins now) d v =
      subst (SameProbe a) (sym (begin_probe-busy s now (v.1 ∙ busy))) v
  step-SameProbe s (finishes n now inventory error) d v =
      subst (Whenever (SameProbe a))
        (sym (finish_probe-other s n now inventory error (λ e. d (e ∙ v.2)))) v
  step-SameProbe s (exchanges r now) d v =
      Whenever->>= (λ x. SameProbe a x.0) (SameProbe a) (exchange s r now) (λ x. some x.0)
        (exchange-InAnswer a s r now v) (λ x w. w)
  step-SameProbe s (admits now) d v = admit-SameProbe a s now v
  step-SameProbe s (removes client) d v = remove-SameProbe a s client v

  run-SameProbe :
      (s : SessionRecovery) (cs : List Call)
      → All (Meanwhile a.sequence) cs
      → SameProbe a s
      → Whenever (SameProbe a) (run s cs)
  unfolding run
  run-SameProbe s [] d v = v
  run-SameProbe s (c ∷ cs) d v =
      Whenever->>= (SameProbe a) (SameProbe a) (step s c) (λ t. run t cs) (step-SameProbe s c d.0 v)
        (λ t w. run-SameProbe t cs d.1 w)

-- The client's member in s₀ is the very one of the number.
abbrev pub There : SessionRecovery → Text → ℕ → Type 0
There s₀ c ref = (m₀ : Member) × (get c s₀.members ≡ some m₀) × (m₀.ref ≡ ref)

get-refs :
    (c : Text) (ms : Map Member) (ref : ℕ)
    → get c (refs ms) ≡ some ref
    → (m : Member) × (get c ms ≡ some m) × (m.ref ≡ ref)
unfolding refs get
get-refs c [] ref = λ e. absurd (cc)
get-refs c ((i, m) ∷ ms) ref = by_key (same i c) (get c ms) (get-refs c ms ref)
  where
    by_key :
        (b : Bool) (o : Option Member)
        → (get c (refs ms) ≡ some ref → (k : Member) × (o ≡ some k) × (k.ref ≡ ref))
        → (if b then some m.ref else get c (refs ms)) ≡ some ref
        → (k : Member) × ((if b then some m else o) ≡ some k) × (k.ref ≡ ref)
    by_key true o f e = (m, refl, cc)
    by_key false o f e = f e

refs-get :
    (c : Text) (ms : Map Member) (m : Member) → get c ms ≡ some m → get c (refs ms) ≡ some m.ref
unfolding refs get
refs-get c [] m e = absurd (cc)
refs-get c ((i, k) ∷ ms) m e = ground (arith, refs-get c ms m)

-- How a probe begins.
record Began (s₀ : SessionRecovery) (sequence : ℕ) (s : SessionRecovery) : Type 0 where
  pub checking : s.checking ≡ true
  pub number : s.sequence ≡ sequence
  pub observing : s.observing ≡ refs s₀.members

begin_probe-Began :
    (s₀ : SessionRecovery) (now : Time) (sequence : ℕ)
    → (begin_probe s₀ now).1 ≡ some sequence
    → Began s₀ sequence (begin_probe s₀ now).0
unfolding begin_probe
begin_probe-Began s₀ now sequence =
    by_test (λ (x : SessionRecovery × Option ℕ). x.1 ≡ some sequence → Began s₀ sequence x.0)
      (s₀.checking || is_empty_map s₀.members || ltb now s₀.next_probe) _ _ (λ _ h. absurd (cc))
      (λ _.
        by_test (λ (x : SessionRecovery × Option ℕ). x.1 ≡ some sequence → Began s₀ sequence x.0)
          (not s₀.wanted && not (any_waiting s₀.members)) _ _ (λ _ h. absurd (cc))
          (λ _ h. record { checking = refl; number = cc; observing = refl }))

-- The members after the end of a probe that began in s₀: who is ended, and for what reason.
abbrev pub Verdict : SessionRecovery → SessionRecovery → SessionInventory → SessionRecovery → Type 0
Verdict s₀ s inventory s' =
    (c : Text) (m : Member)
    → get c s.members ≡ some m
    → (m' : Member) × (get c s'.members ≡ some m')
      × ((m'.ended ≡ true) ↔ (
          (m.ended ≡ true)
          ⊎ (There s₀ c m.ref
              × (session_id_of inventory m.identity.session ≢ m.identity.session_id))))

Judged-Verdict :
    (s₀ s s' : SessionRecovery) (inventory : SessionInventory)
    → s.observing ≡ refs s₀.members
    → Judged s inventory s'
    → Verdict s₀ s inventory s'
Judged-Verdict s₀ s s' inventory o j c m e =
    let (m', e', b) = j c m e in (m', e', (λ h. forth (b.0 h), λ h. b.1 (back h)))
  where
    Gone : Type 0
    Gone = session_id_of inventory m.identity.session ≢ m.identity.session_id

    forth :
        (m.ended ≡ true) ⊎ SeenGone s inventory c m → (m.ended ≡ true) ⊎ (There s₀ c m.ref × Gone)
    forth (inl x) = inl x
    forth (inr (g, n)) = inr (get-refs c s₀.members m.ref (sym (ap (get c) o) ∙ g), n)

    back :
        (m.ended ≡ true) ⊎ (There s₀ c m.ref × Gone) → (m.ended ≡ true) ⊎ SeenGone s inventory c m
    back (inl x) = inl x
    back (inr ((m₀, g, r), n)) = inr (ap (get c) o ∙ refs-get c s₀.members m₀ g ∙ ap some r, n)

-- A probe that begins in a state with the invariant returns at its end with a valid observation without an
-- error, whatever calls were made meanwhile, and it ends exactly the members that are the very ones that
-- were there at its beginning, and whose exact session the observation does not have.
pub begin_probe-finish_probe :
    (s₀ : SessionRecovery) (began : Time) (sequence : ℕ) (cs : List Call) (s : SessionRecovery)
    (now : Time) (inventory : SessionInventory)
    → Inv s₀
    → (begin_probe s₀ began).1 ≡ some sequence
    → All (Meanwhile sequence) cs
    → run (begin_probe s₀ began).0 cs ≡ some s
    → validate inventory ≡ none
    → Returns (Verdict s₀ s inventory) (finish_probe s sequence now inventory none)
begin_probe-finish_probe s₀ began sequence cs s now inventory v b d e good =
    let start = begin_probe-Began s₀ began sequence b in
    let a = (begin_probe s₀ began).0 in
    let kept = subst (Whenever (SameProbe a)) e (
      run-SameProbe a start.checking a cs (subst (λ n. All (Meanwhile n) cs) (sym start.number) d)
        (refl, refl, refl)) in
    let inv = subst (Returns Inv) e (run-Inv a cs (begin_probe-Inv s₀ began v)) in
    subst (λ n. Returns (Verdict s₀ s inventory) (finish_probe s n now inventory none))
      (kept.2 ∙ start.number)
      (Returns-mono (Judged s inventory) (Verdict s₀ s inventory)
        (finish_probe s s.sequence now inventory none)
        (finish_probe-ends s now inventory inv (kept.1 ∙ start.checking) good)
        (λ s'. Judged-Verdict s₀ s s' inventory (kept.0 ∙ start.observing)))

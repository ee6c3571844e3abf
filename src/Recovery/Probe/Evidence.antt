-- ===== src/Recovery/Probe/Evidence.antt =====
-- What a probe may conclude of the members.
use terminal_redeemer.Base.{
  ◌≡◌, refl, sym, ap, ◌∙◌, ◌≢◌, ◌⊎◌, ◌↔◌, true, none, some, Text, get, get-map_entries, arith,
  Returns, Returns-mono, by_test,
}
use terminal_redeemer.Recovery.Inventory.{SessionInventory, session_id_of, validate}
use terminal_redeemer.Recovery.State.{
  Time, Member, SessionRecovery, expire, expire_member, request_probe,
}
use terminal_redeemer.Recovery.Roster.{Inv}
use terminal_redeemer.Recovery.Admission.{granted, admit}
use terminal_redeemer.Recovery.Admission.Keeps.{Admitted, admit-Admitted}
use terminal_redeemer.Recovery.Admission.Grants.{Fate, kept, given}
use terminal_redeemer.Recovery.Exchange.Handling.{request_probe_members}
use terminal_redeemer.Recovery.Probe.Keeps.{probe_succeeded-Inv, recheck-Inv}
use terminal_redeemer.Recovery.Probe.{settle, probe_succeeded, recheck, finish_probe}

-- The member was there when the probe began, and its exact session is not in the observation.
abbrev pub SeenGone : SessionRecovery → SessionInventory → Text → Member → Type 0
SeenGone s inventory c m =
    (get c s.observing ≡ some m.ref)
    × (session_id_of inventory m.identity.session ≢ m.identity.session_id)

settle-ended :
    (s : SessionRecovery) (inventory : SessionInventory) (c : Text) (m : Member)
    → ((settle s.observing inventory c m).ended ≡ true)
      ↔ ((m.ended ≡ true) ⊎ SeenGone s inventory c m)
unfolding settle
settle-ended s inventory c m = (λ h. ground arith, λ h. ground arith)

recheck_members : (s : SessionRecovery) (now : Time) → (recheck s now).members ≡ s.members
unfolding recheck
recheck_members s now =
    by_test (λ (t : SessionRecovery). t.members ≡ s.members) _ (request_probe s now) s
      (λ _. request_probe_members s now) (λ _. refl)

Fate-ended :
    (s : SessionRecovery) (now : Time) (c : Text) (m m' : Member)
    → Fate s now (expire_member now c m) m'
    → m'.ended ≡ m.ended
unfolding granted expire_member
Fate-ended s now c m m' (kept q) = ap (λ (x : Member). x.ended) q ∙ ground arith
Fate-ended s now c m m' (given fit q) = ap (λ (x : Member). x.ended) q ∙ ground arith

finish_probe-admit :
    (s : SessionRecovery) (now : Time) (inventory : SessionInventory)
    → s.checking ≡ true
    → validate inventory ≡ none
    → finish_probe s s.sequence now inventory none
      ≡ admit (recheck (probe_succeeded s now inventory) now) now
unfolding finish_probe
finish_probe-admit s now inventory busy good = ground arith

ended-transfer :
    (s : SessionRecovery) (inventory : SessionInventory) (c : Text) (m m' : Member)
    → m'.ended ≡ (settle s.observing inventory c m).ended
    → (m'.ended ≡ true) ↔ ((m.ended ≡ true) ⊎ SeenGone s inventory c m)
ended-transfer s inventory c m m' q =
    (λ h. (settle-ended s inventory c m).0 (sym q ∙ h), λ h. q ∙ (settle-ended s inventory c m).1 h)

judged_at :
    (s : SessionRecovery) (now : Time) (inventory : SessionInventory) (c : Text) (m : Member)
    → get c s.members ≡ some m
    → get c (expire (recheck (probe_succeeded s now inventory) now) now).members
      ≡ some (expire_member now c (settle s.observing inventory c m))
unfolding expire probe_succeeded
judged_at s now inventory c m e = rw (
  get-map_entries (expire_member now) c (recheck (probe_succeeded s now inventory) now).members,
  recheck_members (probe_succeeded s now inventory) now,
  get-map_entries (settle s.observing inventory) c s.members,
  e,
)

-- The members after a good observation: who is ended, and for what reason.
abbrev pub Judged : SessionRecovery → SessionInventory → SessionRecovery → Type 0
Judged s inventory s' =
    (c : Text) (m : Member)
    → get c s.members ≡ some m
    → (m' : Member) × (get c s'.members ≡ some m')
      × ((m'.ended ≡ true) ↔ ((m.ended ≡ true) ⊎ SeenGone s inventory c m))

-- What the observation shows to be gone is ended, by the numbers that the state observes.
pub finish_probe-ends :
    (s : SessionRecovery) (now : Time) (inventory : SessionInventory)
    → Inv s
    → s.checking ≡ true
    → validate inventory ≡ none
    → Returns (Judged s inventory) (finish_probe s s.sequence now inventory none)
finish_probe-ends s now inventory v busy good = rw (finish_probe-admit s now inventory busy good) (
    Returns-mono (Admitted (expire done now) now) (Judged s inventory) (admit done now)
      (admit-Admitted done now (recheck-Inv _ now (probe_succeeded-Inv s now inventory v)))
      (λ s' a c m e.
        let (m', e', fate) =
          a.fates c (expire_member now c (settled c m)) (judged_at s now inventory c m e) in
        (
          m',
          e',
          ended-transfer s inventory c m m'
              (Fate-ended (expire done now) now c (settled c m) m' fate),
        )))
  where
    done : SessionRecovery
    done = recheck (probe_succeeded s now inventory) now

    settled : Text → Member → Member
    settled = settle s.observing inventory

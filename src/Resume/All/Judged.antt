-- ===== src/Resume/All/Judged.antt =====
-- internal/resume/planner_all.go: what a plan makes of one candidate, by the status that the catalog has for it.
use terminal_redeemer.Base.{
  ◌≡◌, refl, subst, ◌⊎◌, inl, inr, Bool, true, false, not, Option, none, some, Text, arith, get,
  Option-cases, by_test,
}
use terminal_redeemer.Model.{State, Checkpoint, RecoverySession}
use terminal_redeemer.Zellij.Catalog.{
  LiveStatus, active, dead_resurrectable, missing, prefix_only, duplicate, socket_invalid, unknown,
  Catalog, exact,
}
use terminal_redeemer.Resume.Selection.{Selection}
use terminal_redeemer.Resume.Items.{Item, Status, already_open, UnresolvedWorkspacePolicy}
use terminal_redeemer.Resume.Plan.Launches.{is_launch, is_some}
use terminal_redeemer.Resume.All.{
  AllScene, fall_back, retain, resolve_all_placement, attach_item, opened_item, block, judge,
  judge_name,
}
use terminal_redeemer.Resume.Candidates.{
  AllOptions, is_prior_source, is_stale, observed_placement, unobserved_placement,
  copy_recovery_placement, blank_item, occupied, candidate_item, recovery_of,
}

resolve_all_placement-session :
    (p : UnresolvedWorkspacePolicy) (i : Item) (now : State) (already : Bool)
    → (resolve_all_placement p i now already).session ≡ i.session
unfolding resolve_all_placement fall_back retain
resolve_all_placement-session p i now already = ground arith

-- An item that is open already stays so.
resolve_all_placement-status :
    (p : UnresolvedWorkspacePolicy) (i : Item) (now : State)
    → (resolve_all_placement p i now true).status ≡ i.status
unfolding resolve_all_placement retain
resolve_all_placement-status p i now = ground arith

attach_item-session : (scene : AllScene) (i : Item) → (attach_item scene i).session ≡ i.session
unfolding attach_item opened_item
attach_item-session scene i = elim (Option-cases (get i.session scene.open_windows)) [
  | inl e ↦
      rw (e, attach_item) (resolve_all_placement-session scene.policy i scene.current_state false)
  | inr (w, e) ↦
      rw (e, attach_item)
        (resolve_all_placement-session scene.policy (opened_item w i) scene.current_state true)
]

open_stays : {s : Status} → s ≡ already_open → is_launch s ≡ true → ⊥
open_stays {s = s} e h = ground arith

attach_item-launch :
    (scene : AllScene) (i : Item)
    → is_launch (attach_item scene i).status ≡ true
    → is_some (get i.session scene.open_windows) ≡ false
unfolding attach_item opened_item
attach_item-launch scene i = elim (Option-cases (get i.session scene.open_windows)) [
  | inl e ↦ λ h. rw e refl
  | inr (w, e) ↦
      rw (e, attach_item)
        (λ h. absurd (
          open_stays
            (resolve_all_placement-status scene.policy (opened_item w i) scene.current_state) h))
]

-- The status that lets a plan attach to a session.
abbrev pub Attachable : AllScene → LiveStatus → Type 0
Attachable scene status =
    (status ≡ active)
    ⊎ ((status ≡ dead_resurrectable)
        × (is_prior_source scene.selection.candidate_source ≡ true)
        × (is_stale scene.selection.status ≡ false))

-- What is said of an item of a plan, if there is one.
unfoldable pub OfItem : (Item → Type 0) → Option Item → Type 0
OfItem P none = Unit
OfItem P (some i) = P i

abbrev pub Fair : AllScene → LiveStatus → Text → Item → Type 0
Fair scene status s i =
    (i.session ≡ s)
    × (is_launch i.status ≡ true
        → Attachable scene status × (is_some (get s scene.open_windows) ≡ false))

attach_item-Fair :
    (scene : AllScene) (status : LiveStatus) (i : Item)
    → Attachable scene status
    → Fair scene status i.session (attach_item scene i)
attach_item-Fair scene status i a =
    (attach_item-session scene i, λ h. (a, attach_item-launch scene i h))

judge_dead-Fair :
    (scene : AllScene) (i : Item)
    → OfItem (Fair scene dead_resurrectable i.session) (judge scene dead_resurrectable i)
unfolding judge block OfItem
judge_dead-Fair scene i =
    by_test (OfItem F) (not (is_prior_source scene.selection.candidate_source)) none _ (λ _. tt)
      (λ p.
        by_test (OfItem F) (is_stale scene.selection.status) (some (block i))
          (some (attach_item scene i)) (λ _. (refl, λ h. absurd (cc)))
          (λ t. attach_item-Fair scene dead_resurrectable i (inr (refl, ground arith, t))))
  where
    F : Item → Type 0
    F = Fair scene dead_resurrectable i.session

judge-Fair :
    (scene : AllScene) (status : LiveStatus) (i : Item)
    → OfItem (Fair scene status i.session) (judge scene status i)
unfolding judge OfItem
judge-Fair scene active i = attach_item-Fair scene active _ (inl refl)
judge-Fair scene dead_resurrectable i = judge_dead-Fair scene i
judge-Fair scene missing i = (refl, λ h. absurd (cc))
judge-Fair scene prefix_only i = (refl, λ h. absurd (cc))
judge-Fair scene duplicate i = (refl, λ h. absurd (cc))
judge-Fair scene socket_invalid i = (refl, λ h. absurd (cc))
judge-Fair scene unknown i = (refl, λ h. absurd (cc))

copy_recovery_placement-session :
    (i : Item) (r : RecoverySession) (o : AllOptions)
    → (copy_recovery_placement i r o).session ≡ i.session
unfolding copy_recovery_placement observed_placement unobserved_placement
copy_recovery_placement-session i r o = ground arith

candidate_item-session :
    (selection : Selection) (c : Checkpoint) (catalog : Catalog) (o : AllOptions)
    (r : RecoverySession) (s : Text)
    → (candidate_item selection c catalog o r s).session ≡ s
unfolding candidate_item occupied blank_item
candidate_item-session selection c catalog o r s =
    copy_recovery_placement-session (blank_item selection catalog r s) r o

pub judge_name-Fair :
    (scene : AllScene) (s : Text)
    → OfItem (Fair scene (exact scene.catalog s).status s) (judge_name scene s)
unfolding judge_name
judge_name-Fair scene s =
    subst
      (λ t.
        OfItem (Fair scene (exact scene.catalog s).status t)
          (judge scene (exact scene.catalog s).status item))
      (candidate_item-session scene.selection scene.checkpoint scene.catalog scene.options
        (recovery_of scene.recoveries s) s)
      (judge-Fair scene (exact scene.catalog s).status item)
  where
    item : Item
    item =
        candidate_item scene.selection scene.checkpoint scene.catalog scene.options
          (recovery_of scene.recoveries s) s

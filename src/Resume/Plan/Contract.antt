-- ===== src/Resume/Plan/Contract.antt =====
-- The contract of `Build` in internal/resume/planner.go: what it launches, from which checkpoint.
use terminal_redeemer.Base.{
  ◌≡◌, refl, sym, ◌∙◌, ◌≢◌, ◌⊎◌, inl, inr, true, false, List, [], ◌∷◌, Option, none, some, Text,
  any, seen, Distinct, map, arith, Option-cases, subst,
}
use terminal_redeemer.Model.{Window, State, Checkpoint}
use terminal_redeemer.Resume.Selection.{
  CandidateStatus, Selection, SelectOptions, ready, stale, empty, not_found, select, assess, newest,
  is_candidate, terminal_windows,
}
use terminal_redeemer.Resume.Selection.Eligibility.{
  Eligible, InTime, Chooses, Assessed, select-Chooses,
}
use terminal_redeemer.Resume.Plan.{
  Scene, decide, open_item, launch_item, unresolved_item, build_items, stale_items, build,
  plan_items, items_of, noted, scene_of,
}
use terminal_redeemer.Resume.Items.{
  UnresolvedWorkspacePolicy, current, new_planner, Item, new_item, string_set,
}
use terminal_redeemer.Resume.Plan.Launches.{
  launches, shown_in, is_free, runs, current_session_windows_lem, terminal_windows_lem,
}
use terminal_redeemer.Resume.Plan.Rounds.{launched_sound, launched_complete, launched-Distinct}

-- A captured terminal runs the session, no current one does, and it is available.
pub record CanLaunch (captured current_state : State) (sessions : List Text) (s : Text)
    : Type 0 where
  pub named : s ≢ []
  pub was_shown : shown_in s captured ≡ true
  pub not_shown : shown_in s current_state ≡ false
  pub is_available : seen s (string_set sessions) ≡ true

pub record Reconciled (policy : UnresolvedWorkspacePolicy) (captured current_state : State)
    (sessions : List Text) (items : List Item) : Type 0 where
  pub one_each : map (λ i. i.window_key) items ≡ map (λ w. w.key) (terminal_windows captured)
  pub once : Distinct (launches items)
  pub sound :
      (s : Text) → seen s (launches items) ≡ true → CanLaunch captured current_state sessions s
  pub complete :
      (s : Text)
      → new_planner policy ≡ current
      → CanLaunch captured current_state sessions s
      → seen s (launches items) ≡ true

launch_item-key : (scene : Scene) (i : Item) → (launch_item scene i).window_key ≡ i.window_key
unfolding launch_item unresolved_item
launch_item-key scene i = ground arith

decide-key :
    (scene : Scene) (before : List Text) (i : Item)
    → (decide scene before i).window_key ≡ i.window_key
unfolding decide open_item
decide-key scene before i = ground (arith, launch_item-key scene i)

build_items-keys :
    (scene : Scene) (before : List Text) (ws : List Window)
    → map (λ i. i.window_key) (build_items scene before ws) ≡ map (λ w. w.key) ws
unfolding build_items new_item
build_items-keys scene before [] = refl
build_items-keys scene before (w ∷ ws) =
    rw
      (
        decide-key scene before (new_item w scene.captured),
        build_items-keys scene (noted (new_item w scene.captured).session before) ws,
      )
      refl

module _ (policy : UnresolvedWorkspacePolicy) (c : Checkpoint) (now : State)
    (sessions : List Text) where
  abbrev scene : Scene
  scene = scene_of policy c now sessions

  free-CanLaunch :
      (s : Text)
      → is_free scene s ≡ true
      → runs s (terminal_windows c.state) ≡ true
      → CanLaunch c.state now sessions s
  free-CanLaunch s h r =
      let n : s ≢ [] = ground (arith, h) in
      record {
        named = n;
        was_shown = sym (terminal_windows_lem s c.state) ∙ r;
        not_shown = sym (current_session_windows_lem s now n) ∙ ground (arith, h);
        is_available = ground (arith, h);
      }

  CanLaunch-free : (s : Text) → CanLaunch c.state now sessions s → is_free scene s ≡ true
  CanLaunch-free s v =
      let n = current_session_windows_lem s now v.named in
      ground (arith, n, v.named, v.not_shown, v.is_available)

  plan_items-Reconciled :
      Reconciled policy c.state now sessions (plan_items policy ready c now sessions)
  unfolding plan_items any
  plan_items-Reconciled = record {
    one_each = build_items-keys scene [] (terminal_windows c.state);
    once = launched-Distinct scene [] (terminal_windows c.state);
    sound = λ s h.
        let r = launched_sound scene s [] (terminal_windows c.state) h in free-CanLaunch s r.0 r.2;
    complete = λ s p v.
        launched_complete scene s [] (terminal_windows c.state) p (CanLaunch-free s v) refl
          (terminal_windows_lem s c.state ∙ v.was_shown);
  }

-- From a ready selection, each captured terminal gets one item, no session is launched twice, and
-- only a session is that a captured terminal ran, that no current terminal runs and that is
-- available; each such session is launched where the policy is to stay on the current workspace.
pub build-Reconciled :
    (policy : UnresolvedWorkspacePolicy) (selection : Selection) (c : Checkpoint) (now : State)
    (sessions : List Text)
    → selection.checkpoint ≡ some c
    → selection.status ≡ ready
    → Reconciled policy c.state now sessions (build policy selection now sessions).items
unfolding build items_of
build-Reconciled policy selection c now sessions e r =
    rw (e, r) (plan_items-Reconciled policy c now sessions)

stale_items-launches : (state : State) (ws : List Window) → launches (stale_items state ws) ≡ []
unfolding stale_items launches
stale_items-launches state [] = refl
stale_items-launches state (w ∷ ws) = stale_items-launches state ws

-- What `Select` followed by `Build` launches.
pub record Launch (o : SelectOptions) (checkpoints : List Checkpoint) (now : State)
    (sessions : List Text) (s : Text) : Type 0 where
  pub source : Checkpoint
  pub newest : Chooses (Eligible o) checkpoints (some source)
  pub in_time : InTime o source.observed_at
  pub can : CanLaunch source.state now sessions s

module _ (policy : UnresolvedWorkspacePolicy) (now : State) (sessions : List Text) (s : Text) where
  plan_items-status :
      (status : CandidateStatus) (c : Checkpoint)
      → seen s (launches (plan_items policy status c now sessions)) ≡ true
      → (status ≡ ready) ⊎ (status ≡ not_found)
  unfolding plan_items launches any
  plan_items-status ready c h = inl refl
  plan_items-status not_found c h = inr refl
  plan_items-status empty c h = cc
  plan_items-status stale c h = cc (stale_items-launches c.state (terminal_windows c.state))

  items_of-status :
      (selection : Selection) (x : Option Checkpoint)
      → seen s (launches (items_of policy selection x now sessions)) ≡ true
      → (c : Checkpoint) × (x ≡ some c)
        × ((selection.status ≡ ready) ⊎ (selection.status ≡ not_found))
  unfolding items_of launches any
  items_of-status selection none h = absurd (cc)
  items_of-status selection (some c) h = (c, refl, plan_items-status selection.status c h)

-- A selection with a checkpoint is not one that found none.
assess-found : (o : SelectOptions) (c : Checkpoint) → (assess o c).status ≢ not_found
unfolding assess
assess-found o c e = ground arith

select-found :
    (cs : List Checkpoint) (o : SelectOptions) (c : Checkpoint)
    → (select cs o).checkpoint ≡ some c
    → (select cs o).status ≢ not_found
unfolding select
select-found cs o c = elim (Option-cases (newest (is_candidate o) none cs)) [
  | inl e ↦ rw (e, select) (λ h k. absurd (cc))
  | inr (b, e) ↦ rw (e, select) (λ h. assess-found o b)
]

observed_of : {b c : Checkpoint} → some b ≡ some c → b.observed_at ≡ c.observed_at
observed_of p = cc

select-Launch :
    (policy : UnresolvedWorkspacePolicy) (o : SelectOptions) (cs : List Checkpoint) (now : State)
    (sessions : List Text) (s : Text) (c : Checkpoint)
    → seen s (launches (build policy (select cs o) now sessions).items) ≡ true
    → (select cs o).checkpoint ≡ some c
    → (select cs o).status ≡ ready
    → Launch o cs now sessions s
select-Launch policy o cs now sessions s c h e r =
    let chosen = select-Chooses cs o in
    record {
      source = c;
      newest = subst (Chooses (Eligible o) cs) e chosen.0;
      in_time = young (select cs o).checkpoint e chosen.1;
      can = (build-Reconciled policy (select cs o) c now sessions e r).sound s h;
    }
  where
    young :
        (x : Option Checkpoint)
        → x ≡ some c
        → Assessed o (λ c. terminal_windows c.state ≢ []) (select cs o) x
        → InTime o c.observed_at
    young none p a = absurd (cc)
    young (some b) p a = subst (InTime o) (observed_of p) ((a.0 r).0)

-- A resume launches a session only if the newest eligible checkpoint of another boot is young enough
-- and has a terminal that ran the session, no current terminal runs it, and it is available; it
-- never goes back to an older checkpoint.
pub build-select-Launch :
    (policy : UnresolvedWorkspacePolicy) (o : SelectOptions) (cs : List Checkpoint) (now : State)
    (sessions : List Text) (s : Text)
    → seen s (launches (build policy (select cs o) now sessions).items) ≡ true
    → Launch o cs now sessions s
unfolding build
build-select-Launch policy o cs now sessions s h =
    let (c, e, status) =
      items_of-status policy now sessions s (select cs o) (select cs o).checkpoint h in
    elim status [
      | inl r ↦ select-Launch policy o cs now sessions s c h e r
      | inr n ↦ absurd (select-found cs o c e n)
    ]

-- ===== src/Resume/All.antt =====
-- internal/resume/planner_all.go: the plan of all sessions, from the catalog of this boot or from the
-- allow-list of a prior one.
pub mod Judged
pub mod Attachments
mod Samples
use terminal_redeemer.Base.{
  ℕ, Bool, true, false, not, ◌&&◌, ◌||◌, ◌==◌, List, [], ◌∷◌, ◌++◌, Option, none, some, Text, codes,
  same, if◌then◌else◌, ltb, trim_space, keep, sort_by, text_ltb, pos, Map, get, put,
}
use terminal_redeemer.Model.{
  WorkspaceRef, Terminal, Window, State, RecoverySession, Checkpoint, window_before,
}
use terminal_redeemer.Zellij.Catalog.{
  LiveStatus, active, dead_resurrectable, unknown, Session, Catalog, exact,
}
use terminal_redeemer.Resume.Selection.{
  CandidateStatus, CandidateSource, current_active, prior_active, Selection, checkpoint_age,
  is_terminal,
}
use terminal_redeemer.Resume.Workspaces.{
  WorkspaceTarget, resolve_workspace, captured_column_occupied, no_ref,
}
use terminal_redeemer.Resume.Plan.{summarize, Plan, boot_of, time_of}
use terminal_redeemer.Resume.Items.{
  sticky_unresolved, Status, UnresolvedWorkspacePolicy, new_planner, ItemReason, unplaced_skip,
  unplaced_fail, unplaced_current, resurrection_blocked, excluded, open_elsewhere, no_reason,
  PlacementSource, no_placement, current_sticky, prior_recovery, PlacementWarning, no_warning,
  not_observed, too_old, too_old_allowed, too_old_blocked, Item, session_of, runtime_window_id,
}
use terminal_redeemer.Resume.Candidates.{
  AllOptions, is_prior_source, is_stale, metadata, recovery_of, candidate_names,
  current_exact_session_windows, candidate_item,
}

unfoldable pub fall_back : UnresolvedWorkspacePolicy → Item → Item
fall_back UnresolvedWorkspacePolicy.skip item = record item {
  status = Status.skipped;
  reason = unplaced_skip;
}
fall_back UnresolvedWorkspacePolicy.fail item = record item {
  status = Status.failed;
  reason = unplaced_fail;
}
fall_back _ item = record item { status = Status.degraded; reason = unplaced_current }

abbrev is_unwarned : PlacementWarning → Bool
is_unwarned no_warning = true
is_unwarned _ = false

unfoldable pub retain : Item → Item
retain item =
    if is_unwarned item.placement_warning
    then record item { placement_warning = sticky_unresolved }
    else item

abbrev sticky_target : Item → State → Option WorkspaceTarget
sticky_target item current_state = elim item.captured_placement [
  | none ↦ none
  | some p ↦ resolve_workspace item.captured_workspace current_state.workspaces
]

unfoldable pub resolve_all_placement : UnresolvedWorkspacePolicy → Item → State → Bool → Item
unfolding fall_back retain
resolve_all_placement policy item current_state already = elim (sticky_target item current_state) [
  | some target ↦ record item {
    workspace = some target;
    status = if already then item.status else Status.ready;
  }
  | none ↦ if already then retain item else fall_back policy item
]

-- A warning of age, made more precise.
abbrev refined : PlacementWarning → PlacementWarning → PlacementWarning
refined too_old w = w
refined w _ = w

-- What is the same for all candidates.
pub record AllScene : Type 0 where
  pub policy : UnresolvedWorkspacePolicy
  pub selection : Selection
  pub checkpoint : Checkpoint
  pub current_state : State
  pub catalog : Catalog
  pub options : AllOptions
  pub recoveries : Map RecoverySession
  pub open_windows : Map Window

unfoldable pub opened_item : Window → Item → Item
opened_item w item = record item {
  status = Status.already_open;
  reason = open_elsewhere;
  current_window_key = w.key;
  current_window_id = runtime_window_id w.key;
}

-- The end of a round, for a session that can be attached.
unfoldable pub attach_item : AllScene → Item → Item
unfolding resolve_all_placement opened_item
attach_item scene item = elim (get item.session scene.open_windows) [
  | none ↦ resolve_all_placement scene.policy item scene.current_state false
  | some w ↦ resolve_all_placement scene.policy (opened_item w item) scene.current_state true
]

unfoldable pub block : Item → Item
block item = record item {
  placement_warning = refined item.placement_warning too_old_blocked;
  status = Status.stale;
  reason = resurrection_blocked;
}

-- One round by the catalog's status; `none` leaves the candidate out.
unfoldable pub judge : AllScene → LiveStatus → Item → Option Item
unfolding attach_item block
judge scene active item = some (
    attach_item scene
      (record item { placement_warning = refined item.placement_warning too_old_allowed }))
judge scene dead_resurrectable item =
    if not (is_prior_source scene.selection.candidate_source)
    then none
    else if is_stale scene.selection.status
    then some (block item)
    else some (attach_item scene item)
judge scene _ item = some (record item { status = Status.unavailable; reason = excluded })

unfoldable pub judge_name : AllScene → Text → Option Item
unfolding judge candidate_item recovery_of
judge_name scene name = judge scene (exact scene.catalog name).status (
    candidate_item scene.selection scene.checkpoint scene.catalog scene.options
      (recovery_of scene.recoveries name) name)

abbrev pub cons_some {ℓ} : {A : Type ℓ} → Option A → List A → List A
cons_some none xs = xs
cons_some (some x) xs = x ∷ xs

unfoldable pub build_all_items : AllScene → List Text → List Item
unfolding judge_name
build_all_items scene [] = []
build_all_items scene (name ∷ names) =
    cons_some (judge_name scene name) (build_all_items scene names)

abbrev pub all_scene :
    UnresolvedWorkspacePolicy → Selection → Checkpoint → State → Catalog → AllOptions → AllScene
all_scene policy selection c current_state catalog options = record {
  policy = new_planner policy;
  selection = selection;
  checkpoint = c;
  current_state = current_state;
  catalog = catalog;
  options = options;
  recoveries = metadata [] c.recovery.sessions;
  open_windows = current_exact_session_windows current_state;
}

abbrev pub is_empty_status : CandidateStatus → Bool
is_empty_status CandidateStatus.empty = true
is_empty_status _ = false

unfoldable pub all_items_of :
    UnresolvedWorkspacePolicy
    → Selection
    → Option Checkpoint
    → State
    → Catalog
    → AllOptions
    → List Item
unfolding build_all_items
all_items_of policy selection none current_state catalog options = []
all_items_of policy selection (some c) current_state catalog options =
    if is_empty_status selection.status
    then []
    else build_all_items (all_scene policy selection c current_state catalog options)
        (candidate_names selection c catalog)

unfoldable pub build_all :
    UnresolvedWorkspacePolicy → Selection → State → Catalog → AllOptions → Plan
unfolding all_items_of
build_all policy selection current_state catalog options =
    let items = all_items_of policy selection selection.checkpoint current_state catalog options in
    record {
      candidate_status = selection.status;
      candidate_source = selection.candidate_source;
      boot_id = boot_of selection.checkpoint;
      captured_at = time_of selection.checkpoint;
      age = selection.age;
      reason = selection.reason;
      items = items;
      summary = summarize items;
    }

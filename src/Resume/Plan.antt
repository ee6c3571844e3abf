-- ===== src/Resume/Plan.antt =====
-- internal/resume/planner.go: the plan of a plain resume.
pub mod Launches
pub mod Rounds
pub mod Contract
pub mod Totals
mod Samples
use terminal_redeemer.Base.{
  ℕ, suc, ◌+◌, Bool, true, false, not, ◌&&◌, ◌||◌, List, [], ◌∷◌, Option, none, some, Text, same,
  if◌then◌else◌, trim_space, seen, any, sort_by, keep, ◌*◌, ◌-◌, ◌^◌, ◌==◌, ◌>>=◌, between, ltb, ℤ,
  pos, Map, get, put,
}
use terminal_redeemer.Model.{
  Workspace, WorkspaceRef, Placement, Terminal, Window, State, Checkpoint, window_before,
}
use terminal_redeemer.Zellij.Catalog.{LiveStatus}
use terminal_redeemer.Resume.Selection.{
  Selection, CandidateStatus, CandidateSource, no_source, SelectionReason, is_terminal,
  terminal_windows,
}
use terminal_redeemer.Resume.Workspaces.{
  WorkspaceTarget, resolve_workspace, captured_workspace_ref, captured_column_occupied, no_ref,
}
use terminal_redeemer.Resume.Items.{
  unresolved, unresolved_current, Status, UnresolvedWorkspacePolicy, new_planner, Item, new_item,
  current_session_windows, runtime_window_id, string_set, ready, restored, already_open,
  unavailable, degraded, stale, failed, skipped, current, fail, from_selection, no_session,
  duplicate_session, open_elsewhere, session_unavailable, unresolved_retained,
}

-- What `Build` reads while it goes through the captured windows.
pub record Scene : Type 0 where
  pub policy : UnresolvedWorkspacePolicy
  pub captured : State
  pub current : State
  pub open_windows : Map Window
  pub available : List Text

unfoldable pub unresolved_item : UnresolvedWorkspacePolicy → Item → Item
unresolved_item current item = record item { status = degraded; reason = unresolved_current }
unresolved_item fail item = record item { status = failed; reason = unresolved }
unresolved_item _ item = record item { status = skipped; reason = unresolved }

unfoldable pub open_item : Scene → Window → Item → Item
unfolding runtime_window_id
open_item scene w item =
    let target = resolve_workspace item.captured_workspace scene.current.workspaces in
    record item {
      status = already_open;
      reason = open_elsewhere;
      current_window_key = w.key;
      current_window_id = runtime_window_id w.key;
      workspace = target;
      placement_warning = elim target [
        | none ↦ unresolved_retained
        | some t ↦ item.placement_warning
      ];
    }

unfoldable pub launch_item : Scene → Item → Item
unfolding unresolved_item
launch_item scene item =
    if not (seen item.session scene.available)
    then record item { status = unavailable; reason = session_unavailable }
    else elim (resolve_workspace item.captured_workspace scene.current.workspaces) [
      | none ↦ unresolved_item scene.policy item
      | some target ↦ record item { status = ready; workspace = some target }
    ]

-- One round of the loop in `Build`, over the sessions that came before.
unfoldable pub decide : Scene → List Text → Item → Item
unfolding open_item launch_item
decide scene before item =
    if same item.session []
    then record item { status = unavailable; reason = no_session }
    else if seen item.session before
    then record item { status = skipped; reason = duplicate_session }
    else elim (get item.session scene.open_windows) [
      | none ↦ launch_item scene item
      | some w ↦ open_item scene w item
    ]

unfoldable pub noted : Text → List Text → List Text
noted session before = if same session [] || seen session before then before else session ∷ before

unfoldable pub build_items : Scene → List Text → List Window → List Item
unfolding decide noted new_item
build_items scene before [] = []
build_items scene before (w ∷ ws) =
    let item = new_item w scene.captured in
    decide scene before item ∷ build_items scene (noted item.session before) ws

unfoldable pub stale_items : State → List Window → List Item
unfolding new_item
stale_items state [] = []
stale_items state (w ∷ ws) =
    record (new_item w state) { status = stale; reason = from_selection } ∷ stale_items state ws

pub record Summary : Type 0 where
  pub ready : ℕ
  pub restored : ℕ
  pub already_open : ℕ
  pub unavailable : ℕ
  pub degraded : ℕ
  pub stale : ℕ
  pub failed : ℕ
  pub skipped : ℕ

unfoldable pub count_status : Status → Summary → Summary
count_status Status.undecided n = n
count_status Status.ready n = record n { ready = n.ready + 1 }
count_status Status.restored n = record n { restored = n.restored + 1 }
count_status Status.already_open n = record n { already_open = n.already_open + 1 }
count_status Status.unavailable n = record n { unavailable = n.unavailable + 1 }
count_status Status.degraded n = record n { degraded = n.degraded + 1 }
count_status Status.stale n = record n { stale = n.stale + 1 }
count_status Status.failed n = record n { failed = n.failed + 1 }
count_status Status.skipped n = record n { skipped = n.skipped + 1 }

unfoldable pub count_items : Summary → List Item → Summary
unfolding count_status
count_items n [] = n
count_items n (i ∷ is) = count_items (count_status i.status n) is

abbrev pub no_items : Summary
no_items = record {
  ready = 0;
  restored = 0;
  already_open = 0;
  unavailable = 0;
  degraded = 0;
  stale = 0;
  failed = 0;
  skipped = 0;
}

unfoldable pub summarize : List Item → Summary
unfolding count_items
summarize items = count_items no_items items

pub record Plan : Type 0 where
  pub candidate_status : CandidateStatus
  pub candidate_source : CandidateSource
  pub boot_id : Text
  pub captured_at : ℕ
  pub age : ℕ
  pub reason : SelectionReason
  pub items : List Item
  pub summary : Summary

abbrev pub scene_of : UnresolvedWorkspacePolicy → Checkpoint → State → List Text → Scene
scene_of policy c current_state sessions = record {
  policy = new_planner policy;
  captured = c.state;
  current = current_state;
  open_windows = current_session_windows current_state;
  available = string_set sessions;
}

-- The items of `Build` for the checkpoint of a selection.
unfoldable pub plan_items :
    UnresolvedWorkspacePolicy → CandidateStatus → Checkpoint → State → List Text → List Item
unfolding build_items stale_items
plan_items policy CandidateStatus.empty c current_state sessions = []
plan_items policy CandidateStatus.stale c current_state sessions =
    stale_items c.state (terminal_windows c.state)
plan_items policy _ c current_state sessions =
    build_items (scene_of policy c current_state sessions) [] (terminal_windows c.state)

abbrev pub boot_of : Option Checkpoint → Text
boot_of none = []
boot_of (some c) = c.boot_id

abbrev pub time_of : Option Checkpoint → ℕ
time_of none = 0
time_of (some c) = c.observed_at

unfoldable pub items_of :
    UnresolvedWorkspacePolicy → Selection → Option Checkpoint → State → List Text → List Item
unfolding plan_items
items_of policy selection none current_state sessions = []
items_of policy selection (some c) current_state sessions =
    plan_items policy selection.status c current_state sessions

unfoldable pub build : UnresolvedWorkspacePolicy → Selection → State → List Text → Plan
unfolding items_of summarize
build policy selection current_state sessions =
    let items = items_of policy selection selection.checkpoint current_state sessions in
    record {
      candidate_status = selection.status;
      candidate_source = selection.candidate_source;
      boot_id = boot_of selection.checkpoint;
      captured_at = time_of selection.checkpoint;
      age = selection.age;
      reason = selection.reason;
      items = items;
      summary = summarize items;
    }

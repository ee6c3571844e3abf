-- ===== src/Capture/Inventory.antt =====
-- `buildRecoveryInventory` of internal/capture/runner.go.
pub mod Valid
pub mod Recall
use terminal_redeemer.Base.{
  ℕ, Bool, true, false, not, ◌&&◌, ◌||◌, ◌==◌, List, [], ◌∷◌, Option, none, some, Text, same, seen,
  length, ℤ, pos, same_int, ltb_ℤ, Map, get, put, map, keep, first, sort_by, text_ltb, trim_space,
  if◌then◌else◌,
}
use terminal_redeemer.Model.{
  Workspace, WorkspaceRef, Placement, Terminal, Window, State, RecoverySession, RecoveryInventory,
  Checkpoint,
}
use terminal_redeemer.Model.Normalize.{normalize_recovery}
use terminal_redeemer.Checkpoints.{is_blank, is_one, is_some}
use terminal_redeemer.Zellij.Catalog.{Catalog, Session, LiveStatus, active, dead_resurrectable}
use terminal_redeemer.Capture.Occupancy.{complete_recovery_placement, recovery_column_occupied}

abbrev pub bare_session : Text → RecoverySession
bare_session name = record {
  name = name;
  cwd = [];
  workspace_ref = none;
  placement = none;
  placement_observed_at = none;
  captured_column_occupied = false;
  visible = false;
}

unfoldable pub bare_sessions : List Text → Map RecoverySession → Map RecoverySession
unfolding put
bare_sessions [] by_name = by_name
bare_sessions (name ∷ names) by_name = bare_sessions names (put name (bare_session name) by_name)

abbrev pub fill_cwd : RecoverySession → RecoverySession → RecoverySession
fill_cwd prior current =
    if same current.cwd [] && not (same prior.cwd [])
    then record current { cwd = prior.cwd }
    else current

abbrev pub fill_placement : RecoverySession → RecoverySession → RecoverySession
fill_placement prior current =
    if not (is_some current.placement_observed_at) && is_some prior.placement_observed_at
    then record current {
      workspace_ref = prior.workspace_ref;
      placement = prior.placement;
      placement_observed_at = prior.placement_observed_at;
      captured_column_occupied = prior.captured_column_occupied;
    }
    else current

unfoldable pub fill_session : RecoverySession → RecoverySession → RecoverySession
fill_session prior current = fill_placement prior (fill_cwd prior current)

abbrev pub refill :
    RecoverySession → Option RecoverySession → Map RecoverySession → Map RecoverySession
refill prior none by_name = by_name
refill prior (some current) by_name = put prior.name (fill_session prior current) by_name

unfoldable pub fill_prior : RecoverySession → Map RecoverySession → Map RecoverySession
unfolding get put fill_session
fill_prior prior by_name = refill prior (get prior.name by_name) by_name

unfoldable pub fill_checkpoint : List RecoverySession → Map RecoverySession → Map RecoverySession
unfolding fill_prior
fill_checkpoint [] by_name = by_name
fill_checkpoint (prior ∷ priors) by_name = fill_checkpoint priors (fill_prior prior by_name)

-- The history is oldest first, and the loop goes backwards.
unfoldable pub fill_history : List Checkpoint → Map RecoverySession → Map RecoverySession
unfolding fill_checkpoint
fill_history [] by_name = by_name
fill_history (c ∷ cs) by_name = fill_checkpoint c.recovery.sessions (fill_history cs by_name)

-- `visible[name]` for an active name.
unfoldable pub is_tagged : Text → Window → Bool
is_tagged name w = elim w.terminal [
  | none ↦ false
  | some t ↦ t.session_tag_exact && same t.session_tag name
]

-- The working directory of the window's terminal, trimmed.
abbrev pub window_cwd : Option Terminal → Text
window_cwd none = []
window_cwd (some t) = trim_space t.cwd

abbrev pub set_cwd : Text → RecoverySession → RecoverySession
set_cwd cwd s = if not (same cwd []) then record s { cwd = cwd } else s

unfoldable pub observe_placement : State → ℕ → Window → RecoverySession → RecoverySession
unfolding recovery_column_occupied
observe_placement state observed_at w s =
    if complete_recovery_placement w
    then record s {
      workspace_ref = w.workspace_ref;
      placement = w.placement;
      captured_column_occupied = recovery_column_occupied state w;
      placement_observed_at = some observed_at;
    }
    else s

-- A resolver, where there is one, gives no text for an error.
abbrev pub Resolver : Type 0
Resolver = Option (Text → Option Text)

abbrev pub trimmed : Option Text → Text
trimmed none = []
trimmed (some cwd) = trim_space cwd

abbrev pub resolved_cwd : Resolver → Text → Text
resolved_cwd none name = []
resolved_cwd (some resolve) name = trimmed (resolve name)

unfoldable pub observe_session :
    State → ℕ → Resolver → Text → List Window → RecoverySession → RecoverySession
unfolding observe_placement
observe_session state observed_at resolver name (w ∷ []) s =
    observe_placement state observed_at w
      (set_cwd (window_cwd w.terminal) (record s { visible = true }))
observe_session state observed_at resolver name [] s =
    set_cwd (resolved_cwd resolver name) (record s { visible = false })
observe_session state observed_at resolver name (_ ∷ _ ∷ _) s =
    set_cwd (resolved_cwd resolver name) (record s { visible = true })

-- The record of a name that is not in the map is empty.
abbrev pub or_empty : Option RecoverySession → RecoverySession
or_empty none = bare_session []
or_empty (some s) = s

unfoldable pub recovery_session :
    State → ℕ → Resolver → Map RecoverySession → Text → RecoverySession
unfolding get keep is_tagged observe_session
recovery_session state observed_at resolver by_name name =
    observe_session state observed_at resolver name (keep (is_tagged name) state.windows)
      (or_empty (get name by_name))

unfoldable pub build_recovery_inventory :
    State → List Text → List Checkpoint → ℕ → Resolver → RecoveryInventory
unfolding bare_sessions fill_history recovery_session normalize_recovery
build_recovery_inventory state active_names history observed_at resolver =
    let by_name = fill_history history (bare_sessions active_names []) in
    normalize_recovery (record {
      active_sessions = active_names;
      sessions = map (recovery_session state observed_at resolver by_name) active_names;
    })

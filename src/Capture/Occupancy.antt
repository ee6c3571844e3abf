-- ===== src/Capture/Occupancy.antt =====
-- internal/capture/runner.go: `completeRecoveryPlacement`, `recoveryColumnOccupied` and what it calls.
use terminal_redeemer.Base.{
  Bool, true, false, not, ◌&&◌, ◌||◌, List, [], ◌∷◌, Option, none, some, Text, same, ℤ, pos,
  same_int, ltb_ℤ, if◌then◌else◌,
}
use terminal_redeemer.Model.{Workspace, WorkspaceRef, Placement, Window, State}
use terminal_redeemer.Checkpoints.{is_one, is_some}

abbrev pub is_true : Option Bool → Bool
is_true none = false
is_true (some b) = b

abbrev pub is_floating_or_placed : Option Placement → Bool
is_floating_or_placed none = false
is_floating_or_placed (some p) = is_true p.is_floating || (is_some p.column && is_some p.row)

abbrev pub complete_recovery_placement : Window → Bool
complete_recovery_placement w = is_some w.workspace_ref && is_floating_or_placed w.placement

abbrev pub is_above_zero : ℤ → Bool
is_above_zero i = ltb_ℤ (pos 0) i

abbrev pub is_useful : WorkspaceRef → Bool
is_useful ref = not (same ref.name []) || not (same ref.output []) || is_above_zero ref.index

abbrev pub workspace_ref_of : Workspace → WorkspaceRef
workspace_ref_of w = record { name = w.name; output = w.output; index = w.index }

abbrev pub useful_ref : Option WorkspaceRef → Option WorkspaceRef → Option WorkspaceRef
useful_ref none other = other
useful_ref (some ref) other = if is_useful ref then some ref else other

unfoldable pub workspace_ref_by_id : Text → List Workspace → Option WorkspaceRef
workspace_ref_by_id id [] = none
workspace_ref_by_id id (w ∷ ws) =
    if not (same id []) && same w.id id
    then some (workspace_ref_of w)
    else workspace_ref_by_id id ws

unfoldable pub recovery_workspace_ref : Window → List Workspace → Option WorkspaceRef
unfolding workspace_ref_by_id
recovery_workspace_ref w workspaces =
    useful_ref w.workspace_ref (workspace_ref_by_id w.workspace_id workspaces)

unfoldable pub same_ref : Option WorkspaceRef → Option WorkspaceRef → Bool
same_ref none right = false
same_ref (some left) none = false
same_ref (some left) (some right) =
    if not (same left.name []) && not (same right.name [])
    then same left.name right.name
    else if not (same left.output [])
        && not (same right.output [])
        && is_above_zero left.index
        && is_above_zero right.index
    then same left.output right.output && same_int left.index right.index
    else is_above_zero left.index && same_int left.index right.index

unfoldable pub same_captured_workspace : List Workspace → Window → Window → Bool
unfolding recovery_workspace_ref same_ref
same_captured_workspace workspaces left right =
    if not (same left.workspace_id []) && not (same right.workspace_id [])
    then same left.workspace_id right.workspace_id
    else same_ref (recovery_workspace_ref left workspaces) (recovery_workspace_ref right workspaces)

-- The other window has no known column, or this one.
abbrev pub may_share : ℤ → Option Placement → Bool
may_share column none = true
may_share column (some p) = elim p.column [ none ↦ true | some c ↦ same_int c column ]

unfoldable pub is_column_shared : State → Window → ℤ → List Window → Bool
unfolding same_captured_workspace
is_column_shared state target column [] = false
is_column_shared state target column (other ∷ others) =
    let rest = is_column_shared state target column others in
    if same other.key target.key || not (same_captured_workspace state.workspaces target other)
    then rest
    else if may_share column other.placement
    then true
    else rest

abbrev pub occupied_at : State → Window → Option ℤ → Option ℤ → Bool
occupied_at state target none row = false
occupied_at state target (some column) row =
    if not (is_one row) then false else is_column_shared state target column state.windows

abbrev pub occupied_by : State → Window → Option Placement → Bool
occupied_by state target none = false
occupied_by state target (some p) = occupied_at state target p.column p.row

unfoldable pub recovery_column_occupied : State → Window → Bool
unfolding is_column_shared
recovery_column_occupied state target = occupied_by state target target.placement

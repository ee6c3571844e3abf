-- ===== src/Resume/Workspaces.antt =====
-- internal/resume/planner.go: the workspace that a captured one resolves to, and the workspace of a
-- captured window.
pub mod Preference
use terminal_redeemer.Base.{
  ℕ, Bool, true, false, not, ◌&&◌, ◌||◌, List, [], ◌∷◌, Option, none, some, Text, same,
  if◌then◌else◌, trim_space, first, any, ℤ, pos, ltb_ℤ, same_int, sort_by,
}
use terminal_redeemer.Model.{
  Workspace, WorkspaceRef, Placement, Window, State, Terminal, workspace_before,
}

pub data Method : Type 0 where
  name output_index index : Method

pub record WorkspaceTarget : Type 0 where
  pub id : Text
  pub name : Text
  pub output : Text
  pub index : ℤ
  pub method : Method

unfoldable pub workspace_target : Workspace → Method → WorkspaceTarget
workspace_target w method = record {
  id = w.id;
  name = w.name;
  output = w.output;
  index = w.index;
  method = method;
}

abbrev pub is_positive : ℤ → Bool
is_positive i = ltb_ℤ (pos 0) i

-- The three loops, each with the condition before it.
unfoldable pub by_name : WorkspaceRef → Workspace → Bool
by_name ref w =
    not (same (trim_space ref.name) []) && same (trim_space w.name) (trim_space ref.name)

unfoldable pub by_output_index : WorkspaceRef → Workspace → Bool
by_output_index ref w =
    not (same (trim_space ref.output) [])
    && is_positive ref.index
    && same (trim_space w.output) (trim_space ref.output)
    && same_int w.index ref.index

unfoldable pub by_index : WorkspaceRef → Workspace → Bool
by_index ref w = is_positive ref.index && same_int w.index ref.index

abbrev target_or : Option Workspace → Method → Option WorkspaceTarget → Option WorkspaceTarget
target_or none method rest = rest
target_or (some w) method rest = some (workspace_target w method)

unfoldable pub resolve_sorted : WorkspaceRef → List Workspace → Option WorkspaceTarget
unfolding by_name by_output_index by_index workspace_target
resolve_sorted ref ws = target_or (first (by_name ref) ws) name (
    target_or (first (by_output_index ref) ws) output_index
      (target_or (first (by_index ref) ws) index none))

unfoldable pub resolve_workspace : WorkspaceRef → List Workspace → Option WorkspaceTarget
unfolding resolve_sorted
resolve_workspace ref current = resolve_sorted ref (sort_by workspace_before current)

unfoldable pub is_informative : WorkspaceRef → Bool
is_informative ref =
    not (same (trim_space ref.name) [])
    || not (same (trim_space ref.output) [])
    || is_positive ref.index

abbrev pub no_ref : WorkspaceRef
no_ref = record { name = []; output = []; index = pos 0 }

abbrev ref_of : Option Workspace → WorkspaceRef
ref_of none = no_ref
ref_of (some w) = record { name = w.name; output = w.output; index = w.index }

unfoldable pub ref_by_id : Window → List Workspace → WorkspaceRef
ref_by_id window ws =
    ref_of (first (λ w. same (trim_space w.id) (trim_space window.workspace_id)) ws)

unfoldable pub captured_workspace_ref : Window → List Workspace → WorkspaceRef
unfolding ref_by_id is_informative
captured_workspace_ref window ws = elim window.workspace_ref [
  | none ↦ ref_by_id window ws
  | some ref ↦ if is_informative ref then ref else ref_by_id window ws
]

unfoldable pub same_workspace_ref : WorkspaceRef → WorkspaceRef → Bool
same_workspace_ref left right =
    if not (same left.name []) && not (same right.name [])
    then same left.name right.name
    else if not (same left.output [])
        && not (same right.output [])
        && is_positive left.index
        && is_positive right.index
    then same left.output right.output && same_int left.index right.index
    else is_positive left.index && same_int left.index right.index

abbrev is_at : ℤ → Option ℤ → Bool
is_at i none = false
is_at i (some j) = same_int j i

abbrev column_of : Option Placement → Option ℤ
column_of none = none
column_of (some p) = p.column

abbrev tag_of : Option Terminal → Option Text
tag_of none = none
tag_of (some t) = some (trim_space t.session_tag)

abbrev has_tag : Option Text → Text → Bool
has_tag none session = false
has_tag (some tag) session = same tag session

-- The tests of the loop in `capturedColumnOccupied` on one window.
unfoldable pub shares_column : State → WorkspaceRef → ℤ → Text → Text → Window → Bool
unfolding captured_workspace_ref same_workspace_ref
shares_column state ref column key session w =
    not (same w.key key)
    && is_at column (column_of w.placement)
    && not (same key [] && has_tag (tag_of w.terminal) session)
    && same_workspace_ref ref (captured_workspace_ref w state.workspaces)

unfoldable pub captured_column_occupied :
    State → WorkspaceRef → Option Placement → Text → Text → Bool
unfolding shares_column
captured_column_occupied state ref none key session = false
captured_column_occupied state ref (some p) key session = elim p.column [
  | none ↦ false
  | some column ↦
      is_at (pos 1) p.row && any (shares_column state ref column key session) state.windows
]

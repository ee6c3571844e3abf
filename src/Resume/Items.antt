-- ===== src/Resume/Items.antt =====
-- internal/resume/planner.go: the items of a plan, and the sessions that are open now.
use terminal_redeemer.Base.{
  ℕ, ◌+◌, Bool, not, ◌&&◌, List, [], ◌∷◌, Option, none, some, Text, same, if◌then◌else◌, trim_space,
  sort_by, ◌*◌, ◌-◌, ◌^◌, ◌==◌, ◌>>=◌, between, ltb, Map, get, put,
}
use terminal_redeemer.Model.{WorkspaceRef, Placement, Terminal, Window, State, window_before}
use terminal_redeemer.Zellij.Catalog.{LiveStatus}
use terminal_redeemer.Resume.Selection.{CandidateSource, no_source, is_terminal}
use terminal_redeemer.Resume.Workspaces.{
  WorkspaceTarget, captured_workspace_ref, captured_column_occupied,
}

pub data Status : Type 0 where
  undecided ready restored already_open unavailable degraded stale failed skipped : Status

pub data UnresolvedWorkspacePolicy : Type 0 where
  skip current fail other : UnresolvedWorkspacePolicy

-- `NewPlanner`: a policy that is none of the three becomes the current workspace.
unfoldable pub new_planner : UnresolvedWorkspacePolicy → UnresolvedWorkspacePolicy
new_planner other = current
new_planner policy = policy

pub data ItemReason : Type 0 where
  resurrection_blocked excluded unplaced_skip unplaced_fail unplaced_current : ItemReason
  no_reason from_selection no_session duplicate_session open_elsewhere session_unavailable
        unresolved_current unresolved :
      ItemReason

pub data PlacementSource : Type 0 where
  unset no_placement current_sticky prior_recovery : PlacementSource

pub data PlacementWarning : Type 0 where
  no_warning not_observed too_old too_old_allowed too_old_blocked unresolved_retained
        sticky_unresolved :
      PlacementWarning

-- The fields of an item that a plan decides. The texts that only explain are constructors.
pub record Item : Type 0 where
  pub window_key : Text
  pub app_id : Text
  pub session : Text
  pub cwd : Text
  pub status : Status
  pub reason : ItemReason
  pub candidate_source : CandidateSource
  pub zellij_status : Option LiveStatus
  pub placement_source : PlacementSource
  pub placement_observed_at : Option ℕ
  pub placement_age : ℕ
  pub placement_warning : PlacementWarning
  pub current_window_key : Text
  pub current_window_id : ℕ
  pub captured_workspace : WorkspaceRef
  pub captured_placement : Option Placement
  pub captured_column_occupied : Bool
  pub workspace : Option WorkspaceTarget

abbrev pub session_of : Option Terminal → Text
session_of none = []
session_of (some t) = trim_space t.session_tag

abbrev cwd_of : Option Terminal → Text
cwd_of none = []
cwd_of (some t) = trim_space t.cwd

unfoldable pub new_item : Window → State → Item
new_item w state =
    let ref = captured_workspace_ref w state.workspaces in
    let session = session_of w.terminal in
    record {
      window_key = w.key;
      app_id = w.app_id;
      session = session;
      cwd = cwd_of w.terminal;
      status = undecided;
      reason = no_reason;
      candidate_source = no_source;
      zellij_status = none;
      placement_source = unset;
      placement_observed_at = none;
      placement_age = 0;
      placement_warning = no_warning;
      current_window_key = [];
      current_window_id = 0;
      captured_workspace = ref;
      captured_placement = w.placement;
      captured_column_occupied = captured_column_occupied state ref w.placement w.key session;
      workspace = none;
    }

-- The first window of each session is kept.
unfoldable pub note_open : Map Window → Window → Map Window
note_open out w =
    let tag = session_of w.terminal in
    if is_terminal w.app_id && not (same tag [])
    then elim (get tag out) [ none ↦ put tag w out | some _ ↦ out ]
    else out

unfoldable pub open_from : Map Window → List Window → Map Window
unfolding note_open
open_from out [] = out
open_from out (w ∷ ws) = open_from (note_open out w) ws

-- In the order of the windows' keys.
unfoldable pub current_session_windows : State → Map Window
unfolding open_from
current_session_windows state = open_from [] (sort_by window_before state.windows)

-- `strconv.Atoi` on a text of digits.
digits_value : ℕ → Text → Option ℕ
digits_value n [] = some n
digits_value n (c ∷ s) = if between b'0' b'9' c then digits_value (n * 10 + (c - b'0')) s else none

-- `strconv.Atoi`, as far as it gives a positive number: a plus sign, digits, at most 2^63 - 1.
positive_int : Text → Option ℕ
unfolding digits_value
positive_int [] = none
positive_int (c ∷ s) =
    let unsigned = if c == b'+' then s else c ∷ s in
    if same unsigned []
    then none
    else (digits_value 0 unsigned >>= λ n. if not (n == 0) && ltb n (2 ^ 63) then some n else none)

-- The text behind the last colon.
after_colon : Text → Option Text
after_colon [] = none
after_colon (c ∷ s) = elim (after_colon s) [
  | none ↦ if c == b':' then some s else none
  | some t ↦ some t
]

-- `runtimeWindowID`, with 0 for an error.
unfoldable pub runtime_window_id : Text → ℕ
unfolding positive_int after_colon
runtime_window_id key = elim (after_colon key >>= positive_int) [ none ↦ 0 | some n ↦ n ]

unfoldable pub string_set : List Text → List Text
string_set [] = []
string_set (v ∷ vs) =
    let rest = string_set vs in if same (trim_space v) [] then rest else trim_space v ∷ rest

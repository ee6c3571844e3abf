-- ===== src/Resume/Candidates.antt =====
-- internal/resume/planner_all.go: the candidates of a plan of all sessions, and their placements.
use terminal_redeemer.Base.{
  ℕ, Bool, true, false, not, ◌&&◌, ◌||◌, ◌==◌, List, [], ◌∷◌, ◌++◌, Option, none, some, Text, codes,
  same, if◌then◌else◌, ltb, trim_space, keep, sort_by, text_ltb, Map, get, put,
}
use terminal_redeemer.Model.{
  WorkspaceRef, Terminal, Window, State, RecoverySession, Checkpoint, window_before,
}
use terminal_redeemer.Zellij.Catalog.{LiveStatus, active, Catalog, exact}
use terminal_redeemer.Resume.Selection.{
  CandidateStatus, CandidateSource, current_active, prior_active, Selection, checkpoint_age,
  is_terminal,
}
use terminal_redeemer.Resume.Workspaces.{captured_column_occupied, no_ref}
use terminal_redeemer.Resume.Items.{
  Status, no_reason, no_placement, current_sticky, prior_recovery, no_warning, not_observed,
  too_old, Item, session_of,
}

pub record AllOptions : Type 0 where
  pub now : ℕ
  pub max_age : ℕ

abbrev pub is_active : LiveStatus → Bool
is_active active = true
is_active _ = false

abbrev pub is_current_source : CandidateSource → Bool
is_current_source current_active = true
is_current_source _ = false

abbrev pub is_prior_source : CandidateSource → Bool
is_prior_source prior_active = true
is_prior_source _ = false

abbrev pub is_stale : CandidateStatus → Bool
is_stale CandidateStatus.stale = true
is_stale _ = false

-- Of entries with one name the last one counts.
unfoldable pub metadata : Map RecoverySession → List RecoverySession → Map RecoverySession
metadata out [] = out
metadata out (r ∷ rs) = metadata (put r.name r out) rs

abbrev no_recovery : RecoverySession
no_recovery = record {
  name = [];
  cwd = [];
  workspace_ref = none;
  placement = none;
  placement_observed_at = none;
  captured_column_occupied = false;
  visible = false;
}

unfoldable pub recovery_of : Map RecoverySession → Text → RecoverySession
recovery_of sessions name = elim (get name sessions) [ none ↦ no_recovery | some r ↦ r ]

unfoldable pub candidate_names : Selection → Checkpoint → Catalog → List Text
candidate_names selection c catalog =
    if is_current_source selection.candidate_source
    then sort_by text_ltb (keep (λ name. is_active (exact catalog name).status) catalog.names)
    else sort_by text_ltb c.recovery.active_sessions

abbrev pub is_exact : Option Terminal → Bool
is_exact none = false
is_exact (some t) = t.session_tag_exact

unfoldable pub note_exact : Map Window → Window → Map Window
note_exact out w =
    let tag = session_of w.terminal in
    if is_terminal w.app_id && is_exact w.terminal && not (same tag [])
    then elim (get tag out) [ none ↦ put tag w out | some _ ↦ out ]
    else out

unfoldable pub exact_from : Map Window → List Window → Map Window
unfolding note_exact
exact_from out [] = out
exact_from out (w ∷ ws) = exact_from (note_exact out w) ws

unfoldable pub current_exact_session_windows : State → Map Window
unfolding exact_from
current_exact_session_windows state = exact_from [] (sort_by window_before state.windows)

abbrev ref_or : Option WorkspaceRef → WorkspaceRef → WorkspaceRef
ref_or none ref = ref
ref_or (some r) ref = r

unfoldable pub observed_placement : Item → RecoverySession → AllOptions → ℕ → Item
observed_placement item recovery options at =
    let age = checkpoint_age at options.now in
    record item {
      captured_workspace = ref_or recovery.workspace_ref item.captured_workspace;
      captured_placement = recovery.placement;
      placement_observed_at = some at;
      placement_age = age;
      placement_warning =
          if not (options.max_age == 0) && ltb options.max_age age
          then too_old
          else item.placement_warning;
    }

unfoldable pub unobserved_placement : Item → Item
unobserved_placement item = record item {
  placement_source = no_placement;
  placement_warning = not_observed;
}

unfoldable pub copy_recovery_placement : Item → RecoverySession → AllOptions → Item
unfolding observed_placement unobserved_placement
copy_recovery_placement item recovery options = elim recovery.placement_observed_at [
  | none ↦ unobserved_placement item
  | some at ↦
      if at == 0 then unobserved_placement item else observed_placement item recovery options at
]

-- The item of a candidate, before its status is decided.
unfoldable pub blank_item : Selection → Catalog → RecoverySession → Text → Item
blank_item selection catalog recovery name = record {
  window_key = codes "recovery:" ++ name;
  app_id = codes "kitty";
  session = name;
  cwd = trim_space recovery.cwd;
  status = Status.undecided;
  reason = no_reason;
  candidate_source = selection.candidate_source;
  zellij_status = some (exact catalog name).status;
  placement_source =
      if is_current_source selection.candidate_source then current_sticky else prior_recovery;
  placement_observed_at = none;
  placement_age = 0;
  placement_warning = no_warning;
  current_window_key = [];
  current_window_id = 0;
  captured_workspace = no_ref;
  captured_placement = none;
  captured_column_occupied = false;
  workspace = none;
}

-- `CapturedColumnOccupied` is set from the placement that was copied.
unfoldable pub occupied : Checkpoint → RecoverySession → Text → Item → Item
occupied c recovery name item = record item {
  captured_column_occupied =
      recovery.captured_column_occupied
      || captured_column_occupied c.state item.captured_workspace item.captured_placement [] name;
}

unfoldable pub candidate_item :
    Selection → Checkpoint → Catalog → AllOptions → RecoverySession → Text → Item
unfolding blank_item copy_recovery_placement occupied
candidate_item selection c catalog options recovery name =
    occupied c recovery name
      (copy_recovery_placement (blank_item selection catalog recovery name) recovery options)

-- ===== src/Resume/Plan/Samples.antt =====
-- A resume of three terminals after a reboot; the theorems at this input.
use terminal_redeemer.Base.{
  length, ◌≡◌, refl, true, List, [], ◌∷◌, none, some, false, Text, codes, pos, text_discrete,
  ℕ_discrete, ℤ_discrete, trim_space, to_lower, any, seen, keep, sort_by, first, get, put, text_ltb,
}
use terminal_redeemer.Model.{Window, State, Workspace, Checkpoint, window_before, workspace_before}
use terminal_redeemer.Resume.Selection.{
  SelectOptions, Selection, select, assess, newest, newer, is_candidate, checkpoint_age,
  is_terminal, terminal_windows, ready,
}
use terminal_redeemer.Resume.Workspaces.{
  resolve_workspace, resolve_sorted, by_name, by_output_index, by_index, captured_workspace_ref,
  captured_column_occupied, ref_by_id, is_informative, same_workspace_ref, shares_column,
}
use terminal_redeemer.Resume.Plan.{
  build, items_of, plan_items, build_items, decide, launch_item, open_item, unresolved_item, noted,
}
use terminal_redeemer.Resume.Items.{
  UnresolvedWorkspacePolicy, new_item, new_planner, string_set, current_session_windows, open_from,
  note_open,
}
use terminal_redeemer.Resume.Plan.Launches.{launches}
use terminal_redeemer.Resume.Plan.Contract.{
  Reconciled, Launch, build-Reconciled, build-select-Launch,
}
use terminal_redeemer.Resume.Plan.Totals.{total, build-total}

abbrev kitty : Text → Text → Window
kitty key session = record {
  key = key;
  app_id = codes "kitty";
  workspace_id = codes "7";
  workspace_ref = none;
  pid = pos 41;
  title = [];
  is_focused = false;
  placement = none;
  terminal = some (record {
    cwd = codes "/src";
    process_tags = [];
    session_tag = session;
    session_tag_exact = true;
  });
}

abbrev desk : Workspace
desk = record { id = codes "7"; index = pos 2; name = codes "desk"; output = codes "DP-1" }

-- Two captured sessions, one of them in two windows.
abbrev before : Checkpoint
before = record {
  boot_id = codes "boot-1";
  host = codes "host";
  profile = codes "default";
  observed_at = 100;
  state = record {
    workspaces = desk ∷ [];
    windows =
        kitty (codes "w:1") (codes "main")
        ∷ kitty (codes "w:2") (codes "main")
        ∷ kitty (codes "w:3") (codes "logs")
        ∷ [];
  };
  state_hash = [];
  recovery = record { active_sessions = []; sessions = [] };
  integrity_hash = [];
}

-- One of the sessions is open again.
abbrev after : State
after = record { workspaces = []; windows = kitty (codes "w:9") (codes "logs") ∷ [] }

abbrev options : SelectOptions
options = record {
  current_boot_id = codes "boot-2";
  host = codes "host";
  profile = [];
  now = 300;
  max_age = 500;
}

abbrev sessions : List Text
sessions = codes "logs" ∷ codes " main" ∷ []

abbrev chosen : Selection
chosen = select (before ∷ []) options

chosen_ready : chosen.status ≡ ready
unfolding select assess newest newer is_candidate checkpoint_age is_terminal terminal_windows
    text_discrete ℕ_discrete trim_space to_lower any keep sort_by window_before text_ltb
chosen_ready = refl

chosen_before : chosen.checkpoint ≡ some before
unfolding select assess newest newer is_candidate checkpoint_age is_terminal terminal_windows
    text_discrete ℕ_discrete trim_space to_lower any keep sort_by window_before text_ltb
chosen_before = refl

main_launched :
    launches (build UnresolvedWorkspacePolicy.current chosen after sessions).items
    ≡ codes "main" ∷ []
unfolding select assess newest newer is_candidate checkpoint_age is_terminal terminal_windows
    text_discrete ℕ_discrete trim_space to_lower any keep sort_by build items_of plan_items
    build_items decide launch_item open_item unresolved_item new_item noted new_planner string_set
    current_session_windows open_from note_open launches resolve_workspace resolve_sorted by_name
    by_output_index by_index captured_workspace_ref captured_column_occupied ref_by_id
    is_informative same_workspace_ref shares_column window_before workspace_before text_ltb first
    get put ℤ_discrete
main_launched = refl

main_in :
    seen
      (codes "main")
      (launches (build UnresolvedWorkspacePolicy.current chosen after sessions).items)
    ≡ true
unfolding any text_discrete ℕ_discrete
main_in = rw main_launched refl

build-Reconciled_example :
    Reconciled UnresolvedWorkspacePolicy.current before.state after sessions
      (build UnresolvedWorkspacePolicy.current chosen after sessions).items
build-Reconciled_example =
    build-Reconciled UnresolvedWorkspacePolicy.current chosen before after sessions chosen_before
      chosen_ready

build-select-Launch_example : Launch options (before ∷ []) after sessions (codes "main")
build-select-Launch_example =
    build-select-Launch UnresolvedWorkspacePolicy.current options (before ∷ []) after sessions
      (codes "main") main_in

build-total_example :
    total (build UnresolvedWorkspacePolicy.current chosen after sessions).summary
    ≡ length (build UnresolvedWorkspacePolicy.current chosen after sessions).items
build-total_example = build-total UnresolvedWorkspacePolicy.current chosen after sessions

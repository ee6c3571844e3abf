-- ===== src/Resume/Samples.antt =====
-- Two checkpoints of two boots, and the workspaces of a compositor; the theorems at these inputs.
use terminal_redeemer.Base.{
  ℕ, ◌≡◌, refl, ◌≢◌, List, [], ◌∷◌, none, some, Text, codes, pos, false, true, ℤ_discrete,
  text_discrete, ℕ_discrete, trim_space, to_lower, any, keep, sort_by, first, text_ltb,
}
use terminal_redeemer.Model.{Workspace, WorkspaceRef, Window, Checkpoint, workspace_before}
use terminal_redeemer.Resume.Selection.{
  SelectOptions, select, select_all, select_prior, assess, assess_prior, newest, newer,
  is_candidate, is_in_scope, is_current, is_prior, checkpoint_age, is_terminal, terminal_windows,
  ready, empty,
}
use terminal_redeemer.Resume.Selection.Eligibility.{
  Eligible, Chooses, Assessed, ChoosesAll, select-Chooses, select_all-ChoosesAll,
}
use terminal_redeemer.Resume.Workspaces.{
  output_index, workspace_target, resolve_workspace, resolve_sorted, by_name, by_output_index,
  by_index,
}
use terminal_redeemer.Resume.Workspaces.Preference.{Resolves, resolve_workspace-Resolves}

abbrev kitty : Window
kitty = record {
  key = codes "window:1";
  app_id = codes "kitty";
  workspace_id = codes "7";
  workspace_ref = none;
  pid = pos 41;
  title = [];
  is_focused = false;
  placement = none;
  terminal = some (record {
    cwd = codes "/src";
    process_tags = [];
    session_tag = codes "main";
    session_tag_exact = true;
  });
}

abbrev desk : Workspace
desk = record { id = codes "7"; index = pos 2; name = codes "desk"; output = codes "DP-1" }

abbrev mail : Workspace
mail = record { id = codes "8"; index = pos 1; name = codes "mail"; output = codes "DP-1" }

abbrev checkpoint : Text → ℕ → List Window → List Text → Checkpoint
checkpoint boot at windows active = record {
  boot_id = boot;
  host = codes "host";
  profile = codes "default";
  observed_at = at;
  state = record { workspaces = desk ∷ []; windows = windows };
  state_hash = [];
  recovery = record { active_sessions = active; sessions = [] };
  integrity_hash = [];
}

-- The newer of the two has no terminal, but an allow-list.
abbrev candidates : List Checkpoint
candidates =
    checkpoint (codes "boot-1") 100 (kitty ∷ []) []
    ∷ checkpoint (codes "boot-2") 200 [] (codes "main" ∷ [])
    ∷ []

abbrev options : SelectOptions
options = record {
  current_boot_id = codes "boot-3";
  host = codes "host";
  profile = [];
  now = 300;
  max_age = 150;
}

-- The older one is not fallen back to.
select_newest : (select candidates options).status ≡ empty
unfolding select assess newest newer is_candidate checkpoint_age is_terminal terminal_windows
    text_discrete ℕ_discrete trim_space to_lower any keep sort_by
select_newest = refl

select_all_newest : (select_all candidates options).status ≡ ready
unfolding select_all select_prior assess_prior newest newer is_in_scope is_current is_prior
    checkpoint_age text_discrete ℕ_discrete trim_space
select_all_newest = refl

-- The name is gone, and output and index decide.
abbrev captured : WorkspaceRef
captured = record { name = codes "chat"; output = codes "DP-1"; index = pos 2 }

resolve_desk :
    resolve_workspace captured (desk ∷ mail ∷ []) ≡ some (workspace_target desk output_index)
unfolding resolve_workspace resolve_sorted by_name by_output_index by_index workspace_before sort_by
    first text_ltb text_discrete ℕ_discrete trim_space ℤ_discrete
resolve_desk = refl

select-Chooses_example :
    Chooses (Eligible options) candidates (select candidates options).checkpoint
    × Assessed options
        (λ c. terminal_windows c.state ≢ [])
        (select candidates options)
        (select candidates options).checkpoint
select-Chooses_example = select-Chooses candidates options

select_all-ChoosesAll_example : ChoosesAll options candidates (select_all candidates options)
select_all-ChoosesAll_example = select_all-ChoosesAll candidates options

resolve_workspace-Resolves_example :
    Resolves captured (desk ∷ mail ∷ []) (resolve_workspace captured (desk ∷ mail ∷ []))
resolve_workspace-Resolves_example = resolve_workspace-Resolves captured (desk ∷ mail ∷ [])

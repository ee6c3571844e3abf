-- ===== src/Resume/All/Attachments.antt =====
-- Which sessions a plan of internal/resume/planner_all.go launches.
use terminal_redeemer.Base.{
  ◌≡◌, ◌≢◌, ◌⊎◌, Bool, true, false, ◌&&◌, [], some, Text, same, any, seen, get,
}
use terminal_redeemer.Model.{Window, State, Checkpoint}
use terminal_redeemer.Zellij.Catalog.{active, dead_resurrectable, Catalog, exact}
use terminal_redeemer.Resume.Selection.{is_terminal, Selection, stale, current_active, prior_active}
use terminal_redeemer.Resume.Items.{session_of}
use terminal_redeemer.Resume.Plan.Launches.{is_some}
use terminal_redeemer.Resume.All.{AllScene}
use terminal_redeemer.Resume.Candidates.{is_exact}
use terminal_redeemer.Resume.All.Judged.{Attachable}

abbrev Allowed : AllScene → Text → Type 0
Allowed scene s =
    Attachable scene (exact scene.catalog s).status × (is_some (get s scene.open_windows) ≡ false)

-- A terminal window runs the session, by complete evidence.
abbrev pub exactly_shows : Text → Window → Bool
exactly_shows s w = is_terminal w.app_id && is_exact w.terminal && same (session_of w.terminal) s

-- Where the names of a plan come from: the catalog, for a checkpoint of this boot, or else the
-- allow-list of the checkpoint.
abbrev pub Listed : Selection → Checkpoint → Catalog → Text → Type 0
Listed selection source catalog s =
    ((selection.candidate_source ≡ current_active) × (seen s catalog.names ≡ true))
    ⊎ ((selection.candidate_source ≢ current_active)
        × (seen s source.recovery.active_sessions ≡ true))

-- What a plan of all sessions may launch, from the checkpoint that was chosen.
pub record MayAttach (selection : Selection) (now : State) (catalog : Catalog) (s : Text)
    : Type 0 where
  pub source : Checkpoint
  pub chosen : selection.checkpoint ≡ some source
  pub listed : Listed selection source catalog s
  pub live :
      ((exact catalog s).status ≡ active)
      ⊎ (((exact catalog s).status ≡ dead_resurrectable)
          × (selection.candidate_source ≡ prior_active)
          × (selection.status ≢ stale))
  pub not_open : s ≢ [] → any (exactly_shows s) now.windows ≡ false

-- ===== src/Model/Normalize.antt =====
-- `Normalize` and `NormalizeRecovery` of internal/model/state.go. Pointers are copied there, which a
-- value does not show.
pub mod Canonical
use terminal_redeemer.Base.{
  Bool, true, false, not, List, [], ◌∷◌, map, Option, none, some, Text, same, same_int, text_ltb,
  sort_by, if◌then◌else◌,
}
use terminal_redeemer.Model.{
  Workspace, Terminal, Window, State, RecoverySession, RecoveryInventory, workspace_before,
  window_before,
}

abbrev pub on_some : {A : Type 0} → (A → A) → Option A → Option A
on_some f none = none
on_some f (some a) = some (f a)

unfoldable pub normalize_terminal : Terminal → Terminal
normalize_terminal t = record t { process_tags = sort_by text_ltb t.process_tags }

unfoldable pub normalize_window : Window → Window
unfolding normalize_terminal
normalize_window w = record w { terminal = on_some normalize_terminal w.terminal }

unfoldable pub normalize : State → State
unfolding normalize_window workspace_before window_before
normalize s = record {
  workspaces = sort_by workspace_before s.workspaces;
  windows = map normalize_window (sort_by window_before s.windows);
}

unfoldable pub session_before : RecoverySession → RecoverySession → Bool
session_before a b = text_ltb a.name b.name

unfoldable pub normalize_recovery : RecoveryInventory → RecoveryInventory
unfolding session_before
normalize_recovery r = record {
  active_sessions = sort_by text_ltb r.active_sessions;
  sessions = sort_by session_before r.sessions;
}

abbrev pub without_title : Window → Window
without_title w = record w { title = [] }

-- What `Hash` hashes.
unfoldable pub hashed_state : State → State
unfolding normalize
hashed_state s = let n = normalize s in record n { windows = map without_title n.windows }

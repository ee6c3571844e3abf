-- ===== src/Model.antt =====
-- internal/model/state.go, and `Checkpoint` of internal/checkpoints/store.go: compositor state,
-- recovery inventory, checkpoint.
-- A pointer is an Option; a float64 is its bit pattern, since tile sizes are only copied.
pub mod Normalize
pub mod Persisted
mod Samples
use terminal_redeemer.Base.{
  ℕ, Bool, not, List, Option, Text, ℤ, ltb_ℤ, same_int, text_ltb, if◌then◌else◌,
}

pub record Workspace : Type 0 where
  pub id : Text
  pub index : ℤ
  pub name : Text
  pub output : Text

pub record WorkspaceRef : Type 0 where
  pub name : Text
  pub output : Text
  pub index : ℤ

pub record Placement : Type 0 where
  pub column : Option ℤ
  pub row : Option ℤ
  pub is_floating : Option Bool
  pub tile_size : List ℕ
  pub window_size : List ℤ

pub record Terminal : Type 0 where
  pub cwd : Text
  pub process_tags : List Text
  pub session_tag : Text
  pub session_tag_exact : Bool

pub record Window : Type 0 where
  pub key : Text
  pub app_id : Text
  pub workspace_id : Text
  pub workspace_ref : Option WorkspaceRef
  pub pid : ℤ
  pub title : Text
  pub is_focused : Bool
  pub placement : Option Placement
  pub terminal : Option Terminal

pub record State : Type 0 where
  pub workspaces : List Workspace
  pub windows : List Window

pub record RecoverySession : Type 0 where
  pub name : Text
  pub cwd : Text
  pub workspace_ref : Option WorkspaceRef
  pub placement : Option Placement
  pub placement_observed_at : Option ℕ
  pub captured_column_occupied : Bool
  pub visible : Bool

pub record RecoveryInventory : Type 0 where
  pub active_sessions : List Text
  pub sessions : List RecoverySession

pub record Checkpoint : Type 0 where
  pub boot_id : Text
  pub host : Text
  pub profile : Text
  pub observed_at : ℕ
  pub state : State
  pub state_hash : Text
  pub recovery : RecoveryInventory
  pub integrity_hash : Text

-- The order of `Normalize` and of `ResolveWorkspace`: by index, then by identity.
unfoldable pub workspace_before : Workspace → Workspace → Bool
workspace_before a b =
    if not (same_int a.index b.index) then ltb_ℤ a.index b.index else text_ltb a.id b.id

unfoldable pub window_before : Window → Window → Bool
window_before a b = text_ltb a.key b.key

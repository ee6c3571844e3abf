-- ===== src/Recovery/Inventory.antt =====
-- internal/mirror/session_inventory.go: one complete observation of the live session incarnations.
use terminal_redeemer.Base.{
  ℕ, Bool, not, ◌||◌, ◌==◌, ltb, if◌then◌else◌, Text, same, List, [], ◌∷◌, Option, none, some,
  length, trim_space, has_control, Map, get, seen,
}
use terminal_redeemer.Zellij.Name.{safe_session_name}
use terminal_redeemer.Zellij.SessionId.{valid_session_id}

-- A nil slice or map is `none`: it is told apart from an empty one.
pub record SessionInventory : Type 0 where
  pub generated_at : ℕ
  pub active_sessions : Option (List Text)
  pub session_ids : Option (Map Text)

pub data InventoryError : Type 0 where
  no_inventory no_timestamp inconsistent_size : InventoryError
  bad_name bad_incarnation : Text → InventoryError

abbrev pub max_catalog_entries : ℕ
max_catalog_entries = 4096

-- `inventory.SessionIDs[name]`, the empty string where there is none.
unfoldable pub id_in : Map Text → Text → Text
id_in ids name = elim (get name ids) [ none ↦ [] | some id ↦ id ]

unfoldable pub session_id_of : SessionInventory → Text → Text
unfolding id_in
session_id_of inventory name = elim inventory.session_ids [ none ↦ [] | some ids ↦ id_in ids name ]

-- `ValidateSession` of internal/mirror/remote.go accepts the name.
unfoldable pub validate_session : Text → Bool
validate_session session = not (
    same session []
    || ltb 256 (length session)
    || not (same (trim_space session) session)
    || has_control session)

-- The loop of `validate` over the names, with the names and the identities seen so far.
unfoldable pub validate_names : Map Text → List Text → List Text → List Text → Option InventoryError
validate_names ids names seen_ids [] = none
validate_names ids names seen_ids (name ∷ rest) =
    let id = id_in ids name in
    let later = validate_names ids (name ∷ names) (id ∷ seen_ids) rest in
    if not (validate_session name) || not (safe_session_name name) || seen name names
    then some (bad_name name)
    else if not (valid_session_id id) || seen id seen_ids
    then some (bad_incarnation name)
    else later

unfoldable pub validate_complete : ℕ → List Text → Map Text → Option InventoryError
validate_complete generated_at names ids =
    if generated_at == 0
    then some no_timestamp
    else if ltb max_catalog_entries (length names) || not (length names == length ids)
    then some inconsistent_size
    else validate_names ids [] [] names

-- `none` is acceptance.
unfoldable pub validate : SessionInventory → Option InventoryError
validate inventory = elim inventory.active_sessions [
  | none ↦ some no_inventory
  | some names ↦ elim inventory.session_ids [
    | none ↦ some no_inventory
    | some ids ↦ validate_complete inventory.generated_at names ids
  ]
]

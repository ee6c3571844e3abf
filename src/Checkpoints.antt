-- ===== src/Checkpoints.antt =====
-- internal/checkpoints/store.go: the validation of a checkpoint. The children are the directory that
-- holds one for each identity, writing into it and pruning it.
pub mod Validation
pub mod Directory
pub mod Write
pub mod Prune
mod Samples
use terminal_redeemer.Base.{
  ℕ, Bool, true, false, not, ◌&&◌, ◌||◌, ◌==◌, List, [], ◌∷◌, ◌++◌, Option, none, some, ◌>>=◌, Text,
  codes, same, seen, length, ℤ, pos, same_int, trim_space, hex_encode, if◌then◌else◌,
}
use terminal_redeemer.Model.{Placement, State, RecoverySession, RecoveryInventory, Checkpoint}
use terminal_redeemer.Model.Normalize.{normalize, normalize_recovery, hashed_state}

-- What the store calls of encoding/json and crypto/sha256: the texts of a state, of a state with an
-- inventory, of a checkpoint and of an identity, the strict reading of a file, and the digest.
pub record Codec : Type 0 where
  pub state_json : State → Option Text
  pub payload_json : State → RecoveryInventory → Option Text
  pub checkpoint_json : Checkpoint → Option Text
  pub parse_checkpoint : Text → Option Checkpoint
  pub identity_json : Text → Text → Text → Text
  pub sha256 : Text → List ℕ

pub data RecoveryError : Type 0 where
  lengths_differ bad_active bad_session empty_time incomplete_occupancy : RecoveryError

pub data CheckpointError : Type 0 where
  no_boot_id no_host no_profile no_time no_state_hash : CheckpointError
  unhashable_state state_hash_mismatch : CheckpointError
  bad_recovery : RecoveryError → CheckpointError
  unhashable_payload integrity_mismatch : CheckpointError

abbrev pub is_blank : Text → Bool
is_blank s = same (trim_space s) []

-- The loop over the allow-list; `active` are the names before.
unfoldable pub check_active : List Text → List Text → Option RecoveryError
check_active active [] = none
check_active active (name ∷ names) =
    let rest = check_active (name ∷ active) names in
    if is_blank name || not (same name (trim_space name)) || seen name active
    then some bad_active
    else rest

abbrev pub is_one : Option ℤ → Bool
is_one none = false
is_one (some n) = same_int n (pos 1)

abbrev pub is_some {ℓ} : {A : Type ℓ} → Option A → Bool
is_some none = false
is_some (some _) = true

abbrev pub has_row_one : Option Placement → Bool
has_row_one none = false
has_row_one (some p) = is_some p.column && is_one p.row

-- The placement that column occupancy needs.
abbrev pub is_placed : RecoverySession → Bool
is_placed s = is_some s.placement_observed_at && is_some s.workspace_ref && has_row_one s.placement

abbrev pub is_zero_time : Option ℕ → Bool
is_zero_time none = false
is_zero_time (some t) = t == 0

unfoldable pub check_sessions : List Text → List Text → List RecoverySession → Option RecoveryError
check_sessions active before [] = none
check_sessions active before (s ∷ ss) =
    let rest = check_sessions active (s.name ∷ before) ss in
    if not (seen s.name active) || seen s.name before
    then some bad_session
    else if is_zero_time s.placement_observed_at
    then some empty_time
    else if s.captured_column_occupied && not (is_placed s)
    then some incomplete_occupancy
    else rest

unfoldable pub validate_recovery : RecoveryInventory → Option RecoveryError
unfolding check_active check_sessions
validate_recovery r =
    if not (length r.active_sessions == length r.sessions)
    then some lengths_differ
    else elim (check_active [] r.active_sessions) [
      | some e ↦ some e
      | none ↦ check_sessions r.active_sessions [] r.sessions
    ]

module _ (J : Codec) where
  abbrev pub digest : Text → Text
  digest payload = codes "sha256:" ++ hex_encode (J.sha256 payload)

  unfoldable pub hash_state : State → Option Text
  unfolding hashed_state
  hash_state s = J.state_json (hashed_state s) >>= λ payload. some (digest payload)

  unfoldable pub recovery_integrity_hash : State → RecoveryInventory → Option Text
  unfolding hashed_state normalize_recovery
  recovery_integrity_hash s r =
      J.payload_json (hashed_state s) (normalize_recovery r) >>= λ payload. some (digest payload)

  -- The tests of `Validate` on the hashes.
  unfoldable pub check_integrity : Checkpoint → Option CheckpointError
  unfolding recovery_integrity_hash
  check_integrity c = elim (recovery_integrity_hash c.state c.recovery) [
    | none ↦ some unhashable_payload
    | some want ↦ if not (same c.integrity_hash want) then some integrity_mismatch else none
  ]

  unfoldable pub check_recovery : Checkpoint → Option CheckpointError
  unfolding validate_recovery check_integrity
  check_recovery c = elim (validate_recovery c.recovery) [
    | some e ↦ some (bad_recovery e)
    | none ↦ check_integrity c
  ]

  unfoldable pub check_state_hash : Checkpoint → Option CheckpointError
  unfolding hash_state check_recovery
  check_state_hash c = elim (hash_state c.state) [
    | none ↦ some unhashable_state
    | some hash ↦
        if not (same hash c.state_hash) then some state_hash_mismatch else check_recovery c
  ]

  unfoldable pub validate_checkpoint : Checkpoint → Option CheckpointError
  unfolding check_state_hash
  validate_checkpoint c =
      if is_blank c.boot_id
      then some no_boot_id
      else if is_blank c.host
      then some no_host
      else if is_blank c.profile
      then some no_profile
      else if c.observed_at == 0
      then some no_time
      else if is_blank c.state_hash
      then some no_state_hash
      else check_state_hash c

  unfoldable pub path_name : Text → Text → Text → Text
  path_name boot_id host profile =
      hex_encode (J.sha256 (J.identity_json boot_id host profile)) ++ codes ".json"

-- ===== src/Capture/Run.antt =====
-- `CaptureOnce` of internal/capture/runner.go. What the compositor, the catalog, the clock and the lock
-- give is an argument; the directory of the store is there, since opening the store makes it.
pub mod Published
pub mod Stored
use terminal_redeemer.Base.{
  ℕ, Bool, true, false, not, List, [], Option, none, some, Text, same, trim_space, if◌then◌else◌,
}
use terminal_redeemer.Model.{State, Checkpoint}
use terminal_redeemer.Model.Normalize.{normalize}
use terminal_redeemer.Checkpoints.{Codec, hash_state, recovery_integrity_hash}
use terminal_redeemer.Checkpoints.Directory.{Files, present, history}
use terminal_redeemer.Checkpoints.Write.{
  WriteResult, written, invalid, unmarshalable, refuse_replace, failed, Faults, write,
}
use terminal_redeemer.Zellij.Catalog.{Catalog}
use terminal_redeemer.Capture.Active.{
  CatalogError, ActiveSessions, authoritative, ambiguous, authoritative_active_sessions,
}
use terminal_redeemer.Capture.Inventory.{Resolver, build_recovery_inventory}

pub record Runner : Type 0 where
  pub has_store : Bool
  pub has_cataloger : Bool
  pub state_dir : Text
  pub host : Text
  pub profile : Text

-- A cataloger is always there: the runner falls back to its own.
abbrev pub new_runner : Bool → Text → Text → Text → Runner
new_runner has_store state_dir host profile = record {
  has_store = has_store;
  has_cataloger = true;
  state_dir = trim_space state_dir;
  host = trim_space host;
  profile = trim_space profile;
}

pub record Observed : Type 0 where
  pub locks : Bool
  pub collected : Option State
  pub catalog : Option Catalog
  pub boot_id : Option Text
  pub now : ℕ
  pub resolver : Resolver

pub data CaptureError : Type 0 where
  no_store no_cataloger no_state_dir not_locked not_collected not_observed : CaptureError
  ambiguous_catalog : CatalogError → CaptureError
  no_boot_source empty_boot_id no_history no_state_json no_recovery_json : CaptureError
  not_published : WriteResult → CaptureError

pub data Attempt {ℓ} (A : Type ℓ) : Type ℓ where
  success : A → Attempt A
  failure : CaptureError → Attempt A

abbrev pub and_then {ℓ κ} : {A : Type ℓ} {B : Type κ} → Attempt A → (A → Attempt B) → Attempt B
and_then (success a) f = f a
and_then (failure e) f = failure e

abbrev pub or_fail {ℓ} : {A : Type ℓ} → CaptureError → Option A → Attempt A
or_fail e none = failure e
or_fail e (some a) = success a

abbrev pub active_or_fail : ActiveSessions → Attempt (List Text)
active_or_fail (authoritative names) = success names
active_or_fail (ambiguous e) = failure (ambiguous_catalog e)

abbrev pub boot_or_fail : Option Text → Attempt Text
boot_or_fail none = failure no_boot_source
boot_or_fail (some boot_id) =
    if same (trim_space boot_id) [] then failure empty_boot_id else success (trim_space boot_id)

pub data CaptureResult : Type 0 where
  captured : Text → Text → CaptureResult
  capture_failed : CaptureError → CaptureResult

abbrev pub published : Checkpoint → Files × WriteResult → Files × CaptureResult
published c (files, written path) = (files, captured path c.state_hash)
published c (files, w) = (files, capture_failed (not_published w))

-- The result of a capture, from that of `Write`.
abbrev pub finish_capture :
    Files → Attempt Checkpoint → (Checkpoint → Files × WriteResult) → Files × CaptureResult
finish_capture files (failure x) w = (files, capture_failed x)
finish_capture files (success c) w = published c (w c)

module _ (J : Codec) where
  -- With the inventory of the active sessions: the checkpoint to write.
  unfoldable pub assemble :
      Runner → Observed → State → List Text → Text → List Checkpoint → Attempt Checkpoint
  unfolding build_recovery_inventory hash_state recovery_integrity_hash
  assemble r o state active boot_id past =
      let recovery = build_recovery_inventory state active past o.now o.resolver in
      and_then (or_fail no_state_json (hash_state J state)) (λ state_hash.
        and_then (or_fail no_recovery_json (recovery_integrity_hash J state recovery))
          (λ integrity_hash. success (record {
            boot_id = boot_id;
            host = r.host;
            profile = r.profile;
            observed_at = o.now;
            state = state;
            state_hash = state_hash;
            recovery = recovery;
            integrity_hash = integrity_hash;
          })))

  -- All that comes before `Write`.
  unfoldable pub collect_checkpoint : Runner → Observed → Files → Attempt Checkpoint
  unfolding normalize authoritative_active_sessions history assemble
  collect_checkpoint r o files = and_then (or_fail not_collected o.collected) (λ collected.
      and_then (or_fail not_observed o.catalog) (λ catalog.
        and_then (active_or_fail (authoritative_active_sessions catalog)) (λ active.
          and_then (boot_or_fail o.boot_id) (λ boot_id.
            and_then (or_fail no_history (history J r.host r.profile (present files)))
              (assemble r o (normalize collected) active boot_id)))))

  unfoldable pub prepare : Runner → Observed → Files → Attempt Checkpoint
  unfolding collect_checkpoint
  prepare r o files =
      if not r.has_store
      then failure no_store
      else if not r.has_cataloger
      then failure no_cataloger
      else if same r.state_dir []
      then failure no_state_dir
      else if not o.locks
      then failure not_locked
      else collect_checkpoint r o files

  unfoldable pub capture_once : Faults → Runner → Observed → Files → Files × CaptureResult
  unfolding prepare write
  capture_once e r o files = finish_capture files (prepare r o files) (λ c. write J e c files)

-- ===== src/Checkpoints/Write.antt =====
-- internal/checkpoints/store.go: `Write` as a sequence of steps on the directory, each of which may
-- fail.
pub mod Outcome
pub mod RoundTrip
use terminal_redeemer.Base.{
  Bool, true, false, List, [], ◌∷◌, ◌++◌, Option, none, some, Text, codes, put, del, if◌then◌else◌,
}
use terminal_redeemer.Model.{Checkpoint}
use terminal_redeemer.Model.Normalize.{normalize, normalize_recovery}
use terminal_redeemer.Checkpoints.{Codec, CheckpointError, validate_checkpoint, path_name}
use terminal_redeemer.Checkpoints.Directory.{
  Files, file, Reading, found, missing, refused, Refusal, canonical, read,
}

pub data WriteStep : Type 0 where
  create_temp write_temp short_write sync_temp close_temp rename_temp sync_dir : WriteStep

pub data WriteResult : Type 0 where
  written : Text → WriteResult
  invalid : CheckpointError → WriteResult
  unmarshalable : WriteResult
  refuse_replace : Refusal → WriteResult
  failed : WriteStep → WriteResult

-- What happens to one write: the random part of the temporary file's name, the steps that fail, the
-- bytes that a failing write leaves, and whether the temporary file can be removed.
pub record Faults : Type 0 where
  pub random : Text
  pub fails : WriteStep → Bool
  pub partial_write : Text
  pub removes : Bool

abbrev pub temp_name : Faults → Text
temp_name e = codes ".checkpoint-" ++ e.random ++ codes ".tmp"

-- The deferred removal after an error.
abbrev pub clean : Faults → Files → Files
clean e files = if e.removes then del (temp_name e) files else files

unfoldable pub publish : Faults → Text → Text → Files → Files × WriteResult
unfolding put del
publish e path payload files =
    if e.fails create_temp
    then (files, failed create_temp)
    else if e.fails write_temp
    then (clean e (put (temp_name e) (file e.partial_write) files), failed write_temp)
    else if e.fails short_write
    then (clean e (put (temp_name e) (file e.partial_write) files), failed short_write)
    else if e.fails sync_temp
    then (clean e (put (temp_name e) (file payload) files), failed sync_temp)
    else if e.fails close_temp
    then (clean e (put (temp_name e) (file payload) files), failed close_temp)
    else if e.fails rename_temp
    then (clean e (put (temp_name e) (file payload) files), failed rename_temp)
    else if e.fails sync_dir
    then (
      put path (file payload) (del (temp_name e) (put (temp_name e) (file payload) files)),
      failed sync_dir,
    )
    else (
      put path (file payload) (del (temp_name e) (put (temp_name e) (file payload) files)),
      written path,
    )

-- An unreadable checkpoint of the identity is not replaced.
abbrev pub unless_refused : Reading → Files → Files × WriteResult → Files × WriteResult
unless_refused (found _) files w = w
unless_refused missing files w = w
unless_refused (refused r) files w = (files, refuse_replace r)

abbrev pub if_marshaled : Option Text → Files → (Text → Files × WriteResult) → Files × WriteResult
if_marshaled none files w = (files, unmarshalable)
if_marshaled (some payload) files w = w payload

abbrev pub if_valid : Option CheckpointError → Files → Files × WriteResult → Files × WriteResult
if_valid (some error) files w = (files, invalid error)
if_valid none files w = w

-- The payload ends with a line feed.
module _ (J : Codec) where
  unfoldable pub replace : Faults → Checkpoint → Text → Files → Files × WriteResult
  unfolding read path_name publish
  replace e c payload files =
      unless_refused (read J c.boot_id c.host c.profile files) files
        (publish e (path_name J c.boot_id c.host c.profile) payload files)

  unfoldable pub marshal_and_replace : Faults → Checkpoint → Files → Files × WriteResult
  unfolding replace
  marshal_and_replace e c files =
      if_marshaled (J.checkpoint_json c) files (λ payload. replace e c (payload ++ 10 ∷ []) files)

  unfoldable pub write : Faults → Checkpoint → Files → Files × WriteResult
  unfolding normalize normalize_recovery validate_checkpoint marshal_and_replace
  write e c files =
      if_valid (validate_checkpoint J (canonical c)) files
        (marshal_and_replace e (canonical c) files)

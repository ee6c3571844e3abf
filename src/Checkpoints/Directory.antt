-- ===== src/Checkpoints/Directory.antt =====
-- internal/checkpoints/store.go: `readPath`, `Read`, `List` and `History` on the directory
-- `checkpoints`. Issues carry the name of the file, without the wording of its error.
pub mod Contents
pub mod Named
pub mod Order
use terminal_redeemer.Base.{
  ℕ, Bool, true, false, not, ◌&&◌, ◌||◌, ◌==◌, List, [], ◌∷◌, Option, none, some, Text, codes, same,
  ltb, text_ltb, Map, get, keep, sort_by, strip_suffix, if◌then◌else◌,
}
use terminal_redeemer.Model.{Checkpoint}
use terminal_redeemer.Model.Normalize.{normalize, normalize_recovery}
use terminal_redeemer.Checkpoints.{Codec, CheckpointError, validate_checkpoint, path_name}

-- What an entry of the directory is; a locked file cannot be read.
pub data Node : Type 0 where
  folder locked : Node
  file : Text → Node

abbrev pub Files : Type 0
Files = Map Node

-- What `os.ReadDir` gives.
pub data Dir : Type 0 where
  absent unreadable : Dir
  present : Files → Dir

pub data Refusal : Type 0 where
  is_folder not_readable undecodable : Refusal
  not_valid : CheckpointError → Refusal
  identity_mismatch : Refusal

pub data Reading : Type 0 where
  found : Checkpoint → Reading
  missing : Reading
  refused : Refusal → Reading

abbrev pub canonical : Checkpoint → Checkpoint
canonical c = record c { state = normalize c.state; recovery = normalize_recovery c.recovery }

abbrev pub is_checkpoint_name : Text → Bool
is_checkpoint_name name = elim (strip_suffix (codes ".json") name) [ none ↦ false | some _ ↦ true ]

-- The order of `List`.
unfoldable pub checkpoint_before : Checkpoint → Checkpoint → Bool
checkpoint_before a b =
    if not (a.observed_at == b.observed_at)
    then ltb a.observed_at b.observed_at
    else if not (same a.host b.host)
    then text_ltb a.host b.host
    else if not (same a.profile b.profile)
    then text_ltb a.profile b.profile
    else text_ltb a.boot_id b.boot_id

pub record Listing : Type 0 where
  pub checkpoints : List Checkpoint
  pub issues : List Text

-- A checkpoint under its name.
abbrev pub Candidate : Type 0
Candidate = Text × Checkpoint

abbrev pub add_candidate : Text → Option Checkpoint → List Candidate → List Candidate
add_candidate name none cs = cs
add_candidate name (some c) cs = (name, c) ∷ cs

abbrev pub checkpoints_of : List Candidate → List Checkpoint
checkpoints_of [] = []
checkpoints_of ((_, c) ∷ cs) = c ∷ checkpoints_of cs

pub data ListError : Type 0 where
  bad_dir : ListError

pub data Listed : Type 0 where
  listed : Listing → Listed
  list_failed : ListError → Listed

-- The test of `Read` on what the path holds.
unfoldable pub of_identity : Text → Text → Text → Reading → Reading
of_identity boot_id host profile (found c) =
    if not (same c.boot_id boot_id) || not (same c.host host) || not (same c.profile profile)
    then refused identity_mismatch
    else found c
of_identity boot_id host profile missing = missing
of_identity boot_id host profile (refused e) = refused e

module _ (J : Codec) where
  unfoldable pub validated : Checkpoint → Reading
  unfolding validate_checkpoint
  validated c = elim (validate_checkpoint J c) [ some e ↦ refused (not_valid e) | none ↦ found c ]

  unfoldable pub read_payload : Text → Reading
  unfolding normalize normalize_recovery validated
  read_payload payload = elim (J.parse_checkpoint payload) [
    | none ↦ refused undecodable
    | some c ↦ validated (canonical c)
  ]

  unfoldable pub read_node : Option Node → Reading
  unfolding read_payload
  read_node none = missing
  read_node (some folder) = refused is_folder
  read_node (some locked) = refused not_readable
  read_node (some (file payload)) = read_payload payload

  unfoldable pub read_path : Text → Files → Reading
  unfolding read_node get
  read_path name files = read_node (get name files)

  unfoldable pub read : Text → Text → Text → Files → Reading
  unfolding of_identity read_path path_name
  read boot_id host profile files =
      of_identity boot_id host profile (read_path (path_name J boot_id host profile) files)

  -- What `List` and `Prune` make of an entry: the checkpoint under its deterministic name.
  unfoldable pub under_name : Text → Reading → Option Checkpoint
  unfolding path_name
  under_name name (found c) =
      if same name (path_name J c.boot_id c.host c.profile) then some c else none
  under_name name missing = none
  under_name name (refused _) = none

  unfoldable pub candidate : Text → Node → Option Checkpoint
  unfolding read_payload under_name strip_suffix
  candidate name folder = none
  candidate name locked = none
  candidate name (file payload) =
      if is_checkpoint_name name then under_name name (read_payload payload) else none

  unfoldable pub candidates : Files → List Candidate
  unfolding candidate
  candidates [] = []
  candidates ((name, node) ∷ files) = add_candidate name (candidate name node) (candidates files)

  abbrev pub is_issue : Text → Node → Bool
  is_issue name folder = false
  is_issue name locked = is_checkpoint_name name
  is_issue name (file payload) =
      is_checkpoint_name name
      && elim (candidate name (file payload)) [ none ↦ true | some _ ↦ false ]

  unfoldable pub issues : Files → List Text
  unfolding candidate strip_suffix
  issues [] = []
  issues ((name, node) ∷ files) = if is_issue name node then name ∷ issues files else issues files

  unfoldable pub list : Dir → Listed
  unfolding candidates issues checkpoint_before
  list absent = listed (record { checkpoints = []; issues = [] })
  list unreadable = list_failed bad_dir
  list (present files) = listed (record {
    checkpoints = sort_by checkpoint_before (checkpoints_of (candidates files));
    issues = issues files;
  })

  unfoldable pub history : Text → Text → Dir → Option (List Checkpoint)
  unfolding list keep
  history host profile dir = elim (list dir) [
    | list_failed _ ↦ none
    | listed l ↦ some (keep (λ c. same c.host host && same c.profile profile) l.checkpoints)
  ]

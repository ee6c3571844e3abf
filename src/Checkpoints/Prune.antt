-- ===== src/Checkpoints/Prune.antt =====
-- internal/checkpoints/store.go: `Prune`.
pub mod Priors
pub mod Removal
pub mod Retention
pub mod Choice
use terminal_redeemer.Base.{
  ℕ, ◌+◌, Bool, true, false, not, ◌&&◌, ◌||◌, ◌==◌, List, [], ◌∷◌, Option, none, some, Text, codes,
  same, ltb, text_ltb, seen, del, trim_space, if◌then◌else◌,
}
use terminal_redeemer.Model.{Checkpoint}
use terminal_redeemer.Checkpoints.{Codec}
use terminal_redeemer.Checkpoints.Directory.{
  Files, Dir, absent, unreadable, present, Candidate, candidates,
}

abbrev pub same_scope : Checkpoint → Checkpoint → Bool
same_scope a b = same a.host b.host && same a.profile b.profile

-- The candidate displaces the previous one.
unfoldable pub displaces : Checkpoint → Checkpoint → Bool
displaces c previous =
    ltb previous.observed_at c.observed_at
    || (c.observed_at == previous.observed_at && text_ltb previous.boot_id c.boot_id)

-- The map `newestPrior`, keyed by host and profile.
unfoldable pub offer_prior : Candidate → List Candidate → List Candidate
unfolding displaces
offer_prior (name, c) [] = (name, c) ∷ []
offer_prior (name, c) ((best, b) ∷ priors) =
    let rest = offer_prior (name, c) priors in
    if same_scope b c
    then (if displaces c b then (name, c) ∷ priors else (best, b) ∷ priors)
    else (best, b) ∷ rest

-- The first loop: the names of this boot's checkpoints, and the newest prior ones.
pub record Protection : Type 0 where
  pub current : List Text
  pub priors : List Candidate

unfoldable pub protect : Text → List Candidate → Protection → Protection
unfolding offer_prior
protect boot [] p = p
protect boot ((name, c) ∷ cs) p = protect boot cs (
    if same c.boot_id boot
    then record p { current = name ∷ p.current }
    else record p { priors = offer_prior (name, c) p.priors })

abbrev pub names_of : List Candidate → List Text
names_of [] = []
names_of ((name, _) ∷ cs) = name ∷ names_of cs

-- The second loop puts the names of the newest prior ones with the others.
unfoldable pub is_protected : Protection → Text → Bool
is_protected p name = seen name p.current || seen name (names_of p.priors)

pub data PruneError : Type 0 where
  no_current_boot unreadable_dir cannot_remove cannot_sync : PruneError

-- The directory, how many files were removed, and the error.
pub record Pruned : Type 0 where
  pub files : Files
  pub removed : ℕ
  pub error : Option PruneError

-- The third loop; `removable` says which removals succeed.
unfoldable pub remove_expired :
    (Text → Bool) → (Text → Bool) → ℕ → List Candidate → Files → ℕ → Pruned
unfolding del
remove_expired removable kept cutoff [] files removed = record {
  files = files;
  removed = removed;
  error = none;
}
remove_expired removable kept cutoff ((name, c) ∷ cs) files removed =
    let skipped = remove_expired removable kept cutoff cs files removed in
    let rest = remove_expired removable kept cutoff cs (del name files) (removed + 1) in
    if kept name || not (ltb c.observed_at cutoff)
    then skipped
    else if not (removable name)
    then record { files = files; removed = removed; error = some cannot_remove }
    else rest

-- The sync of the directory after a removal.
unfoldable pub sync_removed : Bool → Pruned → Pruned
sync_removed syncs p = elim p.error [
  | some _ ↦ p
  | none ↦ if ltb 0 p.removed && not syncs then record p { error = some cannot_sync } else p
]

abbrev files_of : Dir → Files
files_of absent = []
files_of unreadable = []
files_of (present files) = files

module _ (J : Codec) where
  unfoldable pub prune_files : (Text → Bool) → Bool → ℕ → Text → Files → Pruned
  unfolding candidates protect is_protected remove_expired sync_removed
  prune_files removable syncs cutoff boot files =
      let cs = candidates J files in
      let protection = protect boot cs (record { current = []; priors = [] }) in
      sync_removed syncs (remove_expired removable (is_protected protection) cutoff cs files 0)

  unfoldable pub prune : (Text → Bool) → Bool → ℕ → Text → Dir → Pruned
  unfolding prune_files
  prune removable syncs cutoff current_boot_id dir =
      let boot = trim_space current_boot_id in
      if same boot []
      then record { files = files_of dir; removed = 0; error = some no_current_boot }
      else elim dir [
        | absent ↦ record { files = []; removed = 0; error = none }
        | unreadable ↦ record { files = []; removed = 0; error = some unreadable_dir }
        | present files ↦ prune_files removable syncs cutoff boot files
      ]

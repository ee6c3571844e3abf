-- ===== src/Checkpoints/Samples.antt =====
-- A store of two checkpoints and a file of another kind; the theorems at it.
use terminal_redeemer.Base.{
  ℕ, ◌≡◌, refl, ◌≢◌, [], ◌∷◌, none, some, Text, codes, same, false, true, Bool, any, keys, get,
  text_discrete, ℕ_discrete, trim_space, sort_by, hex_encode, strip_prefix, Distinct, if◌then◌else◌,
}
use terminal_redeemer.Model.{Checkpoint}
use terminal_redeemer.Model.Normalize.{normalize, normalize_recovery}
use terminal_redeemer.Model.Persisted.{persisted}
use terminal_redeemer.Checkpoints.{Codec, validate_checkpoint, path_name}
use terminal_redeemer.Checkpoints.Directory.{
  file, folder, Files, present, Refusal, found, refused, canonical, read,
}
use terminal_redeemer.Checkpoints.Write.{WriteStep, rename_temp, written, Faults, write}
use terminal_redeemer.Checkpoints.Write.Outcome.{Wrote, write-Wrote}
use terminal_redeemer.Checkpoints.Write.RoundTrip.{JsonRoundTrip, Succeeds, read-write}
use terminal_redeemer.Checkpoints.Prune.{prune}
use terminal_redeemer.Checkpoints.Prune.Retention.{Retains, prune-Retains}
use terminal_redeemer.Checkpoints.Prune.Choice.{SameChoice, select_all-prune}
use terminal_redeemer.Checkpoints.Directory.Contents.{stored}
use terminal_redeemer.Resume.Selection.{SelectOptions, select_all}

abbrev pub sample : Text → ℕ → Checkpoint
sample boot at = record {
  boot_id = boot;
  host = codes "host";
  profile = codes "default";
  observed_at = at;
  state = record { workspaces = []; windows = [] };
  state_hash = codes "sha256:73";
  recovery = record {
    active_sessions = codes "main" ∷ [];
    sessions =
        record {
          name = codes "main";
          cwd = [];
          workspace_ref = none;
          placement = none;
          placement_observed_at = none;
          captured_column_occupied = false;
          visible = false;
        }
        ∷ [];
  };
  integrity_hash = codes "sha256:70";
}

-- A checkpoint is written as its boot ID, and the digest of a text is the text.
abbrev pub by_boot : Codec
by_boot = record {
  state_json = λ s. some (codes "s");
  payload_json = λ s r. some (codes "p");
  checkpoint_json = λ c. some c.boot_id;
  parse_checkpoint = λ t.
      if same t (codes "a\n")
      then some (sample (codes "a") 100)
      else if same t (codes "b\n")
      then some (sample (codes "b") 200)
      else none;
  identity_json = λ boot host profile. boot;
  sha256 = λ t. t;
}

abbrev pub directory : Files
directory =
    (codes "61.json", file (codes "a\n"))
    ∷ (codes "62.json", file (codes "b\n"))
    ∷ (codes "notes", folder)
    ∷ []

directory-Distinct : Distinct (keys directory)
unfolding keys any text_discrete ℕ_discrete
directory-Distinct = (refl, (refl, (refl, tt)))

abbrev options : SelectOptions
options = record {
  current_boot_id = codes "c";
  host = codes "host";
  profile = [];
  now = 300;
  max_age = 150;
}

-- The older of the two is removed.
prunes : (prune by_boot (λ name. true) true 250 (codes "c") (present directory)).removed ≡ 1
unfolding prune text_discrete trim_space strip_prefix ℕ_discrete hex_encode sort_by any
prunes = refl

prune-Retains_example :
    Retains by_boot 250
      (trim_space (codes "c"))
      directory
      (prune by_boot (λ name. true) true 250 (codes "c") (present directory)).files
prune-Retains_example =
    prune-Retains by_boot (λ name. true) true 250 (codes "c") directory directory-Distinct

select_all-prune_example :
    SameChoice
      (select_all
        (stored by_boot
          (prune by_boot (λ name. true) true 250 (codes "c") (present directory)).files)
        options)
      (select_all (stored by_boot directory) options)
select_all-prune_example =
    select_all-prune by_boot (λ name. true) true 250 options directory directory-Distinct

abbrev smooth : Faults
smooth = record { random = codes "1"; fails = λ step. false; partial_write = []; removes = true }

abbrev fails_rename : WriteStep → Bool
fails_rename rename_temp = true
fails_rename _ = false

abbrev stuck : Faults
stuck = record { random = codes "1"; fails = fails_rename; partial_write = []; removes = false }

write-Wrote_example :
    Wrote by_boot
      (sample (codes "a") 100)
      directory
      (codes "b")
      (codes "host")
      (codes "default")
      (write by_boot stuck (sample (codes "a") 100) directory)
write-Wrote_example =
    write-Wrote by_boot stuck (sample (codes "a") 100) directory (codes "b") (codes "host")
      (codes "default")

by_boot-JsonRoundTrip : JsonRoundTrip by_boot (canonical (sample (codes "a") 100))
unfolding normalize normalize_recovery sort_by text_discrete ℕ_discrete
by_boot-JsonRoundTrip = record {
  payload = codes "a";
  marshals = refl;
  parses = refl;
  state_json = λ s. refl;
  payload_json = λ s r. refl;
}

smooth-Succeeds : Succeeds smooth
smooth-Succeeds step = refl

sample-valid : validate_checkpoint by_boot (canonical (sample (codes "a") 100)) ≡ none
unfolding validate_checkpoint normalize normalize_recovery text_discrete trim_space ℕ_discrete
    hex_encode sort_by any
sample-valid = refl

sample-readable :
    (x : Refusal) → read by_boot (codes "a") (codes "host") (codes "default") directory ≢ refused x
unfolding read get text_discrete trim_space ℕ_discrete hex_encode sort_by any
sample-readable x e = cc

read-write_example :
    ((write by_boot smooth (sample (codes "a") 100) directory).1
      ≡ written (path_name by_boot (codes "a") (codes "host") (codes "default")))
    × (read by_boot
          (codes "a")
          (codes "host")
          (codes "default")
          (write by_boot smooth (sample (codes "a") 100) directory).0
        ≡ found (persisted (canonical (sample (codes "a") 100))))
read-write_example =
    read-write by_boot smooth (sample (codes "a") 100) directory by_boot-JsonRoundTrip
      smooth-Succeeds sample-valid sample-readable

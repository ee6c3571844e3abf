-- ===== src/Capture/Samples.antt =====
-- A capture of one terminal, with two checkpoints before; the theorems at it.
use terminal_redeemer.Base.{
  ℕ, ◌≡◌, refl, subst, ◌≢◌, List, [], ◌∷◌, Option, none, some, Text, codes, same, pos, false, true,
  seen, any, keys, get, put, text_discrete, ℕ_discrete, ℤ_discrete, trim_space, sort_by, hex_encode,
  Distinct, if◌then◌else◌,
}
use terminal_redeemer.Model.{WorkspaceRef, Placement, Window, RecoverySession, Checkpoint}
use terminal_redeemer.Model.Persisted.{persisted}
use terminal_redeemer.Checkpoints.{Codec}
use terminal_redeemer.Checkpoints.Directory.{Refusal, refused, read}
use terminal_redeemer.Checkpoints.Write.{Faults}
use terminal_redeemer.Checkpoints.Write.RoundTrip.{JsonRoundTrip, Succeeds}
use terminal_redeemer.Zellij.Catalog.{Catalog, active, dead_resurrectable}
use terminal_redeemer.Capture.Active.{authoritative, authoritative_active_sessions}
use terminal_redeemer.Capture.Active.Accepted.{Judged, authoritative_active_sessions-Judged}
use terminal_redeemer.Capture.Inventory.{bare_session, bare_sessions, fill_history}
use terminal_redeemer.Capture.Inventory.Recall.{
  newest_first, newest_cwd, newest_placement, with_cwd, with_placement, fill_history-newest,
}
use terminal_redeemer.Capture.Run.{Runner, new_runner, Observed, success, prepare, capture_once}
use terminal_redeemer.Capture.Run.Published.{Succeeded, IsReady, IsWritable, prepare-IsWritable}
use terminal_redeemer.Capture.Run.Stored.{Reads, capture_once-Reads}

abbrev catalog : Catalog
catalog = record {
  sessions =
      (codes "main", record { name = codes "main"; id = []; exact_id = []; status = active })
      ∷ (
        codes "old",
        record { name = codes "old"; id = []; exact_id = []; status = dead_resurrectable },
      )
      ∷ [];
  names = codes "old" ∷ codes "main" ∷ [];
  resurrection_cache_available = true;
}

catalog-Distinct : Distinct (keys catalog.sessions)
unfolding keys any text_discrete ℕ_discrete
catalog-Distinct = (refl, (refl, tt))

only_main : authoritative_active_sessions catalog ≡ authoritative (codes "main" ∷ [])
unfolding authoritative_active_sessions get any text_discrete ℕ_discrete trim_space sort_by
only_main = refl

authoritative_active_sessions-Judged_example :
    Judged catalog (authoritative_active_sessions catalog)
authoritative_active_sessions-Judged_example =
    authoritative_active_sessions-Judged catalog catalog-Distinct

abbrev at_desk : WorkspaceRef
at_desk = record { name = codes "desk"; output = codes "DP-1"; index = pos 2 }

abbrev top : Placement
top = record {
  column = some (pos 1);
  row = some (pos 1);
  is_floating = some false;
  tile_size = [];
  window_size = [];
}

abbrev main_session : Text → Option ℕ → RecoverySession
main_session cwd at = record {
  name = codes "main";
  cwd = cwd;
  workspace_ref = elim at [ none ↦ none | some _ ↦ some at_desk ];
  placement = elim at [ none ↦ none | some _ ↦ some top ];
  placement_observed_at = at;
  captured_column_occupied = false;
  visible = true;
}

abbrev before : ℕ → RecoverySession → Checkpoint
before at s = record {
  boot_id = codes "a";
  host = codes "host";
  profile = codes "default";
  observed_at = at;
  state = record { workspaces = []; windows = [] };
  state_hash = [];
  recovery = record { active_sessions = codes "main" ∷ []; sessions = s ∷ [] };
  integrity_hash = [];
}

-- The newer of the two has a working directory, the older a placement.
abbrev past : List Checkpoint
past =
    before 100 (main_session (codes "/old") (some 100))
    ∷ before 200 (main_session (codes "/src") none)
    ∷ []

remembers :
    get (codes "main") (fill_history past (bare_sessions (codes "main" ∷ []) []))
    ≡ some (record (main_session (codes "/src") (some 100)) { visible = false })
unfolding fill_history bare_sessions get put text_discrete ℕ_discrete
remembers = refl

main_seen : seen (codes "main") (codes "main" ∷ []) ≡ true
unfolding any text_discrete ℕ_discrete
main_seen = refl

fill_history-newest_example :
    get (codes "main") (fill_history past (bare_sessions (codes "main" ∷ []) []))
    ≡ some (
        with_placement
          (newest_placement (codes "main") (newest_first past))
          (with_cwd (newest_cwd (codes "main") (newest_first past)) (bare_session (codes "main"))))
fill_history-newest_example = fill_history-newest past (codes "main" ∷ []) (codes "main") main_seen

abbrev terminal : Window
terminal = record {
  key = codes "window:1";
  app_id = codes "kitty";
  workspace_id = codes "7";
  workspace_ref = some at_desk;
  pid = pos 41;
  title = [];
  is_focused = true;
  placement = some top;
  terminal = some (record {
    cwd = codes " /src";
    process_tags = [];
    session_tag = codes "main";
    session_tag_exact = true;
  });
}

abbrev runner : Runner
runner = new_runner true (codes "/state") (codes "host") (codes "default")

abbrev observed : Observed
observed = record {
  locks = true;
  collected = some (record { workspaces = []; windows = terminal ∷ [] });
  catalog = some catalog;
  boot_id = some (codes "b\n");
  now = 300;
  resolver = none;
}

abbrev expected : Checkpoint
expected = record {
  boot_id = codes "b";
  host = trim_space (codes "host");
  profile = trim_space (codes "default");
  observed_at = 300;
  state = record { workspaces = []; windows = terminal ∷ [] };
  state_hash = codes "sha256:0102";
  recovery = record {
    active_sessions = codes "main" ∷ [];
    sessions = main_session (codes "/src") (some 300) ∷ [];
  };
  integrity_hash = codes "sha256:0102";
}

-- The file of a checkpoint is its boot ID, and all digests are the same.
abbrev codec : Codec
codec = record {
  state_json = λ s. some [];
  payload_json = λ s r. some [];
  checkpoint_json = λ c. some c.boot_id;
  parse_checkpoint = λ t. if same t (codes "b\n") then some (persisted expected) else none;
  identity_json = λ boot host profile. boot;
  sha256 = λ t. 1 ∷ 2 ∷ [];
}

some_inj : {A : Type 0} {a b : A} → some a ≡ some b → a ≡ b
some_inj e = cc

ready : IsReady runner observed
unfolding trim_space hex_encode text_discrete
ready = record {
  host = refl;
  profile = refl;
  now = λ e. cc;
  catalog = λ c e. subst (λ x. Distinct (keys x.sessions)) (some_inj e) catalog-Distinct;
}

prepare-IsWritable_example : Succeeded (IsWritable codec) (prepare codec runner observed [])
prepare-IsWritable_example = prepare-IsWritable codec runner observed ready []

prepares : prepare codec runner observed [] ≡ success expected
unfolding prepare text_discrete trim_space ℕ_discrete any sort_by hex_encode ℤ_discrete
prepares = refl

expected-JsonRoundTrip : JsonRoundTrip codec expected
unfolding text_discrete ℕ_discrete
expected-JsonRoundTrip = record {
  payload = codes "b";
  marshals = refl;
  parses = refl;
  state_json = λ s. refl;
  payload_json = λ s r. refl;
}

abbrev smooth : Faults
smooth = record { random = codes "1"; fails = λ step. false; partial_write = []; removes = true }

smooth-Succeeds : Succeeds smooth
smooth-Succeeds step = refl

nothing_refused :
    (x : Refusal) → read codec expected.boot_id expected.host expected.profile [] ≢ refused x
unfolding read get
nothing_refused x e = cc

capture_once-Reads_example :
    Reads codec expected (persisted expected) (capture_once codec smooth runner observed [])
capture_once-Reads_example =
    capture_once-Reads codec smooth runner observed [] expected ready prepares
      expected-JsonRoundTrip smooth-Succeeds nothing_refused

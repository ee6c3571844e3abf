-- ===== src/Resume/All/Samples.antt =====
-- A dead session of an allow-list, and one that is active but was not on it; the theorem at this input.
use terminal_redeemer.Base.{true, [], ◌∷◌, some, codes}
use terminal_redeemer.Model.{State, Checkpoint}
use terminal_redeemer.Zellij.Catalog.{Catalog, active, dead_resurrectable}
use terminal_redeemer.Resume.Selection.{Selection, CandidateStatus, prior_active, newest_allow_list}
use terminal_redeemer.Resume.Candidates.{AllOptions}

abbrev allow_list : Checkpoint
allow_list = record {
  boot_id = codes "boot-1";
  host = codes "host";
  profile = codes "default";
  observed_at = 100;
  state = record { workspaces = []; windows = [] };
  state_hash = [];
  recovery = record { active_sessions = codes "main" ∷ codes "gone" ∷ []; sessions = [] };
  integrity_hash = [];
}

abbrev selection : Selection
selection = record {
  status = CandidateStatus.ready;
  candidate_source = prior_active;
  checkpoint = some allow_list;
  age = 200;
  reason = newest_allow_list;
}

abbrev catalog : Catalog
catalog = record {
  sessions =
      (
        codes "main",
        record { name = codes "main"; id = []; exact_id = []; status = dead_resurrectable },
      )
      ∷ (codes "other", record { name = codes "other"; id = []; exact_id = []; status = active })
      ∷ [];
  names = codes "main" ∷ codes "other" ∷ [];
  resurrection_cache_available = true;
}

abbrev now : State
now = record { workspaces = []; windows = [] }

abbrev options : AllOptions
options = record { now = 300; max_age = 500 }

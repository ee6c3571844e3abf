-- ===== src/Checkpoints/Directory/Order.antt =====
-- `List` of internal/checkpoints/store.go: the order of its checkpoints, and what it reports.
use terminal_redeemer.Base.{◌⊎◌, Text, In}
use terminal_redeemer.Model.{Checkpoint}
use terminal_redeemer.Checkpoints.{Codec}
use terminal_redeemer.Checkpoints.Directory.{Node, Files, canonical, issues}
use terminal_redeemer.Checkpoints.Directory.Named.{Holds}
use terminal_redeemer.Checkpoints.Directory.Contents.{stored}

-- The entry's checkpoint is listed, in its normal form, or there is none and its name is reported.
abbrev pub Reported : Codec → Files → Text → Node → Type 0
Reported J files name node =
    ((c : Checkpoint) × (Holds J name node c × In (canonical c) (stored J files)))
    ⊎ (((c : Checkpoint) → ¬ Holds J name node c) × In name (issues J files))

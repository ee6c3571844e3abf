-- ===== src/Capture/Run/Stored.antt =====
-- `CaptureOnce` of internal/capture/runner.go and then `Read` of internal/checkpoints/store.go.
use terminal_redeemer.Base.{◌≡◌, sym, ap, subst, ◌∙◌, ◌≢◌}
use terminal_redeemer.Model.{Checkpoint}
use terminal_redeemer.Model.Persisted.{persisted}
use terminal_redeemer.Checkpoints.{Codec, validate_checkpoint, path_name}
use terminal_redeemer.Checkpoints.Directory.{Files, Refusal, found, refused, canonical, read}
use terminal_redeemer.Checkpoints.Write.{
  WriteResult, written, invalid, unmarshalable, refuse_replace, failed, Faults, write,
}
use terminal_redeemer.Checkpoints.Write.RoundTrip.{JsonRoundTrip, Succeeds, read-write}
use terminal_redeemer.Capture.Run.{
  Runner, Observed, success, CaptureResult, captured, published, finish_capture, prepare,
  capture_once,
}
use terminal_redeemer.Capture.Run.Published.{Succeeded, IsReady, IsWritable, prepare-IsWritable}

-- The capture reports the path and the hash, and the identity reads as the checkpoint.
abbrev pub Reads : Codec → Checkpoint → Checkpoint → Files × CaptureResult → Type 0
Reads J c d (files, r) =
    (r ≡ captured (path_name J c.boot_id c.host c.profile) c.state_hash)
    × (read J c.boot_id c.host c.profile files ≡ found d)

published-Reads :
    (J : Codec) (c d : Checkpoint) (w : Files × WriteResult)
    → w.1 ≡ written (path_name J c.boot_id c.host c.profile)
    → read J c.boot_id c.host c.profile w.0 ≡ found d
    → Reads J c d (published c w)
published-Reads J c d (files, written p) e h = (path_of e, h)
  where
    path_of :
        written p ≡ written (path_name J c.boot_id c.host c.profile)
        → captured p c.state_hash ≡ captured (path_name J c.boot_id c.host c.profile) c.state_hash
    path_of e = cc
published-Reads J c d (files, invalid x) e h = cc
published-Reads J c d (files, unmarshalable) e h = cc
published-Reads J c d (files, refuse_replace x) e h = cc
published-Reads J c d (files, failed x) e h = cc

-- Where the names of the runner are not blank, the clock is set, the catalog has one record for a name
-- and JSON gives back what it was given: a capture that observes everything, where no step of the
-- write fails and the checkpoint of its host, profile and boot can be read if there is one, reports
-- the path and the hash of the state, and reading that identity then gives what it captured, without
-- the fields that JSON leaves out.
pub capture_once-Reads :
    (J : Codec) (e : Faults) (r : Runner) (o : Observed) (files : Files) (c : Checkpoint)
    → IsReady r o
    → prepare J r o files ≡ success c
    → JsonRoundTrip J c
    → Succeeds e
    → ((x : Refusal) → read J c.boot_id c.host c.profile files ≢ refused x)
    → Reads J c (persisted c) (capture_once J e r o files)
unfolding capture_once
capture_once-Reads J e r o files c y h j s n =
    let k = subst (Succeeded (IsWritable J)) h (prepare-IsWritable J r o y files) in
    let q : canonical c ≡ c = k.0 in
    let w =
      read-write J e c files (subst (JsonRoundTrip J) (sym q) j) s
        (ap (validate_checkpoint J) q ∙ k.1) n in
    subst (λ a. Reads J c (persisted c) (finish_capture files a (λ x. write J e x files))) (sym h)
      (published-Reads J c (persisted c) (write J e c files) w.0
        (w.1 ∙ ap (λ x. found (persisted x)) q))

-- ===== src/Checkpoints/Write/RoundTrip.antt =====
-- `Write` and then `Read` of internal/checkpoints/store.go.
use terminal_redeemer.Base.{
  ◌≡◌, refl, ap, ◌∙◌, ◌≢◌, false, not, ◌==◌, [], ◌∷◌, ◌++◌, Option, none, some, ◌>>=◌, Text, same,
  put, del, get-put_same, arith, if◌then◌else◌,
}
use mathlib.Core.Path.{ap₂}
use terminal_redeemer.Model.{State, RecoveryInventory, Checkpoint}
use terminal_redeemer.Model.Normalize.{normalize, normalize_recovery, hashed_state}
use terminal_redeemer.Model.Normalize.Canonical.{
  normalize-normalize, normalize_recovery-normalize_recovery,
}
use terminal_redeemer.Model.Persisted.{
  persisted_state, persisted, normalize-persisted_state, hashed_state-persisted_state,
}
use terminal_redeemer.Checkpoints.{
  Codec, CheckpointError, is_blank, validate_recovery, no_boot_id, no_host, no_profile, no_time,
  no_state_hash, unhashable_state, state_hash_mismatch, bad_recovery, unhashable_payload,
  integrity_mismatch, digest, hash_state, recovery_integrity_hash, check_integrity, check_recovery,
  check_state_hash, validate_checkpoint, path_name,
}
use terminal_redeemer.Checkpoints.Directory.{
  file, Files, Refusal, Reading, found, missing, refused, undecodable, not_valid, canonical,
  validated, read_payload, read_node, read_path, of_identity, read,
}
use terminal_redeemer.Checkpoints.Write.{
  WriteStep, create_temp, write_temp, short_write, sync_temp, close_temp, rename_temp, sync_dir,
  WriteResult, written, Faults, temp_name, publish, unless_refused, replace, if_marshaled,
  marshal_and_replace, if_valid, write,
}

-- What encoding/json does with the structures: a text is written, which is read as the structure
-- without the fields that are not in it, and no such field changes a text.
pub record JsonRoundTrip (J : Codec) (c : Checkpoint) : Type 0 where
  pub payload : Text
  pub marshals : J.checkpoint_json c ≡ some payload
  pub parses : J.parse_checkpoint (payload ++ 10 ∷ []) ≡ some (persisted c)
  pub state_json : (s : State) → J.state_json (persisted_state s) ≡ J.state_json s
  pub payload_json :
      (s : State) (r : RecoveryInventory)
      → J.payload_json (persisted_state s) r ≡ J.payload_json s r

module _ (J : Codec) (c : Checkpoint) (h : JsonRoundTrip J (canonical c)) where
  hash_persisted : (s : State) → hash_state J (persisted_state s) ≡ hash_state J s
  unfolding hash_state
  hash_persisted s =
      ap (λ o. o >>= λ payload. some (digest J payload))
        (ap J.state_json (hashed_state-persisted_state s) ∙ h.state_json (hashed_state s))

  integrity_persisted :
      (s : State) (r : RecoveryInventory)
      → recovery_integrity_hash J (persisted_state s) r ≡ recovery_integrity_hash J s r
  unfolding recovery_integrity_hash
  integrity_persisted s r =
      ap (λ o. o >>= λ payload. some (digest J payload))
        (ap (λ x. J.payload_json x (normalize_recovery r)) (hashed_state-persisted_state s)
          ∙ h.payload_json (hashed_state s) (normalize_recovery r))

  check_integrity-persisted :
      (d : Checkpoint) → check_integrity J (persisted d) ≡ check_integrity J d
  unfolding check_integrity
  check_integrity-persisted d =
      ap
        (λ o. elim o [
          | none ↦ some unhashable_payload
          | some want ↦ if not (same d.integrity_hash want) then some integrity_mismatch else none
        ])
        (integrity_persisted d.state d.recovery)

  check_recovery-persisted : (d : Checkpoint) → check_recovery J (persisted d) ≡ check_recovery J d
  unfolding check_recovery
  check_recovery-persisted d =
      ap (λ o. elim (validate_recovery d.recovery) [ some e ↦ some (bad_recovery e) | none ↦ o ])
        (check_integrity-persisted d)

  check_state_hash-persisted :
      (d : Checkpoint) → check_state_hash J (persisted d) ≡ check_state_hash J d
  unfolding check_state_hash
  check_state_hash-persisted d =
      ap₂
        (λ o (r : Option CheckpointError). elim o [
          | none ↦ some unhashable_state
          | some hash ↦ if not (same hash d.state_hash) then some state_hash_mismatch else r
        ])
        (hash_persisted d.state) (check_recovery-persisted d)

  validate_persisted :
      (d : Checkpoint) → validate_checkpoint J (persisted d) ≡ validate_checkpoint J d
  unfolding validate_checkpoint
  validate_persisted d =
      ap
        (λ r.
          if is_blank d.boot_id
          then some no_boot_id
          else if is_blank d.host
          then some no_host
          else if is_blank d.profile
          then some no_profile
          else if d.observed_at == 0
          then some no_time
          else if is_blank d.state_hash
          then some no_state_hash
          else r)
        (check_state_hash-persisted d)

  canonical-persisted : canonical (persisted (canonical c)) ≡ persisted (canonical c)
  canonical-persisted =
      ap₂ (λ s r. record c { state = s; recovery = r })
        (normalize-persisted_state (normalize c.state)
          ∙ ap persisted_state (normalize-normalize c.state))
        (normalize_recovery-normalize_recovery c.recovery)

  read_payload-marshaled :
      validate_checkpoint J (canonical c) ≡ none
      → read_payload J (h.payload ++ 10 ∷ []) ≡ found (persisted (canonical c))
  unfolding read_payload validated
  read_payload-marshaled v =
      ap (λ o. elim o [ none ↦ refused undecodable | some d ↦ validated J (canonical d) ]) h.parses
      ∙ ap (validated J) canonical-persisted
      ∙ ap (λ o. elim o [ some e ↦ refused (not_valid e) | none ↦ found (persisted (canonical c)) ])
          (validate_persisted (canonical c) ∙ v)

-- No step fails.
abbrev pub Succeeds : Faults → Type 0
Succeeds e = (s : WriteStep) → e.fails s ≡ false

publish-written :
    (e : Faults) (path payload : Text) (files : Files)
    → Succeeds e
    → publish e path payload files ≡ (
      put path (file payload) (del (temp_name e) (put (temp_name e) (file payload) files)),
      written path,
    )
unfolding publish
publish-written e path payload files h =
    rw
      (
        h create_temp,
        h write_temp,
        h short_write,
        h sync_temp,
        h close_temp,
        h rename_temp,
        h sync_dir,
      )
      refl

unless_refused-accepts :
    (r : Reading) (files : Files) (w : Files × WriteResult)
    → ((x : Refusal) → r ≢ refused x)
    → unless_refused r files w ≡ w
unless_refused-accepts (found c) files w h = refl
unless_refused-accepts missing files w h = refl
unless_refused-accepts (refused x) files w h = absurd (h x refl)

own_identity : (c : Checkpoint) → of_identity c.boot_id c.host c.profile (found c) ≡ found c
unfolding of_identity
own_identity c = ground arith

-- The directory after the rename.
abbrev moved : Faults → Text → Text → Files → Files
moved e path payload files =
    put path (file payload) (del (temp_name e) (put (temp_name e) (file payload) files))

write-moved :
    (J : Codec) (e : Faults) (c : Checkpoint) (files : Files) (h : JsonRoundTrip J (canonical c))
    → Succeeds e
    → validate_checkpoint J (canonical c) ≡ none
    → ((x : Refusal) → read J c.boot_id c.host c.profile files ≢ refused x)
    → write J e c files ≡ (
      moved e (path_name J c.boot_id c.host c.profile) (h.payload ++ 10 ∷ []) files,
      written (path_name J c.boot_id c.host c.profile),
    )
unfolding write marshal_and_replace replace
write-moved J e c files h s v n =
    let path = path_name J c.boot_id c.host c.profile in
    ap (λ o. if_valid o files (marshal_and_replace J e (canonical c) files)) v
    ∙ ap
        (λ o.
          if_marshaled o files (λ payload. replace J e (canonical c) (payload ++ 10 ∷ []) files))
        h.marshals
    ∙ unless_refused-accepts (read J c.boot_id c.host c.profile files) files _ n
    ∙ publish-written e path (h.payload ++ 10 ∷ []) files s

read-moved :
    (J : Codec) (e : Faults) (c d : Checkpoint) (payload : Text) (files : Files)
    → read_payload J payload ≡ found d
    → of_identity c.boot_id c.host c.profile (found d) ≡ found d
    → read J c.boot_id c.host c.profile
        (moved e (path_name J c.boot_id c.host c.profile) payload files)
      ≡ found d
unfolding read read_path read_node
read-moved J e c d payload files h k =
    let path = path_name J c.boot_id c.host c.profile in
    ap (λ o. of_identity c.boot_id c.host c.profile (read_node J o))
      (get-put_same path path (file payload) _ refl)
    ∙ ap (of_identity c.boot_id c.host c.profile) h
    ∙ k

-- Where JSON gives back what it was given: a checkpoint that passes the validation is written if no
-- step fails and what is there for its identity can be read, and reading its identity then gives it
-- back, in its normal form and without the fields that JSON leaves out.
pub read-write :
    (J : Codec) (e : Faults) (c : Checkpoint) (files : Files)
    → JsonRoundTrip J (canonical c)
    → Succeeds e
    → validate_checkpoint J (canonical c) ≡ none
    → ((x : Refusal) → read J c.boot_id c.host c.profile files ≢ refused x)
    → ((write J e c files).1 ≡ written (path_name J c.boot_id c.host c.profile))
      × (read J c.boot_id c.host c.profile (write J e c files).0 ≡ found (persisted (canonical c)))
read-write J e c files h s v n =
    let w = write-moved J e c files h s v n in
    (
      ap (λ (x : Files × WriteResult). x.1) w,
      ap (λ (x : Files × WriteResult). read J c.boot_id c.host c.profile x.0) w
          ∙ read-moved J e c (persisted (canonical c)) (h.payload ++ 10 ∷ []) files
              (read_payload-marshaled J c h v) (own_identity (persisted (canonical c))),
    )

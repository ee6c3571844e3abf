-- ===== src/Checkpoints/Write/Outcome.antt =====
-- `Write` of internal/checkpoints/store.go: what can be read of each identity after it.
use terminal_redeemer.Base.{
  ◌≡◌, refl, sym, ap, ◌∙◌, ◌≢◌, ◌⊎◌, inl, inr, Bool, true, false, [], ◌∷◌, ◌++◌, Option, none, some,
  Text, codes, same, get, put, del, hex_encode, get-put, get-put_ne, get-del_ne, by_test,
  if◌then◌else◌,
}
use mathlib.Core.List.{reverse, reverse-append, append_assoc}
use terminal_redeemer.Model.{Checkpoint}
use terminal_redeemer.Checkpoints.{Codec, CheckpointError, validate_checkpoint, path_name}
use terminal_redeemer.Checkpoints.Directory.{
  Node, file, Files, Reading, found, missing, refused, canonical, read, read_path, read_node,
  of_identity, read_payload,
}
use terminal_redeemer.Checkpoints.Write.{
  WriteStep, create_temp, write_temp, short_write, sync_temp, close_temp, rename_temp, sync_dir,
  WriteResult, written, invalid, unmarshalable, refuse_replace, failed, Faults, temp_name, clean,
  publish, unless_refused, if_marshaled, if_valid, replace, marshal_and_replace, write,
}

-- A temporary file does not have the name of a checkpoint.
temp_name_ne : (e : Faults) (hex : Text) → temp_name e ≢ hex ++ codes ".json"
temp_name_ne e hex q = differ (reverse (codes ".checkpoint-" ++ e.random)) (reverse hex) turned
  where
    differ : (a b : Text) → codes "pmt." ++ a ≡ codes "nosj." ++ b → ⊥
    differ a b p = cc

    turned :
        codes "pmt." ++ reverse (codes ".checkpoint-" ++ e.random) ≡ codes "nosj." ++ reverse hex
    turned =
        sym (reverse-append (codes ".checkpoint-" ++ e.random) (codes ".tmp"))
        ∙ ap reverse (append_assoc (codes ".checkpoint-") e.random (codes ".tmp") ∙ q)
        ∙ reverse-append hex (codes ".json")

-- The rename was done.
abbrev pub Replaced : Text → WriteResult → Type 0
Replaced path r = (r ≡ written path) ⊎ (r ≡ failed sync_dir)

get-clean :
    (e : Faults) (k : Text) (files : Files) → temp_name e ≢ k → get k (clean e files) ≡ get k files
get-clean e k files h =
    by_test (λ (m : Files). get k m ≡ get k files) e.removes (del (temp_name e) files) files
      (λ _. get-del_ne (temp_name e) k files h) (λ _. refl)

get-temp :
    (e : Faults) (k payload : Text) (files : Files)
    → temp_name e ≢ k
    → get k (clean e (put (temp_name e) (file payload) files)) ≡ get k files
get-temp e k payload files h =
    get-clean e k (put (temp_name e) (file payload) files) h
    ∙ get-put_ne (temp_name e) k (file payload) files h

get-moved :
    (e : Faults) (path k payload : Text) (files : Files)
    → temp_name e ≢ k
    → get k (put path (file payload) (del (temp_name e) (put (temp_name e) (file payload) files)))
      ≡ (if same path k then some (file payload) else get k files)
get-moved e path k payload files h =
    get-put path k (file payload) (del (temp_name e) (put (temp_name e) (file payload) files))
    ∙ ap (λ o. if same path k then some (file payload) else o)
        (get-del_ne (temp_name e) k (put (temp_name e) (file payload) files) h
          ∙ get-put_ne (temp_name e) k (file payload) files h)

-- Under a name other than the temporary one: nothing changed, or the new payload is under the path.
abbrev Outcome : Text → Text → Files → Text → Files × WriteResult → Type 0
Outcome path payload files k (after, r) =
    ((get k after ≡ get k files) × ¬ Replaced path r)
    ⊎ ((get k after ≡ (if same path k then some (file payload) else get k files)) × Replaced path r)

step_fails : (path : Text) (s : WriteStep) → s ≢ sync_dir → ¬ Replaced path (failed s)
step_fails path s h (inl e) = cc
step_fails path s h (inr e) = h (cc)

publish-Outcome :
    (e : Faults) (path payload k : Text) (files : Files)
    → temp_name e ≢ k
    → Outcome path payload files k (publish e path payload files)
unfolding publish
publish-Outcome e path payload k files h =
    by_test P (e.fails create_temp) _ _ (λ _. inl (refl, step_fails path create_temp (λ q. cc)))
      (λ _.
        by_test P (e.fails write_temp) _ _
          (λ _. inl (get-temp e k e.partial_write files h, step_fails path write_temp (λ q. cc)))
          (λ _.
            by_test P (e.fails short_write) _ _
              (λ _.
                inl (get-temp e k e.partial_write files h, step_fails path short_write (λ q. cc)))
              (λ _.
                by_test P (e.fails sync_temp) _ _
                  (λ _. inl (get-temp e k payload files h, step_fails path sync_temp (λ q. cc)))
                  (λ _.
                    by_test P (e.fails close_temp) _ _
                      (λ _.
                        inl (get-temp e k payload files h, step_fails path close_temp (λ q. cc)))
                      (λ _.
                        by_test P (e.fails rename_temp) _ _
                          (λ _.
                            inl
                              (get-temp e k payload files h, step_fails path rename_temp (λ q. cc)))
                          (λ _.
                            by_test P (e.fails sync_dir) _ _
                              (λ _. inr (get-moved e path k payload files h, inr refl))
                              (λ _. inr (get-moved e path k payload files h, inl refl))))))))
  where
    P : Files × WriteResult → Type 0
    P x = Outcome path payload files k x

-- What can be read of an identity after writing a checkpoint: the same as before where the rename was
-- not done; else under its path the new text.
abbrev pub Wrote : Codec → Checkpoint → Files → Text → Text → Text → Files × WriteResult → Type 0
Wrote J c files boot host profile (after, r) =
    let path = path_name J c.boot_id c.host c.profile in
    ((read J boot host profile after ≡ read J boot host profile files) × ¬ Replaced path r)
    ⊎ ((payload : Text) × ((J.checkpoint_json (canonical c) ≡ some payload)
          × (read J boot host profile after ≡ (
              if same path (path_name J boot host profile)
              then of_identity boot host profile (read_payload J (payload ++ 10 ∷ []))
              else read J boot host profile files))
          × Replaced path r))

module _ (J : Codec) (e : Faults) (c : Checkpoint) (files : Files) (boot host profile : Text) where
  abbrev read_after : Option Node → Reading
  read_after o = of_identity boot host profile (read_node J o)

  temp_name-path_name : temp_name e ≢ path_name J boot host profile
  unfolding path_name
  temp_name-path_name = temp_name_ne e (hex_encode (J.sha256 (J.identity_json boot host profile)))

  read_after_if :
      (b : Bool) (payload : Text) (o : Option Node)
      → read_after (if b then some (file payload) else o)
        ≡ (if b then of_identity boot host profile (read_payload J payload) else read_after o)
  unfolding read_node
  read_after_if true payload o = refl
  read_after_if false payload o = refl

  publish-Wrote :
      (payload : Text)
      → J.checkpoint_json (canonical c) ≡ some payload
      → Wrote J c files boot host profile
          (publish e (path_name J c.boot_id c.host c.profile) (payload ++ 10 ∷ []) files)
  unfolding read read_path
  publish-Wrote payload h =
      let path = path_name J c.boot_id c.host c.profile in
      let name = path_name J boot host profile in
      elim (publish-Outcome e path (payload ++ 10 ∷ []) name files temp_name-path_name) [
        | inl (q, n) ↦ inl (ap read_after q, n)
        | inr (q, n) ↦ inr (
          payload,
          (
            h,
            ap read_after q ∙ read_after_if (same path name) (payload ++ 10 ∷ []) (get name files),
            n,
          ),
        )
      ]

  unchanged :
      (r : WriteResult)
      → ((path : Text) → r ≢ written path)
      → r ≢ failed sync_dir
      → Wrote J c files boot host profile (files, r)
  unchanged r n m = inl (refl, λ h. neither h)
    where
      neither : Replaced (path_name J c.boot_id c.host c.profile) r → ⊥
      neither (inl q) = n (path_name J c.boot_id c.host c.profile) q
      neither (inr q) = m q

  unless_refused-Wrote :
      (r : Reading) (w : Files × WriteResult)
      → Wrote J c files boot host profile w
      → Wrote J c files boot host profile (unless_refused r files w)
  unless_refused-Wrote (found d) w h = h
  unless_refused-Wrote missing w h = h
  unless_refused-Wrote (refused x) w h = unchanged (refuse_replace x) (λ path q. cc) (λ q. cc)

  if_marshaled-Wrote :
      (o : Option Text) (w : Text → Files × WriteResult)
      → ((payload : Text) → o ≡ some payload → Wrote J c files boot host profile (w payload))
      → Wrote J c files boot host profile (if_marshaled o files w)
  if_marshaled-Wrote none w h = unchanged unmarshalable (λ path q. cc) (λ q. cc)
  if_marshaled-Wrote (some payload) w h = h payload refl

  if_valid-Wrote :
      (o : Option CheckpointError) (w : Files × WriteResult)
      → Wrote J c files boot host profile w
      → Wrote J c files boot host profile (if_valid o files w)
  if_valid-Wrote none w h = h
  if_valid-Wrote (some x) w h = unchanged (invalid x) (λ path q. cc) (λ q. cc)

  -- Whichever steps fail, and for each identity: either `Write` does not get past the rename, and what
  -- can be read of the identity is what could be read before; or it does, and what can be read is the
  -- text of the given checkpoint for its own path, and what could be read before for any other.
  pub write-Wrote : Wrote J c files boot host profile (write J e c files)
  unfolding write marshal_and_replace replace
  write-Wrote = if_valid-Wrote (validate_checkpoint J (canonical c)) _ (
      if_marshaled-Wrote (J.checkpoint_json (canonical c)) _ (λ payload h.
        unless_refused-Wrote (read J c.boot_id c.host c.profile files) _ (publish-Wrote payload h)))

-- ===== src/Checkpoints/Directory/Named.antt =====
-- The entries of internal/checkpoints/store.go that hold a valid checkpoint under its own name.
use terminal_redeemer.Base.{
  Option, ◌∙◌, if◌then◌else◌, ◌≡◌, refl, sym, subst, ap, same, true, none, some, Text, arith,
  by_test,
}
use terminal_redeemer.Model.{Checkpoint}
use terminal_redeemer.Checkpoints.{CheckpointError, Codec, validate_checkpoint, path_name}
use terminal_redeemer.Checkpoints.Directory.{
  undecodable, not_valid, Node, folder, locked, file, canonical, Reading, found, missing, refused,
  validated, read_payload, under_name, is_checkpoint_name, candidate,
}

-- The entry is a file with a valid checkpoint, and its name is the one of that checkpoint.
pub record Holds (J : Codec) (name : Text) (node : Node) (c : Checkpoint) : Type 0 where
  pub payload : Text
  pub is_file : node ≡ file payload
  pub parsed : J.parse_checkpoint payload ≡ some c
  pub valid : validate_checkpoint J (canonical c) ≡ none
  pub named : name ≡ path_name J c.boot_id c.host c.profile

abbrev of_validation : Checkpoint → Option CheckpointError → Reading
of_validation c o = elim o [ some e ↦ refused (not_valid e) | none ↦ found c ]

validated_as :
    (J : Codec) (c : Checkpoint) → validated J c ≡ of_validation c (validate_checkpoint J c)
unfolding validated
validated_as J c = refl

abbrev of_parse : Codec → Option Checkpoint → Reading
of_parse J o = elim o [ none ↦ refused undecodable | some c ↦ validated J (canonical c) ]

read_payload_as :
    (J : Codec) (payload : Text) → read_payload J payload ≡ of_parse J (J.parse_checkpoint payload)
unfolding read_payload
read_payload_as J payload = refl

read_payload-found :
    (J : Codec) (payload : Text) (c : Checkpoint)
    → J.parse_checkpoint payload ≡ some c
    → validate_checkpoint J (canonical c) ≡ none
    → read_payload J payload ≡ found (canonical c)
read_payload-found J payload c e v =
    read_payload_as J payload
    ∙ ap (of_parse J) e
    ∙ validated_as J (canonical c)
    ∙ ap (of_validation (canonical c)) v

by_validation :
    (c d : Checkpoint) (o : Option CheckpointError)
    → of_validation c o ≡ found d
    → (o ≡ none) × (d ≡ c)
by_validation c d none h = (refl, cc)
by_validation c d (some x) h = absurd (cc)

by_parse :
    (J : Codec) (d : Checkpoint) (o : Option Checkpoint)
    → of_parse J o ≡ found d
    → (c : Checkpoint) × (o ≡ some c)
      × (validate_checkpoint J (canonical c) ≡ none)
      × (d ≡ canonical c)
by_parse J d none h = absurd (cc)
by_parse J d (some c) h =
    let v =
      by_validation (canonical c) d (validate_checkpoint J (canonical c))
        (sym (validated_as J (canonical c)) ∙ h) in
    (c, refl, v.0, v.1)

same_of : (s t : Text) → same s t ≡ true → s ≡ t
same_of s t h = ground (arith, h)

same_self : (s t : Text) → s ≡ t → same s t ≡ true
same_self s t h = ground (arith, h)

under_name-found :
    (J : Codec) (name : Text) (r : Reading) (d : Checkpoint)
    → under_name J name r ≡ some d
    → (r ≡ found d) × (name ≡ path_name J d.boot_id d.host d.profile)
unfolding under_name
under_name-found J name missing d = λ h. absurd (cc)
under_name-found J name (refused x) d = λ h. absurd (cc)
under_name-found J name (found c) d =
    by_test
      (λ o. o ≡ some d → (found c ≡ found d) × (name ≡ path_name J d.boot_id d.host d.profile))
      (same name (path_name J c.boot_id c.host c.profile)) (some c) none
      (λ t h.
        let e : c ≡ d = cc in
        (
          ap found e,
          subst (λ x. name ≡ path_name J x.boot_id x.host x.profile) e (same_of name _ t),
        ))
      (λ _ h. absurd (cc))

candidate_as :
    (J : Codec) (name payload : Text)
    → is_checkpoint_name name ≡ true
    → candidate J name (file payload) ≡ under_name J name (read_payload J payload)
unfolding candidate
candidate_as J name payload h =
    ap (λ b. if b then under_name J name (read_payload J payload) else none) h

pub Holds-candidate :
    (J : Codec) (name : Text) (node : Node) (c : Checkpoint)
    → is_checkpoint_name name ≡ true
    → Holds J name node c
    → candidate J name node ≡ some (canonical c)
unfolding under_name
Holds-candidate J name node c h v =
    ap (candidate J name) v.is_file
    ∙ candidate_as J name v.payload h
    ∙ ap (under_name J name) (read_payload-found J v.payload c v.parsed v.valid)
    ∙ ap (λ b. if b then some (canonical c) else none)
        (same_self name (path_name J c.boot_id c.host c.profile) v.named)

pub candidate-Holds :
    (J : Codec) (name : Text) (node : Node) (d : Checkpoint)
    → is_checkpoint_name name ≡ true
    → candidate J name node ≡ some d
    → (c : Checkpoint) × (Holds J name node c × (d ≡ canonical c))
unfolding candidate
candidate-Holds J name folder d h e = absurd (cc)
candidate-Holds J name locked d h e = absurd (cc)
candidate-Holds J name (file payload) d h e =
    let u =
      under_name-found J name (read_payload J payload) d
        (sym (candidate_as J name payload h) ∙ e) in
    let (c, parsed, valid, q) =
      by_parse J d (J.parse_checkpoint payload) (sym (read_payload_as J payload) ∙ u.0) in
    (
      c,
      (
        record {
          payload = payload;
          is_file = refl;
          parsed = parsed;
          valid = valid;
          named = u.1 ∙ ap (λ (x : Checkpoint). path_name J x.boot_id x.host x.profile) q;
        },
        q,
      ),
    )

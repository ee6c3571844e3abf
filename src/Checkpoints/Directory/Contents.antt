-- ===== src/Checkpoints/Directory/Contents.antt =====
-- internal/checkpoints/store.go: what the checkpoints of a listing have passed.
use terminal_redeemer.Base.{
  ◌≡◌, ap, inl, inr, List, [], ◌∷◌, none, some, Text, same, All-In, In, In-All, In-sort_by,
  sort_by-All, by_test, Option-cases,
}
use terminal_redeemer.Model.{Checkpoint}
use terminal_redeemer.Checkpoints.{Codec, validate_checkpoint, path_name}
use terminal_redeemer.Checkpoints.Directory.{
  Node, folder, locked, file, Files, present, Reading, found, missing, refused, canonical,
  is_checkpoint_name, Candidate, validated, under_name, candidate, candidates, checkpoints_of,
  read_payload, listed, list_failed, list, checkpoint_before,
}

-- The checkpoints that `List` gives of a directory.
abbrev pub stored : Codec → Files → List Checkpoint
stored J files = elim (list J (present files)) [ listed l ↦ l.checkpoints | list_failed _ ↦ [] ]

In-checkpoints_of :
    (name : Text) (c : Checkpoint) (cs : List Candidate)
    → In (name, c) cs
    → In c (checkpoints_of cs)
In-checkpoints_of name c ((n, d) ∷ cs) (inl e) = inl (ap (λ x. x.1) e)
In-checkpoints_of name c ((n, d) ∷ cs) (inr m) = inr (In-checkpoints_of name c cs m)
In-checkpoints_of name c [] m = absurd m

checkpoints_of-In :
    (c : Checkpoint) (cs : List Candidate)
    → In c (checkpoints_of cs)
    → (name : Text) × In (name, c) cs
checkpoints_of-In c ((n, d) ∷ cs) (inl e) = (n, inl (ap (λ x. (n, x)) e))
checkpoints_of-In c ((n, d) ∷ cs) (inr m) =
    let (name, k) = checkpoints_of-In c cs m in (name, inr k)
checkpoints_of-In c [] m = absurd m

pub In-stored :
    (J : Codec) (files : Files) (name : Text) (c : Checkpoint)
    → In (name, c) (candidates J files)
    → In c (stored J files)
unfolding list
In-stored J files name c m =
    All-In (λ x. In x (stored J files)) c (checkpoints_of (candidates J files))
      (sort_by-All (λ x. In x (stored J files)) checkpoint_before
        (checkpoints_of (candidates J files))
        (In-All (λ x. In x (stored J files)) (stored J files) (λ x k. k)))
      (In-checkpoints_of name c (candidates J files) m)

pub stored-In :
    (J : Codec) (files : Files) (c : Checkpoint)
    → In c (stored J files)
    → (name : Text) × In (name, c) (candidates J files)
unfolding list
stored-In J files c m =
    checkpoints_of-In c (candidates J files)
      (In-sort_by checkpoint_before c (checkpoints_of (candidates J files)) m)

-- What was found has passed the validation.
abbrev pub Passed : Codec → Reading → Type 0
Passed J (found c) = validate_checkpoint J c ≡ none
Passed J missing = Unit
Passed J (refused _) = Unit

validated-Passed : (J : Codec) (c : Checkpoint) → Passed J (validated J c)
unfolding validated
validated-Passed J c = elim (Option-cases (validate_checkpoint J c)) [
  | inl e ↦ rw (e, Passed) e
  | inr (x, e) ↦ rw (e, Passed) tt
]

read_payload-Passed : (J : Codec) (payload : Text) → Passed J (read_payload J payload)
unfolding read_payload
read_payload-Passed J payload = elim (Option-cases (J.parse_checkpoint payload)) [
  | inl e ↦ rw (e, Passed) tt
  | inr (c, e) ↦ rw (e, Passed) (validated-Passed J (canonical c))
]

under_name-valid :
    (J : Codec) (name : Text) (r : Reading) (c : Checkpoint)
    → Passed J r
    → under_name J name r ≡ some c
    → validate_checkpoint J c ≡ none
unfolding under_name
under_name-valid J name (found d) c h e =
    by_test (λ o. o ≡ some c → validate_checkpoint J c ≡ none)
      (same name (path_name J d.boot_id d.host d.profile)) _ _ (λ _ k. cc) (λ _ k. cc) e
under_name-valid J name missing c h e = cc
under_name-valid J name (refused _) c h e = cc

pub candidate-valid :
    (J : Codec) (name : Text) (node : Node) (c : Checkpoint)
    → candidate J name node ≡ some c
    → validate_checkpoint J c ≡ none
unfolding candidate
candidate-valid J name folder c e = cc
candidate-valid J name locked c e = cc
candidate-valid J name (file payload) c e =
    by_test (λ r. r ≡ some c → validate_checkpoint J c ≡ none) (is_checkpoint_name name) _ _
      (λ _ k. under_name-valid J name (read_payload J payload) c (read_payload-Passed J payload) k)
      (λ _ k. cc) e

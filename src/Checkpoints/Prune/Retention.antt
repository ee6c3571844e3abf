-- ===== src/Checkpoints/Prune/Retention.antt =====
-- `Prune` of internal/checkpoints/store.go: why an entry of the directory is gone afterwards.
use terminal_redeemer.Base.{
  ℕ, ◌<◌, ◌≡◌, sym, ap, subst, ◌∙◌, ◌≢◌, ◌⊎◌, inl, inr, Bool, true, false, not, ◌||◌, [], none,
  some, Text, same, ltb, In, Distinct, keys, text_discrete, arith, by_test, Bool-cases,
  Option-cases, trim_space,
}
use terminal_redeemer.Model.{Checkpoint}
use terminal_redeemer.Checkpoints.{Codec}
use terminal_redeemer.Checkpoints.Directory.{Files, present, Candidate, candidate, candidates}
use terminal_redeemer.Checkpoints.Prune.{
  Protection, protect, is_protected, Pruned, remove_expired, prune_files, prune,
}
use terminal_redeemer.Checkpoints.Prune.Priors.{
  Covers, Covered-In, protect-current, protect-Covered, protect_sound, Prior, seen-names_of,
}
use terminal_redeemer.Checkpoints.Prune.Removal.{
  Entry, Spared, remove_expired-Spared, remove_expired-In, sync_removed-files, In-candidates,
  candidates-In, In_unique,
}

-- An expired checkpoint of another boot, and another one of its host and profile that is not older.
abbrev pub Superseded : Codec → ℕ → Text → Files → Entry → Type 0
Superseded J cutoff boot files x =
    (c : Checkpoint) × ((candidate J x.0 x.1 ≡ some c)
      × (c.observed_at < cutoff)
      × (c.boot_id ≢ boot)
      × ((y : Candidate) × (In y (candidates J files) × (y.1.boot_id ≢ boot) × Covers y.1 c)))

module _ (J : Codec) (removable : Text → Bool) (cutoff : ℕ) (boot : Text) (files : Files) where
  abbrev protection : Protection
  protection = protect boot (candidates J files) (record { current = []; priors = [] })

  abbrev removals : Pruned
  removals = remove_expired removable (is_protected protection) cutoff (candidates J files) files 0

  abbrev left : Files
  left = removals.files

  protected_stays : (x : Entry) → is_protected protection x.0 ≡ true → In x files → In x left
  protected_stays x h m =
      remove_expired-Spared removable (is_protected protection) cutoff (candidates J files) files 0
        x (λ c k. ground (arith, h)) m

  -- A protected candidate is still one.
  candidate_stays :
      (y : Candidate)
      → is_protected protection y.0 ≡ true
      → In y (candidates J files)
      → In y (candidates J left)
  candidate_stays y h m =
      let (node, (i, e)) = candidates-In J y.0 y.1 files m in
      In-candidates J y.0 node y.1 left (protected_stays (y.0, node) h i) e

  prior-is_protected : (y : Candidate) → In y protection.priors → is_protected protection y.0 ≡ true
  unfolding is_protected
  prior-is_protected y m = ground (arith, seen-names_of y protection.priors m)

  priors_Prior : (y : Candidate) → In y protection.priors → Prior boot (candidates J files) y
  priors_Prior y m = only (protect_sound boot (candidates J files) _ y m)
    where
      only : ⊥ ⊎ Prior boot (candidates J files) y → Prior boot (candidates J files) y
      only (inl b) = absurd b
      only (inr p) = p

  current-is_protected :
      (name : Text) (c : Checkpoint)
      → In (name, c) (candidates J files)
      → c.boot_id ≡ boot
      → is_protected protection name ≡ true
  unfolding is_protected
  current-is_protected name c m e = ground (
    arith,
    protect-current boot name c (candidates J files) (record { current = []; priors = [] }) m e,
  )

  prior-Superseded :
      (x : Entry) (c : Checkpoint)
      → candidate J x.0 x.1 ≡ some c
      → ltb c.observed_at cutoff ≡ true
      → c.boot_id ≢ boot
      → In (x.0, c) (candidates J files)
      → Superseded J cutoff boot left x
  prior-Superseded x c e t n m =
      let (y, (i, k)) =
        Covered-In c protection.priors (protect-Covered boot x.0 c (candidates J files) _ m n) in
      let p = priors_Prior y i in
      (c, (e, ground arith, n, (y, (candidate_stays y (prior-is_protected y i) p.0, p.1, k))))

  -- The only candidate of a name decides whether its entry is spared.
  unexpired-Spared :
      (x : Entry) (c : Checkpoint)
      → Distinct (keys files)
      → In x files
      → candidate J x.0 x.1 ≡ some c
      → ltb c.observed_at cutoff ≡ false
      → Spared (is_protected protection) cutoff x.0 (candidates J files)
  unexpired-Spared x c d m e f a k =
      let (node, (i, h)) = candidates-In J x.0 a files k in
      let q : node ≡ x.1 = In_unique x.0 node x.1 files d i m in
      decide (is_protected protection x.0) (some_inj (sym h ∙ ap (candidate J x.0) q ∙ e))
    where
      some_inj : {a b : Checkpoint} → some a ≡ some b → a ≡ b
      some_inj p = cc

      decide : (b : Bool) → a ≡ c → (b || not (ltb a.observed_at cutoff)) ≡ true
      decide b p =
          let q : a.observed_at ≡ c.observed_at = ap (λ y. y.observed_at) p in ground (arith, f)

  absent-Spared :
      (x : Entry)
      → Distinct (keys files)
      → In x files
      → candidate J x.0 x.1 ≡ none
      → Spared (is_protected protection) cutoff x.0 (candidates J files)
  absent-Spared x d m e a k =
      let (node, (i, h)) = candidates-In J x.0 a files k in
      let q : node ≡ x.1 = In_unique x.0 node x.1 files d i m in
      absurd (clash (sym h ∙ ap (candidate J x.0) q ∙ e))
    where
      clash : some a ≡ none → ⊥
      clash p = cc

  spared_stays :
      (x : Entry)
      → Spared (is_protected protection) cutoff x.0 (candidates J files)
      → In x files
      → In x left
  spared_stays x h m =
      remove_expired-Spared removable (is_protected protection) cutoff (candidates J files) files 0
        x h m

  candidate-Retained :
      (x : Entry) (c : Checkpoint)
      → Distinct (keys files)
      → In x files
      → candidate J x.0 x.1 ≡ some c
      → In x left ⊎ Superseded J cutoff boot left x
  candidate-Retained x c d m e =
      let k = In-candidates J x.0 x.1 c files m e in
      elim (Bool-cases (ltb c.observed_at cutoff)) [
        | inr f ↦ inl (spared_stays x (unexpired-Spared x c d m e f) m)
        | inl t ↦ elim (text_discrete c.boot_id boot) [
          | yes q ↦ inl (protected_stays x (current-is_protected x.0 c k q) m)
          | no n ↦ inr (prior-Superseded x c e t n k)
        ]
      ]

  left-Retained :
      (x : Entry) → Distinct (keys files) → In x files → In x left ⊎ Superseded J cutoff boot left x
  left-Retained x d m = elim (Option-cases (candidate J x.0 x.1)) [
    | inl e ↦ inl (spared_stays x (absent-Spared x d m e) m)
    | inr (c, e) ↦ candidate-Retained x c d m e
  ]

-- What pruning leaves of a directory.
abbrev pub Retains : Codec → ℕ → Text → Files → Files → Type 0
Retains J cutoff boot files after =
    ((x : Entry) → In x after → In x files)
    × ((x : Entry) → In x files → In x after ⊎ Superseded J cutoff boot after x)

prune_files-Retains :
    (J : Codec) (removable : Text → Bool) (syncs : Bool) (cutoff : ℕ) (boot : Text) (files : Files)
    → Distinct (keys files)
    → Retains J cutoff boot files (prune_files J removable syncs cutoff boot files).files
unfolding prune_files
prune_files-Retains J removable syncs cutoff boot files d =
    subst (Retains J cutoff boot files)
      (sym (sync_removed-files syncs (removals J removable cutoff boot files)))
      (
        λ x m. remove_expired-In removable _ cutoff (candidates J files) files 0 x m,
        λ x m. left-Retained J removable cutoff boot files x d m,
      )

-- Whichever removals fail, `Prune` adds no entry, and removes one only if it is an expired checkpoint
-- of another boot, in place of which one of its host and profile that is not older stays, of another
-- boot too; the names in a directory are distinct.
pub prune-Retains :
    (J : Codec) (removable : Text → Bool) (syncs : Bool) (cutoff : ℕ) (boot : Text) (files : Files)
    → Distinct (keys files)
    → Retains J cutoff
        (trim_space boot)
        files
        (prune J removable syncs cutoff boot (present files)).files
unfolding prune
prune-Retains J removable syncs cutoff boot files d =
    by_test (λ (r : Pruned). Retains J cutoff (trim_space boot) files r.files)
      (same (trim_space boot) []) _ _ (λ _. (λ x m. m, λ x m. inl m))
      (λ _. prune_files-Retains J removable syncs cutoff (trim_space boot) files d)

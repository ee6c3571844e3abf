-- ===== src/Checkpoints/Prune/Choice.antt =====
-- `Prune` of internal/checkpoints/store.go, followed by `SelectAll` of internal/resume/planner_all.go
-- on what `List` gives.
use terminal_redeemer.Base.{
  ℕ, ◌≤◌, ◌≡◌, refl, sym, ap, subst, ◌∙◌, ◌≢◌, ◌⊎◌, inl, inr, Bool, List, [], Option, none, some,
  Text, All-In, In, Distinct, keys, arith, by_test, trim_space,
}
use terminal_redeemer.Model.{Checkpoint}
use terminal_redeemer.Checkpoints.{Codec, CheckpointError, is_blank, validate_checkpoint}
use terminal_redeemer.Checkpoints.Directory.{Files, present}
use terminal_redeemer.Checkpoints.Directory.Contents.{stored, In-stored, stored-In, candidate-valid}
use terminal_redeemer.Checkpoints.Prune.{prune}
use terminal_redeemer.Checkpoints.Prune.Priors.{Covers}
use terminal_redeemer.Checkpoints.Prune.Removal.{In-candidates, candidates-In}
use terminal_redeemer.Checkpoints.Prune.Retention.{Retains, prune-Retains}
use terminal_redeemer.Resume.Selection.{SelectOptions, Selection, select_all}
use terminal_redeemer.Resume.Selection.Eligibility.{
  OfBoot, OfPriorBoot, Chooses, ChoosesAll, same_boot, other_boot, select_all-ChoosesAll,
}

-- When the chosen checkpoint was observed.
abbrev pub time_of : Option Checkpoint → Option ℕ
time_of none = none
time_of (some c) = some c.observed_at

-- Each eligible one has one on the other list that is eligible and not older.
abbrev Outdone : (Checkpoint → Type 0) → List Checkpoint → List Checkpoint → Type 0
Outdone P cs ds =
    (c : Checkpoint)
    → In c cs
    → P c
    → (d : Checkpoint) × (In d ds × P d × (c.observed_at ≤ d.observed_at))

Chooses-time_of :
    (P : Checkpoint → Type 0) (cs ds : List Checkpoint) (r s : Option Checkpoint)
    → Outdone P cs ds
    → Outdone P ds cs
    → Chooses P cs r
    → Chooses P ds s
    → time_of r ≡ time_of s
Chooses-time_of P cs ds none none f g h k = refl
Chooses-time_of P cs ds none (some b) f g h k =
    let (d, (m, p, _)) = g b k.0 k.1 in absurd (All-In (λ c. ¬ P c) d cs h m p)
Chooses-time_of P cs ds (some a) none f g h k =
    let (d, (m, p, _)) = f a h.0 h.1 in absurd (All-In (λ c. ¬ P c) d ds k m p)
Chooses-time_of P cs ds (some a) (some b) f g h k =
    let (d, (m, p, u)) = f a h.0 h.1 in
    let (e, (n, q, v)) = g b k.0 k.1 in
    let x = All-In (λ c. P c → c.observed_at ≤ b.observed_at) d ds k.2 m p in
    let y = All-In (λ c. P c → c.observed_at ≤ a.observed_at) e cs h.2 n q in
    ap some (omega (arith, u, v, x, y))

abbrev pub SameChoice : Selection → Selection → Type 0
SameChoice s t =
    (s.candidate_source ≡ t.candidate_source) × (time_of s.checkpoint ≡ time_of t.checkpoint)

module _ (o : SelectOptions) (cs ds : List Checkpoint) (now_up : Outdone (OfBoot o) cs ds)
    (now_down : Outdone (OfBoot o) ds cs) (prior_up : Outdone (OfPriorBoot o) cs ds)
    (prior_down : Outdone (OfPriorBoot o) ds cs) where
  one_only : {c : ℕ} → some c ≡ none → ⊥
  one_only e = cc

  ChoosesAll-SameChoice : (s t : Selection) → ChoosesAll o cs s → ChoosesAll o ds t → SameChoice s t
  ChoosesAll-SameChoice s t (same_boot c p _ q h) (same_boot d p' _ q' h') = (
    p ∙ sym p',
    ap time_of q
        ∙ Chooses-time_of (OfBoot o) cs ds (some c) (some d) now_up now_down h h'
        ∙ sym (ap time_of q'),
  )
  ChoosesAll-SameChoice s t (same_boot c p _ q h) (other_boot p' h' _ _) =
      absurd (one_only (Chooses-time_of (OfBoot o) cs ds (some c) none now_up now_down h h'))
  ChoosesAll-SameChoice s t (other_boot p h _ _) (same_boot d p' _ q' h') =
      absurd (one_only (sym (Chooses-time_of (OfBoot o) cs ds none (some d) now_up now_down h h')))
  ChoosesAll-SameChoice s t (other_boot p h k _) (other_boot p' h' k' _) = (
    p ∙ sym p',
    Chooses-time_of (OfPriorBoot o) cs ds s.checkpoint t.checkpoint prior_up prior_down k k',
  )

validate_checkpoint-boot_id :
    (J : Codec) (c : Checkpoint) → validate_checkpoint J c ≡ none → trim_space c.boot_id ≢ []
unfolding validate_checkpoint
validate_checkpoint-boot_id J c e =
    by_test (λ (r : Option CheckpointError). r ≡ none → trim_space c.boot_id ≢ [])
      (is_blank c.boot_id) _ _ (λ _ k. cc) (λ f _ q. ground (arith, f, q)) e

module _ (J : Codec) (cutoff : ℕ) (o : SelectOptions) (files after : Files)
    (r : Retains J cutoff (trim_space o.current_boot_id) files after) where
  stored_grows : (c : Checkpoint) → In c (stored J after) → In c (stored J files)
  stored_grows c m =
      let (name, k) = stored-In J after c m in
      let (node, (i, e)) = candidates-In J name c after k in
      In-stored J files name c (In-candidates J name node c files (r.0 (name, node) i) e)

  -- A stored checkpoint stays, or is superseded by another.
  stored_stays :
      (c : Checkpoint)
      → In c (stored J files)
      → In c (stored J after)
        ⊎ ((c.boot_id ≢ trim_space o.current_boot_id)
            × ((d : Checkpoint) × (In d (stored J after)
                  × (trim_space d.boot_id ≢ [])
                  × (d.boot_id ≢ trim_space o.current_boot_id)
                  × Covers d c)))
  stored_stays c m =
      let (name, k) = stored-In J files c m in
      let (node, (i, e)) = candidates-In J name c files k in
      elim (r.1 (name, node) i) [
        | inl n ↦ inl (In-stored J after name c (In-candidates J name node c after n e))
        | inr (b, (h, _, p, (y, (n, q, v)))) ↦
            let w = candidates-In J y.0 y.1 after n in
            let bc : b ≡ c = some_inj (sym h ∙ e) in
            inr (
              subst (λ x. x.boot_id ≢ trim_space o.current_boot_id) bc p,
              (
                y.1,
                (
                  In-stored J after y.0 y.1 n,
                  validate_checkpoint-boot_id J y.1 (candidate-valid J y.0 w.0 y.1 w.1.1),
                  q,
                  subst (Covers y.1) bc v,
                ),
              ),
            )
      ]
    where
      some_inj : {a b : Checkpoint} → some a ≡ some b → a ≡ b
      some_inj p = cc

  current-Outdone : Outdone (OfBoot o) (stored J files) (stored J after)
  current-Outdone c m p = elim (stored_stays c m) [
    | inl k ↦ (c, (k, p, omega arith))
    | inr h ↦ absurd (h.0 p.1)
  ]

  prior-Outdone : Outdone (OfPriorBoot o) (stored J files) (stored J after)
  prior-Outdone c m p = elim (stored_stays c m) [
    | inl k ↦ (c, (k, p, omega arith))
    | inr (_, (d, (k, n, q, v))) ↦ (d, (k, ((n, host d v p.0.1, profile d v p.0.2), q), v.2))
  ]
    where
      host :
          (d : Checkpoint)
          → Covers d c
          → (o.host ≡ []) ⊎ (c.host ≡ o.host)
          → (o.host ≡ []) ⊎ (d.host ≡ o.host)
      host d v (inl e) = inl e
      host d v (inr e) = inr (v.0 ∙ e)

      profile :
          (d : Checkpoint)
          → Covers d c
          → (o.profile ≡ []) ⊎ (c.profile ≡ o.profile)
          → (o.profile ≡ []) ⊎ (d.profile ≡ o.profile)
      profile d v (inl e) = inl e
      profile d v (inr e) = inr (v.1 ∙ e)

  grown-Outdone : (P : Checkpoint → Type 0) → Outdone P (stored J after) (stored J files)
  grown-Outdone P c m p = (c, (stored_grows c m, p, omega arith))

  select_all-Retains : SameChoice (select_all (stored J after) o) (select_all (stored J files) o)
  select_all-Retains =
      ChoosesAll-SameChoice o (stored J after) (stored J files) (grown-Outdone (OfBoot o))
        current-Outdone (grown-Outdone (OfPriorBoot o)) prior-Outdone
        (select_all (stored J after) o) (select_all (stored J files) o)
        (select_all-ChoosesAll (stored J after) o) (select_all-ChoosesAll (stored J files) o)

-- A recovery of all sessions that is asked for after a `Prune` with its boot ID finds a checkpoint
-- exactly if it did before: from the same source, this boot or a prior one, and observed at the same
-- time; the names in a directory are distinct.
pub select_all-prune :
    (J : Codec) (removable : Text → Bool) (syncs : Bool) (cutoff : ℕ) (o : SelectOptions)
    (files : Files)
    → Distinct (keys files)
    → SameChoice
        (select_all
          (stored J (prune J removable syncs cutoff o.current_boot_id (present files)).files)
          o)
        (select_all (stored J files) o)
select_all-prune J removable syncs cutoff o files d =
    select_all-Retains J cutoff o files
      (prune J removable syncs cutoff o.current_boot_id (present files)).files
      (prune-Retains J removable syncs cutoff o.current_boot_id files d)

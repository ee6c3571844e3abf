-- ===== src/Resume/Selection/Eligibility.antt =====
-- The contract of the selection: which checkpoints are eligible, and what the status says of the one
-- that is chosen.
use terminal_redeemer.Base.{
  ℕ, ◌+◌, ◌-◌, ◌^◌, ◌&&◌, ◌==◌, not, ltb, ◌≤◌, ◌≡◌, refl, ◌≢◌, ◌↔◌, ◌⊎◌, inl, inr, Bool, true,
  false, List, [], ◌∷◌, Option, none, some, All, In, arith, Option-cases, subst, trim_space,
}
use terminal_redeemer.Model.{Checkpoint}
use terminal_redeemer.Resume.Selection.{
  SelectOptions, Selection, ready, not_found, current_active, prior_active, newest, is_candidate,
  is_current, is_prior, assess, assess_prior, select, select_prior, select_all, terminal_windows,
  checkpoint_age,
}
use terminal_redeemer.Resume.Selection.Newest.{IsNewest, newest-IsNewest}

-- The host and the profile are the asked ones, where any are asked.
abbrev pub InScope : SelectOptions → Checkpoint → Type 0
InScope o c =
    (trim_space c.boot_id ≢ [])
    × ((o.host ≡ []) ⊎ (c.host ≡ o.host))
    × ((o.profile ≡ []) ⊎ (c.profile ≡ o.profile))

-- A checkpoint of another boot.
abbrev pub Eligible : SelectOptions → Checkpoint → Type 0
Eligible o c = InScope o c × (trim_space c.boot_id ≢ trim_space o.current_boot_id)

abbrev pub OfBoot : SelectOptions → Checkpoint → Type 0
OfBoot o c = InScope o c × (c.boot_id ≡ trim_space o.current_boot_id)

abbrev pub OfPriorBoot : SelectOptions → Checkpoint → Type 0
OfPriorBoot o c = InScope o c × (c.boot_id ≢ trim_space o.current_boot_id)

is_candidate_iff : (o : SelectOptions) (c : Checkpoint) → (is_candidate o c ≡ true) ↔ Eligible o c
unfolding is_candidate
is_candidate_iff o c = (λ h. ground arith, λ h. ground arith)

is_current_iff : (o : SelectOptions) (c : Checkpoint) → (is_current o c ≡ true) ↔ OfBoot o c
unfolding is_current
is_current_iff o c = (λ h. ground arith, λ h. ground arith)

is_prior_iff : (o : SelectOptions) (c : Checkpoint) → (is_prior o c ≡ true) ↔ OfPriorBoot o c
unfolding is_prior
is_prior_iff o c = (λ h. ground arith, λ h. ground arith)

-- The newest of the checkpoints with the property, if there is one.
abbrev pub Chooses : (Checkpoint → Type 0) → List Checkpoint → Option Checkpoint → Type 0
Chooses P cs none = All (λ c. ¬ P c) cs
Chooses P cs (some b) = In b cs × P b × All (λ c. P c → c.observed_at ≤ b.observed_at) cs

All-map :
    (P Q : Checkpoint → Type 0) (cs : List Checkpoint)
    → ((c : Checkpoint) → P c → Q c)
    → All P cs
    → All Q cs
All-map P Q [] f h = tt
All-map P Q (c ∷ cs) f h = (f c h.0, All-map P Q cs f h.1)

newest-Chooses :
    (p : Checkpoint → Bool) (P : Checkpoint → Type 0) (cs : List Checkpoint) (x : Option Checkpoint)
    → ((c : Checkpoint) → (p c ≡ true) ↔ P c)
    → IsNewest p cs x
    → Chooses P cs x
newest-Chooses p P cs none f h =
    All-map (λ c. p c ≡ false) (λ c. ¬ P c) cs (λ c e q. absurd (clash (p c) ((f c).1 q) e)) h
  where
    clash : (b : Bool) → b ≡ true → b ≡ false → ⊥
    clash b t e = cc
newest-Chooses p P cs (some b) f h = (
  h.0,
  (f b).0 h.1,
  All-map (λ c. p c ≡ true → c.observed_at ≤ b.observed_at)
      (λ c. P c → c.observed_at ≤ b.observed_at) cs (λ c g q. g ((f c).1 q)) h.2,
)

-- A checkpoint of the time is young enough: no limit is set, the time is not known, the limit has not
-- passed since, or it is the greatest duration that there is.
abbrev pub InTime : SelectOptions → ℕ → Type 0
InTime o observed_at =
    (o.max_age ≡ 0) ⊎ ((o.now ≡ 0) ⊎ ((o.now ≤ observed_at + o.max_age) ⊎ (2 ^ 63 - 1 ≤ o.max_age)))

age_InTime :
    (o : SelectOptions) (t : ℕ)
    → (not (o.max_age == 0) && ltb o.max_age (checkpoint_age t o.now)) ≡ false
    → InTime o t
unfolding checkpoint_age
age_InTime o t h = ground arith

InTime-age :
    (o : SelectOptions) (t : ℕ)
    → InTime o t
    → (not (o.max_age == 0) && ltb o.max_age (checkpoint_age t o.now)) ≡ false
unfolding checkpoint_age
InTime-age o t h = ground arith

-- The status of a selection: what is chosen can be used, in time; nothing chosen is not found.
abbrev pub Assessed : SelectOptions → (Checkpoint → Type 0) → Selection → Option Checkpoint → Type 0
Assessed o Usable s none = s.status ≡ not_found
Assessed o Usable s (some c) = (s.status ≡ ready) ↔ (InTime o c.observed_at × Usable c)

assess-status :
    (o : SelectOptions) (c : Checkpoint)
    → ((assess o c).status ≡ ready) ↔ (InTime o c.observed_at × (terminal_windows c.state ≢ []))
unfolding assess
assess-status o c = (
  (λ h. (age_InTime o c.observed_at (ground arith), ground arith)),
  (λ h. let k = InTime-age o c.observed_at h.0 in ground arith),
)

assess-checkpoint : (o : SelectOptions) (c : Checkpoint) → (assess o c).checkpoint ≡ some c
unfolding assess
assess-checkpoint o c = ground arith

-- The newest eligible checkpoint of another boot is chosen, whatever it contains, and it is ready
-- exactly if its time is young enough and it has terminal windows.
pub select-Chooses :
    (cs : List Checkpoint) (o : SelectOptions)
    → Chooses (Eligible o) cs (select cs o).checkpoint
      × Assessed o (λ c. terminal_windows c.state ≢ []) (select cs o) (select cs o).checkpoint
unfolding select
select-Chooses cs o = elim (Option-cases (newest (is_candidate o) none cs)) [
  | inl e ↦
      rw (e, select)
        (
          newest-Chooses (is_candidate o) (Eligible o) cs none (is_candidate_iff o)
              (subst (IsNewest (is_candidate o) cs) e (newest-IsNewest (is_candidate o) cs)),
          refl,
        )
  | inr (c, e) ↦
      rw (e, select)
        (rw (assess-checkpoint o c) (
          newest-Chooses (is_candidate o) (Eligible o) cs (some c) (is_candidate_iff o)
              (subst (IsNewest (is_candidate o) cs) e (newest-IsNewest (is_candidate o) cs)),
          assess-status o c,
        ))
]

assess_prior-status :
    (o : SelectOptions) (c : Checkpoint)
    → ((assess_prior o c).status ≡ ready)
      ↔ (InTime o c.observed_at × (c.recovery.active_sessions ≢ []))
unfolding assess_prior
assess_prior-status o c = (
  (λ h. (age_InTime o c.observed_at (ground arith), ground arith)),
  (λ h. let k = InTime-age o c.observed_at h.0 in ground arith),
)

-- What `SelectAll` chooses, by the source that it names.
pub data ChoosesAll (o : SelectOptions) (cs : List Checkpoint) (s : Selection) : Type 0 where
  same_boot :
      (c : Checkpoint)
      → s.candidate_source ≡ current_active
      → s.status ≡ ready
      → s.checkpoint ≡ some c
      → Chooses (OfBoot o) cs (some c)
      → ChoosesAll o cs s
  other_boot :
      s.candidate_source ≡ prior_active
      → Chooses (OfBoot o) cs none
      → Chooses (OfPriorBoot o) cs s.checkpoint
      → Assessed o (λ c. c.recovery.active_sessions ≢ []) s s.checkpoint
      → ChoosesAll o cs s

select_prior-ChoosesAll :
    (cs : List Checkpoint) (o : SelectOptions)
    → Chooses (OfBoot o) cs none
    → ChoosesAll o cs (select_prior cs o)
unfolding select_prior
select_prior-ChoosesAll cs o h = elim (Option-cases (newest (is_prior o) none cs)) [
  | inl e ↦
      rw (e, select_prior)
        (other_boot refl h
          (newest-Chooses (is_prior o) (OfPriorBoot o) cs none (is_prior_iff o)
            (subst (IsNewest (is_prior o) cs) e (newest-IsNewest (is_prior o) cs)))
          refl)
  | inr (c, e) ↦
      rw (e, select_prior)
        (other_boot refl h
          (newest-Chooses (is_prior o) (OfPriorBoot o) cs (some c) (is_prior_iff o)
            (subst (IsNewest (is_prior o) cs) e (newest-IsNewest (is_prior o) cs)))
          (assess_prior-status o c))
]

-- The newest checkpoint of this boot is chosen if there is one, and is ready at any age; only
-- where there is none the newest prior one is, ready exactly if its time is young enough and its
-- allow-list is not empty.
pub select_all-ChoosesAll :
    (cs : List Checkpoint) (o : SelectOptions) → ChoosesAll o cs (select_all cs o)
unfolding select_all
select_all-ChoosesAll cs o = elim (Option-cases (newest (is_current o) none cs)) [
  | inl e ↦
      rw (e, select_all)
        (select_prior-ChoosesAll cs o (
          newest-Chooses (is_current o) (OfBoot o) cs none (is_current_iff o)
            (subst (IsNewest (is_current o) cs) e (newest-IsNewest (is_current o) cs))))
  | inr (c, e) ↦
      rw (e, select_all)
        (same_boot c refl refl refl (
          newest-Chooses (is_current o) (OfBoot o) cs (some c) (is_current_iff o)
            (subst (IsNewest (is_current o) cs) e (newest-IsNewest (is_current o) cs))))
]

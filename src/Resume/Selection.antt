-- ===== src/Resume/Selection.antt =====
-- internal/resume/planner.go and internal/resume/planner_all.go: the choice of a checkpoint. Times are
-- nanoseconds since Go's zero time.
pub mod Newest
pub mod Eligibility
use terminal_redeemer.Base.{
  ℕ, ◌-◌, ◌^◌, min, Bool, true, false, not, ◌&&◌, ◌||◌, ◌==◌, List, [], ◌∷◌, Option, none, some,
  Text, same, codes, ltb, if◌then◌else◌, trim_space, to_lower, keep, sort_by, any,
}
use terminal_redeemer.Model.{Window, State, Checkpoint, window_before}

pub data CandidateStatus : Type 0 where
  ready empty stale not_found : CandidateStatus

pub data CandidateSource : Type 0 where
  no_source current_active prior_active : CandidateSource

pub data SelectionReason : Type 0 where
  no_reason no_prior_checkpoint exceeds_age no_terminal_windows sticky_placement no_recovery_point
        newest_allow_list no_active_sessions recovery_exceeds_age :
      SelectionReason

pub record SelectOptions : Type 0 where
  pub current_boot_id : Text
  pub host : Text
  pub profile : Text
  pub now : ℕ
  pub max_age : ℕ

pub record Selection : Type 0 where
  pub status : CandidateStatus
  pub candidate_source : CandidateSource
  pub checkpoint : Option Checkpoint
  pub age : ℕ
  pub reason : SelectionReason

abbrev terminals : List Text
terminals = codes "kitty" ∷ codes "alacritty" ∷ codes "foot" ∷ codes "wezterm" ∷ []

unfoldable pub is_terminal : Text → Bool
is_terminal app_id = any (λ t. same t (to_lower (trim_space app_id))) terminals

unfoldable pub terminal_windows : State → List Window
terminal_windows state = sort_by window_before (keep (λ w. is_terminal w.app_id) state.windows)

-- An empty option matches every value.
abbrev pub matches : Text → Text → Bool
matches option value = same option [] || same value option

-- The greatest duration, at which `Time.Sub` stops.
abbrev max_duration : ℕ
max_duration = 2 ^ 63 - 1

-- `now.Sub(observedAt)`, and 0 where that is negative or there is no current time.
unfoldable pub checkpoint_age : ℕ → ℕ → ℕ
checkpoint_age observed_at now = if now == 0 then 0 else min (now - observed_at) max_duration

-- Of equal times the earlier candidate stays.
unfoldable pub newer : Option Checkpoint → Checkpoint → Option Checkpoint
newer none c = some c
newer (some best) c = if ltb best.observed_at c.observed_at then some c else some best

unfoldable pub newest :
    (Checkpoint → Bool) → Option Checkpoint → List Checkpoint → Option Checkpoint
unfolding newer
newest p best [] = best
newest p best (c ∷ cs) = newest p (if p c then newer best c else best) cs

-- The tests of the loop in `Select`.
unfoldable pub is_candidate : SelectOptions → Checkpoint → Bool
is_candidate o c =
    not (same (trim_space c.boot_id) [])
    && not (same (trim_space c.boot_id) (trim_space o.current_boot_id))
    && matches o.host c.host
    && matches o.profile c.profile

abbrev is_empty {ℓ} : {A : Type ℓ} → List A → Bool
is_empty [] = true
is_empty (_ ∷ _) = false

unfoldable pub assess : SelectOptions → Checkpoint → Selection
assess o c =
    let age = checkpoint_age c.observed_at o.now in
    if not (o.max_age == 0) && ltb o.max_age age
    then record {
      status = stale;
      candidate_source = no_source;
      checkpoint = some c;
      age = age;
      reason = exceeds_age;
    }
    else if is_empty (terminal_windows c.state)
    then record {
      status = empty;
      candidate_source = no_source;
      checkpoint = some c;
      age = age;
      reason = no_terminal_windows;
    }
    else record {
      status = ready;
      candidate_source = no_source;
      checkpoint = some c;
      age = age;
      reason = no_reason;
    }

unfoldable pub select : List Checkpoint → SelectOptions → Selection
unfolding assess newest is_candidate
select candidates o = elim (newest (is_candidate o) none candidates) [
  | none ↦ record {
    status = not_found;
    candidate_source = no_source;
    checkpoint = none;
    age = 0;
    reason = no_prior_checkpoint;
  }
  | some c ↦ assess o c
]

-- The tests of the loop in `SelectAll`, for the current boot and for a prior one.
unfoldable pub is_in_scope : SelectOptions → Checkpoint → Bool
is_in_scope o c =
    not (same (trim_space c.boot_id) []) && matches o.host c.host && matches o.profile c.profile

unfoldable pub is_current : SelectOptions → Checkpoint → Bool
unfolding is_in_scope
is_current o c = is_in_scope o c && same c.boot_id (trim_space o.current_boot_id)

unfoldable pub is_prior : SelectOptions → Checkpoint → Bool
unfolding is_in_scope
is_prior o c = is_in_scope o c && not (same c.boot_id (trim_space o.current_boot_id))

unfoldable pub assess_prior : SelectOptions → Checkpoint → Selection
assess_prior o c =
    let age = checkpoint_age c.observed_at o.now in
    let no_active = is_empty c.recovery.active_sessions in
    let too_old = not (o.max_age == 0) && ltb o.max_age age in
    record {
      status = if no_active then empty else if too_old then stale else ready;
      candidate_source = prior_active;
      checkpoint = some c;
      age = age;
      reason =
          if no_active
          then no_active_sessions
          else if too_old
          then recovery_exceeds_age
          else newest_allow_list;
    }

unfoldable pub select_prior : List Checkpoint → SelectOptions → Selection
unfolding assess_prior newest is_prior
select_prior candidates o = elim (newest (is_prior o) none candidates) [
  | none ↦ record {
    status = not_found;
    candidate_source = prior_active;
    checkpoint = none;
    age = 0;
    reason = no_recovery_point;
  }
  | some c ↦ assess_prior o c
]

unfoldable pub select_all : List Checkpoint → SelectOptions → Selection
unfolding select_prior newest is_current
select_all candidates o = elim (newest (is_current o) none candidates) [
  | none ↦ select_prior candidates o
  | some c ↦ record {
    status = ready;
    candidate_source = current_active;
    checkpoint = some c;
    age = checkpoint_age c.observed_at o.now;
    reason = sticky_placement;
  }
]

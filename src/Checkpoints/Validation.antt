-- ===== src/Checkpoints/Validation.antt =====
-- `validateRecovery` of internal/checkpoints/store.go: what it asks of an inventory.
use terminal_redeemer.Base.{
  ◌≡◌, refl, sym, ap, subst, ◌∙◌, inl, inr, true, false, not, ◌&&◌, ◌||◌, ◌==◌, List, [], ◌∷◌,
  Option, none, Text, same, seen, any, Distinct, All, length, arith, by_test, Option-cases,
  trim_space,
}
use terminal_redeemer.Model.{RecoverySession, RecoveryInventory}
use terminal_redeemer.Checkpoints.{
  RecoveryError, is_blank, is_placed, is_zero_time, check_active, check_sessions, validate_recovery,
}

-- A name as the catalog gives it.
abbrev pub IsName : Text → Type 0
IsName name = (is_blank name || not (same name (trim_space name))) ≡ false

-- A session's placement has a time, and an occupied column a complete placement.
abbrev pub IsObserved : RecoverySession → Type 0
IsObserved s =
    (is_zero_time s.placement_observed_at ≡ false)
    × ((s.captured_column_occupied && not (is_placed s)) ≡ false)

-- No name is among those before or repeated.
abbrev pub Fresh : List Text → List Text → Type 0
Fresh before [] = Unit
Fresh before (name ∷ names) = (seen name before ≡ false) × Fresh (name ∷ before) names

unseen_later :
    (before : List Text) (n : Text) (names : List Text)
    → seen n names ≡ false
    → All (λ m. seen m before ≡ false) names
    → All (λ m. seen m (n ∷ before) ≡ false) names
unfolding any
unseen_later before n [] f h = tt
unseen_later before n (m ∷ names) f h =
    (ground (arith, h.0, f), unseen_later before n names (ground (arith, f)) h.1)

pub Distinct-Fresh :
    (before names : List Text)
    → Distinct names
    → All (λ n. seen n before ≡ false) names
    → Fresh before names
Distinct-Fresh before [] d h = tt
Distinct-Fresh before (n ∷ names) d h =
    (h.0, Distinct-Fresh (n ∷ before) names d.1 (unseen_later before n names d.0 h.1))

check_active-Fresh :
    (before names : List Text)
    → All IsName names
    → Fresh before names
    → check_active before names ≡ none
unfolding check_active
check_active-Fresh before [] h f = refl
check_active-Fresh before (n ∷ names) h f =
    ground (arith, h.0, f.0, check_active-Fresh (n ∷ before) names h.1 f.1)

abbrev pub session_names : List RecoverySession → List Text
session_names [] = []
session_names (s ∷ ss) = s.name ∷ session_names ss

check_sessions-Fresh :
    (active before : List Text) (ss : List RecoverySession)
    → All IsObserved ss
    → All (λ n. seen n active ≡ true) (session_names ss)
    → Fresh before (session_names ss)
    → check_sessions active before ss ≡ none
unfolding check_sessions
check_sessions-Fresh active before [] o a f = refl
check_sessions-Fresh active before (s ∷ ss) o a f =
    ground (arith, o.0, a.0, f.0, check_sessions-Fresh active (s.name ∷ before) ss o.1 a.1 f.1)

check_sessions-IsObserved :
    (active before : List Text) (ss : List RecoverySession)
    → check_sessions active before ss ≡ none
    → All IsObserved ss
unfolding check_sessions
check_sessions-IsObserved active before [] h = tt
check_sessions-IsObserved active before (s ∷ ss) h =
    let rest = check_sessions-IsObserved active (s.name ∷ before) ss in
    by_test P (not (seen s.name active) || seen s.name before) _ _ (λ _ k. cc)
      (λ _.
        by_test P (is_zero_time s.placement_observed_at) _ _ (λ _ k. cc)
          (λ z.
            by_test P (s.captured_column_occupied && not (is_placed s)) _ _ (λ _ k. cc)
              (λ o k. ((z, o), rest k))))
      h
  where
    P : Option RecoveryError → Type 0
    P r = r ≡ none → All IsObserved (s ∷ ss)

-- A validated inventory has observed sessions.
pub validate_recovery-IsObserved :
    (r : RecoveryInventory) → validate_recovery r ≡ none → All IsObserved r.sessions
unfolding validate_recovery
validate_recovery-IsObserved r h =
    by_test P (not (length r.active_sessions == length r.sessions)) _ _ (λ _ k. cc)
      (λ _. elim (Option-cases (check_active [] r.active_sessions)) [
        | inl e ↦ rw e (check_sessions-IsObserved r.active_sessions [] r.sessions)
        | inr (x, e) ↦ rw e (λ k. cc)
      ])
      h
  where
    P : Option RecoveryError → Type 0
    P x = x ≡ none → All IsObserved r.sessions

length-session_names : (ss : List RecoverySession) → length (session_names ss) ≡ length ss
length-session_names [] = refl
length-session_names (s ∷ ss) = omega (arith, length-session_names ss)

seen_later :
    (n : Text) (names rest : List Text)
    → All (λ m. seen m names ≡ true) rest
    → All (λ m. seen m (n ∷ names) ≡ true) rest
unfolding any
seen_later n names [] h = tt
seen_later n names (m ∷ rest) h = (ground (arith, h.0), seen_later n names rest h.1)

pub All-seen : (names : List Text) → All (λ n. seen n names ≡ true) names
unfolding any
All-seen [] = tt
All-seen (n ∷ names) = (ground arith, seen_later n names names (All-seen names))

pub none_before : (names : List Text) → All (λ m. seen m [] ≡ false) names
unfolding any
none_before [] = tt
none_before (n ∷ names) = (refl, none_before names)

-- An inventory with one observed session for each of its distinct names is valid.
pub validate_recovery-accepts :
    (r : RecoveryInventory)
    → session_names r.sessions ≡ r.active_sessions
    → All IsName r.active_sessions
    → Distinct r.active_sessions
    → All IsObserved r.sessions
    → validate_recovery r ≡ none
unfolding validate_recovery
validate_recovery-accepts r e n d o =
    let l : length r.active_sessions ≡ length r.sessions =
      ap length (sym e) ∙ length-session_names r.sessions in
    let f = Distinct-Fresh [] r.active_sessions d (none_before r.active_sessions) in
    let a = check_active-Fresh [] r.active_sessions n f in
    let s =
      check_sessions-Fresh r.active_sessions [] r.sessions o
        (subst (All (λ m. seen m r.active_sessions ≡ true)) (sym e) (All-seen r.active_sessions))
        (subst (Fresh []) (sym e) f) in
    ground (arith, l, a, s)

-- ===== src/Capture/Inventory/Recall.antt =====
-- `buildRecoveryInventory` of internal/capture/runner.go: what its loops over the history leave for each
-- active session.
use terminal_redeemer.Base.{
  ◌≡◌, refl, sym, ap, ◌∙◌, Bool, true, false, not, ◌&&◌, List, [], ◌∷◌, ◌++◌, Option, none, some,
  Text, same, seen, any, Map, get, put, get-put, get-put_same, text_discrete, first, Bool-cases,
  inl, inr, arith, by_test, if◌then◌else◌,
}
use mathlib.Core.Path.{ap₂}
use terminal_redeemer.Model.{RecoverySession, Checkpoint}
use terminal_redeemer.Checkpoints.{is_some}
use terminal_redeemer.Capture.Inventory.{
  bare_session, bare_sessions, fill_cwd, fill_placement, fill_session, or_empty, refill, fill_prior,
  fill_checkpoint, fill_history,
}

-- The recorded sessions, those of the newest checkpoint first.
abbrev pub newest_first : List Checkpoint → List RecoverySession
newest_first [] = []
newest_first (c ∷ cs) = newest_first cs ++ c.recovery.sessions

-- What the records of one name make of a session.
abbrev pub recall : Text → List RecoverySession → RecoverySession → RecoverySession
recall name [] s = s
recall name (p ∷ ps) s = recall name ps (if same p.name name then fill_session p s else s)

recall-append :
    (name : Text) (ps qs : List RecoverySession) (s : RecoverySession)
    → recall name (ps ++ qs) s ≡ recall name qs (recall name ps s)
recall-append name [] qs s = refl
recall-append name (p ∷ ps) qs s = recall-append name ps qs _

get-refill :
    (name : Text) (p : RecoverySession) (o : Option RecoverySession) (m : Map RecoverySession)
    (s : RecoverySession)
    → (p.name ≡ name → o ≡ some s)
    → get name m ≡ some s
    → get name (refill p o m) ≡ some (if same p.name name then fill_session p s else s)
get-refill name p none m s f h =
    by_test (λ x. get name m ≡ some x) (same p.name name) _ _
      (λ t. absurd (clash (f (ground arith)))) (λ _. h)
  where
    clash : ◌≡◌ {A = Option RecoverySession} none (some s) → ⊥
    clash e = cc
get-refill name p (some current) m s f h =
    get-put p.name name (fill_session p current) m
    ∙ by_test (λ x. x ≡ some (if same p.name name then fill_session p s else s)) (same p.name name)
        _ _ (λ t. filled t (f (ground arith))) (λ n. h ∙ kept n)
  where
    filled :
        same p.name name ≡ true
        → some current ≡ some s
        → some (fill_session p current) ≡ some (if same p.name name then fill_session p s else s)
    filled t e = rw t (ap (λ x. some (fill_session p (or_empty x))) e)

    kept :
        same p.name name ≡ false → some s ≡ some (if same p.name name then fill_session p s else s)
    kept n = rw n refl

get-fill_prior :
    (name : Text) (p : RecoverySession) (m : Map RecoverySession) (s : RecoverySession)
    → get name m ≡ some s
    → get name (fill_prior p m) ≡ some (if same p.name name then fill_session p s else s)
unfolding fill_prior
get-fill_prior name p m s h = get-refill name p (get p.name m) m s (λ q. ap (λ k. get k m) q ∙ h) h

get-fill_checkpoint :
    (name : Text) (ps : List RecoverySession) (m : Map RecoverySession) (s : RecoverySession)
    → get name m ≡ some s
    → get name (fill_checkpoint ps m) ≡ some (recall name ps s)
unfolding fill_checkpoint
get-fill_checkpoint name [] m s h = h
get-fill_checkpoint name (p ∷ ps) m s h =
    get-fill_checkpoint name ps (fill_prior p m) _ (get-fill_prior name p m s h)

pub get-fill_history :
    (name : Text) (cs : List Checkpoint) (m : Map RecoverySession) (s : RecoverySession)
    → get name m ≡ some s
    → get name (fill_history cs m) ≡ some (recall name (newest_first cs) s)
unfolding fill_history
get-fill_history name [] m s h = h
get-fill_history name (c ∷ cs) m s h =
    get-fill_checkpoint name c.recovery.sessions (fill_history cs m) _
      (get-fill_history name cs m s h)
    ∙ ap some (sym (recall-append name (newest_first cs) c.recovery.sessions s))

get-bare_sessions_old :
    (name : Text) (names : List Text) (m : Map RecoverySession)
    → get name m ≡ some (bare_session name)
    → get name (bare_sessions names m) ≡ some (bare_session name)
unfolding bare_sessions
get-bare_sessions_old name [] m h = h
get-bare_sessions_old name (n ∷ names) m h =
    get-bare_sessions_old name names (put n (bare_session n) m) (
      get-put n name (bare_session n) m
      ∙ by_test (λ o. o ≡ some (bare_session name)) (same n name) _ _ (λ t. renamed t) (λ _. h))
  where
    renamed : same n name ≡ true → some (bare_session n) ≡ some (bare_session name)
    renamed t = let q : n ≡ name = ground arith in ap (λ x. some (bare_session x)) q

pub get-bare_sessions :
    (name : Text) (names : List Text) (m : Map RecoverySession)
    → seen name names ≡ true
    → get name (bare_sessions names m) ≡ some (bare_session name)
unfolding bare_sessions any
get-bare_sessions name [] m h = cc
get-bare_sessions name (n ∷ names) m h = elim (text_discrete n name) [
  | yes q ↦
      get-bare_sessions_old name names (put n (bare_session n) m)
        (get-put_same n name (bare_session n) m q ∙ ap (λ x. some (bare_session x)) q)
  | no q ↦ get-bare_sessions name names (put n (bare_session n) m) (ground arith)
]

-- The newest record of the name with a working directory, and with an observed placement.
abbrev pub newest_cwd : Text → List RecoverySession → Option RecoverySession
newest_cwd name = first (λ p. same p.name name && not (same p.cwd []))

abbrev pub newest_placement : Text → List RecoverySession → Option RecoverySession
newest_placement name = first (λ p. same p.name name && is_some p.placement_observed_at)

abbrev pub with_cwd : Option RecoverySession → RecoverySession → RecoverySession
with_cwd none s = s
with_cwd (some p) s = record s { cwd = p.cwd }

abbrev pub with_placement : Option RecoverySession → RecoverySession → RecoverySession
with_placement none s = s
with_placement (some p) s = record s {
  workspace_ref = p.workspace_ref;
  placement = p.placement;
  placement_observed_at = p.placement_observed_at;
  captured_column_occupied = p.captured_column_occupied;
}

abbrev pub unless {ℓ} : {A : Type ℓ} → Bool → Option A → Option A
unless b o = if b then none else o

cwd_again :
    (p s : RecoverySession) (o : Option RecoverySession)
    → with_cwd (unless (not (same (fill_cwd p s).cwd [])) o) (fill_cwd p s)
      ≡ with_cwd (unless (not (same s.cwd [])) (if not (same p.cwd []) then some p else o)) s
cwd_again p s o = ground arith

placement_again :
    (p s : RecoverySession) (o : Option RecoverySession)
    → with_placement
        (unless (is_some (fill_placement p s).placement_observed_at) o)
        (fill_placement p s)
      ≡ with_placement
          (unless
            (is_some s.placement_observed_at)
            (if is_some p.placement_observed_at then some p else o))
          s
placement_again p s o = ground arith

fill_placement_cwd : (p s : RecoverySession) → (fill_placement p s).cwd ≡ s.cwd
fill_placement_cwd p s =
    by_test (λ (x : RecoverySession). x.cwd ≡ s.cwd)
      (not (is_some s.placement_observed_at) && is_some p.placement_observed_at) _ _ (λ _. refl)
      (λ _. refl)

with_cwd-fill_placement :
    (p s : RecoverySession) (o : Option RecoverySession)
    → with_cwd o (fill_placement p s) ≡ fill_placement p (with_cwd o s)
with_cwd-fill_placement p s none = refl
with_cwd-fill_placement p s (some q) =
    by_test (λ (x : RecoverySession). with_cwd (some q) x ≡ fill_placement p (with_cwd (some q) s))
      (not (is_some s.placement_observed_at) && is_some p.placement_observed_at) _ _
      (λ t. rw t refl) (λ f. rw f refl)

same_time :
    (p s t : RecoverySession)
    → s.placement_observed_at ≡ t.placement_observed_at
    → (fill_placement p s).placement_observed_at ≡ (fill_placement p t).placement_observed_at
same_time p s t e = ground (arith, e)

with_cwd-time :
    (o : Option RecoverySession) (s : RecoverySession)
    → (with_cwd o s).placement_observed_at ≡ s.placement_observed_at
with_cwd-time none s = refl
with_cwd-time (some p) s = refl

fill_cwd-time :
    (p s : RecoverySession) → (fill_cwd p s).placement_observed_at ≡ s.placement_observed_at
fill_cwd-time p s =
    by_test (λ (x : RecoverySession). x.placement_observed_at ≡ s.placement_observed_at)
      (same s.cwd [] && not (same p.cwd [])) _ _ (λ _. refl) (λ _. refl)

-- The newest records of what is still missing.
abbrev recalled :
    Option RecoverySession → Option RecoverySession → RecoverySession → RecoverySession
recalled placed directory s =
    with_placement (unless (is_some s.placement_observed_at) placed)
      (with_cwd (unless (not (same s.cwd [])) directory) s)

recalled-fill_session :
    (p s : RecoverySession) (placed directory : Option RecoverySession)
    → recalled placed directory (fill_session p s)
      ≡ recalled
          (if is_some p.placement_observed_at then some p else placed)
          (if not (same p.cwd []) then some p else directory)
          s
unfolding fill_session
recalled-fill_session p s placed directory =
    let t = fill_cwd p s in
    let v =
      with_cwd (unless (not (same s.cwd [])) (if not (same p.cwd []) then some p else directory))
        s in
    let moved : fill_placement p (with_cwd (unless (not (same t.cwd [])) directory) t)
        ≡ fill_placement p v =
      ap (fill_placement p) (cwd_again p s directory) in
    let times : t.placement_observed_at ≡ v.placement_observed_at =
      fill_cwd-time p s ∙ sym (with_cwd-time _ s) in
    ap₂ (λ x y. with_placement (unless (is_some x) placed) y) (same_time p t v times)
      (with_cwd-fill_placement p t _
        ∙ ap (λ x. fill_placement p (with_cwd (unless (not (same x [])) directory) t))
            (fill_placement_cwd p t)
        ∙ moved)
    ∙ placement_again p v placed
    ∙ ap
        (λ x.
          with_placement
            (unless (is_some x) (if is_some p.placement_observed_at then some p else placed)) v)
        (with_cwd-time _ s)

recall-recalled :
    (name : Text) (ps : List RecoverySession) (s : RecoverySession)
    → recall name ps s ≡ recalled (newest_placement name ps) (newest_cwd name ps) s
unfolding first
recall-recalled name [] s = ground arith
recall-recalled name (p ∷ ps) s = elim (Bool-cases (same p.name name)) [
  | inl t ↦ rw t (
      recall-recalled name ps (fill_session p s)
      ∙ recalled-fill_session p s (newest_placement name ps) (newest_cwd name ps))
  | inr f ↦ rw f (recall-recalled name ps s)
]

-- For each active name the loops leave the working directory of the newest checkpoint that has one
-- for it, and the workspace, placement, time and occupancy of the newest that observed its placement.
pub fill_history-newest :
    (history : List Checkpoint) (names : List Text) (name : Text)
    → seen name names ≡ true
    → get name (fill_history history (bare_sessions names []))
      ≡ some (
          with_placement
            (newest_placement name (newest_first history))
            (with_cwd (newest_cwd name (newest_first history)) (bare_session name)))
unfolding text_discrete
fill_history-newest history names name h =
    get-fill_history name history (bare_sessions names []) (bare_session name)
      (get-bare_sessions name names [] h)
    ∙ ap some (recall-recalled name (newest_first history) (bare_session name))

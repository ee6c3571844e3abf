-- ===== src/Capture/Inventory/Valid.antt =====
-- `buildRecoveryInventory` of internal/capture/runner.go against `validateRecovery` of
-- internal/checkpoints/store.go.
use mathlib.Core.Path.{ap₂}
use terminal_redeemer.Base.{
  ℕ, ℤ, Distinct-sort_by, ◌≡◌, refl, sym, ap, subst, ◌∙◌, ◌≢◌, true, not, ◌&&◌, List, [], ◌∷◌, ◌++◌,
  Option, none, some, Text, same, seen, Distinct, All, All-sort_by, map, keep, sort_by, insert_by,
  text_ltb, arith, by_test,
}
use terminal_redeemer.Model.{Placement, Window, State, RecoverySession, Checkpoint}
use terminal_redeemer.Model.Normalize.{session_before, normalize_recovery}
use terminal_redeemer.Checkpoints.{is_some, is_one, has_row_one, validate_recovery}
use terminal_redeemer.Checkpoints.Validation.{
  IsName, IsObserved, session_names, validate_recovery-IsObserved, All-seen,
  validate_recovery-accepts,
}
use terminal_redeemer.Capture.Occupancy.{
  complete_recovery_placement, recovery_column_occupied, occupied_at, occupied_by,
}
use terminal_redeemer.Capture.Inventory.{
  bare_session, bare_sessions, fill_cwd, fill_placement, fill_session, fill_history, is_tagged,
  set_cwd, observe_placement, Resolver, observe_session, or_empty, recovery_session,
  build_recovery_inventory,
}
use terminal_redeemer.Capture.Inventory.Recall.{
  newest_first, recall, get-fill_history, get-bare_sessions,
}

-- A session of the name.
abbrev Fit : Text → RecoverySession → Type 0
Fit name s = (s.name ≡ name) × IsObserved s

fill_session-Fit :
    (name : Text) (p s : RecoverySession) → IsObserved p → Fit name s → Fit name (fill_session p s)
unfolding fill_session
fill_session-Fit name p s o h =
    placed (fill_cwd p s)
      (by_test (Fit name) (same s.cwd [] && not (same p.cwd [])) _ _ (λ _. h) (λ _. h))
  where
    placed : (t : RecoverySession) → Fit name t → Fit name (fill_placement p t)
    placed t k =
        by_test (Fit name)
          (not (is_some t.placement_observed_at) && is_some p.placement_observed_at) _ _
          (λ _. (k.0, o)) (λ _. k)

recall-Fit :
    (name : Text) (ps : List RecoverySession) (s : RecoverySession)
    → All IsObserved ps
    → Fit name s
    → Fit name (recall name ps s)
recall-Fit name [] s o h = h
recall-Fit name (p ∷ ps) s o h =
    recall-Fit name ps _ o.1
      (by_test (Fit name) (same p.name name) _ _ (λ _. fill_session-Fit name p s o.0 h) (λ _. h))

occupied_at-is_one :
    (state : State) (w : Window) (column row : Option ℤ)
    → occupied_at state w column row ≡ true
    → (is_some column && is_one row) ≡ true
occupied_at-is_one state w none row h = h
occupied_at-is_one state w (some column) row h =
    by_test (λ b. b ≡ true → is_one row ≡ true) (not (is_one row)) _ _ (λ _ k. cc)
      (λ f _. ground (arith, f)) h

occupied_by-has_row_one :
    (state : State) (w : Window) (o : Option Placement)
    → occupied_by state w o ≡ true
    → has_row_one o ≡ true
occupied_by-has_row_one state w none h = h
occupied_by-has_row_one state w (some p) h = occupied_at-is_one state w p.column p.row h

occupied-has_row_one :
    (state : State) (w : Window)
    → recovery_column_occupied state w ≡ true
    → has_row_one w.placement ≡ true
unfolding recovery_column_occupied
occupied-has_row_one state w h = occupied_by-has_row_one state w w.placement h

set_cwd-Fit : (name cwd : Text) (s : RecoverySession) → Fit name s → Fit name (set_cwd cwd s)
set_cwd-Fit name cwd s h = by_test (Fit name) (not (same cwd [])) _ _ (λ _. h) (λ _. h)

observe_placement-Fit :
    (state : State) (observed_at : ℕ) (w : Window) (name : Text) (s : RecoverySession)
    → observed_at ≢ 0
    → Fit name s
    → Fit name (observe_placement state observed_at w s)
unfolding observe_placement
observe_placement-Fit state observed_at w name s n h =
    by_test (Fit name) (complete_recovery_placement w) _ _
      (λ c. (h.0, (ground arith, ground (arith, c, occupied-has_row_one state w)))) (λ _. h)

observe_session-Fit :
    (state : State) (observed_at : ℕ) (resolver : Resolver) (name : Text) (ws : List Window)
    (s : RecoverySession)
    → observed_at ≢ 0
    → Fit name s
    → Fit name (observe_session state observed_at resolver name ws s)
unfolding observe_session
observe_session-Fit state observed_at resolver name [] s n h = set_cwd-Fit name _ _ h
observe_session-Fit state observed_at resolver name (w ∷ []) s n h =
    observe_placement-Fit state observed_at w name _ n (set_cwd-Fit name _ _ h)
observe_session-Fit state observed_at resolver name (_ ∷ _ ∷ _) s n h = set_cwd-Fit name _ _ h

newest_first-IsObserved :
    (history : List Checkpoint)
    → All (λ c. validate_recovery c.recovery ≡ none) history
    → All IsObserved (newest_first history)
newest_first-IsObserved [] h = tt
newest_first-IsObserved (c ∷ cs) h =
    All-append (newest_first cs) c.recovery.sessions (newest_first-IsObserved cs h.1)
      (validate_recovery-IsObserved c.recovery h.0)
  where
    All-append :
        (ps qs : List RecoverySession)
        → All IsObserved ps
        → All IsObserved qs
        → All IsObserved (ps ++ qs)
    All-append [] qs h k = k
    All-append (p ∷ ps) qs h k = (h.0, All-append ps qs h.1 k)

session_names-insert_by :
    (s : RecoverySession) (ss : List RecoverySession)
    → session_names (insert_by session_before s ss) ≡ insert_by text_ltb s.name (session_names ss)
unfolding insert_by session_before
session_names-insert_by s [] = refl
session_names-insert_by s (t ∷ ss) = ground (arith, session_names-insert_by s ss)

session_names-sort_by :
    (ss : List RecoverySession)
    → session_names (sort_by session_before ss) ≡ sort_by text_ltb (session_names ss)
unfolding sort_by
session_names-sort_by [] = refl
session_names-sort_by (s ∷ ss) =
    session_names-insert_by s (sort_by session_before ss)
    ∙ ap (insert_by text_ltb s.name) (session_names-sort_by ss)

session_names-map :
    (f : Text → RecoverySession) (names : List Text)
    → All (λ n. Fit n (f n)) names
    → session_names (map f names) ≡ names
session_names-map f [] h = refl
session_names-map f (n ∷ names) h = ap₂ (λ x y. x ∷ y) h.0.0 (session_names-map f names h.1)

IsObserved-map :
    (f : Text → RecoverySession) (names : List Text)
    → All (λ n. Fit n (f n)) names
    → All IsObserved (map f names)
IsObserved-map f [] h = tt
IsObserved-map f (n ∷ names) h = (h.0.1, IsObserved-map f names h.1)

module _ (state : State) (active : List Text) (history : List Checkpoint) (observed_at : ℕ)
    (resolver : Resolver) (n : observed_at ≢ 0)
    (h : All (λ c. validate_recovery c.recovery ≡ none) history) where
  abbrev session_of : Text → RecoverySession
  session_of =
      recovery_session state observed_at resolver (fill_history history (bare_sessions active []))

  session_of-Fit : (name : Text) → seen name active ≡ true → Fit name (session_of name)
  unfolding recovery_session
  session_of-Fit name m =
      observe_session-Fit state observed_at resolver name (keep (is_tagged name) state.windows) _ n
        (subst (λ o. Fit name (or_empty o))
          (sym (
            get-fill_history name history (bare_sessions active []) (bare_session name)
              (get-bare_sessions name active [] m)))
          (recall-Fit name (newest_first history) (bare_session name)
            (newest_first-IsObserved history h) (refl, (refl, refl))))

  sessions_Fit :
      (names : List Text)
      → All (λ m. seen m active ≡ true) names
      → All (λ m. Fit m (session_of m)) names
  sessions_Fit [] a = tt
  sessions_Fit (m ∷ names) a = (session_of-Fit m a.0, sessions_Fit names a.1)

-- From distinct names as the catalog gives them, a valid history and a time, the inventory that is
-- built passes the validation of a checkpoint, whatever the windows and the resolver show.
pub build_recovery_inventory-valid :
    (state : State) (active : List Text) (history : List Checkpoint) (observed_at : ℕ)
    (resolver : Resolver)
    → All IsName active
    → Distinct active
    → All (λ c. validate_recovery c.recovery ≡ none) history
    → observed_at ≢ 0
    → validate_recovery (build_recovery_inventory state active history observed_at resolver) ≡ none
unfolding build_recovery_inventory normalize_recovery
build_recovery_inventory-valid state active history observed_at resolver a d h n =
    let f = sessions_Fit state active history observed_at resolver n h active (All-seen active) in
    let g = session_of state active history observed_at resolver n h in
    validate_recovery-accepts _
      (session_names-sort_by (map g active) ∙ ap (sort_by text_ltb) (session_names-map g active f))
      (All-sort_by IsName text_ltb active a) (Distinct-sort_by text_ltb active d)
      (All-sort_by IsObserved session_before (map g active) (IsObserved-map g active f))

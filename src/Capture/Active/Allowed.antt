-- ===== src/Capture/Active/Allowed.antt =====
-- `authoritativeActiveSessions` of internal/capture/runner.go: the names that it lets through.
use terminal_redeemer.Base.{
  ◌≡◌, refl, ap, subst, ◌∙◌, inl, inr, Bool, true, false, not, ◌||◌, List, [], ◌∷◌, Option, none,
  some, Text, same, seen, any, Map, get, keys, Distinct, Distinct-sort_by, All, All-sort_by,
  any-sort_by, text_ltb, trim_space, arith, by_test, text_discrete, Option-cases,
}
use terminal_redeemer.Checkpoints.{is_blank, is_some}
use terminal_redeemer.Checkpoints.Validation.{IsName}
use terminal_redeemer.Zellij.Catalog.{
  Catalog, Session, LiveStatus, active, dead_resurrectable, missing, prefix_only, duplicate,
  socket_invalid, unknown,
}
use terminal_redeemer.Capture.Active.{
  CatalogError, ActiveSessions, authoritative, ambiguous, check_names, add_active, with_status,
  collect_active, sorted_active, authoritative_active_sessions,
}

abbrev is_active_status : LiveStatus → Bool
is_active_status active = true
is_active_status _ = false

abbrev is_active_record : Option Session → Bool
is_active_record none = false
is_active_record (some s) = is_active_status s.status

-- The catalog has an active session of the name.
abbrev pub is_active_name : Map Session → Text → Bool
is_active_name sessions name = is_active_record (get name sessions)

-- The list holds each active session once, under a name of the kind.
abbrev pub AllowList : (Text → Type 0) → Map Session → ActiveSessions → Type 0
AllowList P sessions (ambiguous _) = Unit
AllowList P sessions (authoritative names) =
    All P names × Distinct names × ((name : Text) → seen name names ≡ is_active_name sessions name)

unseen_record :
    (name : Text) (sessions : Map Session)
    → seen name (keys sessions) ≡ false
    → is_active_name sessions name ≡ false
unfolding keys any get
unseen_record name [] h = refl
unseen_record name ((n, s) ∷ sessions) h = ground (arith, h, unseen_record name sessions)

module _ (P : Text → Type 0) (name : Text) (session : Session) (sessions : Map Session) (p : P name)
    (d : seen name (keys sessions) ≡ false) where
  skipped :
      (names : List Text)
      → is_active_status session.status ≡ false
      → ((n : Text) → seen n names ≡ is_active_name sessions n)
      → (n : Text) → seen n names ≡ is_active_name ((name, session) ∷ sessions) n
  unfolding get
  skipped names f h n = ground (arith, f, h n, unseen_record name sessions d)

  added :
      (names : List Text)
      → is_active_status session.status ≡ true
      → ((n : Text) → seen n names ≡ is_active_name sessions n)
      → (n : Text) → seen n (name ∷ names) ≡ is_active_name ((name, session) ∷ sessions) n
  unfolding get any
  added names f h n = ground (arith, f, h n)

  add_active-AllowList :
      (rest : ActiveSessions)
      → is_active_status session.status ≡ true
      → AllowList P sessions rest
      → AllowList P ((name, session) ∷ sessions) (add_active name rest)
  add_active-AllowList (ambiguous e) f h = tt
  add_active-AllowList (authoritative names) f h =
      ((p, h.0), (h.2 name ∙ unseen_record name sessions d, h.1), added names f h.2)

  skip-AllowList :
      (rest : ActiveSessions)
      → is_active_status session.status ≡ false
      → AllowList P sessions rest
      → AllowList P ((name, session) ∷ sessions) rest
  skip-AllowList (ambiguous e) f h = tt
  skip-AllowList (authoritative names) f h = (h.0, h.1, skipped names f h.2)

  with_status-AllowList :
      (status : LiveStatus) (rest : ActiveSessions)
      → session.status ≡ status
      → AllowList P sessions rest
      → AllowList P ((name, session) ∷ sessions) (with_status name status rest)
  with_status-AllowList active rest e h = add_active-AllowList rest (ap is_active_status e) h
  with_status-AllowList dead_resurrectable rest e h = skip-AllowList rest (ap is_active_status e) h
  with_status-AllowList missing rest e h = tt
  with_status-AllowList prefix_only rest e h = tt
  with_status-AllowList duplicate rest e h = tt
  with_status-AllowList socket_invalid rest e h = tt
  with_status-AllowList unknown rest e h = tt

collect_active-AllowList :
    (P : Text → Type 0) (names : List Text) (sessions : Map Session)
    → ((n : Text) → seen n names ≡ true → P n)
    → Distinct (keys sessions)
    → AllowList P sessions (collect_active names sessions)
unfolding collect_active keys any get
collect_active-AllowList P names [] f d = (tt, tt, λ n. refl)
collect_active-AllowList P names ((name, session) ∷ sessions) f d =
    let rest = collect_active-AllowList P names sessions f d.1 in
    by_test (AllowList P ((name, session) ∷ sessions))
      (not (seen name names) || not (same session.name name)) _ _ (λ _. tt)
      (λ e.
        with_status-AllowList P name session sessions (f name (ground (arith, e))) d.0
          session.status _ refl rest)

either_false : (a b c : Bool) → (a || b || c) ≡ false → (a || b) ≡ false
either_false a b c f = ground (arith, f)

check_names-IsName :
    (sessions : Map Session) (before names : List Text)
    → check_names sessions before names ≡ none
    → (n : Text) → seen n names ≡ true
    → IsName n
unfolding check_names any
check_names-IsName sessions before [] h n m = cc
check_names-IsName sessions before (name ∷ names) h n m =
    let rest = λ (k : check_names sessions (name ∷ before) names ≡ none).
      check_names-IsName sessions (name ∷ before) names k n in
    by_test P (is_blank name || not (same name (trim_space name)) || seen name before) _ _
      (λ _ k. cc)
      (λ f.
        by_test P (not (is_some (get name sessions))) _ _ (λ _ k. cc)
          (λ _ k. elim (text_discrete name n) [
            | yes q ↦ subst IsName q (passes f)
            | no q ↦ rest k (ground (arith, m))
          ]))
      h
  where
    P : Option CatalogError → Type 0
    P r = r ≡ none → IsName n

    passes :
        (is_blank name || not (same name (trim_space name)) || seen name before) ≡ false
        → IsName name
    passes f = either_false (is_blank name) (not (same name (trim_space name))) (seen name before) f

sorted_active-AllowList :
    (P : Text → Type 0) (sessions : Map Session) (r : ActiveSessions)
    → AllowList P sessions r
    → AllowList P sessions (sorted_active r)
sorted_active-AllowList P sessions (ambiguous e) h = tt
sorted_active-AllowList P sessions (authoritative names) h = (
  All-sort_by P text_ltb names h.0,
  Distinct-sort_by text_ltb names h.1,
  λ n. any-sort_by (λ y. same y n) text_ltb names ∙ h.2 n,
)

-- Where the catalog is not ambiguous, the list holds exactly the names of its active sessions, each
-- once, none blank or with white space around it; a map has one record for a name.
pub authoritative_active_sessions-AllowList :
    (catalog : Catalog)
    → Distinct (keys catalog.sessions)
    → AllowList IsName catalog.sessions (authoritative_active_sessions catalog)
unfolding authoritative_active_sessions
authoritative_active_sessions-AllowList catalog d =
    elim (Option-cases (check_names catalog.sessions [] catalog.names)) [
      | inr (e, h) ↦ rw (h, AllowList) tt
      | inl h ↦
          rw (h, AllowList)
            (sorted_active-AllowList IsName catalog.sessions
              (collect_active catalog.names catalog.sessions)
              (collect_active-AllowList IsName catalog.names catalog.sessions
                (check_names-IsName catalog.sessions [] catalog.names h) d))
    ]
